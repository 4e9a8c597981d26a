-- ===== src/P2p/Peer.antt =====
-- `handle` of p2p/peer.go: what a node does with a message that a peer sent.
use go_hashgrid.Common.{
  ℕ, ◌≡◌, subst, inl, inr, ◌||◌, Option, none, some, [], ◌∷◌, ◌++◌, ◌==◌, if◌then◌else◌, Bool-cases,
  Option-cases, length, ℤ, Bytes, Outcome, done, ◌>>=◌, >>=-eq-done, done-injective,
}
use go_hashgrid.Types.Address.{Address}
use go_hashgrid.Types.Hash.{Hash}
use go_hashgrid.Types.Event.{Event}
use go_hashgrid.Jigsaw.State.{JpGraph, normal, witness_remote, witness_local}
use go_hashgrid.Jigsaw.AddEvent.Place.{IsWellLinked}
use go_hashgrid.Jigsaw.Retrieve.{
  Retrieved, found, no_coinbase, not_found, retrieve_event, retrieve_event-hash,
}
use go_hashgrid.P2p.Frame.{Msg}

abbrev pub disc_msg : ℕ
disc_msg = 1

abbrev pub ping_msg : ℕ
ping_msg = 2

abbrev pub pong_msg : ℕ
pong_msg = 3

abbrev pub reqs_msg : ℕ
reqs_msg = 4

abbrev pub resp_msg : ℕ
resp_msg = 5

abbrev pub event_msg : ℕ
event_msg = 16

-- What `msg.Decode` leaves in the variable given to it, errors included: an event, whose round
-- number comes apart since it is a new integer, or nil; a hash; and an address.
pub record Codec : Type 0 where
  pub event_of : Bytes → Event
  pub round_of : Bytes → Option ℤ
  pub hash_of : Bytes → Hash
  pub address_of : Bytes → Address

-- The decoded event with a pointer to its round number.
unfoldable pub decode_event : Codec → Bytes → JpGraph → Event × JpGraph
decode_event c b jp = elim (c.round_of b) [
  | none ↦ (record (c.event_of b) { round_id = none }, jp)
  | some n ↦ (
    record (c.event_of b) { round_id = some (length jp.bigs) },
    record jp { bigs = jp.bigs ++ n ∷ [] },
  )
]

-- `ChanEvent` and the send on that channel; `none` is the nil channel.
unfoldable pub send_event : ℕ → Event → JpGraph → Option JpGraph
send_event ty e jp =
    if ty == normal
    then some (record jp { event_norm = jp.event_norm ++ e ∷ [] })
    else if ty == witness_remote
    then some (record jp { witness_r = jp.witness_r ++ e ∷ [] })
    else if ty == witness_local
    then some (record jp { witness_l = jp.witness_l ++ e ∷ [] })
    else none

-- What is sent back, or the error that ends the reading loop.
pub data Reaction : Type 0 where
  quiet pong failed : Reaction
  answer : Event → ℕ → Reaction

abbrev pub react : Retrieved → Reaction
react (found e ty) = answer e ty
react no_coinbase = failed
react not_found = failed

-- An event of no known type is discarded.
unfoldable pub deliver : ℕ → Event → JpGraph → JpGraph
unfolding send_event
deliver ty e jp = elim (send_event ty e jp) [ none ↦ jp | some jp' ↦ jp' ]

unfoldable pub receive_event : Codec → Msg → JpGraph → JpGraph
unfolding decode_event deliver
receive_event c msg jp = let (e, jp1) = decode_event c msg.payload jp in deliver msg.type e jp1

unfoldable pub handle : Codec → Msg → JpGraph → Outcome (Reaction × JpGraph)
unfolding receive_event
handle c msg jp =
    if msg.code == ping_msg
    then done (pong, jp)
    else if (msg.code == pong_msg) || (msg.code == disc_msg)
    then done (quiet, jp)
    else if msg.code == event_msg
    then done (quiet, receive_event c msg jp)
    else if msg.code == reqs_msg
    then (retrieve_event (c.hash_of msg.payload) jp >>= λ r. done (react r, jp))
    else done (quiet, jp)

-- An answer is the event that was asked for.
abbrev pub Answers : Hash → Reaction → Type 0
Answers h (answer e ty) = e.self_hash ≡ h
Answers h _ = Unit

decode_event-WellLinked :
    (c : Codec) (b : Bytes) (jp : JpGraph) → IsWellLinked jp → IsWellLinked (decode_event c b jp).1
unfolding decode_event
decode_event-WellLinked c b jp w = elim (Option-cases (c.round_of b)) [
  | inl none_sent ↦ rw (none_sent, decode_event) w
  | inr (n, sent) ↦ rw (sent, decode_event) w
]

deliver-WellLinked :
    (ty : ℕ) (e : Event) (jp : JpGraph) → IsWellLinked jp → IsWellLinked (deliver ty e jp)
unfolding deliver
deliver-WellLinked ty e jp w = elim (Bool-cases (ty == normal)) [
  | inl n ↦ rw (n, deliver) w
  | inr n ↦ elim (Bool-cases (ty == witness_remote)) [
    | inl r ↦ rw (n, r, deliver) w
    | inr r ↦ elim (Bool-cases (ty == witness_local)) [
      | inl l ↦ rw (n, r, l, deliver) w
      | inr l ↦ rw (n, r, l, deliver) w
    ]
  ]
]

receive_event-WellLinked :
    (c : Codec) (msg : Msg) (jp : JpGraph) → IsWellLinked jp → IsWellLinked (receive_event c msg jp)
unfolding receive_event
receive_event-WellLinked c msg jp w =
    deliver-WellLinked msg.type (decode_event c msg.payload jp).0 (decode_event c msg.payload jp).1
      (decode_event-WellLinked c msg.payload jp w)

retrieve-Answers :
    (h : Hash) (jp : JpGraph) (r : Retrieved)
    → IsWellLinked jp
    → retrieve_event h jp ≡ done r
    → Answers h (react r)
retrieve-Answers h jp (found e ty) w got = retrieve_event-hash h jp e ty w got
retrieve-Answers h jp no_coinbase w got = tt
retrieve-Answers h jp not_found w got = tt

-- A reaction that answers nothing, and the graph that it leaves.
settled :
    (h : Hash) (q r : Reaction) (jp jp' : JpGraph)
    → ◌≡◌ {A = Outcome (Reaction × JpGraph)} (done (q, jp)) (done (r, jp'))
    → IsWellLinked jp
    → Answers h q
    → IsWellLinked jp' × Answers h r
settled h q r jp jp' e w a =
    let same = done-injective (q, jp) (r, jp') e in
    subst (λ (x : Reaction × JpGraph). IsWellLinked x.1 × Answers h x.0) same (w, a)

request-Answers :
    (h : Hash) (jp jp' : JpGraph) (r : Reaction)
    → ◌>>=◌ {B = Reaction × JpGraph} (retrieve_event h jp) (λ o. done (react o, jp)) ≡ done (r, jp')
    → IsWellLinked jp
    → IsWellLinked jp' × Answers h r
request-Answers h jp jp' r e w =
    let (o, got, e1) = >>=-eq-done (retrieve_event h jp) (λ o. done (react o, jp)) e in
    settled h (react o) r jp jp' e1 w (retrieve-Answers h jp o w got)

-- Whatever message a peer sends, the links of the graph stay as good as they were, and an event is
-- sent back only if it has the hash that the message asks for.
pub handle-Answers :
    (c : Codec) (msg : Msg) (jp jp' : JpGraph) (r : Reaction)
    → IsWellLinked jp
    → handle c msg jp ≡ done (r, jp')
    → IsWellLinked jp' × Answers (c.hash_of msg.payload) r
unfolding handle
handle-Answers c msg jp jp' r w h =
    let asked = c.hash_of msg.payload in
    elim (Bool-cases (msg.code == ping_msg)) [
      | inl a ↦ settled asked pong r jp jp' (rw (a, handle) at h) w tt
      | inr a ↦ elim (Bool-cases ((msg.code == pong_msg) || (msg.code == disc_msg))) [
        | inl b ↦ settled asked quiet r jp jp' (rw (a, b, handle) at h) w tt
        | inr b ↦ elim (Bool-cases (msg.code == event_msg)) [
          | inl d ↦
              settled asked quiet r (receive_event c msg jp) jp' (rw (a, b, d, handle) at h)
                (receive_event-WellLinked c msg jp w) tt
          | inr d ↦ elim (Bool-cases (msg.code == reqs_msg)) [
            | inl q ↦ request-Answers asked jp jp' r (rw (a, b, d, q, handle) at h) w
            | inr q ↦ settled asked quiet r jp jp' (rw (a, b, d, q, handle) at h) w tt
          ]
        ]
      ]
    ]
