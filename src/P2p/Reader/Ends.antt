-- ===== src/P2p/Reader/Ends.antt =====
-- `readLoop` ends, and keeps the links of the graph.
use go_hashgrid.Common.{
  ℕ, zero, suc, ◌+◌, ◌≤◌, ◌<◌, ◌≡◌, refl, ap, ◌∙◌, inl, inr, true, ◌||◌, List, [], ◌∷◌, arith, leb,
  ◌==◌, leb→le, Bool-cases, Option-cases, length, get_elem?, drop, length-drop, length-append,
  done-injective, ◌++◌, Bytes, bytes_eq, Outcome, done, panic, blocked, out_of_fuel, ◌>>=◌,
  >>=-eq-done, lookup,
}
use go_hashgrid.Types.Hash.{Hash}
use go_hashgrid.Jigsaw.State.{JpGraph, Vertex, deref_vertex}
use go_hashgrid.Jigsaw.AddEvent.Place.{IsWellLinked}
use go_hashgrid.Types.Event.{Event}
use go_hashgrid.Jigsaw.State.{normal, witness_remote, witness_local}
use go_hashgrid.Jigsaw.Retrieve.{retrieve_event, retrieve_loop}
use go_hashgrid.P2p.Frame.{Msg, read_msg, read_full, read_body, read_int32}
use go_hashgrid.P2p.Peer.{
  Codec, Reaction, failed, quiet, pong, answer, handle, handle-Answers, ping_msg, pong_msg,
  disc_msg, event_msg, reqs_msg, deliver, send_event, receive_event, decode_event, react,
}
use go_hashgrid.P2p.Reader.{Reading, after_handle, read_loop}
use go_hashgrid.Common.{Runs, Runs->>=, Runs-if, Sum-cases}

-- How many events are sent on the channels that `ChanEvent` names.
abbrev pub sent_events : JpGraph → ℕ
sent_events jp = length jp.event_norm + length jp.witness_r + length jp.witness_l

-- After at most n messages: the links are right, and there is at most one event sent for each.
pub record IsRead (n : ℕ) (jp : JpGraph) (r : Reading) : Type 0 where
  pub linked : IsWellLinked r.graph
  pub few : length r.reactions ≤ n
  pub sent : sent_events r.graph ≤ sent_events jp + length r.reactions

-- The run ends, so read where it returns.
abbrev pub IsSafe : ℕ → JpGraph → Outcome Reading → Type 0
IsSafe n jp (done r) = IsRead n jp r
IsSafe n jp panic = Unit
IsSafe n jp blocked = ⊥
IsSafe n jp out_of_fuel = ⊥

deliver-sent :
    (ty : ℕ) (e : Event) (jp : JpGraph) → sent_events (deliver ty e jp) ≤ sent_events jp + 1
unfolding deliver send_event
deliver-sent ty e jp = elim (Bool-cases (ty == normal)) [
  | inl n ↦ rw (n, deliver) (omega (arith, length-append jp.event_norm (e ∷ [])))
  | inr n ↦ elim (Bool-cases (ty == witness_remote)) [
    | inl r ↦ rw (n, r, deliver) (omega (arith, length-append jp.witness_r (e ∷ [])))
    | inr r ↦ elim (Bool-cases (ty == witness_local)) [
      | inl l ↦ rw (n, r, l, deliver) (omega (arith, length-append jp.witness_l (e ∷ [])))
      | inr l ↦ rw (n, r, l, deliver) (omega arith)
    ]
  ]
]

receive_event-sent :
    (c : Codec) (msg : Msg) (jp : JpGraph)
    → sent_events (receive_event c msg jp) ≤ sent_events jp + 1
unfolding receive_event decode_event
receive_event-sent c msg jp = elim (Option-cases (c.round_of msg.payload)) [
  | inl none_sent ↦ rw (none_sent, decode_event) (deliver-sent msg.type _ jp)
  | inr (n, sent) ↦
      rw (sent, decode_event) (deliver-sent msg.type _ (record jp { bigs = jp.bigs ++ n ∷ [] }))
]

unchanged-sent :
    (q r : Reaction) (jp jp' : JpGraph)
    → ◌≡◌ {A = Outcome (Reaction × JpGraph)} (done (q, jp)) (done (r, jp'))
    → sent_events jp' ≤ sent_events jp + 1
unchanged-sent q r jp jp' e =
    omega
      (arith, ap (λ (x : Reaction × JpGraph). sent_events x.1) (done-injective (q, jp) (r, jp') e))

-- `handle` sends no event but one that it has received.
handle-sent :
    (c : Codec) (msg : Msg) (jp jp' : JpGraph) (r : Reaction)
    → handle c msg jp ≡ done (r, jp')
    → sent_events jp' ≤ sent_events jp + 1
unfolding handle
handle-sent c msg jp jp' r h = elim (Bool-cases (msg.code == ping_msg)) [
  | inl a ↦ unchanged-sent pong r jp jp' (rw (a, handle) at h)
  | inr a ↦ elim (Bool-cases ((msg.code == pong_msg) || (msg.code == disc_msg))) [
    | inl b ↦ unchanged-sent quiet r jp jp' (rw (a, b, handle) at h)
    | inr b ↦ elim (Bool-cases (msg.code == event_msg)) [
      | inl d ↦
          let same =
            ap (λ (x : Reaction × JpGraph). sent_events x.1)
              (done-injective (quiet, receive_event c msg jp) (r, jp')
                (rw (a, b, d, handle) at h)) in
          omega (arith, same, receive_event-sent c msg jp)
      | inr d ↦ elim (Bool-cases (msg.code == reqs_msg)) [
        | inl q ↦
            let (o, got, e1) =
              >>=-eq-done (retrieve_event (c.hash_of msg.payload) jp) (λ o. done (react o, jp))
                (rw (a, b, d, q, handle) at h) in
            unchanged-sent (react o) r jp jp' e1
        | inr q ↦ unchanged-sent quiet r jp jp' (rw (a, b, d, q, handle) at h)
      ]
    ]
  ]
]

deref_vertex-Runs : (vs : List Vertex) (p : ℕ) → Runs (deref_vertex vs p)
unfolding deref_vertex
deref_vertex-Runs vs p = elim (Option-cases (get_elem? vs p)) [
  | inl e ↦ rw (e, deref_vertex) tt
  | inr (v, e) ↦ rw (e, deref_vertex) tt
]

retrieve_loop-Runs :
    (h : Hash) (vs : List Vertex) (chain : List (Hash × ℕ)) → Runs (retrieve_loop h vs chain)
unfolding retrieve_loop
retrieve_loop-Runs h vs [] = tt
retrieve_loop-Runs h vs ((k, p) ∷ chain) =
    Runs->>= (deref_vertex vs p) _ (deref_vertex-Runs vs p) λ v.
      elim (Bool-cases (bytes_eq v.event.other_part_h h)) [
        | inr e ↦ rw e (retrieve_loop-Runs h vs chain)
        | inl e ↦ elim (Option-cases v.another_pt) [
          | inl o ↦ rw (e, o) (retrieve_loop-Runs h vs chain)
          | inr (q, o) ↦
              rw (e, o) (Runs->>= (deref_vertex vs q) _ (deref_vertex-Runs vs q) (λ w. tt))
        ]
      ]

retrieve_event-Runs : (h : Hash) (jp : JpGraph) → Runs (retrieve_event h jp)
unfolding retrieve_event
retrieve_event-Runs h jp = elim (Option-cases (lookup jp.coinbase jp.graph)) [
  | inl e ↦ rw (e, retrieve_event) tt
  | inr (c, e) ↦ rw (e, retrieve_event) (retrieve_loop-Runs h jp.vertices c.hash_chain)
]

handle-Runs : (c : Codec) (msg : Msg) (jp : JpGraph) → Runs (handle c msg jp)
unfolding handle
handle-Runs c msg jp = Runs-if (msg.code == ping_msg) _ _ tt (
    Runs-if ((msg.code == pong_msg) || (msg.code == disc_msg)) _ _ tt (
      Runs-if (msg.code == event_msg) _ _ tt (
        Runs-if (msg.code == reqs_msg) _ _
          (Runs->>= (retrieve_event (c.hash_of msg.payload) jp) _
            (retrieve_event-Runs (c.hash_of msg.payload) jp) (λ r. tt))
          tt)))

read_int32-Runs : (b : Bytes) → Runs (read_int32 b)
unfolding read_int32
read_int32-Runs [] = tt
read_int32-Runs (b0 ∷ []) = tt
read_int32-Runs (b0 ∷ b1 ∷ []) = tt
read_int32-Runs (b0 ∷ b1 ∷ b2 ∷ []) = tt
read_int32-Runs (b0 ∷ b1 ∷ b2 ∷ b3 ∷ b) = tt

read_body-Runs : (head rest : Bytes) → Runs (read_body head rest)
unfolding read_body
read_body-Runs head rest =
    Runs->>= (read_int32 (drop 1 head)) _ (read_int32-Runs (drop 1 head)) λ t.
      Runs->>= (read_int32 (drop 5 head)) _ (read_int32-Runs (drop 5 head)) λ n.
        elim (Sum-cases (read_full n rest)) [ inl (err, e) ↦ rw e tt | inr (full, e) ↦ rw e tt ]

read_full-rest : (n : ℕ) (s b r : Bytes) → read_full n s ≡ inr (b, r) → length r + n ≡ length s
unfolding read_full
read_full-rest n s b r h = elim (Bool-cases (leb n (length s))) [
  | inl e ↦
      let same : drop n s ≡ r = cc (rw e at h) in
      omega (arith, ap length same, length-drop n s, leb→le n (length s) e)
  | inr e ↦ elim (Bool-cases (length s == 0)) [
    | inl z ↦ absurd (cc (rw (e, z) at h))
    | inr z ↦ absurd (cc (rw (e, z) at h))
  ]
]

read_body-shorter :
    (head rest left : Bytes) (m : Msg)
    → read_body head rest ≡ done (inr (m, left))
    → length left ≤ length rest
unfolding read_body
read_body-shorter head rest left m h =
    let (t, at_t, h1) = >>=-eq-done (read_int32 (drop 1 head)) _ h in
    let (n, at_n, h2) = >>=-eq-done (read_int32 (drop 5 head)) _ h1 in
    elim (Sum-cases (read_full n rest)) [
      | inl (err, e) ↦ absurd (cc (rw e at h2))
      | inr ((body, left'), e) ↦
          let same : left' ≡ left = cc (rw e at h2) in
          omega (arith, read_full-rest n rest body left' e, ap length same)
    ]

-- A message takes at least its header from the stream.
read_msg-shorter :
    (stream rest : Bytes) (m : Msg)
    → read_msg true stream ≡ done (inr (m, rest))
    → length rest < length stream
unfolding read_msg
read_msg-shorter stream rest m h = elim (Sum-cases (read_full 9 stream)) [
  | inl (err, e) ↦ absurd (cc (rw (e, read_msg) at h))
  | inr ((head, rest'), e) ↦ omega (
    arith,
    read_full-rest 9 stream head rest' e,
    read_body-shorter head rest' rest m (rw (e, read_msg) at h),
  )
]

read_msg-Runs : (stream : Bytes) → Runs (read_msg true stream)
unfolding read_msg
read_msg-Runs stream = elim (Sum-cases (read_full 9 stream)) [
  | inl (err, e) ↦ rw (e, read_msg) tt
  | inr ((head, rest), e) ↦ rw (e, read_msg) (read_body-Runs head rest)
]

-- One message before the others.
prepend-Safe :
    (n : ℕ) (x : Reaction) (jp jp1 : JpGraph) (m : Outcome Reading)
    → sent_events jp1 ≤ sent_events jp + 1
    → IsSafe n jp1 m
    → IsSafe (suc n) jp (m >>= λ r. done (record r { reactions = x ∷ r.reactions }))
prepend-Safe n x jp jp1 (done r) one h = record {
  linked = h.linked;
  few = omega (arith, h.few);
  sent = omega (arith, h.sent, one);
}
prepend-Safe n x jp jp1 panic one h = tt
prepend-Safe n x jp jp1 blocked one h = h
prepend-Safe n x jp jp1 out_of_fuel one h = h

after_handle-Safe :
    (n : ℕ) (next : JpGraph → Outcome Reading) (x : Reaction) (jp jp1 : JpGraph)
    → IsWellLinked jp1
    → sent_events jp1 ≤ sent_events jp + 1
    → IsSafe n jp1 (next jp1)
    → IsSafe (suc n) jp (after_handle next (x, jp1))
unfolding after_handle
after_handle-Safe n next failed jp jp1 w one h = record {
  linked = w;
  few = omega arith;
  sent = one;
}
after_handle-Safe n next quiet jp jp1 w one h = prepend-Safe n quiet jp jp1 (next jp1) one h
after_handle-Safe n next pong jp jp1 w one h = prepend-Safe n pong jp jp1 (next jp1) one h
after_handle-Safe n next (answer e ty) jp jp1 w one h =
    prepend-Safe n (answer e ty) jp jp1 (next jp1) one h

more-Safe : (n k : ℕ) (jp : JpGraph) (m : Outcome Reading) → n ≤ k → IsSafe n jp m → IsSafe k jp m
more-Safe n k jp (done r) le h = record {
  linked = h.linked;
  few = omega (arith, h.few);
  sent = h.sent;
}
more-Safe n k jp panic le h = h
more-Safe n k jp blocked le h = h
more-Safe n k jp out_of_fuel le h = h

-- A bind is safe where the first call runs and what follows its result is safe.
Safe->>= {ℓ} :
    {A : Type ℓ} (n : ℕ) (jp : JpGraph) (m : Outcome A) (f : A → Outcome Reading)
    → Runs m
    → ((a : A) → m ≡ done a → IsSafe n jp (f a))
    → IsSafe n jp (m >>= f)
Safe->>= n jp (done a) f h k = k a refl
Safe->>= n jp panic f h k = tt
Safe->>= n jp blocked f h k = h
Safe->>= n jp out_of_fuel f h k = h

-- Whatever bytes the connection delivers, `readLoop`, if every event that it sends finds a free place
-- in its channel in time, ends after no more messages than bytes, unless it panics. It sends at most
-- one event for each message, and if the links of the graph were right before, they are right when
-- it ends.
pub read_loop-Safe :
    (fuel : ℕ) (c : Codec) (stream : Bytes) (jp : JpGraph)
    → IsWellLinked jp
    → length stream < fuel
    → IsSafe (length stream) jp (read_loop fuel c stream jp)
unfolding read_loop
read_loop-Safe zero c stream jp w h = absurd (omega arith)
read_loop-Safe (suc fuel) c stream jp w h =
    Safe->>= (length stream) jp (read_msg true stream) _ (read_msg-Runs stream) λ got read.
      elim (Sum-cases got) [
        | inl (err, e) ↦ rw e (record { linked = w; few = omega arith; sent = omega arith })
        | inr ((msg, rest), e) ↦
            let shorter = read_msg-shorter stream rest msg (read ∙ ap done e) in
            rw e (
              more-Safe (suc (length rest)) (length stream) jp _ (omega (arith, shorter)) (
                Safe->>= (suc (length rest)) jp (handle c msg jp) _ (handle-Runs c msg jp)
                  λ (x, jp') made.
                    let kept = (handle-Answers c msg jp jp' x w made).0 in
                    after_handle-Safe (length rest) (read_loop fuel c rest) x jp jp' kept
                      (handle-sent c msg jp jp' x made)
                      (read_loop-Safe fuel c rest jp' kept (omega arith))))
      ]
