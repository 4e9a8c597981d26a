-- ===== src/System/Calls.antt =====
-- What the calls of the node that add no event do to the columns, the links and the rounds.
use go_hashgrid.Common.{
  ℕ, zero, suc, ◌≡◌, refl, sym, ap, subst, ◌∙◌, inl, inr, ◌||◌, Option, none, some, List, [], ◌∷◌,
  ◌++◌, arith, ◌==◌, Bool-cases, Option-cases, get_elem?, ℤ, Bytes, Outcome, done, ◌>>=◌,
  >>=-eq-done, done-injective,
}
use go_hashgrid.Types.Address.{Address, zero_address}
use go_hashgrid.Types.Hash.{Hash, zero_hash}
use go_hashgrid.Types.Event.{Event, Sig, Hasher, RequestArg}
use go_hashgrid.Jigsaw.State.{
  Vertex, Round, JpGraph, normal, witness_remote, witness_local, deref_vertex,
}
use go_hashgrid.Jigsaw.Seats.{seat_at, another_at}
use go_hashgrid.Jigsaw.Compose.{compose_event, other_of, signature}
use go_hashgrid.Jigsaw.Compose.Laws.{compose_event-Composed}
use go_hashgrid.Round.Rounds.{rand_parent}
use go_hashgrid.Round.Loop.Laws.{IsStacked, StackedTo}
use go_hashgrid.P2p.Frame.{Msg}
use go_hashgrid.P2p.Peer.{
  ping_msg, pong_msg, disc_msg, event_msg, reqs_msg, Codec, Reaction, quiet, pong, handle,
  receive_event, decode_event, deliver, react,
}
use go_hashgrid.Jigsaw.Retrieve.{Retrieved, retrieve_event}
use go_hashgrid.System.Calm.{OldLost, Calm, Same}

Same-refl : (jp : JpGraph) → Same jp jp
Same-refl jp = record { graph = refl; vertices = refl; queue = refl; current = refl }

decode_event-Same : (c : Codec) (b : Bytes) (jp : JpGraph) → Same jp (decode_event c b jp).1
unfolding decode_event
decode_event-Same c b jp = elim (Option-cases (c.round_of b)) [
  | inl none_sent ↦ rw (none_sent, decode_event) (Same-refl jp)
  | inr (n, sent) ↦
      rw (sent, decode_event)
        (record { graph = refl; vertices = refl; queue = refl; current = refl })
]

deliver-Same : (ty : ℕ) (e : Event) (jp : JpGraph) → Same jp (deliver ty e jp)
unfolding deliver
deliver-Same ty e jp =
    let sent : (l r n : List Event)
        → Same jp (record jp { witness_l = l; witness_r = r; event_norm = n }) =
      λ l r n. record { graph = refl; vertices = refl; queue = refl; current = refl } in
    elim (Bool-cases (ty == normal)) [
      | inl n ↦ rw (n, deliver) (sent jp.witness_l jp.witness_r (jp.event_norm ++ e ∷ []))
      | inr n ↦ elim (Bool-cases (ty == witness_remote)) [
        | inl r ↦ rw (n, r, deliver) (sent jp.witness_l (jp.witness_r ++ e ∷ []) jp.event_norm)
        | inr r ↦ elim (Bool-cases (ty == witness_local)) [
          | inl l ↦ rw (n, r, l, deliver) (sent (jp.witness_l ++ e ∷ []) jp.witness_r jp.event_norm)
          | inr l ↦ rw (n, r, l, deliver) (Same-refl jp)
        ]
      ]
    ]

receive_event-Same : (c : Codec) (msg : Msg) (jp : JpGraph) → Same jp (receive_event c msg jp)
unfolding receive_event
receive_event-Same c msg jp =
    let d = decode_event-Same c msg.payload jp in
    let (e, jp1) = decode_event c msg.payload jp in
    let s = deliver-Same msg.type e jp1 in
    record {
      graph = s.graph ∙ d.graph;
      vertices = s.vertices ∙ d.vertices;
      queue = s.queue ∙ d.queue;
      current = s.current ∙ d.current;
    }

reacted :
    (q r : Reaction) (jp jp1 jp' : JpGraph)
    → ◌≡◌ {A = Outcome (Reaction × JpGraph)} (done (q, jp1)) (done (r, jp'))
    → Same jp jp1
    → Same jp jp'
reacted q r jp jp1 jp' e s =
    subst (λ (x : Reaction × JpGraph). Same jp x.1) (done-injective (q, jp1) (r, jp') e) s

asked-Same :
    (m : Outcome Retrieved) (jp jp' : JpGraph) (r : Reaction)
    → ◌>>=◌ {B = Reaction × JpGraph} m (λ o. done (react o, jp)) ≡ done (r, jp')
    → Same jp jp'
asked-Same m jp jp' r h =
    let (o, got, h1) = >>=-eq-done m (λ o. done (react o, jp)) h in
    reacted (react o) r jp jp jp' h1 (Same-refl jp)

pub handle-Same :
    (c : Codec) (msg : Msg) (jp jp' : JpGraph) (r : Reaction)
    → handle c msg jp ≡ done (r, jp')
    → Same jp jp'
unfolding handle
handle-Same c msg jp jp' r h = elim (Bool-cases (msg.code == ping_msg)) [
  | inl a ↦ reacted pong r jp jp jp' (rw (a, handle) at h) (Same-refl jp)
  | inr a ↦ elim (Bool-cases ((msg.code == pong_msg) || (msg.code == disc_msg))) [
    | inl b ↦ reacted quiet r jp jp jp' (rw (a, b, handle) at h) (Same-refl jp)
    | inr b ↦ elim (Bool-cases (msg.code == event_msg)) [
      | inl d ↦
          reacted quiet r jp (receive_event c msg jp) jp' (rw (a, b, d, handle) at h)
            (receive_event-Same c msg jp)
      | inr d ↦ elim (Bool-cases (msg.code == reqs_msg)) [
        | inl q ↦
            asked-Same (retrieve_event (c.hash_of msg.payload) jp) jp jp' r
              (rw (a, b, d, q, handle) at h)
        | inr q ↦ reacted quiet r jp jp jp' (rw (a, b, d, q, handle) at h) (Same-refl jp)
      ]
    ]
  ]
]

-- `RandParent` changes counts of the comers only.
rand_parent-same :
    (except : Address) (to : ℕ) (rd rd' : Round) (o : Option RequestArg)
    → rand_parent except to rd ≡ done (o, rd')
    → (rd'.lost_dict ≡ rd.lost_dict) × (rd'.index ≡ rd.index)
unfolding rand_parent
rand_parent-same except to rd rd' o h = ground arith

offered_round :
    (offer : Option RequestArg) (rd rd' : Round) (h : Hash) (a : Address)
    → ◌≡◌ {A = Outcome (Hash × Address × Round)}
        (elim offer [
          | none ↦ done (zero_hash, zero_address, rd)
          | some arg ↦ done (arg.target_hash, arg.target_addr, rd)
        ])
        (done (h, a, rd'))
    → rd ≡ rd'
offered_round none rd rd' h a got =
    ap (λ (t : Hash × Address × Round). t.2) (done-injective _ (h, a, rd') got)
offered_round (some arg) rd rd' h a got =
    ap (λ (t : Hash × Address × Round). t.2) (done-injective _ (h, a, rd') got)

other_of-same :
    (vs : List Vertex) (s : Sig) (to : ℕ) (rd rd' : Round) (h : Hash) (a : Address)
    → other_of vs s to rd ≡ done (h, a, rd')
    → (rd'.lost_dict ≡ rd.lost_dict) × (rd'.index ≡ rd.index)
unfolding other_of deref_vertex
other_of-same vs s to rd rd' h a got = elim (Option-cases rd.best_vertex) [
  | inr (p, best) ↦
      let (v, at, h1) = >>=-eq-done (deref_vertex vs p) _ (rw (best, other_of) at got) in
      let same : rd ≡ rd' =
        ap (λ (t : Hash × Address × Round). t.2) (done-injective _ (h, a, rd') h1) in
      (ap (λ (x : Round). x.lost_dict) (sym same), ap (λ (x : Round). x.index) (sym same))
  | inl nobest ↦
      let ((offer, rd1), offered, h1) =
        >>=-eq-done (rand_parent s.addr to rd) _ (rw (nobest, other_of) at got) in
      let kept = rand_parent-same s.addr to rd rd1 offer offered in
      let same : rd1 ≡ rd' = offered_round offer rd1 rd' h a h1 in
      (
        ap (λ (x : Round). x.lost_dict) (sym same) ∙ kept.0,
        ap (λ (x : Round). x.index) (sym same) ∙ kept.1,
      )
]

front_lost :
    (q rds : List Round) (rd rd' : Round) (i : ℕ) (r : Round)
    → q ≡ rd ∷ rds
    → rd'.lost_dict ≡ rd.lost_dict
    → get_elem? (rd' ∷ rds) i ≡ some r
    → OldLost q r
front_lost q rds rd rd' zero r front same at =
    let is : rd' ≡ r = cc at in
    inr (0, rd, ap (λ x. get_elem? x 0) front, ap (λ (x : Round). x.lost_dict) (sym is) ∙ same)
front_lost q rds rd rd' (suc i) r front same at =
    inr (suc i, r, ap (λ x. get_elem? x (suc i)) front ∙ at, refl)

pub compose_event-Calm :
    (k : Hasher) (now : ℤ) (to : ℕ) (jp jp' : JpGraph) (e : Event)
    → compose_event k now to jp ≡ done (e, jp')
    → Calm jp jp' × (IsStacked jp → IsStacked jp')
compose_event-Calm k now to jp jp' e h =
    let c = compose_event-Composed k now to jp jp' e h in
    let (lost, index) =
      other_of-same jp.vertices (signature jp) to c.rd c.rd' e.other_part_h e.other_part_a
        c.other in
    (
      record {
        graph = c.graph;
        seats = λ p. ap (λ vs. seat_at vs p) c.vertices;
        links = λ p. ap (λ vs. another_at vs p) c.vertices;
        lost = λ i r at.
            front_lost jp.queue c.rds c.rd c.rd' i r c.front lost
              (ap (λ q. get_elem? q i) (sym c.queue) ∙ at);
      },
      λ s.
          let old : StackedTo (suc jp.current_idx) (c.rd ∷ c.rds) =
            subst (StackedTo (suc jp.current_idx)) c.front s in
          rw (c.queue, c.current) (rw index old),
    )
