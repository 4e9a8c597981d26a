-- ===== src/Jigsaw/AddEvent/Quiet.antt =====
-- What the steps of `AddEvent` behind the new vertex leave alone: the columns, and of the vertices
-- all but links and kinds.
use go_hashgrid.Common.{
  ℕ, ◌≡◌, refl, ap, subst, ◌∙◌, inl, inr, Bool, true, false, Option, none, some, List, [], ◌∷◌,
  arith, ◌==◌, if◌then◌else◌, Bool-cases, Option-cases, get_elem?, done, >>=-eq-done,
  done-injective,
}
use go_hashgrid.Types.Event.{Event}
use go_hashgrid.Jigsaw.State.{Vertex, VertexRef, Round, JpGraph, witness_remote, update_vertex}
use go_hashgrid.Jigsaw.Seats.{seat_at, seat_at-update}
use go_hashgrid.Round.Rounds.{add_comer}
use go_hashgrid.Jigsaw.AddEvent.{
  readmit, link_other, find_round, set_witness, link_waiting, waiting_for, enter_round, enter_found,
  announce, settle,
}

pub record Quiet (jp jp' : JpGraph) : Type 0 where
  pub graph : jp'.graph ≡ jp.graph
  pub seats : (p : ℕ) → seat_at jp'.vertices p ≡ seat_at jp.vertices p

pub Quiet-refl : (jp : JpGraph) → Quiet jp jp
Quiet-refl jp = record { graph = refl; seats = λ p. refl }

pub Quiet-trans : {jp jp1 jp2 : JpGraph} → Quiet jp jp1 → Quiet jp1 jp2 → Quiet jp jp2
Quiet-trans q r = record { graph = r.graph ∙ q.graph; seats = λ p. r.seats p ∙ q.seats p }

link_waiting-seat :
    (p i : ℕ) (cs : List ℕ) (vs : List Vertex) → seat_at (link_waiting p cs vs) i ≡ seat_at vs i
unfolding link_waiting
link_waiting-seat p i [] vs = refl
link_waiting-seat p i (c ∷ cs) vs =
    link_waiting-seat p i cs (update_vertex c (λ v. record v { another_pt = some p }) vs)
    ∙ seat_at-update c i (λ v. record v { another_pt = some p }) vs (λ v. refl)

mark-seat :
    (first : Bool) (p ty i : ℕ) (vs : List Vertex)
    → seat_at (if first then update_vertex p (λ v. record v { witness = ty }) vs else vs) i
      ≡ seat_at vs i
mark-seat false p ty i vs = refl
mark-seat true p ty i vs = seat_at-update p i (λ v. record v { witness = ty }) vs (λ v. refl)

pub readmit-Quiet : (p ty : ℕ) (jp : JpGraph) → Quiet jp (readmit p ty jp)
unfolding readmit
readmit-Quiet p ty jp = elim (Bool-cases (ty == witness_remote)) [
  | inr other ↦ rw other (Quiet-refl jp)
  | inl witness ↦
      rw witness (record { graph = refl; seats = λ i. mark-seat true p ty i jp.vertices })
]

pub link_other-Quiet :
    (p : ℕ) (e : Event) (other : VertexRef) (jp : JpGraph) → Quiet jp (link_other p e other jp)
unfolding link_other
link_other-Quiet p e none jp = record { graph = refl; seats = λ i. refl }
link_other-Quiet p e (some q) jp = record {
  graph = refl;
  seats = λ i. seat_at-update p i (λ v. record v { another_pt = some q }) jp.vertices (λ v. refl);
}

enter_round-Quiet :
    (p : ℕ) (e : Event) (first linkpost : Bool) (seq i : ℕ) (r : Round) (jp jp' : JpGraph)
    → enter_round p e first linkpost seq i r jp ≡ done jp'
    → Quiet jp jp'
unfolding enter_round
enter_round-Quiet p e first linkpost seq i r jp jp' h =
    let (r1, e1, h1) = >>=-eq-done (if first then set_witness seq p r else done r) _ h in
    let (r2, e2, h2) = >>=-eq-done (add_comer _ r1) _ h1 in
    let vs =
      if first
      then update_vertex p (λ v. record v { witness = witness_remote }) jp.vertices
      else jp.vertices in
    subst (Quiet jp) (done-injective _ jp' h2) (record {
      graph = refl;
      seats = λ j.
          link_waiting-seat p j (waiting_for e.self_hash r2.lost_dict) vs
          ∙ mark-seat first p witness_remote j jp.vertices;
    })

pub enter_found-Quiet :
    (p : ℕ) (e : Event) (first linkpost : Bool) (seq : ℕ) (round : Option ℕ) (jp jp' : JpGraph)
    → enter_found p e first linkpost seq round jp ≡ done jp'
    → Quiet jp jp'
unfolding enter_found
enter_found-Quiet p e first linkpost seq none jp jp' h =
    subst (Quiet jp) (done-injective jp jp' h) (Quiet-refl jp)
enter_found-Quiet p e first linkpost seq (some i) jp jp' h =
    elim (Option-cases (get_elem? jp.queue i)) [
      | inl absent ↦ cc (rw (absent, enter_found) at h)
      | inr (r, here) ↦
          enter_round-Quiet p e first linkpost seq i r jp jp' (rw (here, enter_found) at h)
    ]

announce-Quiet : (p : ℕ) (e : Event) (jp jp' : JpGraph) → announce p e jp ≡ done jp' → Quiet jp jp'
unfolding announce
announce-Quiet p e jp jp' h =
    let same : (jp'.graph ≡ jp.graph) × (jp'.vertices ≡ jp.vertices) = ground arith in
    record { graph = same.0; seats = λ i. ap (λ vs. seat_at vs i) same.1 }

pub settle-Quiet :
    (p : ℕ) (e : Event) (first linkpost : Bool) (seq : ℕ) (jp jp' : JpGraph)
    → settle p e first linkpost seq jp ≡ done jp'
    → Quiet jp jp'
unfolding settle
settle-Quiet p e first linkpost seq jp jp' h =
    let (round, found, h1) = >>=-eq-done (find_round jp.bigs e.round_id none 0 jp.queue) _ h in
    let (jp4, entered, h2) =
      >>=-eq-done (enter_found p e first linkpost seq round jp) (announce p e) h1 in
    Quiet-trans (enter_found-Quiet p e first linkpost seq round jp jp4 entered)
      (announce-Quiet p e jp4 jp' h2)
