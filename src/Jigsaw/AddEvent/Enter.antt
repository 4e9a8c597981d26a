-- ===== src/Jigsaw/AddEvent/Enter.antt =====
-- `AddEvent` from the search for the round on: witness, comer, `lostDict`, announcement.
use go_hashgrid.Common.{
  ℕ, ◌≡◌, refl, ◌∙◌, inl, inr, Bool, true, false, Option, none, some, List, arith, if◌then◌else◌,
  Option-cases, get_elem?, done, >>=-eq-done, done-injective,
}
use go_hashgrid.Types.Address.{Address}
use go_hashgrid.Types.Hash.{Hash}
use go_hashgrid.Types.Event.{Event, RequestArg}
use go_hashgrid.Jigsaw.State.{Vertex, Column, Round, JpGraph, witness_remote, update_vertex}
use go_hashgrid.Round.Rounds.{add_comer}
use go_hashgrid.Jigsaw.AddEvent.{
  set_witness, link_waiting, waiting_for, note_lost, enter_round, announce, enter_found,
}
use go_hashgrid.Jigsaw.AddEvent.Steps.{
  WellLinked, WellLinked-heap, WellLinked-round, AllWait-note_lost,
}
use go_hashgrid.Jigsaw.Seats.{
  Seat, seat_at, seat_at-update, IsLinked-update, AllWait, AllWait-extend, Extends-link_waiting,
  IsLinked-link_waiting,
}
use go_hashgrid.Jigsaw.AddEvent.Place.{IsWellLinked}

-- Neither step before the dictionary's touches it.
pub set_witness-lost :
    (first : Bool) (seq p : ℕ) (r r' : Round)
    → (if first then set_witness seq p r else done r) ≡ done r'
    → r'.lost_dict ≡ r.lost_dict
unfolding set_witness
set_witness-lost first seq p r r' h = ground arith

pub add_comer-lost :
    (rqa : RequestArg) (r r' : Round) → add_comer rqa r ≡ done r' → r'.lost_dict ≡ r.lost_dict
unfolding add_comer
add_comer-lost rqa r r' h = ground arith

-- Marking the vertex as a witness moves no link.
mark-WellLinked :
    (first : Bool) (p ty : ℕ) (g : List (Address × Column)) (vs : List Vertex) (q : List Round)
    → WellLinked g vs q
    → WellLinked g (if first then update_vertex p (λ v. record v { witness = ty }) vs else vs) q
mark-WellLinked false p ty g vs q w = w
mark-WellLinked true p ty g vs q w =
    let f = λ (v : Vertex). record v { witness = ty } in
    WellLinked-heap g vs (update_vertex p f vs) q
      (λ i s at. seat_at-update p i f vs (λ v. refl) ∙ at)
      (IsLinked-update p f vs (λ v. refl) (λ v. refl) w.linked) w

mark-seat :
    (first : Bool) (p ty i : ℕ) (vs : List Vertex)
    → seat_at (if first then update_vertex p (λ v. record v { witness = ty }) vs else vs) i
      ≡ seat_at vs i
mark-seat false p ty i vs = refl
mark-seat true p ty i vs = seat_at-update p i (λ v. record v { witness = ty }) vs (λ v. refl)

enter_round-WellLinked :
    (p : ℕ) (e : Event) (first linkpost : Bool) (seq i : ℕ) (r : Round) (jp jp' : JpGraph)
    (s : Seat)
    → get_elem? jp.queue i ≡ some r
    → seat_at jp.vertices p ≡ some s
    → s.event.self_hash ≡ e.self_hash
    → s.event.other_part_h ≡ e.other_part_h
    → enter_round p e first linkpost seq i r jp ≡ done jp'
    → IsWellLinked jp
    → IsWellLinked jp'
unfolding enter_round
enter_round-WellLinked p e first linkpost seq i r jp jp' s here at hash named h w =
    let (r1, e1, h1) = >>=-eq-done (if first then set_witness seq p r else done r) _ h in
    let (r2, e2, h2) = >>=-eq-done (add_comer _ r1) _ h1 in
    let vs =
      if first
      then update_vertex p (λ v. record v { witness = witness_remote }) jp.vertices
      else jp.vertices in
    let lost : r2.lost_dict ≡ r.lost_dict =
      add_comer-lost _ r1 r2 e2 ∙ set_witness-lost first seq p r r1 e1 in
    let w1 = mark-WellLinked first p witness_remote jp.graph jp.vertices jp.queue w in
    let at1 : seat_at vs p ≡ some s = mark-seat first p witness_remote p jp.vertices ∙ at in
    let waits : (k : Hash) → AllWait vs k (waiting_for k r2.lost_dict) =
      λ k. rw lost (w1.lost i r here k) in
    let cs = waiting_for e.self_hash r2.lost_dict in
    let ws = link_waiting p cs vs in
    let ext = Extends-link_waiting p cs vs in
    let right = IsLinked-link_waiting p cs vs s at1 (rw hash (waits e.self_hash)) w1.linked in
    let w2 = WellLinked-heap jp.graph vs ws jp.queue ext right w1 in
    let noted =
      AllWait-note_lost ws p s e linkpost r2 (ext p s at1) named
        (λ k. AllWait-extend vs ws k _ ext (waits k)) in
    rw (← done-injective _ jp' h2)
      (WellLinked-round jp.graph ws jp.queue i (note_lost p e linkpost r2) noted w2)

pub enter_found-WellLinked :
    (p : ℕ) (e : Event) (first linkpost : Bool) (seq : ℕ) (round : Option ℕ) (jp jp' : JpGraph)
    (s : Seat)
    → seat_at jp.vertices p ≡ some s
    → s.event.self_hash ≡ e.self_hash
    → s.event.other_part_h ≡ e.other_part_h
    → enter_found p e first linkpost seq round jp ≡ done jp'
    → IsWellLinked jp
    → IsWellLinked jp'
unfolding enter_found
enter_found-WellLinked p e first linkpost seq none jp jp' s at hash named h w =
    rw (← done-injective jp jp' h) w
enter_found-WellLinked p e first linkpost seq (some i) jp jp' s at hash named h w =
    elim (Option-cases (get_elem? jp.queue i)) [
      | inl absent ↦ cc (rw (absent, enter_found) at h)
      | inr (r, here) ↦
          enter_round-WellLinked p e first linkpost seq i r jp jp' s here at hash named
            (rw (here, enter_found) at h) w
    ]

-- The announcement touches neither columns nor vertices nor rounds.
pub announce-WellLinked :
    (p : ℕ) (e : Event) (jp jp' : JpGraph)
    → announce p e jp ≡ done jp'
    → IsWellLinked jp
    → IsWellLinked jp'
unfolding announce
announce-WellLinked p e jp jp' h w =
    let same : (jp'.graph ≡ jp.graph) × (jp'.vertices ≡ jp.vertices) × (jp'.queue ≡ jp.queue) =
      ground arith in
    rw (same.0, same.1, same.2) w
