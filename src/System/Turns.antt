-- ===== src/System/Turns.antt =====
-- What a turn of `RoundLoop` does to the columns, the links and the dictionaries of the rounds.
use go_hashgrid.Common.{
  ℕ, zero, suc, ◌≡◌, refl, sym, ap, subst, ◌∙◌, inl, inr, Bool, false, ◌||◌, Option, none, some,
  List, [], ◌∷◌, arith, ◌==◌, if◌then◌else◌, Bool-cases, Option-cases, get_elem?, pos, done,
  >>=-eq-done, done-injective,
}
use go_hashgrid.Jigsaw.State.{
  Vertex, Round, JpGraph, witness_remote, witness_local, update_round, deref_vertex, deref_big,
}
use go_hashgrid.Jigsaw.AddEvent.{set_witness}
use go_hashgrid.Jigsaw.Compose.{set_big}
use go_hashgrid.Round.Rounds.{new_round}
use go_hashgrid.Round.Loop.{
  opens, start_round, open_round, round_of, first_missing, fill_slot, fill_found, on_trigger,
  RoundSignal, round_triggered, lost_triggered, round_step,
}
use go_hashgrid.System.Calm.{OldLost, Calm, Calm-refl, Calm-trans}

pub set_witness-lost :
    (i p : ℕ) (r r' : Round) → set_witness i p r ≡ done r' → r'.lost_dict ≡ r.lost_dict
unfolding set_witness
set_witness-lost i p r r' h = ground arith

new_lost :
    (q : List Round) (fresh : Round) (i : ℕ) (r : Round)
    → fresh.lost_dict ≡ []
    → get_elem? (fresh ∷ q) i ≡ some r
    → OldLost q r
new_lost q fresh zero r none_lost at =
    let is : fresh ≡ r = cc at in inl (ap (λ (x : Round). x.lost_dict) (sym is) ∙ none_lost)
new_lost q fresh (suc i) r none_lost at = inr (i, r, at, refl)

-- A round replaced by one with the same dictionary.
update_lost :
    (q : List Round) (i j : ℕ) (r s t : Round)
    → get_elem? q i ≡ some r
    → s.lost_dict ≡ r.lost_dict
    → get_elem? (update_round i (λ _. s) q) j ≡ some t
    → (o : Round) × (get_elem? q j ≡ some o) × (t.lost_dict ≡ o.lost_dict)
unfolding update_round
update_lost [] i j r s t at same got = absurd (cc at)
update_lost (x ∷ q) zero zero r s t at same got =
    let is : s ≡ t = cc got in
    let old : x ≡ r = cc at in
    (
      x,
      refl,
      ap (λ (y : Round). y.lost_dict) (sym is) ∙ same ∙ ap (λ (y : Round). y.lost_dict) (sym old),
    )
update_lost (x ∷ q) zero (suc j) r s t at same got = (t, got, refl)
update_lost (x ∷ q) (suc i) zero r s t at same got =
    let is : x ≡ t = cc got in (x, refl, ap (λ (y : Round). y.lost_dict) (sym is))
update_lost (x ∷ q) (suc i) (suc j) r s t at same got = update_lost q i j r s t at same got

open_round-Calm :
    (v : Vertex) (jp jp' : JpGraph) (b : Bool) → open_round v jp ≡ done (b, jp') → Calm jp jp'
unfolding open_round start_round new_round
open_round-Calm v jp jp' b h =
    elim (Bool-cases ((v.witness == witness_local) || (v.witness == witness_remote))) [
      | inr e ↦ let same : jp ≡ jp' = cc (rw e at h) in subst (Calm jp) same (Calm-refl jp)
      | inl e ↦
          let (n, at, h1) = >>=-eq-done (deref_big jp.bigs v.event.round_id) _ (rw e at h) in
          elim (Bool-cases (opens v.witness n jp.current_idx)) [
            | inr e1 ↦ let same : jp ≡ jp' = cc (rw e1 at h1) in subst (Calm jp) same (Calm-refl jp)
            | inl e1 ↦
                let (jp1, st, h2) = >>=-eq-done (start_round v.event.round_id jp) _ (rw e1 at h1) in
                let idx = suc jp.current_idx in
                let (bigs, written, h3) =
                  >>=-eq-done (set_big v.event.round_id (pos idx) jp.bigs) _ st in
                let same : jp1 ≡ jp' = cc h2 in
                subst (Calm jp) (done-injective _ jp1 h3 ∙ same) (record {
                  graph = refl;
                  seats = λ p. refl;
                  links = λ p. refl;
                  lost = λ i r got. new_lost jp.queue (new_round jp.broadness idx) i r refl got;
                })
          ]
    ]

fill_slot-Calm :
    (p seq i : ℕ) (r : Round) (jp jp' : JpGraph)
    → get_elem? jp.queue i ≡ some r
    → fill_slot p seq i r jp ≡ done jp'
    → Calm jp jp'
unfolding fill_slot
fill_slot-Calm p seq i r jp jp' at h =
    let (r1, filled, h1) = >>=-eq-done (set_witness seq p r) _ h in
    let (idx, first, h2) = >>=-eq-done (first_missing r1.broadness 0 r1.witnesses) _ h1 in
    subst (Calm jp) (done-injective _ jp' h2) (record {
      graph = refl;
      seats = λ p. refl;
      links = λ p. refl;
      lost = λ j t got.
          let (o, there, kept) =
            update_lost jp.queue i j r r1 t at (set_witness-lost seq p r r1 filled) got in
          inr (j, o, there, kept);
    })

fill_found-Calm :
    (p seq : ℕ) (i : Option ℕ) (jp jp' : JpGraph) → fill_found p seq i jp ≡ done jp' → Calm jp jp'
unfolding fill_found
fill_found-Calm p seq none jp jp' h = subst (Calm jp) (done-injective jp jp' h) (Calm-refl jp)
fill_found-Calm p seq (some i) jp jp' h = elim (Option-cases (get_elem? jp.queue i)) [
  | inl absent ↦ absurd (cc (rw (absent, fill_found) at h))
  | inr (r, at) ↦ fill_slot-Calm p seq i r jp jp' at (rw (at, fill_found) at h)
]

on_trigger-Calm :
    (p : ℕ) (v w : Bool) (jp jp' : JpGraph) → on_trigger p v jp ≡ done (w, jp') → Calm jp jp'
unfolding on_trigger
on_trigger-Calm p b w jp jp' h =
    let (v, read, h2) = >>=-eq-done (deref_vertex jp.vertices p) _ h in
    let ((opened, jp2), entered, h3) = >>=-eq-done (open_round v jp) _ h2 in
    let (i, found, h4) = >>=-eq-done (round_of jp2.bigs v.event.round_id jp2.queue) _ h3 in
    let (jp3, filled, h5) = >>=-eq-done (fill_found p v.seq_num i jp2) _ h4 in
    let same = done-injective ((if opened then false else b), jp3) (w, jp') h5 in
    subst (Calm jp) (ap (λ (x : Bool × JpGraph). x.1) same) (
      Calm-trans (open_round-Calm v jp jp2 opened entered)
        (fill_found-Calm p v.seq_num i jp2 jp3 filled))

pub round_step-Calm :
    (g : RoundSignal) (fames n : ℕ) (v w : Bool) (jp jp' : JpGraph)
    → round_step g fames v jp ≡ done (n, w, jp')
    → Calm jp jp'
unfolding round_step
round_step-Calm lost_triggered fames n v w jp jp' h =
    let same : jp ≡ jp' = cc h in subst (Calm jp) same (Calm-refl jp)
round_step-Calm (round_triggered p) fames n v w jp jp' h =
    let ((w1, jp1), at, h1) = >>=-eq-done (on_trigger p v jp) _ h in
    let same = done-injective (fames, w1, jp1) (n, w, jp') h1 in
    subst (Calm jp) (ap (λ (x : ℕ × Bool × JpGraph). x.2) same) (on_trigger-Calm p v w1 jp jp1 at)
