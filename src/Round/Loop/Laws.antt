-- ===== src/Round/Loop/Laws.antt =====
-- The rounds in the queue are numbered without a gap, and `RoundLoop` never starts `WitnessFame`.
use go_hashgrid.Common.{
  ℕ, zero, suc, ◌≡◌, refl, sym, ap, subst, ◌∙◌, inl, inr, Bool, true, false, ◌||◌, Option, none,
  some, List, [], ◌∷◌, ltb, ◌==◌, if◌then◌else◌, Bool-cases, Option-cases, length, get_elem?, set,
  pos, done, >>=-eq-done, done-injective,
}
use go_hashgrid.Types.Event.{BigRef}
use go_hashgrid.Jigsaw.State.{
  Vertex, witness_local, witness_remote, Round, JpGraph, update_round, deref_vertex, deref_big,
}
use go_hashgrid.Jigsaw.AddEvent.{set_witness}
use go_hashgrid.Jigsaw.Compose.{set_big}
use go_hashgrid.Round.Rounds.{new_round}
use go_hashgrid.Round.Loop.{
  opens, start_round, open_round, round_of, first_missing, fill_slot, fill_found, on_trigger,
  RoundSignal, round_triggered, lost_triggered, round_step, round_loop,
}

-- The rounds are numbered n - 1, n - 2, … down to 0.
abbrev pub StackedTo : ℕ → List Round → Type 0
StackedTo n [] = n ≡ 0
StackedTo n (r ∷ rs) = (n ≡ suc r.index) × StackedTo r.index rs

-- The front round has the number `currentIdx`.
abbrev pub IsStacked : JpGraph → Type 0
IsStacked jp = StackedTo (suc jp.current_idx) jp.queue

pub StackedTo-update :
    (n i : ℕ) (r s : Round) (rs : List Round)
    → get_elem? rs i ≡ some r
    → s.index ≡ r.index
    → StackedTo n rs
    → StackedTo n (update_round i (λ _. s) rs)
unfolding update_round
StackedTo-update n i r s [] at e h = cc
StackedTo-update n zero r s (q ∷ rs) at e h =
    let same : q ≡ r = cc in
    let index : s.index ≡ q.index = e ∙ ap (λ (x : Round). x.index) (sym same) in rw index h
StackedTo-update n (suc i) r s (q ∷ rs) at e h = (h.0, StackedTo-update q.index i r s rs at e h.1)

start_round-IsStacked :
    (rid : BigRef) (jp jp' : JpGraph) → start_round rid jp ≡ done jp' → IsStacked jp → IsStacked jp'
unfolding start_round new_round
start_round-IsStacked rid jp jp' h w =
    let idx = suc jp.current_idx in
    let (bigs, at, h1) = >>=-eq-done (set_big rid (pos idx) jp.bigs) _ h in
    let jp1 = record jp {
      current_idx = idx;
      bigs = bigs;
      queue = new_round jp.broadness idx ∷ jp.queue;
    } in
    let same : jp1 ≡ jp' = done-injective jp1 jp' h1 in subst IsStacked same (refl, w)

open_round-IsStacked :
    (v : Vertex) (jp jp' : JpGraph) (b : Bool)
    → open_round v jp ≡ done (b, jp')
    → IsStacked jp
    → IsStacked jp'
unfolding open_round
open_round-IsStacked v jp jp' b h w =
    elim (Bool-cases ((v.witness == witness_local) || (v.witness == witness_remote))) [
      | inr e ↦ let same : jp ≡ jp' = cc (rw e at h) in subst IsStacked same w
      | inl e ↦
          let (n, at, h1) = >>=-eq-done (deref_big jp.bigs v.event.round_id) _ (rw e at h) in
          elim (Bool-cases (opens v.witness n jp.current_idx)) [
            | inr e1 ↦ let same : jp ≡ jp' = cc (rw e1 at h1) in subst IsStacked same w
            | inl e1 ↦
                let (jp1, st, h2) = >>=-eq-done (start_round v.event.round_id jp) _ (rw e1 at h1) in
                let same : jp1 ≡ jp' = cc h2 in
                subst IsStacked same (start_round-IsStacked v.event.round_id jp jp1 st w)
          ]
    ]

pub set_witness-index : (i p : ℕ) (r r' : Round) → set_witness i p r ≡ done r' → r'.index ≡ r.index
unfolding set_witness
set_witness-index i p r r' h = elim (Bool-cases (ltb i (length r.witnesses))) [
  | inr e ↦ absurd (cc (rw e at h))
  | inl e ↦
      let r1 = record r { witnesses = set r.witnesses i (some p) } in
      let same : r1 ≡ r' = done-injective r1 r' (rw e at h) in
      ap (λ (x : Round). x.index) (sym same)
]

fill_slot-IsStacked :
    (p seq i : ℕ) (r : Round) (jp jp' : JpGraph)
    → get_elem? jp.queue i ≡ some r
    → fill_slot p seq i r jp ≡ done jp'
    → IsStacked jp
    → IsStacked jp'
unfolding fill_slot
fill_slot-IsStacked p seq i r jp jp' at h w =
    let (r1, filled, h1) = >>=-eq-done (set_witness seq p r) _ h in
    let (idx, first, h2) = >>=-eq-done (first_missing r1.broadness 0 r1.witnesses) _ h1 in
    let same = done-injective _ jp' h2 in
    subst IsStacked same (
      StackedTo-update (suc jp.current_idx) i r r1 jp.queue at (set_witness-index seq p r r1 filled)
        w)

fill_found-IsStacked :
    (p seq : ℕ) (i : Option ℕ) (jp jp' : JpGraph)
    → fill_found p seq i jp ≡ done jp'
    → IsStacked jp
    → IsStacked jp'
unfolding fill_found
fill_found-IsStacked p seq none jp jp' h w =
    let same : jp ≡ jp' = done-injective jp jp' h in subst IsStacked same w
fill_found-IsStacked p seq (some i) jp jp' h w = elim (Option-cases (get_elem? jp.queue i)) [
  | inl absent ↦ absurd (cc (rw (absent, fill_found) at h))
  | inr (r, at) ↦ fill_slot-IsStacked p seq i r jp jp' at (rw (at, fill_found) at h) w
]

if_same : (b : Bool) → (if b then false else false) ≡ false
if_same true = refl
if_same false = refl

on_trigger-IsStacked :
    (p : ℕ) (w : Bool) (jp jp' : JpGraph)
    → on_trigger p false jp ≡ done (w, jp')
    → IsStacked jp
    → IsStacked jp' × (w ≡ false)
unfolding on_trigger
on_trigger-IsStacked p w jp jp' h s =
    let (v, read, h2) = >>=-eq-done (deref_vertex jp.vertices p) _ h in
    let ((opened, jp2), entered, h3) = >>=-eq-done (open_round v jp) _ h2 in
    let (i, found, h4) = >>=-eq-done (round_of jp2.bigs v.event.round_id jp2.queue) _ h3 in
    let (jp3, filled, h5) = >>=-eq-done (fill_found p v.seq_num i jp2) _ h4 in
    let s2 = open_round-IsStacked v jp jp2 opened entered s in
    let s3 = fill_found-IsStacked p v.seq_num i jp2 jp3 filled s2 in
    let same = done-injective ((if opened then false else false), jp3) (w, jp') h5 in
    (
      subst IsStacked (ap (λ (x : Bool × JpGraph). x.1) same) s3,
      sym (ap (λ (x : Bool × JpGraph). x.0) same) ∙ if_same opened,
    )

-- A turn of the loop keeps the queue numbered, and `wtriggered` stays false.
pub round_step-IsStacked :
    (g : RoundSignal) (fames n : ℕ) (w : Bool) (jp jp' : JpGraph)
    → round_step g fames false jp ≡ done (n, w, jp')
    → IsStacked jp
    → IsStacked jp' × (n ≡ fames) × (w ≡ false)
unfolding round_step
round_step-IsStacked lost_triggered fames n w jp jp' h s =
    let same : jp ≡ jp' = cc h in (subst IsStacked same s, cc h, cc h)
round_step-IsStacked (round_triggered p) fames n w jp jp' h s =
    let ((w1, jp1), at, h1) = >>=-eq-done (on_trigger p false jp) _ h in
    let (s1, off) = on_trigger-IsStacked p w1 jp jp1 at s in
    let same = done-injective (fames, w1, jp1) (n, w, jp') h1 in
    (
      subst IsStacked (ap (λ (x : ℕ × Bool × JpGraph). x.2) same) s1,
      sym (ap (λ (x : ℕ × Bool × JpGraph). x.0) same),
      sym (ap (λ (x : ℕ × Bool × JpGraph). x.1) same) ∙ off,
    )

-- `RoundLoop`, started with `wtriggered` false on a queue whose rounds are numbered from the front
-- `currentIdx`, …, 1, 0: whatever it receives, where it is still running the queue is numbered so
-- again, and it has never started `WitnessFame`.
pub round_loop-IsStacked :
    (gs : List RoundSignal) (fames n : ℕ) (w : Bool) (jp jp' : JpGraph)
    → IsStacked jp
    → round_loop gs fames false jp ≡ done (n, w, jp')
    → IsStacked jp' × (n ≡ fames)
unfolding round_loop
round_loop-IsStacked [] fames n w jp jp' s h =
    let same : jp ≡ jp' = cc h in (subst IsStacked same s, cc h)
round_loop-IsStacked (g ∷ gs) fames n w jp jp' s h =
    let ((n1, w1, jp1), at, h1) = >>=-eq-done (round_step g fames false jp) _ h in
    let (s1, same_n, off) = round_step-IsStacked g fames n1 w1 jp jp1 at s in
    let (s2, kept) = round_loop-IsStacked gs n1 n w jp1 jp' s1 (rw off at h1) in (s2, kept ∙ same_n)
