-- ===== src/Round/Search/Exact.antt =====
-- `JudgeSee` decides which columns a vertex sees.
use go_hashgrid.Common.{
  ℕ, zero, suc, ◌+◌, ◌≤◌, ◌<◌, ◌≡◌, refl, sym, ap, subst, ◌∙◌, ◌≢◌, ◌↔◌, ◌⊎◌, inl, inr, Bool, true,
  some, List, [], ◌∷◌, arith, leb, ◌==◌, if◌then◌else◌, length, get_elem?, get_or, replicate,
  length-replicate, Outcome, done, panic, blocked, out_of_fuel,
}
use go_hashgrid.Jigsaw.State.{Vertex, JpGraph, deref_vertex}
use go_hashgrid.Round.Search.{Visit, dfs_visit, sum, read_trace, judge_see}
use go_hashgrid.Round.Search.Depth.{IsColored, whites, Ends, dfs_visit-Ends}
use go_hashgrid.Round.Search.Seen.{
  bare_at, SameBare, Reach, here, by_self, by_other, Sees, Marks, dfs_visit-Marks,
}
use go_hashgrid.Round.Search.Explored.{white_at, stops, Marked, AllBits, Visited, Explored}
use go_hashgrid.Round.Search.Visits.{IsVertex, InRange, get_elem?-bare_at, Goes, dfs_visit-Goes}

whites-length : (cluster : ℕ) (vs : List Vertex) → whites cluster vs ≤ length vs
unfolding whites
whites-length cluster [] = omega arith
whites-length cluster (v ∷ vs) = ground (arith, whites-length cluster vs)

AllBits-replicate : (n : ℕ) → AllBits (replicate n 0)
AllBits-replicate zero = tt
AllBits-replicate (suc n) = (omega arith, AllBits-replicate n)

unmarked : (n i : ℕ) → ◌≢◌ {A = ℕ} (get_or (replicate n 0) i 0) 1
unmarked zero i h = absurd (omega arith)
unmarked (suc n) zero h = absurd (omega arith)
unmarked (suc n) (suc i) h = unmarked n i h

get_elem?-get_or : (ts : List ℕ) (i : ℕ) → i < length ts → get_elem? ts i ≡ some (get_or ts i 0)
get_elem?-get_or [] i h = absurd (omega arith)
get_elem?-get_or (t ∷ ts) zero h = refl
get_elem?-get_or (t ∷ ts) (suc i) h = get_elem?-get_or ts i (omega arith)

see_bit : (t : ℕ) → (◌≡◌ {A = ℕ} (if t == 1 then 1 else 0) 1) ↔ (t ≡ 1)
see_bit t = (λ h. ground arith, λ h. ground arith)

strong_bit : (a b : ℕ) → (leb a b ≡ true) ↔ (a ≤ b)
strong_bit a b = (λ h. ground arith, λ h. ground arith)

module _ (cluster e : ℕ) (σ τ : Visit) (explored : Explored cluster e σ τ) where
  -- From a vertex to stop at there is no way on.
  stuck :
      (u t : ℕ) (v : Vertex)
      → bare_at σ.vertices u ≡ some v
      → stops e u v ≡ true
      → Reach σ.vertices e u t
      → u ≡ t
  stuck u t v at stop here = refl
  stuck u t v at stop (by_self w there go next r) =
      let same : v ≡ w = cc (at, there) in absurd (cc (same, stop, go))
  stuck u t v at stop (by_other w there go next r) =
      let same : v ≡ w = cc (at, there) in absurd (cc (same, stop, go))

  -- So all that it reaches is marked with it.
  stop-Marked :
      (u t : ℕ) (v w : Vertex)
      → bare_at τ.vertices u ≡ some v
      → stops e u v ≡ true
      → Marked τ v.seq_num
      → bare_at σ.vertices t ≡ some w
      → Reach σ.vertices e u t
      → Marked τ w.seq_num
  stop-Marked u t v w there stop mark at r =
      let old : bare_at σ.vertices u ≡ some v = sym (explored.later.same u) ∙ there in
      let same : v ≡ w = cc (old, at, ap (bare_at σ.vertices) (stuck u t v old stop r)) in
      subst (λ (y : Vertex). Marked τ y.seq_num) same mark

  -- What a visited vertex reaches over white vertices is marked.
  Visited-Marked :
      (p t : ℕ) (w : Vertex)
      → Visited cluster e τ p
      → ((u : ℕ) → Reach σ.vertices e p u → white_at cluster σ.vertices u ≡ true)
      → bare_at σ.vertices t ≡ some w
      → Reach σ.vertices e p t
      → Marked τ w.seq_num
  Visited-Marked p t w x pale at here =
      let same : x.vertex ≡ w = cc (x.at, explored.later.same p, at) in
      subst (λ (v : Vertex). Marked τ v.seq_num) same x.mark
  Visited-Marked p t w x pale at (by_self {u = u} v there go next r) =
      let same : v ≡ x.vertex = cc (x.at, explored.later.same p, there) in
      elim (x.self (ap (stops e p) (sym same) ∙ go) u
        (ap (λ (y : Vertex). y.self_pt) (sym same) ∙ next)) [
          | inl dark ↦
              Visited-Marked u t w (explored.fresh u (pale u (by_self v there go next here)) dark)
                (λ z way. pale z (by_self v there go next way)) at r
          | inr (y, is, stop, mark) ↦ stop-Marked u t y w is stop mark at r
        ]
  Visited-Marked p t w x pale at (by_other {u = u} v there go next r) =
      let same : v ≡ x.vertex = cc (x.at, explored.later.same p, there) in
      elim (x.other (ap (stops e p) (sym same) ∙ go) u
        (ap (λ (y : Vertex). y.another_pt) (sym same) ∙ next)) [
          | inl dark ↦
              Visited-Marked u t w (explored.fresh u (pale u (by_other v there go next here)) dark)
                (λ z way. pale z (by_other v there go next way)) at r
          | inr (y, is, stop, mark) ↦ stop-Marked u t y w is stop mark at r
        ]

-- What `JudgeSee` says of the vertices s and e, by the columns that s reaches.
pub record Judged (jp : JpGraph) (s e : ℕ) (see : ℕ) (strong : Bool) (vs : List Vertex)
    : Type 0 where
  pub target : Vertex
  pub at : bare_at jp.vertices e ≡ some target
  pub trace : List ℕ
  pub sized : length trace ≡ jp.broadness
  pub bits : AllBits trace
  pub seen : (i : ℕ) → (get_or trace i 0 ≡ 1) ↔ Sees jp.vertices e s i
  pub sees : (see ≡ 1) ↔ Sees jp.vertices e s target.seq_num
  pub strongly : (strong ≡ true) ↔ (jp.super_majority ≤ sum trace)
  pub kept : SameBare jp.vertices vs

-- A call that neither panics nor lacks fuel.
both :
    (cluster e s : ℕ) (σ : Visit) (S : ℕ → Type 0) (m : Outcome Visit)
    → Ends cluster σ.vertices m
    → Goes cluster e σ s m
    → Marks σ.vertices S σ.trace m
    → (τ : Visit) × (m ≡ done τ)
      × Explored cluster e σ τ
      × Visited cluster e τ s
      × ((i : ℕ) → get_or τ.trace i 0 ≡ 1 → (get_or σ.trace i 0 ≡ 1) ⊎ S i)
both cluster e s σ S (done τ) ends (explored, visited, d) (same, len, marks) =
    (τ, refl, explored, visited, marks)
both cluster e s σ S panic ends goes marks = absurd goes
both cluster e s σ S blocked ends goes marks = absurd goes
both cluster e s σ S out_of_fuel ends goes marks = absurd ends

-- With fuel the search returns, and it marks exactly the columns that are seen.
searched :
    (cluster s e n : ℕ) (vs : List Vertex)
    → IsColored cluster vs
    → InRange n vs
    → IsVertex vs s
    → ((u : ℕ) → Reach vs e s u → white_at cluster vs u ≡ true)
    → let σ : Visit = record { trace = replicate n 0; vertices = vs } in
      (τ : Visit) × (dfs_visit (length vs + 2) cluster e (some s) σ ≡ done τ)
      × (length τ.trace ≡ n)
      × AllBits τ.trace
      × SameBare vs τ.vertices
      × ((i : ℕ) → (get_or τ.trace i 0 ≡ 1) ↔ Sees vs e s i)
searched cluster s e n vs colored range is pale =
    let σ : Visit = record { trace = replicate n 0; vertices = vs } in
    let fuel = length vs + 2 in
    let sized : length σ.trace ≡ n = length-replicate n 0 in
    let (τ, returns, explored, visited, sound) =
      both cluster e s σ (Sees vs e s) (dfs_visit fuel cluster e (some s) σ)
        (dfs_visit-Ends fuel cluster e (some s) σ colored (omega (arith, whites-length cluster vs)))
        (dfs_visit-Goes cluster e fuel s σ colored (subst (λ m. InRange m vs) (sym sized) range) is)
        (dfs_visit-Marks fuel cluster e s σ) in
    (
      τ,
      returns,
      explored.later.sized ∙ sized,
      explored.later.bits (AllBits-replicate n),
      explored.later.same,
      λ i. (
        λ h. elim (sound i h) [ inl old ↦ absurd (unmarked n i old) | inr sees ↦ sees ],
        λ sees.
            subst (λ j. Marked τ j) sees.column
              (Visited-Marked cluster e σ τ explored s sees.seen sees.vertex visited pale sees.at
                sees.walk),
      ),
    )

-- If every vertex that s reaches without passing through e or a remote witness is white, then
-- `JudgeSee` of s and e returns, whatever the rest of the colors: with a trace that has a 1 exactly
-- for the columns of those vertices and else 0, s sees e if the column of e is among them, and
-- strongly if they are at least the super majority; the vertices stay as they are up to colors.
-- This is where pointers to parents and column numbers are in range and s and e are vertices.
pub judge_see-Judged :
    (cluster s e : ℕ) (jp : JpGraph)
    → IsColored cluster jp.vertices
    → InRange jp.broadness jp.vertices
    → IsVertex jp.vertices s
    → IsVertex jp.vertices e
    → ((u : ℕ) → Reach jp.vertices e s u → white_at cluster jp.vertices u ≡ true)
    → (see : ℕ) × (strong : Bool) × (vs : List Vertex) × (judge_see cluster jp (some s) (some e)
        ≡ done (see, strong, vs))
      × Judged jp s e see strong vs
unfolding judge_see read_trace deref_vertex
judge_see-Judged cluster s e jp colored range is (target, at) pale =
    let (τ, returns, sized, bits, same, seen) =
      searched cluster s e jp.broadness jp.vertices colored range is pale in
    let (v, there, bared) = get_elem?-bare_at τ.vertices e target (same e ∙ at) in
    let column : v.seq_num ≡ target.seq_num = ap (λ (x : Vertex). x.seq_num) bared in
    let inside : v.seq_num < length τ.trace = omega (arith, range.columns e target at) in
    let read = get_elem?-get_or τ.trace v.seq_num inside in
    let t = get_or τ.trace v.seq_num 0 in
    (
      (if t == 1 then 1 else 0),
      leb jp.super_majority (sum τ.trace),
      τ.vertices,
      rw (returns, there, deref_vertex, read, read_trace) refl,
      record {
        target = target;
        at = at;
        trace = τ.trace;
        sized = sized;
        bits = bits;
        seen = seen;
        sees = (
          λ h. subst (Sees jp.vertices e s) column ((seen v.seq_num).0 ((see_bit t).0 h)),
          λ h. (see_bit t).1 ((seen v.seq_num).1 (subst (Sees jp.vertices e s) (sym column) h)),
        );
        strongly = strong_bit jp.super_majority (sum τ.trace);
        kept = same;
      },
    )
