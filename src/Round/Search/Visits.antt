-- ===== src/Round/Search/Visits.antt =====
-- `dfsVisit` on a graph whose pointers and column numbers are in range panics nowhere, and visits
-- what it is called for.
use go_hashgrid.Common.{
  ℕ, zero, suc, ◌<◌, ◌≡◌, refl, sym, ap, subst, ◌∙◌, inl, inr, true, false, none, some, List, [],
  ◌∷◌, ◌==◌, lt→ltb, ==_iff, Bool-cases, length, get_elem?, set, get_or, Outcome, done, panic,
  blocked, out_of_fuel, ◌>>=◌,
}
use go_hashgrid.Jigsaw.State.{Vertex, VertexRef, deref_vertex, white, grey, black}
use go_hashgrid.Round.Search.{paint, mark_trace, Visit, visit_white, visit_vertex, dfs_visit}
use go_hashgrid.Round.Search.Depth.{IsColored, get_or-set}
use go_hashgrid.Round.Search.Seen.{bare, bare_at, SameBare, bare_at-get_elem?}
use go_hashgrid.Round.Search.Explored.{
  white_at, stops, Marked, white_at-paint_ne, white_at-paint_self, Done, Visited, Later,
  Later-trans, Later-paint, Later-mark, Later-Done, Later-Visited, Explored, Explored-refl,
  Explored-trans,
}

-- There is a vertex u.
abbrev pub IsVertex : List Vertex → ℕ → Type 0
IsVertex vs u = (v : Vertex) × (bare_at vs u ≡ some v)

-- Every parent is a vertex, and every column number is below n.
pub record InRange (n : ℕ) (vs : List Vertex) : Type 0 where
  pub columns : (p : ℕ) (v : Vertex) → bare_at vs p ≡ some v → v.seq_num < n
  pub selfs : (p u : ℕ) (v : Vertex) → bare_at vs p ≡ some v → v.self_pt ≡ some u → IsVertex vs u
  pub others :
      (p u : ℕ) (v : Vertex) → bare_at vs p ≡ some v → v.another_pt ≡ some u → IsVertex vs u

pub IsVertex-same : (vs ws : List Vertex) (u : ℕ) → SameBare vs ws → IsVertex vs u → IsVertex ws u
IsVertex-same vs ws u same (v, at) = (v, same u ∙ at)

pub InRange-same : (n : ℕ) (vs ws : List Vertex) → SameBare vs ws → InRange n vs → InRange n ws
InRange-same n vs ws same r = record {
  columns = λ p v at. r.columns p v (sym (same p) ∙ at);
  selfs = λ p u v at next. IsVertex-same vs ws u same (r.selfs p u v (sym (same p) ∙ at) next);
  others = λ p u v at next. IsVertex-same vs ws u same (r.others p u v (sym (same p) ∙ at) next);
}

-- The vertex behind a bare one.
pub get_elem?-bare_at :
    (vs : List Vertex) (p : ℕ) (w : Vertex)
    → bare_at vs p ≡ some w
    → (v : Vertex) × (get_elem? vs p ≡ some v) × (bare v ≡ w)
get_elem?-bare_at [] p w h = absurd (cc h)
get_elem?-bare_at (v ∷ vs) zero w h = (v, refl, cc h)
get_elem?-bare_at (v ∷ vs) (suc p) w h = get_elem?-bare_at vs p w h

white_at-get_elem? :
    (cluster : ℕ) (vs : List Vertex) (p : ℕ) (v : Vertex)
    → get_elem? vs p ≡ some v
    → white_at cluster vs p ≡ (get_or v.color cluster white == white)
white_at-get_elem? cluster [] p v h = cc
white_at-get_elem? cluster (u ∷ vs) zero v h =
    let same : u ≡ v = cc h in ap (λ (x : Vertex). get_or x.color cluster white == white) same
white_at-get_elem? cluster (u ∷ vs) (suc p) v h = white_at-get_elem? cluster vs p v h

module _ (cluster e : ℕ) where
  -- A call for the vertex s, and one for a parent where it is white.
  abbrev pub Goes : Visit → ℕ → Outcome Visit → Type 0
  Goes σ s (done τ) = Explored cluster e σ τ × Visited cluster e τ s × Done cluster e τ s
  Goes σ s panic = ⊥
  Goes σ s blocked = ⊥
  Goes σ s out_of_fuel = Unit

  abbrev GoesTo : Visit → VertexRef → Outcome Visit → Type 0
  GoesTo σ ref (done τ) = Explored cluster e σ τ × ((u : ℕ) → ref ≡ some u → Done cluster e τ u)
  GoesTo σ ref panic = ⊥
  GoesTo σ ref blocked = ⊥
  GoesTo σ ref out_of_fuel = Unit

  abbrev pub GoesAll : (VertexRef → Visit → Outcome Visit) → Type 0
  GoesAll visit =
      (s : ℕ) (σ : Visit)
      → IsColored cluster σ.vertices
      → InRange (length σ.trace) σ.vertices
      → IsVertex σ.vertices s
      → Goes σ s (visit (some s) σ)

  forget : (σ : Visit) (s : ℕ) (m : Outcome Visit) → Goes σ s m → GoesTo σ (some s) m
  forget σ s (done τ) (explored, visited, d) =
      (explored, λ u is. subst (Done cluster e τ) (cc is) d)
  forget σ s panic h = h
  forget σ s blocked h = h
  forget σ s out_of_fuel h = tt

  visit_white-GoesTo :
      (visit : VertexRef → Visit → Outcome Visit) (ref : VertexRef) (σ : Visit)
      → GoesAll visit
      → IsColored cluster σ.vertices
      → InRange (length σ.trace) σ.vertices
      → ((u : ℕ) → ref ≡ some u → IsVertex σ.vertices u)
      → GoesTo σ ref (visit_white cluster visit ref σ)
  unfolding visit_white deref_vertex
  visit_white-GoesTo visit none σ rec colored range is = (Explored-refl cluster e σ, λ u h. cc)
  visit_white-GoesTo visit (some u) σ rec colored range is =
      let (w, there) = is u refl in
      let (v, at, _) = get_elem?-bare_at σ.vertices u w there in
      rw (at, deref_vertex)
        (elim (Bool-cases (get_or v.color cluster white == white)) [
          | inl pale ↦ rw pale (forget σ u (visit (some u) σ) (rec u σ colored range (w, there)))
          | inr dark ↦ rw dark (
            Explored-refl cluster e σ,
            λ x h. inl (
                ap (white_at cluster σ.vertices) (cc h)
                ∙ white_at-get_elem? cluster σ.vertices u v at
                ∙ dark),
          )
        ])

  GoesTo-bind :
      (σ : Visit) (s : ℕ) (ref : VertexRef) (m : Outcome Visit) (f : Visit → Outcome Visit)
      (τ : Visit)
      → GoesTo τ ref m
      → ((υ : Visit) → GoesTo τ ref (done υ) → Goes σ s (f υ))
      → Goes σ s (m >>= f)
  GoesTo-bind σ s ref (done υ) f τ h next = next υ h
  GoesTo-bind σ s ref panic f τ h next = h
  GoesTo-bind σ s ref blocked f τ h next = h
  GoesTo-bind σ s ref out_of_fuel f τ h next = tt

  -- A vertex to stop at.
  stop-Goes :
      (σ : Visit) (s : ℕ) (v : Vertex)
      → bare_at σ.vertices s ≡ some (bare v)
      → v.seq_num < length σ.trace
      → stops e s v ≡ true
      → Goes σ s (done (record σ { trace = set σ.trace v.seq_num 1 }))
  stop-Goes σ s v at inside stop =
      let mark = get_or-set σ.trace v.seq_num 1 0 inside in
      (
        record { later = Later-mark cluster e σ v.seq_num; fresh = λ p w d. absurd (cc (w, d)) },
        record {
          vertex = bare v;
          at = at;
          mark = mark;
          self = λ go u next. absurd (cc (stop, go));
          other = λ go u next. absurd (cc (stop, go));
        },
        inr (bare v, at, stop, mark),
      )

  -- A vertex whose parents have been looked at.
  leave-Goes :
      (σ σ2 : Visit) (s : ℕ) (v : Vertex)
      → get_elem? σ.vertices s ≡ some v
      → IsColored cluster σ2.vertices
      → Later cluster e σ σ2
      → ((p : ℕ)
          → (s == p) ≡ false
          → white_at cluster σ.vertices p ≡ true
          → white_at cluster σ2.vertices p ≡ false
          → Visited cluster e σ2 p)
      → Marked σ2 v.seq_num
      → ((u : ℕ) → v.self_pt ≡ some u → Done cluster e σ2 u)
      → ((u : ℕ) → v.another_pt ≡ some u → Done cluster e σ2 u)
      → Goes σ s (done (record σ2 { vertices = paint cluster black s σ2.vertices }))
  leave-Goes σ σ2 s v at colored later fresh mark self other =
      let τ : Visit = record σ2 { vertices = paint cluster black s σ2.vertices } in
      let last = Later-paint cluster e σ2 black s refl in
      let (w, there, _) =
        get_elem?-bare_at σ2.vertices s (bare v)
          (later.same s ∙ bare_at-get_elem? σ.vertices s v at) in
      let visited : Visited cluster e τ s = record {
        vertex = bare v;
        at = last.same s ∙ later.same s ∙ bare_at-get_elem? σ.vertices s v at;
        mark = mark;
        self = λ go u next. Later-Done cluster e σ2 τ u last (self u next);
        other = λ go u next. Later-Done cluster e σ2 τ u last (other u next);
      } in
      (
        record {
          later = Later-trans cluster e σ σ2 τ later last;
          fresh = λ p pale dark. elim (Bool-cases (s == p)) [
            | inl is ↦ subst (Visited cluster e τ) ((==_iff s p).0 is) visited
            | inr ne ↦
                Later-Visited cluster e σ2 τ p last (
                  fresh p ne pale (sym (white_at-paint_ne cluster black s p σ2.vertices ne) ∙ dark))
          ];
        },
        visited,
        inl (white_at-paint_self cluster black s w σ2.vertices refl colored there),
      )

  visit_vertex-Goes :
      (visit : VertexRef → Visit → Outcome Visit) (s : ℕ) (v : Vertex) (σ : Visit)
      → GoesAll visit
      → IsColored cluster σ.vertices
      → InRange (length σ.trace) σ.vertices
      → get_elem? σ.vertices s ≡ some v
      → Goes σ s (visit_vertex cluster e visit s v σ)
  unfolding visit_vertex mark_trace
  visit_vertex-Goes visit s v σ rec colored range at =
      let here = bare_at-get_elem? σ.vertices s v at in
      let inside = range.columns s (bare v) here in
      rw (lt→ltb v.seq_num (length σ.trace) inside) (elim (Bool-cases (stops e s v)) [
        | inl stop ↦ rw stop (stop-Goes σ s v here inside stop)
        | inr go ↦
            let trace = set σ.trace v.seq_num 1 in
            let marked : Visit = record σ { trace = trace } in
            let σ0 : Visit = record { trace = trace; vertices = paint cluster grey s σ.vertices } in
            let l0 =
              Later-trans cluster e σ marked σ0 (Later-mark cluster e σ v.seq_num)
                (Later-paint cluster e marked grey s refl) in
            let ranged = λ (τ : Visit) (l : Later cluster e σ τ).
              subst (λ n. InRange n τ.vertices) (sym l.sized)
                (InRange-same (length σ.trace) σ.vertices τ.vertices l.same range) in
            rw go (
              GoesTo-bind σ s v.self_pt (visit_white cluster visit v.self_pt σ0) _ σ0
                (visit_white-GoesTo visit v.self_pt σ0 rec (l0.colored colored) (ranged σ0 l0)
                  λ u next.
                    IsVertex-same σ.vertices σ0.vertices u l0.same
                      (range.selfs s u (bare v) here next))
                λ σ1 (x1, self).
                  let l1 = Later-trans cluster e σ σ0 σ1 l0 x1.later in
                  GoesTo-bind σ s v.another_pt (visit_white cluster visit v.another_pt σ1) _ σ1
                    (visit_white-GoesTo visit v.another_pt σ1 rec (l1.colored colored)
                      (ranged σ1 l1)
                      λ u next.
                        IsVertex-same σ.vertices σ1.vertices u l1.same
                          (range.others s u (bare v) here next))
                    λ σ2 (x2, other).
                      let l2 = Later-trans cluster e σ σ1 σ2 l1 x2.later in
                      let x = Explored-trans cluster e σ0 σ1 σ2 x1 x2 in
                      leave-Goes σ σ2 s v at (l2.colored colored) l2
                        (λ p ne pale dark.
                          x.fresh p (white_at-paint_ne cluster grey s p σ.vertices ne ∙ pale) dark)
                        (x.later.marks v.seq_num (get_or-set σ.trace v.seq_num 1 0 inside))
                        (λ u next. Later-Done cluster e σ1 σ2 u x2.later (self u next)) other)
      ])

  -- `dfsVisit` from a vertex panics nowhere. Where it has fuel, every vertex that it has colored is
  -- marked, and its parents are dark or marked.
  pub dfs_visit-Goes : (fuel : ℕ) → GoesAll (dfs_visit fuel cluster e)
  unfolding dfs_visit deref_vertex
  dfs_visit-Goes zero s σ colored range is = tt
  dfs_visit-Goes (suc fuel) s σ colored range (w, there) =
      let (v, at, _) = get_elem?-bare_at σ.vertices s w there in
      rw (at, deref_vertex)
        (visit_vertex-Goes (dfs_visit fuel cluster e) s v σ (dfs_visit-Goes fuel) colored range at)
