-- ===== src/Round/Search/Walks.antt =====
-- The walk of `clearColorDFS` down a column, and the vertex at which it starts to paint.
use go_hashgrid.Common.{
  ℕ, zero, suc, ◌≤◌, ◌<◌, ◌≡◌, refl, ap, subst, ◌∙◌, inl, inr, Bool, none, some, List, arith,
  Bool-cases, ℤ, pos, eq_ℤ, Outcome, done,
}
use go_hashgrid.Jigsaw.State.{Vertex, VertexRef, Column, deref_vertex, deref_big}
use go_hashgrid.Round.Search.{self_part_of, find_starter}
use go_hashgrid.Round.Search.Seen.{bare, bare_at, SameBare}
use go_hashgrid.Round.Search.Visits.{IsVertex, get_elem?-bare_at}
use go_hashgrid.Round.Search.Tops.{IsOf, Top, Top-here, Top-next, Top-none}

-- A reference to a vertex of the heap, or none.
abbrev pub IsRef : List Vertex → VertexRef → Type 0
IsRef us s = (p : ℕ) → s ≡ some p → IsVertex us p

abbrev pub height : (ℕ → ℕ) → VertexRef → ℕ
height rank none = 0
height rank (some p) = suc (rank p)

-- The walks down a column go down in a ranking of the vertices.
pub record IsWalk (us : List Vertex) (rank : ℕ → ℕ) (col : Column) : Type 0 where
  pub tops : IsRef us col.ver_top
  pub parents :
      (p : ℕ) (v : Vertex)
      → bare_at us p ≡ some v
      → IsRef us (self_part_of col v) × (height rank (self_part_of col v) ≤ rank p)

-- Every vertex has the number of its round.
abbrev pub HaveNumbers : List ℤ → List Vertex → Type 0
HaveNumbers bigs us =
    (p : ℕ) (v : Vertex)
    → bare_at us p ≡ some v
    → (n : ℤ) × (deref_big bigs v.event.round_id ≡ done n)

-- The vertex behind a reference, read in a heap that differs in the colors.
pub read_vertex :
    (bigs : List ℤ) (idx : ℕ) (us vs : List Vertex) (p : ℕ)
    → HaveNumbers bigs us
    → SameBare us vs
    → IsVertex us p
    → (v w : Vertex) × (b : Bool) × (n : ℤ) × (deref_vertex vs p ≡ done v)
      × (deref_big bigs v.event.round_id ≡ done n)
      × (eq_ℤ n (pos idx) ≡ b)
      × (bare v ≡ w)
      × IsOf bigs idx us b p w
unfolding deref_vertex
read_vertex bigs idx us vs p numbers same (w, is) =
    let (v, there, bared) = get_elem?-bare_at vs p w (same p ∙ is) in
    let (n, read) = numbers p w is in
    let read' = ap (λ (x : Vertex). deref_big bigs x.event.round_id) bared ∙ read in
    (
      v,
      w,
      eq_ℤ n (pos idx),
      n,
      rw (there, deref_vertex) refl,
      read',
      refl,
      bared,
      record { at = is; number = n; read = read; is = refl },
    )

-- What the first loop finds from s.
abbrev pub Finds : List ℤ → ℕ → List Vertex → Column → VertexRef → Outcome VertexRef → Type 0
Finds bigs idx us col s m =
    (r : VertexRef) × (m ≡ done r) × IsRef us r × ((q : ℕ) → Top bigs idx us col s q → r ≡ some q)

pub find_starter-Finds :
    (fuel : ℕ) (bigs : List ℤ) (idx : ℕ) (us vs : List Vertex) (rank : ℕ → ℕ) (col : Column)
    (starter s : VertexRef)
    → HaveNumbers bigs us
    → IsWalk us rank col
    → SameBare us vs
    → IsRef us starter
    → IsRef us s
    → height rank s < fuel
    → Finds bigs idx us col s (find_starter fuel vs bigs col idx starter s)
unfolding find_starter
find_starter-Finds zero bigs idx us vs rank col starter s numbers walk same old is low =
    absurd (omega arith)
find_starter-Finds (suc fuel) bigs idx us vs rank col starter none numbers walk same old is low =
    (starter, refl, old, λ q t. absurd (Top-none bigs idx us col t))
find_starter-Finds (suc fuel) bigs idx us vs rank col starter (some p) numbers walk same old is
      low =
    let (v, w, b, n, here, read, eq, bared, of) =
      read_vertex bigs idx us vs p numbers same (is p refl) in
    let (next, falls) = walk.parents p w of.at in
    let (r, found, ref, first) =
      find_starter-Finds fuel bigs idx us vs rank col starter (self_part_of col w) numbers walk same
        old next (omega (arith, low, falls)) in
    elim (Bool-cases b) [
      | inl hit ↦ (
        some p,
        rw (here, read, eq, hit) refl,
        is,
        λ q t. ap some (Top-here bigs idx us col w (subst (λ x. IsOf bigs idx us x p w) hit of) t),
      )
      | inr miss ↦ (
        r,
        rw (here, read, eq, miss)
            (ap (λ (x : Vertex). find_starter fuel vs bigs col idx starter (self_part_of col x))
                bared
              ∙ found),
        ref,
        λ q t. first q (Top-next bigs idx us col w (subst (λ x. IsOf bigs idx us x p w) miss of) t),
      )
    ]
