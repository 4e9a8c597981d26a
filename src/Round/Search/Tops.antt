-- ===== src/Round/Search/Tops.antt =====
-- What `clearColorDFS` looks for in a column: the vertices of a round that lie together at the top.
use go_hashgrid.Common.{
  ℕ, zero, suc, ◌≡◌, refl, sym, ap, subst, ◌∙◌, ◌⊎◌, inl, inr, Bool, true, false, none, some, List,
  [], ◌∷◌, ◌==◌, ==_iff, Bool-cases, set, get_or, ℤ, pos, eq_ℤ, done, done-injective,
}
use go_hashgrid.Jigsaw.State.{Vertex, VertexRef, Column, white, update_vertex, deref_big}
use go_hashgrid.Round.Search.{paint, self_part_of}
use go_hashgrid.Round.Search.Seen.{bare_at}
use go_hashgrid.Round.Search.Explored.{white_at, white_at-paint_ne}

-- White stays white when it is painted, and a cell that is not there counts as white.
white-cell : (cs : List ℕ) (i : ℕ) → get_or (set cs i white) i white ≡ white
white-cell [] i = refl
white-cell (c ∷ cs) zero = refl
white-cell (c ∷ cs) (suc i) = white-cell cs i

pub white_at-painted :
    (cluster q : ℕ) (vs : List Vertex) → white_at cluster (paint cluster white q vs) q ≡ true
unfolding update_vertex
white_at-painted cluster q [] = refl
white_at-painted cluster zero (v ∷ vs) = ap (λ c. c == white) (white-cell v.color cluster)
white_at-painted cluster (suc q) (v ∷ vs) = white_at-painted cluster q vs

pub white_at-whiter :
    (cluster q p : ℕ) (vs : List Vertex)
    → white_at cluster vs p ≡ true
    → white_at cluster (paint cluster white q vs) p ≡ true
white_at-whiter cluster q p vs pale = elim (Bool-cases (q == p)) [
  | inl e ↦
      subst (λ x. white_at cluster (paint cluster white q vs) x ≡ true) ((==_iff q p).0 e)
        (white_at-painted cluster q vs)
  | inr ne ↦ white_at-paint_ne cluster white q p vs ne ∙ pale
]

-- Whether the vertex p of the heap `us` is of the round.
pub record IsOf (bigs : List ℤ) (idx : ℕ) (us : List Vertex) (b : Bool) (p : ℕ) (v : Vertex)
    : Type 0 where
  pub at : bare_at us p ≡ some v
  pub number : ℤ
  pub read : deref_big bigs v.event.round_id ≡ done number
  pub is : eq_ℤ number (pos idx) ≡ b

IsOf-agree :
    {bigs : List ℤ} {idx : ℕ} {us : List Vertex} {b c : Bool} {p : ℕ} {v w : Vertex}
    → IsOf bigs idx us b p v
    → IsOf bigs idx us c p w
    → (v ≡ w) × (b ≡ c)
IsOf-agree {bigs = bigs} {idx = idx} {v = v} {w = w} x y =
    let same : v ≡ w = cc (x.at, y.at) in
    let one : x.number ≡ y.number =
      done-injective x.number y.number
        (sym x.read ∙ ap (λ (u : Vertex). deref_big bigs u.event.round_id) same ∙ y.read) in
    (same, sym x.is ∙ ap (λ n. eq_ℤ n (pos idx)) one ∙ y.is)

module _ (bigs : List ℤ) (idx : ℕ) (us : List Vertex) (col : Column) where
  -- Down the column, q is the first vertex of the round.
  pub data Top : VertexRef → ℕ → Type 0 where
    top : {p : ℕ} (v : Vertex) → IsOf bigs idx us true p v → Top (some p) p
    lower :
        {p q : ℕ} (v : Vertex)
        → IsOf bigs idx us false p v
        → Top (self_part_of col v) q
        → Top (some p) q

  -- Down the column to q, all is of the round.
  pub data Below : VertexRef → ℕ → Type 0 where
    at : {p : ℕ} (v : Vertex) → IsOf bigs idx us true p v → Below (some p) p
    down :
        {p q : ℕ} (v : Vertex)
        → IsOf bigs idx us true p v
        → Below (self_part_of col v) q
        → Below (some p) q

  pub Top-here : {p q : ℕ} (v : Vertex) → IsOf bigs idx us true p v → Top (some p) q → p ≡ q
  Top-here v of (top w of') = refl
  Top-here v of (lower w of' t) = absurd (cc ((IsOf-agree of of').1))

  pub Top-next :
      {p q : ℕ} (v : Vertex)
      → IsOf bigs idx us false p v
      → Top (some p) q
      → Top (self_part_of col v) q
  Top-next v of (top w of') = absurd (cc ((IsOf-agree of of').1))
  Top-next {q = q} v of (lower w of' t) =
      subst (λ (x : Vertex). Top (self_part_of col x) q) (sym (IsOf-agree of of').0) t

  pub Below-next :
      {p q : ℕ} (v : Vertex) (b : Bool)
      → IsOf bigs idx us b p v
      → Below (some p) q
      → (b ≡ true) × ((p ≡ q) ⊎ Below (self_part_of col v) q)
  Below-next v b of (at w of') = ((IsOf-agree of of').1, inl refl)
  Below-next {q = q} v b of (down w of' t) =
      let (same, is) = IsOf-agree of of' in
      (is, inr (subst (λ (x : Vertex). Below (self_part_of col x) q) (sym same) t))

  pub Top-none : {q : ℕ} → Top none q → ⊥
  Top-none t = elim t [ ]

  pub Below-none : {q : ℕ} → Below none q → ⊥
  Below-none t = elim t [ ]
