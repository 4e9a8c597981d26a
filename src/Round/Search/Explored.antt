-- ===== src/Round/Search/Explored.antt =====
-- What a call of `dfsVisit` leaves behind: every vertex that it colors is marked, with its parents.
use go_hashgrid.Common.{
  ℕ, zero, suc, ◌≤◌, ◌≡◌, refl, ◌∙◌, ◌⊎◌, inl, inr, Bool, true, false, ◌||◌, some, List, [], ◌∷◌,
  arith, ◌==◌, Bool-cases, length, get_elem?, set, get_or, length-set,
}
use go_hashgrid.Jigsaw.State.{Vertex, update_vertex, white, witness_remote}
use go_hashgrid.Round.Search.{paint, Visit}
use go_hashgrid.Round.Search.Depth.{IsColored, paint-IsColored, get_or-set}
use go_hashgrid.Round.Search.Seen.{bare_at, SameBare, SameBare-paint}

-- The vertex at p is white for the cluster, or there is none.
abbrev pub white_at : ℕ → List Vertex → ℕ → Bool
white_at cluster [] p = true
white_at cluster (v ∷ vs) zero = get_or v.color cluster white == white
white_at cluster (v ∷ vs) (suc p) = white_at cluster vs p

-- `dfsVisit` goes no further than this vertex.
abbrev pub stops : ℕ → ℕ → Vertex → Bool
stops e p v = (p == e) || (v.witness == witness_remote)

abbrev pub Marked : Visit → ℕ → Type 0
Marked σ i = get_or σ.trace i 0 ≡ 1

-- Every number of the trace is 0 or 1.
abbrev pub AllBits : List ℕ → Type 0
AllBits [] = Unit
AllBits (t ∷ ts) = (t ≤ 1) × AllBits ts

pub AllBits-set : (ts : List ℕ) (i : ℕ) → AllBits ts → AllBits (set ts i 1)
AllBits-set [] i h = tt
AllBits-set (t ∷ ts) zero h = (omega arith, h.1)
AllBits-set (t ∷ ts) (suc i) h = (h.0, AllBits-set ts i h.1)

pub get_or-mark : (ts : List ℕ) (i j : ℕ) → get_or ts j 0 ≡ 1 → get_or (set ts i 1) j 0 ≡ 1
get_or-mark [] i j h = h
get_or-mark (t ∷ ts) zero zero h = refl
get_or-mark (t ∷ ts) zero (suc j) h = h
get_or-mark (t ∷ ts) (suc i) zero h = h
get_or-mark (t ∷ ts) (suc i) (suc j) h = get_or-mark ts i j h

paint_cell :
    (cs : List ℕ) (i c d : ℕ)
    → (c == white) ≡ false
    → (get_or cs i d == white) ≡ false
    → (get_or (set cs i c) i d == white) ≡ false
paint_cell [] i c d dark h = h
paint_cell (x ∷ cs) zero c d dark h = dark
paint_cell (x ∷ cs) (suc i) c d dark h = paint_cell cs i c d dark h

-- Grey and black leave a dark vertex dark.
pub white_at-paint :
    (cluster c q p : ℕ) (vs : List Vertex)
    → (c == white) ≡ false
    → white_at cluster vs p ≡ false
    → white_at cluster (paint cluster c q vs) p ≡ false
unfolding update_vertex
white_at-paint cluster c q p [] dark h = h
white_at-paint cluster c zero zero (v ∷ vs) dark h = paint_cell v.color cluster c white dark h
white_at-paint cluster c zero (suc p) (v ∷ vs) dark h = h
white_at-paint cluster c (suc q) zero (v ∷ vs) dark h = h
white_at-paint cluster c (suc q) (suc p) (v ∷ vs) dark h = white_at-paint cluster c q p vs dark h

pub white_at-paint_ne :
    (cluster c q p : ℕ) (vs : List Vertex)
    → (q == p) ≡ false
    → white_at cluster (paint cluster c q vs) p ≡ white_at cluster vs p
unfolding update_vertex
white_at-paint_ne cluster c q p [] h = refl
white_at-paint_ne cluster c zero zero (v ∷ vs) h = absurd (cc h)
white_at-paint_ne cluster c zero (suc p) (v ∷ vs) h = refl
white_at-paint_ne cluster c (suc q) zero (v ∷ vs) h = refl
white_at-paint_ne cluster c (suc q) (suc p) (v ∷ vs) h =
    white_at-paint_ne cluster c q p vs (ground arith)

pub white_at-paint_self :
    (cluster c q : ℕ) (v : Vertex) (vs : List Vertex)
    → (c == white) ≡ false
    → IsColored cluster vs
    → get_elem? vs q ≡ some v
    → white_at cluster (paint cluster c q vs) q ≡ false
unfolding update_vertex
white_at-paint_self cluster c q v [] dark h at = cc
white_at-paint_self cluster c zero v (u ∷ vs) dark h at =
    rw (get_or-set u.color cluster c white h.0) dark
white_at-paint_self cluster c (suc q) v (u ∷ vs) dark h at =
    white_at-paint_self cluster c q v vs dark h.1 at

module _ (cluster e : ℕ) where
  -- The vertex is dark, or it is one to stop at and its column is marked.
  abbrev pub Done : Visit → ℕ → Type 0
  Done σ u =
      (white_at cluster σ.vertices u ≡ false)
      ⊎ ((v : Vertex) × (bare_at σ.vertices u ≡ some v) × (stops e u v ≡ true) × Marked σ v.seq_num)

  -- The vertex p is marked, and nothing is left to do behind it.
  pub record Visited (σ : Visit) (p : ℕ) : Type 0 where
    pub vertex : Vertex
    pub at : bare_at σ.vertices p ≡ some vertex
    pub mark : Marked σ vertex.seq_num
    pub self : stops e p vertex ≡ false → (u : ℕ) → vertex.self_pt ≡ some u → Done σ u
    pub other : stops e p vertex ≡ false → (u : ℕ) → vertex.another_pt ≡ some u → Done σ u

  -- Marks and colors only grow.
  pub record Later (σ τ : Visit) : Type 0 where
    pub same : SameBare σ.vertices τ.vertices
    pub colored : IsColored cluster σ.vertices → IsColored cluster τ.vertices
    pub sized : length τ.trace ≡ length σ.trace
    pub bits : AllBits σ.trace → AllBits τ.trace
    pub stay :
        (p : ℕ) → white_at cluster σ.vertices p ≡ false → white_at cluster τ.vertices p ≡ false
    pub marks : (i : ℕ) → Marked σ i → Marked τ i

  pub Later-refl : (σ : Visit) → Later σ σ
  Later-refl σ = record {
    same = λ p. refl;
    colored = λ h. h;
    sized = refl;
    bits = λ h. h;
    stay = λ p h. h;
    marks = λ i h. h;
  }

  pub Later-trans : (σ τ υ : Visit) → Later σ τ → Later τ υ → Later σ υ
  Later-trans σ τ υ a b = record {
    same = λ p. b.same p ∙ a.same p;
    colored = λ h. b.colored (a.colored h);
    sized = b.sized ∙ a.sized;
    bits = λ h. b.bits (a.bits h);
    stay = λ p h. b.stay p (a.stay p h);
    marks = λ i h. b.marks i (a.marks i h);
  }

  pub Later-paint :
      (σ : Visit) (c p : ℕ)
      → (c == white) ≡ false
      → Later σ (record σ { vertices = paint cluster c p σ.vertices })
  Later-paint σ c p dark = record {
    same = SameBare-paint cluster c p σ.vertices;
    colored = paint-IsColored cluster c p σ.vertices;
    sized = refl;
    bits = λ h. h;
    stay = λ q h. white_at-paint cluster c p q σ.vertices dark h;
    marks = λ i h. h;
  }

  pub Later-mark : (σ : Visit) (i : ℕ) → Later σ (record σ { trace = set σ.trace i 1 })
  Later-mark σ i = record {
    same = λ p. refl;
    colored = λ h. h;
    sized = length-set σ.trace i 1;
    bits = AllBits-set σ.trace i;
    stay = λ p h. h;
    marks = λ j h. get_or-mark σ.trace i j h;
  }

  pub Later-Done : (σ τ : Visit) (u : ℕ) → Later σ τ → Done σ u → Done τ u
  Later-Done σ τ u l (inl dark) = inl (l.stay u dark)
  Later-Done σ τ u l (inr (v, at, stop, mark)) =
      inr (v, l.same u ∙ at, stop, l.marks v.seq_num mark)

  pub Later-Visited : (σ τ : Visit) (p : ℕ) → Later σ τ → Visited σ p → Visited τ p
  Later-Visited σ τ p l h = record {
    vertex = h.vertex;
    at = l.same p ∙ h.at;
    mark = l.marks h.vertex.seq_num h.mark;
    self = λ go u next. Later-Done σ τ u l (h.self go u next);
    other = λ go u next. Later-Done σ τ u l (h.other go u next);
  }

  -- Besides, every vertex that has become dark is visited.
  pub record Explored (σ τ : Visit) : Type 0 where
    pub later : Later σ τ
    pub fresh :
        (p : ℕ)
        → white_at cluster σ.vertices p ≡ true
        → white_at cluster τ.vertices p ≡ false
        → Visited τ p

  pub Explored-refl : (σ : Visit) → Explored σ σ
  Explored-refl σ = record { later = Later-refl σ; fresh = λ p w d. absurd (cc (w, d)) }

  pub Explored-trans : (σ τ υ : Visit) → Explored σ τ → Explored τ υ → Explored σ υ
  Explored-trans σ τ υ a b = record {
    later = Later-trans σ τ υ a.later b.later;
    fresh = λ p w d. elim (Bool-cases (white_at cluster τ.vertices p)) [
      | inl still ↦ b.fresh p still d
      | inr dark ↦ Later-Visited τ υ p b.later (a.fresh p w dark)
    ];
  }
