-- ===== src/Round/Search/Clear.antt =====
-- `clearColorDFS` whitens, in each column, the vertices of the round that lie together at the top.
use go_hashgrid.Common.{
  ℕ, zero, suc, ◌<◌, ◌≡◌, refl, sym, ap, subst, ◌∙◌, ◌⊎◌, inl, inr, true, none, some, List, [], ◌∷◌,
  arith, ◌==◌, ==_iff, Bool-cases, get_elem?, ℤ, done,
}
use go_hashgrid.Types.Address.{Address}
use go_hashgrid.Jigsaw.State.{Vertex, VertexRef, Column, JpGraph, white}
use go_hashgrid.Round.Search.{paint, self_part_of, paint_white, clear_columns, clear_color_dfs}
use go_hashgrid.Round.Search.Seen.{SameBare, SameBare-paint}
use go_hashgrid.Round.Search.Explored.{white_at, white_at-paint_ne}
use go_hashgrid.Round.Search.Visits.{IsVertex}
use go_hashgrid.Round.Search.Tops.{
  IsOf, Top, Below, Below-next, Below-none, white_at-painted, white_at-whiter,
}
use go_hashgrid.Round.Search.Depth.{IsColored, paint-IsColored}
use go_hashgrid.Round.Search.Walks.{
  IsRef, height, IsWalk, HaveNumbers, read_vertex, find_starter-Finds,
}

-- What painting from the vertices of `vs` to those of a result does: only vertices of the round
-- become white, and those that the predicate names do.
pub record Whitens (bigs : List ℤ) (idx cluster : ℕ) (us vs : List Vertex) (S : ℕ → Type 0)
    (ws : List Vertex) : Type 0 where
  pub same : SameBare us ws
  pub colored : IsColored cluster vs → IsColored cluster ws
  pub keeps : (p : ℕ) → white_at cluster vs p ≡ true → white_at cluster ws p ≡ true
  pub named : (p : ℕ) → S p → white_at cluster ws p ≡ true
  pub only :
      (p : ℕ)
      → white_at cluster ws p ≡ true
      → (white_at cluster vs p ≡ true) ⊎ ((v : Vertex) × IsOf bigs idx us true p v)

paint_white-Whitens :
    (fuel cluster : ℕ) (bigs : List ℤ) (idx : ℕ) (us vs : List Vertex) (rank : ℕ → ℕ) (col : Column)
    (s : VertexRef)
    → HaveNumbers bigs us
    → IsWalk us rank col
    → SameBare us vs
    → IsRef us s
    → height rank s < fuel
    → (ws : List Vertex) × (paint_white fuel cluster bigs col idx s vs ≡ done ws)
      × Whitens bigs idx cluster us vs (Below bigs idx us col s) ws
unfolding paint_white
paint_white-Whitens zero cluster bigs idx us vs rank col s numbers walk same is low =
    absurd (omega arith)
paint_white-Whitens (suc fuel) cluster bigs idx us vs rank col none numbers walk same is low = (
  vs,
  refl,
  record {
    same = same;
    colored = λ h. h;
    keeps = λ p h. h;
    named = λ p t. absurd (Below-none bigs idx us col t);
    only = λ p h. inl h;
  },
)
paint_white-Whitens (suc fuel) cluster bigs idx us vs rank col (some q) numbers walk same is low =
    let (v, w, b, n, here, read, eq, bared, of) =
      read_vertex bigs idx us vs q numbers same (is q refl) in
    let (next, falls) = walk.parents q w of.at in
    let vs1 = paint cluster white q vs in
    let (ws, painted, x) =
      paint_white-Whitens fuel cluster bigs idx us vs1 rank col (self_part_of col w) numbers walk
        (λ p. SameBare-paint cluster white q vs p ∙ same p) next (omega (arith, low, falls)) in
    elim (Bool-cases b) [
      | inl hit ↦ (
        ws,
        rw (here, read, eq, hit)
            (ap (λ (y : Vertex). paint_white fuel cluster bigs col idx (self_part_of col y) vs1)
                bared
              ∙ painted),
        record {
          same = x.same;
          colored = λ h. x.colored (paint-IsColored cluster white q vs h);
          keeps = λ p h. x.keeps p (white_at-whiter cluster q p vs h);
          named = λ p t. elim ((Below-next bigs idx us col w b of t).1) [
            | inl e ↦
                x.keeps p
                  (subst (λ y. white_at cluster vs1 y ≡ true) e (white_at-painted cluster q vs))
            | inr rest ↦ x.named p rest
          ];
          only = λ p h. elim (x.only p h) [
            | inl old ↦ elim (Bool-cases (q == p)) [
              | inl e ↦ inr (
                w,
                subst (λ y. IsOf bigs idx us true y w) ((==_iff q p).0 e)
                    (subst (λ y. IsOf bigs idx us y q w) hit of),
              )
              | inr ne ↦ inl (sym (white_at-paint_ne cluster white q p vs ne) ∙ old)
            ]
            | inr new ↦ inr new
          ];
        },
      )
      | inr miss ↦ (
        vs,
        rw (here, read, eq, miss) refl,
        record {
          same = same;
          colored = λ h. h;
          keeps = λ p h. h;
          named = λ p t. absurd (cc ((Below-next bigs idx us col w b of t).0, miss));
          only = λ p h. inl h;
        },
      )
    ]

-- The vertex p is among those of the round at the top of a column.
abbrev pub InTop : List ℤ → ℕ → List Vertex → Column → ℕ → Type 0
InTop bigs idx us col p =
    (q : ℕ) × Top bigs idx us col col.ver_top q × Below bigs idx us col (some q) p

abbrev pub InTops : List ℤ → ℕ → List Vertex → List (Address × Column) → ℕ → Type 0
InTops bigs idx us cols p =
    (i : ℕ) × (a : Address) × (col : Column) × (get_elem? cols i ≡ some (a, col))
    × InTop bigs idx us col p

abbrev pub AreWalks : List Vertex → (ℕ → ℕ) → List (Address × Column) → Type 0
AreWalks us rank [] = Unit
AreWalks us rank ((a, col) ∷ cols) = IsWalk us rank col × AreWalks us rank cols

height-lt :
    (n : ℕ) (us : List Vertex) (rank : ℕ → ℕ) (s : VertexRef)
    → ((p : ℕ) → IsVertex us p → rank p < n)
    → IsRef us s
    → height rank s < suc n
height-lt n us rank none low is = omega arith
height-lt n us rank (some p) low is = omega (arith, low p (is p refl))

Whitens-trans :
    {bigs : List ℤ} {idx cluster : ℕ} {us vs xs ws : List Vertex} {S T U : ℕ → Type 0}
    → Whitens bigs idx cluster us vs S xs
    → Whitens bigs idx cluster us xs T ws
    → ((p : ℕ) → U p → S p ⊎ T p)
    → Whitens bigs idx cluster us vs U ws
Whitens-trans x y split = record {
  same = y.same;
  colored = λ h. y.colored (x.colored h);
  keeps = λ p h. y.keeps p (x.keeps p h);
  named = λ p u. elim (split p u) [ inl s ↦ y.keeps p (x.named p s) | inr t ↦ y.named p t ];
  only = λ p h. elim (y.only p h) [ inl old ↦ x.only p old | inr new ↦ inr new ];
}

InTops-split :
    (bigs : List ℤ) (idx : ℕ) (us : List Vertex) (a : Address) (col : Column)
    (cols : List (Address × Column)) (p : ℕ)
    → InTops bigs idx us ((a, col) ∷ cols) p
    → InTop bigs idx us col p ⊎ InTops bigs idx us cols p
InTops-split bigs idx us a col cols p (zero, b, c, there, lies) =
    let same : c ≡ col = cc there in inl (subst (λ x. InTop bigs idx us x p) same lies)
InTops-split bigs idx us a col cols p (suc i, b, c, there, lies) = inr (i, b, c, there, lies)

clear_columns-Whitens :
    (n cluster : ℕ) (bigs : List ℤ) (idx : ℕ) (us vs : List Vertex) (rank : ℕ → ℕ)
    (starter : VertexRef) (cols : List (Address × Column))
    → HaveNumbers bigs us
    → ((p : ℕ) → IsVertex us p → rank p < n)
    → AreWalks us rank cols
    → SameBare us vs
    → IsRef us starter
    → (ws : List Vertex) × (clear_columns (suc n) cluster bigs idx starter cols vs ≡ done ws)
      × Whitens bigs idx cluster us vs (InTops bigs idx us cols) ws
unfolding clear_columns
clear_columns-Whitens n cluster bigs idx us vs rank starter [] numbers low walks same old = (
  vs,
  refl,
  record {
    same = same;
    colored = λ h. h;
    keeps = λ p h. h;
    named = λ p t. absurd (cc (t.3));
    only = λ p h. inl h;
  },
)
clear_columns-Whitens n cluster bigs idx us vs rank starter ((a, col) ∷ cols) numbers low walks same
      old =
    let walk = walks.0 in
    let (r, found, ref, first) =
      find_starter-Finds (suc n) bigs idx us vs rank col starter col.ver_top numbers walk same old
        walk.tops (height-lt n us rank col.ver_top low walk.tops) in
    let (xs, painted, x) =
      paint_white-Whitens (suc n) cluster bigs idx us vs rank col r numbers walk same ref
        (height-lt n us rank r low ref) in
    let (ws, cleared, y) =
      clear_columns-Whitens n cluster bigs idx us xs rank r cols numbers low walks.1 x.same ref in
    (
      ws,
      rw (found, painted) cleared,
      Whitens-trans x y λ p lies. elim (InTops-split bigs idx us a col cols p lies) [
        | inl (q, t, below) ↦ inl (subst (λ s. Below bigs idx us col s p) (sym (first q t)) below)
        | inr later ↦ inr later
      ],
    )

-- `clearColorDFS` returns, whitens in every column the vertices of the round that lie together at
-- the top, and no vertex of another round. This is where self parents, looked up by their hashes,
-- are lower in a ranking whose numbers are below the fuel.
pub clear_color_dfs-Whitens :
    (n idx cluster : ℕ) (jp : JpGraph) (rank : ℕ → ℕ)
    → HaveNumbers jp.bigs jp.vertices
    → ((p : ℕ) → IsVertex jp.vertices p → rank p < n)
    → AreWalks jp.vertices rank jp.graph
    → (ws : List Vertex) × (clear_color_dfs (suc n) idx cluster jp
        ≡ done (record jp { vertices = ws }))
      × Whitens jp.bigs idx cluster jp.vertices jp.vertices
          (InTops jp.bigs idx jp.vertices jp.graph)
          ws
unfolding clear_color_dfs
clear_color_dfs-Whitens n idx cluster jp rank numbers low walks =
    let (ws, cleared, x) =
      clear_columns-Whitens n cluster jp.bigs idx jp.vertices jp.vertices rank none jp.graph numbers
        low walks (λ p. refl) (λ p h. cc h) in
    (ws, rw cleared refl, x)
