-- ===== src/Examples/Stale.antt =====
-- A column of two vertices that an earlier search has left black.
use go_hashgrid.Common.{
  ℕ, zero, suc, ◌<◌, ◌≡◌, refl, subst, ◌⊎◌, inl, inr, Bool, true, none, some, List, [], ◌∷◌, arith,
  replicate, ℤ, pos, done,
}
use go_hashgrid.Types.Hash.{zero_hash}
use go_hashgrid.Jigsaw.State.{Vertex, Column, JpGraph, black, deref_big}
use go_hashgrid.Round.Search.{self_part_of}
use go_hashgrid.Round.Search.Seen.{bare, bare_at}
use go_hashgrid.Round.Search.Explored.{white_at}
use go_hashgrid.Round.Search.Visits.{IsVertex, InRange}
use go_hashgrid.Round.Search.Exact.{Judged}
use go_hashgrid.Round.Search.Tops.{IsOf, top, at, down}
use go_hashgrid.Round.Search.Walks.{HaveNumbers}
use go_hashgrid.Round.Search.Clear.{AreWalks, InTops}
use go_hashgrid.Round.Monitor.{look}
use go_hashgrid.Round.Monitor.Look.{look-Judged}
use go_hashgrid.Examples.Values.{you, sample_event, start, opened}
use go_hashgrid.Examples.Rounds.{vertex}

abbrev older : Vertex
older = record (vertex 0 none none) {
  event = record (sample_event you 0 you 0) { self_part = replicate 32 9 };
  color = black ∷ 0 ∷ 0 ∷ [];
}

abbrev newer : Vertex
newer = record (vertex 0 (some 0) none) {
  event = sample_event you 1 you 0;
  color = black ∷ 0 ∷ 0 ∷ [];
}

abbrev column : Column
column = record {
  hash_chain = (newer.event.self_hash, 1) ∷ (zero_hash, 0) ∷ [];
  ver_top = some 1;
  seq_num = 0;
}

abbrev stale : JpGraph
stale = record start { graph = (you, column) ∷ []; vertices = older ∷ newer ∷ [] }

-- What holds of both vertices holds of all.
at_both :
    (P : ℕ → Vertex → Type 0)
    → P 0 (bare older)
    → P 1 (bare newer)
    → (p : ℕ) (v : Vertex) → bare_at stale.vertices p ≡ some v
    → P p v
at_both P a b zero v h = let same : bare older ≡ v = cc h in subst (P 0) same a
at_both P a b (suc zero) v h = let same : bare newer ≡ v = cc h in subst (P 1) same b
at_both P a b (suc (suc p)) v h = absurd (cc h)

stale-InRange : InRange stale.broadness stale.vertices
unfolding opened
stale-InRange = record {
  columns = at_both (λ p v. v.seq_num < 2) (omega arith) (omega arith);
  selfs = λ p u v here.
      at_both (λ p v. v.self_pt ≡ some u → IsVertex stale.vertices u) (λ h. absurd (cc h))
        (λ h. let is : 0 ≡ u = cc h in subst (IsVertex stale.vertices) is (bare older, refl)) p v
        here;
  others = λ p u v here.
      at_both (λ p v. v.another_pt ≡ some u → IsVertex stale.vertices u) (λ h. absurd (cc h))
        (λ h. absurd (cc h)) p v here;
}

stale-HaveNumbers : HaveNumbers stale.bigs stale.vertices
unfolding deref_big
stale-HaveNumbers =
    at_both (λ p v. (n : ℤ) × (deref_big stale.bigs v.event.round_id ≡ done n)) (pos 0, refl)
      (pos 0, refl)

below_two : (p : ℕ) → IsVertex stale.vertices p → p < 2
below_two p (v, is) = at_both (λ p v. p < 2) (omega arith) (omega arith) p v is

chain_down : (self_part_of column (bare older) ≡ none) × (self_part_of column (bare newer) ≡ some 0)
unfolding opened
chain_down = (refl, refl)

stale-AreWalks : AreWalks stale.vertices (λ p. p) stale.graph
stale-AreWalks = (
  record {
    tops = λ p h. let is : 1 ≡ p = cc h in subst (IsVertex stale.vertices) is (bare newer, refl);
    parents = at_both _ (rw (chain_down.0) (λ q h. cc h, omega arith)) (
        rw (chain_down.1) (
          λ q h. let is : 0 ≡ q = cc h in subst (IsVertex stale.vertices) is (bare older, refl),
          omega arith,
        ));
  },
  tt,
)

newer-IsOf : IsOf stale.bigs 0 stale.vertices true 1 (bare newer)
unfolding deref_big
newer-IsOf = record { at = refl; number = pos 0; read = refl; is = refl }

older-IsOf : IsOf stale.bigs 0 stale.vertices true 0 (bare older)
unfolding deref_big
older-IsOf = record { at = refl; number = pos 0; read = refl; is = refl }

all_tops :
    (u : ℕ)
    → (white_at 0 stale.vertices u ≡ true) ⊎ InTops stale.bigs 0 stale.vertices stale.graph u
all_tops zero = inr (
  0,
  you,
  column,
  refl,
  (
    1,
    top (bare newer) newer-IsOf,
    down (bare newer) newer-IsOf (rw chain_down.1 (at (bare older) older-IsOf)),
  ),
)
all_tops (suc zero) =
    inr (0, you, column, refl, (1, top (bare newer) newer-IsOf, at (bare newer) newer-IsOf))
all_tops (suc (suc u)) = inl refl

look-Judged_example :
    (see : ℕ) × (strong : Bool) × (vs : List Vertex) × (look 3 0 0 stale (some 1) (some 0)
      ≡ done (see, strong, record stale { vertices = vs }))
    × Judged stale 1 0 see strong vs
look-Judged_example =
    look-Judged 2 0 0 1 0 stale (λ p. p) stale-HaveNumbers below_two stale-AreWalks
      (omega arith, (omega arith, tt)) stale-InRange (bare newer, refl) (bare older, refl)
      (λ u r. all_tops u)
