-- ===== src/Round/Consensus/Laws.antt =====
-- `ConsensusShow` ends, and what it counts does not depend on how the addresses are sorted.
use go_hashgrid.Common.{
  ℕ, zero, suc, ◌+◌, ◌<◌, ◌≡◌, refl, ◌∙◌, inl, inr, none, some, List, [], ◌∷◌, ◌++◌, map, arith,
  ◌==◌, Bool-cases, Option-cases, length, get_elem?, length-append, Outcome, done, ◌>>=◌, ap,
  lookup,
}
use mathlib.Core.List.{Perm, foldr}
use mathlib.Core.List.Perm
use native.Mathlib.Nat.{ℕ_set}
use go_hashgrid.Common.{get_elem?-lt}
use go_hashgrid.Types.Address.{Address}
use go_hashgrid.Types.Hash.{Hash}
use go_hashgrid.Jigsaw.State.{Vertex, VertexRef, Column, JpGraph, witness_remote, deref_vertex}
use go_hashgrid.Jigsaw.Seats.{seat_of, seat_at, seat_at-lt}
use go_hashgrid.Jigsaw.AddEvent.Chains.{IsDescending}
use go_hashgrid.Round.Consensus.{shown_first, show_chain, show_column, show_columns, consensus_show}

get_elem?-seat :
    (vs : List Vertex) (p : ℕ) (v : Vertex)
    → get_elem? vs p ≡ some v
    → seat_at vs p ≡ some (seat_of v)
get_elem?-seat [] p v h = cc
get_elem?-seat (u ∷ vs) zero v h = let same : u ≡ v = cc in rw same
get_elem?-seat (u ∷ vs) (suc p) v h = get_elem?-seat vs p v h

-- Whatever the count was before, it grows by what is shown.
abbrev Shows : (ℕ → Outcome (List Hash × ℕ)) → List Hash → Type 0
Shows walk l = (total : ℕ) → walk total ≡ done (l, total + length l)

Shows-first :
    (walk : ℕ → Outcome (List Hash × ℕ)) (h : Hash) (l : List Hash)
    → Shows walk l
    → Shows (λ total. walk (total + 1) >>= shown_first h) (h ∷ l)
Shows-first walk h l rest total =
    let counted : total + 1 + length l ≡ total + length (h ∷ l) = omega arith in
    rw (rest (total + 1)) (ap (λ n. done (h ∷ l, n)) counted)

Shows-none : Shows (λ total. done ([], total)) []
Shows-none total =
    let counted : total ≡ total + length {A = Hash} [] = omega arith in
    ap (λ n. done ([], n)) counted

show_chain-at :
    (fuel : ℕ) (vs : List Vertex) (p : ℕ) (v : Vertex)
    → get_elem? vs p ≡ some v
    → (l : List Hash) × Shows (show_chain fuel vs v.self_pt) l
    → (l : List Hash) × Shows (show_chain (suc fuel) vs (some p)) l
unfolding show_chain
show_chain-at fuel vs p v at (l, rest) = elim (Bool-cases (v.witness == witness_remote)) [
  | inl e ↦ ([], λ total. rw (at, deref_vertex) (rw e (Shows-none total)))
  | inr e ↦ (
    v.event.self_hash ∷ l,
    λ total.
        rw (at, deref_vertex)
          (rw e (Shows-first (show_chain fuel vs v.self_pt) v.event.self_hash l rest total)),
  )
]

-- A walk from a vertex takes no more turns than there are older ones.
show_chain-done :
    (fuel : ℕ) (jp : JpGraph) (x : VertexRef)
    → IsDescending jp
    → ((p : ℕ) → x ≡ some p → (p < length jp.vertices) × (suc p < fuel))
    → 0 < fuel
    → (l : List Hash) × Shows (show_chain fuel jp.vertices x) l
unfolding show_chain
show_chain-done zero jp x d bound some_fuel = absurd (omega arith)
show_chain-done (suc fuel) jp none d bound some_fuel = ([], Shows-none)
show_chain-done (suc fuel) jp (some p) d bound some_fuel =
    let (here, room) = bound p refl in
    let (v, at) = get_elem?-lt jp.vertices p here in
    let older = d.selfs p in
    show_chain-at fuel jp.vertices p v at (
      show_chain-done fuel jp v.self_pt d
        (λ q next.
          let below : q < p = older q (seat_of v) (get_elem?-seat jp.vertices p v at) next in
          (omega arith, omega arith))
        (omega arith))

show_column-done :
    (fuel : ℕ) (jp : JpGraph) (x : VertexRef)
    → IsDescending jp
    → ((p : ℕ) → x ≡ some p → p < length jp.vertices)
    → length jp.vertices < fuel
    → (l : List Hash) × Shows (show_column fuel jp.vertices x) l
unfolding show_column
show_column-done fuel jp none d bound room = ([], Shows-none)
show_column-done fuel jp (some p) d bound room =
    let here = bound p refl in
    let (v, at) = get_elem?-lt jp.vertices p here in
    let older = d.selfs p in
    let (l, down) =
      show_chain-done fuel jp v.self_pt d
        (λ q next.
          let below : q < p = older q (seat_of v) (get_elem?-seat jp.vertices p v at) next in
          (omega arith, omega arith))
        (omega arith) in
    let (m, whole) =
      show_chain-done fuel jp (some p) d
        (λ q e. let same : p ≡ q = cc in (omega arith, omega arith)) (omega arith) in
    elim (Bool-cases (v.witness == witness_remote)) [
      | inl e ↦ (
        v.event.self_hash ∷ l,
        λ total.
            rw (at, deref_vertex)
              (rw e (
                Shows-first (show_chain fuel jp.vertices v.self_pt) v.event.self_hash l down
                  total)),
      )
      | inr e ↦ (m, λ total. rw (at, deref_vertex) (rw e (whole total)))
    ]

abbrev length_of : Outcome (List Hash × ℕ) → ℕ
length_of (done (l, n)) = length l
length_of _ = 0

-- How many blocks the column of an address shows.
unfoldable pub blocks : ℕ → JpGraph → Address → ℕ
blocks fuel jp a = elim (lookup a jp.graph) [
  | none ↦ 0
  | some c ↦ length_of (show_column fuel jp.vertices c.ver_top 0)
]

-- The blocks of some addresses together.
unfoldable pub all_blocks : ℕ → JpGraph → List Address → ℕ
unfolding blocks
all_blocks fuel jp l = foldr (λ a n. blocks fuel jp a + n) 0 l

blocks-absent :
    (fuel : ℕ) (jp : JpGraph) (a : Address) → lookup a jp.graph ≡ none → blocks fuel jp a ≡ 0
unfolding blocks
blocks-absent fuel jp a e = rw (e, blocks)

blocks-column :
    (fuel : ℕ) (jp : JpGraph) (a : Address) (c : Column) (top : List Hash)
    → lookup a jp.graph ≡ some c
    → Shows (show_column fuel jp.vertices c.ver_top) top
    → blocks fuel jp a ≡ length top
unfolding blocks
blocks-column fuel jp a c top e f = rw (e, blocks) (rw (f 0))

show_columns-done :
    (fuel : ℕ) (jp : JpGraph) (l : List Address)
    → IsDescending jp
    → length jp.vertices < fuel
    → (shown : List Hash) × Shows (show_columns fuel jp l) shown
      × (length shown ≡ all_blocks fuel jp l)
unfolding show_columns all_blocks
show_columns-done fuel jp [] d room = ([], Shows-none, refl)
show_columns-done fuel jp (a ∷ l) d room =
    let (shown, below, count) = show_columns-done fuel jp l d room in
    elim (Option-cases (lookup a jp.graph)) [
      | inl absent ↦ (
        shown,
        λ total. rw (absent, show_columns) (below total),
        omega (arith, count, blocks-absent fuel jp a absent),
      )
      | inr (c, here) ↦
          let (top, column) =
            show_column-done fuel jp c.ver_top d
              (λ p e. let (s, at) = d.tops a c p here e in seat_at-lt jp.vertices p s at) room in
          (
            top ++ shown,
            λ total.
                let counted : total + length top + length shown ≡ total + length (top ++ shown) =
                  omega (arith, length-append top shown) in
                rw (here, show_columns)
                  (rw (column total, below (total + length top))
                    (ap (λ n. done (top ++ shown, n)) counted)),
            omega
                (arith, length-append top shown, count, blocks-column fuel jp a c top here column),
          )
    ]

all_blocks-perm :
    (fuel : ℕ) (jp : JpGraph) (l m : List Address)
    → Perm l m
    → all_blocks fuel jp l ≡ all_blocks fuel jp m
unfolding all_blocks
all_blocks-perm fuel jp l m p =
    Perm.foldr-eq ℕ_set (λ a n. blocks fuel jp a + n) (λ a b x. omega arith) p 0

-- Where self parents are older than their children, a turn of `ConsensusShow` ends: each walk takes
-- at most as many steps as there are vertices. It counts each block that it shows, and the count is
-- the sum over the columns, in whatever order an exact rearrangement of the addresses puts them.
pub consensus_show-blocks :
    (sort : List Address → List Address) (fuel : ℕ) (jp : JpGraph) (total : ℕ)
    → ((l : List Address) → Perm (sort l) l)
    → IsDescending jp
    → length jp.vertices < fuel
    → (shown : List Hash) × (consensus_show sort fuel jp total ≡ done (shown, total + length shown))
      × (length shown ≡ all_blocks fuel jp (map (λ x. x.0) jp.graph))
unfolding consensus_show
consensus_show-blocks sort fuel jp total perm d room =
    let addrs = map (λ (x : Address × Column). x.0) jp.graph in
    let (shown, made, count) = show_columns-done fuel jp (sort addrs) d room in
    (shown, made total, count ∙ all_blocks-perm fuel jp (sort addrs) addrs (perm addrs))
