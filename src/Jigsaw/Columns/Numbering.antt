-- ===== src/Jigsaw/Columns/Numbering.antt =====
-- Columns are numbered without gaps, and the majority threshold follows their number.
use go_hashgrid.Common.{
  ℕ, suc, ◌+◌, ◌*◌, ◌/◌, ◌≤◌, ◌<◌, ◌≡◌, refl, ◌⊎◌, inl, inr, false, none, some, List, [], ◌∷◌,
  arith, Option-cases, length, bytes_eq, bytes_eq_iff, lookup, insert, lookup-insert_self,
  lookup-insert_ne, length-insert_new,
}
use go_hashgrid.Types.Address.{Address}
use go_hashgrid.Jigsaw.State.{Column, JpGraph}
use go_hashgrid.Jigsaw.Columns.{new_column, add_node}

-- Columns are numbered n, n + 1, … in the order in which they came.
abbrev pub NumberedFrom : ℕ → List (Address × Column) → Type 0
NumberedFrom n [] = Unit
NumberedFrom n ((a, c) ∷ g) = (c.seq_num ≡ n) × NumberedFrom (suc n) g

pub NumberedFrom-insert_new :
    (n : ℕ) (a : Address) (c : Column) (g : List (Address × Column))
    → NumberedFrom n g
    → lookup a g ≡ none
    → c.seq_num ≡ n + length g
    → NumberedFrom n (insert a c g)
unfolding insert lookup
NumberedFrom-insert_new n a c [] h e s = ground arith
NumberedFrom-insert_new n a c ((b, d) ∷ g) h e s =
    ground (arith, NumberedFrom-insert_new (suc n) a c g)

pub NumberedFrom-insert_old :
    (n : ℕ) (a : Address) (c d : Column) (g : List (Address × Column))
    → NumberedFrom n g
    → lookup a g ≡ some c
    → d.seq_num ≡ c.seq_num
    → NumberedFrom n (insert a d g)
unfolding insert lookup
NumberedFrom-insert_old n a c d [] h e s = cc
NumberedFrom-insert_old n a c d ((b, x) ∷ g) h e s =
    ground (arith, NumberedFrom-insert_old (suc n) a c d g)

pub NumberedFrom-bounds :
    (n : ℕ) (a : Address) (c : Column) (g : List (Address × Column))
    → NumberedFrom n g
    → lookup a g ≡ some c
    → (n ≤ c.seq_num) × (c.seq_num < n + length g)
unfolding lookup
NumberedFrom-bounds n a c [] h e = cc
NumberedFrom-bounds n a c ((b, x) ∷ g) h e = ground (arith, NumberedFrom-bounds (suc n) a c g)

pub NumberedFrom-injective :
    (n : ℕ) (a b : Address) (c d : Column) (g : List (Address × Column))
    → NumberedFrom n g
    → lookup a g ≡ some c
    → lookup b g ≡ some d
    → c.seq_num ≡ d.seq_num
    → a ≡ b
unfolding lookup
NumberedFrom-injective n a b c d [] h p q e = cc
NumberedFrom-injective n a b c d ((i, x) ∷ g) h p q e = ground (
  arith,
  NumberedFrom-injective (suc n) a b c d g,
  NumberedFrom-bounds (suc n) a c g,
  NumberedFrom-bounds (suc n) b d g,
  bytes_eq_iff i a,
  bytes_eq_iff i b,
)

-- What holds of the columns between two calls.
pub record IsNumbered (jp : JpGraph) : Type 0 where
  pub numbered : NumberedFrom 0 jp.graph
  pub majority : (jp.graph ≡ []) ⊎ (jp.super_majority ≡ length jp.graph * 2 / 3)

-- `AddNode` leaves the columns numbered 0, 1, 2, … and `superMajority` at two thirds of their
-- number, rounded down; afterwards the address has a column: the one it had, in an unchanged
-- graph, or an empty one whose number is the old number of columns. No other column changes.
pub add_node-IsNumbered :
    (a : Address) (jp : JpGraph)
    → IsNumbered jp
    → IsNumbered (add_node a jp)
      × (((c : Column) × (lookup a jp.graph ≡ some c) × (add_node a jp ≡ jp))
          ⊎ (lookup a jp.graph ≡ none)
            × (lookup a (add_node a jp).graph
                ≡ some (record { hash_chain = []; ver_top = none; seq_num = length jp.graph })))
      × ((b : Address) → bytes_eq a b ≡ false → lookup b (add_node a jp).graph ≡ lookup b jp.graph)
unfolding add_node
add_node-IsNumbered a jp h = elim (Option-cases (lookup a jp.graph)) [
  | inl new ↦
      rw (new, add_node)
        (
          record {
            numbered = NumberedFrom-insert_new 0 a _ jp.graph h.numbered new (omega arith);
            majority = inr (
                omega (
                  arith,
                  length-insert_new a (record new_column { seq_num = length jp.graph }) jp.graph
                      new,
                ));
          },
          inr (refl, lookup-insert_self a _ jp.graph),
          λ b e. lookup-insert_ne a b _ jp.graph e,
        )
  | inr (c, old) ↦ rw (old, add_node) (h, inl (c, refl, refl), λ b e. refl)
]

-- Two addresses with one column number are one address.
pub seq_num-injective :
    (jp : JpGraph) (a b : Address) (c d : Column)
    → IsNumbered jp
    → lookup a jp.graph ≡ some c
    → lookup b jp.graph ≡ some d
    → c.seq_num ≡ d.seq_num
    → a ≡ b
seq_num-injective jp a b c d h p q e = NumberedFrom-injective 0 a b c d jp.graph h.numbered p q e
