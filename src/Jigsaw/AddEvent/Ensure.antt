-- ===== src/Jigsaw/AddEvent/Ensure.antt =====
-- The columns that `AddEvent` makes first.
use go_hashgrid.Common.{
  ◌≡◌, ap, ◌∙◌, inl, inr, Option, none, some, Bool-cases, Option-cases, length, bytes_eq,
  bytes_eq_iff, lookup, lookup-insert_self, lookup-insert_ne,
}
use go_hashgrid.Types.Address.{Address}
use go_hashgrid.Types.Event.{Event}
use go_hashgrid.Jigsaw.State.{Column, JpGraph}
use go_hashgrid.Jigsaw.Columns.{new_column, add_node}
use go_hashgrid.Jigsaw.AddEvent.{other_address, add_missing, ensure_columns}

add_missing_keeps {ℓ} :
    (P : JpGraph → Type ℓ)
    → ((a : Address) (jp : JpGraph) → P jp → P (add_node a jp))
    → (c : Option Column) (a : Address) (jp : JpGraph) → P jp
    → P (add_missing c a jp)
unfolding add_missing
add_missing_keeps P keep none a jp h = keep a jp h
add_missing_keeps P keep (some c) a jp h = h

-- What `AddNode` keeps is kept.
pub ensure_columns_keeps {ℓ} :
    (P : JpGraph → Type ℓ)
    → ((a : Address) (jp : JpGraph) → P jp → P (add_node a jp))
    → (e : Event) (jp : JpGraph) → P jp
    → P (ensure_columns e jp)
unfolding ensure_columns
ensure_columns_keeps P keep e jp h =
    let self = add_missing_keeps P keep (lookup e.self_sig.addr jp.graph) e.self_sig.addr jp h in
    elim (Option-cases (other_address e)) [
      | inl alone ↦ rw (alone, ensure_columns) self
      | inr (o, two) ↦
          rw (two, ensure_columns) (add_missing_keeps P keep (lookup o jp.graph) o _ self)
    ]

-- There is a column of the address.
abbrev pub HasColumn : Address → JpGraph → Type 0
HasColumn a jp = (c : Column) × (lookup a jp.graph ≡ some c)

add_node-HasColumn : (b a : Address) (jp : JpGraph) → HasColumn b jp → HasColumn b (add_node a jp)
unfolding add_node
add_node-HasColumn b a jp (c, at) = elim (Option-cases (lookup a jp.graph)) [
  | inr (d, old) ↦ rw (old, add_node) (c, at)
  | inl new ↦ elim (Bool-cases (bytes_eq a b)) [
    | inl same ↦
        let is : a ≡ b = (bytes_eq_iff a b).0 same in
        absurd (cc (new, at, ap (λ x. lookup x jp.graph) is))
    | inr other ↦ rw (new, add_node) (c, lookup-insert_ne a b _ jp.graph other ∙ at)
  ]
]

add_node-new : (a : Address) (jp : JpGraph) → lookup a jp.graph ≡ none → HasColumn a (add_node a jp)
unfolding add_node
add_node-new a jp new =
    let c : Column = record new_column { seq_num = length jp.graph } in
    rw (new, add_node) (c, lookup-insert_self a c jp.graph)

add_missing-HasColumn :
    (a : Address) (jp : JpGraph) → HasColumn a (add_missing (lookup a jp.graph) a jp)
unfolding add_missing
add_missing-HasColumn a jp = elim (Option-cases (lookup a jp.graph)) [
  | inr (c, old) ↦ rw (old, add_missing) (c, old)
  | inl new ↦ rw (new, add_missing) (add_node-new a jp new)
]

-- The author has a column then.
pub ensure_columns-HasColumn :
    (e : Event) (jp : JpGraph) → HasColumn e.self_sig.addr (ensure_columns e jp)
unfolding ensure_columns
ensure_columns-HasColumn e jp =
    let a = e.self_sig.addr in
    let self = add_missing-HasColumn a jp in
    elim (Option-cases (other_address e)) [
      | inl alone ↦ rw (alone, ensure_columns) self
      | inr (o, two) ↦
          rw (two, ensure_columns)
            (add_missing_keeps (HasColumn a) (add_node-HasColumn a) (lookup o jp.graph) o _ self)
    ]
