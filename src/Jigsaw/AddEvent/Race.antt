-- ===== src/Jigsaw/AddEvent/Race.antt =====
-- Two calls of `AddEvent` for a new author that overlap: `AddNode` looks for the column under one
-- lock and inserts it under another.
use go_hashgrid.Common.{
  ℕ, ◌≡◌, refl, sym, ap, inl, inr, true, false, none, some, arith, Option-cases, length, bytes_eq,
  bytes_eq_refl, done, lookup, lookup-insert_self, lookup-insert_ne, length-insert_old,
}
use go_hashgrid.Types.Address.{Address}
use go_hashgrid.Types.Hash.{Hash}
use go_hashgrid.Types.Event.{Event, Hasher}
use go_hashgrid.Jigsaw.State.{Column, JpGraph}
use go_hashgrid.Jigsaw.Columns.{new_column, insert_node, add_node}
use go_hashgrid.Jigsaw.AddEvent.{add_event}
use go_hashgrid.Jigsaw.AddEvent.Contents.{has_event, chain_has, names, add_event-has_event}

-- The column of the address is empty, and its number is that of no column of a graph of this size.
pub record IsOverwritten (a : Address) (jp jp' : JpGraph) : Type 0 where
  pub lost : (h : Hash) → has_event a h jp' ≡ false
  pub others :
      (b : Address) (h : Hash) → bytes_eq a b ≡ false → has_event b h jp' ≡ has_event b h jp
  pub column : Column
  pub here : lookup a jp'.graph ≡ some column
  pub beyond : column.seq_num ≡ length jp'.graph

insert_node-IsOverwritten :
    (a : Address) (jp : JpGraph) (c : Column)
    → lookup a jp.graph ≡ some c
    → IsOverwritten a jp (insert_node a jp)
unfolding has_event new_column lookup
insert_node-IsOverwritten a jp c old =
    let col : Column = record new_column { seq_num = length jp.graph } in
    let found = lookup-insert_self a col jp.graph in
    record {
      lost = λ h. ap (chain_has h) found;
      others = λ b h other. ap (chain_has h) (lookup-insert_ne a b col jp.graph other);
      column = col;
      here = found;
      beyond = sym (length-insert_old a col c jp.graph old);
    }

has_column :
    (a : Address) (h : Hash) (jp : JpGraph)
    → has_event a h jp ≡ true
    → (c : Column) × (lookup a jp.graph ≡ some c)
unfolding has_event
has_column a h jp had = elim (Option-cases (lookup a jp.graph)) [
  | inl absent ↦ absurd (cc (ap (chain_has h) absent, had))
  | inr found ↦ found
]

-- Two overlapping calls of `AddEvent` for the events of an author that has no column yet: if the
-- second looks for the column before the first makes it, and inserts its own after the first has
-- added its valid event, then no event of the author is left, that one included; the events of others
-- stay. The author's column then has as its number the number of columns, which is out of the range
-- from 0 that columns added one after another have.
pub add_event-IsOverwritten :
    (k : Hasher) (e : Event) (ty : ℕ) (jp jp' : JpGraph)
    → lookup e.self_sig.addr jp.graph ≡ none
    → add_event k e ty jp ≡ done (true, jp')
    → (has_event e.self_sig.addr e.self_hash jp' ≡ true)
      × (add_node e.self_sig.addr jp ≡ insert_node e.self_sig.addr jp)
      × (add_node e.self_sig.addr jp' ≡ jp')
      × IsOverwritten e.self_sig.addr jp' (insert_node e.self_sig.addr jp')
unfolding add_node
add_event-IsOverwritten k e ty jp jp' new added =
    let a = e.self_sig.addr in
    let (_, contents) = add_event-has_event k e ty jp jp' true added in
    let named : names e a e.self_hash ≡ true =
      rw (bytes_eq_refl a, bytes_eq_refl e.self_hash) refl in
    let has : has_event a e.self_hash jp' ≡ true = ground (arith, contents a e.self_hash, named) in
    let (c, found) = has_column a e.self_hash jp' has in
    (
      has,
      rw (new, add_node) refl,
      rw (found, add_node) refl,
      insert_node-IsOverwritten a jp' c found,
    )
