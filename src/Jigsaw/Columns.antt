-- ===== src/Jigsaw/Columns.antt =====
-- `NewColumn` and `AddNode` of core/jigsaw.go.
pub mod Numbering
use go_hashgrid.Common.{
  ℕ, zero, suc, ◌+◌, ◌-◌, ◌*◌, ◌/◌, ◌%◌, ◌^◌, ◌≤◌, ◌<◌, ◌≡◌, refl, sym, ap, subst, ◌∙◌, ◌≢◌, ◌↔◌,
  ◌⊎◌, inl, inr, Bool, true, false, not, ◌&&◌, ◌||◌, Option, none, some, List, [], ◌∷◌, ◌++◌, map,
  arith, ltb, leb, ◌==◌, if◌then◌else◌, ltb→lt, lt→ltb, leb→le, ==_iff, Bool-cases, Option-cases,
  length, get_elem?, set, get_or, take, drop, replicate, length-append, length-set,
  get_elem?-set_self, get_elem?-set_ne, length-take, length-drop, length-replicate, length-map, ℤ,
  pos, negsuc, eq_ℤ, eq_ℤ_iff, Bytes, bytes_eq, bytes_eq_iff, bytes_eq_refl, AllBytes, Outcome,
  done, panic, blocked, ◌>>=◌, ◌>>◌, >>=-eq-done, lookup, insert, delete, lookup-insert,
  lookup-insert_self, lookup-insert_ne, lookup-delete, length-insert_new, length-insert_old,
}
use go_hashgrid.Types.Address.{Address}
use go_hashgrid.Jigsaw.State.{Column, JpGraph}

unfoldable pub new_column : Column
new_column = record { hash_chain = []; ver_top = none; seq_num = 0 }

-- `AddNode` after its first test: the lock is taken again, and the test is not made again.
abbrev pub insert_node : Address → JpGraph → JpGraph
insert_node a jp =
    let mlen = length jp.graph in
    record jp {
      graph = insert a (record new_column { seq_num = mlen }) jp.graph;
      super_majority = (mlen + 1) * 2 / 3;
    }

-- `AddNode` in one go; the column itself is `lookup a` of the graph afterwards.
unfoldable pub add_node : Address → JpGraph → JpGraph
unfolding new_column
add_node a jp = elim (lookup a jp.graph) [ some cl ↦ jp | none ↦ insert_node a jp ]
