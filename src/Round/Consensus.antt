-- ===== src/Round/Consensus.antt =====
-- `ConsensusShow` of core/round.go: the blocks of a round, column by column.
pub mod Laws
use go_hashgrid.Common.{
  ℕ, zero, suc, ◌+◌, ◌-◌, ◌*◌, ◌/◌, ◌%◌, ◌^◌, ◌≤◌, ◌<◌, ◌≡◌, refl, sym, ap, subst, ◌∙◌, ◌≢◌, ◌↔◌,
  ◌⊎◌, inl, inr, Bool, true, false, not, ◌&&◌, ◌||◌, Option, none, some, List, [], ◌∷◌, ◌++◌, map,
  arith, ltb, leb, ◌==◌, if◌then◌else◌, ltb→lt, lt→ltb, leb→le, ==_iff, Bool-cases, Option-cases,
  List-cases, length, get_elem?, set, get_or, take, drop, replicate, length-append, length-set,
  get_elem?-set_self, get_elem?-set_ne, length-take, length-drop, drop-nil, length-replicate,
  length-map, ℤ, pos, negsuc, eq_ℤ, eq_ℤ_iff, Bytes, bytes_eq, bytes_eq_iff, bytes_eq_refl,
  AllBytes, Outcome, done, panic, blocked, out_of_fuel, ◌>>=◌, ◌>>◌, >>=-eq-done, done-injective,
  lookup, insert, delete, lookup-insert, lookup-insert_self, lookup-insert_ne, lookup-delete,
  length-insert_new, length-insert_old,
}
use go_hashgrid.Types.Address.{Address}
use go_hashgrid.Types.Hash.{Hash}
use go_hashgrid.Jigsaw.State.{Vertex, VertexRef, Column, JpGraph, witness_remote, deref_vertex}

-- The sum of the bytes, by which `AddrSlice.Less` orders.
unfoldable pub byte_sum : Address → ℕ
byte_sum [] = 0
byte_sum (b ∷ bs) = b + byte_sum bs

-- `AddrSlice.Less` on the addresses at two indices.
unfoldable pub less : Address → Address → Bool
unfolding byte_sum
less a b = ltb (byte_sum a) (byte_sum b)

-- One block more before those shown.
abbrev pub shown_first : Hash → List Hash × ℕ → Outcome (List Hash × ℕ)
shown_first h (rest, n) = done (h ∷ rest, n)

-- The loop down the self parents: the hashes shown, up to the next witness, and `totalBlocks`.
unfoldable pub show_chain : ℕ → List Vertex → VertexRef → ℕ → Outcome (List Hash × ℕ)
unfolding deref_vertex
show_chain zero vs x total = out_of_fuel
show_chain (suc fuel) vs none total = done ([], total)
show_chain (suc fuel) vs (some p) total = deref_vertex vs p >>= λ v.
    let older = (show_chain fuel vs v.self_pt (total + 1) >>= shown_first v.event.self_hash) in
    if v.witness == witness_remote then done ([], total) else older

-- What is shown of a column from its top: a witness there is shown and passed.
unfoldable pub show_column : ℕ → List Vertex → VertexRef → ℕ → Outcome (List Hash × ℕ)
unfolding show_chain deref_vertex
show_column fuel vs none total = done ([], total)
show_column fuel vs (some p) total = deref_vertex vs p >>= λ v.
    if v.witness == witness_remote
    then (show_chain fuel vs v.self_pt (total + 1) >>= shown_first v.event.self_hash)
    else show_chain fuel vs (some p) total

-- The loop over the sorted addresses; one without a column is passed over.
unfoldable pub show_columns : ℕ → JpGraph → List Address → ℕ → Outcome (List Hash × ℕ)
unfolding show_column
show_columns fuel jp [] total = done ([], total)
show_columns fuel jp (a ∷ rest) total = elim (lookup a jp.graph) [
  | none ↦ show_columns fuel jp rest total
  | some col ↦
      (show_column fuel jp.vertices col.ver_top total >>= λ (top, n).
      show_columns fuel jp rest n >>= λ (below, k). done (top ++ below, k))
]

-- One turn of `ConsensusShow`, with `sort` for `sort.Sort` on an `AddrSlice` and the count of blocks
-- so far: what is shown, and the count afterwards.
unfoldable pub consensus_show :
    (List Address → List Address) → ℕ → JpGraph → ℕ → Outcome (List Hash × ℕ)
unfolding show_columns
consensus_show sort fuel jp total = show_columns fuel jp (sort (map (λ x. x.0) jp.graph)) total
