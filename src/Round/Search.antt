-- ===== src/Round/Search.antt =====
-- `dfsVisit`, `JudgeSee` and `clearColorDFS` of core/round.go: which columns a vertex sees.
pub mod Depth
pub mod Seen
pub mod Explored
pub mod Visits
pub mod Exact
pub mod Tops
pub mod Walks
pub mod Clear
use go_hashgrid.Common.{
  ℕ, zero, suc, ◌+◌, ◌-◌, ◌*◌, ◌/◌, ◌%◌, ◌^◌, ◌≤◌, ◌<◌, ◌≡◌, refl, sym, ap, subst, ◌∙◌, ◌≢◌, ◌↔◌,
  ◌⊎◌, inl, inr, Bool, true, false, not, ◌&&◌, ◌||◌, Option, none, some, List, [], ◌∷◌, ◌++◌, map,
  arith, ltb, leb, ◌==◌, if◌then◌else◌, ltb→lt, lt→ltb, leb→le, ==_iff, Bool-cases, Option-cases,
  List-cases, length, get_elem?, set, get_or, take, drop, replicate, length-append, length-set,
  get_elem?-set_self, get_elem?-set_ne, length-take, length-drop, drop-nil, length-replicate,
  length-map, ℤ, pos, negsuc, eq_ℤ, eq_ℤ_iff, Bytes, bytes_eq, bytes_eq_iff, bytes_eq_refl,
  AllBytes, Outcome, done, panic, blocked, out_of_fuel, ◌>>=◌, ◌>>◌, >>=-eq-done, done-injective,
  lookup, insert, delete, lookup-insert, lookup-insert_self, lookup-insert_ne, lookup-delete,
  length-insert_new, length-insert_old,
}
use go_hashgrid.Types.Address.{Address}
use go_hashgrid.Types.Hash.{Hash}
use go_hashgrid.Jigsaw.State.{
  witness_remote, white, grey, black, Vertex, VertexRef, Column, JpGraph, update_vertex, deref_big,
  deref_vertex,
}

-- `s.color[cluster] = c`
abbrev pub paint : ℕ → ℕ → ℕ → List Vertex → List Vertex
paint cluster c p vs = update_vertex p (λ v. record v { color = set v.color cluster c }) vs

-- `trace[i] = 1`, out of range a panic.
unfoldable pub mark_trace : ℕ → List ℕ → Outcome (List ℕ)
mark_trace i trace = if ltb i (length trace) then done (set trace i 1) else panic

-- What a visit changes: the trace and the colors.
pub record Visit : Type 0 where
  pub trace : List ℕ
  pub vertices : List Vertex

-- One turn of the loop over both parents, with `visit` for the call of `dfsVisit`.
unfoldable pub visit_white :
    ℕ → (VertexRef → Visit → Outcome Visit) → VertexRef → Visit → Outcome Visit
unfolding deref_vertex
visit_white cluster visit none σ = done σ
visit_white cluster visit (some u) σ = deref_vertex σ.vertices u >>= λ v.
    if get_or v.color cluster white == white then visit (some u) σ else done σ

-- What `dfsVisit` does at the vertex s, once it has been read.
unfoldable pub visit_vertex :
    ℕ → ℕ → (VertexRef → Visit → Outcome Visit) → ℕ → Vertex → Visit → Outcome Visit
unfolding mark_trace visit_white
visit_vertex cluster e visit s v σ = do
  trace ← mark_trace v.seq_num σ.trace
  let stop = (s == e) || (v.witness == witness_remote)
  if stop then done (record σ { trace = trace }) else do
    σ1 ←
        visit_white cluster visit v.self_pt
          (record { trace = trace; vertices = paint cluster grey s σ.vertices })
    σ2 ← visit_white cluster visit v.another_pt σ1
    done (record σ2 { vertices = paint cluster black s σ2.vertices })

-- `dfsVisit` towards the vertex e; the first argument bounds the depth of the calls.
unfoldable pub dfs_visit : ℕ → ℕ → ℕ → VertexRef → Visit → Outcome Visit
unfolding visit_vertex deref_vertex
dfs_visit zero cluster e s σ = out_of_fuel
dfs_visit (suc fuel) cluster e none σ = done σ
dfs_visit (suc fuel) cluster e (some s) σ =
    deref_vertex σ.vertices s >>= λ v. visit_vertex cluster e (dfs_visit fuel cluster e) s v σ

unfoldable pub sum : List ℕ → ℕ
sum [] = 0
sum (t ∷ ts) = t + sum ts

-- `trace[i]`, out of range a panic.
unfoldable pub read_trace : ℕ → List ℕ → Outcome ℕ
read_trace i trace = elim (get_elem? trace i) [ none ↦ panic | some t ↦ done t ]

-- `JudgeSee`: whether s sees e, whether it sees it strongly, and the colors that are left.
unfoldable pub judge_see : ℕ → JpGraph → VertexRef → VertexRef → Outcome (ℕ × Bool × List Vertex)
unfolding dfs_visit read_trace sum deref_vertex
judge_see cluster jp none e = done (0, false, jp.vertices)
judge_see cluster jp (some s) none = done (0, false, jp.vertices)
judge_see cluster jp (some s) (some e) = do
  σ ←
      dfs_visit (length jp.vertices + 2) cluster e (some s)
        (record { trace = replicate jp.broadness 0; vertices = jp.vertices })
  v ← deref_vertex σ.vertices e
  t ← read_trace v.seq_num σ.trace
  done ((if t == 1 then 1 else 0), leb jp.super_majority (sum σ.trace), σ.vertices)

-- `col.hashChain[s.SelfPart]`
abbrev pub self_part_of : Column → Vertex → VertexRef
self_part_of col v = lookup v.event.self_part col.hash_chain

-- The first loop of `clearColorDFS` in a column: the first vertex from `s` down that is of the
-- round; the old `starter` is kept where there is none.
unfoldable pub find_starter :
    ℕ → List Vertex → List ℤ → Column → ℕ → VertexRef → VertexRef → Outcome VertexRef
unfolding deref_vertex deref_big
find_starter zero vs bigs col idx starter s = out_of_fuel
find_starter (suc fuel) vs bigs col idx starter none = done starter
find_starter (suc fuel) vs bigs col idx starter (some s) = do
  v ← deref_vertex vs s
  n ← deref_big bigs v.event.round_id
  let rest = find_starter fuel vs bigs col idx starter (self_part_of col v)
  if eq_ℤ n (pos idx) then done (some s) else rest

-- The second loop: paint white from `starter` down while the round lasts.
unfoldable pub paint_white :
    ℕ → ℕ → List ℤ → Column → ℕ → VertexRef → List Vertex → Outcome (List Vertex)
unfolding deref_vertex deref_big
paint_white zero cluster bigs col idx s vs = out_of_fuel
paint_white (suc fuel) cluster bigs col idx none vs = done vs
paint_white (suc fuel) cluster bigs col idx (some s) vs = do
  v ← deref_vertex vs s
  n ← deref_big bigs v.event.round_id
  let rest = paint_white fuel cluster bigs col idx (self_part_of col v) (paint cluster white s vs)
  if eq_ℤ n (pos idx) then rest else done vs

-- The loop over the columns, in the map's order of iteration.
unfoldable pub clear_columns :
    ℕ → ℕ → List ℤ → ℕ → VertexRef → List (Address × Column) → List Vertex → Outcome (List Vertex)
unfolding find_starter paint_white
clear_columns fuel cluster bigs idx starter [] vs = done vs
clear_columns fuel cluster bigs idx starter ((a, col) ∷ cols) vs = do
  starter' ← find_starter fuel vs bigs col idx starter col.ver_top
  vs' ← paint_white fuel cluster bigs col idx starter' vs
  clear_columns fuel cluster bigs idx starter' cols vs'

-- `clearColorDFS`; `fuel` bounds each walk down a column.
unfoldable pub clear_color_dfs : ℕ → ℕ → ℕ → JpGraph → Outcome JpGraph
unfolding clear_columns
clear_color_dfs fuel idx cluster jp =
    clear_columns fuel cluster jp.bigs idx none jp.graph jp.vertices >>= λ vs.
    done (record jp { vertices = vs })
