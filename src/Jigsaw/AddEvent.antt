-- ===== src/Jigsaw/AddEvent.antt =====
-- `AddEvent` of core/jigsaw.go, with `NewVertex` and `RequestParentEvent`, in the order in which the
-- code works: columns, vertex, link to the other parent, round.
pub mod Steps
pub mod Place
pub mod Enter
pub mod Links
pub mod Ensure
pub mod Keeps
pub mod Returns
pub mod Placed
pub mod Waiting
pub mod Race
pub mod Sends
pub mod Quiet
pub mod Contents
pub mod Chains
use go_hashgrid.Common.{
  ℕ, zero, suc, ◌+◌, ◌-◌, ◌*◌, ◌/◌, ◌%◌, ◌^◌, ◌≤◌, ◌<◌, ◌≡◌, refl, sym, ap, subst, ◌∙◌, ◌≢◌, ◌↔◌,
  ◌⊎◌, inl, inr, Bool, true, false, not, ◌&&◌, ◌||◌, Option, none, some, List, [], ◌∷◌, ◌++◌, map,
  arith, ltb, leb, ◌==◌, if◌then◌else◌, ltb→lt, lt→ltb, leb→le, ==_iff, Bool-cases, Option-cases,
  length, get_elem?, set, get_or, take, drop, replicate, length-append, length-set,
  get_elem?-set_self, get_elem?-set_ne, length-take, length-drop, length-replicate, length-map, ℤ,
  pos, negsuc, eq_ℤ, eq_ℤ_iff, Bytes, bytes_eq, bytes_eq_iff, bytes_eq_refl, AllBytes, Outcome,
  done, panic, blocked, out_of_fuel, ◌>>=◌, ◌>>◌, >>=-eq-done, lookup, insert, delete,
  lookup-insert, lookup-insert_self, lookup-insert_ne, lookup-delete, length-insert_new,
  length-insert_old,
}
use go_hashgrid.Types.Address
use go_hashgrid.Types.Address.{Address, zero_address}
use go_hashgrid.Types.Hash.{Hash}
use go_hashgrid.Types.Event.{Event, Hasher, RequestArg, copy_event}
use go_hashgrid.Jigsaw.State.{
  normal, witness_remote, white, max_color_cluster, Vertex, VertexRef, Column, Round, JpGraph,
  update_vertex, update_round, deref_big, deref_vertex,
}
use go_hashgrid.Jigsaw.Columns.{add_node}
use go_hashgrid.Jigsaw.Validate.{validate_event}
use go_hashgrid.Round.Rounds.{add_comer}

abbrev pub is_none {ℓ} : {A : Type ℓ} → Option A → Bool
is_none none = true
is_none (some _) = false

-- `NewVertex`
unfoldable pub new_vertex : Event → ℕ → Vertex
unfolding copy_event
new_vertex e ty = record {
  event = copy_event e;
  color = replicate max_color_cluster white;
  witness = ty;
  another_pt = none;
  self_pt = none;
  seq_num = 0;
}

-- The address of `otherColumn`, which stays nil for the zero address.
abbrev pub other_address : Event → Option Address
other_address e =
    if eq_ℤ (Address.compare e.other_part_a zero_address) (pos 0) then none else some e.other_part_a

-- `if !ok { column = jp.AddNode(a) }` after a lookup.
unfoldable pub add_missing : Option Column → Address → JpGraph → JpGraph
unfolding add_node
add_missing (some _) a jp = jp
add_missing none a jp = add_node a jp

-- Both lookups are made before the first `AddNode`; that for the other column is skipped where
-- there is none.
unfoldable pub ensure_columns : Event → JpGraph → JpGraph
unfolding add_missing
ensure_columns e jp =
    let jp1 = add_missing (lookup e.self_sig.addr jp.graph) e.self_sig.addr jp in
    elim (other_address e) [ none ↦ jp1 | some o ↦ add_missing (lookup o jp.graph) o jp1 ]

-- The event is in its column already: only a remote witness leaves a trace.
unfoldable pub readmit : ℕ → ℕ → JpGraph → JpGraph
readmit p ty jp =
    if ty == witness_remote
    then record jp {
      vertices = update_vertex p (λ v. record v { witness = ty }) jp.vertices;
      round_trigger = jp.round_trigger ++ p ∷ [];
    }
    else jp

-- A new vertex, on top of its column `col`.
unfoldable pub push_vertex : Event → ℕ → Column → JpGraph → JpGraph
unfolding new_vertex
push_vertex e ty col jp =
    let p = length jp.vertices in
    record jp {
      vertices =
          jp.vertices
          ++ record (new_vertex e ty) { self_pt = col.ver_top; seq_num = col.seq_num } ∷ [];
      graph =
          insert e.self_sig.addr
            (record col { hash_chain = insert e.self_hash p col.hash_chain; ver_top = some p })
            jp.graph;
    }

-- The other parent, where its column has it.
unfoldable pub find_other : Event → JpGraph → VertexRef
find_other e jp = elim (other_address e) [
  | none ↦ none
  | some o ↦ elim (lookup o jp.graph) [ none ↦ none | some c ↦ lookup e.other_part_h c.hash_chain ]
]

-- `RequestParentEvent`
unfoldable pub request_parent_event : Event → JpGraph → JpGraph
request_parent_event e jp =
    let req : RequestArg = record {
      target_hash = e.other_part_h;
      target_addr = e.self_sig.addr;
      refered = 0;
    } in
    record jp { request_chan = jp.request_chan ++ req ∷ [] }

-- Link the vertex to its other parent, or ask for that one.
unfoldable pub link_other : ℕ → Event → VertexRef → JpGraph → JpGraph
unfolding request_parent_event
link_other p e none jp = request_parent_event e jp
link_other p e (some q) jp = record jp {
  vertices = update_vertex p (λ v. record v { another_pt = some q }) jp.vertices;
}

-- The loop over the queue in `AddEvent`: `round` keeps the last round looked at.
unfoldable pub find_round : List ℤ → Option ℕ → VertexRef → ℕ → List Round → Outcome VertexRef
unfolding deref_big
find_round bigs rid round i [] = done round
find_round bigs rid round i (r ∷ rs) =
    let rest = find_round bigs rid (some i) (suc i) rs in
    deref_big bigs rid >>= λ n. if eq_ℤ n (pos r.index) then done (some i) else rest

-- `round.witnesses[i] = vert`, out of range a panic.
unfoldable pub set_witness : ℕ → ℕ → Round → Outcome Round
set_witness i p r =
    if ltb i (length r.witnesses)
    then done (record r { witnesses = set r.witnesses i (some p) })
    else panic

-- The children that waited for the vertex are linked to it.
unfoldable pub link_waiting : ℕ → List ℕ → List Vertex → List Vertex
link_waiting p [] vs = vs
link_waiting p (c ∷ cs) vs =
    link_waiting p cs (update_vertex c (λ v. record v { another_pt = some p }) vs)

abbrev pub waiting_for : Hash → List (Hash × List ℕ) → List ℕ
waiting_for h d = elim (lookup h d) [ none ↦ [] | some cs ↦ cs ]

-- The update of `lostDict`: `delete` does nothing on a hash that is not there.
unfoldable pub note_lost : ℕ → Event → Bool → Round → Round
note_lost p e linkpost r =
    let d = delete e.self_hash r.lost_dict in
    record r {
      lost_dict =
          if linkpost then insert e.other_part_h (waiting_for e.other_part_h d ++ p ∷ []) d else d;
    }

-- What `AddEvent` does with the round at position i of the queue, `r`.
unfoldable pub enter_round : ℕ → Event → Bool → Bool → ℕ → ℕ → Round → JpGraph → Outcome JpGraph
unfolding set_witness link_waiting note_lost add_comer
enter_round p e first linkpost seq i r jp =
    let rqa : RequestArg = record {
      target_hash = e.self_hash;
      target_addr = e.self_sig.addr;
      refered = 0;
    } in
    let marked =
      if first
      then update_vertex p (λ v. record v { witness = witness_remote }) jp.vertices
      else jp.vertices in
    (if first then set_witness seq p r else done r) >>= λ r1. add_comer rqa r1 >>= λ r2.
    done (record jp {
      vertices = link_waiting p (waiting_for e.self_hash r2.lost_dict) marked;
      queue = update_round i (λ _. note_lost p e linkpost r2) jp.queue;
    })

-- The part of `AddEvent` under `round != nil`.
unfoldable pub enter_found : ℕ → Event → Bool → Bool → ℕ → Option ℕ → JpGraph → Outcome JpGraph
unfolding enter_round
enter_found p e first linkpost seq none jp = done jp
enter_found p e first linkpost seq (some i) jp = elim (get_elem? jp.queue i) [
  | none ↦ panic
  | some r ↦ enter_round p e first linkpost seq i r jp
]

-- A normal event of this node is announced.
unfoldable pub announce : ℕ → Event → JpGraph → Outcome JpGraph
unfolding deref_vertex
announce p e jp =
    if eq_ℤ (Address.compare e.self_sig.addr jp.coinbase) (pos 0)
    then (deref_vertex jp.vertices p >>= λ v. done (
        if v.witness == normal
        then record jp { self_event_created = jp.self_event_created ++ p ∷ [] }
        else jp))
    else done jp

-- From the search for the round to the end of `AddEvent`.
unfoldable pub settle : ℕ → Event → Bool → Bool → ℕ → JpGraph → Outcome JpGraph
unfolding find_round enter_found announce
settle p e first linkpost seq jp = do
  round ← find_round jp.bigs e.round_id none 0 jp.queue
  jp4 ← enter_found p e first linkpost seq round jp
  announce p e jp4

-- A vertex that is not in its column yet.
unfoldable pub admit : Event → ℕ → Bool → Column → JpGraph → Outcome JpGraph
unfolding push_vertex find_other link_other settle
admit e ty first_witness col jp =
    let p = length jp.vertices in
    let jp2 = push_vertex e ty col jp in
    let other = find_other e jp2 in
    let first =
      first_witness
      || (ty == witness_remote)
      || (length (insert e.self_hash p col.hash_chain) == 1) in
    settle p e first (is_none other) col.seq_num (link_other p e other jp2)

-- `AddEvent` once the columns are there; `found` is the event's own, which is never nil.
unfoldable pub receive : Event → ℕ → Bool → Option Column → JpGraph → Outcome JpGraph
unfolding readmit admit
receive e ty first_witness none jp = panic
receive e ty first_witness (some col) jp = elim (lookup e.self_hash col.hash_chain) [
  | some p ↦ done (readmit p ty jp)
  | none ↦ admit e ty first_witness col jp
]

-- `AddEvent`: `false` is the error "Event Validate check failed".
unfoldable pub add_event : Hasher → Event → ℕ → JpGraph → Outcome (Bool × JpGraph)
unfolding validate_event ensure_columns receive
add_event k e ty jp =
    if validate_event k e
    then (let jp1 = ensure_columns e jp in
        receive e ty (is_none (lookup e.self_sig.addr jp.graph)) (lookup e.self_sig.addr jp1.graph)
          jp1
        >>= λ jp4. done (true, jp4))
    else done (false, jp)
