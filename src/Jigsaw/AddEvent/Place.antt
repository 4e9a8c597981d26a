-- ===== src/Jigsaw/AddEvent/Place.antt =====
-- `AddEvent` up to the link to the other parent: columns, the new vertex, its link.
use go_hashgrid.Common.{
  ℕ, ◌≡◌, refl, sym, ◌∙◌, inl, inr, none, some, [], ◌∷◌, ◌++◌, arith, ◌==◌, Bool-cases,
  Option-cases, length, bytes_eq, bytes_eq_iff, lookup, lookup-insert, lookup-insert_ne,
}
use go_hashgrid.Types.Address.{Address}
use go_hashgrid.Types.Event.{Event, copy_event}
use go_hashgrid.Jigsaw.State.{
  Vertex, VertexRef, Column, JpGraph, max_color_cluster, witness_remote, update_vertex,
}
use go_hashgrid.Jigsaw.Columns.{add_node}
use go_hashgrid.Jigsaw.AddEvent.{
  new_vertex, other_address, readmit, push_vertex, find_other, link_other,
}
use go_hashgrid.Jigsaw.AddEvent.Steps.{Sits-extend, WellLinked, WellLinked-heap, WellLinked-column}
use go_hashgrid.Jigsaw.Seats.{
  Seat, seat_of, seat_at, seat_at-update, seat_at-push_old, seat_at-push_new, LinksTo,
  IsLinked-push, IsLinked-update, IsLinked-link, Extends-link,
}

-- Every link of the graph is right.
abbrev pub IsWellLinked : JpGraph → Type 0
IsWellLinked jp = WellLinked jp.graph jp.vertices jp.queue

pub add_node-WellLinked :
    (a : Address) (jp : JpGraph) → IsWellLinked jp → IsWellLinked (add_node a jp)
unfolding add_node lookup
add_node-WellLinked a jp w = elim (Option-cases (lookup a jp.graph)) [
  | inl new ↦
      rw (new, add_node) (WellLinked-column jp.graph jp.vertices jp.queue a _ (λ h p e. cc) w)
  | inr (c, old) ↦ rw (old, add_node) w
]

pub readmit-WellLinked :
    (p ty : ℕ) (jp : JpGraph) → IsWellLinked jp → IsWellLinked (readmit p ty jp)
unfolding readmit
readmit-WellLinked p ty jp w = elim (Bool-cases (ty == witness_remote)) [
  | inr other ↦ rw other w
  | inl witness ↦
      let f = λ (v : Vertex). record v { witness = ty } in
      rw witness (
        WellLinked-heap jp.graph jp.vertices (update_vertex p f jp.vertices) jp.queue
          (λ i s at. seat_at-update p i f jp.vertices (λ v. refl) ∙ at)
          (IsLinked-update p f jp.vertices (λ v. refl) (λ v. refl) w.linked) w)
]

-- The new vertex sits on top of its column.
pub push_vertex-WellLinked :
    (e : Event) (ty : ℕ) (col : Column) (jp : JpGraph)
    → lookup e.self_sig.addr jp.graph ≡ some col
    → IsWellLinked jp
    → IsWellLinked (push_vertex e ty col jp)
unfolding push_vertex
push_vertex-WellLinked e ty col jp here w =
    let v = record (new_vertex e ty) { self_pt = col.ver_top; seq_num = col.seq_num } in
    let ws = jp.vertices ++ v ∷ [] in
    let heap =
      WellLinked-heap jp.graph jp.vertices ws jp.queue (seat_at-push_old jp.vertices v)
        (IsLinked-push jp.vertices v refl w.linked) w in
    WellLinked-column jp.graph ws jp.queue e.self_sig.addr _
      (λ h q f. elim (Bool-cases (bytes_eq e.self_hash h)) [
        | inl same ↦
            let newest : length jp.vertices ≡ q =
              ground (arith, lookup-insert e.self_hash h (length jp.vertices) col.hash_chain) in
            record {
              seat = seat_of v;
              at = rw (← newest) (seat_at-push_new jp.vertices v);
              hash = (bytes_eq_iff e.self_hash h).0 same;
              author = refl;
              number = refl;
            }
        | inr other ↦ Sits-extend ws (seat_at-push_old jp.vertices v) (
            w.chained e.self_sig.addr col here h q
              (sym (lookup-insert_ne e.self_hash h (length jp.vertices) col.hash_chain other) ∙ f))
      ])
      heap

-- The new vertex itself, as it stays.
pub push_vertex-seat :
    (e : Event) (ty : ℕ) (col : Column) (jp : JpGraph)
    → seat_at (push_vertex e ty col jp).vertices (length jp.vertices)
      ≡ some (record {
        event = copy_event e;
        seq_num = col.seq_num;
        self_pt = col.ver_top;
        colors = max_color_cluster;
      })
unfolding push_vertex
push_vertex-seat e ty col jp =
    seat_at-push_new jp.vertices
      (record (new_vertex e ty) { self_pt = col.ver_top; seq_num = col.seq_num })

-- What `find_other` finds is the parent that the event names.
find_other-Sits :
    (e : Event) (jp : JpGraph) (q : ℕ)
    → IsWellLinked jp
    → find_other e jp ≡ some q
    → (t : Seat) × (seat_at jp.vertices q ≡ some t) × (t.event.self_hash ≡ e.other_part_h)
unfolding find_other
find_other-Sits e jp q w found = elim (Option-cases (other_address e)) [
  | inl alone ↦ cc (rw (alone, find_other) at found)
  | inr (o, two) ↦ elim (Option-cases (lookup o jp.graph)) [
    | inl absent ↦ cc (rw (two, find_other, absent) at found)
    | inr (c, here) ↦
        let s = w.chained o c here e.other_part_h q (rw (two, find_other, here) at found) in
        (s.seat, s.at, s.hash)
  ]
]

pub link_other-WellLinked :
    (p : ℕ) (e : Event) (other : VertexRef) (jp : JpGraph) (s : Seat)
    → find_other e jp ≡ other
    → seat_at jp.vertices p ≡ some s
    → s.event.other_part_h ≡ e.other_part_h
    → IsWellLinked jp
    → IsWellLinked (link_other p e other jp)
unfolding link_other
link_other-WellLinked p e none jp s found at named w = w
link_other-WellLinked p e (some q) jp s found at named w =
    let (t, there, right) = find_other-Sits e jp q w found in
    let link : LinksTo jp.vertices p q = record {
      child = s;
      parent = t;
      child_at = at;
      parent_at = there;
      named = right ∙ sym named;
    } in
    WellLinked-heap jp.graph jp.vertices _ jp.queue (Extends-link p q jp.vertices)
      (IsLinked-link p q jp.vertices link w.linked) w

pub link_other-seat :
    (p i : ℕ) (e : Event) (other : VertexRef) (jp : JpGraph)
    → seat_at (link_other p e other jp).vertices i ≡ seat_at jp.vertices i
unfolding link_other
link_other-seat p i e none jp = refl
link_other-seat p i e (some q) jp =
    seat_at-update p i (λ v. record v { another_pt = some q }) jp.vertices (λ v. refl)
