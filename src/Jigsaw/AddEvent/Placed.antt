-- ===== src/Jigsaw/AddEvent/Placed.antt =====
-- Every vertex has the number of a column and a color for each cluster.
use go_hashgrid.Common.{
  ℕ, ◌<◌, ◌≡◌, refl, sym, ap, subst, ◌∙◌, inl, inr, Bool, some, arith, Option-cases, length, done,
  lookup, insert, length-insert_new, length-insert_old,
}
use go_hashgrid.Types.Address.{Address}
use go_hashgrid.Types.Event.{Event, Hasher}
use go_hashgrid.Jigsaw.State.{Vertex, Column, JpGraph, max_color_cluster}
use go_hashgrid.Jigsaw.Seats.{Seat, seat_at, seat_at-push_cases}
use go_hashgrid.Jigsaw.Columns.{new_column, add_node}
use go_hashgrid.Jigsaw.Columns.Numbering.{
  NumberedFrom, NumberedFrom-insert_new, NumberedFrom-insert_old, NumberedFrom-bounds,
}
use go_hashgrid.Jigsaw.Create.{blank_graph, new_jp_graph}
use go_hashgrid.Jigsaw.AddEvent.{new_vertex, push_vertex, add_event}
use go_hashgrid.Jigsaw.AddEvent.Keeps.{add_event_keeps, receive_keeps}
use go_hashgrid.Jigsaw.AddEvent.Quiet.{Quiet}

pub record IsPlaced (jp : JpGraph) : Type 0 where
  pub numbered : NumberedFrom 0 jp.graph
  pub seated :
      (p : ℕ) (s : Seat)
      → seat_at jp.vertices p ≡ some s
      → (s.seq_num < length jp.graph) × (s.colors ≡ max_color_cluster)

pub Quiet-IsPlaced : (jp jp' : JpGraph) → Quiet jp jp' → IsPlaced jp → IsPlaced jp'
Quiet-IsPlaced jp jp' q h = record {
  numbered = subst (NumberedFrom 0) (sym q.graph) h.numbered;
  seated = λ p s at.
      let (lt, all) = h.seated p s (sym (q.seats p) ∙ at) in
      (subst (λ g. s.seq_num < length g) (sym q.graph) lt, all);
}

pub add_node-IsPlaced : (a : Address) (jp : JpGraph) → IsPlaced jp → IsPlaced (add_node a jp)
unfolding add_node
add_node-IsPlaced a jp h = elim (Option-cases (lookup a jp.graph)) [
  | inr (c, old) ↦ rw (old, add_node) h
  | inl new ↦
      let c : Column = record new_column { seq_num = length jp.graph } in
      let grown = length-insert_new a c jp.graph new in
      rw (new, add_node)
        (record {
          numbered = NumberedFrom-insert_new 0 a c jp.graph h.numbered new (omega arith);
          seated = λ p s at. let (lt, all) = h.seated p s at in (omega (arith, grown), all);
        })
]

push_vertex-IsPlaced :
    (e : Event) (ty : ℕ) (col : Column) (jp : JpGraph)
    → lookup e.self_sig.addr jp.graph ≡ some col
    → IsPlaced jp
    → IsPlaced (push_vertex e ty col jp)
unfolding push_vertex
push_vertex-IsPlaced e ty col jp here h =
    let p = length jp.vertices in
    let v : Vertex = record (new_vertex e ty) { self_pt = col.ver_top; seq_num = col.seq_num } in
    let top : Column = record col {
      hash_chain = insert e.self_hash p col.hash_chain;
      ver_top = some p;
    } in
    let kept = length-insert_old e.self_sig.addr top col jp.graph here in
    let bound = NumberedFrom-bounds 0 e.self_sig.addr col jp.graph h.numbered here in
    record {
      numbered = NumberedFrom-insert_old 0 e.self_sig.addr col top jp.graph h.numbered here refl;
      seated = λ q s at. elim (seat_at-push_cases jp.vertices v q s at) [
        | inl old ↦ let (lt, all) = h.seated q s old in (omega (arith, kept), all)
        | inr (last, new) ↦
            let column : col.seq_num ≡ s.seq_num = sym (ap (λ (t : Seat). t.seq_num) new) in
            (omega (arith, kept, bound.1, column), ap (λ (t : Seat). t.colors) new)
      ];
    }

pub add_event-IsPlaced :
    (k : Hasher) (e : Event) (ty : ℕ) (jp jp' : JpGraph) (b : Bool)
    → IsPlaced jp
    → add_event k e ty jp ≡ done (b, jp')
    → IsPlaced jp'
add_event-IsPlaced k e ty jp jp' b h got =
    add_event_keeps IsPlaced add_node-IsPlaced k e ty jp jp' b
      (λ first jp1 jp4 received h1.
        receive_keeps IsPlaced Quiet-IsPlaced e ty (push_vertex-IsPlaced e ty) first _ jp1 jp4 refl
          received h1)
      h got

pub new-IsPlaced : (a : Address) (n : ℕ) → IsPlaced (new_jp_graph a n)
unfolding new_jp_graph blank_graph
new-IsPlaced a n =
    add_node-IsPlaced a (blank_graph a n) (record { numbered = tt; seated = λ p s at. cc })
