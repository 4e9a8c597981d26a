-- ===== src/Jigsaw/AddEvent/Chains.antt =====
-- Self parents lead to older vertices, so that walks down a column end.
use go_hashgrid.Common.{
  ℕ, ◌<◌, ◌≡◌, refl, sym, ap, ◌∙◌, inl, inr, Bool, some, List, [], arith, Bool-cases, Option-cases,
  length, bytes_eq, done, lookup, insert, lookup-insert, lookup-insert_ne,
}
use go_hashgrid.Types.Address.{Address}
use go_hashgrid.Types.Event.{Event, Hasher}
use go_hashgrid.Jigsaw.State.{Vertex, Column, JpGraph}
use go_hashgrid.Jigsaw.Columns.{add_node, new_column}
use go_hashgrid.Jigsaw.Create.{new_jp_graph, blank_graph}
use go_hashgrid.Jigsaw.Seats.{
  Seat, seat_of, seat_at, seat_at-lt, seat_at-push_old, seat_at-push_new, seat_at-push_cases,
}
use go_hashgrid.Jigsaw.AddEvent.{new_vertex, push_vertex, add_event}
use go_hashgrid.Jigsaw.AddEvent.Keeps.{add_event_keeps, receive_keeps}
use go_hashgrid.Jigsaw.AddEvent.Quiet.{Quiet}

-- There is a vertex p.
abbrev pub Present : List Vertex → ℕ → Type 0
Present vs p = (s : Seat) × (seat_at vs p ≡ some s)

-- The top of a column is a vertex, and a self parent is older than its child.
pub record IsDescending (jp : JpGraph) : Type 0 where
  pub tops :
      (a : Address) (c : Column) (p : ℕ)
      → lookup a jp.graph ≡ some c
      → c.ver_top ≡ some p
      → Present jp.vertices p
  pub selfs : (p q : ℕ) (s : Seat) → seat_at jp.vertices p ≡ some s → s.self_pt ≡ some q → q < p

pub Quiet-IsDescending : (jp jp' : JpGraph) → Quiet jp jp' → IsDescending jp → IsDescending jp'
Quiet-IsDescending jp jp' q d = record {
  tops = λ a c p here top.
      let (s, at) = d.tops a c p (sym (ap (lookup a) q.graph) ∙ here) top in (s, q.seats p ∙ at);
  selfs = λ p r s at self. d.selfs p r s (sym (q.seats p) ∙ at) self;
}

add_node-IsDescending :
    (a : Address) (jp : JpGraph) → IsDescending jp → IsDescending (add_node a jp)
unfolding add_node lookup
add_node-IsDescending a jp d = elim (Option-cases (lookup a jp.graph)) [
  | inr (c, old) ↦ rw (old, add_node) d
  | inl new ↦
      rw (new, add_node)
        (record {
          tops = λ b c p here top. elim (Bool-cases (bytes_eq a b)) [
            | inl same ↦ absurd (
                ground (
                  arith,
                  lookup-insert a b (record new_column { seq_num = length jp.graph }) jp.graph,
                ))
            | inr other ↦ d.tops b c p (sym (lookup-insert_ne a b _ jp.graph other) ∙ here) top
          ];
          selfs = d.selfs;
        })
]

push_vertex-IsDescending :
    (e : Event) (ty : ℕ) (col : Column) (jp : JpGraph)
    → lookup e.self_sig.addr jp.graph ≡ some col
    → IsDescending jp
    → IsDescending (push_vertex e ty col jp)
unfolding push_vertex
push_vertex-IsDescending e ty col jp here d =
    let p = length jp.vertices in
    let v = record (new_vertex e ty) { self_pt = col.ver_top; seq_num = col.seq_num } in
    let top : Column = record col {
      hash_chain = insert e.self_hash p col.hash_chain;
      ver_top = some p;
    } in
    record {
      tops = λ a c q at top_q. elim (Bool-cases (bytes_eq e.self_sig.addr a)) [
        | inl same ↦
            let newest : p ≡ q = ground (arith, lookup-insert e.self_sig.addr a top jp.graph) in
            (seat_of v, rw (← newest) (seat_at-push_new jp.vertices v))
        | inr other ↦
            let (s, there) =
              d.tops a c q (sym (lookup-insert_ne e.self_sig.addr a top jp.graph other) ∙ at)
                top_q in
            (s, seat_at-push_old jp.vertices v q s there)
      ];
      selfs = λ q r s at self. elim (seat_at-push_cases jp.vertices v q s at) [
        | inl old ↦ d.selfs q r s old self
        | inr (last, new) ↦
            let below : col.ver_top ≡ some r = ap (λ (t : Seat). t.self_pt) (sym new) ∙ self in
            let (t, there) = d.tops e.self_sig.addr col r here below in
            omega (arith, seat_at-lt jp.vertices r t there, last)
      ];
    }

-- If every column's top is a vertex of the graph, and every self parent is older than its child, both
-- are so after `AddEvent`, whatever the event.
pub add_event-IsDescending :
    (k : Hasher) (e : Event) (ty : ℕ) (jp jp' : JpGraph) (b : Bool)
    → IsDescending jp
    → add_event k e ty jp ≡ done (b, jp')
    → IsDescending jp'
add_event-IsDescending k e ty jp jp' b d got =
    add_event_keeps IsDescending add_node-IsDescending k e ty jp jp' b
      (λ first jp1 jp4 received d1.
        receive_keeps IsDescending Quiet-IsDescending e ty (push_vertex-IsDescending e ty) first _
          jp1 jp4 refl received d1)
      d got

none_here : {V : Type 0} (b : Address) (c : V) → lookup b [] ≡ some c → ⊥
unfolding lookup
none_here b c h = cc

pub new-IsDescending : (a : Address) (n : ℕ) → IsDescending (new_jp_graph a n)
unfolding new_jp_graph
new-IsDescending a n =
    add_node-IsDescending a (blank_graph a n)
      (record { tops = λ b c p here top. absurd (none_here b c here); selfs = λ p q s at self. cc })
