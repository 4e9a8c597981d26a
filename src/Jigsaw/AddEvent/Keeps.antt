-- ===== src/Jigsaw/AddEvent/Keeps.antt =====
-- How `AddEvent` keeps a property of the graph.
use go_hashgrid.Common.{
  ℕ, ◌≡◌, ap, subst, inl, inr, Bool, true, false, Option, none, some, Bool-cases, Option-cases,
  length, done, >>=-eq-done, done-injective, lookup,
}
use go_hashgrid.Types.Address.{Address}
use go_hashgrid.Types.Event.{Event, Hasher}
use go_hashgrid.Jigsaw.State.{Column, JpGraph}
use go_hashgrid.Jigsaw.Columns.{add_node}
use go_hashgrid.Jigsaw.Validate.{validate_event}
use go_hashgrid.Jigsaw.AddEvent.{
  is_none, ensure_columns, readmit, push_vertex, find_other, link_other, admit, receive, add_event,
}
use go_hashgrid.Jigsaw.AddEvent.Ensure.{ensure_columns_keeps}
use go_hashgrid.Jigsaw.AddEvent.Quiet.{
  Quiet, Quiet-trans, readmit-Quiet, link_other-Quiet, settle-Quiet,
}

module _ {ℓ} (P : JpGraph → Type ℓ) where
  -- What is kept by new columns and by what comes after them.
  pub add_event_keeps :
      ((a : Address) (jp : JpGraph) → P jp → P (add_node a jp))
      → (k : Hasher) (e : Event) (ty : ℕ) (jp jp' : JpGraph) (b : Bool)
      → ((first : Bool) (jp1 jp4 : JpGraph)
          → receive e ty first (lookup e.self_sig.addr jp1.graph) jp1 ≡ done jp4
          → P jp1
          → P jp4)
      → P jp
      → add_event k e ty jp ≡ done (b, jp')
      → P jp'
  unfolding add_event
  add_event_keeps node k e ty jp jp' b keep h got = elim (Bool-cases (validate_event k e)) [
    | inr bad ↦
        let same = done-injective (false, jp) (b, jp') (rw (bad, add_event) at got) in
        subst P (ap (λ (t : Bool × JpGraph). t.1) same) h
    | inl good ↦
        let jp1 = ensure_columns e jp in
        let first = is_none (lookup e.self_sig.addr jp.graph) in
        let (jp4, received, h2) =
          >>=-eq-done (receive e ty first (lookup e.self_sig.addr jp1.graph) jp1)
            (λ j. done (true, j)) (rw (good, add_event) at got) in
        let same = done-injective (true, jp4) (b, jp') h2 in
        subst P (ap (λ (t : Bool × JpGraph). t.1) same)
          (keep first jp1 jp4 received (ensure_columns_keeps P node e jp h))
  ]

  -- What is kept by a new vertex and by all that is quiet.
  pub receive_keeps :
      ((jp jp' : JpGraph) → Quiet jp jp' → P jp → P jp')
      → (e : Event) (ty : ℕ)
      → ((col : Column) (jp : JpGraph)
          → lookup e.self_sig.addr jp.graph ≡ some col
          → P jp
          → P (push_vertex e ty col jp))
      → (first : Bool) (found : Option Column) (jp jp' : JpGraph)
      → lookup e.self_sig.addr jp.graph ≡ found
      → receive e ty first found jp ≡ done jp'
      → P jp
      → P jp'
  unfolding receive admit
  receive_keeps quiet e ty push first none jp jp' here got h = absurd (cc got)
  receive_keeps quiet e ty push first (some col) jp jp' here got h =
      elim (Option-cases (lookup e.self_hash col.hash_chain)) [
        | inl new ↦
            let p = length jp.vertices in
            let jp2 = push_vertex e ty col jp in
            let other = find_other e jp2 in
            let jp3 = link_other p e other jp2 in
            let settled =
              settle-Quiet p e _ (is_none other) col.seq_num jp3 jp' (rw (new, receive) at got) in
            quiet jp2 jp' (Quiet-trans (link_other-Quiet p e other jp2) settled)
              (push col jp here h)
        | inr (p, old) ↦
            subst P (done-injective (readmit p ty jp) jp' (rw (old, receive) at got))
              (quiet jp (readmit p ty jp) (readmit-Quiet p ty jp) h)
      ]
