-- ===== src/Jigsaw/AddEvent/Contents.antt =====
-- The graph as the set of the events that it has, each known by its author and hash: `AddEvent`
-- inserts a valid event into that set.
use go_hashgrid.Common.{
  ℕ, ◌≡◌, refl, sym, ap, ◌∙◌, inl, inr, Bool, true, false, ◌&&◌, ◌||◌, Option, none, some, List,
  Bool-cases, Option-cases, length, bytes_eq, bytes_eq_iff, bytes_eq_refl, done, >>=-eq-done,
  done-injective, lookup, insert, lookup-insert, lookup-insert_self, lookup-insert_ne,
}
use go_hashgrid.Types.Address.{Address}
use go_hashgrid.Types.Hash.{Hash}
use go_hashgrid.Types.Event.{Event, Hasher}
use go_hashgrid.Jigsaw.State.{Column, JpGraph}
use go_hashgrid.Jigsaw.Columns.{add_node}
use go_hashgrid.Jigsaw.Validate.{validate_event}
use go_hashgrid.Jigsaw.AddEvent.{
  is_none, add_missing, ensure_columns, other_address, readmit, push_vertex, find_other, link_other,
  admit, receive, add_event,
}
use go_hashgrid.Jigsaw.AddEvent.Quiet.{readmit-Quiet, link_other-Quiet, settle-Quiet}

abbrev pub is_some {ℓ} : {A : Type ℓ} → Option A → Bool
is_some none = false
is_some (some _) = true

abbrev pub chain_has : Hash → Option Column → Bool
chain_has h none = false
chain_has h (some c) = is_some (lookup h c.hash_chain)

-- The column of the address has an event of the hash.
unfoldable pub has_event : Address → Hash → JpGraph → Bool
has_event a h jp = chain_has h (lookup a jp.graph)

pub has_event-graph :
    (a : Address) (h : Hash) (jp jp' : JpGraph)
    → jp'.graph ≡ jp.graph
    → has_event a h jp' ≡ has_event a h jp
unfolding has_event
has_event-graph a h jp jp' e = ap (λ g. chain_has h (lookup a g)) e

-- A new column is empty.
has_event-add_node :
    (a b : Address) (h : Hash) (jp : JpGraph) → has_event b h (add_node a jp) ≡ has_event b h jp
unfolding has_event add_node lookup
has_event-add_node a b h jp = elim (Option-cases (lookup a jp.graph)) [
  | inr (c, old) ↦ rw (old, add_node)
  | inl new ↦ elim (Bool-cases (bytes_eq a b)) [
    | inl same ↦
        let ab = (bytes_eq_iff a b).0 same in
        rw (new, add_node) (rw (← ab) (rw (lookup-insert_self a _ jp.graph, new)))
    | inr other ↦ rw (new, add_node) (rw (lookup-insert_ne a b _ jp.graph other))
  ]
]

has_event-add_missing :
    (c : Option Column) (a b : Address) (h : Hash) (jp : JpGraph)
    → has_event b h (add_missing c a jp) ≡ has_event b h jp
unfolding add_missing
has_event-add_missing none a b h jp = has_event-add_node a b h jp
has_event-add_missing (some c) a b h jp = refl

pub has_event-ensure_columns :
    (e : Event) (b : Address) (h : Hash) (jp : JpGraph)
    → has_event b h (ensure_columns e jp) ≡ has_event b h jp
unfolding ensure_columns
has_event-ensure_columns e b h jp =
    let self = has_event-add_missing (lookup e.self_sig.addr jp.graph) e.self_sig.addr b h jp in
    elim (Option-cases (other_address e)) [
      | inl alone ↦ rw (alone, ensure_columns) self
      | inr (o, two) ↦
          rw (two, ensure_columns) (has_event-add_missing (lookup o jp.graph) o b h _ ∙ self)
    ]

or_false : (b : Bool) → (b || false) ≡ b
or_false true = refl
or_false false = refl

or_true : (b : Bool) → (b || true) ≡ true
or_true true = refl
or_true false = refl

and_left : (a b : Bool) → (a && b) ≡ true → a ≡ true
and_left true b h = refl
and_left false b h = cc

and_right : (a b : Bool) → (a && b) ≡ true → b ≡ true
and_right true b h = h
and_right false b h = cc

-- The pair is that of the event.
abbrev pub names : Event → Address → Hash → Bool
names e a h = bytes_eq e.self_sig.addr a && bytes_eq e.self_hash h

is_some-insert :
    (k h : Hash) (p : ℕ) (chain : List (Hash × ℕ))
    → is_some (lookup h (insert k p chain)) ≡ (is_some (lookup h chain) || bytes_eq k h)
is_some-insert k h p chain = elim (Bool-cases (bytes_eq k h)) [
  | inl same ↦ rw (lookup-insert k h p chain, same) (sym (or_true (is_some (lookup h chain))))
  | inr other ↦ rw (lookup-insert k h p chain, other) (sym (or_false (is_some (lookup h chain))))
]

has_event-push_vertex :
    (e : Event) (ty : ℕ) (col : Column) (a : Address) (h : Hash) (jp : JpGraph)
    → lookup e.self_sig.addr jp.graph ≡ some col
    → has_event a h (push_vertex e ty col jp) ≡ (has_event a h jp || names e a h)
unfolding has_event push_vertex
has_event-push_vertex e ty col a h jp here =
    let p = length jp.vertices in
    elim (Bool-cases (bytes_eq e.self_sig.addr a)) [
      | inl same ↦
          let ab = (bytes_eq_iff e.self_sig.addr a).0 same in
          rw (← ab) (
            rw
              (
                lookup-insert_self e.self_sig.addr
                    (record col {
                      hash_chain = insert e.self_hash p col.hash_chain;
                      ver_top = some p;
                    })
                    jp.graph,
                here,
                bytes_eq_refl e.self_sig.addr,
              )
              (is_some-insert e.self_hash h p col.hash_chain))
      | inr other ↦
          rw
            (
              lookup-insert_ne e.self_sig.addr a
                  (record col {
                    hash_chain = insert e.self_hash p col.hash_chain;
                    ver_top = some p;
                  })
                  jp.graph other,
              other,
            )
            (sym (or_false (chain_has h (lookup a jp.graph))))
    ]

-- An event that the graph has already.
has_event-old :
    (e : Event) (col : Column) (p : ℕ) (a : Address) (h : Hash) (jp : JpGraph)
    → lookup e.self_sig.addr jp.graph ≡ some col
    → lookup e.self_hash col.hash_chain ≡ some p
    → has_event a h jp ≡ (has_event a h jp || names e a h)
unfolding has_event
has_event-old e col p a h jp here old = elim (Bool-cases (names e a h)) [
  | inr other ↦ rw other (sym (or_false (chain_has h (lookup a jp.graph))))
  | inl same ↦
      let a_same : e.self_sig.addr ≡ a =
        (bytes_eq_iff e.self_sig.addr a).0 (and_left (bytes_eq e.self_sig.addr a) _ same) in
      let h_same : e.self_hash ≡ h =
        (bytes_eq_iff e.self_hash h).0 (and_right (bytes_eq e.self_sig.addr a) _ same) in
      let has : chain_has h (lookup a jp.graph) ≡ true =
        ap (λ x. chain_has h (lookup x jp.graph)) (sym a_same)
        ∙ ap (chain_has h) here
        ∙ ap (λ x. is_some (lookup x col.hash_chain)) (sym h_same)
        ∙ ap is_some old in
      rw has
]

receive-contents :
    (e : Event) (ty : ℕ) (first : Bool) (found : Option Column) (jp jp' : JpGraph)
    → lookup e.self_sig.addr jp.graph ≡ found
    → receive e ty first found jp ≡ done jp'
    → (a : Address) (h : Hash) → has_event a h jp' ≡ (has_event a h jp || names e a h)
unfolding receive admit
receive-contents e ty first none jp jp' here got a h = cc
receive-contents e ty first (some col) jp jp' here got a h =
    elim (Option-cases (lookup e.self_hash col.hash_chain)) [
      | inl new ↦
          let p = length jp.vertices in
          let jp2 = push_vertex e ty col jp in
          let other = find_other e jp2 in
          let jp3 = link_other p e other jp2 in
          let settled =
            settle-Quiet p e _ (is_none other) col.seq_num jp3 jp' (rw (new, receive) at got) in
          has_event-graph a h jp2 jp' (settled.graph ∙ (link_other-Quiet p e other jp2).graph)
          ∙ has_event-push_vertex e ty col a h jp here
      | inr (p, old) ↦
          let same = done-injective (readmit p ty jp) jp' (rw (old, receive) at got) in
          has_event-graph a h jp jp'
            (sym (ap (λ (j : JpGraph). j.graph) same) ∙ (readmit-Quiet p ty jp).graph)
          ∙ has_event-old e col p a h jp here old
    ]

-- Where `AddEvent` returns, its result says whether the event is valid, and the graph afterwards has
-- exactly the events that it had, with this one if it is valid: no other event comes or goes, and a
-- second call with an event changes nothing of that.
pub add_event-has_event :
    (k : Hasher) (e : Event) (ty : ℕ) (jp jp' : JpGraph) (b : Bool)
    → add_event k e ty jp ≡ done (b, jp')
    → (b ≡ validate_event k e)
      × ((a : Address) (h : Hash) → has_event a h jp' ≡ (has_event a h jp || (b && names e a h)))
unfolding add_event
add_event-has_event k e ty jp jp' b got = elim (Bool-cases (validate_event k e)) [
  | inr bad ↦
      let same = done-injective (false, jp) (b, jp') (rw (bad, add_event) at got) in
      let refused : false ≡ b = ap (λ (t : Bool × JpGraph). t.0) same in
      (
        sym refused ∙ sym bad,
        λ a h.
            rw (← refused, ← ap (λ (t : Bool × JpGraph). t.1) same)
              (sym (or_false (has_event a h jp))),
      )
  | inl good ↦
      let jp1 = ensure_columns e jp in
      let col = lookup e.self_sig.addr jp1.graph in
      let first = is_none (lookup e.self_sig.addr jp.graph) in
      let (jp4, received, h2) =
        >>=-eq-done (receive e ty first col jp1) (λ j. done (true, j))
          (rw (good, add_event) at got) in
      let same = done-injective (true, jp4) (b, jp') h2 in
      let accepted : true ≡ b = ap (λ (t : Bool × JpGraph). t.0) same in
      (
        sym accepted ∙ sym good,
        λ a h.
            rw (← accepted, ← ap (λ (t : Bool × JpGraph). t.1) same)
              (receive-contents e ty first col jp1 jp4 refl received a h
                ∙ ap (λ c. c || names e a h) (has_event-ensure_columns e a h jp)),
      )
]
