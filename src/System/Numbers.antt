-- ===== src/System/Numbers.antt =====
-- `AddEvent` leaves the numbers of the rounds as they are.
use go_hashgrid.Common.{
  ℕ, suc, ◌≡◌, refl, sym, ap, subst, ◌∙◌, inl, inr, Bool, true, false, Option, none, some, arith,
  ◌==◌, if◌then◌else◌, Bool-cases, Option-cases, length, get_elem?, done, >>=-eq-done,
  done-injective, lookup,
}
use go_hashgrid.Types.Address.{Address}
use go_hashgrid.Types.Event.{Event, Hasher, RequestArg}
use go_hashgrid.Jigsaw.State.{VertexRef, Column, Round, JpGraph, witness_remote}
use go_hashgrid.Jigsaw.Columns.{add_node}
use go_hashgrid.Jigsaw.AddEvent.{
  is_none, readmit, push_vertex, find_other, link_other, find_round, set_witness, note_lost,
  enter_round, enter_found, announce, settle, admit, receive, add_event,
}
use go_hashgrid.Jigsaw.AddEvent.Keeps.{add_event_keeps}
use go_hashgrid.Round.Rounds.{add_comer}
use go_hashgrid.Round.Loop.Laws.{IsStacked, StackedTo-update, set_witness-index}

-- The rounds and the number of the current one are the same.
record SameRounds (jp jp' : JpGraph) : Type 0 where
  queue : jp'.queue ≡ jp.queue
  current : jp'.current_idx ≡ jp.current_idx

SameRounds-IsStacked : (jp jp' : JpGraph) → SameRounds jp jp' → IsStacked jp → IsStacked jp'
SameRounds-IsStacked jp jp' s h = rw (s.queue, s.current) h

add_node-IsStacked : (a : Address) (jp : JpGraph) → IsStacked jp → IsStacked (add_node a jp)
unfolding add_node
add_node-IsStacked a jp s = elim (Option-cases (lookup a jp.graph)) [
  | inl new ↦ rw (new, add_node) s
  | inr (c, old) ↦ rw (old, add_node) s
]

add_comer-index : (arg : RequestArg) (r r' : Round) → add_comer arg r ≡ done r' → r'.index ≡ r.index
unfolding add_comer
add_comer-index arg r r' h = ground arith

first-index :
    (first : Bool) (seq p : ℕ) (r r' : Round)
    → (if first then set_witness seq p r else done r) ≡ done r'
    → r'.index ≡ r.index
first-index true seq p r r' h = set_witness-index seq p r r' h
first-index false seq p r r' h = ap (λ (x : Round). x.index) (sym (done-injective r r' h))

enter_found-IsStacked :
    (p : ℕ) (e : Event) (first linkpost : Bool) (seq : ℕ) (round : Option ℕ) (jp jp' : JpGraph)
    → enter_found p e first linkpost seq round jp ≡ done jp'
    → IsStacked jp
    → IsStacked jp'
unfolding enter_found enter_round note_lost
enter_found-IsStacked p e first linkpost seq none jp jp' h s =
    subst IsStacked (done-injective jp jp' h) s
enter_found-IsStacked p e first linkpost seq (some i) jp jp' h s =
    elim (Option-cases (get_elem? jp.queue i)) [
      | inl absent ↦ cc (rw (absent, enter_found) at h)
      | inr (r, at) ↦
          let (r1, marked, h1) =
            >>=-eq-done (if first then set_witness seq p r else done r) _
              (rw (at, enter_found) at h) in
          let (r2, come, h2) = >>=-eq-done (add_comer _ r1) _ h1 in
          let index = add_comer-index _ r1 r2 come ∙ first-index first seq p r r1 marked in
          subst IsStacked (done-injective _ jp' h2) (
            StackedTo-update (suc jp.current_idx) i r (note_lost p e linkpost r2) jp.queue at index
              s)
    ]

announce-SameRounds :
    (p : ℕ) (e : Event) (jp jp' : JpGraph) → announce p e jp ≡ done jp' → SameRounds jp jp'
unfolding announce
announce-SameRounds p e jp jp' h =
    let same : (jp'.queue ≡ jp.queue) × (jp'.current_idx ≡ jp.current_idx) = ground arith in
    record { queue = same.0; current = same.1 }

settle-IsStacked :
    (p : ℕ) (e : Event) (first linkpost : Bool) (seq : ℕ) (jp jp' : JpGraph)
    → settle p e first linkpost seq jp ≡ done jp'
    → IsStacked jp
    → IsStacked jp'
unfolding settle
settle-IsStacked p e first linkpost seq jp jp' h s =
    let (round, found, h1) = >>=-eq-done (find_round jp.bigs e.round_id none 0 jp.queue) _ h in
    let (jp4, entered, h2) =
      >>=-eq-done (enter_found p e first linkpost seq round jp) (announce p e) h1 in
    SameRounds-IsStacked jp4 jp' (announce-SameRounds p e jp4 jp' h2)
      (enter_found-IsStacked p e first linkpost seq round jp jp4 entered s)

readmit-SameRounds : (p ty : ℕ) (jp : JpGraph) → SameRounds jp (readmit p ty jp)
unfolding readmit
readmit-SameRounds p ty jp = elim (Bool-cases (ty == witness_remote)) [
  | inl w ↦ rw (w, readmit) (record { queue = refl; current = refl })
  | inr w ↦ rw (w, readmit) (record { queue = refl; current = refl })
]

link_other-SameRounds :
    (p : ℕ) (e : Event) (other : VertexRef) (jp : JpGraph) → SameRounds jp (link_other p e other jp)
unfolding link_other
link_other-SameRounds p e none jp = record { queue = refl; current = refl }
link_other-SameRounds p e (some q) jp = record { queue = refl; current = refl }

receive-IsStacked :
    (e : Event) (ty : ℕ) (first : Bool) (found : Option Column) (jp jp' : JpGraph)
    → receive e ty first found jp ≡ done jp'
    → IsStacked jp
    → IsStacked jp'
unfolding receive admit push_vertex
receive-IsStacked e ty first none jp jp' got s = cc
receive-IsStacked e ty first (some col) jp jp' got s =
    elim (Option-cases (lookup e.self_hash col.hash_chain)) [
      | inl new ↦
          let p = length jp.vertices in
          let jp2 = push_vertex e ty col jp in
          let other = find_other e jp2 in
          let jp3 = link_other p e other jp2 in
          settle-IsStacked p e _ (is_none other) col.seq_num jp3 jp' (rw (new, receive) at got)
            (SameRounds-IsStacked jp2 jp3 (link_other-SameRounds p e other jp2) s)
      | inr (p, old) ↦
          subst IsStacked (done-injective (readmit p ty jp) jp' (rw (old, receive) at got))
            (SameRounds-IsStacked jp (readmit p ty jp) (readmit-SameRounds p ty jp) s)
    ]

pub add_event-IsStacked :
    (k : Hasher) (e : Event) (ty : ℕ) (jp jp' : JpGraph) (b : Bool)
    → add_event k e ty jp ≡ done (b, jp')
    → IsStacked jp
    → IsStacked jp'
add_event-IsStacked k e ty jp jp' b got s =
    add_event_keeps IsStacked add_node-IsStacked k e ty jp jp' b
      (λ first jp1 jp4 received s1. receive-IsStacked e ty first _ jp1 jp4 received s1) s got
