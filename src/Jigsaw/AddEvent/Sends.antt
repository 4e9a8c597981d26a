-- ===== src/Jigsaw/AddEvent/Sends.antt =====
-- What `AddEvent` sends on the channels of the graph.
use go_hashgrid.Common.{
  ℕ, ◌+◌, ◌≤◌, ◌<◌, ◌≡◌, ap, subst, inl, inr, Bool, true, false, Option, none, some, [], ◌∷◌, ◌++◌,
  arith, ◌==◌, if◌then◌else◌, Bool-cases, Option-cases, length, get_elem?, length-append, pos, eq_ℤ,
  done, >>=-eq-done, done-injective, lookup,
}
use go_hashgrid.Types.Address
use go_hashgrid.Types.Address.{Address}
use go_hashgrid.Types.Event.{Event, Hasher}
use go_hashgrid.Jigsaw.State.{
  VertexRef, Column, Round, JpGraph, deref_vertex, witness_remote, normal, max_chan_item,
}
use go_hashgrid.Jigsaw.Columns.{add_node}
use go_hashgrid.Jigsaw.Validate.{validate_event}
use go_hashgrid.Jigsaw.AddEvent.{
  is_none, ensure_columns, readmit, push_vertex, find_other, link_other, find_round, set_witness,
  enter_round, enter_found, announce, settle, admit, receive, add_event,
}
use go_hashgrid.Jigsaw.AddEvent.Ensure.{ensure_columns_keeps}
use go_hashgrid.Round.Rounds.{add_comer}

-- At most r, c and t values more on `RequestChan`, `SelfEventCreated` and `roundTrigger`.
pub record Sends (r c t : ℕ) (jp jp' : JpGraph) : Type 0 where
  pub requests : length jp'.request_chan ≤ length jp.request_chan + r
  pub created : length jp'.self_event_created ≤ length jp.self_event_created + c
  pub triggers : length jp'.round_trigger ≤ length jp.round_trigger + t

Sends-refl : (jp : JpGraph) → Sends 0 0 0 jp jp
Sends-refl jp = record { requests = omega arith; created = omega arith; triggers = omega arith }

Sends-more :
    {r c t : ℕ} {jp jp' : JpGraph} (r' c' t' : ℕ)
    → r ≤ r'
    → c ≤ c'
    → t ≤ t'
    → Sends r c t jp jp'
    → Sends r' c' t' jp jp'
Sends-more r' c' t' hr hc ht x = record {
  requests = omega (arith, x.requests);
  created = omega (arith, x.created);
  triggers = omega (arith, x.triggers);
}

Sends-trans :
    {r c t r' c' t' : ℕ} {jp jp1 jp2 : JpGraph}
    → Sends r c t jp jp1
    → Sends r' c' t' jp1 jp2
    → Sends (r + r') (c + c') (t + t') jp jp2
Sends-trans x y = record {
  requests = omega (arith, x.requests, y.requests);
  created = omega (arith, x.created, y.created);
  triggers = omega (arith, x.triggers, y.triggers);
}

add_node-Sends :
    (jp : JpGraph) (a : Address) (j : JpGraph) → Sends 0 0 0 jp j → Sends 0 0 0 jp (add_node a j)
unfolding add_node
add_node-Sends jp a j h = elim (Option-cases (lookup a j.graph)) [
  | inl new ↦
      rw (new, add_node)
        (record { requests = h.requests; created = h.created; triggers = h.triggers })
  | inr (c, here) ↦ rw (here, add_node) h
]

readmit-Sends : (p ty : ℕ) (jp : JpGraph) → Sends 0 0 1 jp (readmit p ty jp)
unfolding readmit
readmit-Sends p ty jp = elim (Bool-cases (ty == witness_remote)) [
  | inl w ↦ rw w (record {
    requests = omega arith;
    created = omega arith;
    triggers = omega (arith, length-append jp.round_trigger (p ∷ []));
  })
  | inr w ↦ rw w (Sends-more 0 0 1 (omega arith) (omega arith) (omega arith) (Sends-refl jp))
]

push_vertex-Sends :
    (e : Event) (ty : ℕ) (col : Column) (jp : JpGraph) → Sends 0 0 0 jp (push_vertex e ty col jp)
unfolding push_vertex
push_vertex-Sends e ty col jp = record {
  requests = omega arith;
  created = omega arith;
  triggers = omega arith;
}

link_other-Sends :
    (p : ℕ) (e : Event) (other : VertexRef) (jp : JpGraph)
    → Sends 1 0 0 jp (link_other p e other jp)
unfolding link_other
link_other-Sends p e none jp = record {
  requests = omega (arith, length-append jp.request_chan (_ ∷ []));
  created = omega arith;
  triggers = omega arith;
}
link_other-Sends p e (some q) jp = record {
  requests = omega arith;
  created = omega arith;
  triggers = omega arith;
}

enter_round-Sends :
    (p : ℕ) (e : Event) (first linkpost : Bool) (seq i : ℕ) (r : Round) (jp jp' : JpGraph)
    → enter_round p e first linkpost seq i r jp ≡ done jp'
    → Sends 0 0 0 jp jp'
unfolding enter_round
enter_round-Sends p e first linkpost seq i r jp jp' h =
    let (r1, marked, h1) = >>=-eq-done (if first then set_witness seq p r else done r) _ h in
    let (r2, come, h2) = >>=-eq-done (add_comer _ r1) _ h1 in
    subst (Sends 0 0 0 jp) (done-injective _ jp' h2)
      (record { requests = omega arith; created = omega arith; triggers = omega arith })

enter_found-Sends :
    (p : ℕ) (e : Event) (first linkpost : Bool) (seq : ℕ) (round : Option ℕ) (jp jp' : JpGraph)
    → enter_found p e first linkpost seq round jp ≡ done jp'
    → Sends 0 0 0 jp jp'
unfolding enter_found
enter_found-Sends p e first linkpost seq none jp jp' h =
    subst (Sends 0 0 0 jp) (done-injective jp jp' h) (Sends-refl jp)
enter_found-Sends p e first linkpost seq (some i) jp jp' h =
    elim (Option-cases (get_elem? jp.queue i)) [
      | inl absent ↦ absurd (cc (rw (absent, enter_found) at h))
      | inr (r, at) ↦
          enter_round-Sends p e first linkpost seq i r jp jp' (rw (at, enter_found) at h)
    ]

told :
    (jp : JpGraph) (p : ℕ) (b : Bool)
    → Sends 0 1 0 jp
        (if b then record jp { self_event_created = jp.self_event_created ++ p ∷ [] } else jp)
told jp p true = record {
  requests = omega arith;
  created = omega (arith, length-append jp.self_event_created (p ∷ []));
  triggers = omega arith;
}
told jp p false = Sends-more 0 1 0 (omega arith) (omega arith) (omega arith) (Sends-refl jp)

announce-Sends :
    (p : ℕ) (e : Event) (jp jp' : JpGraph) → announce p e jp ≡ done jp' → Sends 0 1 0 jp jp'
unfolding announce
announce-Sends p e jp jp' h =
    elim (Bool-cases (eq_ℤ (Address.compare e.self_sig.addr jp.coinbase) (pos 0))) [
      | inr foreign ↦
          subst (Sends 0 1 0 jp) (done-injective jp jp' (rw (foreign, announce) at h))
            (Sends-more 0 1 0 (omega arith) (omega arith) (omega arith) (Sends-refl jp))
      | inl own ↦
          let (v, at, h1) = >>=-eq-done (deref_vertex jp.vertices p) _ (rw (own, announce) at h) in
          subst (Sends 0 1 0 jp) (done-injective _ jp' h1) (told jp p (v.witness == normal))
    ]

settle-Sends :
    (p : ℕ) (e : Event) (first linkpost : Bool) (seq : ℕ) (jp jp' : JpGraph)
    → settle p e first linkpost seq jp ≡ done jp'
    → Sends 0 1 0 jp jp'
unfolding settle
settle-Sends p e first linkpost seq jp jp' h =
    let (round, found, h1) = >>=-eq-done (find_round jp.bigs e.round_id none 0 jp.queue) _ h in
    let (jp4, entered, h2) =
      >>=-eq-done (enter_found p e first linkpost seq round jp) (announce p e) h1 in
    Sends-trans (enter_found-Sends p e first linkpost seq round jp jp4 entered)
      (announce-Sends p e jp4 jp' h2)

receive-Sends :
    (e : Event) (ty : ℕ) (first : Bool) (found : Option Column) (jp jp' : JpGraph)
    → receive e ty first found jp ≡ done jp'
    → Sends 1 1 1 jp jp'
unfolding receive admit
receive-Sends e ty first none jp jp' h = absurd (cc h)
receive-Sends e ty first (some col) jp jp' h =
    elim (Option-cases (lookup e.self_hash col.hash_chain)) [
      | inr (p, old) ↦
          subst (Sends 1 1 1 jp) (done-injective _ jp' (rw (old, receive) at h))
            (Sends-more 1 1 1 (omega arith) (omega arith) (omega arith) (readmit-Sends p ty jp))
      | inl new ↦
          let p = length jp.vertices in
          let jp2 = push_vertex e ty col jp in
          let other = find_other e jp2 in
          Sends-more 1 1 1 (omega arith) (omega arith) (omega arith) (
            Sends-trans (push_vertex-Sends e ty col jp) (
              Sends-trans (link_other-Sends p e other jp2) (
                settle-Sends p e _ (is_none other) col.seq_num (link_other p e other jp2) jp'
                  (rw (new, receive) at h))))
    ]

-- One call sends at most one value on each of the three channels.
pub add_event-Sends :
    (k : Hasher) (e : Event) (ty : ℕ) (jp jp' : JpGraph) (b : Bool)
    → add_event k e ty jp ≡ done (b, jp')
    → Sends 1 1 1 jp jp'
unfolding add_event
add_event-Sends k e ty jp jp' b got = elim (Bool-cases (validate_event k e)) [
  | inr bad ↦
      let same = done-injective (false, jp) (b, jp') (rw (bad, add_event) at got) in
      subst (Sends 1 1 1 jp) (ap (λ (t : Bool × JpGraph). t.1) same)
        (Sends-more 1 1 1 (omega arith) (omega arith) (omega arith) (Sends-refl jp))
  | inl good ↦
      let jp1 = ensure_columns e jp in
      let first = is_none (lookup e.self_sig.addr jp.graph) in
      let (jp4, received, h2) =
        >>=-eq-done (receive e ty first (lookup e.self_sig.addr jp1.graph) jp1)
          (λ j. done (true, j)) (rw (good, add_event) at got) in
      let same = done-injective (true, jp4) (b, jp') h2 in
      subst (Sends 1 1 1 jp) (ap (λ (t : Bool × JpGraph). t.1) same) (
        Sends-trans (ensure_columns_keeps (Sends 0 0 0 jp) (add_node-Sends jp) e jp (Sends-refl jp))
          (receive-Sends e ty first (lookup e.self_sig.addr jp1.graph) jp1 jp4 received))
]

-- How many of the values sent have been received.
pub record Taken : Type 0 where
  pub requests : ℕ
  pub created : ℕ
  pub triggers : ℕ

-- Each of the three channels holds less than its capacity.
pub record HasRoom (t : Taken) (jp : JpGraph) : Type 0 where
  pub requests : length jp.request_chan < t.requests + max_chan_item
  pub created : length jp.self_event_created < t.created + max_chan_item
  pub triggers : length jp.round_trigger < t.triggers + max_chan_item

-- None holds more than it.
pub record IsWithin (t : Taken) (jp : JpGraph) : Type 0 where
  pub requests : length jp.request_chan ≤ t.requests + max_chan_item
  pub created : length jp.self_event_created ≤ t.created + max_chan_item
  pub triggers : length jp.round_trigger ≤ t.triggers + max_chan_item

pub Sends-IsWithin :
    (t : Taken) (jp jp' : JpGraph) → HasRoom t jp → Sends 1 1 1 jp jp' → IsWithin t jp'
Sends-IsWithin t jp jp' r x = record {
  requests = omega (arith, r.requests, x.requests);
  created = omega (arith, r.created, x.created);
  triggers = omega (arith, r.triggers, x.triggers);
}
