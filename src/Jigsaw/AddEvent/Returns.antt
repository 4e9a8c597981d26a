-- ===== src/Jigsaw/AddEvent/Returns.antt =====
-- Where `AddEvent` returns.
use go_hashgrid.Common.{
  ℕ, zero, suc, ◌+◌, ◌≤◌, ◌<◌, ◌≡◌, refl, sym, ap, ◌∙◌, ◌⊎◌, inl, inr, Bool, true, false, Option,
  none, some, List, [], ◌∷◌, arith, if◌then◌else◌, lt→ltb, Bool-cases, Option-cases, length,
  get_elem?, set, ℤ, pos, eq_ℤ, Outcome, done, ◌>>=◌, done-injective, lookup,
}
use go_hashgrid.Types.Event.{Event, Hasher, BigRef, RequestArg}
use go_hashgrid.Types.Address
use go_hashgrid.Types.Address.{Address}
use go_hashgrid.Jigsaw.State.{Vertex, VertexRef, Column, Round, JpGraph, deref_big, deref_vertex}
use go_hashgrid.Jigsaw.Seats.{Seat, seat_of, seat_at, seat_at-push_new}
use go_hashgrid.Jigsaw.Columns.{add_node}
use go_hashgrid.Jigsaw.Columns.Numbering.{NumberedFrom-bounds}
use go_hashgrid.Jigsaw.AddEvent.Placed.{IsPlaced, add_node-IsPlaced}
use go_hashgrid.Jigsaw.Validate.{validate_event}
use go_hashgrid.Jigsaw.AddEvent.{
  is_none, new_vertex, ensure_columns, readmit, push_vertex, find_other, link_other, find_round,
  set_witness, enter_round, enter_found, announce, settle, admit, receive, add_event,
}
use go_hashgrid.Jigsaw.AddEvent.Ensure.{ensure_columns_keeps, ensure_columns-HasColumn}
use go_hashgrid.Jigsaw.AddEvent.Quiet.{enter_found-Quiet, link_other-Quiet}
use go_hashgrid.Jigsaw.AddEvent.Sends.{
  Sends, Taken, HasRoom, IsWithin, add_event-Sends, Sends-IsWithin,
}
use go_hashgrid.Round.Rounds.{has_comer, add_comer}
use go_hashgrid.Common.{get_elem?-lt}

abbrev pub Returns {ℓ} : {A : Type ℓ} → Outcome A → Type ℓ
Returns {A = A} m = (a : A) × (m ≡ done a)

Returns->>= {ℓ κ} :
    {A : Type ℓ} {B : Type κ} (m : Outcome A) (f : A → Outcome B)
    → Returns m
    → ((a : A) → m ≡ done a → Returns (f a))
    → Returns (m >>= f)
Returns->>= m f (a, e) next = let (b, e1) = next a e in (b, ap (λ x. x >>= f) e ∙ e1)

-- The loop over the queue ends at one of its rounds, if there is one.
find_round-Returns :
    (bigs : List ℤ) (rid : BigRef) (n : ℤ) (round : VertexRef) (i : ℕ) (rs : List Round)
    → deref_big bigs rid ≡ done n
    → (x : VertexRef) × (find_round bigs rid round i rs ≡ done x)
      × ((j : ℕ) → x ≡ some j → (round ≡ some j) ⊎ (j < i + length rs))
unfolding find_round
find_round-Returns bigs rid n round i [] read = (round, refl, λ j e. inl e)
find_round-Returns bigs rid n round i (r ∷ rs) read = elim (Bool-cases (eq_ℤ n (pos r.index))) [
  | inl is ↦
      (some i, rw (read, is) refl, λ j e. let same : i ≡ j = cc e in inr (omega (arith, same)))
  | inr ne ↦
      let (x, found, bound) = find_round-Returns bigs rid n (some i) (suc i) rs read in
      (
        x,
        rw (read, ne) found,
        λ j e. elim (bound j e) [
          | inl is ↦ let same : i ≡ j = cc is in inr (omega (arith, same))
          | inr lt ↦ inr (omega arith)
        ],
      )
]

-- A round that the event can enter: its slot is there, and its mutex is free.
abbrev CanEnter : ℕ → Round → Type 0
CanEnter seq r = (seq < length r.witnesses) × (r.nc_held ≡ false)

add_comer-Returns : (arg : RequestArg) (r : Round) → r.nc_held ≡ false → Returns (add_comer arg r)
unfolding add_comer
add_comer-Returns arg r free = elim (Bool-cases (has_comer arg.target_hash r.new_comer)) [
  | inl old ↦ rw (free, old) (_, refl)
  | inr new ↦ rw (free, new) (_, refl)
]

set_witness-Returns :
    (first : Bool) (seq p : ℕ) (r : Round)
    → CanEnter seq r
    → (r1 : Round) × ((if first then set_witness seq p r else done r) ≡ done r1)
      × (r1.nc_held ≡ false)
unfolding set_witness
set_witness-Returns false seq p r (inside, free) = (r, refl, free)
set_witness-Returns true seq p r (inside, free) = (
  record r { witnesses = set r.witnesses seq (some p) },
  rw (lt→ltb seq (length r.witnesses) inside) refl,
  free,
)

enter_found-Returns :
    (p : ℕ) (e : Event) (first linkpost : Bool) (seq : ℕ) (round : Option ℕ) (jp : JpGraph)
    → ((i : ℕ) (r : Round) → get_elem? jp.queue i ≡ some r → CanEnter seq r)
    → ((i : ℕ) → round ≡ some i → i < length jp.queue)
    → Returns (enter_found p e first linkpost seq round jp)
unfolding enter_found enter_round
enter_found-Returns p e first linkpost seq none jp can inside = (jp, refl)
enter_found-Returns p e first linkpost seq (some i) jp can inside =
    let (r, at) = get_elem?-lt jp.queue i (inside i refl) in
    let (r1, marked, free) = set_witness-Returns first seq p r (can i r at) in
    rw (at, enter_found)
      (Returns->>= (if first then set_witness seq p r else done r) _ (r1, marked)
        λ r0 is.
          let same : r1 ≡ r0 = done-injective r1 r0 (sym marked ∙ is) in
          Returns->>= (add_comer _ r0) _
            (add_comer-Returns _ r0 (ap (λ (x : Round). x.nc_held) (sym same) ∙ free))
            λ r2 come. (_, refl))

get_elem?-seat_at :
    (vs : List Vertex) (p : ℕ) (s : Seat)
    → seat_at vs p ≡ some s
    → (v : Vertex) × (get_elem? vs p ≡ some v)
get_elem?-seat_at [] p s h = absurd (cc h)
get_elem?-seat_at (v ∷ vs) zero s h = (v, refl)
get_elem?-seat_at (v ∷ vs) (suc p) s h = get_elem?-seat_at vs p s h

announce-Returns :
    (p : ℕ) (e : Event) (jp : JpGraph) (s : Seat)
    → seat_at jp.vertices p ≡ some s
    → Returns (announce p e jp)
unfolding announce deref_vertex
announce-Returns p e jp s at =
    let (v, there) = get_elem?-seat_at jp.vertices p s at in
    elim (Bool-cases (eq_ℤ (Address.compare e.self_sig.addr jp.coinbase) (pos 0))) [
      | inl own ↦ rw (own, there, deref_vertex) (_, refl)
      | inr foreign ↦ rw foreign (jp, refl)
    ]

settle-Returns :
    (p : ℕ) (e : Event) (first linkpost : Bool) (seq : ℕ) (jp : JpGraph) (n : ℤ) (s : Seat)
    → deref_big jp.bigs e.round_id ≡ done n
    → ((i : ℕ) (r : Round) → get_elem? jp.queue i ≡ some r → CanEnter seq r)
    → seat_at jp.vertices p ≡ some s
    → Returns (settle p e first linkpost seq jp)
unfolding settle
settle-Returns p e first linkpost seq jp n s read can at =
    let (round, found, bound) = find_round-Returns jp.bigs e.round_id n none 0 jp.queue read in
    Returns->>= (find_round jp.bigs e.round_id none 0 jp.queue) _ (round, found)
      λ x is.
        let same : round ≡ x = done-injective round x (sym found ∙ is) in
        Returns->>= (enter_found p e first linkpost seq x jp) _
          (enter_found-Returns p e first linkpost seq x jp can λ i e1. elim (bound i (same ∙ e1)) [
            | inl no_round ↦ absurd (cc no_round)
            | inr lt ↦ omega (arith, lt)
          ])
          λ jp4 entered.
            announce-Returns p e jp4 s
              ((enter_found-Quiet p e first linkpost seq x jp jp4 entered).seats p ∙ at)

-- The event's round number can be read, and with the columns that `AddEvent` makes for the event, no
-- round of the queue has fewer slots than there are columns, and none has its mutex `nc` held.
pub record IsReady (e : Event) (jp : JpGraph) : Type 0 where
  pub number : ℤ
  pub readable : deref_big jp.bigs e.round_id ≡ done number
  pub roomy :
      (i : ℕ) (r : Round)
      → get_elem? jp.queue i ≡ some r
      → length (ensure_columns e jp).graph ≤ length r.witnesses
  pub free : (i : ℕ) (r : Round) → get_elem? jp.queue i ≡ some r → r.nc_held ≡ false

-- The queue and the integers are left as they are.
abbrev pub SameHeap : JpGraph → JpGraph → Type 0
SameHeap jp jp' = (jp'.queue ≡ jp.queue) × (jp'.bigs ≡ jp.bigs)

pub add_node-SameHeap :
    (old : JpGraph) (a : Address) (jp : JpGraph) → SameHeap old jp → SameHeap old (add_node a jp)
unfolding add_node
add_node-SameHeap old a jp h = elim (Option-cases (lookup a jp.graph)) [
  | inl new ↦ rw (new, add_node) h
  | inr (c, here) ↦ rw (here, add_node) h
]

pub link_other-SameHeap :
    (p : ℕ) (e : Event) (other : VertexRef) (jp : JpGraph) → SameHeap jp (link_other p e other jp)
unfolding link_other
link_other-SameHeap p e none jp = (refl, refl)
link_other-SameHeap p e (some q) jp = (refl, refl)

pub pushed :
    (e : Event) (ty : ℕ) (col : Column) (jp : JpGraph)
    → SameHeap jp (push_vertex e ty col jp)
      × ((s : Seat) × (seat_at (push_vertex e ty col jp).vertices (length jp.vertices) ≡ some s))
unfolding push_vertex
pushed e ty col jp =
    let v : Vertex = record (new_vertex e ty) { self_pt = col.ver_top; seq_num = col.seq_num } in
    ((refl, refl), (seat_of v, seat_at-push_new jp.vertices v))

admit-Returns :
    (e : Event) (ty : ℕ) (first : Bool) (col : Column) (jp : JpGraph) (n : ℤ)
    → deref_big jp.bigs e.round_id ≡ done n
    → ((i : ℕ) (r : Round) → get_elem? jp.queue i ≡ some r → CanEnter col.seq_num r)
    → Returns (admit e ty first col jp)
unfolding admit
admit-Returns e ty first col jp n read can =
    let p = length jp.vertices in
    let jp2 = push_vertex e ty col jp in
    let other = find_other e jp2 in
    let jp3 = link_other p e other jp2 in
    let ((queue2, bigs2), (s, at)) = pushed e ty col jp in
    let (queue3, bigs3) = link_other-SameHeap p e other jp2 in
    settle-Returns p e _ (is_none other) col.seq_num jp3 n s
      (ap (λ b. deref_big b e.round_id) (bigs3 ∙ bigs2) ∙ read)
      (λ i r here. can i r (ap (λ q. get_elem? q i) (sym (queue3 ∙ queue2)) ∙ here))
      ((link_other-Quiet p e other jp2).seats p ∙ at)

receive-Returns :
    (e : Event) (ty : ℕ) (first : Bool) (col : Column) (jp : JpGraph) (n : ℤ)
    → deref_big jp.bigs e.round_id ≡ done n
    → ((i : ℕ) (r : Round) → get_elem? jp.queue i ≡ some r → CanEnter col.seq_num r)
    → Returns (receive e ty first (some col) jp)
unfolding receive
receive-Returns e ty first col jp n read can =
    elim (Option-cases (lookup e.self_hash col.hash_chain)) [
      | inr (p, old) ↦ rw (old, receive) (readmit p ty jp, refl)
      | inl new ↦ rw (new, receive) (admit-Returns e ty first col jp n read can)
    ]

-- The same without the channels.
pub call-Returns :
    (k : Hasher) (e : Event) (ty : ℕ) (jp : JpGraph)
    → IsPlaced jp
    → IsReady e jp
    → (jp' : JpGraph) × (add_event k e ty jp ≡ done (validate_event k e, jp'))
unfolding add_event
call-Returns k e ty jp placed ready = elim (Bool-cases (validate_event k e)) [
  | inr bad ↦ (jp, rw (bad, add_event) refl)
  | inl good ↦
      let jp1 = ensure_columns e jp in
      let (queue, bigs) =
        ensure_columns_keeps (SameHeap jp) (add_node-SameHeap jp) e jp (refl, refl) in
      let (col, here) = ensure_columns-HasColumn e jp in
      let bound =
        NumberedFrom-bounds 0 e.self_sig.addr col jp1.graph
          (ensure_columns_keeps IsPlaced add_node-IsPlaced e jp placed).numbered here in
      let first = is_none (lookup e.self_sig.addr jp.graph) in
      let (jp4, received) =
        receive-Returns e ty first col jp1 ready.number
          (ap (λ b. deref_big b e.round_id) bigs ∙ ready.readable)
          (λ i r at.
            let there = ap (λ q. get_elem? q i) (sym queue) ∙ at in
            (omega (arith, bound.1, ready.roomy i r there), ready.free i r there)) in
      (jp4, rw (good, add_event) (rw (here, received) refl))
]

-- On a graph whose columns and vertices are numbered `AddEvent` returns, with its answer whether the
-- event is valid, if the event's round number can be read, every round in the queue has a slot for
-- each column, those of the event included, no round's mutex is held, and each of `RequestChan`,
-- `SelfEventCreated` and `roundTrigger` has a free place: the call sends at most one value on each,
-- so that none holds more than its capacity afterwards even if nothing is received meanwhile.
pub add_event-returns :
    (k : Hasher) (e : Event) (ty : ℕ) (jp : JpGraph) (t : Taken)
    → IsPlaced jp
    → IsReady e jp
    → HasRoom t jp
    → (jp' : JpGraph) × (add_event k e ty jp ≡ done (validate_event k e, jp'))
      × Sends 1 1 1 jp jp'
      × IsWithin t jp'
add_event-returns k e ty jp t placed ready room =
    let (jp', returned) = call-Returns k e ty jp placed ready in
    let sent = add_event-Sends k e ty jp jp' (validate_event k e) returned in
    (jp', returned, sent, Sends-IsWithin t jp jp' room sent)
