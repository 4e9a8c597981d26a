-- ===== src/Jigsaw/Retrieve.antt =====
-- `RetrieveEvent` of core/jigsaw.go.
use go_hashgrid.Common.{
  ℕ, zero, suc, ◌≡◌, sym, ap, ◌∙◌, inl, inr, true, none, some, List, [], ◌∷◌, arith, if◌then◌else◌,
  Bool-cases, Option-cases, bytes_eq, bytes_eq_iff, Outcome, done, ◌>>=◌, >>=-eq-done, lookup,
}
use go_hashgrid.Types.Hash.{Hash}
use go_hashgrid.Types.Event.{Event}
use go_hashgrid.Jigsaw.State.{JpGraph, Vertex, deref_vertex}
use go_hashgrid.Jigsaw.AddEvent.Place.{IsWellLinked}
use go_hashgrid.Jigsaw.Seats.{Seat, seat_of, seat_at, another_at, LinksTo}

-- What `RetrieveEvent` returns: an event with its type, or one of its two errors.
pub data Retrieved : Type 0 where
  found : Event → ℕ → Retrieved
  no_coinbase not_found : Retrieved

-- The loop over the chain, in the map's order of iteration.
unfoldable pub retrieve_loop : Hash → List Vertex → List (Hash × ℕ) → Outcome Retrieved
unfolding deref_vertex
retrieve_loop h vs [] = done not_found
retrieve_loop h vs ((k, p) ∷ chain) =
    let rest = retrieve_loop h vs chain in
    deref_vertex vs p >>= λ v.
    if bytes_eq v.event.other_part_h h
    then elim v.another_pt [
      | none ↦ rest
      | some q ↦ (deref_vertex vs q >>= λ w. done (found w.event v.witness))
    ]
    else rest

unfoldable pub retrieve_event : Hash → JpGraph → Outcome Retrieved
unfolding retrieve_loop
retrieve_event h jp = elim (lookup jp.coinbase jp.graph) [
  | none ↦ done no_coinbase
  | some column ↦ retrieve_loop h jp.vertices column.hash_chain
]

deref_vertex-seat :
    (vs : List Vertex) (p : ℕ) (v : Vertex)
    → deref_vertex vs p ≡ done v
    → (seat_at vs p ≡ some (seat_of v)) × (another_at vs p ≡ v.another_pt)
unfolding deref_vertex
deref_vertex-seat [] p v h = cc
deref_vertex-seat (u ∷ vs) zero v h = let same : u ≡ v = cc in (rw same, rw same)
deref_vertex-seat (u ∷ vs) (suc p) v h = deref_vertex-seat vs p v h

-- One turn of the loop that returns.
retrieve_step :
    (h : Hash) (vs : List Vertex) (p q ty : ℕ) (v : Vertex) (e : Event)
    → ((p' q' : ℕ) → another_at vs p' ≡ some q' → LinksTo vs p' q')
    → deref_vertex vs p ≡ done v
    → bytes_eq v.event.other_part_h h ≡ true
    → v.another_pt ≡ some q
    → (deref_vertex vs q >>= λ w. done (found w.event v.witness)) ≡ done (found e ty)
    → e.self_hash ≡ h
retrieve_step h vs p q ty v e linked at named link got =
    let (w, there, is) =
      >>=-eq-done (deref_vertex vs q) (λ w. done (found w.event v.witness)) got in
    let (here, links) = deref_vertex-seat vs p v at in
    let l = linked p q (links ∙ link) in
    let child : l.child ≡ seat_of v = cc (l.child_at, here) in
    let parent : l.parent ≡ seat_of w = cc (l.parent_at, (deref_vertex-seat vs q w there).0) in
    let event : w.event ≡ e = cc is in
    ap (λ (x : Event). x.self_hash) (sym event)
    ∙ ap (λ (s : Seat). s.event.self_hash) (sym parent)
    ∙ l.named
    ∙ ap (λ (s : Seat). s.event.other_part_h) child
    ∙ (bytes_eq_iff v.event.other_part_h h).0 named

retrieve_loop-hash :
    (h : Hash) (vs : List Vertex) (chain : List (Hash × ℕ)) (e : Event) (ty : ℕ)
    → ((p q : ℕ) → another_at vs p ≡ some q → LinksTo vs p q)
    → retrieve_loop h vs chain ≡ done (found e ty)
    → e.self_hash ≡ h
unfolding retrieve_loop
retrieve_loop-hash h vs [] e ty linked got = cc
retrieve_loop-hash h vs ((k, p) ∷ chain) e ty linked got =
    let ih = retrieve_loop-hash h vs chain e ty linked in
    let (v, at, h1) = >>=-eq-done (deref_vertex vs p) _ got in
    elim (Bool-cases (bytes_eq v.event.other_part_h h)) [
      | inr other ↦ ih (rw other at h1)
      | inl named ↦ elim (Option-cases v.another_pt) [
        | inl unlinked ↦ ih (ground arith)
        | inr (q, link) ↦ retrieve_step h vs p q ty v e linked at named link (ground arith)
      ]
    ]

-- In a graph whose links are right, the event that `RetrieveEvent` serves has the hash that was
-- asked for, whatever the order in which the map is walked.
pub retrieve_event-hash :
    (h : Hash) (jp : JpGraph) (e : Event) (ty : ℕ)
    → IsWellLinked jp
    → retrieve_event h jp ≡ done (found e ty)
    → e.self_hash ≡ h
unfolding retrieve_event
retrieve_event-hash h jp e ty w got = elim (Option-cases (lookup jp.coinbase jp.graph)) [
  | inl absent ↦ cc (rw (absent, retrieve_event) at got)
  | inr (c, here) ↦
      retrieve_loop-hash h jp.vertices c.hash_chain e ty w.linked (rw (here, retrieve_event) at got)
]
