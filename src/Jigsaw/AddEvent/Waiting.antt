-- ===== src/Jigsaw/AddEvent/Waiting.antt =====
-- Which older vertices `AddEvent` links to a new one: those that wait for its hash in the dictionary
-- of the round that the new event enters.
use go_hashgrid.Common.{
  ℕ, zero, suc, ◌<◌, ◌≡◌, refl, sym, ap, subst, ◌∙◌, inl, inr, Bool, true, false, ◌||◌, none, some,
  List, [], ◌∷◌, arith, ◌==◌, if◌then◌else◌, Option-cases, length, get_elem?, length-append, done,
  >>=-eq-done, done-injective, lookup, insert,
}
use go_hashgrid.Types.Hash.{Hash}
use go_hashgrid.Types.Address.{Address}
use go_hashgrid.Jigsaw.Columns.{add_node}
use go_hashgrid.Types.Event.{Event, Hasher}
use go_hashgrid.Jigsaw.State.{
  Vertex, VertexRef, Column, Round, JpGraph, witness_remote, update_vertex,
}
use go_hashgrid.Jigsaw.Seats.{another_at, another_at-update, another_at-push}
use go_hashgrid.Jigsaw.Validate.{validate_event}
use go_hashgrid.Jigsaw.AddEvent.{
  is_none, new_vertex, ensure_columns, push_vertex, find_other, link_other, find_round, set_witness,
  link_waiting, waiting_for, enter_round, enter_found, announce, settle, admit, receive, add_event,
}
use go_hashgrid.Jigsaw.AddEvent.Ensure.{ensure_columns_keeps, ensure_columns-HasColumn}
use go_hashgrid.Jigsaw.AddEvent.Contents.{has_event, chain_has, has_event-ensure_columns}
use go_hashgrid.Jigsaw.AddEvent.Enter.{set_witness-lost, add_comer-lost}
use go_hashgrid.Jigsaw.AddEvent.Returns.{SameHeap, add_node-SameHeap, link_other-SameHeap, pushed}
use go_hashgrid.Round.Rounds.{add_comer}

-- The vertex c is among those of a list.
unfoldable pub waits : ℕ → List ℕ → Bool
waits c [] = false
waits c (x ∷ xs) = (x == c) || waits c xs

update_link :
    (x c p : ℕ) (vs : List Vertex)
    → c < length vs
    → another_at (update_vertex x (λ v. record v { another_pt = some p }) vs) c
      ≡ (if x == c then some p else another_at vs c)
unfolding update_vertex
update_link x c p [] h = absurd (omega arith)
update_link zero zero p (v ∷ vs) h = refl
update_link zero (suc c) p (v ∷ vs) h = ground arith
update_link (suc x) zero p (v ∷ vs) h = ground arith
update_link (suc x) (suc c) p (v ∷ vs) h = ground (arith, update_link x c p vs)

length-update :
    (x : ℕ) (f : Vertex → Vertex) (vs : List Vertex) → length (update_vertex x f vs) ≡ length vs
unfolding update_vertex
length-update x f [] = refl
length-update zero f (v ∷ vs) = refl
length-update (suc x) f (v ∷ vs) = ap suc (length-update x f vs)

if_or {ℓ} :
    {A : Type ℓ} (a b : Bool) (x y : A)
    → (if b then x else (if a then x else y)) ≡ (if (a || b) then x else y)
if_or true true x y = refl
if_or true false x y = refl
if_or false true x y = refl
if_or false false x y = refl

link_waiting-link :
    (p c : ℕ) (cs : List ℕ) (vs : List Vertex)
    → c < length vs
    → another_at (link_waiting p cs vs) c ≡ (if waits c cs then some p else another_at vs c)
unfolding link_waiting waits
link_waiting-link p c [] vs h = refl
link_waiting-link p c (x ∷ cs) vs h =
    let f = λ (v : Vertex). record v { another_pt = some p } in
    link_waiting-link p c cs (update_vertex x f vs) (omega (arith, length-update x f vs))
    ∙ ap (λ y. if waits c cs then some p else y) (update_link x c p vs h)
    ∙ if_or (x == c) (waits c cs) (some p) (another_at vs c)

mark-link :
    (first : Bool) (p c : ℕ) (vs : List Vertex)
    → let f = λ (v : Vertex). record v { witness = witness_remote } in
      (another_at (if first then update_vertex p f vs else vs) c ≡ another_at vs c)
      × (length (if first then update_vertex p f vs else vs) ≡ length vs)
mark-link true p c vs =
    let f = λ (v : Vertex). record v { witness = witness_remote } in
    (another_at-update p c f vs (λ v. refl), length-update p f vs)
mark-link false p c vs = (refl, refl)

enter_round-link :
    (p : ℕ) (e : Event) (first linkpost : Bool) (seq i c : ℕ) (r : Round) (jp jp' : JpGraph)
    → c < length jp.vertices
    → enter_round p e first linkpost seq i r jp ≡ done jp'
    → another_at jp'.vertices c
      ≡ (if waits c (waiting_for e.self_hash r.lost_dict) then some p else another_at jp.vertices c)
unfolding enter_round
enter_round-link p e first linkpost seq i c r jp jp' old h =
    let (r1, marked, h1) = >>=-eq-done (if first then set_witness seq p r else done r) _ h in
    let (r2, come, h2) = >>=-eq-done (add_comer _ r1) _ h1 in
    let (kept, sized) = mark-link first p c jp.vertices in
    let lost = add_comer-lost _ r1 r2 come ∙ set_witness-lost first seq p r r1 marked in
    let same = done-injective _ jp' h2 in
    ap (λ (x : JpGraph). another_at x.vertices c) (sym same)
    ∙ link_waiting-link p c (waiting_for e.self_hash r2.lost_dict) _ (omega (arith, sized))
    ∙ ap (λ y. if waits c (waiting_for e.self_hash r2.lost_dict) then some p else y) kept
    ∙ ap (λ d. if waits c (waiting_for e.self_hash d) then some p else another_at jp.vertices c)
        lost

announce-vertices :
    (p : ℕ) (e : Event) (jp jp' : JpGraph) → announce p e jp ≡ done jp' → jp'.vertices ≡ jp.vertices
unfolding announce
announce-vertices p e jp jp' h = ground arith

link_other-link :
    (p c : ℕ) (e : Event) (other : VertexRef) (jp : JpGraph)
    → c < p
    → c < length jp.vertices
    → (another_at (link_other p e other jp).vertices c ≡ another_at jp.vertices c)
      × (c < length (link_other p e other jp).vertices)
unfolding link_other
link_other-link p c e none jp lt old = (refl, old)
link_other-link p c e (some q) jp lt old =
    let apart : (p == c) ≡ false = ground arith in
    let f = λ (v : Vertex). record v { another_pt = some q } in
    (
      update_link p c q jp.vertices old
          ∙ ap (λ b. if b then some q else another_at jp.vertices c) apart,
      omega (arith, length-update p f jp.vertices),
    )

push_vertex-link :
    (e : Event) (ty c : ℕ) (col : Column) (jp : JpGraph)
    → c < length jp.vertices
    → (another_at (push_vertex e ty col jp).vertices c ≡ another_at jp.vertices c)
      × (c < length (push_vertex e ty col jp).vertices)
unfolding push_vertex
push_vertex-link e ty c col jp old =
    let v : Vertex = record (new_vertex e ty) { self_pt = col.ver_top; seq_num = col.seq_num } in
    (another_at-push jp.vertices v c refl, omega (arith, length-append jp.vertices (v ∷ [])))

admit-link :
    (e : Event) (ty : ℕ) (first : Bool) (col : Column) (jp jp' : JpGraph) (i c : ℕ) (r : Round)
    → find_round jp.bigs e.round_id none 0 jp.queue ≡ done (some i)
    → get_elem? jp.queue i ≡ some r
    → c < length jp.vertices
    → admit e ty first col jp ≡ done jp'
    → another_at jp'.vertices c ≡ (
        if waits c (waiting_for e.self_hash r.lost_dict)
        then some (length jp.vertices)
        else another_at jp.vertices c)
unfolding admit settle enter_found
admit-link e ty first col jp jp' i c r found at old h =
    let p = length jp.vertices in
    let jp2 = push_vertex e ty col jp in
    let other = find_other e jp2 in
    let jp3 = link_other p e other jp2 in
    let marks =
      first || (ty == witness_remote) || (length (insert e.self_hash p col.hash_chain) == 1) in
    let ((queue2, bigs2), _) = pushed e ty col jp in
    let (queue3, bigs3) = link_other-SameHeap p e other jp2 in
    let (kept2, old2) = push_vertex-link e ty c col jp old in
    let (kept3, old3) = link_other-link p c e other jp2 old old2 in
    let (round, found3, h1) = >>=-eq-done (find_round jp3.bigs e.round_id none 0 jp3.queue) _ h in
    let same : some i ≡ round = done-injective (some i) round (
      sym found
      ∙ ap (λ b. find_round b e.round_id none 0 jp.queue) (sym (bigs3 ∙ bigs2))
      ∙ ap (λ q. find_round jp3.bigs e.round_id none 0 q) (sym (queue3 ∙ queue2))
      ∙ found3) in
    let (jp4, entered, h2) =
      >>=-eq-done (enter_found p e marks (is_none other) col.seq_num round jp3) (announce p e) h1 in
    let there : get_elem? jp3.queue i ≡ some r = ap (λ q. get_elem? q i) (queue3 ∙ queue2) ∙ at in
    let entered1 =
      subst (λ x. enter_found p e marks (is_none other) col.seq_num x jp3 ≡ done jp4) (sym same)
        entered in
    let linked =
      enter_round-link p e marks (is_none other) col.seq_num i c r jp3 jp4 old3
        (rw (there, enter_found) at entered1) in
    ap (λ vs. another_at vs c) (announce-vertices p e jp4 jp' h2)
    ∙ linked
    ∙ ap (λ y. if waits c (waiting_for e.self_hash r.lost_dict) then some p else y) (kept3 ∙ kept2)

add_node-vertices :
    (old : List Vertex) (a : Address) (jp : JpGraph)
    → jp.vertices ≡ old
    → (add_node a jp).vertices ≡ old
unfolding add_node
add_node-vertices old a jp h = elim (Option-cases (lookup a jp.graph)) [
  | inl new ↦ rw (new, add_node) h
  | inr (c, here) ↦ rw (here, add_node) h
]

chain_has-none :
    (h : Hash) (c : Column) → chain_has h (some c) ≡ false → lookup h c.hash_chain ≡ none
chain_has-none h c e = elim (Option-cases (lookup h c.hash_chain)) [
  | inl absent ↦ absent
  | inr (p, at) ↦ absurd (cc (rw at at e))
]

-- A valid event that the graph does not have yet, and whose round is found in the queue: `AddEvent`
-- links those older vertices to it that wait for its hash in the dictionary of that round, and no
-- others. One that waits for it in the dictionary of another round, which is that of its own
-- number, keeps the link that it has.
pub add_event-links :
    (k : Hasher) (e : Event) (ty : ℕ) (jp jp' : JpGraph) (b : Bool) (i c : ℕ) (r : Round)
    → validate_event k e ≡ true
    → has_event e.self_sig.addr e.self_hash jp ≡ false
    → find_round jp.bigs e.round_id none 0 jp.queue ≡ done (some i)
    → get_elem? jp.queue i ≡ some r
    → c < length jp.vertices
    → add_event k e ty jp ≡ done (b, jp')
    → another_at jp'.vertices c ≡ (
        if waits c (waiting_for e.self_hash r.lost_dict)
        then some (length jp.vertices)
        else another_at jp.vertices c)
unfolding add_event receive has_event
add_event-links k e ty jp jp' b i c r valid new found at old h =
    let a = e.self_sig.addr in
    let jp1 = ensure_columns e jp in
    let (queue, bigs) =
      ensure_columns_keeps (SameHeap jp) (add_node-SameHeap jp) e jp (refl, refl) in
    let heap : jp1.vertices ≡ jp.vertices =
      ensure_columns_keeps (λ j. j.vertices ≡ jp.vertices) (add_node-vertices jp.vertices) e jp
        refl in
    let (col, here) = ensure_columns-HasColumn e jp in
    let first = is_none (lookup a jp.graph) in
    let (jp4, received, h2) =
      >>=-eq-done (receive e ty first (lookup a jp1.graph) jp1) (λ j. done (true, j))
        (rw (valid, add_event) at h) in
    let absent =
      chain_has-none e.self_hash col (
        ap (chain_has e.self_hash) (sym here)
        ∙ has_event-ensure_columns e a e.self_hash jp
        ∙ new) in
    let admitted : admit e ty first col jp1 ≡ done jp4 = rw (here, receive, absent) at received in
    let linked =
      admit-link e ty first col jp1 jp4 i c r
        (ap (λ x. find_round x e.round_id none 0 jp1.queue) bigs
          ∙ ap (λ q. find_round jp.bigs e.round_id none 0 q) queue
          ∙ found)
        (ap (λ q. get_elem? q i) queue ∙ at) (omega (arith, ap length heap, old)) admitted in
    let same = done-injective (true, jp4) (b, jp') h2 in
    ap (λ (x : Bool × JpGraph). another_at x.1.vertices c) (sym same)
    ∙ linked
    ∙ ap
        (λ vs.
          if waits c (waiting_for e.self_hash r.lost_dict)
          then some (length vs)
          else another_at vs c)
        heap
