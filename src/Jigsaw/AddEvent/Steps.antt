-- ===== src/Jigsaw/AddEvent/Steps.antt =====
-- The steps of `AddEvent` keep every link right: the linked vertices, the chains of the columns and
-- the dictionaries of the rounds.
use go_hashgrid.Common.{
  ℕ, zero, suc, ◌≡◌, sym, ◌∙◌, ◌⊎◌, inl, inr, Bool, true, false, some, List, [], ◌∷◌, ◌++◌, arith,
  if◌then◌else◌, Bool-cases, get_elem?, bytes_eq, bytes_eq_iff, lookup, insert, delete,
  lookup-insert, lookup-insert_ne, lookup-delete,
}
use go_hashgrid.Types.Address.{Address}
use go_hashgrid.Types.Hash.{Hash}
use go_hashgrid.Types.Event.{Event}
use go_hashgrid.Jigsaw.State.{Vertex, Column, Round, update_round}
use go_hashgrid.Jigsaw.AddEvent.{waiting_for, note_lost}
use go_hashgrid.Jigsaw.Seats.{
  Seat, seat_at, Extends, IsLinked, AllWait, AllWait-extend, AllWait-append,
}

-- Vertex p carries the hash h and sits in the column of address a, number n.
pub record Sits (vs : List Vertex) (p : ℕ) (h : Hash) (a : Address) (n : ℕ) : Type 0 where
  pub seat : Seat
  pub at : seat_at vs p ≡ some seat
  pub hash : seat.event.self_hash ≡ h
  pub author : seat.event.self_sig.addr ≡ a
  pub number : seat.seq_num ≡ n

pub Sits-extend :
    {vs : List Vertex} {p n : ℕ} {h : Hash} {a : Address} (ws : List Vertex)
    → Extends vs ws
    → Sits vs p h a n
    → Sits ws p h a n
Sits-extend ws ext s = record {
  seat = s.seat;
  at = ext _ _ s.at;
  hash = s.hash;
  author = s.author;
  number = s.number;
}

abbrev pub ChainSits : List Vertex → Address → Column → Type 0
ChainSits vs a c = (h : Hash) (p : ℕ) → lookup h c.hash_chain ≡ some p → Sits vs p h a c.seq_num

-- What holds of columns, vertices and rounds between two calls: links lead to the parent that the
-- child names, a chain holds a hash's own vertex, and those who wait for a hash name it.
pub record WellLinked (g : List (Address × Column)) (vs : List Vertex) (q : List Round)
    : Type 0 where
  pub linked : IsLinked vs
  pub chained : (a : Address) (c : Column) → lookup a g ≡ some c → ChainSits vs a c
  pub lost :
      (i : ℕ) (r : Round)
      → get_elem? q i ≡ some r
      → (h : Hash) → AllWait vs h (waiting_for h r.lost_dict)

-- The heap may gain vertices and right links.
pub WellLinked-heap :
    (g : List (Address × Column)) (vs ws : List Vertex) (q : List Round)
    → Extends vs ws
    → IsLinked ws
    → WellLinked g vs q
    → WellLinked g ws q
WellLinked-heap g vs ws q ext l w = record {
  linked = l;
  chained = λ a c e h p f. Sits-extend ws ext (w.chained a c e h p f);
  lost = λ i r e h. AllWait-extend vs ws h _ ext (w.lost i r e h);
}

-- A column may be put in place whose chain is right.
pub WellLinked-column :
    (g : List (Address × Column)) (vs : List Vertex) (q : List Round) (a : Address) (c : Column)
    → ChainSits vs a c
    → WellLinked g vs q
    → WellLinked (insert a c g) vs q
WellLinked-column g vs q a c right w = record {
  linked = w.linked;
  chained = λ b d e. elim (Bool-cases (bytes_eq a b)) [
    | inl same ↦
        let ab = (bytes_eq_iff a b).0 same in
        let cd : c ≡ d = ground (arith, lookup-insert a b c g) in rw (← ab, ← cd) right
    | inr other ↦ w.chained b d (sym (lookup-insert_ne a b c g other) ∙ e)
  ];
  lost = w.lost;
}

-- A round may be replaced by one whose dictionary is right.
get_elem?-update_round :
    (q : List Round) (i j : ℕ) (r s : Round)
    → get_elem? (update_round i (λ _. r) q) j ≡ some s
    → (get_elem? q j ≡ some s) ⊎ (r ≡ s)
unfolding update_round
get_elem?-update_round [] i j r s h = cc
get_elem?-update_round (x ∷ q) zero zero r s h = inr (cc)
get_elem?-update_round (x ∷ q) zero (suc j) r s h = inl h
get_elem?-update_round (x ∷ q) (suc i) zero r s h = inl h
get_elem?-update_round (x ∷ q) (suc i) (suc j) r s h = get_elem?-update_round q i j r s h

pub WellLinked-round :
    (g : List (Address × Column)) (vs : List Vertex) (q : List Round) (i : ℕ) (r : Round)
    → ((h : Hash) → AllWait vs h (waiting_for h r.lost_dict))
    → WellLinked g vs q
    → WellLinked g vs (update_round i (λ _. r) q)
WellLinked-round g vs q i r right w = record {
  linked = w.linked;
  chained = w.chained;
  lost = λ j s e. elim (get_elem?-update_round q i j r s e) [
    | inl old ↦ w.lost j s old
    | inr new ↦ rw (← new) right
  ];
}

waiting_for-delete :
    (k h : Hash) (d : List (Hash × List ℕ))
    → waiting_for h (delete k d) ≡ (if bytes_eq k h then [] else waiting_for h d)
waiting_for-delete k h d = ground (arith, lookup-delete k h d)

waiting_for-insert :
    (k h : Hash) (cs : List ℕ) (d : List (Hash × List ℕ))
    → waiting_for h (insert k cs d) ≡ (if bytes_eq k h then cs else waiting_for h d)
waiting_for-insert k h cs d = ground (arith, lookup-insert k h cs d)

AllWait-delete :
    (vs : List Vertex) (k h : Hash) (d : List (Hash × List ℕ))
    → AllWait vs h (waiting_for h d)
    → AllWait vs h (waiting_for h (delete k d))
AllWait-delete vs k h d w = elim (Bool-cases (bytes_eq k h)) [
  | inl same ↦ rw (waiting_for-delete k h d, same) tt
  | inr other ↦ rw (waiting_for-delete k h d, other) w
]

AllWait-insert :
    (vs : List Vertex) (k h : Hash) (cs : List ℕ) (d : List (Hash × List ℕ))
    → AllWait vs k cs
    → AllWait vs h (waiting_for h d)
    → AllWait vs h (waiting_for h (insert k cs d))
AllWait-insert vs k h cs d new w = elim (Bool-cases (bytes_eq k h)) [
  | inl same ↦ rw (waiting_for-insert k h cs d, same) (rw (← (bytes_eq_iff k h).0 same) new)
  | inr other ↦ rw (waiting_for-insert k h cs d, other) w
]

-- The dictionary stays right when the event at p is noted in it.
pub AllWait-note_lost :
    (vs : List Vertex) (p : ℕ) (s : Seat) (e : Event) (linkpost : Bool) (r : Round)
    → seat_at vs p ≡ some s
    → s.event.other_part_h ≡ e.other_part_h
    → ((h : Hash) → AllWait vs h (waiting_for h r.lost_dict))
    → (h : Hash) → AllWait vs h (waiting_for h (note_lost p e linkpost r).lost_dict)
unfolding note_lost
AllWait-note_lost vs p s e false r at named w h = AllWait-delete vs e.self_hash h r.lost_dict (w h)
AllWait-note_lost vs p s e true r at named w h =
    let d = delete e.self_hash r.lost_dict in
    AllWait-insert vs e.other_part_h h (waiting_for e.other_part_h d ++ p ∷ []) d
      (AllWait-append vs e.other_part_h p (waiting_for e.other_part_h d) s at named
        (AllWait-delete vs e.self_hash e.other_part_h r.lost_dict (w e.other_part_h)))
      (AllWait-delete vs e.self_hash h r.lost_dict (w h))
