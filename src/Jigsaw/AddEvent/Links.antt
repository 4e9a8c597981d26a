-- ===== src/Jigsaw/AddEvent/Links.antt =====
-- Where `AddEvent` links an event to another vertex, that is the other parent that the event names.
use go_hashgrid.Common.{
  ℕ, ◌≡◌, refl, ◌∙◌, inl, inr, Bool, Option, none, some, Option-cases, length, done, >>=-eq-done,
  done-injective, lookup,
}
use go_hashgrid.Types.Event.{Event, Hasher, copy_event}
use go_hashgrid.Jigsaw.State.{Column, JpGraph}
use go_hashgrid.Jigsaw.AddEvent.{
  is_none, readmit, push_vertex, find_other, link_other, settle, find_round, announce, admit,
  receive, add_event, enter_found,
}
use go_hashgrid.Jigsaw.Seats.{Seat, seat_at}
use go_hashgrid.Jigsaw.AddEvent.Keeps.{add_event_keeps}
use go_hashgrid.Jigsaw.AddEvent.Place.{
  add_node-WellLinked, IsWellLinked, readmit-WellLinked, push_vertex-WellLinked, push_vertex-seat,
  link_other-WellLinked, link_other-seat,
}
use go_hashgrid.Jigsaw.AddEvent.Enter.{enter_found-WellLinked, announce-WellLinked}

settle-WellLinked :
    (p : ℕ) (e : Event) (first linkpost : Bool) (seq : ℕ) (jp jp' : JpGraph) (s : Seat)
    → seat_at jp.vertices p ≡ some s
    → s.event.self_hash ≡ e.self_hash
    → s.event.other_part_h ≡ e.other_part_h
    → settle p e first linkpost seq jp ≡ done jp'
    → IsWellLinked jp
    → IsWellLinked jp'
unfolding settle
settle-WellLinked p e first linkpost seq jp jp' s at hash named h w =
    let (round, found, h1) = >>=-eq-done (find_round jp.bigs e.round_id none 0 jp.queue) _ h in
    let (jp4, entered, h2) =
      >>=-eq-done (enter_found p e first linkpost seq round jp) (announce p e) h1 in
    announce-WellLinked p e jp4 jp' h2
      (enter_found-WellLinked p e first linkpost seq round jp jp4 s at hash named entered w)

admit-WellLinked :
    (e : Event) (ty : ℕ) (first : Bool) (col : Column) (jp jp' : JpGraph)
    → lookup e.self_sig.addr jp.graph ≡ some col
    → admit e ty first col jp ≡ done jp'
    → IsWellLinked jp
    → IsWellLinked jp'
unfolding admit copy_event
admit-WellLinked e ty first col jp jp' here h w =
    let p = length jp.vertices in
    let jp2 = push_vertex e ty col jp in
    let other = find_other e jp2 in
    let s : Seat = record {
      event = copy_event e;
      seq_num = col.seq_num;
      self_pt = col.ver_top;
      colors = 4;
    } in
    let at = push_vertex-seat e ty col jp in
    let w3 =
      link_other-WellLinked p e other jp2 s refl at refl
        (push_vertex-WellLinked e ty col jp here w) in
    settle-WellLinked p e _ (is_none other) col.seq_num (link_other p e other jp2) jp' s
      (link_other-seat p p e other jp2 ∙ at) refl refl h w3

receive-WellLinked :
    (e : Event) (ty : ℕ) (first : Bool) (found : Option Column) (jp jp' : JpGraph)
    → lookup e.self_sig.addr jp.graph ≡ found
    → receive e ty first found jp ≡ done jp'
    → IsWellLinked jp
    → IsWellLinked jp'
unfolding receive
receive-WellLinked e ty first none jp jp' here h w = cc
receive-WellLinked e ty first (some col) jp jp' here h w =
    elim (Option-cases (lookup e.self_hash col.hash_chain)) [
      | inl new ↦ admit-WellLinked e ty first col jp jp' here (rw (new, receive) at h) w
      | inr (p, old) ↦
          rw (← done-injective (readmit p ty jp) jp' (rw (old, receive) at h))
            (readmit-WellLinked p ty jp w)
    ]

-- Whatever events arrive, of whatever kind: if the links of the graph were right before `AddEvent`,
-- they are right after it, on every branch on which it returns. A linked other parent carries the
-- hash that the child names; an entry of a column's chain carries its key, that column's author and
-- number; a vertex that waits in a round's `lostDict` names the hash that it waits for.
pub add_event-WellLinked :
    (k : Hasher) (e : Event) (ty : ℕ) (jp jp' : JpGraph) (b : Bool)
    → IsWellLinked jp
    → add_event k e ty jp ≡ done (b, jp')
    → IsWellLinked jp'
add_event-WellLinked k e ty jp jp' b w h =
    add_event_keeps IsWellLinked add_node-WellLinked k e ty jp jp' b
      (λ first jp1 jp4 received w1. receive-WellLinked e ty first _ jp1 jp4 refl received w1) w h
