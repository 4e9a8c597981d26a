-- ===== src/Examples/Waiters.antt =====
-- An event that comes before its other parent.
use go_hashgrid.Common.{
  ◌≡◌, refl, true, false, none, some, [], ◌∷◌, arith, if◌then◌else◌, length, get_elem?, done,
  lookup,
}
use go_hashgrid.Jigsaw.State.{Round, JpGraph, normal}
use go_hashgrid.Jigsaw.Seats.{another_at}
use go_hashgrid.Jigsaw.Validate.{validate_event}
use go_hashgrid.Jigsaw.AddEvent.{add_event, find_round, waiting_for}
use go_hashgrid.Jigsaw.AddEvent.Contents.{has_event}
use go_hashgrid.Jigsaw.AddEvent.Race.{IsOverwritten, add_event-IsOverwritten}
use go_hashgrid.Jigsaw.Columns.{add_node, insert_node}
use go_hashgrid.Jigsaw.AddEvent.Waiting.{waits, add_event-links}
use go_hashgrid.Round.Rounds.{new_round}
use go_hashgrid.Examples.Values.{you, sample_hasher, start, after, opened}
use go_hashgrid.Examples.Graphs.{one, add_first, first_event, second_event}

abbrev early : JpGraph
early = after second_event normal start

abbrev full : JpGraph
full = after first_event normal early

abbrev early_round : Round
early_round = elim early.queue [ [] ↦ new_round 2 0 | r ∷ rs ↦ r ]

add_late : add_event sample_hasher first_event normal early ≡ done (true, full)
unfolding opened
add_late = refl

early_facts :
    (validate_event sample_hasher first_event ≡ true)
    × (has_event first_event.self_sig.addr first_event.self_hash early ≡ false)
    × (find_round early.bigs first_event.round_id none 0 early.queue ≡ done (some 0))
    × (get_elem? early.queue 0 ≡ some early_round)
    × (length early.vertices ≡ 1)
unfolding opened has_event find_round
early_facts = (refl, refl, refl, refl, refl)

add_event-links_example : another_at full.vertices 0 ≡ (
    if waits 0 (waiting_for first_event.self_hash early_round.lost_dict)
    then some (length early.vertices)
    else another_at early.vertices 0)
add_event-links_example =
    add_event-links sample_hasher first_event normal early full true 0 0 early_round early_facts.0
      early_facts.1 early_facts.2 early_facts.3 (omega (arith, early_facts.4)) add_late

-- It is linked when the parent comes.
late_link : another_at full.vertices 0 ≡ some 1
unfolding opened
late_link = refl

you_new : lookup you start.graph ≡ none
unfolding opened
you_new = refl

add_event-IsOverwritten_example :
    (has_event you first_event.self_hash one ≡ true)
    × (add_node you start ≡ insert_node you start)
    × (add_node you one ≡ one)
    × IsOverwritten you one (insert_node you one)
add_event-IsOverwritten_example =
    add_event-IsOverwritten sample_hasher first_event normal start one you_new add_first
