-- ===== src/Examples/Graphs.antt =====
-- Two events and the graphs that they build.
use go_hashgrid.Common.{◌≡◌, refl, true, done}
use go_hashgrid.Types.Event.{Event}
use go_hashgrid.Jigsaw.State.{JpGraph, normal}
use go_hashgrid.Jigsaw.AddEvent.{add_event}
use go_hashgrid.Jigsaw.AddEvent.Place.{IsWellLinked}
use go_hashgrid.Jigsaw.AddEvent.Links.{add_event-WellLinked}
use go_hashgrid.Jigsaw.Create.{new_jp_graph_lem}
use go_hashgrid.Examples.Values.{me, you, sample_hasher, sample_event, start, after, opened}

abbrev pub first_event : Event
first_event = sample_event you 5 you 4

-- This node's event behind it, whose other parent is the first event.
abbrev pub second_event : Event
second_event = sample_event me 6 you 5

abbrev pub one : JpGraph
one = after first_event normal start

abbrev pub two : JpGraph
two = after second_event normal one

pub add_first : add_event sample_hasher first_event normal start ≡ done (true, one)
unfolding opened
add_first = refl

pub add_second : add_event sample_hasher second_event normal one ≡ done (true, two)
unfolding opened
add_second = refl

pub start-WellLinked : IsWellLinked start
unfolding opened
start-WellLinked =
    let w = (new_jp_graph_lem me 2).1 in
    record { linked = w.linked; chained = w.chained; lost = w.lost }

pub one-WellLinked : IsWellLinked one
one-WellLinked =
    add_event-WellLinked sample_hasher first_event normal start one true start-WellLinked add_first

pub two-WellLinked : IsWellLinked two
two-WellLinked =
    add_event-WellLinked sample_hasher second_event normal one two true one-WellLinked add_second
