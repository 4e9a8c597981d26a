-- ===== src/Examples/Core.antt =====
-- Events, the graph that they build, and what a node composes.
use go_hashgrid.Common.{
  ◌+◌, ◌<◌, ◌≡◌, refl, ◌≢◌, true, false, ◌&&◌, ◌||◌, none, some, List, [], ◌∷◌, map, arith, length,
  get_elem?, pos, bytes_eq, done, panic, blocked, out_of_fuel, lookup,
}
use go_hashgrid.Types.Address.{Address, zero_address}
use go_hashgrid.Types.Hash.{zero_hash}
use go_hashgrid.Types.Event.{Event, transaction}
use go_hashgrid.Jigsaw.State.{JpGraph, Vertex, Column, Round, normal, deref_big}
use go_hashgrid.Jigsaw.Validate.{validate_event}
use go_hashgrid.Jigsaw.AddEvent.Place.{IsWellLinked}
use go_hashgrid.Jigsaw.AddEvent.Links.{add_event-WellLinked}
use go_hashgrid.Jigsaw.Retrieve.{retrieve_event, found, retrieve_event-hash}
use go_hashgrid.Jigsaw.Compose.{compose_event}
use go_hashgrid.Jigsaw.Compose.Laws.{
  compose_event-validates, compose_event-panics, compose_event-renumbers, compose_event-orphan,
}
use go_hashgrid.Node.{NodeLoop, only_time, node_step, Ticked, node_step-Ticked}
use go_hashgrid.P2p.Frame.{Msg}
use go_hashgrid.P2p.Peer.{Codec, reqs_msg, answer, handle, handle-Answers}
use go_hashgrid.Examples.Values.{me, sample_hasher, start, opened}
use mathlib.Core.List.Perm
use go_hashgrid.Types.Hash.{Hash}
use go_hashgrid.Jigsaw.AddEvent.Contents.{has_event, add_event-has_event}
use go_hashgrid.Jigsaw.AddEvent.Chains.{IsDescending, new-IsDescending, add_event-IsDescending}
use go_hashgrid.Round.Consensus.{consensus_show}
use go_hashgrid.Round.Consensus.Laws.{all_blocks, consensus_show-blocks}
use go_hashgrid.Examples.Graphs.{
  first_event, second_event, one, two, add_first, add_second, one-WellLinked, two-WellLinked,
}

add_event-WellLinked_example : IsWellLinked two
add_event-WellLinked_example =
    add_event-WellLinked sample_hasher second_event normal one two true one-WellLinked add_second

serve_first : retrieve_event first_event.self_hash two ≡ done (found first_event 2)
unfolding opened
serve_first = refl

retrieve_event-hash_example : first_event.self_hash ≡ first_event.self_hash
retrieve_event-hash_example =
    retrieve_event-hash first_event.self_hash two first_event 2 two-WellLinked serve_first

-- The event that this node composes on top of its own, and the graph afterwards.
abbrev pub third : Event × JpGraph
third = elim (compose_event sample_hasher (pos 7) 0 two) [
  | done r ↦ r
  | panic ↦ (first_event, two)
  | blocked ↦ (first_event, two)
  | out_of_fuel ↦ (first_event, two)
]

pub compose_third : compose_event sample_hasher (pos 7) 0 two ≡ done (third.0, third.1)
unfolding opened
compose_third = refl

compose_event-validates_example :
    (validate_event sample_hasher third.0 ≡ true)
    × (third.0.self_sig.addr ≡ two.coinbase)
    × (third.0.trans ≡ [])
compose_event-validates_example =
    compose_event-validates sample_hasher (pos 7) 0 two third.1 third.0 compose_third

abbrev own_column : Column
own_column = elim (lookup me two.graph) [
  | some c ↦ c
  | none ↦ record { hash_chain = []; ver_top = none; seq_num = 0 }
]

own : lookup two.coinbase two.graph ≡ some own_column
unfolding opened
own = refl

abbrev top_vertex : Vertex
top_vertex = elim (get_elem? two.vertices 1) [
  | some v ↦ v
  | none ↦ record {
    event = second_event;
    color = [];
    witness = 0;
    another_pt = none;
    self_pt = none;
    seq_num = 0;
  }
]

own_top : own_column.ver_top ≡ some 1
unfolding opened
own_top = refl

top_at : get_elem? two.vertices 1 ≡ some top_vertex
unfolding opened
top_at = refl

abbrev pub front : Round
front = elim two.queue [ r ∷ rs ↦ r | [] ↦ go_hashgrid.Round.Rounds.new_round 0 0 ]

pub front_at : two.queue ≡ front ∷ []
unfolding opened
front_at = refl

compose_event-renumbers_example :
    (third.0.round_id ≡ top_vertex.event.round_id)
    × (deref_big third.1.bigs top_vertex.event.round_id ≡ done (pos front.index))
compose_event-renumbers_example =
    compose_event-renumbers sample_hasher (pos 7) 0 two third.1 third.0 own_column 1 top_vertex
      front [] own own_top top_at front_at compose_third

front_facts :
    (front.best_vertex ≡ none)
    × (front.nc_held ≡ false)
    × (front.new_comer ≢ [])
    × go_hashgrid.Round.Parents.AllNamed front.new_comer
unfolding opened
front_facts = (refl, refl, λ e. cc, ground arith)

compose_event-orphan_example :
    (third.0.other_part_h ≡ zero_hash) × (third.0.other_part_a ≡ zero_address)
compose_event-orphan_example =
    compose_event-orphan sample_hasher (pos 7) 0 two third.1 third.0 front [] front_at front_facts.0
      front_facts.1 front_facts.2 front_facts.3 compose_third

abbrev busy : JpGraph
busy = record two { trans_un_handled = transaction ∷ [] }

compose_event-panics_example : compose_event sample_hasher (pos 7) 0 busy ≡ panic
compose_event-panics_example =
    compose_event-panics sample_hasher (pos 7) 0 busy own_column own (omega arith) (omega arith)

-- A loop at its start, and after one timer.
abbrev loop_start : NodeLoop
loop_start = record {
  jigsaw = two;
  et = none;
  ty = 0;
  round_comming = false;
  trans_seen = 0;
  adds = [];
  broadcasts = [];
  requests = [];
}

abbrev loop_ticked : NodeLoop
loop_ticked = elim (node_step sample_hasher (only_time (pos 7) 0) loop_start) [
  | done nd ↦ nd
  | panic ↦ loop_start
  | blocked ↦ loop_start
  | out_of_fuel ↦ loop_start
]

tick_start : node_step sample_hasher (only_time (pos 7) 0) loop_start ≡ done loop_ticked
unfolding opened node_step
tick_start = refl

node_step-Ticked_example : (e : Event) × Ticked sample_hasher loop_start loop_ticked e
node_step-Ticked_example =
    node_step-Ticked sample_hasher (pos 7) 0 loop_start loop_ticked tick_start

-- What reads every payload as a request for the hash of the first event.
abbrev sample_codec : Codec
sample_codec = record {
  event_of = λ b. first_event;
  round_of = λ b. some (pos 0);
  hash_of = λ b. first_event.self_hash;
  address_of = λ b. b;
}

abbrev request : Msg
request = record { code = reqs_msg; type = 0; size = 0; payload = [] }

answer_request : handle sample_codec request two ≡ done (answer first_event 2, two)
unfolding opened handle
answer_request = refl

handle-Answers_example : IsWellLinked two × (first_event.self_hash ≡ first_event.self_hash)
handle-Answers_example =
    handle-Answers sample_codec request two two (answer first_event 2) two-WellLinked answer_request

add_event-has_event_example :
    (true ≡ validate_event sample_hasher second_event)
    × ((a : Address) (h : Hash)
        → has_event a h two ≡ (
            has_event a h one
            || (true
                && (bytes_eq second_event.self_sig.addr a && bytes_eq second_event.self_hash h))))
add_event-has_event_example =
    add_event-has_event sample_hasher second_event normal one two true add_second

start-IsDescending : IsDescending start
unfolding opened
start-IsDescending = let d = new-IsDescending me 2 in record { tops = d.tops; selfs = d.selfs }

one-IsDescending : IsDescending one
one-IsDescending =
    add_event-IsDescending sample_hasher first_event normal start one true start-IsDescending
      add_first

add_event-IsDescending_example : IsDescending two
add_event-IsDescending_example =
    add_event-IsDescending sample_hasher second_event normal one two true one-IsDescending
      add_second

one_vertex : length one.vertices < 2
unfolding opened
one_vertex = omega arith

consensus_show-blocks_example :
    (shown : List Hash) × (consensus_show (λ l. l) 2 one 10 ≡ done (shown, 10 + length shown))
    × (length shown ≡ all_blocks 2 one (map (λ x. x.0) one.graph))
consensus_show-blocks_example =
    consensus_show-blocks (λ l. l) 2 one 10 (λ l. Perm.refl l) one-IsDescending one_vertex
