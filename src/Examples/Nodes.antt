-- ===== src/Examples/Nodes.antt =====
-- A node that starts, hears of an event of a peer, and adds it.
use go_hashgrid.Common.{
  Bool, ℕ, zero, suc, false, subst, get_elem?, ◌++◌, ◌≤◌, arith, List, ◌≡◌, refl, true, none, some,
  [], ◌∷◌, length, pos, done,
}
use go_hashgrid.Jigsaw.State.{normal}
use go_hashgrid.Jigsaw.AddEvent.{add_event}
use go_hashgrid.P2p.Frame.{Msg}
use go_hashgrid.P2p.Peer.{Codec, event_msg, quiet, handle, receive_event}
use go_hashgrid.Node.{event_came, node_step}
use go_hashgrid.Hgrid.{Node, new_node, event_handle, main}
use go_hashgrid.System.{System, with_graph, turn, add, message, Run, here, next}
use go_hashgrid.System.Safe.{IsSafe, at_start, main-IsSafe}
use go_hashgrid.System.Contents.{Grows, Run-Grows}
use go_hashgrid.System.Seeing.{main-Judged}
use go_hashgrid.System.Progress.{main-has_event}
use go_hashgrid.System.{Step}
use go_hashgrid.Jigsaw.State.{Vertex, Round, deref_big}
use go_hashgrid.Jigsaw.Validate.{validate_event}
use go_hashgrid.Jigsaw.AddEvent.{ensure_columns}
use go_hashgrid.Jigsaw.AddEvent.Contents.{has_event}
use go_hashgrid.Jigsaw.AddEvent.Returns.{IsReady}
use go_hashgrid.Round.Rounds.{new_round}
use go_hashgrid.Round.Search.{judge_see}
use go_hashgrid.Round.Search.Explored.{white_at}
use go_hashgrid.Round.Search.Exact.{Judged}
use go_hashgrid.Examples.Values.{you, sample_hasher, after, opened}
use go_hashgrid.Examples.Graphs.{first_event}
use go_hashgrid.Examples.Startup.{config, unmarshal}

-- A payload is the first event, with the round number 0.
abbrev codec : Codec
codec = record {
  event_of = λ b. first_event;
  round_of = λ b. some (pos 0);
  hash_of = λ b. b;
  address_of = λ b. you;
}

abbrev gossip : Msg
gossip = record { code = event_msg; type = normal; size = 1; payload = 7 ∷ [] }

abbrev node : Node
node = new_node config none

abbrev at_first : System
at_first = at_start (event_handle node)

abbrev told : System
told = with_graph at_first (receive_event codec gossip at_first.loop.jigsaw)

abbrev picked : System
picked = record told {
  loop = record told.loop { et = some first_event; ty = normal; adds = (first_event, normal) ∷ [] };
}

abbrev added : System
added = record picked {
  loop = record picked.loop { jigsaw = after first_event normal told.loop.jigsaw; adds = [] };
}

started : main unmarshal (some []) none ≡ done (node, event_handle node)
unfolding main
started = refl

tell : handle codec gossip at_first.loop.jigsaw ≡ done (quiet, told.loop.jigsaw)
unfolding handle
tell = refl

pick : node_step sample_hasher (event_came first_event) told.loop ≡ done picked.loop
unfolding node_step event_handle
pick = refl

add_told :
    add_event sample_hasher first_event normal told.loop.jigsaw ≡ done (true, added.loop.jigsaw)
unfolding opened receive_event new_node event_handle
add_told = refl

history : Run sample_hasher codec at_first added
history =
    next
      (next (next here (message gossip quiet told.loop.jigsaw tell refl))
        (turn (event_came first_event) picked.loop pick refl))
      (add [] [] first_event normal true added.loop.jigsaw refl add_told refl)

-- It has one vertex then.
added_vertex : length added.loop.jigsaw.vertices ≡ 1
unfolding opened receive_event new_node event_handle
added_vertex = refl

main-IsSafe_example : IsSafe added
main-IsSafe_example =
    main-IsSafe sample_hasher codec unmarshal (some []) none node (event_handle node) added started
      history

Run-Grows_example : Grows sample_hasher at_first.loop.jigsaw added.loop.jigsaw
Run-Grows_example = Run-Grows sample_hasher codec at_first added history

added_full : length added.loop.jigsaw.graph ≡ added.loop.jigsaw.broadness
unfolding opened receive_event new_node event_handle
added_full = refl

added_white : (v : ℕ) → white_at 0 added.loop.jigsaw.vertices v ≡ true
unfolding opened receive_event new_node event_handle
added_white zero = refl
added_white (suc v) = refl

main-Judged_example :
    (see : ℕ) × (strong : Bool) × (vs : List Vertex) × (judge_see 0 added.loop.jigsaw
        (some 0)
        (some 0)
      ≡ done (see, strong, vs))
    × Judged added.loop.jigsaw 0 0 see strong vs
main-Judged_example =
    main-Judged sample_hasher codec unmarshal (some []) none node (event_handle node) added 0 0 0
      started history added_full (omega arith) (omega (arith, added_vertex))
      (omega (arith, added_vertex)) (λ v r. added_white v)

-- The node that was told of the event can add it.
told_rooms :
    (i : ℕ) (r : Round)
    → get_elem? told.loop.jigsaw.queue i ≡ some r
    → (length (ensure_columns first_event told.loop.jigsaw).graph ≤ length r.witnesses)
      × (r.nc_held ≡ false)
unfolding opened receive_event new_node event_handle ensure_columns new_round
told_rooms zero r h =
    let same : new_round 2 0 ≡ r = cc h in
    subst (λ x. (2 ≤ length x.witnesses) × (x.nc_held ≡ false)) same (omega arith, refl)
told_rooms (suc i) r h = absurd (cc h)

told-IsReady : IsReady first_event told.loop.jigsaw
unfolding opened receive_event new_node event_handle deref_big
told-IsReady = record {
  number = pos 0;
  readable = refl;
  roomy = λ i r h. (told_rooms i r h).0;
  free = λ i r h. (told_rooms i r h).1;
}

first_valid : validate_event sample_hasher first_event ≡ true
unfolding opened
first_valid = refl

main-has_event_example :
    (m t : System) × Step sample_hasher codec told m
    × (m.loop.adds ≡ told.loop.adds ++ (first_event, normal) ∷ [])
    × Step sample_hasher codec m t
    × (t.loop.adds ≡ told.loop.adds)
    × (has_event first_event.self_sig.addr first_event.self_hash t.loop.jigsaw ≡ true)
main-has_event_example =
    main-has_event sample_hasher codec unmarshal (some []) none node (event_handle node) told
      first_event started (next here (message gossip quiet told.loop.jigsaw tell refl)) first_valid
      told-IsReady
