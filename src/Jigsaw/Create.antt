-- ===== src/Jigsaw/Create.antt =====
-- `NewJPGraph` and `NewRoundManager` of core: the graph that a node starts with.
use go_hashgrid.Common.{
  ℕ, zero, suc, ◌≡◌, refl, inl, none, some, List, [], ◌∷◌, get_elem?, lookup, lookup-insert_self,
}
use go_hashgrid.Types.Address.{Address}
use go_hashgrid.Types.Hash.{Hash}
use go_hashgrid.Jigsaw.State.{JpGraph, Round}
use go_hashgrid.Jigsaw.Columns.{add_node}
use go_hashgrid.Jigsaw.Columns.Numbering.{IsNumbered, add_node-IsNumbered}
use go_hashgrid.Jigsaw.AddEvent.{waiting_for}
use go_hashgrid.Jigsaw.AddEvent.Place.{IsWellLinked, add_node-WellLinked}
use go_hashgrid.Round.Rounds.{new_round}
use go_hashgrid.Jigsaw.Seats.{AllWait}

-- The queue that `NewRoundManager` makes.
unfoldable pub new_round_manager : ℕ → List Round
unfolding new_round
new_round_manager broadness = new_round broadness 0 ∷ []

-- The graph before `AddNode`, with the round that `NewRoundManager` pushes.
unfoldable pub blank_graph : Address → ℕ → JpGraph
unfolding new_round_manager
blank_graph coinbase broadness = record {
  graph = [];
  super_majority = 0;
  vertices = [];
  bigs = [];
  witness_l = [];
  witness_r = [];
  event_norm = [];
  trans_un_handled = [];
  coinbase = coinbase;
  broadness = broadness;
  request_chan = [];
  self_event_created = [];
  round_trigger = [];
  queue = new_round_manager broadness;
  current_idx = 0;
  monitor_starter = none;
  consensus_trigger = [];
}

unfoldable pub new_jp_graph : Address → ℕ → JpGraph
unfolding blank_graph add_node
new_jp_graph coinbase broadness = add_node coinbase (blank_graph coinbase broadness)

blank-lost :
    (broadness i : ℕ) (r : Round)
    → get_elem? (new_round broadness 0 ∷ []) i ≡ some r
    → (h : Hash) → AllWait [] h (waiting_for h r.lost_dict)
unfolding new_round lookup
blank-lost broadness zero r e h = let same : new_round broadness 0 ≡ r = cc in rw (← same) tt
blank-lost broadness (suc i) r e h = cc

-- A new graph has one column, this node's own with number 0, and every link in it is right.
pub new_jp_graph_lem :
    (coinbase : Address) (broadness : ℕ)
    → IsNumbered (new_jp_graph coinbase broadness)
      × IsWellLinked (new_jp_graph coinbase broadness)
      × (lookup coinbase (new_jp_graph coinbase broadness).graph
          ≡ some (record { hash_chain = []; ver_top = none; seq_num = 0 }))
unfolding new_jp_graph lookup
new_jp_graph_lem coinbase broadness =
    let blank = blank_graph coinbase broadness in
    let numbered : IsNumbered blank = record { numbered = tt; majority = inl refl } in
    let linked : IsWellLinked blank = record {
      linked = λ p q e. cc;
      chained = λ a c e. cc;
      lost = blank-lost broadness;
    } in
    (
      (add_node-IsNumbered coinbase blank numbered).0,
      add_node-WellLinked coinbase blank linked,
      lookup-insert_self coinbase _ [],
    )
