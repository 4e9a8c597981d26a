-- ===== src/Hgrid/Laws.antt =====
-- A node starts with sound parts, or not at all.
use go_hashgrid.Common.{
  ℕ, ◌≡◌, refl, ap, ◌⊎◌, inl, inr, Option, [], ◌∷◌, insert, List-cases, length, Bytes, done, panic,
  lookup,
}
use go_hashgrid.Jigsaw.AddEvent.Place.{IsWellLinked}
use go_hashgrid.Jigsaw.AddEvent.Chains.{IsDescending, new-IsDescending}
use go_hashgrid.Jigsaw.AddEvent.Placed.{IsPlaced, new-IsPlaced}
use go_hashgrid.Jigsaw.Columns.Numbering.{IsNumbered}
use go_hashgrid.Jigsaw.Create.{new_jp_graph, new_jp_graph_lem}
use go_hashgrid.Round.Rounds.{new_round}
use go_hashgrid.Round.Loop.Laws.{IsStacked}
use go_hashgrid.P2p.Lifecycle.{GlobalConfig, new_host}
use go_hashgrid.P2p.Lifecycle.Laws.{IsSound, start-IsSound}
use go_hashgrid.Node.{NodeLoop}
use go_hashgrid.Hgrid.{Node, new_node, event_handle, Unmarshal, start_node, initialize, main}

-- The parts of a node that has just been made from a configuration.
pub record Fresh (gc : GlobalConfig) (nd : Node) (nl : NodeLoop) : Type 0 where
  pub numbered : IsNumbered nl.jigsaw
  pub linked : IsWellLinked nl.jigsaw
  pub descending : IsDescending nl.jigsaw
  pub placed : IsPlaced nl.jigsaw
  pub stacked : IsStacked nl.jigsaw
  pub alone : length nl.jigsaw.graph ≡ 1
  pub front : nl.jigsaw.queue ≡ new_round (length gc.peers) 0 ∷ []
  pub current : nl.jigsaw.current_idx ≡ 0
  pub sized : nl.jigsaw.broadness ≡ length gc.peers
  pub author : nl.jigsaw.coinbase ≡ gc.coinbase
  pub idle : nl.adds ≡ []
  pub sound : IsSound nd.server

new-IsStacked : (a : Bytes) (n : ℕ) → IsStacked (new_jp_graph a n)
unfolding new_jp_graph lookup
new-IsStacked a n = (refl, refl)

new-rounds :
    (a : Bytes) (n : ℕ)
    → (length (new_jp_graph a n).graph ≡ 1)
      × ((new_jp_graph a n).queue ≡ new_round n 0 ∷ [])
      × ((new_jp_graph a n).current_idx ≡ 0)
unfolding new_jp_graph lookup insert
new-rounds a n = (refl, refl, refl)

new-broadness : (a : Bytes) (n : ℕ) → (new_jp_graph a n).broadness ≡ n
unfolding new_jp_graph lookup
new-broadness a n = refl

new-coinbase : (a : Bytes) (n : ℕ) → (new_jp_graph a n).coinbase ≡ a
unfolding new_jp_graph lookup
new-coinbase a n = refl

new_node-Fresh :
    (gc : GlobalConfig) (laddr : Option Bytes)
    → Fresh gc (new_node gc laddr) (event_handle (new_node gc laddr))
unfolding new_node event_handle
new_node-Fresh gc laddr =
    let made = new_jp_graph_lem gc.coinbase (length gc.peers) in
    let rounds = new-rounds gc.coinbase (length gc.peers) in
    record {
      numbered = made.0;
      linked = made.1;
      descending = new-IsDescending gc.coinbase (length gc.peers);
      placed = new-IsPlaced gc.coinbase (length gc.peers);
      stacked = new-IsStacked gc.coinbase (length gc.peers);
      alone = rounds.0;
      front = rounds.1;
      current = rounds.2;
      sized = new-broadness gc.coinbase (length gc.peers);
      author = new-coinbase gc.coinbase (length gc.peers);
      idle = refl;
      sound = start-IsSound gc laddr new_host (inr (refl, refl));
    }

-- `main` either panics, since the configuration that it read, or could not read, names no peers; or
-- it starts the loop of a node whose graph is rightly linked and has one column, `broadness` at the number
-- of peers, and round 0 as its only round, with nothing to add yet, and whose server is
-- running or has no loop.
pub main-Fresh :
    (u : Unmarshal) (file laddr : Option Bytes)
    → (((initialize u file).peers ≡ []) × (main u file laddr ≡ panic))
      ⊎ ((nd : Node) × (nl : NodeLoop) × (main u file laddr ≡ done (nd, nl))
          × Fresh (initialize u file) nd nl)
unfolding main
main-Fresh u file laddr = elim (List-cases (initialize u file).peers) [
  | inl e ↦ inl (e, ap (start_node (initialize u file) laddr) e)
  | inr (p, ps, e) ↦
      let gc = initialize u file in
      inr (
        new_node gc laddr,
        event_handle (new_node gc laddr),
        ap (start_node gc laddr) e,
        new_node-Fresh gc laddr,
      )
]
