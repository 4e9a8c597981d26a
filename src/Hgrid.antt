-- ===== src/Hgrid.antt =====
-- hgrid/main.go, and `NewNode` of node/node.go: what a node starts with.
pub mod Laws
use go_hashgrid.Common.{
  ℕ, zero, suc, ◌+◌, ◌-◌, ◌*◌, ◌/◌, ◌%◌, ◌^◌, ◌≤◌, ◌<◌, ◌≡◌, refl, sym, ap, subst, ◌∙◌, ◌≢◌, ◌↔◌,
  ◌⊎◌, inl, inr, Bool, true, false, not, ◌&&◌, ◌||◌, Option, none, some, List, [], ◌∷◌, ◌++◌, map,
  arith, ltb, leb, ◌==◌, if◌then◌else◌, ltb→lt, lt→ltb, leb→le, ==_iff, Bool-cases, Option-cases,
  List-cases, length, get_elem?, set, get_or, take, drop, replicate, length-append, length-set,
  get_elem?-set_self, get_elem?-set_ne, length-take, length-drop, drop-nil, length-replicate,
  length-map, ℤ, pos, negsuc, eq_ℤ, eq_ℤ_iff, Bytes, bytes_eq, bytes_eq_iff, bytes_eq_refl,
  AllBytes, Outcome, done, panic, blocked, out_of_fuel, ◌>>=◌, ◌>>◌, >>=-eq-done, done-injective,
  lookup, insert, delete, lookup-insert, lookup-insert_self, lookup-insert_ne, lookup-delete,
  length-insert_new, length-insert_old,
}
use go_hashgrid.Types.Address.{Address, zero_address}
use go_hashgrid.Jigsaw.State.{JpGraph, trans_un_handled}
use go_hashgrid.Jigsaw.Create.{new_jp_graph}
use go_hashgrid.P2p.Lifecycle.{GlobalConfig, Host, new_host, StartError, start}
use go_hashgrid.Node.{NodeLoop}

-- `Node` of node/node.go.
pub record Node : Type 0 where
  pub jigsaw : JpGraph
  pub server : Host
  pub interval : ℤ

-- `NewNode`; `laddr` is what `net.Listen` gives to `Start`, whose error is dropped.
unfoldable pub new_node : GlobalConfig → Option Bytes → Node
unfolding new_jp_graph start
new_node gc laddr = record {
  jigsaw = new_jp_graph gc.coinbase (length gc.peers);
  server = (start gc laddr new_host).1;
  interval = gc.inter_milli;
}

-- The variables of `EventHandle` before its loop.
unfoldable pub event_handle : Node → NodeLoop
event_handle nd = record {
  jigsaw = nd.jigsaw;
  et = none;
  ty = 0;
  round_comming = false;
  trans_seen = length (trans_un_handled nd.jigsaw);
  adds = [];
  broadcasts = [];
  requests = [];
}

pub data LoadError : Type 0 where
  not_read not_parsed : LoadError

-- `json.Unmarshal` into a configuration: what it leaves there, and whether it succeeds.
abbrev pub Unmarshal : Type 0
Unmarshal = Bytes → GlobalConfig → GlobalConfig × Bool

-- `ParseConfig.Load`, where `file` is what `ioutil.ReadFile` gives.
unfoldable pub load : Unmarshal → Option Bytes → GlobalConfig → Option LoadError × GlobalConfig
load u none gc = (some not_read, gc)
load u (some text) gc =
    let (gc', parsed) = u text gc in if parsed then (none, gc') else (some not_parsed, gc')

-- `core.GlobalConfig{}`
abbrev pub zero_config : GlobalConfig
zero_config = record { inter_milli = pos 0; addr = []; coinbase = zero_address; peers = [] }

-- `Initialize`: an error of `Load` is logged and no more.
unfoldable pub initialize : Unmarshal → Option Bytes → GlobalConfig
unfolding load
initialize u file = (load u file zero_config).1

-- The start of a node whose configuration names the peers given.
unfoldable pub start_node : GlobalConfig → Option Bytes → List Bytes → Outcome (Node × NodeLoop)
unfolding new_node event_handle
start_node gc laddr [] = panic
start_node gc laddr (p ∷ ps) = done (new_node gc laddr, event_handle (new_node gc laddr))

-- `main` up to the start of `EventHandle`: it logs `gc.Peers[0]`.
unfoldable pub main : Unmarshal → Option Bytes → Option Bytes → Outcome (Node × NodeLoop)
unfolding initialize start_node
main u file laddr = let gc = initialize u file in start_node gc laddr gc.peers
