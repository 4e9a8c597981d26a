-- ===== src/System.antt =====
-- A whole node: the loop of node/node.go, the calls of `AddEvent` that it has started, the messages
-- of the peers, and the two loops of core/round.go that change the graph, in any order, one call
-- after another.
pub mod Calm
pub mod Calls
pub mod Turns
pub mod Looks
pub mod Monitoring
pub mod Numbers
pub mod Safe
pub mod Contents
pub mod Seeing
pub mod Progress
use go_hashgrid.Common.{
  ℕ, zero, suc, ◌+◌, ◌-◌, ◌*◌, ◌/◌, ◌%◌, ◌^◌, ◌≤◌, ◌<◌, ◌≡◌, refl, sym, ap, subst, ◌∙◌, ◌≢◌, ◌↔◌,
  ◌⊎◌, inl, inr, Bool, true, false, not, ◌&&◌, ◌||◌, Option, none, some, List, [], ◌∷◌, ◌++◌, map,
  arith, ltb, leb, ◌==◌, if◌then◌else◌, ltb→lt, lt→ltb, leb→le, ==_iff, Bool-cases, Option-cases,
  List-cases, length, get_elem?, set, get_or, take, drop, replicate, length-append, length-set,
  get_elem?-set_self, get_elem?-set_ne, length-take, length-drop, drop-nil, length-replicate,
  length-map, ℤ, pos, negsuc, eq_ℤ, eq_ℤ_iff, Bytes, bytes_eq, bytes_eq_iff, bytes_eq_refl,
  AllBytes, Outcome, done, panic, blocked, out_of_fuel, ◌>>=◌, ◌>>◌, >>=-eq-done, done-injective,
  lookup, insert, delete, lookup-insert, lookup-insert_self, lookup-insert_ne, lookup-delete,
  length-insert_new, length-insert_old,
}
use go_hashgrid.Types.Event.{Event, Hasher}
use go_hashgrid.Jigsaw.State.{JpGraph, Round}
use go_hashgrid.Jigsaw.AddEvent.{add_event}
use go_hashgrid.Round.Loop.{RoundSignal, round_step}
use go_hashgrid.Round.Monitor.{monitor_step}
use go_hashgrid.P2p.Frame.{Msg}
use go_hashgrid.P2p.Peer.{Codec, Reaction, handle}
use go_hashgrid.Node.{NodeLoop, NodeSignal, node_step}

-- The variables of the three loops: `wtriggered` of `RoundLoop`, with how often it has started
-- `WitnessFame`, and `roundNum` of `MonitorLoop`.
pub record System : Type 0 where
  pub loop : NodeLoop
  pub fames : ℕ
  pub wtriggered : Bool
  pub round_num : ℕ

abbrev pub with_graph : System → JpGraph → System
with_graph s jp = record s { loop = record s.loop { jigsaw = jp } }

-- One step of the node, and what a loop receives is arbitrary. Each call of the code is one step: a
-- started `AddEvent` may run late and after others, but while it runs nothing else does, and every
-- value that it sends finds room in its channel. In the source two calls can also overlap.
pub data Step (k : Hasher) (c : Codec) (s t : System) : Type 0 where
  turn :
      (g : NodeSignal) (nd : NodeLoop)
      → node_step k g s.loop ≡ done nd
      → t ≡ record s { loop = nd }
      → Step k c s t
  add :
      (xs ys : List (Event × ℕ)) (e : Event) (ty : ℕ) (b : Bool) (jp : JpGraph)
      → s.loop.adds ≡ xs ++ (e, ty) ∷ ys
      → add_event k e ty s.loop.jigsaw ≡ done (b, jp)
      → t ≡ record s { loop = record s.loop { jigsaw = jp; adds = xs ++ ys } }
      → Step k c s t
  message :
      (msg : Msg) (r : Reaction) (jp : JpGraph)
      → handle c msg s.loop.jigsaw ≡ done (r, jp)
      → t ≡ with_graph s jp
      → Step k c s t
  round_turn :
      (g : RoundSignal) (n : ℕ) (w : Bool) (jp : JpGraph)
      → round_step g s.fames s.wtriggered s.loop.jigsaw ≡ done (n, w, jp)
      → t ≡ record (with_graph s jp) { fames = n; wtriggered = w }
      → Step k c s t
  monitor_turn :
      (fuel : ℕ) (rd : Round) (p n : ℕ) (jp : JpGraph)
      → monitor_step fuel rd p s.round_num s.loop.jigsaw ≡ done (n, jp)
      → t ≡ record (with_graph s jp) { round_num = n }
      → Step k c s t

-- What the node can come to from a state, where no two calls overlap.
pub data Run (k : Hasher) (c : Codec) (s : System) : System → Type 0 where
  here : Run k c s s
  next : {t u : System} → Run k c s t → Step k c t u → Run k c s u
