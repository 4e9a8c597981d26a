-- ===== src/P2p/Lifecycle.antt =====
-- `Start`, `Stop`, `startListening`, `listenLoop`, `AddPeer` and `RemovePeer` of p2p/server.go.
pub mod Laws
use go_hashgrid.Common.{
  ℕ, zero, suc, ◌+◌, ◌-◌, ◌*◌, ◌/◌, ◌%◌, ◌^◌, ◌≤◌, ◌<◌, ◌≡◌, refl, sym, ap, subst, ◌∙◌, ◌≢◌, ◌↔◌,
  ◌⊎◌, inl, inr, Bool, true, false, not, ◌&&◌, ◌||◌, Option, none, some, List, [], ◌∷◌, ◌++◌, map,
  arith, ltb, leb, ◌==◌, if◌then◌else◌, ltb→lt, lt→ltb, leb→le, ==_iff, Bool-cases, Option-cases,
  List-cases, length, get_elem?, set, get_or, take, drop, replicate, length-append, length-set,
  get_elem?-set_self, get_elem?-set_ne, length-take, length-drop, drop-nil, length-replicate,
  length-map, ℤ, pos, negsuc, eq_ℤ, eq_ℤ_iff, Bytes, bytes_eq, bytes_eq_iff, bytes_eq_refl,
  AllBytes, Outcome, done, panic, blocked, out_of_fuel, ◌>>=◌, ◌>>◌, >>=-eq-done, done-injective,
  lookup, insert, delete, lookup-insert, lookup-insert_self, lookup-insert_ne, lookup-delete,
  length-insert_new, length-insert_old,
}
use go_hashgrid.Types.Address.{Address, zero_address}

-- What the node is started with: `GlobalConfig` of core/types.go. A text is the list of its bytes.
pub record GlobalConfig : Type 0 where
  pub inter_milli : ℤ
  pub addr : Bytes
  pub coinbase : Address
  pub peers : List Bytes

-- A channel that is only closed, or a listener: not made, in use, or closed.
pub data Handle : Type 0 where
  unmade live shut : Handle

-- The fields of `Server` that `Start` and `Stop` use: `loops` is the counter of `loopWG`, and
-- `static` lists the addresses sent on `addstatic`, oldest first.
pub record Host : Type 0 where
  pub running : Bool
  pub quit : Handle
  pub listener : Handle
  pub listen_addr : Bytes
  pub id : Address
  pub loops : ℕ
  pub static : List Bytes

-- `&p2p.Server{}`
abbrev pub new_host : Host
new_host = record {
  running = false;
  quit = unmade;
  listener = unmade;
  listen_addr = [];
  id = zero_address;
  loops = 0;
  static = [];
}

pub data StartError : Type 0 where
  already_running listen_failed : StartError

-- `startListening`, where `laddr` is the address that `net.Listen` is bound to, if it succeeds.
unfoldable pub start_listening : Option Bytes → Host → Option Host
start_listening none h = none
start_listening (some laddr) h =
    some (record h { listen_addr = laddr; listener = live; loops = h.loops + 1 })

-- The end of `Start`: the loop is started and the peers of the configuration are sent to it.
unfoldable pub start_loop : GlobalConfig → Host → Host
start_loop cfg h = record h { loops = h.loops + 1; running = true; static = h.static ++ cfg.peers }

-- The fields that `Start` sets first.
unfoldable pub configured : GlobalConfig → Host → Host
configured cfg h = record h { quit = live; listen_addr = cfg.addr; id = cfg.coinbase }

-- `Start`: its error, if any, and the server afterwards.
unfoldable pub start : GlobalConfig → Option Bytes → Host → Option StartError × Host
unfolding start_listening start_loop configured
start cfg laddr h =
    let c = configured cfg h in
    if h.running
    then (some already_running, h)
    else if length cfg.addr == 0
    then (none, start_loop cfg c)
    else elim (start_listening laddr c) [
      | none ↦ (some listen_failed, c)
      | some l ↦ (none, start_loop cfg l)
    ]

-- `listener.Close()`
abbrev pub close_listener : Handle → Handle
close_listener unmade = unmade
close_listener live = shut
close_listener shut = shut

-- `close(quit)`: closing a nil channel or a closed one panics.
abbrev pub close_quit : Handle → Outcome Handle
close_quit unmade = panic
close_quit live = done shut
close_quit shut = panic

abbrev pub is_live : Handle → Bool
is_live unmade = false
is_live live = true
is_live shut = false

abbrev pub is_shut : Handle → Bool
is_shut unmade = false
is_shut live = false
is_shut shut = true

-- `loopWG.Wait()`: `run` returns once `quit` is closed, and `listenLoop` once its listener is; if one
-- of them goes on, the wait has no end.
unfoldable pub wait_loops : Handle → Handle → ℕ → Outcome ℕ
wait_loops quit listener loops =
    if (loops == 0) || (is_shut quit && not (is_live listener)) then done 0 else blocked

-- `Stop`
unfoldable pub stop : Host → Outcome Host
unfolding wait_loops
stop h =
    if not h.running
    then done h
    else (close_quit h.quit >>= λ quit.
        let listener = close_listener h.listener in
        wait_loops quit listener h.loops >>= λ loops.
        done (record h { running = false; listener = listener; quit = quit; loops = loops }))

-- The sockets that `listenLoop` gives to `HandleConn`, of what `Accept` returns, up to its first
-- error.
unfoldable pub listen_loop : List (Option ℕ) → List ℕ
listen_loop [] = []
listen_loop (none ∷ rest) = []
listen_loop (some fd ∷ rest) = fd ∷ listen_loop rest

-- `AddPeer`: the address is sent to the loop, or dropped if the server has been stopped; before the
-- first `Start` both channels are nil.
unfoldable pub add_node_addr : Bytes → Host → Outcome Host
add_node_addr a h = elim h.quit [
  | unmade ↦ blocked
  | live ↦ done (record h { static = h.static ++ a ∷ [] })
  | shut ↦ done h
]

-- `RemovePeer`: the loop does nothing with what it is sent.
unfoldable pub remove_node_addr : Bytes → Host → Outcome Host
remove_node_addr a h = elim h.quit [ unmade ↦ blocked | live ↦ done h | shut ↦ done h ]

-- A call of the server's methods.
pub data Call : Type 0 where
  start_call : GlobalConfig → Option Bytes → Call
  stop_call : Call

unfoldable pub apply : Call → Host → Outcome Host
unfolding start stop
apply (start_call cfg laddr) h = done (start cfg laddr h).1
apply stop_call h = stop h

unfoldable pub apply_all : List Call → Host → Outcome Host
unfolding apply
apply_all [] h = done h
apply_all (c ∷ cs) h = apply c h >>= λ h'. apply_all cs h'
