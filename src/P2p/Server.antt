-- ===== src/P2p/Server.antt =====
-- The loop of `Server.run` in p2p/server.go with the calls that it serves: the table of peers is
-- changed by this loop alone, one message of its channels at a time.
pub mod Laws
use go_hashgrid.Common.{
  ℕ, zero, suc, ◌+◌, ◌-◌, ◌*◌, ◌/◌, ◌%◌, ◌^◌, ◌≤◌, ◌<◌, ◌≡◌, refl, sym, ap, subst, ◌∙◌, ◌≢◌, ◌↔◌,
  ◌⊎◌, inl, inr, Bool, true, false, not, ◌&&◌, ◌||◌, Option, none, some, List, [], ◌∷◌, ◌++◌, map,
  arith, ltb, leb, ◌==◌, if◌then◌else◌, ltb→lt, lt→ltb, leb→le, ==_iff, Bool-cases, Option-cases,
  List-cases, length, get_elem?, set, get_or, take, drop, replicate, length-append, length-set,
  get_elem?-set_self, get_elem?-set_ne, length-take, length-drop, drop-nil, length-replicate,
  length-map, ℤ, pos, negsuc, eq_ℤ, eq_ℤ_iff, Bytes, bytes_eq, bytes_eq_iff, bytes_eq_refl,
  AllBytes, Outcome, done, panic, blocked, out_of_fuel, ◌>>=◌, ◌>>◌, >>=-eq-done, done-injective,
  lookup, insert, delete, lookup-insert, lookup-insert_self, lookup-insert_ne, lookup-delete,
  length-insert_new, length-insert_old,
}
use go_hashgrid.Types.Address
use go_hashgrid.Types.Address.{Address}
use go_hashgrid.Types.Hash.{Hash}
use go_hashgrid.Types.Big.{hash_big}

-- `conn`, known by the number of its socket.
pub record Conn : Type 0 where
  pub fd : ℕ
  pub id : Address

-- `running`, `quit` and the variable `peers` of `run`; `started` lists the connections whose
-- `runPeer` goroutine was started, oldest first, and `handled` those given to `HandleConn`.
pub record Server : Type 0 where
  pub running : Bool
  pub quit : Bool
  pub id : Address
  pub peers : List (Address × Conn)
  pub started : List Conn
  pub handled : List ℕ

-- What the loop receives; a dialled address comes with the socket that `net.Dial` gives, if any.
pub data Signal : Type 0 where
  quit_closed : Signal
  add_static : Option ℕ → Signal
  remove_static : Signal
  peer_op : Signal
  add_peer : Conn → Signal
  del_peer : Address → Signal

-- One turn of the loop.
unfoldable pub serve : Signal → Server → Server
serve quit_closed s = record s { running = false }
serve (add_static none) s = s
serve (add_static (some fd)) s = record s { handled = s.handled ++ fd ∷ [] }
serve remove_static s = s
serve peer_op s = s
serve (add_peer c) s = elim (lookup c.id s.peers) [
  | some _ ↦ s
  | none ↦ record s { started = s.started ++ c ∷ []; peers = insert c.id c s.peers }
]
serve (del_peer a) s = record s { peers = delete a s.peers }

-- The loop ends at the first signal after `quit` is closed.
unfoldable pub run : List Signal → Server → Server
unfolding serve
run [] s = s
run (g ∷ gs) s = let rest = run gs (serve g s) in if s.running then rest else s

-- `FindPeer`, answered by the loop; once `quit` is closed, the source may give nil in its place.
unfoldable pub find_peer : Address → Server → Option Conn
find_peer a s = lookup a s.peers

-- `PeerCount`
unfoldable pub peer_count : Server → ℕ
peer_count s = length s.peers

-- What `HandleConn` does with a connection on which the handshake gave `recv`, or an error.
pub data Verdict : Type 0 where
  closed : Verdict
  rejected : Verdict
  offered : Conn → Verdict

-- `HandleConn` after `protoHandshake`; `found` is the result of `FindPeer`.
unfoldable pub handle_conn : ℕ → Option Address → Server → Verdict
unfolding find_peer Address.compare
handle_conn fd none s = closed
handle_conn fd (some recv) s =
    if eq_ℤ (Address.compare recv s.id) (pos 0) then closed else elim (find_peer recv s) [
      | some _ ↦ closed
      | none ↦ if s.quit then rejected else offered (record { fd = fd; id = recv })
    ]

pub data RequestError : Type 0 where
  wrong_coinbase invalid_hash : RequestError

-- `RequestEvent` up to `Send`: the connection that the request for the hash goes to.
unfoldable pub request_event : Address → Hash → Server → RequestError ⊎ (Conn × Hash)
unfolding find_peer hash_big
request_event base h s = elim (find_peer base s) [
  | none ↦ inl wrong_coinbase
  | some c ↦ if hash_big h == 0 then inl invalid_hash else inr (c, h)
]

-- `Peers`, in the map's order.
unfoldable pub peers : Server → List Conn
peers s = map (λ x. x.1) s.peers

-- The connection that `GossipEvent` sends to, with `to` for the random index; `none` is its error.
unfoldable pub gossip_event : ℕ → Server → Option Conn
unfolding peers
gossip_event to s = get_elem? (peers s) to

-- The connections that `BroadcastEvent` sends to, in the map's order; `none` is its error.
unfoldable pub broadcast_event : Server → Option (List Conn)
unfolding peers
broadcast_event s = if length (peers s) == 0 then none else some (peers s)
