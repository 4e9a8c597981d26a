-- ===== src/P2p/Reader.antt =====
-- `readLoop`, `pingLoop` and `run` of p2p/peer.go, and `runPeer` of p2p/server.go.
pub mod Order
pub mod Ends
pub mod Removal
use go_hashgrid.Common.{
  ℕ, zero, suc, ◌+◌, ◌-◌, ◌*◌, ◌/◌, ◌%◌, ◌^◌, ◌≤◌, ◌<◌, ◌≡◌, refl, sym, ap, subst, ◌∙◌, ◌≢◌, ◌↔◌,
  ◌⊎◌, inl, inr, Bool, true, false, not, ◌&&◌, ◌||◌, Option, none, some, List, [], ◌∷◌, ◌++◌, map,
  arith, ltb, leb, ◌==◌, if◌then◌else◌, ltb→lt, lt→ltb, leb→le, ==_iff, Bool-cases, Option-cases,
  List-cases, length, get_elem?, set, get_or, take, drop, replicate, length-append, length-set,
  get_elem?-set_self, get_elem?-set_ne, length-take, length-drop, drop-nil, length-replicate,
  length-map, ℤ, pos, negsuc, eq_ℤ, eq_ℤ_iff, Bytes, bytes_eq, bytes_eq_iff, bytes_eq_refl,
  AllBytes, Outcome, done, panic, blocked, out_of_fuel, ◌>>=◌, ◌>>◌, >>=-eq-done, done-injective,
  lookup, insert, delete, lookup-insert, lookup-insert_self, lookup-insert_ne, lookup-delete,
  length-insert_new, length-insert_old,
}
use go_hashgrid.Types.Address.{Address}
use go_hashgrid.Jigsaw.State.{JpGraph}
use go_hashgrid.P2p.Frame.{Msg, FrameError, eof, read_msg}
use go_hashgrid.P2p.Message.{Rlp, SendError, send}
use go_hashgrid.P2p.Peer.{Codec, Reaction, failed, handle, ping_msg}
use go_hashgrid.P2p.Server.{Conn, Signal, del_peer}

-- What `readLoop` sends on its error channel: an error of `ReadMsg`, or one of `handle`.
pub data PeerError : Type 0 where
  unread : FrameError → PeerError
  refused : PeerError

-- A run of `readLoop`: its error, what was sent back on the way, and the graph.
pub record Reading : Type 0 where
  pub error : PeerError
  pub reactions : List Reaction
  pub graph : JpGraph

-- The rest of a turn after `handle`, with `next` for the turns that follow.
unfoldable pub after_handle : (JpGraph → Outcome Reading) → Reaction × JpGraph → Outcome Reading
after_handle next (failed, jp) =
    done (record { error = refused; reactions = failed ∷ []; graph = jp })
after_handle next (x, jp) = next jp >>= λ r. done (record r { reactions = x ∷ r.reactions })

-- `readLoop` on a connection that delivers `stream`; the first argument bounds the messages.
unfoldable pub read_loop : ℕ → Codec → Bytes → JpGraph → Outcome Reading
unfolding after_handle
read_loop zero c stream jp = out_of_fuel
read_loop (suc fuel) c stream jp = read_msg true stream >>= λ got. elim got [
  | inl e ↦ done (record { error = unread e; reactions = []; graph = jp })
  | inr (msg, rest) ↦ (handle c msg jp >>= after_handle (read_loop fuel c rest))
]

-- How `run` goes on after an error: it returns it, or goes on waiting, for there is no other.
pub data RunEnd : Type 0 where
  waiting : RunEnd
  returned : PeerError → RunEnd

-- `run`: the text of the error is "EOF" where the connection ended before a message, or right after
-- the header of one that has a payload.
unfoldable pub peer_run : PeerError → RunEnd
peer_run (unread eof) = waiting
peer_run (unread e) = returned (unread e)
peer_run refused = returned refused

-- `Peer`; its graph, which is that of the node, is an argument of `read_loop`.
pub record Peer : Type 0 where
  pub rw : Conn
  pub closed : Bool

unfoldable pub new_peer : Conn → Peer
new_peer c = record { rw = c; closed = false }

-- `ID`
unfoldable pub peer_id : Peer → Address
peer_id p = p.rw.id

-- What `run` leaves of the peer where it returns: its channel `closed` is closed, and no loop pings.
unfoldable pub after_run : Peer → PeerError → Peer
unfolding peer_run
after_run p e = elim (peer_run e) [ waiting ↦ p | returned _ ↦ record p { closed = true } ]

-- What `runPeer` sends to the server's loop.
unfoldable pub run_peer : Peer → PeerError → List Signal
unfolding peer_run peer_id
run_peer p e = elim (peer_run e) [ waiting ↦ [] | returned _ ↦ del_peer (peer_id p) ∷ [] ]

pub data PingSignal : Type 0 where
  tick closed : PingSignal

-- `pingLoop`: the results of its calls of `Send`, each with the address of the peer itself.
unfoldable pub ping_loop : Rlp → Bool → Peer → List PingSignal → Outcome (List (SendError ⊎ Bytes))
unfolding peer_id
ping_loop r up p [] = done []
ping_loop r up p (closed ∷ gs) = done []
ping_loop r up p (tick ∷ gs) = send up ping_msg 0 (r.encode_address (peer_id p)) >>= λ sent.
    ping_loop r up p gs >>= λ rest. done (sent ∷ rest)
