-- ===== src/P2p/Handshake.antt =====
-- `protoHandshake` of p2p/server.go, and `HandleConn` with it.
pub mod Laws
use go_hashgrid.Common.{
  ℕ, zero, suc, ◌+◌, ◌-◌, ◌*◌, ◌/◌, ◌%◌, ◌^◌, ◌≤◌, ◌<◌, ◌≡◌, refl, sym, ap, subst, ◌∙◌, ◌≢◌, ◌↔◌,
  ◌⊎◌, inl, inr, Bool, true, false, not, ◌&&◌, ◌||◌, Option, none, some, List, [], ◌∷◌, ◌++◌, map,
  arith, ltb, leb, ◌==◌, if◌then◌else◌, ltb→lt, lt→ltb, leb→le, ==_iff, Bool-cases, Option-cases,
  List-cases, length, get_elem?, set, get_or, take, drop, replicate, length-append, length-set,
  get_elem?-set_self, get_elem?-set_ne, length-take, length-drop, drop-nil, length-replicate,
  length-map, ℤ, pos, negsuc, eq_ℤ, eq_ℤ_iff, Bytes, bytes_eq, bytes_eq_iff, bytes_eq_refl,
  AllBytes, Outcome, done, panic, blocked, out_of_fuel, ◌>>=◌, ◌>>◌, >>=-eq-done, done-injective,
  lookup, insert, delete, lookup-insert, lookup-insert_self, lookup-insert_ne, lookup-delete,
  length-insert_new, length-insert_old,
}
use go_hashgrid.Types.Address
use go_hashgrid.Types.Address.{Address}
use go_hashgrid.P2p.Frame.{Msg, FrameError, read_msg}
use go_hashgrid.P2p.Message.{Rlp, SendError, send}
use go_hashgrid.P2p.Peer.{Codec}
use go_hashgrid.P2p.Server.{Server, Verdict, handle_conn}

abbrev pub handshake_msg : ℕ
handshake_msg = 0

pub data HandshakeError : Type 0 where
  unread : FrameError → HandshakeError
  same_id : HandshakeError

-- What `protoHandshake` makes of the message that it has read.
unfoldable pub check_id : Codec → Address → Msg → HandshakeError ⊎ Address
check_id c own msg =
    let recv = c.address_of msg.payload in
    if eq_ℤ (Address.compare recv own) (pos 0) then inl same_id else inr recv

-- `protoHandshake` of a node on a connection that delivers `stream`: the result of `Send`, which
-- the code drops, and its own.
unfoldable pub proto_handshake :
    Rlp → Codec → Address → Bytes → Outcome ((SendError ⊎ Bytes) × (HandshakeError ⊎ Address))
unfolding check_id
proto_handshake r c own stream = send true handshake_msg 0 (r.encode_address own) >>= λ sent.
    read_msg true stream >>= λ got.
    done (sent, elim got [ inl e ↦ inl (unread e) | inr (msg, rest) ↦ check_id c own msg ])

-- The address that `HandleConn` goes on with, where there is no error.
abbrev pub received : HandshakeError ⊎ Address → Option Address
received (inl e) = none
received (inr a) = some a

-- `HandleConn` on the socket fd, which delivers `stream`.
unfoldable pub accept_conn : Rlp → Codec → ℕ → Bytes → Server → Outcome Verdict
unfolding proto_handshake
accept_conn r c fd stream s =
    proto_handshake r c s.id stream >>= λ (sent, id). done (handle_conn fd (received id) s)
