-- ===== src/P2p/Handshake/Laws.antt =====
-- Two nodes that connect learn each other's address.
use go_hashgrid.Common.{
  ℕ, ◌^◌, ◌<◌, ◌≡◌, refl, sym, ap, ◌≢◌, inl, inr, true, false, none, some, ◌++◌, arith, Bool-cases,
  length, pos, eq_ℤ, eq_ℤ_iff, Bytes, done,
}
use go_hashgrid.Types.Address
use go_hashgrid.Types.Address.{Address, IsAddress}
use go_hashgrid.Types.Laws.{Address_compare-order}
use go_hashgrid.P2p.Frame.{Msg}
use go_hashgrid.P2p.Frame.Laws.{frame_of, read_msg-frame_of}
use go_hashgrid.P2p.Message.{Rlp, send}
use go_hashgrid.P2p.Message.Laws.{send-frame_of}
use go_hashgrid.P2p.Peer.{Codec}
use go_hashgrid.P2p.Server.{Server, offered, closed, handle_conn, find_peer}
use go_hashgrid.P2p.Handshake.{handshake_msg, same_id, check_id, proto_handshake, accept_conn}

-- An address has an encoding that fits in a frame and is decoded to the address.
pub record Named (r : Rlp) (c : Codec) (a : Address) : Type 0 where
  pub bytes : Bytes
  pub encoded : r.encode_address a ≡ some bytes
  pub small : length bytes < 2 ^ 16
  pub decoded : c.address_of bytes ≡ a
  pub proper : IsAddress a

-- Whatever the code and the type of the message, its payload is taken for the peer's address.
proto_handshake-frame_of :
    (r : Rlp) (c : Codec) (own : Address) (code ty : ℕ) (p rest : Bytes)
    → Named r c own
    → ty < 2 ^ 16
    → length p < 2 ^ 16
    → (frame : Bytes) × (proto_handshake r c own (frame_of code ty p ++ rest)
        ≡ done (
          inr frame,
          check_id c own (record { code = code; type = ty; size = length p; payload = p }),
        ))
unfolding proto_handshake
proto_handshake-frame_of r c own code ty p rest n small_type small = (
  frame_of handshake_msg 0 n.bytes,
  rw n.encoded (
      rw (send-frame_of handshake_msg 0 n.bytes n.small)
        (rw (read_msg-frame_of code ty p rest small_type small))),
)

abbrev greeting : Bytes → Msg
greeting p = record { code = handshake_msg; type = 0; size = length p; payload = p }

check_id-other :
    (c : Codec) (own a : Address) (msg : Msg)
    → IsAddress own
    → IsAddress a
    → c.address_of msg.payload ≡ a
    → a ≢ own
    → check_id c own msg ≡ inr a
unfolding check_id
check_id-other c own a msg p q is differ =
    let zero_iff = (Address_compare-order a own own q p p).0 in
    elim (Bool-cases (eq_ℤ (Address.compare a own) (pos 0))) [
      | inl e ↦ absurd (differ (zero_iff.0 ((eq_ℤ_iff (Address.compare a own) (pos 0)).0 e)))
      | inr e ↦ rw is (rw e)
    ]

compare_self : (a : Address) → IsAddress a → eq_ℤ (Address.compare a a) (pos 0) ≡ true
compare_self a p =
    (eq_ℤ_iff (Address.compare a a) (pos 0)).1 ((Address_compare-order a a a p p p).0.1 refl)

check_id-own :
    (c : Codec) (own : Address) (msg : Msg)
    → IsAddress own
    → c.address_of msg.payload ≡ own
    → check_id c own msg ≡ inl same_id
unfolding check_id
check_id-own c own msg p is = rw is (rw (compare_self own p))

handle_conn-other :
    (fd : ℕ) (a : Address) (s : Server)
    → IsAddress s.id
    → IsAddress a
    → a ≢ s.id
    → find_peer a s ≡ none
    → s.quit ≡ false
    → handle_conn fd (some a) s ≡ offered (record { fd = fd; id = a })
unfolding handle_conn
handle_conn-other fd a s p q differ new on =
    let zero_iff = (Address_compare-order a s.id s.id q p p).0 in
    elim (Bool-cases (eq_ℤ (Address.compare a s.id) (pos 0))) [
      | inl e ↦ absurd (differ (zero_iff.0 ((eq_ℤ_iff (Address.compare a s.id) (pos 0)).0 e)))
      | inr e ↦ rw e (rw (new, on, handle_conn))
    ]

accept_conn-other :
    (r : Rlp) (c : Codec) (fd : ℕ) (rest : Bytes) (s : Server) (a : Address)
    → Named r c s.id
    → (m : Named r c a) → a ≢ s.id
    → find_peer a s ≡ none
    → s.quit ≡ false
    → accept_conn r c fd (frame_of handshake_msg 0 m.bytes ++ rest) s
      ≡ done (offered (record { fd = fd; id = a }))
unfolding accept_conn
accept_conn-other r c fd rest s a n m differ new on =
    let (sent, shook) =
      proto_handshake-frame_of r c s.id handshake_msg 0 m.bytes rest n (omega arith) m.small in
    let other = check_id-other c s.id a (greeting m.bytes) n.proper m.proper m.decoded differ in
    rw shook (rw other (ap done (handle_conn-other fd a s n.proper m.proper differ new on)))

accept_conn-own :
    (r : Rlp) (c : Codec) (fd : ℕ) (rest : Bytes) (s : Server)
    → (n : Named r c s.id)
    → accept_conn r c fd (frame_of handshake_msg 0 n.bytes ++ rest) s ≡ done closed
unfolding accept_conn handle_conn
accept_conn-own r c fd rest s n =
    let (sent, shook) =
      proto_handshake-frame_of r c s.id handshake_msg 0 n.bytes rest n (omega arith) n.small in
    let own = check_id-own c s.id (greeting n.bytes) n.proper n.decoded in rw shook (rw own)

-- Two nodes of different addresses, each without the other in its table and not about to stop: each
-- offers its loop the other one's connection when it reads the frame that the other one sends first,
-- whatever follows on the socket. A node that reads its own frame closes the connection.
pub accept_conn-send :
    (r : Rlp) (c : Codec) (fd gd : ℕ) (rest : Bytes) (s t : Server)
    → Named r c s.id
    → Named r c t.id
    → s.id ≢ t.id
    → find_peer t.id s ≡ none
    → find_peer s.id t ≡ none
    → s.quit ≡ false
    → t.quit ≡ false
    → (f g : Bytes) × (send true handshake_msg 0 (r.encode_address s.id) ≡ done (inr f))
      × (send true handshake_msg 0 (r.encode_address t.id) ≡ done (inr g))
      × (accept_conn r c fd (g ++ rest) s ≡ done (offered (record { fd = fd; id = t.id })))
      × (accept_conn r c gd (f ++ rest) t ≡ done (offered (record { fd = gd; id = s.id })))
      × (accept_conn r c fd (f ++ rest) s ≡ done closed)
accept_conn-send r c fd gd rest s t n m differ new_t new_s on_s on_t = (
  frame_of handshake_msg 0 n.bytes,
  frame_of handshake_msg 0 m.bytes,
  rw n.encoded (send-frame_of handshake_msg 0 n.bytes n.small),
  rw m.encoded (send-frame_of handshake_msg 0 m.bytes m.small),
  accept_conn-other r c fd rest s t.id n m (λ e. differ (sym e)) new_t on_s,
  accept_conn-other r c gd rest t s.id m n differ new_s on_t,
  accept_conn-own r c fd rest s n,
)
