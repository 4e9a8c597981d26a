-- ===== src/P2p/Message.antt =====
-- `Send` and `Discard` of p2p/message.go.
pub mod Laws
use go_hashgrid.Common.{
  ℕ, zero, suc, ◌+◌, ◌-◌, ◌*◌, ◌/◌, ◌%◌, ◌^◌, ◌≤◌, ◌<◌, ◌≡◌, refl, sym, ap, subst, ◌∙◌, ◌≢◌, ◌↔◌,
  ◌⊎◌, inl, inr, Bool, true, false, not, ◌&&◌, ◌||◌, Option, none, some, List, [], ◌∷◌, ◌++◌, map,
  arith, ltb, leb, ◌==◌, if◌then◌else◌, ltb→lt, lt→ltb, leb→le, ==_iff, Bool-cases, Option-cases,
  List-cases, length, get_elem?, set, get_or, take, drop, replicate, length-append, length-set,
  get_elem?-set_self, get_elem?-set_ne, length-take, length-drop, drop-nil, length-replicate,
  length-map, ℤ, pos, negsuc, eq_ℤ, eq_ℤ_iff, Bytes, bytes_eq, bytes_eq_iff, bytes_eq_refl,
  AllBytes, Outcome, done, panic, blocked, out_of_fuel, ◌>>=◌, ◌>>◌, >>=-eq-done, done-injective,
  lookup, insert, delete, lookup-insert, lookup-insert_self, lookup-insert_ne, lookup-delete,
  length-insert_new, length-insert_old,
}
use go_hashgrid.Types.Address.{Address}
use go_hashgrid.Types.Hash.{Hash}
use go_hashgrid.Types.Event.{Event}
use go_hashgrid.P2p.Frame.{Msg, FrameError, write_msg}

-- What `rlp.EncodeToReader` delivers, or its error: for an event with the number behind its
-- `RoundID`, a hash and an address.
pub record Rlp : Type 0 where
  pub encode_event : Event → Option ℤ → Option Bytes
  pub encode_hash : Hash → Option Bytes
  pub encode_address : Address → Option Bytes

pub data SendError : Type 0 where
  not_encoded : SendError
  not_written : FrameError → SendError

abbrev pub written : FrameError ⊎ Bytes → SendError ⊎ Bytes
written (inl e) = inl (not_written e)
written (inr b) = inr b

-- `Send` of what was encoded; the size is cut to a uint32.
unfoldable pub send : Bool → ℕ → ℕ → Option Bytes → Outcome (SendError ⊎ Bytes)
send up code ty none = done (inl not_encoded)
send up code ty (some p) =
    write_msg up (record { code = code; type = ty; size = length p % 2 ^ 32; payload = p }) >>= λ r.
    done (written r)

-- `Discard`: nothing of the payload is left.
unfoldable pub discard : Msg → Msg
discard msg = record msg { payload = [] }
