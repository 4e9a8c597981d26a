-- ===== src/Types/Event.antt =====
-- Transactions, events and requests of core/types.go.
use go_hashgrid.Common.{ℕ, ◌≡◌, Option, List, [], ◌++◌, length, take, drop, ℤ}
use go_hashgrid.Types.Address.{Address}
use go_hashgrid.Types.Hash.{Hash}

-- A big integer on the heap is referred to by its index there; `none` is the nil pointer.
abbrev pub BigRef : Type 0
BigRef = Option ℕ

abbrev pub max_trans_in_event : ℕ
max_trans_in_event = 64

-- The struct has no field.
pub data Transaction : Type 0 where
  transaction : Transaction

pub record Sig : Type 0 where
  pub addr : Address

-- The integer behind `RoundID` is written after the event was built and is shared between events,
-- so it is a reference; that behind `TimeStamp` is never written, so it is its value (0 for nil).
pub record Event : Type 0 where
  pub time_stamp : ℤ
  pub trans : List Transaction
  pub self_part : Hash
  pub self_hash : Hash
  pub self_sig : Sig
  pub other_part_h : Hash
  pub other_part_a : Address
  pub round_id : BigRef

pub record RequestArg : Type 0 where
  pub target_hash : Hash
  pub target_addr : Address
  pub refered : ℕ

-- `copy(dst, src)` on slices: it writes as many elements as the shorter one holds.
abbrev pub copy_slice {ℓ} : {A : Type ℓ} → List A → List A → List A
copy_slice dst src = take (length dst) src ++ drop (length src) dst

-- `CopyEvent`: the new `Trans` has length 0 (and capacity `MaxTransInEvent`).
unfoldable pub copy_event : Event → Event
copy_event e = record e { trans = copy_slice [] e.trans }

-- What `Event.Hash` hands to `rlpHash`.
pub record Preimage : Type 0 where
  pub time_stamp : ℤ
  pub trans : List Transaction
  pub self_part : Hash
  pub self_sig : Sig
  pub other_part_h : Hash

unfoldable pub preimage : Event → Preimage
preimage e = record {
  time_stamp = e.time_stamp;
  trans = e.trans;
  self_part = e.self_part;
  self_sig = e.self_sig;
  other_part_h = e.other_part_h;
}

-- `rlpHash` composes the encoder of package rlp with Keccak-256; both are parameters, as one
-- function with the one fact that a `Hash` is 32 bytes long.
pub record Hasher : Type 0 where
  pub rlp_hash : Preimage → Hash
  pub rlp_hash-length : (p : Preimage) → length (rlp_hash p) ≡ 32

-- `Event.Hash`.
unfoldable pub event_hash : Hasher → Event → Hash
unfolding preimage
event_hash k e = k.rlp_hash (preimage e)
