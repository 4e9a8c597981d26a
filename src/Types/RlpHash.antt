-- ===== src/Types/RlpHash.antt =====
-- `rlpHash` of core/types.go, which is the hash behind `Event.Hash`.
use go_hashgrid.Common.{Bytes}
use go_hashgrid.Types.Event.{Preimage, Hasher}
use go_hashgrid.Types.Text.{Keccak}

-- Keccak-256 of what package rlp writes for the fields; `hw.Sum(h[:0])` fills the array `h`, for the
-- hash is as long as that.
abbrev pub rlp_hasher : Keccak → (Preimage → Bytes) → Hasher
rlp_hasher k encode = record {
  rlp_hash = λ p. k.keccak (encode p);
  rlp_hash-length = λ p. k.length-keccak (encode p);
}
