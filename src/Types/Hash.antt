-- ===== src/Types/Hash.antt =====
-- `Hash` of core/types.go.
use go_hashgrid.Common.{
  ℕ, ◌-◌, ◌≡◌, Bytes, length, drop, replicate, ℤ, pos, negsuc, ltb, if◌then◌else◌,
}
use go_hashgrid.Types.Array.{compare_loop, copy_tail}
use go_hashgrid.Types.Address.{Address}

abbrev pub hash_length : ℕ
hash_length = 32

-- `[HashLength]byte`; the length is stated by `IsHash`.
abbrev pub Hash : Type 0
Hash = Bytes

abbrev pub IsHash : Hash → Type 0
IsHash h = length h ≡ hash_length

-- `Hash{}`, also spelled `Hash{0}`.
abbrev pub zero_hash : Hash
zero_hash = replicate hash_length 0

unfoldable pub compare : Hash → Hash → ℤ
unfolding compare_loop
compare a b =
    if ltb (length b) (length a)
    then pos 1
    else if ltb (length a) (length b)
    then negsuc 0
    else compare_loop a b

-- `SetBytes`, as the new value of the receiver.
unfoldable pub set_bytes : Hash → Bytes → Hash
unfolding copy_tail
set_bytes h b =
    if ltb (length h) (length b)
    then copy_tail h (drop (length b - hash_length) b)
    else copy_tail h b

unfoldable pub bytes_to_hash : Bytes → Hash
unfolding set_bytes
bytes_to_hash b = set_bytes zero_hash b

-- `Address.Hash`.
unfoldable pub address_hash : Address → Hash
unfolding bytes_to_hash
address_hash a = bytes_to_hash a
