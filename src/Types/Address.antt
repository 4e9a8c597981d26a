-- ===== src/Types/Address.antt =====
-- `Address` of core/types.go.
use go_hashgrid.Common.{
  ℕ, ◌-◌, ◌≡◌, Bytes, length, drop, replicate, ℤ, pos, negsuc, ltb, if◌then◌else◌,
}
use go_hashgrid.Types.Array.{compare_loop, copy_tail}

abbrev pub address_length : ℕ
address_length = 20

-- `[AddressLength]byte`; the length is stated by `IsAddress`.
abbrev pub Address : Type 0
Address = Bytes

abbrev pub IsAddress : Address → Type 0
IsAddress a = length a ≡ address_length

-- `Address{}`, also spelled `Address{0}`.
abbrev pub zero_address : Address
zero_address = replicate address_length 0

unfoldable pub compare : Address → Address → ℤ
unfolding compare_loop
compare a b =
    if ltb (length b) (length a)
    then pos 1
    else if ltb (length a) (length b)
    then negsuc 0
    else compare_loop a b

-- `SetBytes`, as the new value of the receiver.
unfoldable pub set_bytes : Address → Bytes → Address
unfolding copy_tail
set_bytes a b =
    if ltb (length a) (length b)
    then copy_tail a (drop (length b - address_length) b)
    else copy_tail a b

unfoldable pub bytes_to_address : Bytes → Address
unfolding set_bytes
bytes_to_address b = set_bytes zero_address b
