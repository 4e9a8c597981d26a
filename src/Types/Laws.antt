-- ===== src/Types/Laws.antt =====
-- Comparison is a total order, and conversion from bytes keeps the last bytes.
use go_hashgrid.Common.{
  ℕ, ◌-◌, ◌≤◌, ◌<◌, ◌≡◌, sym, ap, ◌∙◌, ◌↔◌, inl, inr, ◌++◌, arith, ltb, ltb→lt, Bool-cases, length,
  drop, replicate, length-drop, length-replicate, pos, negsuc, Bytes,
}
use go_hashgrid.Types.Array.{
  compare_loop-eq, compare_loop-opposite, compare_loop_trans, opposite, copy_tail, length-copy_tail,
  drop-append, drop-append_past, take-replicate, drop-replicate,
}
use go_hashgrid.Types.Address
use go_hashgrid.Types.Address.{Address, IsAddress, address_length, zero_address, bytes_to_address}
use go_hashgrid.Types.Hash
use go_hashgrid.Types.Hash.{Hash, IsHash, hash_length, zero_hash, bytes_to_hash, address_hash}

-- `Address.Compare` on addresses is 0 exactly on equal ones, changes sign when the arguments are
-- swapped, and its "less" is transitive.
pub Address_compare-order :
    (a b c : Address)
    → IsAddress a
    → IsAddress b
    → IsAddress c
    → ((Address.compare a b ≡ pos 0) ↔ (a ≡ b))
      × (Address.compare b a ≡ opposite (Address.compare a b))
      × (Address.compare a b ≡ negsuc 0
          → Address.compare b c ≡ negsuc 0
          → Address.compare a c ≡ negsuc 0)
unfolding Address.compare
Address_compare-order a b c p q r =
    ground (arith, compare_loop-eq a b, compare_loop-opposite a b, compare_loop_trans a b c)

-- The same of `Hash.Compare`.
pub Hash_compare-order :
    (a b c : Hash)
    → IsHash a
    → IsHash b
    → IsHash c
    → ((Hash.compare a b ≡ pos 0) ↔ (a ≡ b))
      × (Hash.compare b a ≡ opposite (Hash.compare a b))
      × (Hash.compare a b ≡ negsuc 0 → Hash.compare b c ≡ negsuc 0 → Hash.compare a c ≡ negsuc 0)
unfolding Hash.compare
Hash_compare-order a b c p q r =
    ground (arith, compare_loop-eq a b, compare_loop-opposite a b, compare_loop_trans a b c)

abbrev zeros : ℕ → Bytes
zeros n = replicate n 0

length-zeros : (n : ℕ) → length (zeros n) ≡ n
length-zeros n = length-replicate n (let k : ℕ = 0 in k)

-- Writing at most n bytes at the end of n zeros is taking the last n of the zeros and the bytes.
copy_tail-zeros :
    (n : ℕ) (b : Bytes) → length b ≤ n → copy_tail (zeros n) b ≡ drop (length b) (zeros n ++ b)
unfolding copy_tail
copy_tail-zeros n b h = rw (length-zeros n) (
    ap (λ t. t ++ b) (take-replicate (n - length b) n 0 (omega arith))
    ∙ sym (
        drop-append (zeros n) b (length b) (omega (arith, length-zeros n))
        ∙ ap (λ t. t ++ b) (drop-replicate (length b) n 0 h)))

-- With more bytes than room, those in front are dropped.
crop-zeros :
    (n : ℕ) (b : Bytes)
    → n < length b
    → copy_tail (zeros n) (drop (length b - n) b) ≡ drop (length b) (zeros n ++ b)
unfolding copy_tail
crop-zeros n b h =
    let room : length (zeros n) - length (drop (length b - n) b) ≡ 0 =
      omega (arith, length-zeros n, length-drop (length b - n) b) in
    let past = drop-append_past (zeros n) b (length b) (omega (arith, length-zeros n)) in
    rw room (rw past (rw (length-zeros n)))

-- `BytesToAddress` of any bytes is an address: the last 20 of 20 zeros followed by the bytes.
pub bytes_to_address_lem :
    (b : Bytes)
    → IsAddress (bytes_to_address b) × (bytes_to_address b ≡ drop (length b) (zero_address ++ b))
unfolding bytes_to_address
bytes_to_address_lem b = elim (Bool-cases (ltb 20 (length b))) [
  | inl long ↦ rw long (
    length-copy_tail (zeros 20) (drop (length b - 20) b)
        (omega (arith, length-drop (length b - 20) b, ltb→lt 20 (length b) long)),
    crop-zeros 20 b (ltb→lt 20 (length b) long),
  )
  | inr short ↦
      let fits : length b ≤ 20 = ground arith in
      rw short (length-copy_tail (zeros 20) b fits, copy_tail-zeros 20 b fits)
]

-- `BytesToHash` of any bytes is a hash: the last 32 of 32 zeros followed by the bytes.
pub bytes_to_hash_lem :
    (b : Bytes) → IsHash (bytes_to_hash b) × (bytes_to_hash b ≡ drop (length b) (zero_hash ++ b))
unfolding bytes_to_hash
bytes_to_hash_lem b = elim (Bool-cases (ltb 32 (length b))) [
  | inl long ↦ rw long (
    length-copy_tail (zeros 32) (drop (length b - 32) b)
        (omega (arith, length-drop (length b - 32) b, ltb→lt 32 (length b) long)),
    crop-zeros 32 b (ltb→lt 32 (length b) long),
  )
  | inr short ↦
      let fits : length b ≤ 32 = ground arith in
      rw short (length-copy_tail (zeros 32) b fits, copy_tail-zeros 32 b fits)
]

-- `Address.Hash` keeps distinct addresses distinct, and gives a hash that `BytesToAddress` turns
-- back into the address.
pub bytes_to_address-address_hash :
    (a : Address) → IsAddress a → IsHash (address_hash a) × (bytes_to_address (address_hash a) ≡ a)
unfolding address_hash
bytes_to_address-address_hash a p =
    let padded : bytes_to_hash a ≡ zeros 12 ++ a =
      (bytes_to_hash_lem a).1 ∙ ap (λ k. drop k (zero_hash ++ a)) p in
    let total : length (zeros 12 ++ a) ≡ 32 = omega arith in
    (
      (bytes_to_hash_lem a).0,
      ap bytes_to_address padded
          ∙ (bytes_to_address_lem (zeros 12 ++ a)).1
          ∙ ap (λ k. drop k (zero_address ++ (zeros 12 ++ a))) total,
    )
