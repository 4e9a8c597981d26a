-- ===== src/Types/Text.antt =====
-- Addresses and hashes as text: `Hex`, `HexToHash`, `HexToAddress` and `IsHexAddress` of
-- core/types.go. A text is the list of its bytes.
pub mod Laws
use go_hashgrid.Common.{
  ℕ, zero, suc, ◌+◌, ◌-◌, ◌*◌, ◌/◌, ◌%◌, ◌^◌, ◌≤◌, ◌<◌, ◌≡◌, refl, sym, ap, subst, ◌∙◌, ◌≢◌, ◌↔◌,
  ◌⊎◌, inl, inr, Bool, true, false, not, ◌&&◌, ◌||◌, Option, none, some, List, [], ◌∷◌, ◌++◌, map,
  arith, ltb, leb, ◌==◌, if◌then◌else◌, ltb→lt, lt→ltb, leb→le, ==_iff, Bool-cases, Option-cases,
  List-cases, length, get_elem?, set, get_or, take, drop, replicate, length-append, length-set,
  get_elem?-set_self, get_elem?-set_ne, length-take, length-drop, drop-nil, length-replicate,
  length-map, ℤ, pos, negsuc, eq_ℤ, eq_ℤ_iff, Bytes, bytes_eq, bytes_eq_iff, bytes_eq_refl,
  AllBytes, Outcome, done, panic, blocked, out_of_fuel, ◌>>=◌, ◌>>◌, >>=-eq-done, done-injective,
  lookup, insert, delete, lookup-insert, lookup-insert_self, lookup-insert_ne, lookup-delete,
  length-insert_new, length-insert_old,
}
use go_hashgrid.Types.Address.{Address, address_length, bytes_to_address}
use go_hashgrid.Types.Hash.{Hash, bytes_to_hash}

-- A hexadecimal digit in lower case.
unfoldable pub hex_digit : ℕ → ℕ
hex_digit n = if ltb n 10 then 48 + n else 87 + n

-- `hex.EncodeToString`
unfoldable pub hex_encode : Bytes → Bytes
unfolding hex_digit
hex_encode [] = []
hex_encode (b ∷ bs) = hex_digit (b / 16) ∷ hex_digit (b % 16) ∷ hex_encode bs

-- "0x"
abbrev pub prefixed : Bytes → Bytes
prefixed s = 48 ∷ 120 ∷ s

-- `hexutil.Encode`, of another package.
pub record Encoder : Type 0 where
  pub encode : Bytes → Bytes

-- `Hash.Hex`
unfoldable pub hash_hex : Encoder → Hash → Bytes
hash_hex k h = k.encode h

-- The value of a hexadecimal digit of either case.
unfoldable pub digit_value : ℕ → Option ℕ
digit_value c =
    if ltb c 48
    then none
    else if ltb c 58
    then some (c - 48)
    else if ltb c 65
    then none
    else if ltb c 71
    then some (c - 55)
    else if ltb c 97
    then none
    else if ltb c 103
    then some (c - 87)
    else none

-- What a text of hexadecimal digits stands for, if it is one.
unfoldable pub hex_decode : Bytes → Option Bytes
unfolding digit_value
hex_decode [] = some []
hex_decode (c ∷ []) = none
hex_decode (c ∷ d ∷ s) = elim (digit_value c) [
  | none ↦ none
  | some hi ↦ elim (digit_value d) [
    | none ↦ none
    | some lo ↦ elim (hex_decode s) [ none ↦ none | some bs ↦ some ((hi * 16 + lo) ∷ bs) ]
  ]
]

-- `FromHex`, `HasHexPrefix` and `IsHex` of the package core/common, with what its documentation
-- says of them on a text after "0x", and on the digits themselves.
pub record HexText : Type 0 where
  pub from_hex : Bytes → Bytes
  pub has_hex_prefix : Bytes → Bool
  pub is_hex : Bytes → Bool
  pub from_hex-prefixed : (s b : Bytes) → hex_decode s ≡ some b → from_hex (prefixed s) ≡ b
  pub has_hex_prefix-prefixed : (s : Bytes) → has_hex_prefix (prefixed s) ≡ true
  pub is_hex_lem : (s b : Bytes) → hex_decode s ≡ some b → is_hex s ≡ true

-- `HexToHash` and `HexToAddress`.
unfoldable pub hex_to_hash : HexText → Bytes → Hash
unfolding bytes_to_hash
hex_to_hash t s = bytes_to_hash (t.from_hex s)

unfoldable pub hex_to_address : HexText → Bytes → Address
unfolding bytes_to_address
hex_to_address t s = bytes_to_address (t.from_hex s)

unfoldable pub is_hex_address : HexText → Bytes → Bool
is_hex_address t s =
    let digits = if t.has_hex_prefix s then drop 2 s else s in
    (length digits == 2 * address_length) && t.is_hex digits

-- Keccak-256 of crypto/sha3.
pub record Keccak : Type 0 where
  pub keccak : Bytes → Bytes
  pub length-keccak : (b : Bytes) → length (keccak b) ≡ 32

-- The case of the digit c at index i of the text, under the hash's byte for it.
unfoldable pub checksum_digit : ℕ → ℕ → ℕ → ℕ
checksum_digit i c hash_byte =
    let nibble = if i % 2 == 0 then hash_byte / 2 ^ 4 else hash_byte % 2 ^ 4 in
    if ltb 57 c && ltb 7 nibble then c - 32 else c

-- The loop of `Address.Hex` from index i on.
unfoldable pub checksum : ℕ → Bytes → Bytes → Outcome Bytes
unfolding checksum_digit
checksum i [] hash = done []
checksum i (c ∷ cs) hash = elim (get_elem? hash (i / 2)) [
  | none ↦ panic
  | some b ↦ (checksum (suc i) cs hash >>= λ rest. done (checksum_digit i c b ∷ rest))
]

-- `Address.Hex`
unfoldable pub address_hex : Keccak → Address → Outcome Bytes
unfolding checksum hex_encode
address_hex k a =
    let text = hex_encode a in checksum 0 text (k.keccak text) >>= λ r. done (prefixed r)
