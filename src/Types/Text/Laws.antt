-- ===== src/Types/Text/Laws.antt =====
-- The text of an address is read back as the address.
use go_hashgrid.Common.{
  ℕ, suc, ◌+◌, ◌*◌, ◌/◌, ◌%◌, ◌≤◌, ◌<◌, ◌≡◌, refl, ap, ◌∙◌, true, some, [], ◌∷◌, ◌++◌, arith,
  length, get_elem?, drop, Bytes, AllBytes, done,
}
use go_hashgrid.Types.Address.{Address, IsAddress, bytes_to_address, zero_address}
use go_hashgrid.Common.{get_elem?-lt}
use go_hashgrid.Types.Laws.{bytes_to_address_lem}
use go_hashgrid.Types.Text.{
  hex_digit, hex_encode, prefixed, digit_value, hex_decode, HexText, hex_to_address, is_hex_address,
  Keccak, checksum_digit, checksum, address_hex,
}

-- Upper case or lower case, a digit keeps its value.
digit_value-checksum :
    (i n b : ℕ) → n < 16 → digit_value (checksum_digit i (hex_digit n) b) ≡ some n
unfolding digit_value checksum_digit hex_digit
digit_value-checksum i n b h = ground arith

checksum_step :
    (i c x : ℕ) (cs r hash : Bytes)
    → get_elem? hash (i / 2) ≡ some x
    → checksum (suc i) cs hash ≡ done r
    → checksum i (c ∷ cs) hash ≡ done (checksum_digit i c x ∷ r)
unfolding checksum
checksum_step i c x cs r hash at rest = rw (at, rest, checksum)

hex_decode_step :
    (c d hi lo : ℕ) (s bs : Bytes)
    → digit_value c ≡ some hi
    → digit_value d ≡ some lo
    → hex_decode s ≡ some bs
    → hex_decode (c ∷ d ∷ s) ≡ some ((hi * 16 + lo) ∷ bs)
unfolding hex_decode
hex_decode_step c d hi lo s bs p q r = rw (p, q, r, hex_decode)

-- The loop leaves a text of the same digits.
record Cased (bs : Bytes) (i : ℕ) (hash : Bytes) : Type 0 where
  text : Bytes
  made : checksum i (hex_encode bs) hash ≡ done text
  value : hex_decode text ≡ some bs
  size : length text ≡ 2 * length bs

checksum-Cased :
    (bs : Bytes) (i : ℕ) (hash : Bytes)
    → AllBytes bs
    → i + 2 * length bs ≤ 2 * length hash
    → Cased bs i hash
unfolding checksum hex_encode hex_decode
checksum-Cased [] i hash h room = record { text = []; made = refl; value = refl; size = refl }
checksum-Cased (b ∷ bs) i hash h room =
    let (x, at_x) = get_elem?-lt hash (i / 2) (omega arith) in
    let (y, at_y) = get_elem?-lt hash (suc i / 2) (omega arith) in
    let rest = checksum-Cased bs (suc (suc i)) hash h.1 (omega arith) in
    let c = checksum_digit i (hex_digit (b / 16)) x in
    let d = checksum_digit (suc i) (hex_digit (b % 16)) y in
    let hi : digit_value c ≡ some (b / 16) =
      digit_value-checksum i (b / 16) x (omega (arith, h.0)) in
    let lo : digit_value d ≡ some (b % 16) =
      digit_value-checksum (suc i) (b % 16) y (omega arith) in
    let whole : b / 16 * 16 + b % 16 ≡ b = omega arith in
    record {
      text = c ∷ d ∷ rest.text;
      made =
          checksum_step i (hex_digit (b / 16)) x (hex_digit (b % 16) ∷ hex_encode bs)
            (d ∷ rest.text) hash at_x
            (checksum_step (suc i) (hex_digit (b % 16)) y (hex_encode bs) rest.text hash at_y
              rest.made);
      value =
          hex_decode_step c d (b / 16) (b % 16) rest.text bs hi lo rest.value
          ∙ ap (λ n. some (n ∷ bs)) whole;
      size = omega (arith, rest.size);
    }

-- `Address.Hex` gives "0x" and 40 digits, which `IsHexAddress` accepts and `HexToAddress` reads as
-- the address that was written, whatever the case of the digits.
pub hex_to_address-address_hex :
    (k : Keccak) (t : HexText) (a : Address)
    → IsAddress a
    → AllBytes a
    → (s : Bytes) × (address_hex k a ≡ done s)
      × (length s ≡ 42)
      × (is_hex_address t s ≡ true)
      × (hex_to_address t s ≡ a)
unfolding address_hex is_hex_address hex_to_address
hex_to_address-address_hex k t a len bytes =
    let text = hex_encode a in
    let c = checksum-Cased a 0 (k.keccak text) bytes (omega (arith, k.length-keccak text)) in
    let size : length c.text ≡ 40 = omega (arith, c.size) in
    (
      prefixed c.text,
      rw c.made,
      omega arith,
      rw (t.has_hex_prefix-prefixed c.text, t.is_hex_lem c.text a c.value, size),
      ap bytes_to_address (t.from_hex-prefixed c.text a c.value)
          ∙ (bytes_to_address_lem a).1
          ∙ ap (λ n. drop n (zero_address ++ a)) len,
    )
