-- ===== src/Types/Big/Laws.antt =====
-- A hash or an address is recovered from its number.
use go_hashgrid.Common.{
  ℕ, zero, suc, ◌+◌, ◌-◌, ◌*◌, ◌/◌, ◌%◌, ◌≤◌, ◌<◌, ◌≡◌, refl, sym, ap, subst, ◌∙◌, ◌↔◌, inl, inr,
  true, [], ◌∷◌, ◌++◌, arith, ◌==◌, ==_iff, Bool-cases, length, drop, replicate, Bytes, AllBytes,
}
use go_hashgrid.Types.Address.{Address, IsAddress}
use go_hashgrid.Types.Hash.{Hash, IsHash, zero_hash}
use go_hashgrid.Types.Laws.{bytes_to_address_lem, bytes_to_hash_lem}
use go_hashgrid.Types.Big.{
  value_from, digits, big_bytes, hash_big, address_big, big_to_hash, big_to_address,
}

-- 256 to the n-th.
unfoldable capacity : ℕ → ℕ
capacity zero = 1
capacity (suc n) = 256 * capacity n

value_from-digits :
    (fuel n : ℕ) (acc : Bytes) → n ≤ fuel → value_from 0 (digits fuel n acc) ≡ value_from n acc
unfolding digits value_from
value_from-digits zero n acc h = ap (λ m. value_from m acc) (omega arith)
value_from-digits (suc fuel) n acc h = elim (Bool-cases (n == 0)) [
  | inl e ↦ rw e (ap (λ m. value_from m acc) (sym ((==_iff n 0).0 e)))
  | inr e ↦ rw e (
      value_from-digits fuel (n / 256) ((n % 256) ∷ acc) (ground arith)
      ∙ ap (λ m. value_from m acc) (omega arith))
]

digits-AllBytes : (fuel n : ℕ) (acc : Bytes) → AllBytes acc → AllBytes (digits fuel n acc)
unfolding digits
digits-AllBytes zero n acc h = h
digits-AllBytes (suc fuel) n acc h = elim (Bool-cases (n == 0)) [
  | inl e ↦ rw e h
  | inr e ↦ rw e (digits-AllBytes fuel (n / 256) ((n % 256) ∷ acc) (omega arith, h))
]

length-digits :
    (fuel n k : ℕ) (acc : Bytes) → n < capacity k → length (digits fuel n acc) ≤ k + length acc
unfolding digits capacity
length-digits zero n k acc h = omega arith
length-digits (suc fuel) n zero acc h =
    let none_left : (n == 0) ≡ true = ground arith in rw none_left (omega arith)
length-digits (suc fuel) n (suc k) acc h = elim (Bool-cases (n == 0)) [
  | inl e ↦ rw e (omega arith)
  | inr e ↦ rw e (omega (arith, length-digits fuel (n / 256) k ((n % 256) ∷ acc) (omega arith)))
]

value_from-lt :
    (j a : ℕ) (xs : Bytes)
    → AllBytes xs
    → a < capacity j
    → value_from a xs < capacity (length xs + j)
unfolding value_from capacity
value_from-lt j a [] h p = subst (λ m. a < capacity m) (omega arith) p
value_from-lt j a (x ∷ xs) h p =
    subst (λ m. value_from (a * 256 + x) xs < capacity m) (omega arith)
      (value_from-lt (suc j) (a * 256 + x) xs h.1 (omega (arith, h.0)))

-- Bytes of one length with one value are the same.
value_from-injective :
    (a b : ℕ) (xs ys : Bytes)
    → AllBytes xs
    → AllBytes ys
    → length xs ≡ length ys
    → value_from a xs ≡ value_from b ys
    → (a ≡ b) × (xs ≡ ys)
unfolding value_from
value_from-injective a b [] [] p q l e = (e, refl)
value_from-injective a b [] (y ∷ ys) p q l e = absurd (omega arith)
value_from-injective a b (x ∷ xs) [] p q l e = absurd (omega arith)
value_from-injective a b (x ∷ xs) (y ∷ ys) p q l e =
    let (heads, tails) =
      value_from-injective (a * 256 + x) (b * 256 + y) xs ys p.1 q.1 (omega arith) e in
    let same : x ≡ y = omega (arith, p.0, q.0) in
    (omega (arith, p.0, q.0), ap (λ (t : Bytes). x ∷ t) tails ∙ ap (λ (z : ℕ). z ∷ ys) same)

-- Zeros in front do not count.
value_from-zeros : (n : ℕ) (b : Bytes) → value_from 0 (replicate n 0 ++ b) ≡ value_from 0 b
unfolding value_from
value_from-zeros zero b = refl
value_from-zeros (suc n) b = value_from-zeros n b

zeros-AllBytes : (n : ℕ) (b : Bytes) → AllBytes b → AllBytes (replicate n 0 ++ b)
zeros-AllBytes zero b h = h
zeros-AllBytes (suc n) b h = (omega arith, zeros-AllBytes n b h)

drop-zeros : (k n : ℕ) (b : Bytes) → k ≤ n → drop k (replicate n 0 ++ b) ≡ replicate (n - k) 0 ++ b
drop-zeros zero n b h = ap (λ m. replicate m 0 ++ b) (omega arith)
drop-zeros (suc k) zero b h = absurd (omega arith)
drop-zeros (suc k) (suc n) b h =
    drop-zeros k n b (omega arith) ∙ ap (λ m. replicate m 0 ++ b) (omega arith)

-- The last n of n zeros and the digits of an n-byte number are that number's bytes.
padded_digits :
    (n : ℕ) (xs : Bytes)
    → length xs ≡ n
    → AllBytes xs
    → let d = big_bytes (value_from 0 xs) in
      length (drop (length d) (replicate n 0 ++ d)) ≡ n → drop (length d) (replicate n 0 ++ d) ≡ xs
unfolding big_bytes capacity value_from
padded_digits n xs len h padded =
    let v = value_from 0 xs in
    let d = big_bytes v in
    let fits : v < capacity n =
      subst (λ m. v < capacity m) (omega arith) (value_from-lt 0 0 xs h (omega arith)) in
    let short : length d ≤ n = omega (arith, length-digits v v n [] fits) in
    let split = drop-zeros (length d) n d short in
    let value : value_from 0 (replicate (n - length d) 0 ++ d) ≡ v =
      value_from-zeros (n - length d) d ∙ value_from-digits v v [] (omega arith) in
    (value_from-injective 0 0 (drop (length d) (replicate n 0 ++ d)) xs
      (subst AllBytes (sym split) (zeros-AllBytes (n - length d) d (digits-AllBytes v v [] tt))) h
      (padded ∙ sym len) (ap (value_from 0) split ∙ value)).1

-- `BigToHash` of the number that `Big` gives for a hash is that hash, and the number is 0 exactly
-- for the hash of all zeros.
pub big_to_hash-hash_big :
    (h : Hash)
    → IsHash h
    → AllBytes h
    → (big_to_hash (hash_big h) ≡ h) × ((hash_big h ≡ 0) ↔ (h ≡ zero_hash))
unfolding big_to_hash hash_big
big_to_hash-hash_big h len bytes =
    let (is, shape) = bytes_to_hash_lem (big_bytes (value_from 0 h)) in
    let zeros : AllBytes zero_hash = omega arith in
    (
      shape ∙ padded_digits 32 h len bytes (ap length (sym shape) ∙ is),
      (λ e. (value_from-injective 0 0 h zero_hash bytes zeros len e).1, λ e. ap (value_from 0) e),
    )

-- `BigToAddress` of the number that `Big` gives for an address is that address.
pub big_to_address-address_big :
    (a : Address) → IsAddress a → AllBytes a → big_to_address (address_big a) ≡ a
unfolding big_to_address address_big
big_to_address-address_big a len bytes =
    let (is, shape) = bytes_to_address_lem (big_bytes (value_from 0 a)) in
    shape ∙ padded_digits 20 a len bytes (ap length (sym shape) ∙ is)
