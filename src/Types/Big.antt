-- ===== src/Types/Big.antt =====
-- Hashes and addresses as numbers: `Big`, `BigToHash` and `BigToAddress` of core/types.go.
pub mod Laws
use go_hashgrid.Common.{
  ℕ, zero, suc, ◌+◌, ◌-◌, ◌*◌, ◌/◌, ◌%◌, ◌^◌, ◌≤◌, ◌<◌, ◌≡◌, refl, sym, ap, subst, ◌∙◌, ◌≢◌, ◌↔◌,
  ◌⊎◌, inl, inr, Bool, true, false, not, ◌&&◌, ◌||◌, Option, none, some, List, [], ◌∷◌, ◌++◌, map,
  arith, ltb, leb, ◌==◌, if◌then◌else◌, ltb→lt, lt→ltb, leb→le, ==_iff, Bool-cases, Option-cases,
  List-cases, length, get_elem?, set, get_or, take, drop, replicate, length-append, length-set,
  get_elem?-set_self, get_elem?-set_ne, length-take, length-drop, drop-nil, length-replicate,
  length-map, ℤ, pos, negsuc, eq_ℤ, eq_ℤ_iff, Bytes, bytes_eq, bytes_eq_iff, bytes_eq_refl,
  AllBytes, Outcome, done, panic, blocked, out_of_fuel, ◌>>=◌, ◌>>◌, >>=-eq-done, done-injective,
  lookup, insert, delete, lookup-insert, lookup-insert_self, lookup-insert_ne, lookup-delete,
  length-insert_new, length-insert_old,
}
use go_hashgrid.Types.Address.{Address, bytes_to_address}
use go_hashgrid.Types.Hash.{Hash, bytes_to_hash}

-- `big.Int.SetBytes`, big-endian, behind the digits that make up `acc`.
unfoldable pub value_from : ℕ → Bytes → ℕ
value_from acc [] = acc
value_from acc (b ∷ bs) = value_from (acc * 256 + b) bs

-- The digits of n in front of `acc`, none for zero.
unfoldable pub digits : ℕ → ℕ → Bytes → Bytes
digits zero n acc = acc
digits (suc fuel) n acc =
    let rest = digits fuel (n / 256) ((n % 256) ∷ acc) in if n == 0 then acc else rest

-- `big.Int.Bytes`: a number has no more digits than its value.
unfoldable pub big_bytes : ℕ → Bytes
unfolding digits
big_bytes n = digits n n []

-- `Hash.Big` and `Address.Big`.
unfoldable pub hash_big : Hash → ℕ
unfolding value_from
hash_big h = value_from 0 h

unfoldable pub address_big : Address → ℕ
unfolding value_from
address_big a = value_from 0 a

unfoldable pub big_to_hash : ℕ → Hash
unfolding big_bytes bytes_to_hash
big_to_hash n = bytes_to_hash (big_bytes n)

unfoldable pub big_to_address : ℕ → Address
unfolding big_bytes bytes_to_address
big_to_address n = bytes_to_address (big_bytes n)
