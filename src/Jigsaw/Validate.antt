-- ===== src/Jigsaw/Validate.antt =====
-- `validateEvent` of core/jigsaw.go: an event is accepted on its hash alone.
use go_hashgrid.Common.{
  ◌≡◌, sym, ap, ◌∙◌, ◌≢◌, ◌↔◌, inl, inr, Bool, true, false, List, [], Bool-cases, length, drop-nil,
  pos, eq_ℤ, eq_ℤ_iff,
}
use go_hashgrid.Types.Address.{Address}
use go_hashgrid.Types.Hash
use go_hashgrid.Types.Hash.{Hash, IsHash, zero_hash}
use go_hashgrid.Types.Laws.{Hash_compare-order}
use go_hashgrid.Types.Event.{
  BigRef, Event, Transaction, Preimage, Hasher, copy_event, preimage, event_hash,
}

unfoldable pub validate_event : Hasher → Event → Bool
unfolding copy_event event_hash
validate_event k e =
    let n_event = record (copy_event e) { self_hash = zero_hash } in
    eq_ℤ (Hash.compare (event_hash k n_event) e.self_hash) (pos 0)

-- The event with no transactions.
abbrev pub stripped : Event → Event
stripped e = record e { trans = [] }

-- The copy that is hashed has no transactions.
validate_event-stripped :
    (k : Hasher) (e : Event)
    → validate_event k e ≡ eq_ℤ (Hash.compare (event_hash k (stripped e)) e.self_hash) (pos 0)
unfolding validate_event
validate_event-stripped k e = rw (drop-nil {A = Transaction} (length e.trans))

-- Equality of hashes as `Compare` decides it.
same_hash_iff :
    (a b : Hash) → IsHash a → IsHash b → (eq_ℤ (Hash.compare a b) (pos 0) ≡ true) ↔ (a ≡ b)
same_hash_iff a b p q =
    let decides = eq_ℤ_iff (Hash.compare a b) (pos 0) in
    let zero_iff = (Hash_compare-order a b b p q q).0 in
    (λ h. zero_iff.0 (decides.0 h), λ h. decides.1 (zero_iff.1 h))

-- An event whose `SelfHash` has the length of a hash is accepted exactly if that is the hash of the
-- event without its transactions.
pub validate_event_lem :
    (k : Hasher) (e : Event)
    → IsHash e.self_hash
    → (validate_event k e ≡ true) ↔ (event_hash k (stripped e) ≡ e.self_hash)
unfolding event_hash
validate_event_lem k e h =
    rw (validate_event-stripped k e)
      (same_hash_iff (event_hash k (stripped e)) e.self_hash (k.rlp_hash-length _) h)

-- An event that carries the hash of its whole contents is refused if the hash tells these contents
-- from the same without the transactions, and there is a transaction.
validate_event-trans :
    (k : Hasher) (e : Event)
    → e.self_hash ≡ event_hash k e
    → (k.rlp_hash (preimage (stripped e)) ≡ k.rlp_hash (preimage e)
        → preimage (stripped e) ≡ preimage e)
    → e.trans ≢ []
    → validate_event k e ≡ false
unfolding event_hash preimage
validate_event-trans k e hashed tells_apart some_trans = elim (Bool-cases (validate_event k e)) [
  | inr refused ↦ refused
  | inl accepted ↦
      let len : IsHash e.self_hash = rw hashed (k.rlp_hash-length _) in
      let same = tells_apart ((validate_event_lem k e len).0 accepted ∙ hashed) in
      absurd (some_trans (sym (ap (λ (p : Preimage). p.trans) same)))
]

-- Acceptance does not depend on the transactions, the other parent's address or the round: an event
-- with any of them changed on the way is accepted as well.
pub validate_event-unprotected :
    (k : Hasher) (e : Event) (ts : List Transaction) (a : Address) (r : BigRef)
    → validate_event k (record e { trans = ts; other_part_a = a; round_id = r })
      ≡ validate_event k e
unfolding event_hash preimage
validate_event-unprotected k e ts a r =
    let f = record e { trans = ts; other_part_a = a; round_id = r } in
    validate_event-stripped k f ∙ sym (validate_event-stripped k e)
