-- ===== src/Types/Array.antt =====
-- What `Address` and `Hash` of core/types.go share: Go's `copy` and comparison of fixed arrays.
use go_hashgrid.Common.{
  ℕ, zero, suc, ◌-◌, ◌≤◌, ◌≡◌, refl, ap, ◌∙◌, ◌↔◌, [], ◌∷◌, ◌++◌, arith, Bytes, length, take, drop,
  replicate, length-append, length-take, ℤ, pos, negsuc, ltb, ◌==◌, if◌then◌else◌,
}

-- The loop of both `Compare` methods, from some index on.
unfoldable pub compare_loop : Bytes → Bytes → ℤ
compare_loop [] ys = pos 0
compare_loop (x ∷ xs) [] = pos 0
compare_loop (x ∷ xs) (y ∷ ys) =
    let rest = compare_loop xs ys in
    if x == y then rest else if ltb y x then pos 1 else if ltb x y then negsuc 0 else rest

-- The sign change of a comparison's result.
abbrev pub opposite : ℤ → ℤ
opposite (pos zero) = pos 0
opposite (pos (suc n)) = negsuc n
opposite (negsuc n) = pos (suc n)

pub compare_loop-eq : (a b : Bytes) → length a ≡ length b → (compare_loop a b ≡ pos 0) ↔ (a ≡ b)
unfolding compare_loop
compare_loop-eq [] [] e = ground arith
compare_loop-eq [] (y ∷ ys) e = absurd (omega arith)
compare_loop-eq (x ∷ xs) [] e = absurd (omega arith)
compare_loop-eq (x ∷ xs) (y ∷ ys) e = ground (arith, compare_loop-eq xs ys)

pub compare_loop-opposite :
    (a b : Bytes) → length a ≡ length b → compare_loop b a ≡ opposite (compare_loop a b)
unfolding compare_loop
compare_loop-opposite [] [] e = refl
compare_loop-opposite [] (y ∷ ys) e = absurd (omega arith)
compare_loop-opposite (x ∷ xs) [] e = absurd (omega arith)
compare_loop-opposite (x ∷ xs) (y ∷ ys) e = ground (arith, compare_loop-opposite xs ys)

pub compare_loop_trans :
    (a b c : Bytes)
    → length a ≡ length b
    → length b ≡ length c
    → compare_loop a b ≡ negsuc 0
    → compare_loop b c ≡ negsuc 0
    → compare_loop a c ≡ negsuc 0
unfolding compare_loop
compare_loop_trans [] b c e f p q = cc
compare_loop_trans (x ∷ xs) [] c e f p q = absurd (omega arith)
compare_loop_trans (x ∷ xs) (y ∷ ys) [] e f p q = absurd (omega arith)
compare_loop_trans (x ∷ xs) (y ∷ ys) (z ∷ zs) e f p q = ground (arith, compare_loop_trans xs ys zs)

-- `copy(a[n-len(b):], b)` on an array of n elements, where b has at most n.
unfoldable pub copy_tail : Bytes → Bytes → Bytes
copy_tail a b = take (length a - length b) a ++ b

pub length-copy_tail : (a b : Bytes) → length b ≤ length a → length (copy_tail a b) ≡ length a
unfolding copy_tail
length-copy_tail a b h =
    omega
      (arith, length-append (take (length a - length b) a) b, length-take (length a - length b) a)

pub drop-append : (xs ys : Bytes) (n : ℕ) → n ≤ length xs → drop n (xs ++ ys) ≡ drop n xs ++ ys
drop-append xs ys zero h = refl
drop-append [] ys (suc n) h = absurd (omega arith)
drop-append (x ∷ xs) ys (suc n) h = drop-append xs ys n (omega arith)

pub drop-append_past :
    (xs ys : Bytes) (n : ℕ) → length xs ≤ n → drop n (xs ++ ys) ≡ drop (n - length xs) ys
drop-append_past [] ys n h = ap (λ k. drop k ys) (omega arith)
drop-append_past (x ∷ xs) ys zero h = absurd (omega arith)
drop-append_past (x ∷ xs) ys (suc n) h =
    drop-append_past xs ys n (omega arith) ∙ ap (λ k. drop k ys) (omega arith)

pub take-replicate : (k n v : ℕ) → k ≤ n → take k (replicate n v) ≡ replicate k v
take-replicate zero n v h = refl
take-replicate (suc k) zero v h = absurd (omega arith)
take-replicate (suc k) (suc n) v h = ap (λ t. v ∷ t) (take-replicate k n v (omega arith))

pub drop-replicate : (k n v : ℕ) → k ≤ n → drop k (replicate n v) ≡ replicate (n - k) v
drop-replicate zero n v h = ap (λ m. replicate m v) (omega arith)
drop-replicate (suc k) zero v h = absurd (omega arith)
drop-replicate (suc k) (suc n) v h =
    drop-replicate k n v (omega arith) ∙ ap (λ m. replicate m v) (omega arith)
