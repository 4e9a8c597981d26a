-- ===== src/P2p/Frame/Laws.antt =====
-- What a reader makes of a written frame.
use go_hashgrid.Common.{
  ℕ, ◌+◌, ◌*◌, ◌/◌, ◌%◌, ◌^◌, ◌≤◌, ◌<◌, ◌≡◌, refl, ap, ◌∙◌, ◌≢◌, ◌↔◌, inr, true, List, [], ◌∷◌,
  ◌++◌, arith, leb, length, get_or, take, drop, length-append, Bytes, done,
}
use go_hashgrid.P2p.Frame.{
  byte, read_int32, put_int32, Msg, read_full, read_body, read_msg, write_msg,
}

-- What `readInt32` gives back of a number written by `putInt32`: bits 16 to 23 are lost, and bits 26
-- to 33 stand in their place.
unfoldable pub reread : ℕ → ℕ
reread v = v % 2 ^ 16 + byte (v / 2 ^ 26) * 2 ^ 16 + byte (v / 2 ^ 24) * 2 ^ 24

-- `readInt32` after `putInt32` gives the number `reread`, and for a uint32 that is the number
-- written exactly if its bits 16 to 23 equal its bits 26 to 31: so for all numbers below 65536, and
-- for none from 65536 to below 16777216.
pub read_int32-put_int32 :
    (v : ℕ) (rest : Bytes)
    → v < 2 ^ 32
    → (read_int32 (put_int32 v ++ rest) ≡ done (reread v))
      × ((reread v ≡ v) ↔ (byte (v / 2 ^ 16) ≡ v / 2 ^ 26))
      × (v < 2 ^ 16 → reread v ≡ v)
      × (2 ^ 16 ≤ v → v < 2 ^ 24 → reread v ≢ v)
unfolding read_int32 put_int32 reread
read_int32-put_int32 v rest h = (
  ap done (omega arith),
  (λ e. omega arith, λ e. omega arith),
  λ small. omega arith,
  λ big small e. omega arith,
)

take-append_all {ℓ} : {A : Type ℓ} (xs ys : List A) → take (length xs) (xs ++ ys) ≡ xs
take-append_all [] ys = refl
take-append_all (x ∷ xs) ys = ap (λ t. x ∷ t) (take-append_all xs ys)

drop-append_all {ℓ} : {A : Type ℓ} (xs ys : List A) → drop (length xs) (xs ++ ys) ≡ ys
drop-append_all [] ys = refl
drop-append_all (x ∷ xs) ys = drop-append_all xs ys

take-length {ℓ} : {A : Type ℓ} (xs : List A) → take (length xs) xs ≡ xs
take-length [] = refl
take-length (x ∷ xs) = ap (λ t. x ∷ t) (take-length xs)

read_full-append : (xs rest : Bytes) → read_full (length xs) (xs ++ rest) ≡ inr (xs, rest)
unfolding read_full
read_full-append xs rest =
    let fits : leb (length xs) (length (xs ++ rest)) ≡ true =
      ground (arith, length-append xs rest) in
    rw (fits, take-append_all xs rest, drop-append_all xs rest)

small_int32 : (v : ℕ) (rest : Bytes) → v < 2 ^ 16 → read_int32 (put_int32 v ++ rest) ≡ done v
small_int32 v rest h =
    let (read, exact, small, big) = read_int32-put_int32 v rest (omega arith) in
    read ∙ ap done (small h)

-- The bytes of a frame.
abbrev pub frame_of : ℕ → ℕ → Bytes → Bytes
frame_of c t p = c ∷ (put_int32 t ++ (put_int32 (length p) ++ p))

read_body-done :
    (head rest body left : Bytes) (t n : ℕ)
    → read_int32 (drop 1 head) ≡ done t
    → read_int32 (drop 5 head) ≡ done n
    → read_full n rest ≡ inr (body, left)
    → read_body head rest
      ≡ done (inr (record { code = get_or head 0 0; type = t; size = n; payload = body }, left))
unfolding read_body
read_body-done head rest body left t n e1 e2 e3 = ground arith

read_msg-header :
    (stream head rest : Bytes)
    → read_full 9 stream ≡ inr (head, rest)
    → read_msg true stream ≡ read_body head rest
unfolding read_msg
read_msg-header stream head rest e = rw (e, read_msg)

pub read_msg-frame_of :
    (c t : ℕ) (p rest : Bytes)
    → t < 2 ^ 16
    → length p < 2 ^ 16
    → read_msg true (frame_of c t p ++ rest)
      ≡ done (inr (record { code = c; type = t; size = length p; payload = p }, rest))
unfolding put_int32
read_msg-frame_of c t p rest small_type small_size =
    let head = c ∷ (put_int32 t ++ put_int32 (length p)) in
    let header : read_full 9 (frame_of c t p ++ rest) ≡ inr (head, p ++ rest) =
      read_full-append head (p ++ rest) in
    read_msg-header (frame_of c t p ++ rest) head (p ++ rest) header
    ∙ read_body-done head (p ++ rest) p rest t (length p)
        (small_int32 t (put_int32 (length p)) small_type) (small_int32 (length p) [] small_size)
        (read_full-append p rest)

pub write_msg-frame_of :
    (c t : ℕ) (p : Bytes)
    → length p < 2 ^ 16
    → write_msg true (record { code = c; type = t; size = length p; payload = p })
      ≡ done (inr (frame_of c t p))
unfolding write_msg
write_msg-frame_of c t p small = ground (arith, take-length p)

-- A frame written for a message whose type and size are below 65536, and whose size is the length
-- of its payload, is read back as that message, and the bytes behind it are left.
pub read_msg-write_msg :
    (c t : ℕ) (p rest : Bytes)
    → t < 2 ^ 16
    → length p < 2 ^ 16
    → let msg : Msg = record { code = c; type = t; size = length p; payload = p } in
      (frame : Bytes) × (write_msg true msg ≡ done (inr frame))
      × (read_msg true (frame ++ rest) ≡ done (inr (msg, rest)))
read_msg-write_msg c t p rest small_type small_size = (
  frame_of c t p,
  write_msg-frame_of c t p small_size,
  read_msg-frame_of c t p rest small_type small_size,
)
