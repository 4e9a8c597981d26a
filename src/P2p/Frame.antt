-- ===== src/P2p/Frame.antt =====
-- `conn.ReadMsg`, `conn.WriteMsg`, `readInt32` and `putInt32` of p2p/server.go: a frame is a code
-- byte, the type and the size in four bytes each, and the payload.
pub mod Laws
use go_hashgrid.Common.{
  ℕ, zero, suc, ◌+◌, ◌-◌, ◌*◌, ◌/◌, ◌%◌, ◌^◌, ◌≤◌, ◌<◌, ◌≡◌, refl, sym, ap, subst, ◌∙◌, ◌≢◌, ◌↔◌,
  ◌⊎◌, inl, inr, Bool, true, false, not, ◌&&◌, ◌||◌, Option, none, some, List, [], ◌∷◌, ◌++◌, map,
  arith, ltb, leb, ◌==◌, if◌then◌else◌, ltb→lt, lt→ltb, leb→le, ==_iff, Bool-cases, Option-cases,
  List-cases, length, get_elem?, set, get_or, take, drop, replicate, length-append, length-set,
  get_elem?-set_self, get_elem?-set_ne, length-take, length-drop, drop-nil, length-replicate,
  length-map, ℤ, pos, negsuc, eq_ℤ, eq_ℤ_iff, Bytes, bytes_eq, bytes_eq_iff, bytes_eq_refl,
  AllBytes, Outcome, done, panic, blocked, out_of_fuel, ◌>>=◌, ◌>>◌, >>=-eq-done, done-injective,
  lookup, insert, delete, lookup-insert, lookup-insert_self, lookup-insert_ne, lookup-delete,
  length-insert_new, length-insert_old,
}

-- `byte(v)`
abbrev pub byte : ℕ → ℕ
byte n = n % 256

-- `readInt32`: the shifted bytes do not overlap, so their disjunction is their sum.
unfoldable pub read_int32 : Bytes → Outcome ℕ
read_int32 (b0 ∷ b1 ∷ b2 ∷ b3 ∷ b) = done (b3 + b2 * 2 ^ 8 + b1 * 2 ^ 16 + b0 * 2 ^ 24)
read_int32 _ = panic

-- The four bytes that `putInt32` writes; the second is shifted by 26.
unfoldable pub put_int32 : ℕ → Bytes
put_int32 v = byte (v / 2 ^ 24) ∷ byte (v / 2 ^ 26) ∷ byte (v / 2 ^ 8) ∷ byte v ∷ []

-- `Msg`, with what its payload reader delivers.
pub record Msg : Type 0 where
  pub code : ℕ
  pub type : ℕ
  pub size : ℕ
  pub payload : Bytes

-- `eof` is the error of `io.ReadFull` where it has read no byte, and `socket_failed` any other error
-- of the socket; a connection here ends without one.
pub data FrameError : Type 0 where
  eof unexpected_eof size_not_match no_connection socket_failed : FrameError

-- `io.ReadFull`, on the bytes that the connection delivers before it ends: what is read and what is
-- left.
unfoldable pub read_full : ℕ → Bytes → FrameError ⊎ (Bytes × Bytes)
read_full n stream =
    if leb n (length stream)
    then inr (take n stream, drop n stream)
    else if length stream == 0
    then inl eof
    else inl unexpected_eof

-- `ReadMsg` from the header `head` on.
unfoldable pub read_body : Bytes → Bytes → Outcome (FrameError ⊎ (Msg × Bytes))
read_body head rest = do
  t ← read_int32 (drop 1 head)
  n ← read_int32 (drop 5 head)
  elim (read_full n rest) [
    | inl err ↦ done (inl err)
    | inr (body, left) ↦
        done (inr (record { code = get_or head 0 0; type = t; size = n; payload = body }, left))
  ]

-- `ReadMsg`; the first argument says that `c.fd` is not nil.
unfoldable pub read_msg : Bool → Bytes → Outcome (FrameError ⊎ (Msg × Bytes))
unfolding read_body
read_msg false stream = done (inl no_connection)
read_msg true stream = elim (read_full 9 stream) [
  | inl err ↦ done (inl err)
  | inr (head, rest) ↦ read_body head rest
]

-- `WriteMsg`, as the bytes that it writes. The length `9+msg.Size` of the buffer is a uint32, and a
-- header does not fit where it wraps; `Payload.Read` fills the rest with what the payload has.
unfoldable pub write_msg : Bool → Msg → Outcome (FrameError ⊎ Bytes)
unfolding put_int32
write_msg false msg = done (inl no_connection)
write_msg true msg =
    if ltb ((9 + msg.size) % 2 ^ 32) 9
    then panic
    else if ltb (length msg.payload) msg.size
    then done (inl size_not_match)
    else done
        (inr (msg.code ∷ (put_int32 msg.type ++ (put_int32 msg.size ++ take msg.size msg.payload))))
