-- ===== src/P2p/Message/Laws.antt =====
-- What `Send` writes.
use go_hashgrid.Common.{ℕ, ◌%◌, ◌^◌, ◌<◌, ◌≡◌, inr, true, some, arith, length, Bytes, done}
use go_hashgrid.P2p.Frame.Laws.{frame_of, write_msg-frame_of}
use go_hashgrid.P2p.Message.{send}

pub send-frame_of :
    (code ty : ℕ) (p : Bytes)
    → length p < 2 ^ 16
    → send true code ty (some p) ≡ done (inr (frame_of code ty p))
unfolding send
send-frame_of code ty p small =
    let whole : length p % 2 ^ 32 ≡ length p = omega arith in
    rw whole (rw (write_msg-frame_of code ty p small))
