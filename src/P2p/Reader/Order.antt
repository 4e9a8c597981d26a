-- ===== src/P2p/Reader/Order.antt =====
-- `readLoop` handles the messages of its connection in order.
use go_hashgrid.Common.{
  ℕ, zero, suc, ◌^◌, ◌<◌, ◌≡◌, refl, sym, ap, ◌∙◌, inr, List, [], ◌∷◌, ◌++◌, Bool, true, false,
  if◌then◌else◌, arith, length, Bytes, Outcome, done, ◌>>=◌,
}
use mathlib.Core.Path.{fun_ext}
use go_hashgrid.Jigsaw.State.{JpGraph}
use go_hashgrid.P2p.Frame.{Msg, eof, read_msg, read_full}
use go_hashgrid.P2p.Frame.Laws.{frame_of, read_msg-frame_of}
use go_hashgrid.P2p.Peer.{Codec, Reaction, quiet, pong, failed, answer, handle}
use go_hashgrid.P2p.Reader.{unread, refused, Reading, after_handle, read_loop}

-- A message that a frame carries whole.
abbrev pub IsSized : Msg → Type 0
IsSized m = (m.size ≡ length m.payload) × (m.size < 2 ^ 16) × (m.type < 2 ^ 16)

abbrev pub AllSized : List Msg → Type 0
AllSized [] = Unit
AllSized (m ∷ ms) = IsSized m × AllSized ms

-- The frames of some messages, one behind the other.
unfoldable pub stream_of : List Msg → Bytes
stream_of [] = []
stream_of (m ∷ ms) = frame_of m.code m.type m.payload ++ stream_of ms

abbrev pub ends : Reaction → Bool
ends failed = true
ends _ = false

-- One message's reaction before those of the rest.
abbrev pub before : Reaction → Reading → Reading
before x r = record { error = r.error; reactions = x ∷ r.reactions; graph = r.graph }

-- What is left to do once a message is handled, given what becomes of the rest.
abbrev pub follow : (JpGraph → Outcome Reading) → Reaction × JpGraph → Outcome Reading
follow next (x, jp) =
    let rest = next jp in
    if ends x
    then done (record { error = refused; reactions = x ∷ []; graph = jp })
    else (rest >>= λ r. done (before x r))

-- The messages handled one after the other, until one is refused, and then the end.
unfoldable pub handle_all : Codec → List Msg → JpGraph → Outcome Reading
handle_all c [] jp = done (record { error = unread eof; reactions = []; graph = jp })
handle_all c (m ∷ ms) jp = handle c m jp >>= follow (handle_all c ms)

after_handle-follow :
    (next : JpGraph → Outcome Reading) (x : Reaction × JpGraph)
    → after_handle next x ≡ follow next x
unfolding after_handle
after_handle-follow next (failed, jp) = refl
after_handle-follow next (quiet, jp) = refl
after_handle-follow next (pong, jp) = refl
after_handle-follow next (answer e ty, jp) = refl

read_loop-message :
    (fuel : ℕ) (c : Codec) (stream rest : Bytes) (m : Msg) (jp : JpGraph)
    → read_msg true stream ≡ done (inr (m, rest))
    → read_loop (suc fuel) c stream jp ≡ (handle c m jp >>= after_handle (read_loop fuel c rest))
unfolding read_loop
read_loop-message fuel c stream rest m jp e = rw (e, read_loop)

read_loop-eof :
    (fuel : ℕ) (c : Codec) (jp : JpGraph)
    → read_loop (suc fuel) c [] jp
      ≡ done (record { error = unread eof; reactions = []; graph = jp })
unfolding read_loop read_msg read_full
read_loop-eof fuel c jp = refl

-- On the frames of any messages that fit in frames, `readLoop` does what handling the messages in
-- order does, and ends with an end of file behind them, unless one is refused.
pub read_loop-stream_of :
    (fuel : ℕ) (c : Codec) (ms : List Msg) (jp : JpGraph)
    → length ms < fuel
    → AllSized ms
    → read_loop fuel c (stream_of ms) jp ≡ handle_all c ms jp
unfolding stream_of handle_all
read_loop-stream_of zero c ms jp h w = absurd (omega arith)
read_loop-stream_of (suc fuel) c [] jp h w = read_loop-eof fuel c jp
read_loop-stream_of (suc fuel) c (m ∷ ms) jp h w =
    let whole : ◌≡◌ {A = Msg}
        (record { code = m.code; type = m.type; size = length m.payload; payload = m.payload }) m =
      rw (sym w.0.0) refl in
    let small : length m.payload < 2 ^ 16 = omega (arith, w.0.0, w.0.1) in
    let read =
      read_msg-frame_of m.code m.type m.payload (stream_of ms) w.0.2 small
      ∙ ap (λ (x : Msg). done (inr (x, stream_of ms))) whole in
    let same : read_loop fuel c (stream_of ms) ≡ handle_all c ms =
      fun_ext (λ g. read_loop-stream_of fuel c ms g (omega arith) w.1) in
    read_loop-message fuel c (frame_of m.code m.type m.payload ++ stream_of ms) (stream_of ms) m jp
      read
    ∙ ap (λ f. handle c m jp >>= after_handle f) same
    ∙ ap (λ f. handle c m jp >>= f) (fun_ext (after_handle-follow (handle_all c ms)))
