-- ===== src/P2p/Delivery.antt =====
-- An event on its way from `ComposeEvent` of one node to the channels of another.
use go_hashgrid.Common.{
  ℕ, ◌^◌, ◌<◌, ◌≡◌, refl, sym, ap, ◌∙◌, ◌⊎◌, inr, Bool, true, false, none, some, List, [], ◌∷◌,
  ◌++◌, arith, length, get_elem?, ℤ, pos, Bytes, Outcome, done, done-injective,
}
use go_hashgrid.Types.Event.{Event, Hasher}
use go_hashgrid.Jigsaw.State.{JpGraph, Round, normal, witness_remote, deref_big}
use go_hashgrid.Jigsaw.Validate.{validate_event, validate_event-unprotected}
use go_hashgrid.Jigsaw.Compose.{compose_event}
use go_hashgrid.Jigsaw.Compose.Laws.{compose_event-Composed, compose_event-validates, set_big-deref}
use go_hashgrid.P2p.Frame.{Msg, read_msg}
use go_hashgrid.P2p.Frame.Laws.{frame_of, read_msg-frame_of}
use go_hashgrid.P2p.Message.{Rlp, SendError, send}
use go_hashgrid.P2p.Message.Laws.{send-frame_of}
use go_hashgrid.P2p.Peer.{
  Codec, event_msg, quiet, handle, receive_event, decode_event, deliver, send_event,
}

-- The type with which the node loop broadcasts an event of its own.
abbrev pub sent_as : Bool → ℕ
sent_as true = witness_remote
sent_as false = normal

-- The channel for events of that type.
abbrev pub arrivals : Bool → JpGraph → List Event
arrivals true jp = jp.witness_r
arrivals false jp = jp.event_norm

-- What the payload is decoded as: the event, and apart from it its round number.
pub record Decodes (c : Codec) (p : Bytes) (e : Event) (n : ℤ) : Type 0 where
  pub event : record (c.event_of p) { round_id = none } ≡ record e { round_id = none }
  pub round : c.round_of p ≡ some n

-- The frame of the event e with the round number n, and what becomes of it at a node of graph jp.
pub record Delivered (k : Hasher) (c : Codec) (b : Bool) (e : Event) (n : ℤ) (rest : Bytes)
    (sent : Outcome (SendError ⊎ Bytes)) (jp : JpGraph) : Type 0 where
  pub frame : Bytes
  pub msg : Msg
  pub arrived : Event
  pub after : JpGraph
  pub out : sent ≡ done (inr frame)
  pub read : read_msg true (frame ++ rest) ≡ done (inr (msg, rest))
  pub handled : handle c msg jp ≡ done (quiet, after)
  pub queued : arrivals b after ≡ arrivals b jp ++ arrived ∷ []
  pub graph : after.graph ≡ jp.graph
  pub same : record arrived { round_id = none } ≡ record e { round_id = none }
  pub number : deref_big after.bigs arrived.round_id ≡ done n
  pub valid : validate_event k arrived ≡ true

get_elem?-last {ℓ} :
    {A : Type ℓ} → (xs : List A) (x : A) → get_elem? (xs ++ x ∷ []) (length xs) ≡ some x
get_elem?-last [] x = refl
get_elem?-last (y ∷ xs) x = get_elem?-last xs x

deref_big-last : (bigs : List ℤ) (n : ℤ) → deref_big (bigs ++ n ∷ []) (some (length bigs)) ≡ done n
unfolding deref_big
deref_big-last bigs n = rw (get_elem?-last bigs n, deref_big)

-- Validity does not depend on the number of the round.
validate_event-round :
    (k : Hasher) (e f : Event)
    → record f { round_id = none } ≡ record e { round_id = none }
    → validate_event k e ≡ true
    → validate_event k f ≡ true
validate_event-round k e f same good =
    sym (validate_event-unprotected k f f.trans f.other_part_a none)
    ∙ ap (validate_event k) same
    ∙ validate_event-unprotected k e e.trans e.other_part_a none
    ∙ good

-- What is delivered.
abbrev brought : Codec → Bytes → JpGraph → Event
brought c p jp = record (c.event_of p) { round_id = some (length jp.bigs) }

abbrev queue_up : Bool → Event → JpGraph → JpGraph
queue_up true e jp = record jp { witness_r = jp.witness_r ++ e ∷ [] }
queue_up false e jp = record jp { event_norm = jp.event_norm ++ e ∷ [] }

decode_event-brought :
    (c : Codec) (p : Bytes) (n : ℤ) (jp : JpGraph)
    → c.round_of p ≡ some n
    → decode_event c p jp ≡ (brought c p jp, record jp { bigs = jp.bigs ++ n ∷ [] })
unfolding decode_event
decode_event-brought c p n jp at = rw (at, decode_event)

deliver-queue_up :
    (b : Bool) (e : Event) (jp : JpGraph) → deliver (sent_as b) e jp ≡ queue_up b e jp
unfolding deliver send_event
deliver-queue_up true e jp = refl
deliver-queue_up false e jp = refl

abbrev event_frame : Bool → Bytes → Msg
event_frame b p = record { code = event_msg; type = sent_as b; size = length p; payload = p }

handle-receive_event :
    (c : Codec) (b : Bool) (p : Bytes) (jp : JpGraph)
    → handle c (event_frame b p) jp ≡ done (quiet, receive_event c (event_frame b p) jp)
unfolding handle
handle-receive_event c b p jp = refl

receive_event-queue_up :
    (c : Codec) (b : Bool) (p : Bytes) (n : ℤ) (jp : JpGraph)
    → c.round_of p ≡ some n
    → receive_event c (event_frame b p) jp
      ≡ queue_up b (brought c p jp) (record jp { bigs = jp.bigs ++ n ∷ [] })
unfolding receive_event
receive_event-queue_up c b p n jp at =
    ap (λ (x : Event × JpGraph). deliver (sent_as b) x.0 x.1) (decode_event-brought c p n jp at)
    ∙ deliver-queue_up b (brought c p jp) (record jp { bigs = jp.bigs ++ n ∷ [] })

-- Of a queued event, the channel, the columns and the integers.
queued_up :
    (b : Bool) (e : Event) (jp : JpGraph) (bigs : List ℤ)
    → (arrivals b (queue_up b e (record jp { bigs = bigs })) ≡ arrivals b jp ++ e ∷ [])
      × ((queue_up b e (record jp { bigs = bigs })).graph ≡ jp.graph)
      × ((queue_up b e (record jp { bigs = bigs })).bigs ≡ bigs)
queued_up true e jp bigs = (refl, refl, refl)
queued_up false e jp bigs = (refl, refl, refl)

sent_as-small : (b : Bool) → sent_as b < 2 ^ 16
sent_as-small true = omega arith
sent_as-small false = omega arith

-- An event that `ComposeEvent` returns is sent by `Send` in one frame, if its encoding is shorter than
-- 65536 bytes. A node that reads the frame puts the event, with the number of the sender's front
-- round behind a pointer of its own, on the channel for its type, and changes no column; the event
-- is valid there, if decoding gives what was encoded.
pub compose_event-Delivered :
    (k : Hasher) (c : Codec) (r : Rlp) (now : ℤ) (to : ℕ) (jp jp' there : JpGraph) (e : Event)
    (rd : Round) (rds : List Round) (n : ℤ) (p rest : Bytes) (b : Bool)
    → jp.queue ≡ rd ∷ rds
    → compose_event k now to jp ≡ done (e, jp')
    → deref_big jp'.bigs e.round_id ≡ done n
    → r.encode_event e (some n) ≡ some p
    → length p < 2 ^ 16
    → Decodes c p e n
    → (n ≡ pos rd.index)
      × Delivered k c b e n rest (send true event_msg (sent_as b) (r.encode_event e (some n))) there
compose_event-Delivered k c r now to jp jp' there e rd rds n p rest b front h at coded small dec =
    let made = compose_event-Composed k now to jp jp' e h in
    let same_rd : made.rd ≡ rd = cc (made.front, front) in
    let numbered : n ≡ pos rd.index = done-injective n (pos rd.index) (
      sym at
      ∙ set_big-deref e.round_id (pos made.rd.index) _ jp'.bigs made.numbered
      ∙ ap (λ (x : Round). done (pos x.index)) same_rd) in
    let event = brought c p there in
    let bigs = there.bigs ++ n ∷ [] in
    let (channel, columns, heap) = queued_up b event there bigs in
    (
      numbered,
      record {
        frame = frame_of event_msg (sent_as b) p;
        msg = event_frame b p;
        arrived = event;
        after = queue_up b event (record there { bigs = bigs });
        out =
            ap (send true event_msg (sent_as b)) coded
            ∙ send-frame_of event_msg (sent_as b) p small;
        read = read_msg-frame_of event_msg (sent_as b) p rest (sent_as-small b) small;
        handled =
            handle-receive_event c b p there
            ∙ ap (λ (x : JpGraph). done (quiet, x))
                (receive_event-queue_up c b p n there dec.round);
        queued = channel;
        graph = columns;
        same = dec.event;
        number =
            ap (λ x. deref_big x (some (length there.bigs))) heap ∙ deref_big-last there.bigs n;
        valid =
            validate_event-round k e event dec.event
              (compose_event-validates k now to jp jp' e h).0;
      },
    )
