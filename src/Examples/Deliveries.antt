-- ===== src/Examples/Deliveries.antt =====
-- An event of this node that reaches a node which has just started.
use go_hashgrid.Common.{◌≡◌, refl, true, none, some, [], ◌∷◌, arith, pos, done}
use go_hashgrid.Jigsaw.State.{deref_big}
use go_hashgrid.P2p.Message.{Rlp, send}
use go_hashgrid.P2p.Peer.{Codec, event_msg}
use go_hashgrid.P2p.Delivery.{Delivered, Decodes, sent_as, compose_event-Delivered}
use go_hashgrid.Examples.Values.{you, sample_hasher, start, opened}
use go_hashgrid.Examples.Graphs.{two}
use go_hashgrid.Examples.Core.{third, compose_third, front, front_at}

-- The event is encoded as one byte.
abbrev short : Rlp
short = record {
  encode_event = λ e n. some (7 ∷ []);
  encode_hash = λ h. some h;
  encode_address = λ a. some a;
}

abbrev reader : Codec
reader = record {
  event_of = λ b. record third.0 { round_id = none };
  round_of = λ b. some (pos 0);
  hash_of = λ b. b;
  address_of = λ b. you;
}

third_number : deref_big third.1.bigs third.0.round_id ≡ done (pos 0)
unfolding opened deref_big
third_number = refl

short-Decodes : Decodes reader (7 ∷ []) third.0 (pos 0)
short-Decodes = record { event = refl; round = refl }

compose_event-Delivered_example :
    (pos 0 ≡ pos front.index)
    × Delivered sample_hasher reader true third.0
        (pos 0)
        (8 ∷ [])
        (send true event_msg (sent_as true) (some (7 ∷ [])))
        start
compose_event-Delivered_example =
    compose_event-Delivered sample_hasher reader short (pos 7) 0 two third.1 start third.0 front []
      (pos 0) (7 ∷ []) (8 ∷ []) true front_at compose_third third_number refl (omega arith)
      short-Decodes
