-- ===== src/Examples/Peers.antt =====
-- Two nodes that connect, and what they read from one another.
use go_hashgrid.Common.{
  ℕ, ◌≡◌, refl, ap, ◌≢◌, ◌⊎◌, inr, true, false, none, some, List, [], ◌∷◌, ◌++◌, arith, length,
  get_or, pos, Bytes, done, lookup,
}
use go_hashgrid.Types.Address.{Address}
use go_hashgrid.P2p.Frame.{Msg, eof}
use go_hashgrid.P2p.Message.{Rlp, send}
use go_hashgrid.P2p.Peer.{Codec, ping_msg, reqs_msg}
use go_hashgrid.P2p.Server.{Conn, Server, offered, closed, find_peer, run}
use go_hashgrid.P2p.Handshake.{handshake_msg, accept_conn}
use go_hashgrid.P2p.Handshake.Laws.{Named, accept_conn-send}
use go_hashgrid.P2p.Reader.{unread, refused, read_loop, new_peer, after_run, run_peer}
use go_hashgrid.P2p.Reader.Order.{AllSized, stream_of, handle_all, read_loop-stream_of}
use go_hashgrid.P2p.Reader.Ends.{IsSafe, read_loop-Safe}
use go_hashgrid.P2p.Reader.Removal.{Removed, run_peer-Removed}
use go_hashgrid.Examples.Values.{me, you}
use go_hashgrid.Examples.Graphs.{first_event, two, two-WellLinked}

-- Addresses and hashes travel as they are, and every event is the first one.
abbrev rlp : Rlp
rlp = record {
  encode_event = λ e n. some (1 ∷ []);
  encode_hash = λ h. some h;
  encode_address = λ a. some a;
}

abbrev codec : Codec
codec = record {
  event_of = λ b. first_event;
  round_of = λ b. some (pos 0);
  hash_of = λ b. b;
  address_of = λ b. b;
}

abbrev my_server : Server
my_server = record { running = true; quit = false; id = me; peers = []; started = []; handled = [] }

abbrev your_server : Server
your_server = record my_server { id = you }

me-Named : Named rlp codec me
me-Named = record { bytes = me; encoded = refl; small = omega arith; decoded = refl; proper = refl }

you-Named : Named rlp codec you
you-Named = record {
  bytes = you;
  encoded = refl;
  small = omega arith;
  decoded = refl;
  proper = refl;
}

me-ne-you : me ≢ you
me-ne-you e = let heads : Path ℕ 1 2 = ap (λ (a : Address). get_or a 0 0) e in absurd (omega arith)

no_peers : (find_peer you my_server ≡ none) × (find_peer me your_server ≡ none)
unfolding find_peer lookup
no_peers = (refl, refl)

accept_conn-send_example :
    (f g : Bytes) × (send true handshake_msg 0 (some me) ≡ done (inr f))
    × (send true handshake_msg 0 (some you) ≡ done (inr g))
    × (accept_conn rlp codec 4 (g ++ 9 ∷ []) my_server
        ≡ done (offered (record { fd = 4; id = you })))
    × (accept_conn rlp codec 5 (f ++ 9 ∷ []) your_server
        ≡ done (offered (record { fd = 5; id = me })))
    × (accept_conn rlp codec 4 (f ++ 9 ∷ []) my_server ≡ done closed)
accept_conn-send_example =
    accept_conn-send rlp codec 4 5 (9 ∷ []) my_server your_server me-Named you-Named me-ne-you
      no_peers.0 no_peers.1 refl refl

-- A ping, and then a request for the first event.
abbrev messages : List Msg
messages =
    record { code = ping_msg; type = 0; size = 1; payload = 7 ∷ [] }
    ∷ record {
      code = reqs_msg;
      type = 0;
      size = length first_event.self_hash;
      payload = first_event.self_hash;
    }
    ∷ []

messages-AllSized : AllSized messages
messages-AllSized = omega arith

read_loop-stream_of_example :
    read_loop 3 codec (stream_of messages) two ≡ handle_all codec messages two
read_loop-stream_of_example =
    read_loop-stream_of 3 codec messages two (omega arith) messages-AllSized

read_loop-Safe_example : IsSafe 3 two (read_loop 5 codec (1 ∷ 2 ∷ 3 ∷ []) two)
read_loop-Safe_example = read_loop-Safe 5 codec (1 ∷ 2 ∷ 3 ∷ []) two two-WellLinked (omega arith)

abbrev far : Conn
far = record { fd = 4; id = you }

abbrev with_peer : Server
with_peer = record my_server { peers = (you, far) ∷ [] }

run_peer-Removed_example :
    ((refused ≢ unread eof)
      × Removed you with_peer (run (run_peer (new_peer far) refused) with_peer)
      × ((after_run (new_peer far) refused).closed ≡ true))
    ⊎ ((refused ≡ unread eof)
        × (run_peer (new_peer far) refused ≡ [])
        × (run (run_peer (new_peer far) refused) with_peer ≡ with_peer)
        × ((after_run (new_peer far) refused).closed ≡ false))
run_peer-Removed_example = run_peer-Removed far refused with_peer refl
