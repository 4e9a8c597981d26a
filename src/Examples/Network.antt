-- ===== src/Examples/Network.antt =====
-- Frames, and a table of peers.
use go_hashgrid.Common.{
  ◌/◌, ◌^◌, ◌≤◌, ◌<◌, ◌≡◌, refl, ◌≢◌, ◌↔◌, inr, true, false, some, [], ◌∷◌, ◌++◌, arith, Bytes,
  bytes_eq, done, lookup,
}
use go_hashgrid.Types.Address
use go_hashgrid.Types.Address.{Address}
use go_hashgrid.P2p.Frame.{byte, put_int32, read_int32, read_msg, write_msg}
use go_hashgrid.P2p.Frame.Laws.{reread, read_int32-put_int32, read_msg-write_msg}
use go_hashgrid.P2p.Server.{
  Conn, Server, add_peer, del_peer, quit_closed, serve, run, find_peer, handle_conn, offered,
}
use go_hashgrid.P2p.Server.Laws.{IsPeered, Foreign, AllForeign, run-IsPeered, handle_conn-offered}
use go_hashgrid.Examples.Values.{me, you}

read_int32-put_int32_example :
    (read_int32 (put_int32 70000 ++ []) ≡ done (reread 70000))
    × ((reread 70000 ≡ 70000) ↔ (byte (70000 / 2 ^ 16) ≡ 70000 / 2 ^ 26))
    × (70000 < 2 ^ 16 → reread 70000 ≡ 70000)
    × (2 ^ 16 ≤ 70000 → 70000 < 2 ^ 24 → reread 70000 ≢ 70000)
read_int32-put_int32_example = read_int32-put_int32 70000 [] (omega arith)

read_msg-write_msg_example :
    (frame : Bytes) × (write_msg true
        (record { code = 1; type = 2; size = 2; payload = 8 ∷ 9 ∷ [] })
      ≡ done (inr frame))
    × (read_msg true (frame ++ 3 ∷ [])
        ≡ done (inr (record { code = 1; type = 2; size = 2; payload = 8 ∷ 9 ∷ [] }, 3 ∷ [])))
read_msg-write_msg_example =
    read_msg-write_msg 1 2 (8 ∷ 9 ∷ []) (3 ∷ []) (omega arith) (omega arith)

abbrev idle : Server
idle = record { running = true; quit = false; id = me; peers = []; started = []; handled = [] }

abbrev your_conn : Conn
your_conn = record { fd = 4; id = you }

idle-IsPeered : IsPeered idle
unfolding lookup
idle-IsPeered = record { keyed = λ a c e. cc; others = refl }

signals-AllForeign : AllForeign me (add_peer your_conn ∷ del_peer you ∷ quit_closed ∷ [])
unfolding bytes_eq
signals-AllForeign = (refl, (tt, (tt, tt)))

run-IsPeered_example : IsPeered (run (add_peer your_conn ∷ del_peer you ∷ quit_closed ∷ []) idle)
run-IsPeered_example =
    run-IsPeered (add_peer your_conn ∷ del_peer you ∷ quit_closed ∷ []) idle signals-AllForeign
      idle-IsPeered

handle_idle : handle_conn 4 (some you) idle ≡ offered your_conn
unfolding handle_conn lookup Address.compare
handle_idle = refl

handle_conn-offered_example :
    Foreign me (add_peer your_conn)
    × (your_conn.fd ≡ 4)
    × (find_peer you (serve (add_peer your_conn) idle) ≡ some your_conn)
    × ((serve (add_peer your_conn) idle).started ≡ your_conn ∷ [])
    × (serve (add_peer (record { fd = 9; id = you })) (serve (add_peer your_conn) idle)
        ≡ serve (add_peer your_conn) idle)
handle_conn-offered_example =
    handle_conn-offered 4 (some you) idle your_conn (record { fd = 9; id = you }) handle_idle refl
      refl
