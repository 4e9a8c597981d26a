-- ===== src/P2p/Reader/Removal.antt =====
-- Which peers leave the server's table.
use go_hashgrid.Common.{
  ◌≡◌, ◌≢◌, refl, ◌⊎◌, inl, inr, true, false, none, [], ◌∷◌, arith, bytes_eq, bytes_eq_refl,
  lookup-delete,
}
use go_hashgrid.Types.Address.{Address}
use go_hashgrid.P2p.Frame.{eof, unexpected_eof, size_not_match, no_connection, socket_failed}
use go_hashgrid.P2p.Server.{Conn, Server, del_peer, serve, run, find_peer}
use go_hashgrid.P2p.Reader.{PeerError, unread, refused, new_peer, peer_id, after_run, run_peer}

-- The peer is gone, and the others are as before.
pub record Removed (a : Address) (s s' : Server) : Type 0 where
  pub gone : find_peer a s' ≡ none
  pub others : (b : Address) → bytes_eq a b ≡ false → find_peer b s' ≡ find_peer b s

del_peer-Removed :
    (a : Address) (s : Server) → s.running ≡ true → Removed a s (run (del_peer a ∷ []) s)
unfolding run serve find_peer
del_peer-Removed a s on = simp on (record {
  gone = ground (arith, lookup-delete a a s.peers, bytes_eq_refl a);
  others = λ b other. ground (arith, lookup-delete a b s.peers);
})

-- After the reading loop of a new peer has met an error: if the error is not that of an end of the
-- connection where no byte was read, the server's loop takes that peer out of its table, and no
-- other, and the peer's channel `closed` is closed; if it is, nothing is sent to the loop, the table
-- is as before, and the channel stays open.
pub run_peer-Removed :
    (c : Conn) (e : PeerError) (s : Server)
    → let p = new_peer c in
      s.running ≡ true
      → ((e ≢ unread eof) × Removed c.id s (run (run_peer p e) s) × ((after_run p e).closed ≡ true))
        ⊎ ((e ≡ unread eof)
            × (run_peer p e ≡ [])
            × (run (run_peer p e) s ≡ s)
            × ((after_run p e).closed ≡ false))
unfolding run_peer run peer_id new_peer after_run
run_peer-Removed c refused s on = inl (λ h. cc h, del_peer-Removed c.id s on, refl)
run_peer-Removed c (unread eof) s on = inr (refl, refl, refl, refl)
run_peer-Removed c (unread unexpected_eof) s on = inl (λ h. cc h, del_peer-Removed c.id s on, refl)
run_peer-Removed c (unread size_not_match) s on = inl (λ h. cc h, del_peer-Removed c.id s on, refl)
run_peer-Removed c (unread no_connection) s on = inl (λ h. cc h, del_peer-Removed c.id s on, refl)
run_peer-Removed c (unread socket_failed) s on = inl (λ h. cc h, del_peer-Removed c.id s on, refl)
