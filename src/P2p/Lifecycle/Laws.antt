-- ===== src/P2p/Lifecycle/Laws.antt =====
-- The server can be started and stopped in any order.
use go_hashgrid.Common.{
  ◌≤◌, ◌≡◌, refl, ◌⊎◌, inl, inr, true, false, Option, none, some, List, [], ◌∷◌, ◌++◌, arith, Bytes,
  done, not, Bool-cases, ◌==◌,
}
use go_hashgrid.P2p.Lifecycle.{
  GlobalConfig, live, shut, Host, already_running, start, stop, wait_loops, is_live, Handle, unmade,
  Call, start_call, stop_call, apply_all, close_listener,
}

-- A running server has a `quit` that can be closed and one or two loops, one without a listener; a
-- stopped one has no loops.
abbrev pub IsSound : Host → Type 0
IsSound h =
    ((h.running ≡ true) × (h.quit ≡ live) × (1 ≤ h.loops) × (h.loops ≤ 2))
    ⊎ ((h.running ≡ false) × (h.loops ≡ 0))

pub start-IsSound :
    (cfg : GlobalConfig) (laddr : Option Bytes) (h : Host)
    → IsSound h
    → IsSound (start cfg laddr h).1
unfolding start
start-IsSound cfg none h w = ground arith
start-IsSound cfg (some l) h w = ground arith

-- A closed listener ends its loop, and so does none.
close_listener-ends : (l : Handle) → is_live (close_listener l) ≡ false
close_listener-ends unmade = refl
close_listener-ends live = refl
close_listener-ends shut = refl

stop-IsSound :
    (h : Host) → IsSound h → (h' : Host) × (stop h ≡ done h') × (h'.running ≡ false) × IsSound h'
unfolding stop wait_loops
stop-IsSound h (inl (on, ready, few, most)) =
    let ended : (not (is_live (close_listener h.listener))) ≡ true =
      rw (close_listener-ends h.listener) refl in
    let waited : wait_loops shut (close_listener h.listener) h.loops ≡ done 0 =
      elim (Bool-cases (h.loops == 0)) [ inl e ↦ rw e refl | inr e ↦ rw (e, ended) refl ] in
    (
      record h { running = false; listener = close_listener h.listener; quit = shut; loops = 0 },
      rw (on, ready) (rw waited refl),
      refl,
      inr (refl, refl),
    )
stop-IsSound h (inr (off, none_left)) = (h, rw off, off, inr (off, none_left))

-- Whatever calls of `Start` and `Stop` are made on a new server, in any order and with any outcome of
-- `net.Listen`, none of them panics, and in the end the server is either running, with a `quit` that
-- can be closed, or has no loop left.
pub apply_all-IsSound :
    (cs : List Call) (h : Host) → IsSound h → (h' : Host) × (apply_all cs h ≡ done h') × IsSound h'
unfolding apply_all
apply_all-IsSound [] h w = (h, refl, w)
apply_all-IsSound (start_call cfg laddr ∷ cs) h w =
    apply_all-IsSound cs _ (start-IsSound cfg laddr h w)
apply_all-IsSound (stop_call ∷ cs) h w =
    let (h1, stopped, off, w1) = stop-IsSound h w in
    let (h2, rest, w2) = apply_all-IsSound cs h1 w1 in (h2, rw stopped rest, w2)

-- A server that runs refuses `Start` and stays as it is; it can be stopped, with the wait for its
-- loops at an end, and then be started again, where `net.Listen` succeeds if it is called, with the
-- configuration's own coinbase as its id and its peers sent to the new loop.
pub start-stop :
    (cfg : GlobalConfig) (laddr : Bytes) (h : Host)
    → IsSound h
    → h.running ≡ true
    → (h' : Host) × (start cfg (some laddr) h ≡ (some already_running, h))
      × (stop h ≡ done h')
      × (h'.loops ≡ 0)
      × ((start cfg (some laddr) h').0 ≡ none)
      × ((start cfg (some laddr) h').1.running ≡ true)
      × ((start cfg (some laddr) h').1.id ≡ cfg.coinbase)
      × ((start cfg (some laddr) h').1.static ≡ h'.static ++ cfg.peers)
unfolding start
start-stop cfg laddr h w on =
    let (h1, stopped, off, w1) = stop-IsSound h w in
    let idle : h1.loops ≡ 0 = elim w1 [
      | inl (on1, _, _, _) ↦ absurd (cc (off, on1))
      | inr (_, z) ↦ z
    ] in
    (h1, rw on, stopped, idle, ground arith, ground arith, ground arith, ground arith)
