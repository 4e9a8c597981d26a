-- ===== src/P2p/Server/Laws.antt =====
-- The table of peers has one connection for a node, each under its own address.
use go_hashgrid.Common.{
  ℕ, ◌≡◌, refl, sym, ap, ◌∙◌, inl, inr, false, Option, none, some, List, [], ◌∷◌, ◌++◌, arith,
  Bool-cases, Option-cases, pos, eq_ℤ, eq_ℤ_iff, bytes_eq, bytes_eq_iff, lookup, insert,
  lookup-insert, lookup-insert_self, lookup-insert_ne, lookup-delete,
}
use go_hashgrid.Types.Address
use go_hashgrid.Types.Address.{Address, IsAddress}
use go_hashgrid.Types.Laws.{Address_compare-order}
use go_hashgrid.P2p.Server.{
  Conn, Server, Signal, quit_closed, add_static, remove_static, peer_op, add_peer, del_peer, serve,
  run, find_peer, handle_conn, offered,
}

-- Every entry of the table stands under the address of its connection, which is not this node's.
pub record IsPeered (s : Server) : Type 0 where
  pub keyed : (a : Address) (c : Conn) → lookup a s.peers ≡ some c → c.id ≡ a
  pub others : lookup s.id s.peers ≡ none

-- A signal that offers a connection does not offer this node itself.
abbrev pub Foreign : Address → Signal → Type 0
Foreign self (add_peer c) = bytes_eq c.id self ≡ false
Foreign self _ = Unit

abbrev pub AllForeign : Address → List Signal → Type 0
AllForeign self [] = Unit
AllForeign self (g ∷ gs) = Foreign self g × AllForeign self gs

serve_id : (g : Signal) (s : Server) → (serve g s).id ≡ s.id
unfolding serve
serve_id quit_closed s = refl
serve_id (add_static none) s = refl
serve_id (add_static (some fd)) s = refl
serve_id remove_static s = refl
serve_id peer_op s = refl
serve_id (add_peer c) s = ground arith
serve_id (del_peer a) s = refl

serve-IsPeered : (g : Signal) (s : Server) → Foreign s.id g → IsPeered s → IsPeered (serve g s)
unfolding serve
serve-IsPeered quit_closed s f h = record { keyed = h.keyed; others = h.others }
serve-IsPeered (add_static none) s f h = h
serve-IsPeered (add_static (some fd)) s f h = record { keyed = h.keyed; others = h.others }
serve-IsPeered remove_static s f h = h
serve-IsPeered peer_op s f h = h
serve-IsPeered (add_peer c) s f h = elim (Option-cases (lookup c.id s.peers)) [
  | inr (d, old) ↦ rw (old, serve) h
  | inl new ↦
      rw (new, serve)
        (record {
          keyed = λ a d e. elim (Bool-cases (bytes_eq c.id a)) [
            | inl same ↦
                let cd : c ≡ d = ground (arith, lookup-insert c.id a c s.peers) in
                rw (← cd) ((bytes_eq_iff c.id a).0 same)
            | inr other ↦ h.keyed a d (sym (lookup-insert_ne c.id a c s.peers other) ∙ e)
          ];
          others = lookup-insert_ne c.id s.id c s.peers f ∙ h.others;
        })
]
serve-IsPeered (del_peer a) s f h = record {
  keyed = λ b c e. h.keyed b c (ground (arith, lookup-delete a b s.peers));
  others = ground (arith, lookup-delete a s.id s.peers, h.others);
}

-- After any signals of the loop, none of which offers this node itself, the table holds every
-- connection under its own address and none for this node.
pub run-IsPeered :
    (gs : List Signal) (s : Server) → AllForeign s.id gs → IsPeered s → IsPeered (run gs s)
unfolding run
run-IsPeered [] s f h = h
run-IsPeered (g ∷ gs) s f h = elim (Bool-cases s.running) [
  | inr stopped ↦ simp stopped h
  | inl on ↦
      simp on (run-IsPeered gs (serve g s) (rw (serve_id g s) f.1) (serve-IsPeered g s f.0 h))
]

handle_conn-parts :
    (fd : ℕ) (recv : Option Address) (s : Server) (c : Conn)
    → handle_conn fd recv s ≡ offered c
    → (c.fd ≡ fd)
      × (eq_ℤ (Address.compare c.id s.id) (pos 0) ≡ false)
      × (lookup c.id s.peers ≡ none)
unfolding handle_conn find_peer
handle_conn-parts fd none s c h = cc
handle_conn-parts fd (some a) s c h = ground arith

-- What is not 0 by `Compare` is not equal.
differs :
    (a b : Address)
    → IsAddress b
    → eq_ℤ (Address.compare a b) (pos 0) ≡ false
    → bytes_eq a b ≡ false
differs a b len h = elim (Bool-cases (bytes_eq a b)) [
  | inr other ↦ other
  | inl same ↦
      let ab = (bytes_eq_iff a b).0 same in
      let zero_at_b = (Address_compare-order b b b len len len).0.1 refl in
      absurd (ground (arith, eq_ℤ_iff (Address.compare a b) (pos 0), rw (← ab) at zero_at_b))
]

serve-add_new :
    (c : Conn) (s : Server)
    → lookup c.id s.peers ≡ none
    → serve (add_peer c) s
      ≡ record s { started = s.started ++ c ∷ []; peers = insert c.id c s.peers }
unfolding serve
serve-add_new c s new = rw (new, serve)

serve-add_old : (c d : Conn) (s : Server) → lookup c.id s.peers ≡ some d → serve (add_peer c) s ≡ s
unfolding serve
serve-add_old c d s old = rw (old, serve)

-- `HandleConn` offers a connection to the loop only for an address that is neither this node's nor
-- in the table, with the socket it was called with; the offer, served at once, puts that connection
-- into the table and starts it, and a second offer for the same address changes nothing.
pub handle_conn-offered :
    (fd : ℕ) (recv : Option Address) (s : Server) (c d : Conn)
    → handle_conn fd recv s ≡ offered c
    → IsAddress s.id
    → d.id ≡ c.id
    → Foreign s.id (add_peer c)
      × (c.fd ≡ fd)
      × (find_peer c.id (serve (add_peer c) s) ≡ some c)
      × ((serve (add_peer c) s).started ≡ s.started ++ c ∷ [])
      × (serve (add_peer d) (serve (add_peer c) s) ≡ serve (add_peer c) s)
unfolding find_peer
handle_conn-offered fd recv s c d h len same =
    let (sock, other, new) = handle_conn-parts fd recv s c h in
    let added = serve-add_new c s new in
    let there : lookup c.id (serve (add_peer c) s).peers ≡ some c =
      ap (λ (t : Server). lookup c.id t.peers) added ∙ lookup-insert_self c.id c s.peers in
    (
      differs c.id s.id len other,
      sock,
      there,
      ap (λ (t : Server). t.started) added,
      serve-add_old d c (serve (add_peer c) s) (rw same there),
    )
