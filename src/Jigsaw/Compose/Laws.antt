-- ===== src/Jigsaw/Compose/Laws.antt =====
-- What `ComposeEvent` guarantees of the event, and what it does to the older events of this node.
use go_hashgrid.Common.{
  ℕ, ◌≤◌, ◌<◌, ◌≡◌, refl, sym, ap, subst, ◌∙◌, ◌≢◌, inl, inr, Bool, true, false, none, some, List,
  [], ◌∷◌, ◌++◌, arith, ltb, if◌then◌else◌, Option-cases, List-cases, length, get_elem?, take,
  get_elem?-set_self, drop-nil, ℤ, pos, done, panic, >>=-eq-done, done-injective, lookup,
}
use go_hashgrid.Types.Address.{Address, zero_address}
use go_hashgrid.Types.Hash.{Hash, zero_hash}
use go_hashgrid.Types.Event.{
  Event, Sig, Transaction, Hasher, max_trans_in_event, preimage, event_hash, BigRef,
}
use go_hashgrid.Jigsaw.State.{JpGraph, Vertex, Round, Column, deref_vertex, deref_big}
use go_hashgrid.Jigsaw.Validate.{validate_event, validate_event_lem}
use go_hashgrid.Round.Rounds.{rand_parent, empty_arg}
use go_hashgrid.Round.Parents.{AllNamed, has_other, rand_parent_lem}
use go_hashgrid.Jigsaw.Compose.{
  set_big, signature, take_mlen, take_trans, top_of, other_of, compose_with, compose_event,
}

-- The parts of a composition that returned.
pub record Composed (k : Hasher) (now : ℤ) (to : ℕ) (jp : JpGraph) (e : Event) (jp' : JpGraph)
    : Type 0 where
  pub col : Column
  pub own : lookup jp.coinbase jp.graph ≡ some col
  pub rd : Round
  pub rds : List Round
  pub front : jp.queue ≡ rd ∷ rds
  pub left : List Transaction
  pub taken : take_trans jp.trans_un_handled ≡ done (e.trans, left)
  pub top : top_of jp.vertices col.ver_top (some (length jp.bigs)) ≡ done (e.self_part, e.round_id)
  pub rd' : Round
  pub other : other_of jp.vertices (signature jp) to rd ≡ done (e.other_part_h, e.other_part_a, rd')
  pub numbered :
      set_big e.round_id (pos rd.index) (jp.bigs ++ pos jp.current_idx ∷ []) ≡ done jp'.bigs
  pub signed : e.self_sig ≡ signature jp
  pub hashed : e.self_hash ≡ event_hash k e
  pub vertices : jp'.vertices ≡ jp.vertices
  pub graph : jp'.graph ≡ jp.graph
  pub queue : jp'.queue ≡ rd' ∷ rds
  pub current : jp'.current_idx ≡ jp.current_idx

compose_with-Composed :
    (k : Hasher) (now : ℤ) (to : ℕ) (jp jp' : JpGraph) (e : Event) (col : Column) (rd : Round)
    (rds : List Round)
    → lookup jp.coinbase jp.graph ≡ some col
    → jp.queue ≡ rd ∷ rds
    → compose_with k now to jp col rd rds ≡ done (e, jp')
    → Composed k now to jp e jp'
unfolding compose_with
compose_with-Composed k now to jp jp' e col rd rds own front h =
    let ((ts, left), taken, h1) = >>=-eq-done (take_trans jp.trans_un_handled) _ h in
    let ((self, rid), top, h2) =
      >>=-eq-done (top_of jp.vertices col.ver_top (some (length jp.bigs))) _ h1 in
    let ((other_h, other_a, rd'), other, h3) =
      >>=-eq-done (other_of jp.vertices (signature jp) to rd) _ h2 in
    let (bigs, numbered, h4) =
      >>=-eq-done (set_big rid (pos rd.index) (jp.bigs ++ pos jp.current_idx ∷ [])) _ h3 in
    let same = done-injective _ (e, jp') h4 in
    subst (λ (t : Event × JpGraph). Composed k now to jp t.0 t.1) same
      (record {
        col = col;
        own = own;
        rd = rd;
        rds = rds;
        front = front;
        left = left;
        taken = taken;
        top = top;
        rd' = rd';
        other = other;
        numbered = numbered;
        signed = refl;
        hashed = refl;
        vertices = refl;
        graph = refl;
        queue = refl;
        current = refl;
      })

pub compose_event-Composed :
    (k : Hasher) (now : ℤ) (to : ℕ) (jp jp' : JpGraph) (e : Event)
    → compose_event k now to jp ≡ done (e, jp')
    → Composed k now to jp e jp'
unfolding compose_event
compose_event-Composed k now to jp jp' e h = elim (Option-cases (lookup jp.coinbase jp.graph)) [
  | inl absent ↦ cc (rw (absent, compose_event) at h)
  | inr (col, own) ↦ elim (List-cases jp.queue) [
    | inl empty ↦ cc (rw (own, compose_event, empty) at h)
    | inr (rd, rds, front) ↦
        compose_with-Composed k now to jp jp' e col rd rds own front
          (rw (own, compose_event, front) at h)
  ]
]

-- A taken list of transactions is empty.
take_mlen-empty :
    (mlen : ℕ) (ts taken left : List Transaction)
    → take_mlen mlen ts ≡ done (taken, left)
    → taken ≡ []
unfolding take_mlen
take_mlen-empty mlen ts taken left h =
    ground (arith, drop-nil {A = Transaction} (length (take mlen ts)))

take_trans-empty :
    (ts taken left : List Transaction) → take_trans ts ≡ done (taken, left) → taken ≡ []
unfolding take_trans
take_trans-empty ts taken left h =
    take_mlen-empty (if ltb max_trans_in_event (length ts) then max_trans_in_event else length ts)
      ts taken left h

-- Every event that `ComposeEvent` returns passes `validateEvent`, is signed by this node and carries
-- no transaction.
pub compose_event-validates :
    (k : Hasher) (now : ℤ) (to : ℕ) (jp jp' : JpGraph) (e : Event)
    → compose_event k now to jp ≡ done (e, jp')
    → (validate_event k e ≡ true) × (e.self_sig.addr ≡ jp.coinbase) × (e.trans ≡ [])
unfolding event_hash preimage
compose_event-validates k now to jp jp' e h =
    let c = compose_event-Composed k now to jp jp' e h in
    let empty = take_trans-empty jp.trans_un_handled e.trans c.left c.taken in
    let len : length e.self_hash ≡ 32 = rw c.hashed (k.rlp_hash-length _) in
    (
      (validate_event_lem k e len).1
          (sym (c.hashed ∙ ap (λ ts. event_hash k (record e { trans = ts })) empty)),
      ap (λ (s : Sig). s.addr) c.signed,
      empty,
    )

take_trans-panic : (ts : List Transaction) → 0 < length ts → length ts ≤ 64 → take_trans ts ≡ panic
unfolding take_trans
take_trans-panic ts some_trans few = ground arith

-- With between 1 and 64 transactions waiting, `ComposeEvent` panics.
pub compose_event-panics :
    (k : Hasher) (now : ℤ) (to : ℕ) (jp : JpGraph) (col : Column)
    → lookup jp.coinbase jp.graph ≡ some col
    → 0 < length jp.trans_un_handled
    → length jp.trans_un_handled ≤ 64
    → compose_event k now to jp ≡ panic
unfolding compose_event
compose_event-panics k now to jp col own some_trans few =
    let stuck = take_trans-panic jp.trans_un_handled some_trans few in
    elim (List-cases jp.queue) [
      | inl empty ↦ rw (own, compose_event, empty)
      | inr (rd, rds, front) ↦ rw (own, compose_event, front, compose_with, stuck)
    ]

-- `SetInt64` through a pointer is read back through it.
pub set_big-deref :
    (r : BigRef) (n : ℤ) (bigs bigs' : List ℤ)
    → set_big r n bigs ≡ done bigs'
    → deref_big bigs' r ≡ done n
unfolding set_big deref_big
set_big-deref none n bigs bigs' h = cc
set_big-deref (some r) n bigs bigs' h = ground (arith, get_elem?-set_self bigs r n)

top_of-some :
    (vs : List Vertex) (p : ℕ) (fresh : BigRef) (v : Vertex) (self : Hash) (rid : BigRef)
    → top_of vs (some p) fresh ≡ done (self, rid)
    → get_elem? vs p ≡ some v
    → rid ≡ v.event.round_id
unfolding top_of deref_vertex
top_of-some vs p fresh v self rid h at = ground arith

-- The events of one node share one integer for their round: the composed event has the `RoundID`
-- pointer of the top of the own column, and the integer behind it becomes the number of the front
-- round, for the older event as well.
pub compose_event-renumbers :
    (k : Hasher) (now : ℤ) (to : ℕ) (jp jp' : JpGraph) (e : Event) (col : Column) (p : ℕ)
    (v : Vertex) (rd : Round) (rds : List Round)
    → lookup jp.coinbase jp.graph ≡ some col
    → col.ver_top ≡ some p
    → get_elem? jp.vertices p ≡ some v
    → jp.queue ≡ rd ∷ rds
    → compose_event k now to jp ≡ done (e, jp')
    → (e.round_id ≡ v.event.round_id) × (deref_big jp'.bigs v.event.round_id ≡ done (pos rd.index))
compose_event-renumbers k now to jp jp' e col p v rd rds own top at front h =
    let c = compose_event-Composed k now to jp jp' e h in
    let same_col : c.col ≡ col = cc (c.own, own) in
    let same_rd : c.rd ≡ rd = cc (c.front, front) in
    let tops : top_of jp.vertices (some p) (some (length jp.bigs))
        ≡ done (e.self_part, e.round_id) =
      rw (same_col, top) at c.top in
    let same_id =
      top_of-some jp.vertices p (some (length jp.bigs)) v e.self_part e.round_id tops at in
    let read = set_big-deref e.round_id (pos c.rd.index) _ jp'.bigs c.numbered in
    (same_id, rw (← same_id) (read ∙ ap (λ (r : Round). done (pos r.index)) same_rd))

other_of-orphan :
    (vs : List Vertex) (s : Sig) (to : ℕ) (rd rd' r : Round) (b : Bool) (h : Hash) (a : Address)
    → rd.best_vertex ≡ none
    → rand_parent s.addr to rd ≡ done ((if b then none else some empty_arg), rd')
    → other_of vs s to rd ≡ done (h, a, r)
    → (h ≡ zero_hash) × (a ≡ zero_address)
unfolding other_of
other_of-orphan vs s to rd rd' r b h a nobest offered got = ground arith

-- In a front round with comers, none of them of the zero address, and no best vertex, the composed
-- event names no other parent: hash and address are zero.
pub compose_event-orphan :
    (k : Hasher) (now : ℤ) (to : ℕ) (jp jp' : JpGraph) (e : Event) (rd : Round) (rds : List Round)
    → jp.queue ≡ rd ∷ rds
    → rd.best_vertex ≡ none
    → rd.nc_held ≡ false
    → rd.new_comer ≢ []
    → AllNamed rd.new_comer
    → compose_event k now to jp ≡ done (e, jp')
    → (e.other_part_h ≡ zero_hash) × (e.other_part_a ≡ zero_address)
compose_event-orphan k now to jp jp' e rd rds front nobest free some_comer named h =
    let c = compose_event-Composed k now to jp jp' e h in
    let same_rd : c.rd ≡ rd = cc (c.front, front) in
    let (rd', offered) = rand_parent_lem (signature jp).addr to rd free some_comer named in
    other_of-orphan jp.vertices (signature jp) to rd rd' c.rd' (has_other jp.coinbase rd.new_comer)
      e.other_part_h e.other_part_a nobest offered (rw same_rd at c.other)
