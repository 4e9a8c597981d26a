-- ===== src/Jigsaw/Compose.antt =====
-- `ComposeEvent` and `Signature` of core/jigsaw.go.
pub mod Laws
use go_hashgrid.Common.{
  ℕ, zero, suc, ◌+◌, ◌-◌, ◌*◌, ◌/◌, ◌%◌, ◌^◌, ◌≤◌, ◌<◌, ◌≡◌, refl, sym, ap, subst, ◌∙◌, ◌≢◌, ◌↔◌,
  ◌⊎◌, inl, inr, Bool, true, false, not, ◌&&◌, ◌||◌, Option, none, some, List, [], ◌∷◌, ◌++◌, map,
  arith, ltb, leb, ◌==◌, if◌then◌else◌, ltb→lt, lt→ltb, leb→le, ==_iff, Bool-cases, Option-cases,
  length, get_elem?, set, get_or, take, drop, replicate, length-append, length-set,
  get_elem?-set_self, get_elem?-set_ne, length-take, length-drop, length-replicate, length-map, ℤ,
  pos, negsuc, eq_ℤ, eq_ℤ_iff, Bytes, bytes_eq, bytes_eq_iff, bytes_eq_refl, AllBytes, Outcome,
  done, panic, blocked, out_of_fuel, ◌>>=◌, ◌>>◌, >>=-eq-done, done-injective, lookup, insert,
  delete, lookup-insert, lookup-insert_self, lookup-insert_ne, lookup-delete, length-insert_new,
  length-insert_old,
}
use go_hashgrid.Types.Address.{Address, zero_address}
use go_hashgrid.Types.Hash.{Hash, zero_hash}
use go_hashgrid.Types.Event.{
  Event, Sig, RequestArg, Transaction, Hasher, max_trans_in_event, copy_slice, event_hash, BigRef,
}
use go_hashgrid.Jigsaw.State.{JpGraph, Vertex, Round, Column, deref_vertex, update_round}
use go_hashgrid.Round.Rounds.{rand_parent}

-- `*r = n` on a big integer: nil is a panic.
unfoldable pub set_big : BigRef → ℤ → List ℤ → Outcome (List ℤ)
set_big none n bigs = panic
set_big (some r) n bigs = if ltb r (length bigs) then done (set bigs r n) else panic

-- `Signature`
abbrev pub signature : JpGraph → Sig
signature jp = record { addr = jp.coinbase }

-- The first `mlen` transactions, with those that are left: `transUnHandled[mlen+1:]` is a panic if
-- the slice has no more than `mlen` elements.
unfoldable pub take_mlen : ℕ → List Transaction → Outcome (List Transaction × List Transaction)
take_mlen mlen ts =
    if ltb 0 mlen
    then if leb (mlen + 1) (length ts)
      then done (copy_slice [] (take mlen ts), drop (mlen + 1) ts)
      else panic
    else done ([], ts)

-- The transactions that an event takes.
unfoldable pub take_trans : List Transaction → Outcome (List Transaction × List Transaction)
unfolding take_mlen
take_trans ts =
    take_mlen (if ltb max_trans_in_event (length ts) then max_trans_in_event else length ts) ts

-- The self parent and the round number: the top of the own column, else the new integer.
unfoldable pub top_of : List Vertex → Option ℕ → BigRef → Outcome (Hash × BigRef)
unfolding deref_vertex
top_of vs none fresh = done (zero_hash, fresh)
top_of vs (some p) fresh = deref_vertex vs p >>= λ v. done (v.event.self_hash, v.event.round_id)

-- The other parent: the round's best vertex, else one that `RandParent` offers.
unfoldable pub other_of : List Vertex → Sig → ℕ → Round → Outcome (Hash × Address × Round)
unfolding deref_vertex rand_parent
other_of vs s to rd = elim rd.best_vertex [
  | some p ↦ deref_vertex vs p >>= λ v. done (v.event.self_hash, v.event.self_sig.addr, rd)
  | none ↦ rand_parent s.addr to rd >>= λ (offer, rd'). elim offer [
    | none ↦ done (zero_hash, zero_address, rd')
    | some arg ↦ done (arg.target_hash, arg.target_addr, rd')
  ]
]

-- `ComposeEvent` with the own column `col` and the front round `rd`.
unfoldable pub compose_with :
    Hasher → ℤ → ℕ → JpGraph → Column → Round → List Round → Outcome (Event × JpGraph)
unfolding take_trans top_of other_of set_big event_hash
compose_with k now to jp col rd rds = do
  (ts, left) ← take_trans jp.trans_un_handled
  (self, rid) ← top_of jp.vertices col.ver_top (some (length jp.bigs))
  (other_h, other_a, rd') ← other_of jp.vertices (signature jp) to rd
  bigs ← set_big rid (pos rd.index) (jp.bigs ++ pos jp.current_idx ∷ [])
  let e : Event = record {
    time_stamp = now;
    trans = ts;
    self_part = self;
    self_hash = zero_hash;
    self_sig = signature jp;
    other_part_h = other_h;
    other_part_a = other_a;
    round_id = rid;
  }
  done (
    record e { self_hash = event_hash k e },
    record jp { trans_un_handled = left; bigs = bigs; queue = rd' ∷ rds },
  )

-- `ComposeEvent` at the time `now`, with `to` for the random index of `RandParent`.
unfoldable pub compose_event : Hasher → ℤ → ℕ → JpGraph → Outcome (Event × JpGraph)
unfolding compose_with
compose_event k now to jp = elim (lookup jp.coinbase jp.graph) [
  | none ↦ panic
  | some col ↦ elim jp.queue [ [] ↦ panic | rd ∷ rds ↦ compose_with k now to jp col rd rds ]
]
