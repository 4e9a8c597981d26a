-- ===== src/Round/Loop.antt =====
-- `RoundLoop` of core/round.go, one message of its channels at a time.
pub mod Laws
use go_hashgrid.Common.{
  ℕ, zero, suc, ◌+◌, ◌-◌, ◌*◌, ◌/◌, ◌%◌, ◌^◌, ◌≤◌, ◌<◌, ◌≡◌, refl, sym, ap, subst, ◌∙◌, ◌≢◌, ◌↔◌,
  ◌⊎◌, inl, inr, Bool, true, false, not, ◌&&◌, ◌||◌, Option, none, some, List, [], ◌∷◌, ◌++◌, map,
  arith, ltb, leb, ◌==◌, if◌then◌else◌, ltb→lt, lt→ltb, leb→le, ==_iff, Bool-cases, Option-cases,
  List-cases, length, get_elem?, set, get_or, take, drop, replicate, length-append, length-set,
  get_elem?-set_self, get_elem?-set_ne, length-take, length-drop, drop-nil, length-replicate,
  length-map, ℤ, pos, negsuc, eq_ℤ, eq_ℤ_iff, Bytes, bytes_eq, bytes_eq_iff, bytes_eq_refl,
  AllBytes, Outcome, done, panic, blocked, out_of_fuel, ◌>>=◌, ◌>>◌, >>=-eq-done, done-injective,
  lookup, insert, delete, lookup-insert, lookup-insert_self, lookup-insert_ne, lookup-delete,
  length-insert_new, length-insert_old,
}
use go_hashgrid.Types.Event.{Event, BigRef}
use go_hashgrid.Jigsaw.State.{
  Vertex, VertexRef, Round, JpGraph, witness_remote, witness_local, update_round, deref_big,
  deref_vertex,
}
use go_hashgrid.Jigsaw.AddEvent.{set_witness}
use go_hashgrid.Jigsaw.Compose.{set_big}
use go_hashgrid.Round.Rounds.{new_round}

-- The test that a witness opens the next round: `n` is its number, `current` is `currentIdx`.
unfoldable pub opens : ℕ → ℤ → ℕ → Bool
opens kind n current =
    ((kind == witness_local) && eq_ℤ n (pos current))
    || ((kind == witness_remote) && eq_ℤ n (pos (suc current)))

-- The next round at the front, with its number written behind the witness's `RoundID`.
unfoldable pub start_round : BigRef → JpGraph → Outcome JpGraph
unfolding set_big
start_round rid jp =
    let idx = suc jp.current_idx in
    set_big rid (pos idx) jp.bigs >>= λ bigs.
    done
      (record jp { current_idx = idx; bigs = bigs; queue = new_round jp.broadness idx ∷ jp.queue })

-- The number is read only for a vertex of the two kinds.
unfoldable pub open_round : Vertex → JpGraph → Outcome (Bool × JpGraph)
unfolding deref_big opens start_round
open_round v jp =
    if (v.witness == witness_local) || (v.witness == witness_remote)
    then (deref_big jp.bigs v.event.round_id >>= λ n.
        if opens v.witness n jp.current_idx
        then (start_round v.event.round_id jp >>= λ jp'. done (true, jp'))
        else done (false, jp))
    else done (false, jp)

-- The position, from i on, of the round of number n.
unfoldable pub index_of : ℤ → ℕ → List Round → Option ℕ
index_of n i [] = none
index_of n i (r ∷ rs) =
    let rest = index_of n (suc i) rs in if eq_ℤ n (pos r.index) then some i else rest

-- The loop over the queue: `round` is nil where no round has the number.
unfoldable pub round_of : List ℤ → BigRef → List Round → Outcome (Option ℕ)
unfolding deref_big index_of
round_of bigs rid [] = done none
round_of bigs rid (r ∷ rs) = deref_big bigs rid >>= λ n. done (index_of n 0 (r ∷ rs))

-- The loop over the slots from idx on: the first empty one of the next `count`, else the end.
unfoldable pub first_missing : ℕ → ℕ → List VertexRef → Outcome ℕ
first_missing zero idx ws = done idx
first_missing (suc count) idx [] = panic
first_missing (suc count) idx (none ∷ ws) = done idx
first_missing (suc count) idx (some w ∷ ws) = first_missing count (suc idx) ws

-- The witness is put into its slot; a full round is announced.
unfoldable pub fill_slot : ℕ → ℕ → ℕ → Round → JpGraph → Outcome JpGraph
unfolding set_witness first_missing
fill_slot p seq i r jp = set_witness seq p r >>= λ r1.
    first_missing r1.broadness 0 r1.witnesses >>= λ idx. done (record jp {
      queue = update_round i (λ _. r1) jp.queue;
      consensus_trigger =
          if idx == r1.broadness
          then jp.consensus_trigger ++ r1.index ∷ []
          else jp.consensus_trigger;
    })

unfoldable pub fill_found : ℕ → ℕ → Option ℕ → JpGraph → Outcome JpGraph
unfolding fill_slot
fill_found p seq none jp = done jp
fill_found p seq (some i) jp = elim (get_elem? jp.queue i) [
  | none ↦ panic
  | some r ↦ fill_slot p seq i r jp
]

-- A message of `roundTrigger`, the vertex p.
unfoldable pub on_trigger : ℕ → Bool → JpGraph → Outcome (Bool × JpGraph)
unfolding open_round round_of fill_found deref_vertex
on_trigger p wtriggered jp = do
  v ← deref_vertex jp.vertices p
  (opened, jp1) ← open_round v jp
  i ← round_of jp1.bigs v.event.round_id jp1.queue
  jp2 ← fill_found p v.seq_num i jp1
  done ((if opened then false else wtriggered), jp2)

-- What `RoundLoop` receives: a vertex or a message of `lostTrigger`.
pub data RoundSignal : Type 0 where
  round_triggered : ℕ → RoundSignal
  lost_triggered : RoundSignal

-- One turn of the loop, with how often it started `WitnessFame`.
unfoldable pub round_step : RoundSignal → ℕ → Bool → JpGraph → Outcome (ℕ × Bool × JpGraph)
unfolding on_trigger
round_step (round_triggered p) fames wtriggered jp =
    on_trigger p wtriggered jp >>= λ (w, jp'). done (fames, w, jp')
round_step lost_triggered fames wtriggered jp =
    done ((if wtriggered then suc fames else fames), wtriggered, jp)

-- The loop from its start, where `wtriggered` is false.
unfoldable pub round_loop : List RoundSignal → ℕ → Bool → JpGraph → Outcome (ℕ × Bool × JpGraph)
unfolding round_step
round_loop [] fames wtriggered jp = done (fames, wtriggered, jp)
round_loop (g ∷ gs) fames wtriggered jp =
    round_step g fames wtriggered jp >>= λ (n, w, jp'). round_loop gs n w jp'
