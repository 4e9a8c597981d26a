-- ===== src/Examples/Searches.antt =====
-- Two vertices of which one sees the other, an event for a new graph, and two rounds of two peers.
use go_hashgrid.Common.{
  ℕ, zero, suc, ◌≤◌, ◌<◌, ◌≡◌, refl, ap, subst, ◌≢◌, Bool, true, false, none, some, List, [], ◌∷◌,
  arith, length, get_elem?, pos, done,
}
use go_hashgrid.Jigsaw.State.{Vertex, Round, JpGraph, normal, max_node_count, deref_big}
use go_hashgrid.Jigsaw.Validate.{validate_event}
use go_hashgrid.Jigsaw.AddEvent.{add_event, ensure_columns}
use go_hashgrid.Jigsaw.AddEvent.Placed.{IsPlaced, new-IsPlaced}
use go_hashgrid.Jigsaw.AddEvent.Returns.{IsReady, add_event-returns}
use go_hashgrid.Jigsaw.AddEvent.Sends.{Sends, Taken, HasRoom, IsWithin}
use go_hashgrid.Round.Rounds.{new_round}
use go_hashgrid.Round.Search.{judge_see}
use go_hashgrid.Round.Search.Seen.{bare, bare_at}
use go_hashgrid.Round.Search.Explored.{white_at}
use go_hashgrid.Round.Search.Visits.{IsVertex, InRange}
use go_hashgrid.Round.Search.Exact.{Judged, judge_see-Judged}
use go_hashgrid.Round.Monitor.{witness_fame}
use go_hashgrid.Round.Monitor.Tables.{witness_fame-new_round}
use go_hashgrid.Examples.Values.{me, sample_hasher, start, opened}
use go_hashgrid.Examples.Graphs.{first_event}
use go_hashgrid.Examples.Rounds.{vertex, visit, visit-IsColored}

-- Vertex 1 of column 1 has vertex 0 of column 0 as its other parent.
abbrev pair : JpGraph
pair = record start { vertices = visit.vertices }

pair-InRange : InRange pair.broadness pair.vertices
unfolding opened
pair-InRange = record { columns = columns; selfs = selfs; others = others }
  where
    columns : (p : ℕ) (v : Vertex) → bare_at visit.vertices p ≡ some v → v.seq_num < 2
    columns zero v h =
        let same : bare (vertex 0 none none) ≡ v = cc h in
        subst (λ (x : Vertex). x.seq_num < 2) same (omega arith)
    columns (suc zero) v h =
        let same : bare (vertex 1 none (some 0)) ≡ v = cc h in
        subst (λ (x : Vertex). x.seq_num < 2) same (omega arith)
    columns (suc (suc p)) v h = absurd (cc h)

    selfs :
        (p u : ℕ) (v : Vertex)
        → bare_at visit.vertices p ≡ some v
        → v.self_pt ≡ some u
        → IsVertex visit.vertices u
    selfs zero u v h next =
        let same : bare (vertex 0 none none) ≡ v = cc h in
        absurd (cc (ap (λ (x : Vertex). x.self_pt) same, next))
    selfs (suc zero) u v h next =
        let same : bare (vertex 1 none (some 0)) ≡ v = cc h in
        absurd (cc (ap (λ (x : Vertex). x.self_pt) same, next))
    selfs (suc (suc p)) u v h next = absurd (cc h)

    others :
        (p u : ℕ) (v : Vertex)
        → bare_at visit.vertices p ≡ some v
        → v.another_pt ≡ some u
        → IsVertex visit.vertices u
    others zero u v h next =
        let same : bare (vertex 0 none none) ≡ v = cc h in
        absurd (cc (ap (λ (x : Vertex). x.another_pt) same, next))
    others (suc zero) u v h next =
        let same : bare (vertex 1 none (some 0)) ≡ v = cc h in
        let parent : 0 ≡ u = cc (ap (λ (x : Vertex). x.another_pt) same, next) in
        subst (IsVertex visit.vertices) parent (bare (vertex 0 none none), refl)
    others (suc (suc p)) u v h next = absurd (cc h)

pair_white : (u : ℕ) → white_at 0 visit.vertices u ≡ true
pair_white zero = refl
pair_white (suc zero) = refl
pair_white (suc (suc u)) = refl

judge_see-Judged_example :
    (see : ℕ) × (strong : Bool) × (vs : List Vertex) × (judge_see 0 pair (some 1) (some 0)
      ≡ done (see, strong, vs))
    × Judged pair 1 0 see strong vs
judge_see-Judged_example =
    judge_see-Judged 0 1 0 pair visit-IsColored pair-InRange (bare (vertex 1 none (some 0)), refl)
      (bare (vertex 0 none none), refl) (λ u r. pair_white u)

-- It sees it, and strongly.
pair_seen : (vs : List Vertex) × (judge_see 0 pair (some 1) (some 0) ≡ done (1, true, vs))
unfolding judge_see opened
pair_seen = (_, refl)

start-IsPlaced : IsPlaced start
start-IsPlaced = let h = new-IsPlaced me 2 in record { numbered = h.numbered; seated = h.seated }

start_rooms :
    (i : ℕ) (r : Round)
    → get_elem? start.queue i ≡ some r
    → (length (ensure_columns first_event start).graph ≤ length r.witnesses) × (r.nc_held ≡ false)
unfolding opened ensure_columns new_round
start_rooms zero r h =
    let same : new_round 2 0 ≡ r = cc h in
    subst (λ x. (2 ≤ length x.witnesses) × (x.nc_held ≡ false)) same (omega arith, refl)
start_rooms (suc i) r h = absurd (cc h)

start-IsReady : IsReady first_event start
unfolding opened deref_big
start-IsReady = record {
  number = pos 0;
  readable = refl;
  roomy = λ i r h. (start_rooms i r h).0;
  free = λ i r h. (start_rooms i r h).1;
}

abbrev untaken : Taken
untaken = record { requests = 0; created = 0; triggers = 0 }

start-HasRoom : HasRoom untaken start
unfolding opened
start-HasRoom = record { requests = omega arith; created = omega arith; triggers = omega arith }

add_event-returns_example :
    (jp' : JpGraph) × (add_event sample_hasher first_event normal start
      ≡ done (validate_event sample_hasher first_event, jp'))
    × Sends 1 1 1 start jp'
    × IsWithin untaken jp'
add_event-returns_example =
    add_event-returns sample_hasher first_event normal start untaken start-IsPlaced start-IsReady
      start-HasRoom

abbrev two_rounds : JpGraph
two_rounds = record start { queue = new_round 2 1 ∷ new_round 2 0 ∷ [] }

new_slots :
    (length (new_round 2 1).witnesses ≡ max_node_count)
    × (length (new_round 2 0).witnesses ≡ max_node_count)
unfolding new_round
new_slots = (refl, refl)

witness_fame-new_round_example : witness_fame 5 two_rounds ≢ done two_rounds
witness_fame-new_round_example =
    witness_fame-new_round 5 2 1 two_rounds two_rounds (new_round 2 1) (new_round 2 0) [] refl
      new_slots.0 new_slots.1 refl (omega arith) (omega arith)
