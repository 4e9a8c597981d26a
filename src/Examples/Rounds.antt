-- ===== src/Examples/Rounds.antt =====
-- A round with comers, and a search in a graph of two vertices.
use go_hashgrid.Common.{
  ℕ, ◌≡◌, refl, ◌≢◌, true, false, none, some, [], ◌∷◌, ◌++◌, arith, if◌then◌else◌, replicate, done,
  blocked,
}
use go_hashgrid.Types.Event.{RequestArg}
use go_hashgrid.Jigsaw.State.{Round, Vertex, VertexRef, normal}
use go_hashgrid.Round.Rounds.{new_round, add_comer, has_comer, rand_parent, empty_arg}
use go_hashgrid.Round.Parents.{has_other, AllNamed, rand_parent_lem, add_comer_lem}
use go_hashgrid.Round.Search.{Visit}
use go_hashgrid.Round.Search.Depth.{IsColored}
use go_hashgrid.Types.Address
use go_hashgrid.Types.Address.{Address, zero_address}
use go_hashgrid.Round.Loop.{RoundSignal, round_triggered, lost_triggered, round_loop}
use go_hashgrid.Round.Loop.Laws.{IsStacked, round_loop-IsStacked}
use go_hashgrid.Jigsaw.Create.{new_jp_graph}
use go_hashgrid.Jigsaw.State.{witness_local, JpGraph}
use go_hashgrid.Common.{lookup, List, Bool, pos, panic, blocked, out_of_fuel}
use go_hashgrid.Examples.Values.{me, you, sample_event}

-- A request for the event that `you` made at time n.
abbrev comer : ℕ → RequestArg
comer n = record { target_hash = replicate 31 0 ++ n ∷ []; target_addr = you; refered = 0 }

abbrev waiting : Round
waiting = record (new_round 2 0) { new_comer = comer 5 ∷ comer 6 ∷ [] }

waiting_facts : (waiting.nc_held ≡ false) × (waiting.new_comer ≢ []) × AllNamed waiting.new_comer
unfolding new_round Address.compare
waiting_facts = (refl, λ e. cc, ground arith)

rand_parent_example :
    (rd' : Round) × (rand_parent me 1 waiting
      ≡ done ((if has_other me waiting.new_comer then none else some empty_arg), rd'))
rand_parent_example = rand_parent_lem me 1 waiting waiting_facts.0 waiting_facts.1 waiting_facts.2

add_comer_example :
    (rd' : Round) × (add_comer (comer 6) waiting ≡ done rd')
    × (has_comer (comer 6).target_hash waiting.new_comer ≡ false
        → (rd'.nc_held ≡ false) × (rd'.new_comer ≡ waiting.new_comer ++ comer 6 ∷ []))
    × (has_comer (comer 6).target_hash waiting.new_comer ≡ true
        → ((q : RequestArg) → add_comer q rd' ≡ blocked)
          × ((except : Address) (to : ℕ) → rand_parent except to rd' ≡ blocked))
add_comer_example = add_comer_lem (comer 6) waiting waiting_facts.0

-- A vertex of column n, all white, on top of another.
abbrev pub vertex : ℕ → VertexRef → VertexRef → Vertex
vertex n self other = record {
  event = sample_event you n you 0;
  color = replicate 3 0;
  witness = normal;
  another_pt = other;
  self_pt = self;
  seq_num = n;
}

abbrev pub visit : Visit
visit = record { trace = 0 ∷ 0 ∷ []; vertices = vertex 0 none none ∷ vertex 1 none (some 0) ∷ [] }

pub visit-IsColored : IsColored 0 visit.vertices
visit-IsColored = (omega arith, (omega arith, tt))

-- A graph whose only vertex is a witness of this node of round 0.
abbrev with_witness : JpGraph
with_witness = record (new_jp_graph me 2) {
  vertices =
      record (vertex 0 none none) { event = sample_event me 5 you 4; witness = witness_local } ∷ [];
  bigs = pos 0 ∷ [];
}

abbrev signals : List RoundSignal
signals = round_triggered 0 ∷ lost_triggered ∷ []

abbrev looped : ℕ × Bool × JpGraph
looped = elim (round_loop signals 0 false with_witness) [
  | done r ↦ r
  | panic ↦ (7, true, with_witness)
  | blocked ↦ (7, true, with_witness)
  | out_of_fuel ↦ (7, true, with_witness)
]

looped_run : round_loop signals 0 false with_witness ≡ done (looped.0, looped.1, looped.2)
unfolding round_loop new_jp_graph lookup
looped_run = refl

with_witness-IsStacked : IsStacked with_witness
unfolding new_jp_graph lookup
with_witness-IsStacked = (refl, refl)

round_loop-IsStacked_example : IsStacked looped.2 × (looped.0 ≡ 0)
round_loop-IsStacked_example =
    round_loop-IsStacked signals 0 looped.0 looped.1 with_witness looped.2 with_witness-IsStacked
      looped_run
