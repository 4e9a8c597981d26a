-- ===== src/Round/Monitor.antt =====
-- `MonitorLoop` and `WitnessFame` of core/round.go.
pub mod Tables
pub mod Look
use go_hashgrid.Common.{
  ℕ, zero, suc, ◌+◌, Bool, not, ◌&&◌, ◌||◌, none, some, List, [], ◌∷◌, ◌++◌, ltb, ◌==◌,
  if◌then◌else◌, length, get_elem?, set, Outcome, done, panic, ◌>>=◌,
}
use go_hashgrid.Jigsaw.State.{
  Vertex, VertexRef, Round, JpGraph, witness_local, famous_witness, update_vertex, update_round,
  deref_vertex,
}
use go_hashgrid.Round.Search.{judge_see, clear_color_dfs}

-- `ColorClusterRound`, `ColorClusterVote` and `RoundMax`.
abbrev pub color_cluster_round : ℕ
color_cluster_round = 0

abbrev pub color_cluster_vote : ℕ
color_cluster_vote = 1

abbrev pub round_max : ℕ
round_max = 10

-- `clearColorDFS` and then `JudgeSee`: what is seen, and the graph with its new colors.
unfoldable pub look : ℕ → ℕ → ℕ → JpGraph → VertexRef → VertexRef → Outcome (ℕ × Bool × JpGraph)
unfolding judge_see clear_color_dfs
look fuel idx cluster jp s e = do
  jp1 ← clear_color_dfs fuel idx cluster jp
  (v, k, vs) ← judge_see cluster jp1 s e
  done (v, k, record jp1 { vertices = vs })

-- The loop of `MonitorLoop` over the next `count` slots: how many witnesses are strongly seen.
unfoldable pub count_seen : ℕ → ℕ → ℕ → List VertexRef → ℕ → JpGraph → Outcome (ℕ × JpGraph)
unfolding look
count_seen fuel idx zero ws seen jp = done (seen, jp)
count_seen fuel idx (suc count) [] seen jp = panic
count_seen fuel idx (suc count) (none ∷ ws) seen jp = count_seen fuel idx count ws seen jp
count_seen fuel idx (suc count) (some w ∷ ws) seen jp =
    look fuel idx color_cluster_round jp jp.monitor_starter (some w) >>= λ (v, k, jp').
    count_seen fuel idx count ws (if k then suc seen else seen) jp'

-- The vertex p becomes a witness of this node, and is sent on two channels.
unfoldable pub elect : ℕ → Vertex → JpGraph → JpGraph
elect p v jp = record jp {
  witness_l = jp.witness_l ++ v.event ∷ [];
  vertices = update_vertex p (λ u. record u { witness = witness_local }) jp.vertices;
  round_trigger = jp.round_trigger ++ p ∷ [];
}

-- One turn of `MonitorLoop` on the vertex p received, with `roundNum` and the round read before it
-- came; `roundNum` afterwards.
unfoldable pub monitor_step : ℕ → Round → ℕ → ℕ → JpGraph → Outcome (ℕ × JpGraph)
unfolding count_seen elect deref_vertex
monitor_step fuel rd p round_num jp =
    let jp1 = record jp { monitor_starter = some p } in
    if not (jp.broadness == length jp.graph)
    then done (round_num, jp1)
    else (count_seen fuel rd.index rd.broadness rd.witnesses 0 jp1 >>= λ (seen, jp2).
        deref_vertex jp2.vertices p >>= λ v.
        if ltb jp2.super_majority seen || ((v.seq_num == 0) && (suc round_num == round_max))
        then done (0, elect p v jp2)
        else done (suc round_num, jp2))

-- `xs[i] = a`, out of range a panic.
unfoldable pub put_at {ℓ} : {A : Type ℓ} → ℕ → A → List A → Outcome (List A)
put_at i a xs = if ltb i (length xs) then done (set xs i a) else panic

-- `xss[i][j] = a`
unfoldable pub put_cell {ℓ} : {A : Type ℓ} → ℕ → ℕ → A → List (List A) → Outcome (List (List A))
unfolding put_at
put_cell i j a xss = elim (get_elem? xss i) [
  | none ↦ panic
  | some row ↦ (put_at j a row >>= λ row'. put_at i row' xss)
]

-- The inner loop of `WitnessFame` from j on: the votes of the witness n of slot i on those of the
-- round before.
unfoldable pub vote_row :
    ℕ → ℕ → ℕ → ℕ → VertexRef → List VertexRef → Round → JpGraph → Outcome (Round × JpGraph)
unfolding look put_cell
vote_row fuel idx i j n [] rd jp = done (rd, jp)
vote_row fuel idx i j n (w ∷ ws) rd jp = look fuel idx color_cluster_vote jp n w >>= λ (v, k, jp').
    put_cell i j v rd.votes >>= λ votes. put_cell i j k rd.strongsee >>= λ strongsee.
    vote_row fuel idx i (suc j) n ws (record rd { votes = votes; strongsee = strongsee }) jp'

-- The outer loop from i on.
unfoldable pub vote_rows :
    ℕ → ℕ → ℕ → List VertexRef → List VertexRef → Round → JpGraph → Outcome (Round × JpGraph)
unfolding vote_row
vote_rows fuel idx i [] ws rd jp = done (rd, jp)
vote_rows fuel idx i (n ∷ ns) ws rd jp =
    vote_row fuel idx i 0 n ws rd jp >>= λ (rd', jp'). vote_rows fuel idx (suc i) ns ws rd' jp'

-- The votes of a row that count; both tables are as large as `NewRound` makes them.
unfoldable pub strong_votes : List Bool → List ℕ → ℕ
strong_votes [] vs = 0
strong_votes (k ∷ ks) [] = 0
strong_votes (k ∷ ks) (v ∷ vs) = let rest = strong_votes ks vs in if k then v + rest else rest

unfoldable pub total_votes : List (List Bool) → List (List ℕ) → List ℕ
unfolding strong_votes
total_votes [] vs = []
total_votes (k ∷ ks) [] = []
total_votes (k ∷ ks) (v ∷ vs) = strong_votes k v ∷ total_votes ks vs

-- The last loop: a total above the super majority makes the witness of that slot famous.
unfoldable pub make_famous : ℕ → List ℕ → List VertexRef → List Vertex → Outcome (List Vertex)
make_famous majority [] ws vs = done vs
make_famous majority (t ∷ ts) [] vs =
    if ltb majority t then panic else make_famous majority ts [] vs
make_famous majority (t ∷ ts) (none ∷ ws) vs =
    if ltb majority t then panic else make_famous majority ts ws vs
make_famous majority (t ∷ ts) (some w ∷ ws) vs =
    make_famous majority ts ws (
      if ltb majority t
      then update_vertex w (λ v. record v { witness = famous_witness }) vs
      else vs)

-- `WitnessFame`
unfoldable pub witness_fame : ℕ → JpGraph → Outcome JpGraph
unfolding vote_rows total_votes make_famous
witness_fame fuel jp = elim jp.queue [
  | [] ↦ panic
  | rd ∷ rds ↦ elim rds [
    | [] ↦ done jp
    | rd1 ∷ older ↦
        (vote_rows fuel rd1.index 0 rd.witnesses rd1.witnesses rd jp >>= λ (rd', jp').
        let jp'' = record jp' { queue = update_round 0 (λ _. rd') jp'.queue } in
        elim older [
          | [] ↦ done jp''
          | rd2 ∷ _ ↦
              (make_famous jp.super_majority (total_votes rd'.strongsee rd'.votes) rd2.witnesses
                  jp''.vertices
                >>= λ vs. done (record jp'' { vertices = vs }))
        ])
  ]
]
