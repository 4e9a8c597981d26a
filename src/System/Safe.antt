-- ===== src/System/Safe.antt =====
-- What holds of a node from its start on, whatever comes and in whatever order.
use go_hashgrid.Common.{
  ◌≡◌, refl, sym, ap, subst, ◌∙◌, inl, inr, false, Option, ltb, ◌==◌, Bool-cases, Option-cases,
  Bytes, done, >>=-eq-done, done-injective,
}
use go_hashgrid.Types.Event.{Hasher}
use go_hashgrid.Jigsaw.State.{JpGraph, deref_big}
use go_hashgrid.Jigsaw.AddEvent.Links.{add_event-WellLinked}
use go_hashgrid.Jigsaw.AddEvent.Place.{IsWellLinked}
use go_hashgrid.Jigsaw.AddEvent.Placed.{IsPlaced, add_event-IsPlaced}
use go_hashgrid.Jigsaw.AddEvent.Chains.{IsDescending, add_event-IsDescending}
use go_hashgrid.Jigsaw.Compose.{compose_event}
use go_hashgrid.Round.Loop.Laws.{IsStacked, round_step-IsStacked}
use go_hashgrid.Node.{
  NodeLoop, NodeSignal, event_came, witness_l_came, witness_r_came, only_time, over_flow,
  request_came, add_current, on_only_time, on_over_flow, select_case, node_step,
}
use go_hashgrid.Types.Event.{max_trans_in_event}
use go_hashgrid.Jigsaw.State.{witness_local}
use go_hashgrid.P2p.Peer.{Codec}
use go_hashgrid.Hgrid.{Node, Unmarshal, main}
use go_hashgrid.Hgrid.Laws.{main-Fresh}
use go_hashgrid.System.{
  System, with_graph, Step, turn, add, message, round_turn, monitor_turn, Run, here, next,
}
use go_hashgrid.System.Calm.{
  Calm, Calm-refl, Calm-IsPlaced, Calm-WellLinked, Calm-IsDescending, Same-Calm, Same-IsStacked,
}
use go_hashgrid.System.Calls.{handle-Same, compose_event-Calm}
use go_hashgrid.System.Turns.{round_step-Calm}
use go_hashgrid.System.Monitoring.{monitor_step-Looks, Looks-Calm, Looks-IsStacked}
use go_hashgrid.System.Numbers.{add_event-IsStacked}

-- The links of the graph are right, its columns are numbered chains down to older vertices, its
-- rounds are numbered without a gap, and `WitnessFame` was never started.
pub record IsSafe (s : System) : Type 0 where
  pub linked : IsWellLinked s.loop.jigsaw
  pub descending : IsDescending s.loop.jigsaw
  pub placed : IsPlaced s.loop.jigsaw
  pub stacked : IsStacked s.loop.jigsaw
  pub untriggered : s.wtriggered ≡ false
  pub never : s.fames ≡ 0

-- A step that is calm and keeps the numbers.
abbrev pub Fine : JpGraph → JpGraph → Type 0
Fine jp jp' = Calm jp jp' × (IsStacked jp → IsStacked jp')

Fine-refl : (jp : JpGraph) → Fine jp jp
Fine-refl jp = (Calm-refl jp, λ s. s)

add_current-jigsaw : (nd : NodeLoop) → (add_current nd).jigsaw ≡ nd.jigsaw
unfolding add_current
add_current-jigsaw nd = elim (Bool-cases (nd.ty == witness_local)) [
  | inl e ↦ rw (e, add_current)
  | inr e ↦ elim (Option-cases nd.et) [
    | inl o ↦ rw (e, o, add_current)
    | inr (x, o) ↦ rw (e, o, add_current)
  ]
]

unchanged :
    (nd nd1 nd' : NodeLoop)
    → done nd1 ≡ done nd'
    → nd1.jigsaw ≡ nd.jigsaw
    → Fine nd.jigsaw nd'.jigsaw
unchanged nd nd1 nd' h e =
    subst (Fine nd.jigsaw) (sym e ∙ ap (λ (x : NodeLoop). x.jigsaw) (done-injective nd1 nd' h))
      (Fine-refl nd.jigsaw)

select_case-Fine :
    (k : Hasher) (g : NodeSignal) (nd nd' : NodeLoop)
    → select_case k g nd ≡ done nd'
    → Fine nd.jigsaw nd'.jigsaw
unfolding select_case on_only_time on_over_flow
select_case-Fine k (event_came e) nd nd' h = unchanged nd _ nd' h refl
select_case-Fine k (witness_l_came e) nd nd' h = unchanged nd _ nd' h refl
select_case-Fine k (witness_r_came e) nd nd' h =
    let (n, read, h1) = >>=-eq-done (deref_big nd.jigsaw.bigs e.round_id) _ h in
    unchanged nd _ nd' h1 refl
select_case-Fine k (only_time now to) nd nd' h =
    let ((e, jp), composed, h1) = >>=-eq-done (compose_event k now to nd.jigsaw) _ h in
    subst (Fine nd.jigsaw) (ap (λ (x : NodeLoop). x.jigsaw) (done-injective _ nd' h1))
      (compose_event-Calm k now to nd.jigsaw jp e composed)
select_case-Fine k (over_flow now to) nd nd' h =
    elim (Bool-cases (ltb max_trans_in_event nd.trans_seen)) [
      | inr few ↦ unchanged nd nd nd' (rw (few, on_over_flow) at h) refl
      | inl many ↦
          let ((e, jp), composed, h1) =
            >>=-eq-done (compose_event k now to nd.jigsaw) _ (rw (many, on_over_flow) at h) in
          subst (Fine nd.jigsaw) (ap (λ (x : NodeLoop). x.jigsaw) (done-injective _ nd' h1))
            (compose_event-Calm k now to nd.jigsaw jp e composed)
    ]
select_case-Fine k (request_came r) nd nd' h = unchanged nd _ nd' h refl

pub node_step-Fine :
    (k : Hasher) (g : NodeSignal) (nd nd' : NodeLoop)
    → node_step k g nd ≡ done nd'
    → Fine nd.jigsaw nd'.jigsaw
unfolding node_step
node_step-Fine k g nd nd' h =
    let (nd1, selected, h1) = >>=-eq-done (select_case k g nd) _ h in
    subst (Fine nd.jigsaw)
      (sym (add_current-jigsaw nd1)
        ∙ ap (λ (x : NodeLoop). x.jigsaw) (done-injective (add_current nd1) nd' h1))
      (select_case-Fine k g nd nd1 selected)

-- A fine step of the graph that leaves `RoundLoop` alone.
Fine-IsSafe :
    (s t : System)
    → Fine s.loop.jigsaw t.loop.jigsaw
    → t.wtriggered ≡ s.wtriggered
    → t.fames ≡ s.fames
    → IsSafe s
    → IsSafe t
Fine-IsSafe s t (calm, numbers) w f safe = record {
  linked = Calm-WellLinked s.loop.jigsaw t.loop.jigsaw calm safe.linked;
  descending = Calm-IsDescending s.loop.jigsaw t.loop.jigsaw calm safe.descending;
  placed = Calm-IsPlaced s.loop.jigsaw t.loop.jigsaw calm safe.placed;
  stacked = numbers safe.stacked;
  untriggered = w ∙ safe.untriggered;
  never = f ∙ safe.never;
}

Step-IsSafe : (k : Hasher) (c : Codec) (s t : System) → Step k c s t → IsSafe s → IsSafe t
Step-IsSafe k c s t (turn g nd h e) safe =
    subst IsSafe (sym e)
      (Fine-IsSafe s (record s { loop = nd }) (node_step-Fine k g s.loop nd h) refl refl safe)
Step-IsSafe k c s t (add xs ys ev ty b jp now h e) safe =
    let old = s.loop.jigsaw in
    subst IsSafe (sym e) (record {
      linked = add_event-WellLinked k ev ty old jp b safe.linked h;
      descending = add_event-IsDescending k ev ty old jp b safe.descending h;
      placed = add_event-IsPlaced k ev ty old jp b safe.placed h;
      stacked = add_event-IsStacked k ev ty old jp b h safe.stacked;
      untriggered = safe.untriggered;
      never = safe.never;
    })
Step-IsSafe k c s t (message msg r jp h e) safe =
    let same = handle-Same c msg s.loop.jigsaw jp r h in
    subst IsSafe (sym e) (
      Fine-IsSafe s (with_graph s jp)
        (Same-Calm s.loop.jigsaw jp same, Same-IsStacked s.loop.jigsaw jp same) refl refl safe)
Step-IsSafe k c s t (round_turn g n w jp h e) safe =
    let old = s.loop.jigsaw in
    let calm = round_step-Calm g s.fames n s.wtriggered w old jp h in
    let (stacked, kept, off) =
      round_step-IsStacked g s.fames n w old jp (rw safe.untriggered at h) safe.stacked in
    subst IsSafe (sym e) (record {
      linked = Calm-WellLinked old jp calm safe.linked;
      descending = Calm-IsDescending old jp calm safe.descending;
      placed = Calm-IsPlaced old jp calm safe.placed;
      stacked = stacked;
      untriggered = off;
      never = kept ∙ safe.never;
    })
Step-IsSafe k c s t (monitor_turn fuel rd p n jp h e) safe =
    let looks = monitor_step-Looks fuel rd p s.round_num n s.loop.jigsaw jp h in
    subst IsSafe (sym e) (
      Fine-IsSafe s (record (with_graph s jp) { round_num = n })
        (Looks-Calm s.loop.jigsaw jp looks, Looks-IsStacked s.loop.jigsaw jp looks) refl refl safe)

Run-IsSafe : (k : Hasher) (c : Codec) (s t : System) → IsSafe s → Run k c s t → IsSafe t
Run-IsSafe k c s t safe here = safe
Run-IsSafe k c s t safe (next {t = u} run step) =
    Step-IsSafe k c u t step (Run-IsSafe k c s u safe run)

-- The node when its loops start.
abbrev pub at_start : NodeLoop → System
at_start nl = record { loop = nl; fames = 0; wtriggered = false; round_num = 0 }

Fresh-IsSafe :
    (u : Unmarshal) (file laddr : Option Bytes) (nd : Node) (nl : NodeLoop)
    → main u file laddr ≡ done (nd, nl)
    → IsSafe (at_start nl)
Fresh-IsSafe u file laddr nd nl h = elim (main-Fresh u file laddr) [
  | inl (no_peers, stuck) ↦ absurd (cc (stuck, h))
  | inr (nd1, nl1, started, fresh) ↦
      let same = done-injective (nd1, nl1) (nd, nl) (sym started ∙ h) in
      subst (λ (x : Node × NodeLoop). IsSafe (at_start x.1)) same
        (record {
          linked = fresh.linked;
          descending = fresh.descending;
          placed = fresh.placed;
          stacked = fresh.stacked;
          untriggered = refl;
          never = refl;
        })
]

-- Whatever configuration `main` starts a node from, and whatever then happens in whatever order, with
-- timers, events, messages of peers, calls of `AddEvent` that run later than they were started and
-- turns of `RoundLoop` and `MonitorLoop`, provided that no two of these calls overlap in time: the
-- links of the graph are right, every top of a column is a vertex and every self parent is older than
-- its child, columns are numbered from 0 without a gap and every vertex has the number of a column
-- and four colors, the rounds in the queue are numbered from `currentIdx` down to 0, and `RoundLoop`
-- has never started `WitnessFame`.
pub main-IsSafe :
    (k : Hasher) (c : Codec) (u : Unmarshal) (file laddr : Option Bytes) (nd : Node) (nl : NodeLoop)
    (t : System)
    → main u file laddr ≡ done (nd, nl)
    → Run k c (at_start nl) t
    → IsSafe t
main-IsSafe k c u file laddr nd nl t h run =
    Run-IsSafe k c (at_start nl) t (Fresh-IsSafe u file laddr nd nl h) run
