-- ===== src/Node.antt =====
-- `EventHandle` of node/node.go, one message of its channels and timers at a time.
use go_hashgrid.Common.{
  ℕ, suc, ◌≡◌, refl, ap, subst, ◌∙◌, inl, inr, Bool, true, false, ◌&&◌, ◌||◌, Option, none, some,
  List, [], ◌∷◌, ◌++◌, ltb, leb, ◌==◌, if◌then◌else◌, Bool-cases, Option-cases, ℤ, pos, negsuc,
  eq_ℤ, Outcome, done, ◌>>=◌, >>=-eq-done, done-injective,
}
use go_hashgrid.Types.Event.{Event, RequestArg, Hasher, max_trans_in_event}
use go_hashgrid.Jigsaw.State.{
  JpGraph, normal, witness_remote, witness_local, deref_big, current_round,
}
use go_hashgrid.Jigsaw.Compose.{compose_event}
use go_hashgrid.Jigsaw.Compose.Laws.{compose_event-validates}
use go_hashgrid.Jigsaw.Validate.{validate_event}

-- The variables of `EventHandle`. `adds`, `broadcasts` and `requests` list the calls of `AddEvent`,
-- `BroadcastEvent` and `RequestEvent` that it has started, oldest first, and `trans_seen` is the
-- length of the slice that `TransUnHandled` gave before the loop.
pub record NodeLoop : Type 0 where
  pub jigsaw : JpGraph
  pub et : Option Event
  pub ty : ℕ
  pub round_comming : Bool
  pub trans_seen : ℕ
  pub adds : List (Event × ℕ)
  pub broadcasts : List (Event × ℕ)
  pub requests : List RequestArg

-- What the loop receives; a timer comes with the time and the random index of `ComposeEvent`.
pub data NodeSignal : Type 0 where
  event_came witness_l_came witness_r_came : Event → NodeSignal
  only_time over_flow : ℤ → ℕ → NodeSignal
  request_came : RequestArg → NodeSignal

-- `myInterval`
unfoldable pub my_interval : ℤ → ℕ
my_interval (pos n) = if leb 100 n && leb n 1000 then n else 1000
my_interval (negsuc n) = 1000

-- The end of a turn: the event at hand is added unless its type is that of a local witness.
unfoldable pub add_current : NodeLoop → NodeLoop
add_current nd =
    if nd.ty == witness_local
    then nd
    else elim nd.et [ none ↦ nd | some e ↦ record nd { adds = nd.adds ++ (e, nd.ty) ∷ [] } ]

-- The composed event is broadcast.
abbrev pub send_own : Event → JpGraph → NodeLoop → NodeLoop
send_own e jp nd = record nd {
  jigsaw = jp;
  et = some e;
  round_comming = false;
  broadcasts = nd.broadcasts ++ (e, (if nd.round_comming then witness_remote else normal)) ∷ [];
}

-- The timer `onlyTime`.
unfoldable pub on_only_time : Hasher → ℤ → ℕ → NodeLoop → Outcome NodeLoop
on_only_time k now to nd = compose_event k now to nd.jigsaw >>= λ (e, jp). done (send_own e jp nd)

-- The timer `overFlow`.
unfoldable pub on_over_flow : Hasher → ℤ → ℕ → NodeLoop → Outcome NodeLoop
on_over_flow k now to nd =
    if ltb max_trans_in_event nd.trans_seen
    then (compose_event k now to nd.jigsaw >>= λ (e, jp).
        done (record nd { jigsaw = jp; et = some e; round_comming = false }))
    else done nd

-- The case of the `select` that a signal takes.
unfoldable pub select_case : Hasher → NodeSignal → NodeLoop → Outcome NodeLoop
unfolding on_only_time on_over_flow deref_big
select_case k (event_came e) nd = done (record nd { et = some e; ty = normal })
select_case k (witness_l_came e) nd = done (record nd {
  et = some e;
  ty = witness_local;
  broadcasts = nd.broadcasts ++ (e, witness_remote) ∷ [];
})
select_case k (witness_r_came e) nd = deref_big nd.jigsaw.bigs e.round_id >>= λ n. done (record nd {
  et = some e;
  ty = witness_remote;
  round_comming = eq_ℤ n (pos (suc (current_round nd.jigsaw))) || nd.round_comming;
})
select_case k (only_time now to) nd = on_only_time k now to nd
select_case k (over_flow now to) nd = on_over_flow k now to nd
select_case k (request_came r) nd = done (record nd { requests = nd.requests ++ r ∷ [] })

unfoldable pub node_step : Hasher → NodeSignal → NodeLoop → Outcome NodeLoop
unfolding select_case add_current
node_step k g nd = select_case k g nd >>= λ nd'. done (add_current nd')

unfoldable pub node_run : Hasher → List NodeSignal → NodeLoop → Outcome NodeLoop
unfolding node_step
node_run k [] nd = done nd
node_run k (g ∷ gs) nd = node_step k g nd >>= λ nd'. node_run k gs nd'

-- What the timer `onlyTime` does to the loop, for the event composed.
pub record Ticked (k : Hasher) (nd nd' : NodeLoop) (e : Event) : Type 0 where
  pub valid : validate_event k e ≡ true
  pub own : e.self_sig.addr ≡ nd.jigsaw.coinbase
  pub sent :
      nd'.broadcasts
      ≡ nd.broadcasts ++ (e, (if nd.round_comming then witness_remote else normal)) ∷ []
  pub added : nd'.adds ≡ (if nd.ty == witness_local then nd.adds else nd.adds ++ (e, nd.ty) ∷ [])
  pub kept : nd'.ty ≡ nd.ty

add_current-sent : (nd : NodeLoop) → (add_current nd).broadcasts ≡ nd.broadcasts
unfolding add_current
add_current-sent nd = elim (Bool-cases (nd.ty == witness_local)) [
  | inl e ↦ rw (e, add_current)
  | inr e ↦ elim (Option-cases nd.et) [
    | inl o ↦ rw (e, o, add_current)
    | inr (x, o) ↦ rw (e, o, add_current)
  ]
]

add_current-ty : (nd : NodeLoop) → (add_current nd).ty ≡ nd.ty
unfolding add_current
add_current-ty nd = elim (Bool-cases (nd.ty == witness_local)) [
  | inl e ↦ rw (e, add_current)
  | inr e ↦ elim (Option-cases nd.et) [
    | inl o ↦ rw (e, o, add_current)
    | inr (x, o) ↦ rw (e, o, add_current)
  ]
]

add_current-adds :
    (nd : NodeLoop) (e : Event)
    → nd.et ≡ some e
    → (add_current nd).adds
      ≡ (if nd.ty == witness_local then nd.adds else nd.adds ++ (e, nd.ty) ∷ [])
unfolding add_current
add_current-adds nd e h = elim (Bool-cases (nd.ty == witness_local)) [
  | inl b ↦ rw (b, add_current)
  | inr b ↦ rw (b, h, add_current)
]

-- On the timer `onlyTime` the node sends out one event of its own, which passes `validateEvent`, as
-- a witness if the next round was announced. It adds that event to its graph with the type of
-- whatever came last, and does not add it at all if that was a local witness.
pub node_step-Ticked :
    (k : Hasher) (now : ℤ) (to : ℕ) (nd nd' : NodeLoop)
    → node_step k (only_time now to) nd ≡ done nd'
    → (e : Event) × Ticked k nd nd' e
unfolding node_step select_case on_only_time
node_step-Ticked k now to nd nd' h =
    let (nd1, turned, h1) = >>=-eq-done (on_only_time k now to nd) _ h in
    let ((e, jp), composed, h2) = >>=-eq-done (compose_event k now to nd.jigsaw) _ turned in
    let same1 = done-injective _ nd1 h2 in
    let same = done-injective (add_current nd1) nd' h1 in
    let (valid, own, empty) = compose_event-validates k now to nd.jigsaw jp e composed in
    (
      e,
      subst (λ x. Ticked k nd x e) (ap add_current same1 ∙ same)
          (record {
            valid = valid;
            own = own;
            sent = add_current-sent (send_own e jp nd);
            added = add_current-adds (send_own e jp nd) e refl;
            kept = add_current-ty (send_own e jp nd);
          }),
    )
