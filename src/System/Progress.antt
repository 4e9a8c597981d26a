-- ===== src/System/Progress.antt =====
-- What a running node hears of, it comes to have.
use go_hashgrid.Common.{
  ℕ, ◌≡◌, refl, ◌∙◌, Bool, true, false, ◌&&◌, ◌||◌, Option, some, List, [], ◌∷◌, ◌++◌, Bytes,
  bytes_eq_refl, done,
}
use mathlib.Core.List.{append-nil}
use go_hashgrid.Types.Event.{Event, Hasher}
use go_hashgrid.Jigsaw.State.{normal}
use go_hashgrid.Jigsaw.Validate.{validate_event}
use go_hashgrid.Jigsaw.AddEvent.Contents.{has_event, names, add_event-has_event}
use go_hashgrid.Jigsaw.AddEvent.Returns.{IsReady, call-Returns}
use go_hashgrid.P2p.Peer.{Codec}
use go_hashgrid.Node.{NodeLoop, event_came, node_step}
use go_hashgrid.Hgrid.{Node, Unmarshal, main}
use go_hashgrid.System.{System, Step, turn, add, Run, next}
use go_hashgrid.System.Safe.{IsSafe, at_start, main-IsSafe}

names_self : (e : Event) → names e e.self_sig.addr e.self_hash ≡ true
names_self e = rw (bytes_eq_refl e.self_sig.addr, bytes_eq_refl e.self_hash) refl

or_right : (a b c : Bool) → b ≡ true → c ≡ true → (a || (b && c)) ≡ true
or_right true b c h k = refl
or_right false b c h k = rw (h, k)

-- A pending call of `AddEvent` with a valid event that is ready can be made, and the node has the
-- event afterwards.
added :
    (k : Hasher) (c : Codec) (s : System) (e : Event) (ty : ℕ) (xs ys : List (Event × ℕ))
    → IsSafe s
    → s.loop.adds ≡ xs ++ (e, ty) ∷ ys
    → validate_event k e ≡ true
    → IsReady e s.loop.jigsaw
    → (t : System) × Step k c s t
      × (t.loop.adds ≡ xs ++ ys)
      × (has_event e.self_sig.addr e.self_hash t.loop.jigsaw ≡ true)
added k c s e ty xs ys safe pending valid ready =
    let (jp, returned) = call-Returns k e ty s.loop.jigsaw safe.placed ready in
    let (_, contents) = add_event-has_event k e ty s.loop.jigsaw jp (validate_event k e) returned in
    let t : System = record s { loop = record s.loop { jigsaw = jp; adds = xs ++ ys } } in
    (
      t,
      add xs ys e ty (validate_event k e) jp pending returned refl,
      refl,
      contents e.self_sig.addr e.self_hash
          ∙ or_right (has_event e.self_sig.addr e.self_hash s.loop.jigsaw) (validate_event k e)
              (names e e.self_sig.addr e.self_hash) valid (names_self e),
    )

hear :
    (k : Hasher) (e : Event) (nd : NodeLoop)
    → node_step k (event_came e) nd
      ≡ done (record nd { et = some e; ty = normal; adds = nd.adds ++ (e, normal) ∷ [] })
unfolding node_step
hear k e nd = refl

-- From every state of a node that `main` has started, if a valid event comes from a peer, then two
-- steps lead to a state where the node has the event: the turn of the loop that takes it, and the
-- call of `AddEvent` that this turn starts. This is where the event's round number can be read, each
-- round in the queue has a slot for each column, those of the event included, and none has its mutex
-- `nc` held.
pub main-has_event :
    (k : Hasher) (c : Codec) (u : Unmarshal) (file laddr : Option Bytes) (nd : Node) (nl : NodeLoop)
    (s : System) (e : Event)
    → main u file laddr ≡ done (nd, nl)
    → Run k c (at_start nl) s
    → validate_event k e ≡ true
    → IsReady e s.loop.jigsaw
    → (m t : System) × Step k c s m
      × (m.loop.adds ≡ s.loop.adds ++ (e, normal) ∷ [])
      × Step k c m t
      × (t.loop.adds ≡ s.loop.adds)
      × (has_event e.self_sig.addr e.self_hash t.loop.jigsaw ≡ true)
main-has_event k c u file laddr nd nl s e started run valid ready =
    let loop : NodeLoop = record s.loop {
      et = some e;
      ty = normal;
      adds = s.loop.adds ++ (e, normal) ∷ [];
    } in
    let m : System = record s { loop = loop } in
    let heard : Step k c s m = turn (event_came e) loop (hear k e s.loop) refl in
    let safe = main-IsSafe k c u file laddr nd nl m started (next run heard) in
    let (t, step, left, has) = added k c m e normal s.loop.adds [] safe refl valid ready in
    (m, t, heard, refl, step, left ∙ append-nil s.loop.adds, has)
