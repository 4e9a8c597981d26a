-- ===== src/System/Seeing.antt =====
-- `JudgeSee` in a running node.
use go_hashgrid.Common.{
  ℕ, zero, suc, ◌<◌, ◌≡◌, refl, ap, subst, ◌∙◌, Bool, true, Option, some, List, [], ◌∷◌, arith,
  length, Bytes, done,
}
use go_hashgrid.Types.Event.{Hasher}
use go_hashgrid.Jigsaw.State.{Vertex, JpGraph, max_color_cluster}
use go_hashgrid.Jigsaw.Seats.{Seat, seat_of, seat_at, seat_at-lt}
use go_hashgrid.Jigsaw.AddEvent.Place.{IsWellLinked}
use go_hashgrid.Jigsaw.AddEvent.Chains.{IsDescending}
use go_hashgrid.Jigsaw.AddEvent.Placed.{IsPlaced}
use go_hashgrid.Round.Search.{judge_see}
use go_hashgrid.Round.Search.Depth.{IsColored}
use go_hashgrid.Round.Search.Seen.{bare, bare_at, Reach}
use go_hashgrid.Round.Search.Explored.{white_at}
use go_hashgrid.Round.Search.Visits.{IsVertex, InRange}
use go_hashgrid.Round.Search.Exact.{Judged, judge_see-Judged}
use go_hashgrid.P2p.Peer.{Codec}
use go_hashgrid.Node.{NodeLoop}
use go_hashgrid.Hgrid.{Node, Unmarshal, main}
use go_hashgrid.System.{System, Run}
use go_hashgrid.System.Looks.{seat_of_bare, link_of_bare, seat_at-bare, another_at-bare}
use go_hashgrid.System.Safe.{at_start, main-IsSafe}

lt-IsVertex : (vs : List Vertex) (u : ℕ) → u < length vs → IsVertex vs u
lt-IsVertex [] u h = absurd (omega arith)
lt-IsVertex (v ∷ vs) zero h = (bare v, refl)
lt-IsVertex (v ∷ vs) (suc u) h = lt-IsVertex vs u (omega arith)

seat_at-bare_at :
    (vs : List Vertex) (p : ℕ) (v : Vertex)
    → bare_at vs p ≡ some v
    → seat_at vs p ≡ some (seat_of v)
seat_at-bare_at vs p v at = seat_at-bare vs p ∙ ap seat_of_bare at

-- Parents and column numbers are in range.
IsPlaced-InRange :
    (jp : JpGraph)
    → IsWellLinked jp
    → IsDescending jp
    → IsPlaced jp
    → InRange (length jp.graph) jp.vertices
IsPlaced-InRange jp w d h = record {
  columns = λ p v at. (h.seated p (seat_of v) (seat_at-bare_at jp.vertices p v at)).0;
  selfs = λ p u v at next.
      let seat = seat_at-bare_at jp.vertices p v at in
      let older = d.selfs p u (seat_of v) seat next in
      lt-IsVertex jp.vertices u (omega (arith, seat_at-lt jp.vertices p (seat_of v) seat, older));
  others = λ p u v at next.
      let link = w.linked p u (another_at-bare jp.vertices p ∙ ap link_of_bare at ∙ next) in
      lt-IsVertex jp.vertices u (seat_at-lt jp.vertices u link.parent link.parent_at);
}

all-IsColored :
    (cluster : ℕ) (vs : List Vertex)
    → cluster < max_color_cluster
    → ((p : ℕ) (s : Seat) → seat_at vs p ≡ some s → s.colors ≡ max_color_cluster)
    → IsColored cluster vs
all-IsColored cluster [] inside h = tt
all-IsColored cluster (v ∷ vs) inside h = (
  omega (arith, h 0 (seat_of v) refl),
  all-IsColored cluster vs inside (λ p s at. h (suc p) s at),
)

-- In every state that a node that `main` has started comes to without two calls that overlap in time,
-- once there is a column for each peer of the
-- configuration, `JudgeSee` of any two vertices returns, for each of the four clusters of colors: it
-- tells which columns the one reaches towards the other, if all that it reaches is white.
pub main-Judged :
    (k : Hasher) (c : Codec) (u : Unmarshal) (file laddr : Option Bytes) (nd : Node) (nl : NodeLoop)
    (t : System) (cluster s e : ℕ)
    → main u file laddr ≡ done (nd, nl)
    → Run k c (at_start nl) t
    → let jp = t.loop.jigsaw in
      length jp.graph ≡ jp.broadness
      → cluster < max_color_cluster
      → s < length jp.vertices
      → e < length jp.vertices
      → ((v : ℕ) → Reach jp.vertices e s v → white_at cluster jp.vertices v ≡ true)
      → (see : ℕ) × (strong : Bool) × (vs : List Vertex) × (judge_see cluster jp (some s) (some e)
          ≡ done (see, strong, vs))
        × Judged jp s e see strong vs
main-Judged k c u file laddr nd nl t cluster s e started run full inside is_s is_e pale =
    let jp = t.loop.jigsaw in
    let safe = main-IsSafe k c u file laddr nd nl t started run in
    judge_see-Judged cluster s e jp
      (all-IsColored cluster jp.vertices inside λ p x at. (safe.placed.seated p x at).1)
      (subst (λ n. InRange n jp.vertices) full
        (IsPlaced-InRange jp safe.linked safe.descending safe.placed))
      (lt-IsVertex jp.vertices s is_s) (lt-IsVertex jp.vertices e is_e) pale
