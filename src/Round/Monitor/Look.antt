-- ===== src/Round/Monitor/Look.antt =====
-- `clearColorDFS` followed by `JudgeSee`, as `MonitorLoop` and `WitnessFame` call them.
use go_hashgrid.Common.{
  ℕ, suc, ◌<◌, ◌≡◌, refl, sym, ◌∙◌, ◌⊎◌, inl, inr, Bool, true, some, List, done,
}
use go_hashgrid.Jigsaw.State.{Vertex, JpGraph}
use go_hashgrid.Round.Search.Depth.{IsColored}
use go_hashgrid.Round.Search.Seen.{SameBare, Reach, Reach-same, Sees}
use go_hashgrid.Round.Search.Explored.{white_at}
use go_hashgrid.Round.Search.Visits.{IsVertex, IsVertex-same, InRange, InRange-same}
use go_hashgrid.Round.Search.Exact.{Judged, judge_see-Judged}
use go_hashgrid.Round.Search.Walks.{HaveNumbers}
use go_hashgrid.Round.Search.Clear.{AreWalks, InTops, clear_color_dfs-Whitens}
use go_hashgrid.Round.Monitor.{look}

SameBare-sym : (vs ws : List Vertex) → SameBare vs ws → SameBare ws vs
SameBare-sym vs ws same p = sym (same p)

Sees-same : (vs ws : List Vertex) (e s n : ℕ) → SameBare vs ws → Sees ws e s n → Sees vs e s n
Sees-same vs ws e s n same x = record {
  seen = x.seen;
  vertex = x.vertex;
  walk = Reach-same vs ws e same x.walk;
  at = sym (same x.seen) ∙ x.at;
  column = x.column;
}

-- What is judged with some colors is so with others.
Judged-same :
    (jp : JpGraph) (ws : List Vertex) (s e see : ℕ) (strong : Bool) (vs : List Vertex)
    → SameBare jp.vertices ws
    → Judged (record jp { vertices = ws }) s e see strong vs
    → Judged jp s e see strong vs
Judged-same jp ws s e see strong vs same x =
    let there = Sees-same jp.vertices ws e s in
    let back = Sees-same ws jp.vertices e s in
    record {
      target = x.target;
      at = sym (same e) ∙ x.at;
      trace = x.trace;
      sized = x.sized;
      bits = x.bits;
      seen = λ i. (
        λ h. there i same ((x.seen i).0 h),
        λ h. (x.seen i).1 (back i (SameBare-sym jp.vertices ws same) h),
      );
      sees = (
        λ h. there x.target.seq_num same (x.sees.0 h),
        λ h. x.sees.1 (back x.target.seq_num (SameBare-sym jp.vertices ws same) h),
      );
      strongly = x.strongly;
      kept = λ p. x.kept p ∙ same p;
    }

-- `clearColorDFS` for a round and then `JudgeSee` of the vertices s and e return, and tell which
-- columns s reaches towards e, whatever colors an earlier search has left on the vertices of the
-- round: every vertex that s reaches is either white before or among those of the round that lie
-- together at the top of a column. This is where pointers to parents, column numbers and shared
-- integers are in range, s and e are vertices, and self parents, looked up by their hashes, are
-- lower in a ranking whose numbers are below the fuel.
pub look-Judged :
    (n idx cluster s e : ℕ) (jp : JpGraph) (rank : ℕ → ℕ)
    → HaveNumbers jp.bigs jp.vertices
    → ((p : ℕ) → IsVertex jp.vertices p → rank p < n)
    → AreWalks jp.vertices rank jp.graph
    → IsColored cluster jp.vertices
    → InRange jp.broadness jp.vertices
    → IsVertex jp.vertices s
    → IsVertex jp.vertices e
    → ((u : ℕ)
        → Reach jp.vertices e s u
        → (white_at cluster jp.vertices u ≡ true) ⊎ InTops jp.bigs idx jp.vertices jp.graph u)
    → (see : ℕ) × (strong : Bool) × (vs : List Vertex) × (look
          (suc n)
          idx
          cluster
          jp
          (some s)
          (some e)
        ≡ done (see, strong, record jp { vertices = vs }))
      × Judged jp s e see strong vs
unfolding look
look-Judged n idx cluster s e jp rank numbers low walks colored range is_s is_e pale =
    let us = jp.vertices in
    let (ws, cleared, x) = clear_color_dfs-Whitens n idx cluster jp rank numbers low walks in
    let (see, strong, vs, judged, y) =
      judge_see-Judged cluster s e (record jp { vertices = ws }) (x.colored colored)
        (InRange-same jp.broadness us ws x.same range) (IsVertex-same us ws s x.same is_s)
        (IsVertex-same us ws e x.same is_e)
        (λ u r. elim (pale u (Reach-same us ws e x.same r)) [
          | inl old ↦ x.keeps u old
          | inr t ↦ x.named u t
        ]) in
    (see, strong, vs, rw (cleared, judged) refl, Judged-same jp ws s e see strong vs x.same y)
