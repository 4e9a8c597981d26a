-- ===== src/System/Looks.antt =====
-- What a turn of `MonitorLoop` does: colors and the kind of one vertex change.
use go_hashgrid.Common.{
  length-replicate, length-set, ℕ, zero, suc, ◌+◌, ◌≡◌, refl, sym, ap, subst, ◌∙◌, inl, inr, Bool,
  Option, none, some, List, [], ◌∷◌, Bool-cases, length, set, replicate, ℤ, pos, eq_ℤ, done,
  >>=-eq-done, done-injective,
}
use go_hashgrid.Types.Address.{Address}
use go_hashgrid.Jigsaw.State.{Vertex, VertexRef, Column, JpGraph, deref_vertex, deref_big, white}
use go_hashgrid.Jigsaw.Seats.{Seat, seat_of, seat_at, another_at, seat_at-update, another_at-update}
use go_hashgrid.Round.Search.{
  Visit, paint, dfs_visit, read_trace, judge_see, self_part_of, find_starter, paint_white,
  clear_columns, clear_color_dfs,
}
use go_hashgrid.Round.Search.Seen.{bare_at, SameBare, Marks, dfs_visit-Marks}
use go_hashgrid.Round.Monitor.{look}

pub record Kept (vs ws : List Vertex) : Type 0 where
  pub seats : (p : ℕ) → seat_at ws p ≡ seat_at vs p
  pub links : (p : ℕ) → another_at ws p ≡ another_at vs p

pub Kept-refl : (vs : List Vertex) → Kept vs vs
Kept-refl vs = record { seats = λ p. refl; links = λ p. refl }

Kept-trans : {vs ws us : List Vertex} → Kept vs ws → Kept ws us → Kept vs us
Kept-trans a b = record { seats = λ p. b.seats p ∙ a.seats p; links = λ p. b.links p ∙ a.links p }

abbrev pub seat_of_bare : Option Vertex → Option Seat
seat_of_bare none = none
seat_of_bare (some v) = some (seat_of v)

abbrev pub link_of_bare : Option Vertex → VertexRef
link_of_bare none = none
link_of_bare (some v) = v.another_pt

pub seat_at-bare : (vs : List Vertex) (p : ℕ) → seat_at vs p ≡ seat_of_bare (bare_at vs p)
seat_at-bare [] p = refl
seat_at-bare (v ∷ vs) zero =
    ap (λ n. some (record (seat_of v) { colors = n }))
      (sym (length-replicate (length v.color) white))
seat_at-bare (v ∷ vs) (suc p) = seat_at-bare vs p

pub another_at-bare : (vs : List Vertex) (p : ℕ) → another_at vs p ≡ link_of_bare (bare_at vs p)
another_at-bare [] p = refl
another_at-bare (v ∷ vs) zero = refl
another_at-bare (v ∷ vs) (suc p) = another_at-bare vs p

Kept-bare : (vs ws : List Vertex) → SameBare vs ws → Kept vs ws
Kept-bare vs ws same = record {
  seats = λ p. seat_at-bare ws p ∙ ap seat_of_bare (same p) ∙ sym (seat_at-bare vs p);
  links = λ p. another_at-bare ws p ∙ ap link_of_bare (same p) ∙ sym (another_at-bare vs p);
}

Kept-paint : (cluster c p : ℕ) (vs : List Vertex) → Kept vs (paint cluster c p vs)
Kept-paint cluster c p vs = record {
  seats = λ q.
      seat_at-update p q (λ v. record v { color = set v.color cluster c }) vs
        (λ v. ap (λ n. record (seat_of v) { colors = n }) (length-set v.color cluster c));
  links =
      λ q. another_at-update p q (λ v. record v { color = set v.color cluster c }) vs (λ v. refl);
}

paint_white-Kept :
    (fuel cluster : ℕ) (bigs : List ℤ) (col : Column) (idx : ℕ) (s : VertexRef)
    (vs ws : List Vertex)
    → paint_white fuel cluster bigs col idx s vs ≡ done ws
    → Kept vs ws
unfolding paint_white
paint_white-Kept zero cluster bigs col idx s vs ws h = absurd (cc h)
paint_white-Kept (suc fuel) cluster bigs col idx none vs ws h =
    subst (Kept vs) (done-injective vs ws h) (Kept-refl vs)
paint_white-Kept (suc fuel) cluster bigs col idx (some s) vs ws h =
    let (v, at, h1) = >>=-eq-done (deref_vertex vs s) _ h in
    let (n, read, h2) = >>=-eq-done (deref_big bigs v.event.round_id) _ h1 in
    elim (Bool-cases (eq_ℤ n (pos idx))) [
      | inl e ↦ Kept-trans (Kept-paint cluster white s vs) (
          paint_white-Kept fuel cluster bigs col idx (self_part_of col v) (paint cluster white s vs)
            ws (rw e at h2))
      | inr e ↦ subst (Kept vs) (done-injective vs ws (rw e at h2)) (Kept-refl vs)
    ]

clear_columns-Kept :
    (fuel cluster : ℕ) (bigs : List ℤ) (idx : ℕ) (starter : VertexRef)
    (cols : List (Address × Column)) (vs ws : List Vertex)
    → clear_columns fuel cluster bigs idx starter cols vs ≡ done ws
    → Kept vs ws
unfolding clear_columns
clear_columns-Kept fuel cluster bigs idx starter [] vs ws h =
    subst (Kept vs) (done-injective vs ws h) (Kept-refl vs)
clear_columns-Kept fuel cluster bigs idx starter ((a, col) ∷ cols) vs ws h =
    let (st, found, h1) = >>=-eq-done (find_starter fuel vs bigs col idx starter col.ver_top) _ h in
    let (vs1, painted, h2) = >>=-eq-done (paint_white fuel cluster bigs col idx st vs) _ h1 in
    Kept-trans (paint_white-Kept fuel cluster bigs col idx st vs vs1 painted)
      (clear_columns-Kept fuel cluster bigs idx st cols vs1 ws h2)

-- Only vertices, channels and integers change.
pub record Looks (jp jp' : JpGraph) : Type 0 where
  pub graph : jp'.graph ≡ jp.graph
  pub queue : jp'.queue ≡ jp.queue
  pub current : jp'.current_idx ≡ jp.current_idx
  pub kept : Kept jp.vertices jp'.vertices

pub Looks-trans : {jp jp1 jp2 : JpGraph} → Looks jp jp1 → Looks jp1 jp2 → Looks jp jp2
Looks-trans a b = record {
  graph = b.graph ∙ a.graph;
  queue = b.queue ∙ a.queue;
  current = b.current ∙ a.current;
  kept = Kept-trans a.kept b.kept;
}

dfs_visit-Kept :
    (fuel cluster e s : ℕ) (σ τ : Visit)
    → dfs_visit fuel cluster e (some s) σ ≡ done τ
    → Kept σ.vertices τ.vertices
dfs_visit-Kept fuel cluster e s σ τ h =
    let m = subst (Marks σ.vertices _ σ.trace) h (dfs_visit-Marks fuel cluster e s σ) in
    Kept-bare σ.vertices τ.vertices m.0

judge_see-Kept :
    (cluster : ℕ) (jp : JpGraph) (s e : VertexRef) (n : ℕ) (b : Bool) (ws : List Vertex)
    → judge_see cluster jp s e ≡ done (n, b, ws)
    → Kept jp.vertices ws
unfolding judge_see
judge_see-Kept cluster jp none e n b ws h =
    subst (Kept jp.vertices)
      (ap (λ (x : ℕ × Bool × List Vertex). x.2) (done-injective _ (n, b, ws) h))
      (Kept-refl jp.vertices)
judge_see-Kept cluster jp (some s) none n b ws h =
    subst (Kept jp.vertices)
      (ap (λ (x : ℕ × Bool × List Vertex). x.2) (done-injective _ (n, b, ws) h))
      (Kept-refl jp.vertices)
judge_see-Kept cluster jp (some s) (some e) n b ws h =
    let σ0 : Visit = record { trace = replicate jp.broadness 0; vertices = jp.vertices } in
    let (σ, went, h1) =
      >>=-eq-done (dfs_visit (length jp.vertices + 2) cluster e (some s) σ0) _ h in
    let (v, at, h2) = >>=-eq-done (deref_vertex σ.vertices e) _ h1 in
    let (t, read, h3) = >>=-eq-done (read_trace v.seq_num σ.trace) _ h2 in
    subst (Kept jp.vertices)
      (ap (λ (x : ℕ × Bool × List Vertex). x.2) (done-injective _ (n, b, ws) h3))
      (dfs_visit-Kept (length jp.vertices + 2) cluster e s σ0 σ went)

pub look-Looks :
    (fuel idx cluster : ℕ) (jp jp' : JpGraph) (s e : VertexRef) (v : ℕ) (k : Bool)
    → look fuel idx cluster jp s e ≡ done (v, k, jp')
    → Looks jp jp'
unfolding look clear_color_dfs
look-Looks fuel idx cluster jp jp' s e v k h =
    let (jp1, cleared, h1) = >>=-eq-done (clear_color_dfs fuel idx cluster jp) _ h in
    let (ws, painted, h2) =
      >>=-eq-done (clear_columns fuel cluster jp.bigs idx none jp.graph jp.vertices) _ cleared in
    let white_kept =
      clear_columns-Kept fuel cluster jp.bigs idx none jp.graph jp.vertices ws painted in
    let same1 = done-injective (record jp { vertices = ws }) jp1 h2 in
    let cleared_looks : Looks jp jp1 =
      subst (Looks jp) same1
        (record { graph = refl; queue = refl; current = refl; kept = white_kept }) in
    let ((v1, k1, us), judged, h3) = >>=-eq-done (judge_see cluster jp1 s e) _ h1 in
    let judged_looks : Looks jp1 (record jp1 { vertices = us }) = record {
      graph = refl;
      queue = refl;
      current = refl;
      kept = judge_see-Kept cluster jp1 s e v1 k1 us judged;
    } in
    let same = done-injective (v1, k1, record jp1 { vertices = us }) (v, k, jp') h3 in
    subst (Looks jp) (ap (λ (x : ℕ × Bool × JpGraph). x.2) same)
      (Looks-trans cleared_looks judged_looks)
