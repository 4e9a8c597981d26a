-- ===== src/Round/Search/Seen.antt =====
-- `dfsVisit` marks only columns that the starting vertex reaches.
use go_hashgrid.Common.{
  replicate, ap, ℕ, zero, suc, ◌≡◌, refl, sym, ◌∙◌, ◌⊎◌, inl, inr, false, ◌||◌, Option, none, some,
  List, [], ◌∷◌, arith, ltb, ◌==◌, Bool-cases, Option-cases, length, get_elem?, set, get_or,
  length-set, Outcome, done, panic, blocked, out_of_fuel, ◌>>=◌,
}
use go_hashgrid.Jigsaw.State.{
  Vertex, VertexRef, white, grey, black, witness_remote, update_vertex, deref_vertex,
}
use go_hashgrid.Round.Search.{paint, mark_trace, Visit, visit_white, visit_vertex, dfs_visit}

-- A vertex without its colors, which is all that a visit changes.
abbrev pub bare : Vertex → Vertex
bare v = record v { color = replicate (length v.color) white }

abbrev pub bare_at : List Vertex → ℕ → Option Vertex
bare_at [] p = none
bare_at (v ∷ vs) zero = some (bare v)
bare_at (v ∷ vs) (suc p) = bare_at vs p

abbrev pub SameBare : List Vertex → List Vertex → Type 0
SameBare vs ws = (p : ℕ) → bare_at ws p ≡ bare_at vs p

pub SameBare-paint : (cluster c p : ℕ) (vs : List Vertex) → SameBare vs (paint cluster c p vs)
unfolding update_vertex
SameBare-paint cluster c p [] q = refl
SameBare-paint cluster c zero (v ∷ vs) zero =
    ap (λ n. some (record v { color = replicate n white })) (length-set v.color cluster c)
SameBare-paint cluster c zero (v ∷ vs) (suc q) = refl
SameBare-paint cluster c (suc p) (v ∷ vs) zero = refl
SameBare-paint cluster c (suc p) (v ∷ vs) (suc q) = SameBare-paint cluster c p vs q

pub bare_at-get_elem? :
    (vs : List Vertex) (p : ℕ) (v : Vertex) → get_elem? vs p ≡ some v → bare_at vs p ≡ some (bare v)
bare_at-get_elem? [] p v h = cc
bare_at-get_elem? (u ∷ vs) zero v h = let same : u ≡ v = cc in rw same
bare_at-get_elem? (u ∷ vs) (suc p) v h = bare_at-get_elem? vs p v h

-- The walks from a vertex over self parents and other parents, which go through neither the vertex
-- e nor a witness.
pub data Reach (vs : List Vertex) (e : ℕ) : ℕ → ℕ → Type 0 where
  here : {s : ℕ} → Reach vs e s s
  by_self :
      {s u t : ℕ} (v : Vertex)
      → bare_at vs s ≡ some v
      → ((s == e) || (v.witness == witness_remote)) ≡ false
      → v.self_pt ≡ some u
      → Reach vs e u t
      → Reach vs e s t
  by_other :
      {s u t : ℕ} (v : Vertex)
      → bare_at vs s ≡ some v
      → ((s == e) || (v.witness == witness_remote)) ≡ false
      → v.another_pt ≡ some u
      → Reach vs e u t
      → Reach vs e s t

pub Reach-same :
    (vs ws : List Vertex) (e : ℕ) → SameBare vs ws → {s t : ℕ} → Reach ws e s t → Reach vs e s t
Reach-same vs ws e same here = here
Reach-same vs ws e same (by_self {s = s} v at go next r) =
    by_self v (sym (same s) ∙ at) go next (Reach-same vs ws e same r)
Reach-same vs ws e same (by_other {s = s} v at go next r) =
    by_other v (sym (same s) ∙ at) go next (Reach-same vs ws e same r)

-- From s a vertex of column n is reached.
pub record Sees (vs : List Vertex) (e s n : ℕ) : Type 0 where
  pub seen : ℕ
  pub vertex : Vertex
  pub walk : Reach vs e s seen
  pub at : bare_at vs seen ≡ some vertex
  pub column : vertex.seq_num ≡ n

-- The call returns with the vertices as they were, up to colors, and has marked columns of S only.
abbrev pub Marks : List Vertex → (ℕ → Type 0) → List ℕ → Outcome Visit → Type 0
Marks vs S trace (done σ) =
    SameBare vs σ.vertices
    × (length σ.trace ≡ length trace)
    × ((i : ℕ) → get_or σ.trace i 0 ≡ 1 → (get_or trace i 0 ≡ 1) ⊎ S i)
Marks vs S trace _ = Unit

Marks-bind :
    (vs : List Vertex) (S : ℕ → Type 0) (trace : List ℕ) (m : Outcome Visit)
    (f : Visit → Outcome Visit)
    → Marks vs S trace m
    → ((σ : Visit) → Marks vs S trace (done σ) → Marks vs S trace (f σ))
    → Marks vs S trace (m >>= f)
Marks-bind vs S trace (done σ) f h next = next σ h
Marks-bind vs S trace panic f h next = tt
Marks-bind vs S trace blocked f h next = tt
Marks-bind vs S trace out_of_fuel f h next = tt

-- A later call, with the columns that it may mark.
Marks-after :
    (vs : List Vertex) (S T : ℕ → Type 0) (trace : List ℕ) (σ : Visit) (m : Outcome Visit)
    → Marks vs S trace (done σ)
    → ((i : ℕ) → T i → S i)
    → Marks σ.vertices T σ.trace m
    → Marks vs S trace m
Marks-after vs S T trace σ (done τ) (same, len, old) sub (same', len', new) = (
  λ p. same' p ∙ same p,
  len' ∙ len,
  λ i h. elim (new i h) [ inl before ↦ old i before | inr t ↦ inr (sub i t) ],
)
Marks-after vs S T trace σ panic h sub k = tt
Marks-after vs S T trace σ blocked h sub k = tt
Marks-after vs S T trace σ out_of_fuel h sub k = tt

pub get_or-set_one :
    (tr : List ℕ) (n i : ℕ) → get_or (set tr n 1) i 0 ≡ 1 → (get_or tr i 0 ≡ 1) ⊎ (n ≡ i)
get_or-set_one [] n i h = inl h
get_or-set_one (t ∷ tr) zero zero h = inr refl
get_or-set_one (t ∷ tr) zero (suc i) h = inl h
get_or-set_one (t ∷ tr) (suc n) zero h = inl h
get_or-set_one (t ∷ tr) (suc n) (suc i) h = ground (arith, get_or-set_one tr n i)

-- What a call from a vertex may mark.
abbrev pub MarksSeen : ℕ → (VertexRef → Visit → Outcome Visit) → Type 0
MarksSeen e visit =
    (s : ℕ) (σ : Visit) → Marks σ.vertices (Sees σ.vertices e s) σ.trace (visit (some s) σ)

visit_white-Marks :
    (cluster e : ℕ) (visit : VertexRef → Visit → Outcome Visit) (ref : VertexRef) (σ : Visit)
    (S : ℕ → Type 0)
    → MarksSeen e visit
    → ((u : ℕ) → ref ≡ some u → (i : ℕ) → Sees σ.vertices e u i → S i)
    → Marks σ.vertices S σ.trace (visit_white cluster visit ref σ)
unfolding visit_white deref_vertex
visit_white-Marks cluster e visit none σ S rec sub = (λ p. refl, refl, λ i h. inl h)
visit_white-Marks cluster e visit (some u) σ S rec sub =
    let stay : Marks σ.vertices S σ.trace (done σ) = (λ p. refl, refl, λ i h. inl h) in
    elim (Option-cases (get_elem? σ.vertices u)) [
      | inl absent ↦ rw (absent, deref_vertex) tt
      | inr (v, at) ↦
          rw (at, deref_vertex)
            (elim (Bool-cases (get_or v.color cluster white == white)) [
              | inr dark ↦ rw dark stay
              | inl w ↦ rw w (
                  Marks-after σ.vertices S (Sees σ.vertices e u) σ.trace σ (visit (some u) σ) stay
                    (sub u refl) (rec u σ))
            ])
    ]

-- A walk from a parent is one from the child, also after colors have changed.
Sees-self :
    (vs ws : List Vertex) (e s u i : ℕ) (v : Vertex)
    → SameBare vs ws
    → bare_at vs s ≡ some (bare v)
    → ((s == e) || (v.witness == witness_remote)) ≡ false
    → v.self_pt ≡ some u
    → Sees ws e u i
    → Sees vs e s i
Sees-self vs ws e s u i v same at go next x = record {
  seen = x.seen;
  vertex = x.vertex;
  walk = by_self (bare v) at go next (Reach-same vs ws e same x.walk);
  at = sym (same x.seen) ∙ x.at;
  column = x.column;
}

Sees-other :
    (vs ws : List Vertex) (e s u i : ℕ) (v : Vertex)
    → SameBare vs ws
    → bare_at vs s ≡ some (bare v)
    → ((s == e) || (v.witness == witness_remote)) ≡ false
    → v.another_pt ≡ some u
    → Sees ws e u i
    → Sees vs e s i
Sees-other vs ws e s u i v same at go next x = record {
  seen = x.seen;
  vertex = x.vertex;
  walk = by_other (bare v) at go next (Reach-same vs ws e same x.walk);
  at = sym (same x.seen) ∙ x.at;
  column = x.column;
}

visit_vertex-Marks :
    (cluster e s : ℕ) (visit : VertexRef → Visit → Outcome Visit) (v : Vertex) (σ : Visit)
    → MarksSeen e visit
    → get_elem? σ.vertices s ≡ some v
    → Marks σ.vertices (Sees σ.vertices e s) σ.trace (visit_vertex cluster e visit s v σ)
unfolding visit_vertex mark_trace
visit_vertex-Marks cluster e s visit v σ rec at =
    let vs = σ.vertices in
    let here_at = bare_at-get_elem? vs s v at in
    let trace = set σ.trace v.seq_num 1 in
    let own : (i : ℕ) → v.seq_num ≡ i → Sees vs e s i =
      λ i is. record { seen = s; vertex = bare v; walk = here; at = here_at; column = is } in
    let marked : (i : ℕ) → get_or trace i 0 ≡ 1 → (get_or σ.trace i 0 ≡ 1) ⊎ Sees vs e s i = λ i h.
      elim (get_or-set_one σ.trace v.seq_num i h) [ inl old ↦ inl old | inr is ↦ inr (own i is) ] in
    elim (Bool-cases (ltb v.seq_num (length σ.trace))) [
      | inr out ↦ rw out tt
      | inl inside ↦ rw inside (elim (Bool-cases ((s == e) || (v.witness == witness_remote))) [
        | inl stop ↦ rw stop (λ p. refl, length-set σ.trace v.seq_num 1, marked)
        | inr go ↦
            let ws = paint cluster grey s vs in
            let σ0 : Visit = record { trace = trace; vertices = ws } in
            let same0 = SameBare-paint cluster grey s vs in
            let m0 : Marks vs (Sees vs e s) σ.trace (done σ0) =
              (same0, length-set σ.trace v.seq_num 1, marked) in
            rw go (
              Marks-bind vs (Sees vs e s) σ.trace (visit_white cluster visit v.self_pt σ0) _
                (Marks-after vs (Sees vs e s) (Sees vs e s) σ.trace σ0 _ m0 (λ i x. x)
                  (visit_white-Marks cluster e visit v.self_pt σ0 (Sees vs e s) rec
                    λ u next i. Sees-self vs ws e s u i v same0 here_at go next))
                λ σ1 m1.
                  Marks-bind vs (Sees vs e s) σ.trace (visit_white cluster visit v.another_pt σ1) _
                    (Marks-after vs (Sees vs e s) (Sees vs e s) σ.trace σ1 _ m1 (λ i x. x)
                      (visit_white-Marks cluster e visit v.another_pt σ1 (Sees vs e s) rec
                        λ u next i. Sees-other vs σ1.vertices e s u i v m1.0 here_at go next))
                    λ σ2 m2.
                      (λ p. SameBare-paint cluster black s σ2.vertices p ∙ m2.0 p, m2.1, m2.2))
      ])
    ]

-- Whatever the colors and the fuel: where `dfsVisit` from the vertex s returns, the vertices are as
-- before up to colors, the trace has its length, and every column marked in it was marked before or
-- is that of a vertex which s reaches without passing through e or a witness.
pub dfs_visit-Marks : (fuel cluster e : ℕ) → MarksSeen e (dfs_visit fuel cluster e)
unfolding dfs_visit deref_vertex
dfs_visit-Marks zero cluster e s σ = tt
dfs_visit-Marks (suc fuel) cluster e s σ = elim (Option-cases (get_elem? σ.vertices s)) [
  | inl absent ↦ rw (absent, deref_vertex) tt
  | inr (v, at) ↦
      rw (at, deref_vertex)
        (visit_vertex-Marks cluster e s (dfs_visit fuel cluster e) v σ
          (dfs_visit-Marks fuel cluster e) at)
]
