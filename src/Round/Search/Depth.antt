-- ===== src/Round/Search/Depth.antt =====
-- `dfsVisit` ends: every deeper call turns one more vertex from white.
use go_hashgrid.Common.{
  ℕ, zero, suc, ◌+◌, ◌≤◌, ◌<◌, ◌≡◌, refl, inl, inr, Bool, true, false, ◌||◌, none, some, List, [],
  ◌∷◌, arith, ltb, ◌==◌, if◌then◌else◌, Bool-cases, Option-cases, length, get_elem?, set, get_or,
  length-set, Outcome, done, panic, blocked, out_of_fuel, ◌>>=◌,
}
use go_hashgrid.Jigsaw.State.{
  Vertex, VertexRef, white, grey, black, witness_remote, update_vertex, deref_vertex,
}
use go_hashgrid.Round.Search.{paint, mark_trace, Visit, visit_white, visit_vertex, dfs_visit}

abbrev pub is_white : ℕ → Vertex → Bool
is_white cluster v = get_or v.color cluster white == white

-- How many vertices are white.
unfoldable pub whites : ℕ → List Vertex → ℕ
whites cluster [] = 0
whites cluster (v ∷ vs) =
    let rest = whites cluster vs in if is_white cluster v then suc rest else rest

-- Every vertex has a color for the cluster.
abbrev pub IsColored : ℕ → List Vertex → Type 0
IsColored cluster [] = Unit
IsColored cluster (v ∷ vs) = (cluster < length v.color) × IsColored cluster vs

pub get_or-set : (xs : List ℕ) (i v d : ℕ) → i < length xs → get_or (set xs i v) i d ≡ v
get_or-set [] i v d h = elim h [ ]
get_or-set (x ∷ xs) zero v d h = refl
get_or-set (x ∷ xs) (suc i) v d h = get_or-set xs i v d (omega arith)

pub paint-IsColored :
    (cluster c p : ℕ) (vs : List Vertex)
    → IsColored cluster vs
    → IsColored cluster (paint cluster c p vs)
unfolding update_vertex
paint-IsColored cluster c p [] h = tt
paint-IsColored cluster c zero (v ∷ vs) h = (rw (length-set v.color cluster c) h.0, h.1)
paint-IsColored cluster c (suc p) (v ∷ vs) h = (h.0, paint-IsColored cluster c p vs h.1)

-- Grey and black are not white.
whites-paint :
    (cluster c p : ℕ) (vs : List Vertex)
    → IsColored cluster vs
    → (c == white) ≡ false
    → whites cluster (paint cluster c p vs) ≤ whites cluster vs
unfolding update_vertex whites
whites-paint cluster c p [] h dark = omega arith
whites-paint cluster c zero (v ∷ vs) h dark = ground (arith, get_or-set v.color cluster c white)
whites-paint cluster c (suc p) (v ∷ vs) h dark = ground (arith, whites-paint cluster c p vs)

whites-paint_at :
    (cluster c p : ℕ) (v : Vertex) (vs : List Vertex)
    → IsColored cluster vs
    → (c == white) ≡ false
    → get_elem? vs p ≡ some v
    → is_white cluster v ≡ true
    → suc (whites cluster (paint cluster c p vs)) ≡ whites cluster vs
unfolding update_vertex whites
whites-paint_at cluster c p v [] h dark at w = cc
whites-paint_at cluster c zero v (u ∷ vs) h dark at w =
    ground (arith, get_or-set u.color cluster c white)
whites-paint_at cluster c (suc p) v (u ∷ vs) h dark at w =
    ground (arith, whites-paint_at cluster c p v vs)

-- The call ends or panics, and leaves no more white vertices than it found.
abbrev pub Ends : ℕ → List Vertex → Outcome Visit → Type 0
Ends cluster vs (done σ) =
    IsColored cluster σ.vertices × (whites cluster σ.vertices ≤ whites cluster vs)
Ends cluster vs panic = Unit
Ends cluster vs blocked = ⊥
Ends cluster vs out_of_fuel = ⊥

-- What the calls with this fuel are good for.
abbrev pub EndsBelow : ℕ → ℕ → (VertexRef → Visit → Outcome Visit) → Type 0
EndsBelow fuel cluster visit =
    (u : ℕ) (v : Vertex) (σ : Visit)
    → IsColored cluster σ.vertices
    → get_elem? σ.vertices u ≡ some v
    → is_white cluster v ≡ true
    → whites cluster σ.vertices < fuel
    → Ends cluster σ.vertices (visit (some u) σ)

visit_white-Ends :
    (fuel cluster : ℕ) (visit : VertexRef → Visit → Outcome Visit) (u : VertexRef) (σ : Visit)
    → EndsBelow fuel cluster visit
    → IsColored cluster σ.vertices
    → whites cluster σ.vertices < fuel
    → Ends cluster σ.vertices (visit_white cluster visit u σ)
unfolding visit_white
visit_white-Ends fuel cluster visit none σ below h few = (h, omega arith)
visit_white-Ends fuel cluster visit (some u) σ below h few =
    elim (Option-cases (get_elem? σ.vertices u)) [
      | inl absent ↦ rw (absent, deref_vertex) tt
      | inr (v, at) ↦
          rw (at, deref_vertex)
            (elim (Bool-cases (is_white cluster v)) [
              | inl w ↦ rw w (below u v σ h at w few)
              | inr dark ↦ rw dark (h, omega arith)
            ])
    ]

Ends-bind :
    (cluster : ℕ) (vs : List Vertex) (m : Outcome Visit) (f : Visit → Outcome Visit)
    → Ends cluster vs m
    → ((σ : Visit) → Ends cluster vs (done σ) → Ends cluster vs (f σ))
    → Ends cluster vs (m >>= f)
Ends-bind cluster vs (done σ) f h next = next σ h
Ends-bind cluster vs panic f h next = tt
Ends-bind cluster vs blocked f h next = h
Ends-bind cluster vs out_of_fuel f h next = h

Ends-weaken :
    (cluster : ℕ) (vs ws : List Vertex) (m : Outcome Visit)
    → whites cluster vs ≤ whites cluster ws
    → Ends cluster vs m
    → Ends cluster ws m
Ends-weaken cluster vs ws (done σ) le h = (h.0, omega arith)
Ends-weaken cluster vs ws panic le h = tt
Ends-weaken cluster vs ws blocked le h = h
Ends-weaken cluster vs ws out_of_fuel le h = h

visit_vertex-Ends :
    (fuel cluster e s : ℕ) (visit : VertexRef → Visit → Outcome Visit) (v : Vertex) (σ : Visit)
    → EndsBelow fuel cluster visit
    → IsColored cluster σ.vertices
    → whites cluster (paint cluster grey s σ.vertices) < fuel
    → Ends cluster σ.vertices (visit_vertex cluster e visit s v σ)
unfolding visit_vertex mark_trace
visit_vertex-Ends fuel cluster e s visit v σ below h few =
    elim (Bool-cases (ltb v.seq_num (length σ.trace))) [
      | inr out ↦ rw out tt
      | inl inside ↦ rw inside (elim (Bool-cases ((s == e) || (v.witness == witness_remote))) [
        | inl stop ↦ rw stop (h, omega arith)
        | inr go ↦
            let σ0 : Visit = record {
              trace = set σ.trace v.seq_num 1;
              vertices = paint cluster grey s σ.vertices;
            } in
            let h0 = paint-IsColored cluster grey s σ.vertices h in
            let le0 = whites-paint cluster grey s σ.vertices h refl in
            rw go (
              Ends-weaken cluster σ0.vertices σ.vertices _ le0 (
                Ends-bind cluster σ0.vertices (visit_white cluster visit v.self_pt σ0) _
                  (visit_white-Ends fuel cluster visit v.self_pt σ0 below h0 few)
                  λ σ1 (h1, le1).
                    Ends-bind cluster σ0.vertices (visit_white cluster visit v.another_pt σ1) _
                      (Ends-weaken cluster σ1.vertices σ0.vertices _ le1 (
                        visit_white-Ends fuel cluster visit v.another_pt σ1 below h1 (omega arith)))
                      λ σ2 (h2, le2). (
                        paint-IsColored cluster black s σ2.vertices h2,
                        omega (arith, whites-paint cluster black s σ2.vertices h2 refl),
                      )))
      ])
    ]

-- From a white vertex, fuel above the number of white vertices is enough.
dfs_visit-EndsBelow : (fuel cluster e : ℕ) → EndsBelow fuel cluster (dfs_visit fuel cluster e)
unfolding dfs_visit deref_vertex
dfs_visit-EndsBelow zero cluster e u v σ h at w few = absurd (omega arith)
dfs_visit-EndsBelow (suc fuel) cluster e u v σ h at w few =
    rw (at, deref_vertex)
      (visit_vertex-Ends fuel cluster e u (dfs_visit fuel cluster e) v σ
        (dfs_visit-EndsBelow fuel cluster e) h
        (omega (arith, whites-paint_at cluster grey u v σ.vertices h refl at w)))

-- `dfsVisit` from any vertex ends within a call depth of two more than the number of white
-- vertices: it neither runs out of fuel nor waits, it leaves no more white vertices than there
-- were, and all that can stop it is a panic.
pub dfs_visit-Ends :
    (fuel cluster e : ℕ) (s : VertexRef) (σ : Visit)
    → IsColored cluster σ.vertices
    → whites cluster σ.vertices + 1 < fuel
    → Ends cluster σ.vertices (dfs_visit fuel cluster e s σ)
unfolding dfs_visit deref_vertex
dfs_visit-Ends zero cluster e s σ h few = absurd (omega arith)
dfs_visit-Ends (suc fuel) cluster e none σ h few = (h, omega arith)
dfs_visit-Ends (suc fuel) cluster e (some s) σ h few =
    elim (Option-cases (get_elem? σ.vertices s)) [
      | inl absent ↦ rw (absent, deref_vertex) tt
      | inr (v, at) ↦
          rw (at, deref_vertex)
            (visit_vertex-Ends fuel cluster e s (dfs_visit fuel cluster e) v σ
              (dfs_visit-EndsBelow fuel cluster e) h
              (omega (arith, whites-paint cluster grey s σ.vertices h refl)))
    ]
