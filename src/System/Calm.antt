-- ===== src/System/Calm.antt =====
-- Steps that leave the columns, the seats and the links of the vertices as they are, and the
-- dictionaries of the rounds but for new rounds.
use go_hashgrid.Common.{
  ℕ, ◌≡◌, refl, sym, ap, ◌∙◌, ◌⊎◌, inl, inr, some, List, [], get_elem?, lookup,
}
use go_hashgrid.Types.Hash.{Hash}
use go_hashgrid.Jigsaw.State.{Vertex, Round, JpGraph}
use go_hashgrid.Jigsaw.Seats.{seat_at, another_at, Extends, LinksTo-extend, AllWait, AllWait-extend}
use go_hashgrid.Jigsaw.AddEvent.{waiting_for}
use go_hashgrid.Jigsaw.AddEvent.Steps.{Sits-extend}
use go_hashgrid.Jigsaw.AddEvent.Place.{IsWellLinked}
use go_hashgrid.Jigsaw.AddEvent.Placed.{IsPlaced, Quiet-IsPlaced}
use go_hashgrid.Jigsaw.AddEvent.Chains.{IsDescending, Quiet-IsDescending}
use go_hashgrid.Round.Loop.Laws.{IsStacked}

-- The dictionary of a round is empty or that of a round of the queue.
abbrev pub OldLost : List Round → Round → Type 0
OldLost q r =
    (r.lost_dict ≡ [])
    ⊎ ((j : ℕ) × (o : Round) × (get_elem? q j ≡ some o) × (r.lost_dict ≡ o.lost_dict))

pub record Calm (jp jp' : JpGraph) : Type 0 where
  pub graph : jp'.graph ≡ jp.graph
  pub seats : (p : ℕ) → seat_at jp'.vertices p ≡ seat_at jp.vertices p
  pub links : (p : ℕ) → another_at jp'.vertices p ≡ another_at jp.vertices p
  pub lost : (i : ℕ) (r : Round) → get_elem? jp'.queue i ≡ some r → OldLost jp.queue r

pub Calm-refl : (jp : JpGraph) → Calm jp jp
Calm-refl jp = record {
  graph = refl;
  seats = λ p. refl;
  links = λ p. refl;
  lost = λ i r e. inr (i, r, e, refl);
}

OldLost-trans :
    (q q1 : List Round) (r : Round)
    → ((i : ℕ) (o : Round) → get_elem? q1 i ≡ some o → OldLost q o)
    → OldLost q1 r
    → OldLost q r
OldLost-trans q q1 r h (inl e) = inl e
OldLost-trans q q1 r h (inr (j, o, at, same)) = elim (h j o at) [
  | inl e ↦ inl (same ∙ e)
  | inr (i, x, there, eq) ↦ inr (i, x, there, same ∙ eq)
]

pub Calm-trans : {jp jp1 jp2 : JpGraph} → Calm jp jp1 → Calm jp1 jp2 → Calm jp jp2
Calm-trans {jp = jp} {jp1 = jp1} c d = record {
  graph = d.graph ∙ c.graph;
  seats = λ p. d.seats p ∙ c.seats p;
  links = λ p. d.links p ∙ c.links p;
  lost = λ i r e. OldLost-trans jp.queue jp1.queue r c.lost (d.lost i r e);
}

no_wait : (vs : List Vertex) (h : Hash) → AllWait vs h (waiting_for h [])
unfolding lookup
no_wait vs h = tt

OldLost-AllWait :
    (q : List Round) (vs ws : List Vertex) (r : Round)
    → Extends vs ws
    → ((i : ℕ) (o : Round)
        → get_elem? q i ≡ some o
        → (h : Hash) → AllWait vs h (waiting_for h o.lost_dict))
    → OldLost q r
    → (h : Hash) → AllWait ws h (waiting_for h r.lost_dict)
OldLost-AllWait q vs ws r ext w (inl e) h = rw e (no_wait ws h)
OldLost-AllWait q vs ws r ext w (inr (j, o, at, e)) h =
    rw e (AllWait-extend vs ws h (waiting_for h o.lost_dict) ext (w j o at h))

pub Calm-WellLinked : (jp jp' : JpGraph) → Calm jp jp' → IsWellLinked jp → IsWellLinked jp'
Calm-WellLinked jp jp' c w =
    let ext : Extends jp.vertices jp'.vertices = λ p s at. c.seats p ∙ at in
    record {
      linked = λ p q e. LinksTo-extend jp'.vertices ext (w.linked p q (sym (c.links p) ∙ e));
      chained = λ a d e h p f.
          Sits-extend jp'.vertices ext (w.chained a d (sym (ap (lookup a) c.graph) ∙ e) h p f);
      lost = λ i r e. OldLost-AllWait jp.queue jp.vertices jp'.vertices r ext w.lost (c.lost i r e);
    }

pub Calm-IsDescending : (jp jp' : JpGraph) → Calm jp jp' → IsDescending jp → IsDescending jp'
Calm-IsDescending jp jp' c d =
    Quiet-IsDescending jp jp' (record { graph = c.graph; seats = c.seats }) d

pub Calm-IsPlaced : (jp jp' : JpGraph) → Calm jp jp' → IsPlaced jp → IsPlaced jp'
Calm-IsPlaced jp jp' c h = Quiet-IsPlaced jp jp' (record { graph = c.graph; seats = c.seats }) h

-- Only channels and integers change.
pub record Same (jp jp' : JpGraph) : Type 0 where
  pub graph : jp'.graph ≡ jp.graph
  pub vertices : jp'.vertices ≡ jp.vertices
  pub queue : jp'.queue ≡ jp.queue
  pub current : jp'.current_idx ≡ jp.current_idx

pub Same-Calm : (jp jp' : JpGraph) → Same jp jp' → Calm jp jp'
Same-Calm jp jp' s = record {
  graph = s.graph;
  seats = λ p. ap (λ vs. seat_at vs p) s.vertices;
  links = λ p. ap (λ vs. another_at vs p) s.vertices;
  lost = λ i r e. inr (i, r, sym (ap (λ q. get_elem? q i) s.queue) ∙ e, refl);
}

pub Same-IsStacked : (jp jp' : JpGraph) → Same jp jp' → IsStacked jp → IsStacked jp'
Same-IsStacked jp jp' s h = rw (s.queue, s.current) h
