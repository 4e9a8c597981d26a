-- ===== src/System/Monitoring.antt =====
-- A turn of `MonitorLoop` leaves columns, seats, links and rounds alone.
use go_hashgrid.Common.{
  ℕ, zero, suc, ◌≡◌, refl, sym, ap, subst, ◌∙◌, inl, inr, ◌&&◌, ◌||◌, none, some, List, [], ◌∷◌,
  ltb, ◌==◌, if◌then◌else◌, Bool-cases, length, get_elem?, done, >>=-eq-done, done-injective,
}
use go_hashgrid.Jigsaw.State.{Vertex, VertexRef, Round, JpGraph, deref_vertex, witness_local}
use go_hashgrid.Jigsaw.Seats.{seat_at-update, another_at-update}
use go_hashgrid.Round.Monitor.{
  look, count_seen, elect, monitor_step, color_cluster_round, round_max,
}
use go_hashgrid.Round.Loop.Laws.{IsStacked}
use go_hashgrid.System.Calm.{Calm}
use go_hashgrid.System.Looks.{Kept-refl, Looks, Looks-trans, look-Looks}

Looks-refl : (jp : JpGraph) → Looks jp jp
Looks-refl jp = record { graph = refl; queue = refl; current = refl; kept = Kept-refl jp.vertices }

count_seen-Looks :
    (fuel idx count : ℕ) (ws : List VertexRef) (seen : ℕ) (jp : JpGraph) (n : ℕ) (jp' : JpGraph)
    → count_seen fuel idx count ws seen jp ≡ done (n, jp')
    → Looks jp jp'
unfolding count_seen
count_seen-Looks fuel idx zero ws seen jp n jp' h =
    subst (Looks jp) (ap (λ (x : ℕ × JpGraph). x.1) (done-injective (seen, jp) (n, jp') h))
      (Looks-refl jp)
count_seen-Looks fuel idx (suc count) [] seen jp n jp' h = absurd (cc h)
count_seen-Looks fuel idx (suc count) (none ∷ ws) seen jp n jp' h =
    count_seen-Looks fuel idx count ws seen jp n jp' h
count_seen-Looks fuel idx (suc count) (some w ∷ ws) seen jp n jp' h =
    let ((v, k, jp1), looked, h1) =
      >>=-eq-done (look fuel idx color_cluster_round jp jp.monitor_starter (some w)) _ h in
    Looks-trans
      (look-Looks fuel idx color_cluster_round jp jp1 jp.monitor_starter (some w) v k looked)
      (count_seen-Looks fuel idx count ws (if k then suc seen else seen) jp1 n jp' h1)

elect-Looks : (p : ℕ) (v : Vertex) (jp : JpGraph) → Looks jp (elect p v jp)
unfolding elect
elect-Looks p v jp = record {
  graph = refl;
  queue = refl;
  current = refl;
  kept = record {
    seats =
        λ q. seat_at-update p q (λ u. record u { witness = witness_local }) jp.vertices (λ u. refl);
    links = λ q.
        another_at-update p q (λ u. record u { witness = witness_local }) jp.vertices (λ u. refl);
  };
}

pub monitor_step-Looks :
    (fuel : ℕ) (rd : Round) (p round_num n : ℕ) (jp jp' : JpGraph)
    → monitor_step fuel rd p round_num jp ≡ done (n, jp')
    → Looks jp jp'
unfolding monitor_step
monitor_step-Looks fuel rd p round_num n jp jp' h =
    let jp1 = record jp { monitor_starter = some p } in
    let started : Looks jp jp1 = record {
      graph = refl;
      queue = refl;
      current = refl;
      kept = Kept-refl jp.vertices;
    } in
    elim (Bool-cases (jp.broadness == length jp.graph)) [
      | inr few ↦
          subst (Looks jp)
            (ap (λ (x : ℕ × JpGraph). x.1)
              (done-injective (round_num, jp1) (n, jp') (rw (few, monitor_step) at h)))
            started
      | inl full ↦
          let ((seen, jp2), counted, h1) =
            >>=-eq-done (count_seen fuel rd.index rd.broadness rd.witnesses 0 jp1) _
              (rw (full, monitor_step) at h) in
          let looked =
            Looks-trans started
              (count_seen-Looks fuel rd.index rd.broadness rd.witnesses 0 jp1 seen jp2 counted) in
          let (v, at, h2) = >>=-eq-done (deref_vertex jp2.vertices p) _ h1 in
          elim (Bool-cases
            (ltb jp2.super_majority seen || ((v.seq_num == 0) && (suc round_num == round_max)))) [
              | inl chosen ↦
                  subst (Looks jp)
                    (ap (λ (x : ℕ × JpGraph). x.1)
                      (done-injective (0, elect p v jp2) (n, jp') (rw chosen at h2)))
                    (Looks-trans looked (elect-Looks p v jp2))
              | inr passed ↦
                  subst (Looks jp)
                    (ap (λ (x : ℕ × JpGraph). x.1)
                      (done-injective (suc round_num, jp2) (n, jp') (rw passed at h2)))
                    looked
            ]
    ]

pub Looks-Calm : (jp jp' : JpGraph) → Looks jp jp' → Calm jp jp'
Looks-Calm jp jp' s = record {
  graph = s.graph;
  seats = s.kept.seats;
  links = s.kept.links;
  lost = λ i r e. inr (i, r, sym (ap (λ q. get_elem? q i) s.queue) ∙ e, refl);
}

pub Looks-IsStacked : (jp jp' : JpGraph) → Looks jp jp' → IsStacked jp → IsStacked jp'
Looks-IsStacked jp jp' s h = rw (s.queue, s.current) h
