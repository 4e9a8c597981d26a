-- ===== src/System/Contents.antt =====
-- Which events a running node has.
use go_hashgrid.Common.{
  ℕ, ◌≡◌, refl, sym, ap, subst, ◌∙◌, ◌⊎◌, inl, inr, Bool, true, false, ◌&&◌, ◌||◌, Bool-cases,
  bytes_eq, bytes_eq_iff, done,
}
use go_hashgrid.Types.Address.{Address}
use go_hashgrid.Types.Hash.{Hash}
use go_hashgrid.Types.Event.{Event, Hasher}
use go_hashgrid.Jigsaw.State.{JpGraph}
use go_hashgrid.Jigsaw.Validate.{validate_event}
use go_hashgrid.Jigsaw.AddEvent.{add_event}
use go_hashgrid.Jigsaw.AddEvent.Contents.{has_event, names, has_event-graph, add_event-has_event}
use go_hashgrid.P2p.Peer.{Codec}
use go_hashgrid.System.{System, Step, turn, add, message, round_turn, monitor_turn, Run, here, next}
use go_hashgrid.System.Calls.{handle-Same}
use go_hashgrid.System.Turns.{round_step-Calm}
use go_hashgrid.System.Monitoring.{monitor_step-Looks}
use go_hashgrid.System.Safe.{node_step-Fine}

-- Some valid event has this author and this hash.
abbrev pub Genuine : Hasher → Address → Hash → Type 0
Genuine k a h =
    (e : Event) × (validate_event k e ≡ true) × (e.self_sig.addr ≡ a) × (e.self_hash ≡ h)

-- No event is lost, and only valid ones come.
pub record Grows (k : Hasher) (jp jp' : JpGraph) : Type 0 where
  pub kept : (a : Address) (h : Hash) → has_event a h jp ≡ true → has_event a h jp' ≡ true
  pub came :
      (a : Address) (h : Hash)
      → has_event a h jp' ≡ true
      → (has_event a h jp ≡ true) ⊎ Genuine k a h

Grows-same : (k : Hasher) (jp jp' : JpGraph) → jp'.graph ≡ jp.graph → Grows k jp jp'
Grows-same k jp jp' e = record {
  kept = λ a h had. has_event-graph a h jp jp' e ∙ had;
  came = λ a h has. inl (sym (has_event-graph a h jp jp' e) ∙ has);
}

Grows-trans :
    (k : Hasher) (jp jp1 jp2 : JpGraph) → Grows k jp jp1 → Grows k jp1 jp2 → Grows k jp jp2
Grows-trans k jp jp1 jp2 g g1 = record {
  kept = λ a h had. g1.kept a h (g.kept a h had);
  came = λ a h has. elim (g1.came a h has) [ inl old ↦ g.came a h old | inr new ↦ inr new ];
}

or_cases : (b c d : Bool) → (b || (c && d)) ≡ true → (b ≡ true) ⊎ ((c ≡ true) × (d ≡ true))
or_cases true c d h = inl refl
or_cases false true true h = inr (refl, refl)
or_cases false true false h = cc
or_cases false false d h = cc

names_same :
    (e : Event) (a : Address) (h : Hash)
    → names e a h ≡ true
    → (e.self_sig.addr ≡ a) × (e.self_hash ≡ h)
names_same e a h n = elim (Bool-cases (bytes_eq e.self_sig.addr a)) [
  | inl s ↦ ((bytes_eq_iff e.self_sig.addr a).0 s, (bytes_eq_iff e.self_hash h).0 (rw s at n))
  | inr s ↦ absurd (cc (rw s at n))
]

Grows-add_event :
    (k : Hasher) (e : Event) (ty : ℕ) (jp jp' : JpGraph) (b : Bool)
    → add_event k e ty jp ≡ done (b, jp')
    → Grows k jp jp'
Grows-add_event k e ty jp jp' b h =
    let (valid, contents) = add_event-has_event k e ty jp jp' b h in
    record {
      kept = λ a x had. contents a x ∙ ap (λ o. o || (b && names e a x)) had;
      came = λ a x has.
          elim (or_cases (has_event a x jp) b (names e a x) (sym (contents a x) ∙ has)) [
            | inl old ↦ inl old
            | inr (good, named) ↦
                let (author, hash) = names_same e a x named in
                inr (e, sym valid ∙ good, author, hash)
          ];
    }

Step-Grows :
    (k : Hasher) (c : Codec) (s t : System) → Step k c s t → Grows k s.loop.jigsaw t.loop.jigsaw
Step-Grows k c s t (turn g nd h e) =
    subst (λ (x : System). Grows k s.loop.jigsaw x.loop.jigsaw) (sym e)
      (Grows-same k s.loop.jigsaw nd.jigsaw (node_step-Fine k g s.loop nd h).0.graph)
Step-Grows k c s t (add xs ys ev ty b jp now h e) =
    subst (λ (x : System). Grows k s.loop.jigsaw x.loop.jigsaw) (sym e)
      (Grows-add_event k ev ty s.loop.jigsaw jp b h)
Step-Grows k c s t (message msg r jp h e) =
    subst (λ (x : System). Grows k s.loop.jigsaw x.loop.jigsaw) (sym e)
      (Grows-same k s.loop.jigsaw jp (handle-Same c msg s.loop.jigsaw jp r h).graph)
Step-Grows k c s t (round_turn g n w jp h e) =
    subst (λ (x : System). Grows k s.loop.jigsaw x.loop.jigsaw) (sym e)
      (Grows-same k s.loop.jigsaw jp
        (round_step-Calm g s.fames n s.wtriggered w s.loop.jigsaw jp h).graph)
Step-Grows k c s t (monitor_turn fuel rd p n jp h e) =
    subst (λ (x : System). Grows k s.loop.jigsaw x.loop.jigsaw) (sym e)
      (Grows-same k s.loop.jigsaw jp
        (monitor_step-Looks fuel rd p s.round_num n s.loop.jigsaw jp h).graph)

-- From any state of a running node on, whatever comes and in whatever order, provided that no two
-- calls overlap in time, no event of the graph is ever lost, and each event that is new has the author and the hash of one that passes
-- `validateEvent`.
pub Run-Grows :
    (k : Hasher) (c : Codec) (s t : System) → Run k c s t → Grows k s.loop.jigsaw t.loop.jigsaw
Run-Grows k c s t here = Grows-same k s.loop.jigsaw s.loop.jigsaw refl
Run-Grows k c s t (next {t = u} run step) =
    Grows-trans k s.loop.jigsaw u.loop.jigsaw t.loop.jigsaw (Run-Grows k c s u run)
      (Step-Grows k c u t step)
