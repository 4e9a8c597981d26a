-- ===== src/Jigsaw/Seats.antt =====
-- What never changes about a vertex of core/jigsaw.go once it is made: its event, how many colors it
-- has, the number of its
-- column and its self parent. Links to other parents are stated over these.
use go_hashgrid.Common.{
  ℕ, zero, suc, ◌<◌, ◌≡◌, refl, sym, ap, ◌∙◌, ◌⊎◌, inl, inr, Option, none, some, List, [], ◌∷◌,
  ◌++◌, arith, length,
}
use go_hashgrid.Types.Event.{Event}
use go_hashgrid.Types.Hash.{Hash}
use go_hashgrid.Jigsaw.State.{Vertex, VertexRef, update_vertex}
use go_hashgrid.Jigsaw.AddEvent.{link_waiting}

pub record Seat : Type 0 where
  pub event : Event
  pub seq_num : ℕ
  pub self_pt : VertexRef
  pub colors : ℕ

abbrev pub seat_of : Vertex → Seat
seat_of v = record {
  event = v.event;
  seq_num = v.seq_num;
  self_pt = v.self_pt;
  colors = length v.color;
}

abbrev pub seat_at : List Vertex → ℕ → Option Seat
seat_at [] p = none
seat_at (v ∷ vs) zero = some (seat_of v)
seat_at (v ∷ vs) (suc p) = seat_at vs p

-- The other parent that a vertex is linked to.
abbrev pub another_at : List Vertex → ℕ → VertexRef
another_at [] p = none
another_at (v ∷ vs) zero = v.another_pt
another_at (v ∷ vs) (suc p) = another_at vs p

pub seat_at-update :
    (p q : ℕ) (f : Vertex → Vertex) (vs : List Vertex)
    → ((v : Vertex) → seat_of (f v) ≡ seat_of v)
    → seat_at (update_vertex p f vs) q ≡ seat_at vs q
unfolding update_vertex
seat_at-update p q f [] h = refl
seat_at-update zero zero f (v ∷ vs) h = ap some (h v)
seat_at-update zero (suc q) f (v ∷ vs) h = refl
seat_at-update (suc p) zero f (v ∷ vs) h = refl
seat_at-update (suc p) (suc q) f (v ∷ vs) h = seat_at-update p q f vs h

pub another_at-update :
    (p q : ℕ) (f : Vertex → Vertex) (vs : List Vertex)
    → ((v : Vertex) → (f v).another_pt ≡ v.another_pt)
    → another_at (update_vertex p f vs) q ≡ another_at vs q
unfolding update_vertex
another_at-update p q f [] h = refl
another_at-update zero zero f (v ∷ vs) h = h v
another_at-update zero (suc q) f (v ∷ vs) h = refl
another_at-update (suc p) zero f (v ∷ vs) h = refl
another_at-update (suc p) (suc q) f (v ∷ vs) h = another_at-update p q f vs h

-- Linking changes the link of one vertex.
pub another_at-link :
    (p q r : ℕ) (vs : List Vertex)
    → (another_at (update_vertex p (λ v. record v { another_pt = some r }) vs) q ≡ another_at vs q)
      ⊎ ((q ≡ p)
          × (another_at (update_vertex p (λ v. record v { another_pt = some r }) vs) q ≡ some r))
unfolding update_vertex
another_at-link p q r [] = inl refl
another_at-link zero zero r (v ∷ vs) = inr (refl, refl)
another_at-link zero (suc q) r (v ∷ vs) = inl refl
another_at-link (suc p) zero r (v ∷ vs) = inl refl
another_at-link (suc p) (suc q) r (v ∷ vs) = ground (arith, another_at-link p q r vs)

pub seat_at-lt : (vs : List Vertex) (p : ℕ) (s : Seat) → seat_at vs p ≡ some s → p < length vs
seat_at-lt [] p s h = cc
seat_at-lt (v ∷ vs) zero s h = omega arith
seat_at-lt (v ∷ vs) (suc p) s h = omega (arith, seat_at-lt vs p s h)

pub seat_at-push_old :
    (vs : List Vertex) (v : Vertex) (p : ℕ) (s : Seat)
    → seat_at vs p ≡ some s
    → seat_at (vs ++ v ∷ []) p ≡ some s
seat_at-push_old [] v p s h = cc
seat_at-push_old (u ∷ vs) v zero s h = h
seat_at-push_old (u ∷ vs) v (suc p) s h = seat_at-push_old vs v p s h

pub seat_at-push_new :
    (vs : List Vertex) (v : Vertex) → seat_at (vs ++ v ∷ []) (length vs) ≡ some (seat_of v)
seat_at-push_new [] v = refl
seat_at-push_new (u ∷ vs) v = seat_at-push_new vs v

-- A seat of the longer heap is one of the shorter heap or the new one.
pub seat_at-push_cases :
    (vs : List Vertex) (v : Vertex) (p : ℕ) (s : Seat)
    → seat_at (vs ++ v ∷ []) p ≡ some s
    → (seat_at vs p ≡ some s) ⊎ ((p ≡ length vs) × (s ≡ seat_of v))
seat_at-push_cases [] v zero s h = ground arith
seat_at-push_cases [] v (suc p) s h = cc
seat_at-push_cases (u ∷ vs) v zero s h = inl h
seat_at-push_cases (u ∷ vs) v (suc p) s h = ground (arith, seat_at-push_cases vs v p s)

pub another_at-push :
    (vs : List Vertex) (v : Vertex) (p : ℕ)
    → v.another_pt ≡ none
    → another_at (vs ++ v ∷ []) p ≡ another_at vs p
another_at-push [] v zero h = h
another_at-push [] v (suc p) h = refl
another_at-push (u ∷ vs) v zero h = refl
another_at-push (u ∷ vs) v (suc p) h = another_at-push vs v p h

-- The heap keeps every seat, and may have more.
abbrev pub Extends : List Vertex → List Vertex → Type 0
Extends vs ws = (p : ℕ) (s : Seat) → seat_at vs p ≡ some s → seat_at ws p ≡ some s

-- Vertex q is the other parent that vertex p names.
pub record LinksTo (vs : List Vertex) (p q : ℕ) : Type 0 where
  pub child : Seat
  pub parent : Seat
  pub child_at : seat_at vs p ≡ some child
  pub parent_at : seat_at vs q ≡ some parent
  pub named : parent.event.self_hash ≡ child.event.other_part_h

pub LinksTo-extend :
    {vs : List Vertex} {p q : ℕ} (ws : List Vertex)
    → Extends vs ws
    → LinksTo vs p q
    → LinksTo ws p q
LinksTo-extend ws ext l = record {
  child = l.child;
  parent = l.parent;
  child_at = ext _ _ l.child_at;
  parent_at = ext _ _ l.parent_at;
  named = l.named;
}

-- Every link that is set leads to the parent that the child names.
abbrev pub IsLinked : List Vertex → Type 0
IsLinked vs = (p q : ℕ) → another_at vs p ≡ some q → LinksTo vs p q

pub IsLinked-push :
    (vs : List Vertex) (v : Vertex) → v.another_pt ≡ none → IsLinked vs → IsLinked (vs ++ v ∷ [])
IsLinked-push vs v h l p q e =
    LinksTo-extend (vs ++ v ∷ []) (seat_at-push_old vs v)
      (l p q (sym (another_at-push vs v p h) ∙ e))

-- An update that leaves seats and links alone.
pub IsLinked-update :
    (r : ℕ) (f : Vertex → Vertex) (vs : List Vertex)
    → ((v : Vertex) → seat_of (f v) ≡ seat_of v)
    → ((v : Vertex) → (f v).another_pt ≡ v.another_pt)
    → IsLinked vs
    → IsLinked (update_vertex r f vs)
IsLinked-update r f vs h g l p q e =
    LinksTo-extend (update_vertex r f vs) (λ i s at. seat_at-update r i f vs h ∙ at)
      (l p q (sym (another_at-update r p f vs g) ∙ e))

pub Extends-link :
    (p r : ℕ) (vs : List Vertex)
    → Extends vs (update_vertex p (λ v. record v { another_pt = some r }) vs)
Extends-link p r vs i s at =
    seat_at-update p i (λ v. record v { another_pt = some r }) vs (λ v. refl) ∙ at

pub IsLinked-link :
    (p r : ℕ) (vs : List Vertex)
    → LinksTo vs p r
    → IsLinked vs
    → IsLinked (update_vertex p (λ v. record v { another_pt = some r }) vs)
IsLinked-link p r vs new l i q e =
    let ws = update_vertex p (λ v. record v { another_pt = some r }) vs in
    elim (another_at-link p i r vs) [
      | inl same ↦ LinksTo-extend ws (Extends-link p r vs) (l i q (sym same ∙ e))
      | inr (at, now) ↦
          let same : r ≡ q = cc in LinksTo-extend ws (Extends-link p r vs) (rw (at, ← same) new)
    ]

-- All these vertices wait for the hash.
abbrev pub AllWait : List Vertex → Hash → List ℕ → Type 0
AllWait vs h [] = Unit
AllWait vs h (c ∷ cs) =
    ((s : Seat) × (seat_at vs c ≡ some s) × (s.event.other_part_h ≡ h)) × AllWait vs h cs

pub AllWait-extend :
    (vs ws : List Vertex) (h : Hash) (cs : List ℕ)
    → Extends vs ws
    → AllWait vs h cs
    → AllWait ws h cs
AllWait-extend vs ws h [] ext w = tt
AllWait-extend vs ws h (c ∷ cs) ext ((s, at, e), w) =
    ((s, ext c s at, e), AllWait-extend vs ws h cs ext w)

pub AllWait-append :
    (vs : List Vertex) (h : Hash) (c : ℕ) (cs : List ℕ) (s : Seat)
    → seat_at vs c ≡ some s
    → s.event.other_part_h ≡ h
    → AllWait vs h cs
    → AllWait vs h (cs ++ c ∷ [])
AllWait-append vs h c [] s at e w = ((s, at, e), tt)
AllWait-append vs h c (d ∷ cs) s at e (first, w) = (first, AllWait-append vs h c cs s at e w)

pub Extends-link_waiting :
    (p : ℕ) (cs : List ℕ) (vs : List Vertex) → Extends vs (link_waiting p cs vs)
unfolding link_waiting
Extends-link_waiting p [] vs i s at = at
Extends-link_waiting p (c ∷ cs) vs i s at =
    Extends-link_waiting p cs _ i s (Extends-link c p vs i s at)

pub IsLinked-link_waiting :
    (p : ℕ) (cs : List ℕ) (vs : List Vertex) (t : Seat)
    → seat_at vs p ≡ some t
    → AllWait vs t.event.self_hash cs
    → IsLinked vs
    → IsLinked (link_waiting p cs vs)
unfolding link_waiting
IsLinked-link_waiting p [] vs t at w l = l
IsLinked-link_waiting p (c ∷ cs) vs t at ((s, here, e), w) l =
    let ws = update_vertex c (λ v. record v { another_pt = some p }) vs in
    let link : LinksTo vs c p = record {
      child = s;
      parent = t;
      child_at = here;
      parent_at = at;
      named = sym e;
    } in
    IsLinked-link_waiting p cs ws t (Extends-link c p vs p t at)
      (AllWait-extend vs ws t.event.self_hash cs (Extends-link c p vs) w)
      (IsLinked-link c p vs link l)
