-- ===== src/System/Tables.antt =====
-- What a change of the `incidents` table keeps: each row sound, no row lost, no tier lowered, no
-- closed row reopened.
use factory_monitor.Base.{
  ℕ, ◌≤◌, ◌≡◌, refl, sym, subst, ◌⊎◌, inl, inr, ◌∙◌, true, false, Option, none, some, List, [], ◌∷◌,
  ◌==◌, ==_iff, elem, arith, Bool-cases, some_eq, if◌then◌else◌, String,
}
use mathlib.Core.Option
use factory_monitor.Store.Incident.{Uuid, Time, IncidentStatus, Incident, is_open}
use factory_monitor.Store.Db.{find, update}
use factory_monitor.Store.Lookup.{find-update_self, find-update_ne}
use factory_monitor.Escalation.Worker.{stamp, stamp_all}

-- The tier that goes with a status.
abbrev pub StatusTier : IncidentStatus → ℕ → Type 0
StatusTier IncidentStatus.awaiting_operator t = t ≡ 0
StatusTier IncidentStatus.tier1 t = t ≡ 1
StatusTier IncidentStatus.tier2 t = t ≡ 2
StatusTier IncidentStatus.ack t = t ≤ 3
StatusTier IncidentStatus.resolved t = t ≤ 3
StatusTier IncidentStatus.critical_unresolved t = t ≡ 3

-- A timer runs only on an open incident, and the deadline that is shown is the timer.
pub record IsSound (x : Incident) : Type 0 where
  pub tier_of_status : StatusTier x.status x.current_tier
  pub shown : x.deadline_at ≡ x.next_fire_at
  pub stopped : is_open x.status ≡ false → x.next_fire_at ≡ none

abbrev pub Sound : List Incident → Type 0
Sound xs = (i : Uuid) (x : Incident) → find i xs ≡ some x → IsSound x

-- Acknowledged or resolved.
abbrev pub Answered : IncidentStatus → Type 0
Answered t = (t ≡ IncidentStatus.ack) ⊎ (t ≡ IncidentStatus.resolved)

-- What a status can become, in any number of transactions: an open one climbs or is closed, a
-- critical one may be answered by an action that loaded it before, and an answered one stays so.
abbrev pub climb : IncidentStatus → ℕ
climb IncidentStatus.awaiting_operator = 0
climb IncidentStatus.tier1 = 1
climb IncidentStatus.tier2 = 2
climb _ = 3

abbrev pub CanBecome : IncidentStatus → IncidentStatus → Type 0
CanBecome IncidentStatus.awaiting_operator t = Unit
CanBecome IncidentStatus.tier1 t = 1 ≤ climb t
CanBecome IncidentStatus.tier2 t = 2 ≤ climb t
CanBecome IncidentStatus.ack t = Answered t
CanBecome IncidentStatus.resolved t = Answered t
CanBecome IncidentStatus.critical_unresolved t =
    (t ≡ IncidentStatus.critical_unresolved) ⊎ Answered t

pub CanBecome-refl : (s : IncidentStatus) → CanBecome s s
CanBecome-refl IncidentStatus.awaiting_operator = tt
CanBecome-refl IncidentStatus.tier1 = omega arith
CanBecome-refl IncidentStatus.tier2 = omega arith
CanBecome-refl IncidentStatus.ack = inl refl
CanBecome-refl IncidentStatus.resolved = inr refl
CanBecome-refl IncidentStatus.critical_unresolved = inl refl

climb_answered : (u : IncidentStatus) → Answered u → 3 ≤ climb u
climb_answered u (inl e) = rw e (omega arith)
climb_answered u (inr e) = rw e (omega arith)

climb_mono : (t u : IncidentStatus) → CanBecome t u → climb t ≤ climb u
climb_mono IncidentStatus.awaiting_operator u q = omega arith
climb_mono IncidentStatus.tier1 u q = q
climb_mono IncidentStatus.tier2 u q = q
climb_mono IncidentStatus.ack u q = climb_answered u q
climb_mono IncidentStatus.resolved u q = climb_answered u q
climb_mono IncidentStatus.critical_unresolved u (inl e) = rw e (omega arith)
climb_mono IncidentStatus.critical_unresolved u (inr q) = climb_answered u q

Answered-CanBecome : (t u : IncidentStatus) → Answered t → CanBecome t u → Answered u
Answered-CanBecome t u (inl e) q = rw e at q
Answered-CanBecome t u (inr e) q = rw e at q

-- Every status can become an answered one.
pub can_answer : (s t : IncidentStatus) → Answered t → CanBecome s t
can_answer IncidentStatus.awaiting_operator t a = tt
can_answer IncidentStatus.tier1 t a = omega (arith, climb_answered t a)
can_answer IncidentStatus.tier2 t a = omega (arith, climb_answered t a)
can_answer IncidentStatus.ack t a = a
can_answer IncidentStatus.resolved t a = a
can_answer IncidentStatus.critical_unresolved t a = inr a

pub CanBecome-trans : (s t u : IncidentStatus) → CanBecome s t → CanBecome t u → CanBecome s u
CanBecome-trans IncidentStatus.awaiting_operator t u p q = tt
CanBecome-trans IncidentStatus.tier1 t u p q = omega (arith, climb_mono t u q)
CanBecome-trans IncidentStatus.tier2 t u p q = omega (arith, climb_mono t u q)
CanBecome-trans IncidentStatus.ack t u p q = Answered-CanBecome t u p q
CanBecome-trans IncidentStatus.resolved t u p q = Answered-CanBecome t u p q
CanBecome-trans IncidentStatus.critical_unresolved t u (inl e) q = rw e at q
CanBecome-trans IncidentStatus.critical_unresolved t u (inr p) q = inr (Answered-CanBecome t u p q)

pub tier_bound : (s : IncidentStatus) (t : ℕ) → StatusTier s t → t ≤ 3
tier_bound IncidentStatus.awaiting_operator t k = omega arith
tier_bound IncidentStatus.tier1 t k = omega arith
tier_bound IncidentStatus.tier2 t k = omega arith
tier_bound IncidentStatus.ack t k = k
tier_bound IncidentStatus.resolved t k = k
tier_bound IncidentStatus.critical_unresolved t k = omega arith

-- The incident exists and has come to the tier.
abbrev pub Reached : Option Incident → ℕ → Type 0
Reached none t = ⊥
Reached (some x) t = t ≤ x.current_tier

abbrev pub Above : Incident → Option Incident → Type 0
Above x none = ⊥
Above x (some y) = (x.current_tier ≤ y.current_tier) × CanBecome x.status y.status

Above-trans :
    (x : Incident) (o p : Option Incident)
    → Above x o
    → ((y : Incident) → o ≡ some y → Above y p)
    → Above x p
Above-trans x none p h k = absurd h
Above-trans x (some y) none h k = k y refl
Above-trans x (some y) (some z) h k =
    let q = k y refl in
    (omega (arith, h.0, q.0), CanBecome-trans x.status y.status z.status h.1 q.1)

-- Every incident is still there, at its tier or a higher one, in a status that its own can become.
abbrev pub Grows : List Incident → List Incident → Type 0
Grows xs ys = (i : Uuid) (x : Incident) → find i xs ≡ some x → Above x (find i ys)

pub Grows-trans : (xs ys zs : List Incident) → Grows xs ys → Grows ys zs → Grows xs zs
Grows-trans xs ys zs g k i x h = Above-trans x (find i ys) (find i zs) (g i x h) (k i)

Reached-mono :
    (o p : Option Incident) (t : ℕ)
    → ((x : Incident) → o ≡ some x → Above x p)
    → Reached o t
    → Reached p t
Reached-mono none p t h r = absurd r
Reached-mono (some x) none t h r = h x refl
Reached-mono (some x) (some y) t h r = omega (arith, h x refl)

pub Reached-Grows :
    (xs ys : List Incident) (i : Uuid) (t : ℕ)
    → Grows xs ys
    → Reached (find i xs) t
    → Reached (find i ys) t
Reached-Grows xs ys i t g r = Reached-mono (find i xs) (find i ys) t (g i) r

pub Grows-refl : (xs : List Incident) → Grows xs xs
Grows-refl xs i x h = rw h (omega arith, CanBecome-refl x.status)

module _ (i : Uuid) (f : Incident → Incident) (keeps : (x : Incident) → (f x).id ≡ x.id)
    (xs : List Incident) (x : Incident) (found : find i xs ≡ some x) where
  at_self : (j : Uuid) → (i == j) ≡ true → find j (update i f xs) ≡ some (f x)
  at_self j e =
      subst (λ k. find k (update i f xs) ≡ some (f x)) ((==_iff i j).0 e)
        (find-update_self i f keeps xs x found)

  pub update-Sound : Sound xs → IsSound (f x) → Sound (update i f xs)
  update-Sound s p j y h = elim (Bool-cases (i == j)) [
    | inl e ↦ subst IsSound (some_eq (sym (at_self j e) ∙ h)) p
    | inr e ↦ s j y (sym (find-update_ne i f keeps j xs e) ∙ h)
  ]

  pub update-Grows :
      x.current_tier ≤ (f x).current_tier
      → CanBecome x.status (f x).status
      → Grows xs (update i f xs)
  update-Grows le can j y h = elim (Bool-cases (i == j)) [
    | inl e ↦
        let same : some x ≡ some y =
          sym found ∙ subst (λ k. find k xs ≡ some y) (sym ((==_iff i j).0 e)) h in
        subst (λ z. Above z (find j (update i f xs))) (some_eq same) (rw (at_self j e) (le, can))
    | inr e ↦ rw (find-update_ne i f keeps j xs e, h) (omega arith, CanBecome-refl y.status)
  ]

module _ (worker : String) (until : Time) (ids : List Uuid) where
  abbrev pub stamped : Incident → Incident
  stamped x = if elem x.id ids then stamp worker until x else x

  -- The claim stamps the rows that it lists, and moves none.
  pub find-stamp_all :
      (i : Uuid) (xs : List Incident)
      → find i (stamp_all worker until ids xs) ≡ Option.map stamped (find i xs)
  unfolding find stamp_all
  find-stamp_all i [] = refl
  find-stamp_all i (x ∷ xs) = ground (arith, find-stamp_all i xs)
