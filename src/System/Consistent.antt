-- ===== src/System/Consistent.antt =====
-- The invariant of the database that ties the tables together, and how it is carried over.
use factory_monitor.Base.{
  ℕ, ◌≤◌, ◌≡◌, refl, ◌∙◌, inl, inr, true, none, some, List, [], ◌∷◌, arith, Option-cases,
}
use factory_monitor.Store.Incident.{Uuid, IncidentStatus, Incident}
use factory_monitor.Store.Rows.{IdempotencyKey}
use factory_monitor.Store.Db.{Db, find, update, fired, has_key}
use factory_monitor.System.Tables.{
  IsSound, Sound, Answered, StatusTier, tier_bound, can_answer, CanBecome, Grows-refl, Reached,
  Grows, Reached-Grows, update-Sound, update-Grows,
}

abbrev pub key : Uuid → ℕ → IdempotencyKey
key i t = record { incident = i; tier = t }

-- Every incident is sound; a guard or an outbox row of a tier exists only where the incident has
-- come to that tier.
pub record IsConsistent (db : Db) : Type 0 where
  pub sound : Sound db.incidents
  pub guarded :
      (i : Uuid) (t : ℕ) → fired i t db.idempotency ≡ true → Reached (find i db.incidents) t
  pub keyed :
      (i : Uuid) (t : ℕ) → has_key (key i t) db.outbox ≡ true → Reached (find i db.incidents) t

-- What every transaction keeps: the invariant, and every incident at its tier or a higher one in a
-- status that its own can become.
pub record Keeps (db db' : Db) : Type 0 where
  pub consistent : IsConsistent db'
  pub grows : Grows db.incidents db'.incidents

pub Keeps-refl : (db : Db) → IsConsistent db → Keeps db db
Keeps-refl db c = record { consistent = c; grows = Grows-refl db.incidents }

-- A change that writes no incident may come first.
pub after_others : (db d last : Db) → db.incidents ≡ d.incidents → Keeps d last → Keeps db last
after_others db d last same k = record { consistent = k.consistent; grows = rw same k.grows }

-- A transaction that changes incidents only upwards, and writes no guard and no key.
pub carry :
    (db db' : Db)
    → IsConsistent db
    → Sound db'.incidents
    → Grows db.incidents db'.incidents
    → db'.idempotency ≡ db.idempotency
    → ((k : IdempotencyKey) → has_key k db'.outbox ≡ has_key k db.outbox)
    → Keeps db db'
carry db db' c s g e k = record {
  grows = g;
  consistent = record {
    sound = s;
    guarded = λ i t h. Reached-Grows _ _ i t g (c.guarded i t (rw e at h));
    keyed = λ i t h. Reached-Grows _ _ i t g (c.keyed i t (rw (k (key i t)) at h));
  };
}

-- The same for the UPDATE of one incident that was found.
pub carry_update :
    (db : Db) (f : Incident → Incident) (x : Incident)
    → ((y : Incident) → (f y).id ≡ y.id)
    → (i : Uuid) → find i db.incidents ≡ some x
    → x.current_tier ≤ (f x).current_tier
    → CanBecome x.status (f x).status
    → (IsSound x → IsSound (f x))
    → (db' : Db) → db'.incidents ≡ update i f db.incidents
    → db'.idempotency ≡ db.idempotency
    → db'.outbox ≡ db.outbox
    → IsConsistent db
    → Keeps db db'
carry_update db f x keeps i found le can p db' e₁ e₂ e₃ c =
    carry db db' c
      (rw e₁ (update-Sound i f keeps db.incidents x found c.sound (p (c.sound i x found))))
      (rw e₁ (update-Grows i f keeps db.incidents x found le can)) e₂ (λ k. rw e₃)

update_absent :
    (i : Uuid) (f : Incident → Incident) (xs : List Incident)
    → find i xs ≡ none
    → update i f xs ≡ xs
unfolding find update
update_absent i f [] h = refl
update_absent i f (x ∷ xs) h = ground (arith, update_absent i f xs)

-- An acknowledgement or a resolution of whatever row the table has now.
pub record IsAnswer (f : Incident → Incident) : Type 0 where
  pub keeps_id : (x : Incident) → (f x).id ≡ x.id
  pub keeps_tier : (x : Incident) → (f x).current_tier ≡ x.current_tier
  pub answers : (x : Incident) → Answered (f x).status
  pub no_timer : (x : Incident) → (f x).next_fire_at ≡ none
  pub no_deadline : (x : Incident) → (f x).deadline_at ≡ none

answered-StatusTier : (s : IncidentStatus) (t : ℕ) → Answered s → t ≤ 3 → StatusTier s t
answered-StatusTier s t (inl e) h = rw e h
answered-StatusTier s t (inr e) h = rw e h

answer-IsSound : (f : Incident → Incident) → IsAnswer f → (x : Incident) → IsSound x → IsSound (f x)
answer-IsSound f a x s = record {
  tier_of_status =
      answered-StatusTier (f x).status (f x).current_tier (a.answers x)
        (rw (a.keeps_tier x) (tier_bound x.status x.current_tier s.tier_of_status));
  shown = rw (a.no_timer x, a.no_deadline x);
  stopped = λ _. a.no_timer x;
}

-- An answer that was decided on a row loaded before keeps every consistent database consistent.
pub carry_answer :
    (db db' : Db) (f : Incident → Incident) (i : Uuid)
    → IsAnswer f
    → db'.incidents ≡ update i f db.incidents
    → db'.idempotency ≡ db.idempotency
    → db'.outbox ≡ db.outbox
    → IsConsistent db
    → Keeps db db'
carry_answer db db' f i a e₁ e₂ e₃ c = elim (Option-cases (find i db.incidents)) [
  | inl gone ↦
      let same : db'.incidents ≡ db.incidents = e₁ ∙ update_absent i f db.incidents gone in
      carry db db' c (rw same c.sound) (rw same (Grows-refl db.incidents)) e₂ (λ k. rw e₃)
  | inr (x, found) ↦
      carry_update db f x a.keeps_id i found (omega (arith, a.keeps_tier x))
        (can_answer x.status (f x).status (a.answers x)) (answer-IsSound f a x) db' e₁ e₂ e₃ c
]
