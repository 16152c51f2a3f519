-- ===== src/Store/Inserts.antt =====
-- What a successful INSERT has checked and written.
use factory_monitor.Base.{
  ◌≡◌, Bool, true, if◌then◌else◌, refl, false, ◌&&◌, none, ◌∷◌, arith, Option-cases, inl, inr,
}
use factory_monitor.Base.Outcome.{Outcome, Error, ok, err, err_ok, ◌>>=◌}
use factory_monitor.Store.Incident.{Incident, is_open}
use factory_monitor.Store.Rows.{IncidentEvent, Outbox}
use factory_monitor.Store.Db.{
  Db, find, open_with_key, duplicates_source, insert_incident, insert_event, insert_outbox,
}

pub bind_ok {ℓ κ} :
    {A : Type ℓ} {B : Type κ} (m : Outcome A) (f : A → Outcome B) (b : B)
    → (m >>= f) ≡ ok b
    → (a : A) × (m ≡ ok a) × (f a ≡ ok b)
bind_ok (ok a) f b h = (a, refl, h)
bind_ok (err e) f b h = absurd (err_ok h)

pub insert_incident-ok :
    (x : Incident) (db db' : Db)
    → insert_incident x db ≡ ok db'
    → (find x.id db.incidents ≡ none)
      × ((is_open x.status && open_with_key x.dedup_key db.incidents) ≡ false)
      × (record db { incidents = x ∷ db.incidents } ≡ db')
unfolding insert_incident
insert_incident-ok x db db' h = elim (Option-cases (find x.id db.incidents)) [
  | inl free ↦ (free, ground arith, ground arith)
  | inr (y, taken) ↦ absurd (err_ok (rw (taken, insert_incident) at h))
]

pub insert_event-ok :
    (x : IncidentEvent) (db db' : Db)
    → insert_event x db ≡ ok db'
    → (duplicates_source x.source_event_id db.events ≡ false)
      × (record db { events = x ∷ db.events } ≡ db')
unfolding insert_event
insert_event-ok x db db' h = ground arith

pub bind_eq {ℓ κ} :
    {A : Type ℓ} {B : Type κ} (m : Outcome A) (f : A → Outcome B) (a : A)
    → m ≡ ok a
    → (m >>= f) ≡ f a
bind_eq m f a h = rw h refl

pub insert_incident_free :
    (x : Incident) (db : Db)
    → find x.id db.incidents ≡ none
    → open_with_key x.dedup_key db.incidents ≡ false
    → insert_incident x db ≡ ok (record db { incidents = x ∷ db.incidents })
unfolding insert_incident
insert_incident_free x db f o = rw (f, insert_incident) (ground arith)

pub insert_event_free :
    (x : IncidentEvent) (db : Db)
    → duplicates_source x.source_event_id db.events ≡ false
    → insert_event x db ≡ ok (record db { events = x ∷ db.events })
unfolding insert_event
insert_event_free x db h = rw h refl

-- What may raise only `IntegrityError`.
abbrev pub OnlyIntegrity {ℓ} : {A : Type ℓ} → Outcome A → Type ℓ
OnlyIntegrity m = (e : Error) → m ≡ err e → e ≡ Error.integrity_error

pub bind-OnlyIntegrity {ℓ} :
    {A B : Type ℓ} (m : Outcome A) (f : A → Outcome B)
    → OnlyIntegrity m
    → ((a : A) → OnlyIntegrity (f a))
    → OnlyIntegrity (m >>= f)
bind-OnlyIntegrity {A = A} {B = B} (ok a) f h k e q = k a e q
bind-OnlyIntegrity {A = A} {B = B} (err d) f h k e q = h e (err_again q)
  where
    err_again :
        {d e : Error} → ◌≡◌ {A = Outcome B} (err d) (err e) → ◌≡◌ {A = Outcome A} (err d) (err e)
    err_again q = cc

pub insert_incident-OnlyIntegrity : (x : Incident) (db : Db) → OnlyIntegrity (insert_incident x db)
unfolding insert_incident
insert_incident-OnlyIntegrity x db e h = elim (Option-cases (find x.id db.incidents)) [
  | inl free ↦ by_key _ (rw (free, insert_incident) at h)
  | inr (y, taken) ↦ same (rw (taken, insert_incident) at h)
]
  where
    same : ◌≡◌ {A = Outcome Db} (err Error.integrity_error) (err e) → e ≡ Error.integrity_error
    same q = cc

    by_key :
        (b : Bool)
        → (if b then err Error.integrity_error else ok (record db { incidents = x ∷ db.incidents }))
          ≡ err e
        → e ≡ Error.integrity_error
    by_key true q = same q
    by_key false q = cc

pub insert_event-OnlyIntegrity : (x : IncidentEvent) (db : Db) → OnlyIntegrity (insert_event x db)
unfolding insert_event
insert_event-OnlyIntegrity x db e h = ground arith

pub insert_outbox-OnlyIntegrity : (x : Outbox) (db : Db) → OnlyIntegrity (insert_outbox x db)
unfolding insert_outbox
insert_outbox-OnlyIntegrity x db e h = ground arith
