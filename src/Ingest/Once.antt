-- ===== src/Ingest/Once.antt =====
-- One event makes at most one incident, whatever other transactions commit between the checks of
-- cloud/ingest_worker/service.py and its inserts.
use factory_monitor.Base.{
  ℕ, ◌≡◌, refl, sym, ap, subst, ◌∙◌, ◌⊎◌, inl, inr, Bool, true, false, Option, none, some, String,
  Bool-cases,
}
use factory_monitor.Base.Outcome.{Outcome, Error, ok, err}
use factory_monitor.Store.Incident.{Uuid}
use factory_monitor.Store.Db.{Db, find, event_seen, open_with_key}
use factory_monitor.Ingest.Anomaly.{AnomalyEvent}
use factory_monitor.Ingest.Service.{
  OnCallResolver, Supply, IncidentResult, Reason, made, refused, insert_rows, create_with_source,
  create_incident_from_anomaly, after_rollback, settle_insert,
}
use factory_monitor.Ingest.Rows.{
  insert_rows-ok, insert_rows-OnlyIntegrity, insert_rows_free, with_rows,
}
use factory_monitor.Escalation.Transition.Cases.{IsFree}

module _ (parse_uuid : String → Option Uuid) (seen db later : Db) (event : AnomalyEvent)
    (source : Uuid) (parsed : parse_uuid event.event_id ≡ some source) (grace : ℕ)
    (resolver : Option OnCallResolver) (supply : Supply) where
  abbrev pub create : Outcome (IncidentResult × Db)
  create = create_incident_from_anomaly parse_uuid seen db later event grace resolver supply

  pub create-eq : create ≡ create_with_source seen db later event source grace resolver supply
  unfolding create_incident_from_anomaly
  create-eq = rw (parsed, create_incident_from_anomaly) refl

  -- The database has an audit row of the event, or an open incident with its key.
  abbrev pub IsDuplicate : Type 0
  IsDuplicate =
      (event_seen source db.events ≡ true) ⊎ (open_with_key event.dedup_key db.incidents ≡ true)

  -- The call is refused, or the exception of the flush leaves it because the check after the rollback
  -- finds neither the event nor an open incident with its key.
  abbrev pub Refuses : Outcome (IncidentResult × Db) → Type 0
  Refuses o =
      (o ≡ ok (refused Reason.duplicate_event_id, db))
      ⊎ ((o ≡ ok (refused Reason.duplicate_open_dedup, db))
          ⊎ ((o ≡ err Error.integrity_error)
              × (event_seen source later.events ≡ false)
              × (open_with_key event.dedup_key later.incidents ≡ false)))

  rollback-Refuses : Refuses (after_rollback later db event source Error.integrity_error)
  unfolding after_rollback
  rollback-Refuses = elim (Bool-cases (event_seen source later.events)) [
    | inl s ↦ inl (rw s)
    | inr s ↦ elim (Bool-cases (open_with_key event.dedup_key later.incidents)) [
      | inl o ↦ inr (inl (rw (s, o)))
      | inr o ↦ inr (inr (rw (s, o) refl, s, o))
    ]
  ]

  not_inserted :
      (d : Db) → IsDuplicate → insert_rows db event source grace resolver supply ≡ ok d → ⊥
  not_inserted d (inl s) h =
      bool_clash s (insert_rows-ok db event source grace resolver supply d h).new_source
    where
      bool_clash : {b : Bool} → b ≡ true → b ≡ false → ⊥
      bool_clash p q = cc
  not_inserted d (inr o) h =
      bool_clash o (insert_rows-ok db event source grace resolver supply d h).new_key
    where
      bool_clash : {b : Bool} → b ≡ true → b ≡ false → ⊥
      bool_clash p q = cc

  settle-Refuses :
      (o : Outcome Db)
      → insert_rows db event source grace resolver supply ≡ o
      → IsDuplicate
      → Refuses (settle_insert later db event source supply.incident_id o)
  settle-Refuses (err e) q h =
      subst (λ f. Refuses (after_rollback later db event source f))
        (sym (insert_rows-OnlyIntegrity db event source grace resolver supply e q)) rollback-Refuses
  settle-Refuses (ok d) q h = absurd (not_inserted d h q)

  with_source-Refuses :
      IsDuplicate → Refuses (create_with_source seen db later event source grace resolver supply)
  unfolding create_with_source
  with_source-Refuses h = elim (Bool-cases (event_seen source seen.events)) [
    | inl e ↦ inl (rw (e, create_with_source) refl)
    | inr e ↦ elim (Bool-cases (open_with_key event.dedup_key seen.incidents)) [
      | inl o ↦ inr (inl (rw (e, o, create_with_source) refl))
      | inr o ↦ rw (e, o, create_with_source) (settle-Refuses _ refl h)
    ]
  ]

  -- For an event whose id is a UUID: if the database at the flush has an audit row of the event or
  -- an open incident with its key, then no incident is made, whatever the pre-checks saw: the call
  -- refuses the event as a duplicate by its id or by its key and leaves that database unchanged, or it
  -- raises the IntegrityError, and that only where the database at the check after the rollback has
  -- neither an audit row of the event nor an open incident with its key.
  pub duplicate_refused :
      IsDuplicate
      → (create ≡ ok (refused Reason.duplicate_event_id, db))
        ⊎ ((create ≡ ok (refused Reason.duplicate_open_dedup, db))
            ⊎ ((create ≡ err Error.integrity_error)
                × (event_seen source later.events ≡ false)
                × (open_with_key event.dedup_key later.incidents ≡ false)))
  duplicate_refused h = rw create-eq (with_source-Refuses h)

  -- The same, where the event or the key is still there at the check after the rollback.
  pub duplicate_still_refused :
      IsDuplicate
      → (event_seen source later.events ≡ true)
        ⊎ (open_with_key event.dedup_key later.incidents ≡ true)
      → (create ≡ ok (refused Reason.duplicate_event_id, db))
        ⊎ (create ≡ ok (refused Reason.duplicate_open_dedup, db))
  duplicate_still_refused h k = elim (duplicate_refused h) [
    | inl e ↦ inl e
    | inr (inl e) ↦ inr e
    | inr (inr (e, s, o)) ↦ absurd (neither k s o)
  ]
    where
      neither : {a b : Bool} → (a ≡ true) ⊎ (b ≡ true) → a ≡ false → b ≡ false → ⊥
      neither (inl x) p q = cc
      neither (inr x) p q = cc

  with_source_pass :
      event_seen source seen.events ≡ false
      → open_with_key event.dedup_key seen.incidents ≡ false
      → create_with_source seen db later event source grace resolver supply
        ≡ settle_insert later db event source supply.incident_id
            (insert_rows db event source grace resolver supply)
  unfolding create_with_source
  with_source_pass p q = rw (p, q, create_with_source) refl

  pub fresh_rows :
      event_seen source seen.events ≡ false
      → open_with_key event.dedup_key seen.incidents ≡ false
      → event_seen source db.events ≡ false
      → open_with_key event.dedup_key db.incidents ≡ false
      → find supply.incident_id db.incidents ≡ none
      → IsFree supply.outbox_id supply.incident_id 0 db.outbox
      → create ≡ ok (made supply.incident_id, with_rows db event source grace resolver supply)
  fresh_rows es os e o i free =
      create-eq
      ∙ with_source_pass es os
      ∙ ap (settle_insert later db event source supply.incident_id)
          (insert_rows_free db event source grace resolver supply i o e free)

  -- A key that was open at the flush, for an event that is new, and is closed at the check after the
  -- rollback.
  pub answered_since :
      event_seen source seen.events ≡ false
      → open_with_key event.dedup_key seen.incidents ≡ false
      → open_with_key event.dedup_key db.incidents ≡ true
      → event_seen source later.events ≡ false
      → open_with_key event.dedup_key later.incidents ≡ false
      → create ≡ err Error.integrity_error
  answered_since es os o e k = rw (create-eq, with_source_pass es os) (by_insert _ refl)
    where
      by_insert :
          (r : Outcome Db)
          → insert_rows db event source grace resolver supply ≡ r
          → settle_insert later db event source supply.incident_id r ≡ err Error.integrity_error
      by_insert (ok d) q = absurd (not_inserted d (inr o) q)
      by_insert (err f) q =
          rw (insert_rows-OnlyIntegrity db event source grace resolver supply f q)
            (unfold after_rollback in rw (e, k) refl)
