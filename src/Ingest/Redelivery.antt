-- ===== src/Ingest/Redelivery.antt =====
-- A record that Kafka delivers again changes nothing, and a record whose event id is no UUID stops
-- the consumer (cloud/ingest_worker/consumer.py).
use factory_monitor.Base.{
  ℕ, ◌≡◌, refl, sym, ap, ◌∙◌, ◌⊎◌, inl, inr, Bool, true, false, Option, none, some, List, ◌∷◌,
  String, arith, ==_refl, if◌then◌else◌,
}
use factory_monitor.Base.Outcome.{Outcome, Error, ok, err, err_ok}
use factory_monitor.Store.Incident.{Uuid}
use factory_monitor.Store.Db.{Db, event_seen, open_with_key}
use factory_monitor.Ingest.Anomaly.{AnomalyEvent}
use factory_monitor.Ingest.Service.{
  OnCallResolver, Supply, IncidentResult, Reason, created_event, create_incident_from_anomaly,
}
use factory_monitor.Ingest.Rows.{with_rows}
use factory_monitor.Ingest.Cases.{Ingested, refused_event, inserted, create_with_source-Ingested}
use factory_monitor.Ingest.Once.{create-eq, answered_since, duplicate_still_refused}
use factory_monitor.Ingest.Consumer.{
  Status, World, handle_message, commit_offset, finish, run_forever,
}

with_rows-seen :
    (db : Db) (event : AnomalyEvent) (source : Uuid) (grace : ℕ) (resolver : Option OnCallResolver)
    (supply : Supply)
    → event_seen source (with_rows db event source grace resolver supply).events ≡ true
unfolding event_seen created_event
with_rows-seen db event source grace resolver supply = rw (==_refl source)

module _ (Raw : Type 0) (validate : Raw → Option AnomalyEvent) (parse_uuid : String → Option Uuid)
    (grace : ℕ) (resolver : Option OnCallResolver) where
  pub handle_valid :
      (seen later : Db) (supply : Supply) (raw : Raw)
      (w : World Raw validate parse_uuid grace resolver) (event : AnomalyEvent)
      → validate raw ≡ some event
      → handle_message Raw validate parse_uuid grace resolver seen later supply raw w
        ≡ finish Raw validate parse_uuid grace resolver w
            (create_incident_from_anomaly parse_uuid seen w.db later event grace resolver supply)
  unfolding handle_message
  handle_valid seen later supply raw w event v = rw (v, handle_message) refl

  bad_create :
      (seen db later : Db) (event : AnomalyEvent) (supply : Supply)
      → parse_uuid event.event_id ≡ none
      → create_incident_from_anomaly parse_uuid seen db later event grace resolver supply
        ≡ err Error.value_error
  unfolding create_incident_from_anomaly
  bad_create seen db later event supply p = rw (p, create_incident_from_anomaly) refl

  abbrev turn :
      List (Db × Db × Supply × Raw)
      → World Raw validate parse_uuid grace resolver
      → Outcome (Status × World Raw validate parse_uuid grace resolver)
      → Bool × World Raw validate parse_uuid grace resolver
  turn rest w o =
      let (going, w') = commit_offset Raw validate parse_uuid grace resolver w o in
      let last = run_forever Raw validate parse_uuid grace resolver rest w' in
      if going then last else (false, w')

  run_forever-turn :
      (seen later : Db) (supply : Supply) (raw : Raw) (rest : List (Db × Db × Supply × Raw))
      (w : World Raw validate parse_uuid grace resolver)
      → run_forever Raw validate parse_uuid grace resolver ((seen, later, supply, raw) ∷ rest) w
        ≡ turn rest w
            (handle_message Raw validate parse_uuid grace resolver seen later supply raw w)
  unfolding run_forever
  run_forever-turn seen later supply raw rest w = refl

  finish-created :
      (w w' : World Raw validate parse_uuid grace resolver) (o : Outcome (IncidentResult × Db))
      → finish Raw validate parse_uuid grace resolver w o ≡ ok (Status.handled Reason.created, w')
      → (r : IncidentResult) × (d : Db) × (o ≡ ok (r, d))
        × (r.reason ≡ Reason.created)
        × ((if r.created then d else w.db) ≡ w'.db)
  finish-created w w' (err e) h = absurd (err_ok h)
  finish-created w w' (ok (r, d)) h = (r, d, refl, ground arith, ground arith)

  seen_of_created :
      (db d db' : Db) (event : AnomalyEvent) (source : Uuid) (supply : Supply) (r : IncidentResult)
      → Ingested db event source grace resolver supply r d
      → r.reason ≡ Reason.created
      → (if r.created then d else db) ≡ db'
      → event_seen source db'.events ≡ true
  seen_of_created db d db' event source supply r (refused_event n why e) q h = absurd (why q)
  seen_of_created db d db' event source supply r (inserted e rows) q h =
      let made_it : r.created ≡ true = rw e in
      let same : d ≡ db' = rw made_it at h in
      rw (← same, rows.rows) (with_rows-seen db event source grace resolver supply)

  -- A record that is valid but whose event id is no UUID: the loop ends there with the exception,
  -- none of the records behind it is handled, and the database, the dead letters and the offset
  -- are as before.
  pub bad_id_blocks :
      (seen later : Db) (supply : Supply) (raw : Raw)
      (w : World Raw validate parse_uuid grace resolver) (event : AnomalyEvent)
      (rest : List (Db × Db × Supply × Raw))
      → validate raw ≡ some event
      → parse_uuid event.event_id ≡ none
      → run_forever Raw validate parse_uuid grace resolver ((seen, later, supply, raw) ∷ rest) w
        ≡ (false, w)
  bad_id_blocks seen later supply raw w event rest v p =
      run_forever-turn seen later supply raw rest w
      ∙ ap (turn rest w) (
          handle_valid seen later supply raw w event v
          ∙ ap (finish Raw validate parse_uuid grace resolver w)
              (bad_create seen w.db later event supply p))

  -- A valid record of a new event whose key an open incident has at the flush but not any more at the
  -- check after the rollback, since the incident was answered in between: the loop ends there with the
  -- IntegrityError, none of the records behind it is handled, and the database, the dead letters and
  -- the offset are as before.
  pub answered_since_blocks :
      (seen later : Db) (supply : Supply) (raw : Raw)
      (w : World Raw validate parse_uuid grace resolver) (event : AnomalyEvent) (source : Uuid)
      (rest : List (Db × Db × Supply × Raw))
      → validate raw ≡ some event
      → parse_uuid event.event_id ≡ some source
      → event_seen source seen.events ≡ false
      → open_with_key event.dedup_key seen.incidents ≡ false
      → open_with_key event.dedup_key w.db.incidents ≡ true
      → event_seen source later.events ≡ false
      → open_with_key event.dedup_key later.incidents ≡ false
      → run_forever Raw validate parse_uuid grace resolver ((seen, later, supply, raw) ∷ rest) w
        ≡ (false, w)
  answered_since_blocks seen later supply raw w event source rest v p es os o e k =
      run_forever-turn seen later supply raw rest w
      ∙ ap (turn rest w) (
          handle_valid seen later supply raw w event v
          ∙ ap (finish Raw validate parse_uuid grace resolver w) (
              answered_since parse_uuid seen w.db later event source p grace resolver supply es os o
                e k))

  -- After a record that made an incident, the same record again, as Kafka delivers it when the
  -- offset was not committed, whatever its pre-checks see: no dead letter, no announcement and no
  -- change of the database, as long as the audit row of the event is still there at the check after a
  -- rollback.
  pub redelivery_changes_nothing :
      (seen later seen₂ later₂ : Db) (supply supply₂ : Supply) (raw : Raw)
      (w w' : World Raw validate parse_uuid grace resolver) (event : AnomalyEvent) (source : Uuid)
      → validate raw ≡ some event
      → parse_uuid event.event_id ≡ some source
      → handle_message Raw validate parse_uuid grace resolver seen later supply raw w
        ≡ ok (Status.handled Reason.created, w')
      → (event_seen source w'.db.events ≡ true → event_seen source later₂.events ≡ true)
      → (handle_message Raw validate parse_uuid grace resolver seen₂ later₂ supply₂ raw w'
          ≡ ok (Status.handled Reason.duplicate_event_id, w'))
        ⊎ (handle_message Raw validate parse_uuid grace resolver seen₂ later₂ supply₂ raw w'
            ≡ ok (Status.handled Reason.duplicate_open_dedup, w'))
  redelivery_changes_nothing seen later seen₂ later₂ supply supply₂ raw w w' event source v p h
        kept =
      let (r, d, e, reason, same_db) =
        finish-created w w' _ (sym (handle_valid seen later supply raw w event v) ∙ h) in
      let cases =
        create_with_source-Ingested w.db later event source grace resolver supply r d seen
          (sym (create-eq parse_uuid seen w.db later event source p grace resolver supply) ∙ e) in
      let dup = seen_of_created w.db d w'.db event source supply r cases reason same_db in
      elim (duplicate_still_refused parse_uuid seen₂ w'.db later₂ event source p grace resolver
        supply₂ (inl dup) (inl (kept dup))) [
          | inl f ↦ inl (
              handle_valid seen₂ later₂ supply₂ raw w' event v
              ∙ ap (finish Raw validate parse_uuid grace resolver w') f)
          | inr f ↦ inr (
              handle_valid seen₂ later₂ supply₂ raw w' event v
              ∙ ap (finish Raw validate parse_uuid grace resolver w') f)
        ]
