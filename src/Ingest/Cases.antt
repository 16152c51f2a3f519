-- ===== src/Ingest/Cases.antt =====
-- What a call of `create_incident_from_anomaly` can come to (cloud/ingest_worker/service.py).
use factory_monitor.Base.{
  ℕ, ◌≡◌, ◌≢◌, refl, sym, inl, inr, false, Option, String, arith, Bool-cases, Option-cases,
}
use factory_monitor.Base.Outcome.{Outcome, Error, ok, err, err_ok}
use factory_monitor.Store.Incident.{Uuid}
use factory_monitor.Store.Db.{Db, event_seen, open_with_key}
use factory_monitor.Ingest.Anomaly.{AnomalyEvent}
use factory_monitor.Ingest.Service.{
  OnCallResolver, Supply, IncidentResult, Reason, made, refused, insert_rows, create_with_source,
  create_incident_from_anomaly, after_rollback, settle_insert,
}
use factory_monitor.Ingest.Rows.{IsInserted, insert_rows-ok}

-- A call that returns has refused the event and left the database, or has inserted its rows.
pub data Ingested (db : Db) (event : AnomalyEvent) (source : Uuid) (grace : ℕ)
    (resolver : Option OnCallResolver) (supply : Supply) (r : IncidentResult) (db' : Db)
    : Type 0 where
  refused_event :
      r.created ≡ false
      → r.reason ≢ Reason.created
      → db ≡ db'
      → Ingested db event source grace resolver supply r db'
  inserted :
      r ≡ made supply.incident_id
      → IsInserted db event source grace resolver supply db'
      → Ingested db event source grace resolver supply r db'

module _ (db later : Db) (event : AnomalyEvent) (source : Uuid) (grace : ℕ)
    (resolver : Option OnCallResolver) (supply : Supply) (r : IncidentResult) (db' : Db) where
  after_rollback-cases :
      (e : Error)
      → after_rollback later db event source e ≡ ok (r, db')
      → (r.created ≡ false) × (r.reason ≢ Reason.created) × (db ≡ db')
  unfolding after_rollback
  after_rollback-cases e h = ground arith

  settle-Ingested :
      (o : Outcome Db)
      → insert_rows db event source grace resolver supply ≡ o
      → settle_insert later db event source supply.incident_id o ≡ ok (r, db')
      → Ingested db event source grace resolver supply r db'
  settle-Ingested (err e) q h =
      let both = after_rollback-cases e h in refused_event both.0 both.1 both.2
  settle-Ingested (ok d) q h =
      let both = both_of (made supply.incident_id) r d db' h in
      inserted (sym both.0)
        (insert_rows-ok db event source grace resolver supply db' (rw (← both.1) q))
    where
      both_of :
          (a b : IncidentResult) (d e : Db)
          → ◌≡◌ {A = Outcome (IncidentResult × Db)} (ok (a, d)) (ok (b, e))
          → (a ≡ b) × (d ≡ e)
      both_of a b d e h = ground arith

  pub create_with_source-Ingested :
      (seen : Db)
      → create_with_source seen db later event source grace resolver supply ≡ ok (r, db')
      → Ingested db event source grace resolver supply r db'
  unfolding create_with_source
  create_with_source-Ingested seen h = elim (Bool-cases (event_seen source seen.events)) [
    | inl e ↦
        let both = same_of Reason.duplicate_event_id (λ q. cc) (rw (e, create_with_source) at h) in
        refused_event both.0 both.1 both.2
    | inr e ↦ elim (Bool-cases (open_with_key event.dedup_key seen.incidents)) [
      | inl o ↦
          let both =
            same_of Reason.duplicate_open_dedup (λ q. cc) (rw (e, o, create_with_source) at h) in
          refused_event both.0 both.1 both.2
      | inr o ↦ settle-Ingested _ refl (rw (e, o, create_with_source) at h)
    ]
  ]
    where
      same_of :
          (why : Reason)
          → why ≢ Reason.created
          → ◌≡◌ {A = Outcome (IncidentResult × Db)} (ok (refused why, db)) (ok (r, db'))
          → (r.created ≡ false) × (r.reason ≢ Reason.created) × (db ≡ db')
      same_of why n h = ground arith

-- A call that returns was given an event whose id is a UUID.
pub create-Ingested :
    (parse_uuid : String → Option Uuid) (seen db later db' : Db) (event : AnomalyEvent) (grace : ℕ)
    (resolver : Option OnCallResolver) (supply : Supply) (r : IncidentResult)
    → create_incident_from_anomaly parse_uuid seen db later event grace resolver supply
      ≡ ok (r, db')
    → (source : Uuid) × Ingested db event source grace resolver supply r db'
unfolding create_incident_from_anomaly
create-Ingested parse_uuid seen db later db' event grace resolver supply r h =
    elim (Option-cases (parse_uuid event.event_id)) [
      | inl none_parsed ↦ absurd (err_ok (rw (none_parsed, create_incident_from_anomaly) at h))
      | inr (source, parsed) ↦ (
        source,
        create_with_source-Ingested db later event source grace resolver supply r db' seen
            (rw (parsed, create_incident_from_anomaly) at h),
      )
    ]
