-- ===== src/System/Alarms.antt =====
-- One track's alarms, from the camera to the database: the anomaly that edge/vision/engine.py builds
-- and the incident that cloud/ingest_worker/service.py makes of it.
use factory_monitor.Base.{
  ℕ, ◌/◌, ◌≡◌, refl, sym, ap, ◌∙◌, ◌⊎◌, inr, true, Option, some, String, eq_iff,
}
use factory_monitor.Base.Outcome.{ok}
use factory_monitor.Store.Incident.{Uuid, Time, seconds}
use factory_monitor.Store.Db.{Db, open_with_key}
use factory_monitor.Ingest.Anomaly.{AnomalyEvent}
use factory_monitor.Ingest.Service.{
  OnCallResolver, Supply, IncidentResult, Reason, refused, new_incident,
  create_incident_from_anomaly,
}
use factory_monitor.Ingest.Rows.{with_rows}
use factory_monitor.Ingest.Cases.{Ingested, refused_event, inserted, create_with_source-Ingested}
use factory_monitor.Ingest.Once.{create-eq, duplicate_still_refused}
use factory_monitor.Edge.Detector.{Detection}
use factory_monitor.Edge.Zones.{CameraConfig}
use factory_monitor.Edge.Anomalies.{build_anomaly_event, dedup_key_of}

with_rows-open :
    (db : Db) (event : AnomalyEvent) (source : Uuid) (grace : ℕ) (resolver : Option OnCallResolver)
    (supply : Supply)
    → open_with_key event.dedup_key (with_rows db event source grace resolver supply).incidents
      ≡ true
unfolding open_with_key new_incident
with_rows-open db event source grace resolver supply =
    rw ((eq_iff event.dedup_key event.dedup_key).1 refl) refl

same_bucket_key :
    (camera_id track_id : String) (now now₂ : Time)
    → now / seconds 30 ≡ now₂ / seconds 30
    → dedup_key_of camera_id track_id now ≡ dedup_key_of camera_id track_id now₂
unfolding dedup_key_of
same_bucket_key camera_id track_id now now₂ e = rw e refl

module _ (parse_uuid : String → Option Uuid) (grace : ℕ) (resolver : Option OnCallResolver)
    (cfg : CameraConfig) (track_id : String) where
  -- Two anomalies that the engine builds for one track of a camera whose clock readings fall into the
  -- same aligned half minute, in whatever zones and of whatever detections. When the first has made an
  -- incident, and one with its key is still open at the flush of the second and at its check after the
  -- rollback, the second is refused as a duplicate and changes
  -- nothing.
  pub one_alarm_a_bucket :
      (zone_id zone_id₂ event_id event_id₂ : String) (det det₂ : Detection) (now now₂ : Time)
      (source source₂ : Uuid) (seen db later db' seen₂ db₂ later₂ : Db) (supply supply₂ : Supply)
      (r : IncidentResult)
      → now / seconds 30 ≡ now₂ / seconds 30
      → parse_uuid event_id ≡ some source
      → parse_uuid event_id₂ ≡ some source₂
      → create_incident_from_anomaly parse_uuid seen db later
          (build_anomaly_event cfg zone_id det track_id now event_id)
          grace
          resolver
          supply
        ≡ ok (r, db')
      → r.created ≡ true
      → (open_with_key (dedup_key_of cfg.camera_id track_id now) db'.incidents ≡ true
          → open_with_key (dedup_key_of cfg.camera_id track_id now) db₂.incidents ≡ true)
      → (open_with_key (dedup_key_of cfg.camera_id track_id now) db₂.incidents ≡ true
          → open_with_key (dedup_key_of cfg.camera_id track_id now) later₂.incidents ≡ true)
      → (create_incident_from_anomaly parse_uuid seen₂ db₂ later₂
            (build_anomaly_event cfg zone_id₂ det₂ track_id now₂ event_id₂)
            grace
            resolver
            supply₂
          ≡ ok (refused Reason.duplicate_event_id, db₂))
        ⊎ (create_incident_from_anomaly parse_uuid seen₂ db₂ later₂
              (build_anomaly_event cfg zone_id₂ det₂ track_id now₂ event_id₂)
              grace
              resolver
              supply₂
            ≡ ok (refused Reason.duplicate_open_dedup, db₂))
  unfolding build_anomaly_event
  one_alarm_a_bucket zone_id zone_id₂ event_id event_id₂ det det₂ now now₂ source source₂ seen db
        later db' seen₂ db₂ later₂ supply supply₂ r bucket parsed parsed₂ h made_it open₂ still₂ =
      let here = opened_by (
        create_with_source-Ingested db later first source grace resolver supply r db' seen (
          sym (create-eq parse_uuid seen db later first source parsed grace resolver supply)
          ∙ h)) in
      duplicate_still_refused parse_uuid seen₂ db₂ later₂ _ source₂ parsed₂ grace resolver supply₂
        (inr (same_open db₂ (open₂ here))) (inr (same_open later₂ (still₂ (open₂ here))))
    where
      first : AnomalyEvent
      first = build_anomaly_event cfg zone_id det track_id now event_id

      same_open :
          (d : Db)
          → open_with_key (dedup_key_of cfg.camera_id track_id now) d.incidents ≡ true
          → open_with_key (dedup_key_of cfg.camera_id track_id now₂) d.incidents ≡ true
      same_open d o =
          ap (λ k. open_with_key k d.incidents)
            (sym (same_bucket_key cfg.camera_id track_id now now₂ bucket))
          ∙ o

      opened_by :
          Ingested db first source grace resolver supply r db'
          → open_with_key first.dedup_key db'.incidents ≡ true
      opened_by (refused_event no_row why e) = cc
      opened_by (inserted e rows) =
          rw rows.rows (with_rows-open db first source grace resolver supply)
