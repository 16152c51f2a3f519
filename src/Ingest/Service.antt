-- ===== src/Ingest/Service.antt =====
-- cloud/ingest_worker/service.py: one incident, its CREATED audit row and its tier-0 outbox row in
-- one transaction. Between the pre-checks and the flushes other transactions may commit, so the
-- checks read one database, `seen`, the flushes another, and the handler of `IntegrityError`, which
-- checks again after its rollback, a third, `later`.
use factory_monitor.Base.{ℕ, ◌+◌, String, Bool, true, false, Option, none, some, if◌then◌else◌}
use mathlib.Core.Option
use factory_monitor.Base.Outcome.{Outcome, Error, ok, err, ◌>>=◌}
use factory_monitor.Store.Incident.{Uuid, Time, seconds, IncidentStatus, Incident}
use factory_monitor.Store.Rows.{
  EscalationRole, EventType, Payload, IncidentEvent, EscalationTier, User,
}
use factory_monitor.Store.Db.{
  Db, Roster, Clocks, open_with_key, event_seen, insert_incident, insert_event,
}
use factory_monitor.Escalation.Config.{fetch_tier_config}
use factory_monitor.Escalation.Transition.{enqueue}
use factory_monitor.Ingest.Anomaly.{AnomalyEvent, severity_value, class_value, source_value}

pub data Reason : Type 0 where
  created duplicate_event_id duplicate_open_dedup : Reason

pub record IncidentResult : Type 0 where
  pub incident_id : Option Uuid
  pub created : Bool
  pub reason : Reason

abbrev pub refused : Reason → IncidentResult
refused why = record { incident_id = none; created = false; reason = why }

abbrev pub made : Uuid → IncidentResult
made i = record { incident_id = some i; created = true; reason = Reason.created }

-- The optional argument `on_call_resolver`.
abbrev pub OnCallResolver : Type 0
OnCallResolver = Roster → EscalationRole → String → Option String → Time → Option User

-- What the environment supplies: the UUIDs that `uuid4` returns, and the clocks.
pub record Supply : Type 0 where
  pub incident_id : Uuid
  pub outbox_id : Uuid
  pub clocks : Clocks

-- The new row; `grace_seconds` sets its first timer.
unfoldable pub new_incident : Uuid → AnomalyEvent → ℕ → Clocks → Incident
new_incident i event grace clocks = record {
  id = i;
  site_id = event.site_id;
  camera_id = event.camera_id;
  zone_id = event.zone_id;
  anomaly_type = event.anomaly_type;
  rule_id = event.rule_id;
  object_class = some (class_value event.object_class);
  track_id = some event.track_id;
  severity = severity_value event.severity;
  dedup_key = event.dedup_key;
  status = IncidentStatus.awaiting_operator;
  current_tier = 0;
  next_fire_at = some (clocks.now + seconds grace);
  deadline_at = some (clocks.now + seconds grace);
  claimed_by = none;
  claimed_until = none;
  snapshot_url = some event.evidence.snapshot_url;
  acked_by = none;
  acked_at = none;
  resolved_by = none;
  resolved_at = none;
  resolution_note = none;
  is_synthetic = false;
  created_at = clocks.db_now;
  updated_at = clocks.db_now;
}

unfoldable pub created_event : Uuid → Uuid → AnomalyEvent → IncidentEvent
created_event i source event = record {
  incident_id = i;
  type = EventType.created;
  from_state = none;
  to_state = some IncidentStatus.awaiting_operator;
  tier = some 0;
  source_event_id = some source;
  payload =
      Payload.anomaly event.event_id event.anomaly_type event.rule_id event.confidence
        event.occurred_at (source_value event.source);
}

abbrev pub operator_phone : Roster → Option OnCallResolver → AnomalyEvent → Time → Option String
operator_phone roster none event now = none
operator_phone roster (some resolver) event now =
    Option.map (λ (u : User). u.phone_e164)
      (resolver roster EscalationRole.operator event.site_id event.zone_id now)

abbrev pub operator_template : Roster → AnomalyEvent → Option String
operator_template roster event =
    Option.map (λ (c : EscalationTier). c.template_name)
      (fetch_tier_config roster.tiers event.site_id event.anomaly_type 0)

-- The body of the `try`: three inserts, each of which may raise `IntegrityError`.
unfoldable pub insert_rows :
    Db → AnomalyEvent → Uuid → ℕ → Option OnCallResolver → Supply → Outcome Db
unfolding new_incident created_event insert_incident insert_event enqueue
insert_rows db event source grace resolver supply = do
  db₁ ← insert_incident (new_incident supply.incident_id event grace supply.clocks) db
  db₂ ← insert_event (created_event supply.incident_id source event) db₁
  enqueue supply.outbox_id supply.incident_id 0
      (operator_phone db.roster resolver event supply.clocks.now)
      (operator_template db.roster event) supply.clocks.db_now db₂

-- The handler: after the rollback the checks are made again, on the database of that time, and what
-- neither explains is raised.
unfoldable pub after_rollback :
    Db → Db → AnomalyEvent → Uuid → Error → Outcome (IncidentResult × Db)
after_rollback later db event source e =
    if event_seen source later.events
    then ok (refused Reason.duplicate_event_id, db)
    else if open_with_key event.dedup_key later.incidents
    then ok (refused Reason.duplicate_open_dedup, db)
    else err e

abbrev pub settle_insert :
    Db → Db → AnomalyEvent → Uuid → Uuid → Outcome Db → Outcome (IncidentResult × Db)
settle_insert later db event source i (ok db') = ok (made i, db')
settle_insert later db event source i (err e) = after_rollback later db event source e

-- After `uuid.UUID(str(event.event_id))`.
unfoldable pub create_with_source :
    Db
    → Db
    → Db
    → AnomalyEvent
    → Uuid
    → ℕ
    → Option OnCallResolver
    → Supply
    → Outcome (IncidentResult × Db)
unfolding insert_rows after_rollback
create_with_source seen db later event source grace resolver supply =
    if event_seen source seen.events
    then ok (refused Reason.duplicate_event_id, db)
    else if open_with_key event.dedup_key seen.incidents
    then ok (refused Reason.duplicate_open_dedup, db)
    else settle_insert later db event source supply.incident_id
        (insert_rows db event source grace resolver supply)

-- `parse_uuid` is the constructor `uuid.UUID`, which raises ValueError on a text that is no UUID.
unfoldable pub create_incident_from_anomaly :
    (parse_uuid : String → Option Uuid)
    → Db
    → Db
    → Db
    → AnomalyEvent
    → ℕ
    → Option OnCallResolver
    → Supply
    → Outcome (IncidentResult × Db)
unfolding create_with_source
create_incident_from_anomaly parse_uuid seen db later event grace resolver supply =
    elim (parse_uuid event.event_id) [
      | none ↦ err Error.value_error
      | some source ↦ create_with_source seen db later event source grace resolver supply
    ]
