-- ===== src/Escalation/Actions.antt =====
-- cloud/common/incident_actions.py: acknowledge and resolve, as the API routes and the tests call
-- them. The SELECT takes no lock: it reads the database `seen`, and the UPDATE of the loaded
-- row's id goes to the database `db` of the commit, which may be a later one. Of the columns that are
-- cleared the model writes each; SQLAlchemy leaves out one that was loaded as NULL, which an open row
-- without a timer never gets again, and `written` says so where it matters, for the note.
use factory_monitor.Base.{String, Bool, true, false, Option, none, some, str_eq, if◌then◌else◌}
use factory_monitor.Base.Outcome.{Outcome, Error, ok, err, ◌>>=◌}
use factory_monitor.Store.Incident.{Uuid, Time, IncidentStatus, Incident}
use factory_monitor.Store.Rows.{EventType, Payload, IncidentEvent}
use factory_monitor.Store.Db.{Db, find, update, insert_event}

-- `_ACKABLE_FROM`
unfoldable pub is_ackable : IncidentStatus → Bool
is_ackable IncidentStatus.awaiting_operator = true
is_ackable IncidentStatus.tier1 = true
is_ackable IncidentStatus.tier2 = true
is_ackable _ = false

-- `_RESOLVABLE_FROM`
unfoldable pub is_resolvable : IncidentStatus → Bool
is_resolvable IncidentStatus.awaiting_operator = true
is_resolvable IncidentStatus.tier1 = true
is_resolvable IncidentStatus.tier2 = true
is_resolvable IncidentStatus.ack = true
is_resolvable _ = false

unfoldable pub acknowledged : Time → Incident → Incident
acknowledged now inc = record inc {
  status = IncidentStatus.ack;
  next_fire_at = none;
  deadline_at = none;
  acked_at = some now;
  updated_at = now;
}

-- `resolution_note or None`
abbrev pub or_none : String → Option String
or_none s = if str_eq s "" then none else some s

-- An UPDATE's column: one that was loaded as NULL and is set to NULL is left as it is.
abbrev pub written {ℓ} : {A : Type ℓ} → Option A → Option A → Option A → Option A
written none none row = row
written loaded new row = new

-- The UPDATE of a row, for the object that was loaded.
unfoldable pub resolved : Time → String → Incident → Incident → Incident
resolved now note loaded inc = record inc {
  status = IncidentStatus.resolved;
  next_fire_at = none;
  deadline_at = none;
  resolved_at = some now;
  resolution_note = written loaded.resolution_note (or_none note) inc.resolution_note;
  updated_at = now;
}

unfoldable pub action_event : EventType → IncidentStatus → Payload → Incident → IncidentEvent
action_event type to payload inc = record {
  incident_id = inc.id;
  type = type;
  from_state = some inc.status;
  to_state = some to;
  tier = some inc.current_tier;
  source_event_id = none;
  payload = payload;
}

abbrev pub is_acked : IncidentStatus → Bool
is_acked IncidentStatus.ack = true
is_acked _ = false

abbrev pub is_resolved : IncidentStatus → Bool
is_resolved IncidentStatus.resolved = true
is_resolved _ = false

-- The rest of `acknowledge_incident` on the row that was found: what the caller gets, and the
-- database at its commit.
unfoldable pub acknowledge_row : Db → Option String → Time → Incident → Outcome (Incident × Db)
unfolding is_ackable acknowledged action_event insert_event
acknowledge_row db key now inc =
    if is_acked inc.status
    then ok (inc, db)
    else if is_ackable inc.status
    then (do
      let event = action_event EventType.ack IncidentStatus.ack (Payload.acknowledged key) inc
      db₁ ← insert_event event db
      ok (
        acknowledged now inc,
        record db₁ { incidents = update inc.id (acknowledged now) db₁.incidents },
      ))
    else err Error.conflict

unfoldable pub acknowledge_incident :
    Db → Db → Uuid → Option String → Time → Outcome (Incident × Db)
unfolding acknowledge_row
acknowledge_incident seen db i key now = elim (find i seen.incidents) [
  | none ↦ err Error.not_found
  | some inc ↦ acknowledge_row db key now inc
]

unfoldable pub resolve_row : Db → String → Option String → Time → Incident → Outcome (Incident × Db)
unfolding is_resolvable resolved action_event insert_event
resolve_row db note key now inc =
    if is_resolved inc.status
    then ok (inc, db)
    else if is_resolvable inc.status
    then (do
      let event =
          action_event EventType.resolved IncidentStatus.resolved (Payload.resolution note key) inc
      db₁ ← insert_event event db
      ok (
        resolved now note inc inc,
        record db₁ { incidents = update inc.id (resolved now note inc) db₁.incidents },
      ))
    else err Error.conflict

unfoldable pub resolve_incident :
    Db → Db → Uuid → String → Option String → Time → Outcome (Incident × Db)
unfolding resolve_row
resolve_incident seen db i note key now = elim (find i seen.incidents) [
  | none ↦ err Error.not_found
  | some inc ↦ resolve_row db note key now inc
]
