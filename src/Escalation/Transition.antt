-- ===== src/Escalation/Transition.antt =====
-- cloud/escalation_worker/transition.py: one tier advancement inside the caller's transaction.
pub mod Cases
use factory_monitor.Base.{
  ℕ, ◌+◌, String, Bool, true, false, Option, none, some, ◌∷◌, ◌==◌, if◌then◌else◌,
}
use mathlib.Core.Option
use factory_monitor.Base.Outcome.{Outcome, ok, ◌>>=◌}
use factory_monitor.Store.Incident.{Uuid, Time, seconds, IncidentStatus, Incident}
use factory_monitor.Store.Rows.{
  EscalationRole, EventType, Payload, IncidentEvent, EscalationTier, Outbox, OutboxStatus,
  MsgChannel, NotificationKind, User,
}
use factory_monitor.Store.Db.{Db, Roster, Clocks, update, fired, insert_event, insert_outbox}
use factory_monitor.Escalation.Config.{fetch_tier_config, resolve}

pub record TransitionResult : Type 0 where
  pub fired : Bool
  pub skipped_idempotent : Bool
  pub new_status : Option IncidentStatus

-- A value of `_TRANSITION_TABLE`.
pub record Transition : Type 0 where
  pub next_status : IncidentStatus
  pub next_tier : ℕ
  pub event_type : EventType
  pub next_role : Option EscalationRole

abbrev pub to_tier1 : Transition
to_tier1 = record {
  next_status = IncidentStatus.tier1;
  next_tier = 1;
  event_type = EventType.tier1_fired;
  next_role = some EscalationRole.floor_manager;
}

abbrev pub to_tier2 : Transition
to_tier2 = record {
  next_status = IncidentStatus.tier2;
  next_tier = 2;
  event_type = EventType.tier2_fired;
  next_role = some EscalationRole.plant_director;
}

abbrev pub to_critical : Transition
to_critical = record {
  next_status = IncidentStatus.critical_unresolved;
  next_tier = 3;
  event_type = EventType.critical;
  next_role = none;
}

-- `_TRANSITION_TABLE.get((status, current_tier))`
unfoldable pub transition_table : IncidentStatus → ℕ → Option Transition
transition_table IncidentStatus.awaiting_operator t = if t == 0 then some to_tier1 else none
transition_table IncidentStatus.tier1 t = if t == 1 then some to_tier2 else none
transition_table IncidentStatus.tier2 t = if t == 2 then some to_critical else none
transition_table _ t = none

-- `_idempotency_insert`: True iff the row was inserted.
unfoldable pub idempotency_insert : Uuid → ℕ → Time → Db → Bool × Db
idempotency_insert i t at db = if fired i t db.idempotency then (false, db) else (
  true,
  record db { idempotency = record { incident_id = i; tier = t; fired_at = at } ∷ db.idempotency },
)

-- The configuration is read unless the next status is terminal.
unfoldable pub next_config : Roster → Incident → Transition → Option EscalationTier
next_config roster inc move = elim move.next_status [
  | IncidentStatus.critical_unresolved ↦ none
  | _ ↦ fetch_tier_config roster.tiers inc.site_id inc.anomaly_type move.next_tier
]

-- `now + timedelta(seconds=tier_cfg.delay_seconds)`, or NULL without a configuration.
abbrev pub fire_time : Time → Option EscalationTier → Option Time
fire_time now none = none
fire_time now (some cfg) = some (now + seconds cfg.delay_seconds)

abbrev pub on_duty : Roster → Incident → Time → Option EscalationRole → Option User
on_duty roster inc now none = none
on_duty roster inc now (some role) = resolve roster role inc.site_id inc.zone_id now

-- The phone of the next recipient.
unfoldable pub recipient_phone : Roster → Incident → Transition → Time → Option String
recipient_phone roster inc move now =
    Option.map (λ u. u.phone_e164) (on_duty roster inc now move.next_role)

-- The template is read only where there is a next role.
abbrev pub template_of : Option EscalationRole → Option EscalationTier → Option String
template_of none cfg = none
template_of (some role) none = none
template_of (some role) (some cfg) = some cfg.template_name

unfoldable pub outbox_template : Roster → Incident → Transition → Option String
outbox_template roster inc move = template_of move.next_role (next_config roster inc move)

unfoldable pub audit_event : Incident → Transition → Option String → IncidentEvent
audit_event inc move phone = record {
  incident_id = inc.id;
  type = move.event_type;
  from_state = some inc.status;
  to_state = some move.next_status;
  tier = some move.next_tier;
  source_event_id = none;
  payload = Payload.tier_change inc.current_tier move.next_tier phone;
}

-- The UPDATE statement on the incident's row.
unfoldable pub advance : Transition → Option Time → Time → Incident → Incident
advance move nfa at inc = record inc {
  status = move.next_status;
  current_tier = move.next_tier;
  next_fire_at = nfa;
  deadline_at = nfa;
  claimed_by = none;
  claimed_until = none;
  updated_at = at;
}

unfoldable pub outbox_row : Uuid → Uuid → ℕ → String → String → Time → Outbox
outbox_row new_id i t phone template_name at = record {
  id = new_id;
  incident_id = some i;
  tier = some t;
  to_phone_e164 = phone;
  channel = MsgChannel.console;
  kind = NotificationKind.template;
  template_name = some template_name;
  body = none;
  idempotency_key = record { incident = i; tier = t };
  status = OutboxStatus.pending;
  attempts = 0;
  max_attempts = 6;
  next_attempt_at = at;
  provider_sid = none;
  claimed_by = none;
  claimed_until = none;
  sent_at = none;
}

-- The outbox row is written only if there is both a phone and a template.
unfoldable pub enqueue : Uuid → Uuid → ℕ → Option String → Option String → Time → Db → Outcome Db
unfolding outbox_row insert_outbox
enqueue new_id i t none template at db = ok db
enqueue new_id i t (some phone) none at db = ok db
enqueue new_id i t (some phone) (some template) at db =
    insert_outbox (outbox_row new_id i t phone template at) db

abbrev pub nothing_to_do : TransitionResult
nothing_to_do = record { fired = false; skipped_idempotent = false; new_status = none }

abbrev pub skipped : TransitionResult
skipped = record { fired = false; skipped_idempotent = true; new_status = none }

abbrev pub fired_as : IncidentStatus → TransitionResult
fired_as s = record { fired = true; skipped_idempotent = false; new_status = some s }

-- Steps 2 to 6, behind the idempotency guard.
unfoldable pub side_effects : Db → Incident → Transition → Clocks → Uuid → Outcome Db
unfolding next_config recipient_phone outbox_template audit_event advance enqueue insert_event
side_effects db inc move clocks new_id =
    let phone = recipient_phone db.roster inc move clocks.now in
    let nfa = fire_time clocks.now (next_config db.roster inc move) in
    do
      db₁ ← insert_event (audit_event inc move phone) db
      let db₂ = record db₁ {
        incidents = update inc.id (advance move nfa clocks.db_now) db₁.incidents;
      }
      enqueue new_id inc.id move.next_tier phone (outbox_template db.roster inc move) clocks.db_now
          db₂

-- The guard on `(incident_id, next_tier)`, then the side effects.
unfoldable pub fire_row :
    Db → Incident → Transition → Clocks → Uuid → Outcome (TransitionResult × Db)
unfolding idempotency_insert side_effects
fire_row db inc move clocks new_id =
    let (inserted, db₁) = idempotency_insert inc.id move.next_tier clocks.db_now db in
    if inserted
    then (do db₂ ← side_effects db₁ inc move clocks new_id; ok (fired_as move.next_status, db₂))
    else ok (skipped, db)

unfoldable pub fire_transition : Db → Incident → Clocks → Uuid → Outcome (TransitionResult × Db)
unfolding transition_table fire_row
fire_transition db inc clocks new_id = elim (transition_table inc.status inc.current_tier) [
  | none ↦ ok (nothing_to_do, db)
  | some move ↦ fire_row db inc move clocks new_id
]
