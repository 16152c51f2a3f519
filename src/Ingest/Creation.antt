-- ===== src/Ingest/Creation.antt =====
-- What one new event writes (`create_incident_from_anomaly` of cloud/ingest_worker/service.py), column
-- by column.
use mathlib.Core.Option
use factory_monitor.Base.{ℕ, ◌+◌, ◌≡◌, refl, false, Option, none, some, List, ◌∷◌, String}
use factory_monitor.Base.Outcome.{ok}
use factory_monitor.Store.Incident.{Uuid, Time, seconds, IncidentStatus, Incident}
use factory_monitor.Store.Rows.{
  EscalationRole, EscalationTier, EventType, IncidentEvent, Outbox, OutboxStatus, User,
}
use factory_monitor.Store.Db.{Db, Roster, find, event_seen, open_with_key}
use factory_monitor.Escalation.Config.{fetch_tier_config}
use factory_monitor.Escalation.Transition.{outbox_row}
use factory_monitor.Escalation.Transition.Cases.{IsFree, sent_rows}
use factory_monitor.Ingest.Anomaly.{AnomalyEvent, severity_value, class_value}
use factory_monitor.Ingest.Service.{
  OnCallResolver, Supply, made, create_incident_from_anomaly, new_incident, created_event,
  operator_phone, operator_template,
}
use factory_monitor.Ingest.Rows.{with_rows, fresh}
use factory_monitor.Ingest.Once.{fresh_rows}

-- The incident is the event's, waits for its operator at tier 0 and has its timer after the grace.
pub record IsIncidentOf (event : AnomalyEvent) (i : Uuid) (due : Time) (x : Incident) : Type 0 where
  pub id_is : x.id ≡ i
  pub site_is : x.site_id ≡ event.site_id
  pub camera_is : x.camera_id ≡ event.camera_id
  pub zone_is : x.zone_id ≡ event.zone_id
  pub type_is : x.anomaly_type ≡ event.anomaly_type
  pub rule_is : x.rule_id ≡ event.rule_id
  pub class_is : x.object_class ≡ some (class_value event.object_class)
  pub track_is : x.track_id ≡ some event.track_id
  pub severity_is : x.severity ≡ severity_value event.severity
  pub key_is : x.dedup_key ≡ event.dedup_key
  pub snapshot_is : x.snapshot_url ≡ some event.evidence.snapshot_url
  pub waits : x.status ≡ IncidentStatus.awaiting_operator
  pub at_start : x.current_tier ≡ 0
  pub timer_is : x.next_fire_at ≡ some due
  pub deadline_is : x.deadline_at ≡ some due
  pub unclaimed : x.claimed_until ≡ none
  pub is_real : x.is_synthetic ≡ false

pub record IsCreation (i source : Uuid) (e : IncidentEvent) : Type 0 where
  pub about : e.incident_id ≡ i
  pub type_is : e.type ≡ EventType.created
  pub from_nothing : e.from_state ≡ none
  pub to_waiting : e.to_state ≡ some IncidentStatus.awaiting_operator
  pub source_is : e.source_event_id ≡ some source

pub record IsMessageTo (phone template : String) (i : Uuid) (o : Outbox) : Type 0 where
  pub about : o.incident_id ≡ some i
  pub to_is : o.to_phone_e164 ≡ phone
  pub template_is : o.template_name ≡ some template
  pub key_is : o.idempotency_key ≡ record { incident = i; tier = 0 }
  pub status_is : o.status ≡ OutboxStatus.pending
  pub is_fresh : o.attempts ≡ 0

-- Whom the resolver, if there is one, finds as the operator of the event's zone.
abbrev pub operator_of : Option OnCallResolver → Roster → AnomalyEvent → Time → Option User
operator_of none roster event now = none
operator_of (some resolver) roster event now =
    resolver roster EscalationRole.operator event.site_id event.zone_id now

-- A message to the operator if one is found and tier 0 has a configuration, and else no message.
abbrev pub IsEnqueued :
    Option User → Option EscalationTier → Uuid → List Outbox → List Outbox → Type 0
IsEnqueued (some u) (some cfg) i rows rows' =
    (o : Outbox) × (rows' ≡ o ∷ rows) × IsMessageTo u.phone_e164 cfg.template_name i o
IsEnqueued _ _ i rows rows' = rows' ≡ rows

module _ (parse_uuid : String → Option Uuid) (seen db later : Db) (event : AnomalyEvent)
    (source : Uuid) (parsed : parse_uuid event.event_id ≡ some source) (grace : ℕ)
    (resolver : Option OnCallResolver) (supply : Supply) where
  sent-IsEnqueued :
      (resolver₁ : Option OnCallResolver)
      → IsEnqueued
          (operator_of resolver₁ db.roster event supply.clocks.now)
          (fetch_tier_config db.roster.tiers event.site_id event.anomaly_type 0)
          supply.incident_id
          db.outbox
          (sent_rows supply.outbox_id supply.incident_id 0
            (operator_phone db.roster resolver₁ event supply.clocks.now)
            (operator_template db.roster event)
            supply.clocks.db_now
            db.outbox)
  unfolding outbox_row
  sent-IsEnqueued none = refl
  sent-IsEnqueued (some f) =
      by_rows (f db.roster EscalationRole.operator event.site_id event.zone_id supply.clocks.now)
        (fetch_tier_config db.roster.tiers event.site_id event.anomaly_type 0)
    where
      by_rows :
          (u : Option User) (cfg : Option EscalationTier)
          → IsEnqueued u cfg supply.incident_id db.outbox (
              sent_rows supply.outbox_id supply.incident_id 0
                (Option.map (λ (v : User). v.phone_e164) u)
                (Option.map (λ (c : EscalationTier). c.template_name) cfg)
                supply.clocks.db_now
                db.outbox)
      by_rows none cfg = refl
      by_rows (some u) none = refl
      by_rows (some u) (some cfg) = (
        _,
        refl,
        record {
          about = refl;
          to_is = refl;
          template_is = refl;
          key_is = refl;
          status_is = refl;
          is_fresh = refl;
        },
      )

  new-IsIncidentOf :
      IsIncidentOf event supply.incident_id
        (supply.clocks.now + seconds grace)
        (fresh db event source grace resolver supply)
  unfolding new_incident
  new-IsIncidentOf = record {
    id_is = refl;
    site_is = refl;
    camera_is = refl;
    zone_is = refl;
    type_is = refl;
    rule_is = refl;
    class_is = refl;
    track_is = refl;
    severity_is = refl;
    key_is = refl;
    snapshot_is = refl;
    waits = refl;
    at_start = refl;
    timer_is = refl;
    deadline_is = refl;
    unclaimed = refl;
    is_real = refl;
  }

  -- For an event whose id is a UUID, new to the database of the pre-checks and to that of the flush,
  -- with a free incident id and a free outbox row: the call makes one incident with the event's columns,
  -- open at tier 0 with its timer after the grace, and its CREATED audit row; and it enqueues one message
  -- to the operator whom the resolver finds, with the template of tier 0, or none where there is no
  -- resolver, no operator or no configuration.
  pub fresh_created :
      event_seen source seen.events ≡ false
      → open_with_key event.dedup_key seen.incidents ≡ false
      → event_seen source db.events ≡ false
      → open_with_key event.dedup_key db.incidents ≡ false
      → find supply.incident_id db.incidents ≡ none
      → IsFree supply.outbox_id supply.incident_id 0 db.outbox
      → (x : Incident) × (e : IncidentEvent) × (db' : Db) × (create_incident_from_anomaly parse_uuid
            seen db later event grace resolver supply
          ≡ ok (made supply.incident_id, db'))
        × (db'.incidents ≡ x ∷ db.incidents)
        × IsIncidentOf event supply.incident_id (supply.clocks.now + seconds grace) x
        × (db'.events ≡ e ∷ db.events)
        × IsCreation supply.incident_id source e
        × IsEnqueued
            (operator_of resolver db.roster event supply.clocks.now)
            (fetch_tier_config db.roster.tiers event.site_id event.anomaly_type 0)
            supply.incident_id
            db.outbox
            db'.outbox
  unfolding created_event
  fresh_created es os e o i free = (
    fresh db event source grace resolver supply,
    created_event supply.incident_id source event,
    with_rows db event source grace resolver supply,
    fresh_rows parse_uuid seen db later event source parsed grace resolver supply es os e o i free,
    refl,
    new-IsIncidentOf,
    refl,
    record {
      about = refl;
      type_is = refl;
      from_nothing = refl;
      to_waiting = refl;
      source_is = refl;
    },
    sent-IsEnqueued resolver,
  )
