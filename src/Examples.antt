-- ===== src/Examples.antt =====
-- A factory with two on-call users, one camera event and the databases that it runs through, for
-- the witnesses of the theorems.
pub mod Ingesting
pub mod Escalating
pub mod Delivering
pub mod Replying
pub mod Seeing
pub mod Watching
pub mod Relaying
pub mod Serving
use factory_monitor.Base.{
  ℕ, pos, ◌==◌, Bool, true, false, Option, none, some, List, [], ◌∷◌, String, str_eq, if◌then◌else◌,
}
use factory_monitor.Base.Outcome.{ok}
use factory_monitor.Store.Incident.{Uuid, Time, AnomalyType, Incident}
use factory_monitor.Store.Rows.{EscalationRole, EscalationTier, User, OnCallAssignment}
use factory_monitor.Store.Db.{Db, Roster, Clocks}
use factory_monitor.Escalation.Config.{resolve}
use factory_monitor.Escalation.Worker.{PollEnv}
use factory_monitor.Ingest.Anomaly.{AnomalyEvent, Severity, ObjectClass, Source}
use factory_monitor.Ingest.Service.{OnCallResolver, Supply}

abbrev pub asha : User
asha = record {
  id = 11;
  site_id = "hosur";
  full_name = "Asha";
  phone_e164 = "+911";
  is_active = true;
}

abbrev pub ravi : User
ravi = record {
  id = 12;
  site_id = "hosur";
  full_name = "Ravi";
  phone_e164 = "+912";
  is_active = true;
}

abbrev pub duty : EscalationRole → Option String → Uuid → Time → OnCallAssignment
duty role zone user start = record {
  site_id = "hosur";
  role = role;
  zone_id = zone;
  user_id = user;
  starts_at = start;
  ends_at = 1000000000000;
}

abbrev pub assignments : List OnCallAssignment
assignments =
    duty EscalationRole.operator none 11 0
    ∷ duty EscalationRole.operator (some "press") 12 0
    ∷ duty EscalationRole.floor_manager none 12 0
    ∷ duty EscalationRole.plant_director none 11 0
    ∷ []

abbrev pub tier_row : Option AnomalyType → ℕ → EscalationRole → ℕ → EscalationTier
tier_row anomaly n role delay = record {
  site_id = "hosur";
  anomaly_type = anomaly;
  tier = n;
  role = role;
  delay_seconds = delay;
  template_name = "alert";
}

abbrev pub tiers : List EscalationTier
tiers =
    tier_row none 0 EscalationRole.operator 60
    ∷ tier_row none 1 EscalationRole.floor_manager 120
    ∷ tier_row (some AnomalyType.loitering) 1 EscalationRole.floor_manager 30
    ∷ tier_row none 2 EscalationRole.plant_director 180
    ∷ []

abbrev pub roster : Roster
roster = record { users = asha ∷ ravi ∷ []; assignments = assignments; tiers = tiers }

-- The same factory without the rows of its tiers.
abbrev pub bare_roster : Roster
bare_roster = record { users = asha ∷ ravi ∷ []; assignments = assignments; tiers = [] }

abbrev pub event : AnomalyEvent
event = record {
  schema_version = "1.0";
  event_id = "7";
  anomaly_type = AnomalyType.zone_intrusion;
  rule_id = "r1";
  occurred_at = 900;
  site_id = "hosur";
  camera_id = "cam1";
  zone_id = some "press";
  track_id = "t1";
  object_class = ObjectClass.person;
  severity = Severity.high;
  confidence = "0.9";
  dedup_key = "cam1|press|t1";
  evidence = record {
    bbox = pos 1 ∷ pos 2 ∷ pos 3 ∷ pos 4 ∷ [];
    snapshot_url = "s3";
    footage_source = "f";
  };
  source = Source.edge;
}

abbrev pub clocks_at : Time → Clocks
clocks_at t = record { now = t; db_now = t }

abbrev pub supply : Supply
supply = record { incident_id = 100; outbox_id = 200; clocks = clocks_at 1000 }

abbrev pub later_supply : Supply
later_supply = record { incident_id = 101; outbox_id = 201; clocks = clocks_at 2000 }

-- The identifiers of these events are single digits.
abbrev pub parse_digit : String → Option Uuid
parse_digit s = if str_eq s "7" then some 7 else if str_eq s "8" then some 8 else none

abbrev pub poll_env : Uuid → Time → PollEnv
poll_env new t = record {
  clocks = λ i. clocks_at t;
  new_id = λ i. new;
  fault = λ i. false;
  releases = λ i. true;
}
