-- ===== src/Store/Incident.antt =====
-- cloud/common/db/models.py: `IncidentStatus`, the anomaly types and the `incidents` table.
-- A UUID is its 128-bit number, which orders as Postgres orders UUIDs; a timestamp is a number of
-- microseconds, the resolution of Postgres and of Python's `datetime`.
use factory_monitor.Base.{ℕ, ◌*◌, String, Bool, true, false, Option, none, some, leb, ltb}

abbrev pub Uuid : Type 0
Uuid = ℕ

abbrev pub Time : Type 0
Time = ℕ

-- `timedelta(seconds=n)` and `make_interval(secs => n)`.
abbrev pub seconds : ℕ → Time
seconds n = n * 1000000

pub data IncidentStatus : Type 0 where
  awaiting_operator tier1 tier2 ack resolved critical_unresolved : IncidentStatus

pub data AnomalyType : Type 0 where
  ppe_no_hardhat ppe_no_vest zone_intrusion loitering : AnomalyType
  forklift_in_pedestrian_zone duty_zone_absence density_threshold : AnomalyType

abbrev pub anomaly_eq : AnomalyType → AnomalyType → Bool
anomaly_eq AnomalyType.ppe_no_hardhat AnomalyType.ppe_no_hardhat = true
anomaly_eq AnomalyType.ppe_no_vest AnomalyType.ppe_no_vest = true
anomaly_eq AnomalyType.zone_intrusion AnomalyType.zone_intrusion = true
anomaly_eq AnomalyType.loitering AnomalyType.loitering = true
anomaly_eq AnomalyType.forklift_in_pedestrian_zone AnomalyType.forklift_in_pedestrian_zone = true
anomaly_eq AnomalyType.duty_zone_absence AnomalyType.duty_zone_absence = true
anomaly_eq AnomalyType.density_threshold AnomalyType.density_threshold = true
anomaly_eq _ _ = false

pub record Incident : Type 0 where
  pub id : Uuid
  pub site_id : String
  pub camera_id : String
  pub zone_id : Option String
  pub anomaly_type : AnomalyType
  pub rule_id : String
  pub object_class : Option String
  pub track_id : Option String
  pub severity : String
  pub dedup_key : String
  pub status : IncidentStatus
  pub current_tier : ℕ
  pub next_fire_at : Option Time
  pub deadline_at : Option Time
  pub claimed_by : Option String
  pub claimed_until : Option Time
  pub snapshot_url : Option String
  pub acked_by : Option Uuid
  pub acked_at : Option Time
  pub resolved_by : Option Uuid
  pub resolved_at : Option Time
  pub resolution_note : Option String
  pub is_synthetic : Bool
  pub created_at : Time
  pub updated_at : Time

-- `status IN ('AWAITING_OPERATOR','TIER1','TIER2')`: the condition of the partial indexes, and the
-- sets that the workers call `_ACTIVE_STATUSES`, `_OPEN_STATUSES` and `_ACKABLE_FROM`.
abbrev pub is_open : IncidentStatus → Bool
is_open IncidentStatus.awaiting_operator = true
is_open IncidentStatus.tier1 = true
is_open IncidentStatus.tier2 = true
is_open _ = false

-- The comparisons of SQL with a column that may be NULL: not true on NULL.
abbrev pub before_or_at : Option Time → Time → Bool
before_or_at none t = false
before_or_at (some a) t = leb a t

abbrev pub before : Option Time → Time → Bool
before none t = false
before (some a) t = ltb a t

-- The text of an optional column equals a given text.
abbrev pub is_null {ℓ} : {A : Type ℓ} → Option A → Bool
is_null none = true
is_null (some a) = false
