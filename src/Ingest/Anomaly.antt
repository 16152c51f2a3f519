-- ===== src/Ingest/Anomaly.antt =====
-- cloud/common/schemas/anomaly.py: the event that the edge produces. Pydantic's validation of the
-- bytes is a parameter of the consumer; this is what it returns. `confidence` is the text of the
-- number, which the program only copies.
use factory_monitor.Base.{ℤ, String, Option, List}
use factory_monitor.Store.Incident.{Time, AnomalyType}

pub data Severity : Type 0 where
  low medium high critical : Severity

abbrev pub severity_value : Severity → String
severity_value Severity.low = "low"
severity_value Severity.medium = "medium"
severity_value Severity.high = "high"
severity_value Severity.critical = "critical"

pub data ObjectClass : Type 0 where
  person forklift : ObjectClass

abbrev pub class_value : ObjectClass → String
class_value ObjectClass.person = "person"
class_value ObjectClass.forklift = "forklift"

pub data Source : Type 0 where
  edge replay : Source

abbrev pub source_value : Source → String
source_value Source.edge = "edge"
source_value Source.replay = "replay"

pub record Evidence : Type 0 where
  pub bbox : List ℤ
  pub snapshot_url : String
  pub footage_source : String

pub record AnomalyEvent : Type 0 where
  pub schema_version : String
  pub event_id : String
  pub anomaly_type : AnomalyType
  pub rule_id : String
  pub occurred_at : Time
  pub site_id : String
  pub camera_id : String
  pub zone_id : Option String
  pub track_id : String
  pub object_class : ObjectClass
  pub severity : Severity
  pub confidence : String
  pub dedup_key : String
  pub evidence : Evidence
  pub source : Source
