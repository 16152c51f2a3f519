-- ===== src/Live/View.antt =====
-- cloud/common/ws/contract.py and incident_view.py: the projection of an incident that the browser
-- renders. Times are kept as they are; Pydantic prints them.
use factory_monitor.Base.{ℕ, String, Option, none, some, str_eq, ◌==◌, if◌then◌else◌}
use factory_monitor.Store.Incident.{Uuid, Time, IncidentStatus, AnomalyType, Incident}

pub data WsType : Type 0 where
  snapshot heatmap_tick incident_created incident_updated : WsType
  incident_tier_advanced incident_resolved timer_snapshot system_heartbeat : WsType

pub record IncidentView : Type 0 where
  pub incident_id : Uuid
  pub camera_id : String
  pub zone_id : Option String
  pub rule_id : String
  pub anomaly_type : AnomalyType
  pub severity : String
  pub object_class : Option String
  pub status : IncidentStatus
  pub current_tier : ℕ
  pub deadline_at : Option Time
  pub opened_at : Time
  pub snapshot_url : Option String
  pub tier_label : String

-- `_TIER_LABELS.get(current_tier, "Operator")`
unfoldable pub tier_labels : ℕ → String
tier_labels t =
    if t == 1
    then "Floor Manager"
    else if t == 2
    then "Plant Director"
    else if t == 3
    then "CRITICAL"
    else "Operator"

unfoldable pub tier_label_for : IncidentStatus → ℕ → String
unfolding tier_labels
tier_label_for IncidentStatus.critical_unresolved t = "CRITICAL"
tier_label_for _ t = tier_labels t

-- `_empty_str_to_none`
unfoldable pub empty_str_to_none : Option String → Option String
empty_str_to_none none = none
empty_str_to_none (some s) = if str_eq s "" then none else some s

unfoldable pub build_incident_view : Incident → IncidentView
unfolding tier_label_for empty_str_to_none
build_incident_view inc = record {
  incident_id = inc.id;
  camera_id = inc.camera_id;
  zone_id = inc.zone_id;
  rule_id = inc.rule_id;
  anomaly_type = inc.anomaly_type;
  severity = inc.severity;
  object_class = inc.object_class;
  status = inc.status;
  current_tier = inc.current_tier;
  deadline_at = inc.deadline_at;
  opened_at = inc.created_at;
  snapshot_url = empty_str_to_none inc.snapshot_url;
  tier_label = tier_label_for inc.status inc.current_tier;
}
