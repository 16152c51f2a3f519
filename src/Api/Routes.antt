-- ===== src/Api/Routes.antt =====
-- cloud/api/routes.py with cloud/common/schemas/incident.py: the lists of the dashboard and the two
-- actions of an operator. The order of texts is a parameter.
use factory_monitor.Base.{ℕ, String, Bool, Option, none, some, List, [], ◌∷◌, map, if◌then◌else◌}
use factory_monitor.Base.Sorting.{sort_by}
use factory_monitor.Base.Outcome.{Outcome, ok, ◌>>=◌}
use factory_monitor.Store.Incident.{Uuid, Time, IncidentStatus, AnomalyType, Incident}
use factory_monitor.Store.Db.{Db}
use factory_monitor.Escalation.Actions.{acknowledge_incident, resolve_incident}
use factory_monitor.Live.View.{empty_str_to_none, tier_label_for}
use factory_monitor.Live.Publication.{Texts, Change, Field, JsonValue, incident_change}
use factory_monitor.Live.Socket.{newest_first}
use factory_monitor.Seeds.{Table, Camera, Zone}

pub record IncidentOut : Type 0 where
  pub id : Uuid
  pub camera_id : String
  pub zone_id : Option String
  pub anomaly_type : AnomalyType
  pub rule_id : String
  pub severity : String
  pub status : IncidentStatus
  pub current_tier : ℕ
  pub created_at : Time
  pub snapshot_url : Option String
  pub object_class : Option String
  pub deadline_at : Option Time
  pub tier_label : String

-- `IncidentOut.model_validate`
unfoldable pub incident_out : Incident → IncidentOut
unfolding empty_str_to_none tier_label_for
incident_out inc = record {
  id = inc.id;
  camera_id = inc.camera_id;
  zone_id = inc.zone_id;
  anomaly_type = inc.anomaly_type;
  rule_id = inc.rule_id;
  severity = inc.severity;
  status = inc.status;
  current_tier = inc.current_tier;
  created_at = inc.created_at;
  snapshot_url = empty_str_to_none inc.snapshot_url;
  object_class = inc.object_class;
  deadline_at = inc.deadline_at;
  tier_label = tier_label_for inc.status inc.current_tier;
}

unfoldable pub list_incidents : List Incident → List IncidentOut
unfolding newest_first incident_out
list_incidents rows = map incident_out (sort_by newest_first rows)

module _ (text_le : String → String → Bool) where
  unfoldable pub list_cameras : Table String Camera → List (String × Camera)
  list_cameras rows = sort_by (λ a b. text_le a.0 b.0) rows

  unfoldable pub list_zones : Table String Zone → List (String × Zone)
  list_zones rows = sort_by (λ a b. text_le a.0 b.0) rows

-- What `app.state.ws_redis` holds: nothing, something that can be called (whether the call returns),
-- or an object that cannot, such as the Redis client that the lifespan of cloud/api/main.py puts there.
pub data Publisher : Type 0 where
  absent uncallable : Publisher
  callable : (Change → Bool) → Publisher

-- `_publish_after`: the changes that were published. It never raises.
unfoldable pub publish_after : Publisher → Change → List Change
publish_after Publisher.absent change = []
publish_after Publisher.uncallable change = []
publish_after (Publisher.callable publish) change = if publish change then change ∷ [] else []

pub record ActionOut : Type 0 where
  pub incident_id : String
  pub status : String

-- An optional time as a hint.
abbrev pub time_field : Option Time → Field
time_field none = Field.json JsonValue.null
time_field (some t) = Field.time t

module _ {Raw : Type 0} (texts : Texts Raw) where
  abbrev pub ack_change : Incident → Change
  ack_change inc =
      incident_change texts "incident.updated" inc.id
        (("status", Field.json (JsonValue.text "ACK")) ∷ [])

  abbrev pub resolve_change : Incident → Change
  resolve_change inc =
      incident_change texts "incident.resolved" inc.id
        (("resolved_at", time_field inc.resolved_at) ∷ [])

  -- The route: the response, the database after the commit, and what was published then.
  unfoldable pub acknowledge_route :
      Publisher → Db → Db → Uuid → Option String → Time → Outcome (ActionOut × Db × List Change)
  unfolding acknowledge_incident incident_change publish_after
  acknowledge_route publisher seen db i key now = do
    done ← acknowledge_incident seen db i key now
    ok (
      record { incident_id = texts.uuid_text done.0.id; status = "ACK" },
      done.1,
      publish_after publisher (ack_change done.0),
    )

  unfoldable pub resolve_route :
      Publisher
      → Db
      → Db
      → Uuid
      → String
      → Option String
      → Time
      → Outcome (ActionOut × Db × List Change)
  unfolding resolve_incident incident_change publish_after
  resolve_route publisher seen db i note key now = do
    done ← resolve_incident seen db i note key now
    ok (
      record { incident_id = texts.uuid_text done.0.id; status = "RESOLVED" },
      done.1,
      publish_after publisher (resolve_change done.0),
    )
