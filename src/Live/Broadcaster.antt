-- ===== src/Live/Broadcaster.antt =====
-- cloud/common/ws/broadcaster.py: a compact change event, turned into a message to every connection.
use factory_monitor.Base.{
  ℕ, ◌≡◌, refl, sym, subst, ◌||◌, String, Bool, true, false, Option, none, some, List, str_eq,
  eq_iff, arith, inl, inr, Bool-cases, if◌then◌else◌,
}
use factory_monitor.Base.Outcome.{Outcome, Error, ok, err}
use factory_monitor.Store.Incident.{Uuid, Time, IncidentStatus, Incident}
use factory_monitor.Store.Db.{find}
use factory_monitor.Live.View.{WsType, IncidentView, build_incident_view}
use factory_monitor.Live.Manager.{Connection, broadcast}

-- The value of `data`: a whole view, or the fields of one change.
pub data ChangeData : Type 0 where
  whole : IncidentView → ChangeData
  tier_fields : Uuid → ℕ → IncidentStatus → Option Time → ChangeData
  resolved_fields : Uuid → Option Time → Option Uuid → ChangeData

-- `WsType(change_type)`, INCIDENT_UPDATED on a text that is no value of it.
unfoldable pub ws_type_of : String → WsType
ws_type_of s =
    if str_eq s "snapshot"
    then WsType.snapshot
    else if str_eq s "heatmap.tick"
    then WsType.heatmap_tick
    else if str_eq s "incident.created"
    then WsType.incident_created
    else if str_eq s "incident.tier_advanced"
    then WsType.incident_tier_advanced
    else if str_eq s "incident.resolved"
    then WsType.incident_resolved
    else if str_eq s "timer.snapshot"
    then WsType.timer_snapshot
    else if str_eq s "system.heartbeat"
    then WsType.system_heartbeat
    else WsType.incident_updated

-- `_build_data`
unfoldable pub build_data : String → Incident → ChangeData
unfolding build_incident_view
build_data s inc =
    if str_eq s "incident.created" || str_eq s "incident.updated"
    then ChangeData.whole (build_incident_view inc)
    else if str_eq s "incident.tier_advanced"
    then ChangeData.tier_fields inc.id inc.current_tier inc.status inc.deadline_at
    else if str_eq s "incident.resolved"
    then ChangeData.resolved_fields inc.id inc.resolved_at inc.resolved_by
    else ChangeData.whole (build_incident_view inc)

-- The message, how many connections took it, and the registry after it. A message is none where the
-- incident is gone.
unfoldable pub broadcast_change :
    (parse_uuid : String → Option Uuid)
    → (ℕ → Bool)
    → String
    → String
    → List Incident
    → List Connection
    → Outcome (Option (WsType × ChangeData) × ℕ × List Connection)
unfolding ws_type_of build_data broadcast
broadcast_change parse_uuid takes change_type incident_id rows conns =
    elim (parse_uuid incident_id) [
      | none ↦ err Error.value_error
      | some i ↦ elim (find i rows) [
        | none ↦ ok (none, 0, conns)
        | some inc ↦
            let (sent, rest) = broadcast takes conns in
            ok (some (ws_type_of change_type, build_data change_type inc), sent, rest)
      ]
    ]

-- Which fields a client finds under a type.
abbrev pub type_fits : WsType → ChangeData → Bool
type_fits WsType.incident_tier_advanced (ChangeData.tier_fields i t s d) = true
type_fits WsType.incident_tier_advanced _ = false
type_fits WsType.incident_resolved (ChangeData.resolved_fields i t u) = true
type_fits WsType.incident_resolved _ = false
type_fits _ (ChangeData.whole view) = true
type_fits _ _ = false

others_fit :
    (a b c t h p : Bool) (view : IncidentView)
    → type_fits
        (if a
          then WsType.snapshot
          else if b
          then WsType.heatmap_tick
          else if c
          then WsType.incident_created
          else if t
          then WsType.timer_snapshot
          else if h
          then WsType.system_heartbeat
          else WsType.incident_updated)
        (if p then ChangeData.whole view else ChangeData.whole view)
      ≡ true
others_fit a b c t h p view = ground arith

-- Whatever text the change event has as its type, a message of type incident.tier_advanced or
-- incident.resolved has the fields of that change as its data, and a message of any other type a whole
-- view of the incident.
pub data_fits_type :
    (s : String) (inc : Incident) → type_fits (ws_type_of s) (build_data s inc) ≡ true
unfolding ws_type_of build_data
data_fits_type s inc = elim (Bool-cases (str_eq s "incident.tier_advanced")) [
  | inl e ↦
      subst (λ u. type_fits (ws_type_of u) (build_data u inc) ≡ true)
        (sym ((eq_iff s "incident.tier_advanced").0 e)) refl
  | inr e ↦ elim (Bool-cases (str_eq s "incident.resolved")) [
    | inl r ↦
        subst (λ u. type_fits (ws_type_of u) (build_data u inc) ≡ true)
          (sym ((eq_iff s "incident.resolved").0 r)) refl
    | inr r ↦
        rw (e, r)
          (others_fit (str_eq s "snapshot") (str_eq s "heatmap.tick") (str_eq s "incident.created")
            (str_eq s "timer.snapshot") (str_eq s "system.heartbeat")
            (str_eq s "incident.created" || str_eq s "incident.updated") (build_incident_view inc))
  ]
]
