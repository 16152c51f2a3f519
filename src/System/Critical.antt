-- ===== src/System/Critical.antt =====
-- An incident that nobody answers comes to CRITICAL_UNRESOLVED
-- (cloud/escalation_worker/worker.py and transition.py).
use factory_monitor.Base.{◌≡◌, refl, true, none, some}
use factory_monitor.Store.Incident.{Uuid, IncidentStatus, Incident}
use factory_monitor.Store.Rows.{EscalationTier}
use factory_monitor.Store.Db.{Db, find}
use factory_monitor.Escalation.Config.{fetch_tier_config}
use factory_monitor.Escalation.Transition.{
  to_tier1, to_tier2, to_critical, Transition, transition_table, next_config, advance,
}
use factory_monitor.Escalation.Worker.{PollEnv, is_active, still_due}
use factory_monitor.System.Consistent.{IsConsistent}
use factory_monitor.System.Working.{process_incident-Keeps}
use factory_monitor.System.Progress.{moved}
use factory_monitor.System.Timers.{polled, IsCalm, polled-find, polled-roster}

-- A turn of the worker on the incident, from one row of the table to the next.
module _ (env : PollEnv) (i : Uuid) (db : Db) (inc : Incident) (c : IsConsistent db)
    (found : find i db.incidents ≡ some inc) (due : still_due inc ≡ true)
    (calm : IsCalm env i db) where
  climbs_to :
      (move : Transition)
      → transition_table inc.status inc.current_tier ≡ some move
      → find i (polled env i db).incidents ≡ some (moved env db i move inc inc)
  climbs_to move table = polled-find env i db inc move c found due calm table

still_timed :
    (env : PollEnv) (i : Uuid) (db : Db) (inc : Incident) (move : Transition) (cfg : EscalationTier)
    → is_active move.next_status ≡ true
    → next_config db.roster inc move ≡ some cfg
    → still_due (moved env db i move inc inc) ≡ true
unfolding still_due moved advance
still_timed env i db inc move cfg a h = rw (h, a) refl

-- The database after the worker's turns on the incident, each in its environment.
abbrev pub thrice : PollEnv → PollEnv → PollEnv → Uuid → Db → Db
thrice env₁ env₂ env₃ i db = polled env₃ i (polled env₂ i (polled env₁ i db))

-- In a consistent database with a configuration of tiers 1 and 2 for the incident's site and type:
-- three turns of the worker without a fault, each with a free outbox id, take an incident that
-- awaits the operator and has a timer to CRITICAL_UNRESOLVED at tier 3, without a timer.
pub escalates_to_critical :
    (env₁ env₂ env₃ : PollEnv) (i : Uuid) (db : Db) (inc : Incident) (cfg₁ cfg₂ : EscalationTier)
    → IsConsistent db
    → find i db.incidents ≡ some inc
    → inc.status ≡ IncidentStatus.awaiting_operator
    → still_due inc ≡ true
    → fetch_tier_config db.roster.tiers inc.site_id inc.anomaly_type 1 ≡ some cfg₁
    → fetch_tier_config db.roster.tiers inc.site_id inc.anomaly_type 2 ≡ some cfg₂
    → IsCalm env₁ i db
    → IsCalm env₂ i (polled env₁ i db)
    → IsCalm env₃ i (polled env₂ i (polled env₁ i db))
    → (x : Incident) × (find i (thrice env₁ env₂ env₃ i db).incidents ≡ some x)
      × (x.status ≡ IncidentStatus.critical_unresolved)
      × (x.current_tier ≡ 3)
      × (x.next_fire_at ≡ none)
unfolding moved advance is_active transition_table next_config
escalates_to_critical env₁ env₂ env₃ i db inc cfg₁ cfg₂ c found waits due h₁ h₂ calm₁ calm₂ calm₃ =
    let tier : inc.current_tier ≡ 0 = rw waits at (c.sound i inc found).tier_of_status in
    let table₁ : transition_table inc.status inc.current_tier ≡ some to_tier1 =
      rw (waits, tier) refl in
    let c₁ = (process_incident-Keeps env₁ i db c).consistent in
    let found₁ = climbs_to env₁ i db inc c found due calm₁ to_tier1 table₁ in
    let same₁ = polled-roster env₁ i db inc to_tier1 c found due calm₁ table₁ in
    let due₁ = still_timed env₁ i db inc to_tier1 cfg₁ refl h₁ in
    let c₂ = (process_incident-Keeps env₂ i (polled env₁ i db) c₁).consistent in
    let found₂ =
      climbs_to env₂ i (polled env₁ i db) (moved env₁ db i to_tier1 inc inc) c₁ found₁ due₁ calm₂
        to_tier2 refl in
    let due₂ =
      still_timed env₂ i (polled env₁ i db) (moved env₁ db i to_tier1 inc inc) to_tier2 cfg₂ refl
        (rw same₁ h₂) in
    let found₃ =
      climbs_to env₃ i (polled env₂ i (polled env₁ i db)) _ c₂ found₂ due₂ calm₃ to_critical refl in
    (_, found₃, refl, refl, refl)
