-- ===== src/System/Timers.antt =====
-- The timers that drive an incident up the tiers (cloud/escalation_worker/worker.py and
-- transition.py): with its tiers configured it comes to CRITICAL_UNRESOLVED, and a tier without a
-- configuration ends its escalation.
use factory_monitor.Base.{suc, ◌≡◌, refl, ap, ◌∙◌, true, false, none, some, arith}
use factory_monitor.Store.Incident.{Uuid, Time, IncidentStatus, Incident}
use factory_monitor.Store.Db.{Db, Roster, find, has_outbox_id}
use factory_monitor.Escalation.Config.{fetch_tier_config}
use factory_monitor.Escalation.Transition.{Transition, transition_table, next_config, advance}
use factory_monitor.Escalation.Transition.Cases.{fired_db, full_outbox}
use factory_monitor.Escalation.Worker.{
  PollEnv, is_due, still_due, commit_or_recover, process_incident,
}
use factory_monitor.System.Consistent.{IsConsistent}
use factory_monitor.System.Firing.{fire_transition_fires, table-IsMove}
use factory_monitor.System.Closing.{process_idle}
use factory_monitor.System.Progress.{
  process_found, commit_ok, moved, find-moved, listed, still_due-active,
}

-- The database after a turn of the worker's loop on the incident.
abbrev pub polled : PollEnv → Uuid → Db → Db
polled env i db = (process_incident env i db).1

-- A turn on the incident meets no fault, and its new outbox id is free.
pub record IsCalm (env : PollEnv) (i : Uuid) (db : Db) : Type 0 where
  pub id_free : has_outbox_id (env.new_id i) db.outbox ≡ false
  pub no_fault : env.fault i ≡ false

module _ (env : PollEnv) (i : Uuid) (db : Db) (inc : Incident) (move : Transition)
    (c : IsConsistent db) (found : find i db.incidents ≡ some inc) (due : still_due inc ≡ true)
    (calm : IsCalm env i db)
    (table : transition_table inc.status inc.current_tier ≡ some move) where
  pub polled-eq : process_incident env i db ≡ (
    true,
    fired_db db inc move (env.clocks i) (full_outbox db inc move (env.clocks i) (env.new_id i)),
  )
  polled-eq =
      process_found env i db inc found due
      ∙ ap (commit_or_recover env i db) (
          fire_transition_fires db i inc move (env.clocks i) (env.new_id i) c found table
            calm.id_free)
      ∙ commit_ok env i db _ _ calm.no_fault

  pub polled-find : find i (polled env i db).incidents ≡ some (moved env db i move inc inc)
  polled-find =
      ap (λ p. find i p.1.incidents) polled-eq ∙ unfold moved in find-moved env db i inc move found

  pub polled-roster : (polled env i db).roster ≡ db.roster
  polled-roster = ap (λ p. p.1.roster) polled-eq

config_of_next :
    (roster : Roster) (inc : Incident) (move : Transition)
    → fetch_tier_config roster.tiers inc.site_id inc.anomaly_type move.next_tier ≡ none
    → (s : IncidentStatus) → move.next_status ≡ s
    → next_config roster inc move ≡ none
unfolding next_config
config_of_next roster inc move h IncidentStatus.critical_unresolved e = rw (e, next_config) refl
config_of_next roster inc move h IncidentStatus.awaiting_operator e = rw (e, next_config) h
config_of_next roster inc move h IncidentStatus.tier1 e = rw (e, next_config) h
config_of_next roster inc move h IncidentStatus.tier2 e = rw (e, next_config) h
config_of_next roster inc move h IncidentStatus.ack e = rw (e, next_config) h
config_of_next roster inc move h IncidentStatus.resolved e = rw (e, next_config) h

moved_stops :
    (env : PollEnv) (i : Uuid) (db : Db) (inc : Incident) (move : Transition)
    → next_config db.roster inc move ≡ none
    → (moved env db i move inc inc).next_fire_at ≡ none
unfolding moved advance
moved_stops env i db inc move h = rw h refl

stopped-still_due : (x : Incident) → x.next_fire_at ≡ none → still_due x ≡ false
unfolding still_due
stopped-still_due x h = rw h (ground arith)

stopped-is_due : (x : Incident) (at : Time) → x.next_fire_at ≡ none → is_due at x ≡ false
unfolding is_due
stopped-is_due x at h = rw h (ground arith)

-- In a consistent database, a due incident for whose next tier no configuration is found: a turn
-- of the worker without a fault and with a free outbox id moves it to that tier without a timer,
-- it is then due at no time, and a further turn on it changes nothing.
pub unconfigured_tier_stalls :
    (env env₂ : PollEnv) (i : Uuid) (db : Db) (inc : Incident)
    → IsConsistent db
    → find i db.incidents ≡ some inc
    → still_due inc ≡ true
    → IsCalm env i db
    → fetch_tier_config db.roster.tiers inc.site_id inc.anomaly_type (suc inc.current_tier) ≡ none
    → (x : Incident) × (find i (polled env i db).incidents ≡ some x)
      × (x.current_tier ≡ suc inc.current_tier)
      × ((at : Time) → is_due at x ≡ false)
      × (process_incident env₂ i (polled env i db) ≡ (false, polled env i db))
unconfigured_tier_stalls env env₂ i db inc c found due calm missing =
    let (move, table) =
      listed inc.status inc.current_tier (still_due-active inc due)
        (c.sound i inc found).tier_of_status in
    let next = (table-IsMove inc.status inc.current_tier move table).next in
    let here = polled-find env i db inc move c found due calm table in
    let stop =
      moved_stops env i db inc move
        (config_of_next db.roster inc move (rw next missing) move.next_status refl) in
    (
      moved env db i move inc inc,
      here,
      unfold moved advance in next,
      λ at. stopped-is_due _ at stop,
      process_idle env₂ i (polled env i db) _ here (stopped-still_due _ stop),
    )
