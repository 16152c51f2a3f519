-- ===== src/System/Progress.antt =====
-- A due incident does advance: the worker's transaction on a consistent database.
use mathlib.Core.Option
use factory_monitor.Base.{
  suc, ◌+◌, Option, none, ℕ, ◌≡◌, refl, sym, ap, subst, ◌∙◌, Bool, true, false, ◌&&◌, some, some_eq,
  arith,
}
use factory_monitor.Base.Outcome.{ok}
use factory_monitor.Store.Incident.{Uuid, Time, seconds, IncidentStatus, Incident}
use factory_monitor.Store.Rows.{EscalationTier}
use factory_monitor.Store.Db.{Db, Roster, Clocks, find, update, has_outbox_id}
use factory_monitor.Store.Lookup.{find-id, find-update_self}
use factory_monitor.Escalation.Config.{fetch_tier_config}
use factory_monitor.Escalation.Transition.{
  to_tier1, to_tier2, to_critical, Transition, TransitionResult, transition_table, next_config,
  advance, fire_time, fire_transition,
}
use factory_monitor.Escalation.Worker.{
  PollEnv, is_active, still_due, commit_or_recover, process_incident,
}
use factory_monitor.System.Tables.{StatusTier}
use factory_monitor.System.Consistent.{IsConsistent}
use factory_monitor.System.Firing.{fire_transition_fires}

-- The transition table lists every active status at its tier.
pub listed :
    (s : IncidentStatus) (t : ℕ)
    → is_active s ≡ true
    → StatusTier s t
    → (move : Transition) × (transition_table s t ≡ some move)
unfolding is_active transition_table
listed IncidentStatus.awaiting_operator t a h = (to_tier1, rw h refl)
listed IncidentStatus.tier1 t a h = (to_tier2, rw h refl)
listed IncidentStatus.tier2 t a h = (to_critical, rw h refl)
listed IncidentStatus.ack t a h = cc
listed IncidentStatus.resolved t a h = cc
listed IncidentStatus.critical_unresolved t a h = cc

pub still_due-active : (inc : Incident) → still_due inc ≡ true → is_active inc.status ≡ true
unfolding still_due
still_due-active inc h = fst_true _ _ h
  where
    fst_true : (a b : Bool) → (a && b) ≡ true → a ≡ true
    fst_true a b h = ground arith

pub process_found :
    (env : PollEnv) (i : Uuid) (db : Db) (inc : Incident)
    → find i db.incidents ≡ some inc
    → still_due inc ≡ true
    → process_incident env i db
      ≡ commit_or_recover env i db (fire_transition db inc (env.clocks i) (env.new_id i))
unfolding process_incident
process_found env i db inc found due = rw (found, process_incident) (rw due refl)

pub commit_ok :
    (env : PollEnv) (i : Uuid) (db d : Db) (r : TransitionResult)
    → env.fault i ≡ false
    → commit_or_recover env i db (ok (r, d)) ≡ (r.fired, d)
unfolding commit_or_recover
commit_ok env i db d r f = rw f refl

-- The row of an incident after its transition.
unfoldable pub moved : PollEnv → Db → Uuid → Transition → Incident → Incident → Incident
moved env db i move inc =
    advance move (fire_time (env.clocks i).now (next_config db.roster inc move))
      (env.clocks i).db_now

moved-id :
    (env : PollEnv) (db : Db) (i : Uuid) (move : Transition) (inc x : Incident)
    → (moved env db i move inc x).id ≡ x.id
unfolding moved advance
moved-id env db i move inc x = refl

pub find-moved :
    (env : PollEnv) (db : Db) (i : Uuid) (inc : Incident) (move : Transition)
    → find i db.incidents ≡ some inc
    → find i (update inc.id (moved env db i move inc) db.incidents)
      ≡ some (moved env db i move inc inc)
find-moved env db i inc move found =
    subst
      (λ k.
        find i (update k (moved env db i move inc) db.incidents)
        ≡ some (moved env db i move inc inc))
      (sym (find-id i db.incidents inc found))
      (find-update_self i (moved env db i move inc) (moved-id env db i move inc) db.incidents inc
        found)

-- The escalation, independent of the transition table: the status that follows an open one, and the
-- timer that a tier sets, which is none at the end and where the tier has no configuration.
abbrev pub status_after : IncidentStatus → IncidentStatus
status_after IncidentStatus.awaiting_operator = IncidentStatus.tier1
status_after IncidentStatus.tier1 = IncidentStatus.tier2
status_after _ = IncidentStatus.critical_unresolved

abbrev pub timer_of : Roster → Incident → Time → IncidentStatus → Option Time
timer_of roster inc now IncidentStatus.critical_unresolved = none
timer_of roster inc now s =
    Option.map (λ (cfg : EscalationTier). now + seconds cfg.delay_seconds)
      (fetch_tier_config roster.tiers inc.site_id inc.anomaly_type (suc inc.current_tier))

-- The incident a tier further: status, tier and timer anew, the deadline that is shown with it, the
-- claim given back, and every other column as it was.
abbrev pub one_tier_on : Roster → Clocks → Incident → Incident
one_tier_on roster clocks inc = record inc {
  status = status_after inc.status;
  current_tier = suc inc.current_tier;
  next_fire_at = timer_of roster inc clocks.now (status_after inc.status);
  deadline_at = timer_of roster inc clocks.now (status_after inc.status);
  claimed_by = none;
  claimed_until = none;
  updated_at = clocks.db_now;
}

fire_time_lem :
    (now : Time) (o : Option EscalationTier)
    → fire_time now o ≡ Option.map (λ (cfg : EscalationTier). now + seconds cfg.delay_seconds) o
fire_time_lem now none = refl
fire_time_lem now (some cfg) = refl

module _ (env : PollEnv) (db : Db) (i : Uuid) (inc : Incident) where
  -- The row for one move of the table, its timer rewritten.
  as_move :
      (move : Transition) (o : Option Time)
      → fire_time (env.clocks i).now (next_config db.roster inc move) ≡ o
      → moved env db i move inc inc ≡ advance move o (env.clocks i).db_now inc
  unfolding moved
  as_move move o e = ap (λ p. advance move p (env.clocks i).db_now inc) e

  moved-one_tier_on :
      (s : IncidentStatus) (t : ℕ) (move : Transition)
      → inc.status ≡ s
      → inc.current_tier ≡ t
      → is_active s ≡ true
      → StatusTier s t
      → transition_table s t ≡ some move
      → moved env db i move inc inc ≡ one_tier_on db.roster (env.clocks i) inc
  unfolding advance next_config transition_table is_active
  moved-one_tier_on IncidentStatus.awaiting_operator t move e f active goes table =
      subst (λ m. moved env db i m inc inc ≡ one_tier_on db.roster (env.clocks i) inc)
        (some_eq (rw goes at table)) (as_move to_tier1 _ (fire_time_lem _ _) ∙ rw (e, f, goes) refl)
  moved-one_tier_on IncidentStatus.tier1 t move e f active goes table =
      subst (λ m. moved env db i m inc inc ≡ one_tier_on db.roster (env.clocks i) inc)
        (some_eq (rw goes at table)) (as_move to_tier2 _ (fire_time_lem _ _) ∙ rw (e, f, goes) refl)
  moved-one_tier_on IncidentStatus.tier2 t move e f active goes table =
      subst (λ m. moved env db i m inc inc ≡ one_tier_on db.roster (env.clocks i) inc)
        (some_eq (rw goes at table)) (as_move to_critical none refl ∙ rw (e, f, goes) refl)
  moved-one_tier_on IncidentStatus.ack t move e f active goes table = cc
  moved-one_tier_on IncidentStatus.resolved t move e f active goes table = cc
  moved-one_tier_on IncidentStatus.critical_unresolved t move e f active goes table = cc

-- In a consistent database, an incident that is active and has a timer, processed with a free outbox
-- id and no fault: it fires, and its row is then a tier further: in the status that follows, with the
-- timer that the next tier's configuration sets, without a claim, and otherwise as it was.
pub due_incident_advances :
    (env : PollEnv) (i : Uuid) (db : Db) (inc : Incident)
    → IsConsistent db
    → find i db.incidents ≡ some inc
    → still_due inc ≡ true
    → has_outbox_id (env.new_id i) db.outbox ≡ false
    → env.fault i ≡ false
    → ((process_incident env i db).0 ≡ true)
      × (find i (process_incident env i db).1.incidents
          ≡ some (one_tier_on db.roster (env.clocks i) inc))
due_incident_advances env i db inc c found due free calm =
    let active = still_due-active inc due in
    let goes = (c.sound i inc found).tier_of_status in
    let (move, table) = listed inc.status inc.current_tier active goes in
    let run =
      process_found env i db inc found due
      ∙ ap (commit_or_recover env i db)
          (fire_transition_fires db i inc move (env.clocks i) (env.new_id i) c found table free)
      ∙ commit_ok env i db _ _ calm in
    (
      ap (λ p. p.0) run,
      ap (λ p. find i p.1.incidents) run
          ∙ unfold moved in
            find-moved env db i inc move found
            ∙ ap some (
                moved-one_tier_on env db i inc inc.status inc.current_tier move refl refl active
                  goes table),
    )
