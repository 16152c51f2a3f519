-- ===== src/System/Closing.antt =====
-- Once an incident is acknowledged or resolved, no worker escalates it again
-- (cloud/common/incident_actions.py against cloud/escalation_worker/worker.py).
use factory_monitor.Base.{◌≡◌, refl, subst, inl, inr, true, false, Option, none, some, ◌∷◌, String}
use factory_monitor.Base.Outcome.{ok}
use factory_monitor.Store.Incident.{Uuid, Time, IncidentStatus, Incident, is_open}
use factory_monitor.Store.Rows.{EventType, Payload}
use factory_monitor.Store.Db.{Db, find, update, insert_event, duplicates_source}
use factory_monitor.Store.Lookup.{find-id, find-update_self}
use factory_monitor.Escalation.Actions.{
  is_acked, action_event, is_ackable, is_resolved, is_resolvable, acknowledged, resolved,
  acknowledge_row, resolve_row, acknowledge_incident, resolve_incident,
}
use factory_monitor.Escalation.Worker.{PollEnv, is_active, still_due, process_incident}
use factory_monitor.System.Tables.{Answered, CanBecome}
use factory_monitor.System.Consistent.{IsConsistent}
use factory_monitor.System.Acting.{acknowledge_of, acknowledge_row-ok, acknowledge_incident-Keeps}
use factory_monitor.System.Steps.{Reach, Reach-Keeps, incident_monotone}

Answered-later : (s t : IncidentStatus) → Answered s → CanBecome s t → Answered t
Answered-later s t (inl e) c = rw e at c
Answered-later s t (inr e) c = rw e at c

Answered-idle : (x : Incident) → Answered x.status → still_due x ≡ false
unfolding still_due is_active
Answered-idle x (inl e) = rw e
Answered-idle x (inr e) = rw e

pub process_idle :
    (env : PollEnv) (i : Uuid) (db : Db) (x : Incident)
    → find i db.incidents ≡ some x
    → still_due x ≡ false
    → process_incident env i db ≡ (false, db)
unfolding process_incident
process_idle env i db x found idle = rw (found, process_incident) (rw idle refl)

-- From a consistent database in which the incident is closed.
stays-Answered :
    (db db' : Db) (i : Uuid) (x : Incident) (env : PollEnv)
    → IsConsistent db
    → find i db.incidents ≡ some x
    → Answered x.status
    → Reach db db'
    → process_incident env i db' ≡ (false, db')
stays-Answered db db' i x env c found closed r =
    let (y, found', tier, can) = incident_monotone db db' i x c r found in
    process_idle env i db' y found' (Answered-idle y (Answered-later x.status y.status closed can))

-- After an acknowledgement that succeeded, on a database that came from the consistent one in which
-- it loaded the incident, and whatever transactions follow, a worker that has claimed the incident
-- neither fires nor changes anything.
pub acknowledged_never_fires :
    (seen db db₁ db' : Db) (i : Uuid) (key : Option String) (now : Time) (x : Incident)
    (env : PollEnv)
    → IsConsistent seen
    → Reach seen db
    → acknowledge_incident seen db i key now ≡ ok (x, db₁)
    → Reach db₁ db'
    → process_incident env i db' ≡ (false, db')
acknowledged_never_fires seen db db₁ db' i key now x env c before h r =
    let (inc, found, row) = acknowledge_of seen db db₁ i key now x h in
    let (cur, here, tier, can) = incident_monotone seen db i inc c before found in
    let now_ok = (Reach-Keeps seen db c before).consistent in
    let later = (acknowledge_incident-Keeps seen db db₁ i key now x h now_ok).consistent in
    elim (acknowledge_row-ok db db₁ key now inc x row) [
      | inl same ↦
          stays-Answered db₁ db' i cur env later
            (subst (λ (d : Db). find i d.incidents ≡ some cur) same.1 here)
            (Answered-later inc.status cur.status (inl same.0) can) r
      | inr did ↦
          stays-Answered db₁ db' i (acknowledged now cur) env later
            (rw (did.1, find-id i seen.incidents inc found)
              (find-update_self i (acknowledged now) (unfold acknowledged in λ y. refl) db.incidents
                cur here))
            (unfold acknowledged in inl refl) r
    ]

open_is :
    (s : IncidentStatus)
    → is_open s ≡ true
    → ((is_acked s ≡ false) × (is_ackable s ≡ true))
      × ((is_resolved s ≡ false) × (is_resolvable s ≡ true))
unfolding is_ackable is_resolvable
open_is IncidentStatus.awaiting_operator h = ((refl, refl), (refl, refl))
open_is IncidentStatus.tier1 h = ((refl, refl), (refl, refl))
open_is IncidentStatus.tier2 h = ((refl, refl), (refl, refl))
open_is _ h = cc

-- The incident is there before and after, then with the status, at the same tier, without a timer.
abbrev pub IsAnsweredAs : IncidentStatus → Uuid → Db → Db → Type 0
IsAnsweredAs s i db db' =
    (cur x : Incident) × (find i db.incidents ≡ some cur)
    × (find i db'.incidents ≡ some x)
    × (x.status ≡ s)
    × (x.current_tier ≡ cur.current_tier)
    × (x.next_fire_at ≡ none)

module _ (seen db : Db) (i : Uuid) (inc cur : Incident) (key : Option String) (now : Time)
    (found : find i seen.incidents ≡ some inc) (here : find i db.incidents ≡ some cur)
    (still_open : is_open inc.status ≡ true) where
  -- The database after the event and the UPDATE of the loaded row's id.
  abbrev answered_db : EventType → IncidentStatus → Payload → (Incident → Incident) → Db
  answered_db type to payload f = record db {
    events = action_event type to payload inc ∷ db.events;
    incidents = update inc.id f db.incidents;
  }

  find-answered :
      (f : Incident → Incident)
      → ((x : Incident) → (f x).id ≡ x.id)
      → find i (update inc.id f db.incidents) ≡ some (f cur)
  find-answered f keeps =
      rw (find-id i seen.incidents inc found) (find-update_self i f keeps db.incidents cur here)

  late_acknowledgement :
      (x : Incident) × (db₁ : Db) × (acknowledge_incident seen db i key now ≡ ok (x, db₁))
      × IsAnsweredAs IncidentStatus.ack i db db₁
  unfolding acknowledge_incident acknowledge_row insert_event duplicates_source action_event
  late_acknowledgement =
      let is = (open_is inc.status still_open).0 in
      (
        acknowledged now inc,
        answered_db EventType.ack IncidentStatus.ack (Payload.acknowledged key) (acknowledged now),
        rw (found, is.0, is.1, acknowledge_incident) refl,
        (
          cur,
          acknowledged now cur,
          here,
          find-answered (acknowledged now) (unfold acknowledged in λ y. refl),
          unfold acknowledged in refl,
          unfold acknowledged in refl,
          unfold acknowledged in refl,
        ),
      )

  late_resolution :
      (note : String)
      → (x : Incident) × (db₁ : Db) × (resolve_incident seen db i note key now ≡ ok (x, db₁))
        × IsAnsweredAs IncidentStatus.resolved i db db₁
  unfolding resolve_incident resolve_row insert_event duplicates_source action_event
  late_resolution note =
      let is = (open_is inc.status still_open).1 in
      (
        resolved now note inc inc,
        answered_db EventType.resolved IncidentStatus.resolved (Payload.resolution note key)
            (resolved now note inc),
        rw (found, is.0, is.1, resolve_incident) refl,
        (
          cur,
          resolved now note inc cur,
          here,
          find-answered (resolved now note inc) (unfold resolved in λ y. refl),
          unfold resolved in refl,
          unfold resolved in refl,
          unfold resolved in refl,
        ),
      )

-- An acknowledgement or a resolution that loaded the incident while it was open, and that commits
-- after whatever other transactions, returns and overwrites the status that the incident has by then,
-- be it resolved or critical: it is acknowledged, or resolved, at the tier that it has come to and
-- without a timer.
pub late_actions_overwrite :
    (seen db : Db) (i : Uuid) (inc : Incident) (key : Option String) (note : String) (now : Time)
    → IsConsistent seen
    → Reach seen db
    → find i seen.incidents ≡ some inc
    → is_open inc.status ≡ true
    → ((x : Incident) × (db₁ : Db) × (acknowledge_incident seen db i key now ≡ ok (x, db₁))
        × IsAnsweredAs IncidentStatus.ack i db db₁)
      × ((x : Incident) × (db₁ : Db) × (resolve_incident seen db i note key now ≡ ok (x, db₁))
          × IsAnsweredAs IncidentStatus.resolved i db db₁)
late_actions_overwrite seen db i inc key note now c before found still_open =
    let (cur, here, tier, can) = incident_monotone seen db i inc c before found in
    (
      late_acknowledgement seen db i inc cur key now found here still_open,
      late_resolution seen db i inc cur key now found here still_open note,
    )
