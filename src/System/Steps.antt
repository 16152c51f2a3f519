-- ===== src/System/Steps.antt =====
-- The system as a step relation on its database: a step is one committed transaction of a worker,
-- of the API or of the webhook, in any order and any number of processes, or a change of the roster
-- by its administrators. A crash between two transactions is no step. What a transaction reads without
-- a lock comes from a database of its own, `seen`, `asked` or `later`: any at all, so also any
-- that was committed before or after.
use factory_monitor.Base.{ℕ, ◌≡◌, refl, subst, String, Bool, Option, none, some, ◌≤◌, []}
use factory_monitor.Base.Outcome.{ok}
use factory_monitor.Store.Incident.{Uuid, Time, Incident}
use factory_monitor.Store.Db.{Db, Roster, find, fired, has_key}
use factory_monitor.Escalation.Worker.{PollEnv, claim, process_incident}
use factory_monitor.Escalation.Actions.{acknowledge_incident, resolve_incident}
use factory_monitor.Ingest.Anomaly.{AnomalyEvent}
use factory_monitor.Ingest.Service.{
  OnCallResolver, Supply, IncidentResult, create_incident_from_anomaly,
}
use factory_monitor.Notifier.Provider.{ProviderResult}
use factory_monitor.Notifier.Relay.{claim_outbox, settle}
use factory_monitor.Webhook.{Reply, receive_reply}
use factory_monitor.System.Consistent.{IsConsistent, Keeps}
use factory_monitor.System.Tables.{Grows-refl, Grows-trans, Above, CanBecome}
use factory_monitor.System.Working.{claim-Keeps, process_incident-Keeps}
use factory_monitor.System.Acting.{acknowledge_incident-Keeps, resolve_incident-Keeps}
use factory_monitor.System.Replying.{receive_reply-Keeps}
use factory_monitor.System.Ingesting.{create_incident-Keeps}
use factory_monitor.System.Delivering.{claim_outbox-Keeps, settle-Keeps}

pub data Step (db db' : Db) : Type 0 where
  ingests :
      (parse_uuid : String → Option Uuid) (seen later : Db) (event : AnomalyEvent) (grace : ℕ)
      (resolver : Option OnCallResolver) (supply : Supply) (r : IncidentResult)
      → create_incident_from_anomaly parse_uuid seen db later event grace resolver supply
        ≡ ok (r, db')
      → Step db db'
  claims :
      (worker : String) (lease batch : ℕ) (locked : Uuid → Bool) (at : Time)
      → (claim worker lease batch locked at db).1 ≡ db'
      → Step db db'
  processes : (env : PollEnv) (i : Uuid) → (process_incident env i db).1 ≡ db' → Step db db'
  acknowledges :
      (seen : Db) (i : Uuid) (key : Option String) (now : Time) (x : Incident)
      → acknowledge_incident seen db i key now ≡ ok (x, db')
      → Step db db'
  resolves :
      (seen : Db) (i : Uuid) (note : String) (key : Option String) (now : Time) (x : Incident)
      → resolve_incident seen db i note key now ≡ ok (x, db')
      → Step db db'
  replies :
      (reply : Reply) (now at : Time) (new_id : Uuid) (asked seen : Db)
      → receive_reply reply now at new_id asked seen db ≡ db'
      → Step db db'
  claims_outbox :
      (worker : String) (lease batch : ℕ) (locked : Uuid → Bool) (at : Time)
      → (claim_outbox worker lease batch locked at db).1 ≡ db'
      → Step db db'
  settles :
      (base : ℕ) (now at : Time) (new_id : Uuid) (result : ProviderResult) (i : Uuid)
      → settle base now at new_id result i db ≡ db'
      → Step db db'
  administers : (roster : Roster) → record db { roster = roster } ≡ db' → Step db db'

pub data Reach (db : Db) : Db → Type 0 where
  here : Reach db db
  next : {mid last : Db} → Reach db mid → Step mid last → Reach db last

-- The database after the migrations, with its roster.
abbrev pub empty_db : Roster → Db
empty_db roster = record {
  incidents = [];
  events = [];
  idempotency = [];
  outbox = [];
  messages = [];
  sessions = [];
  unmatched = [];
  roster = roster;
}

pub Step-Keeps : {db db' : Db} → Step db db' → IsConsistent db → Keeps db db'
Step-Keeps {db} {db'} (ingests parse seen later event grace resolver supply r h) c =
    create_incident-Keeps parse seen db later db' event grace resolver supply r h c
Step-Keeps {db} (claims worker lease batch locked at h) c =
    subst (Keeps db) h (claim-Keeps worker lease batch locked at db c)
Step-Keeps {db} (processes env i h) c = subst (Keeps db) h (process_incident-Keeps env i db c)
Step-Keeps {db} {db'} (acknowledges seen i key now x h) c =
    acknowledge_incident-Keeps seen db db' i key now x h c
Step-Keeps {db} {db'} (resolves seen i note key now x h) c =
    resolve_incident-Keeps seen db db' i note key now x h c
Step-Keeps {db} (replies reply now at new_id asked seen h) c =
    subst (Keeps db) h (receive_reply-Keeps reply now at new_id asked seen db c)
Step-Keeps {db} (claims_outbox worker lease batch locked at h) c =
    subst (Keeps db) h (claim_outbox-Keeps worker lease batch locked at db c)
Step-Keeps {db} (settles base now at new_id result i h) c =
    subst (Keeps db) h (settle-Keeps base now at new_id result i db c)
Step-Keeps {db} (administers roster h) c = subst (Keeps db) h (record {
  grows = Grows-refl db.incidents;
  consistent = record { sound = c.sound; guarded = c.guarded; keyed = c.keyed };
})

empty_db-IsConsistent : (roster : Roster) → IsConsistent (empty_db roster)
unfolding find fired has_key
empty_db-IsConsistent roster = record {
  sound = λ i x h. cc;
  guarded = λ i t h. cc;
  keyed = λ i t h. cc;
}

-- Every reachable database is consistent: whatever the transactions, their order and the number of
-- workers, each incident's tier is the one of its status where it is open or critical, and at most 3 where it
-- is acknowledged or resolved, a timer runs only on an open incident, the
-- deadline shown is the timer, and a guard or an outbox key of a tier is there only if the incident
-- has come to that tier.
pub Reach-IsConsistent : (roster : Roster) (db : Db) → Reach (empty_db roster) db → IsConsistent db
Reach-IsConsistent roster db here = empty_db-IsConsistent roster
Reach-IsConsistent roster db (next before step) =
    (Step-Keeps step (Reach-IsConsistent roster _ before)).consistent

pub Reach-Keeps : (db db' : Db) → IsConsistent db → Reach db db' → Keeps db db'
Reach-Keeps db db' c here = record { consistent = c; grows = Grows-refl db.incidents }
Reach-Keeps db db' c (next {mid} before step) =
    let first = Reach-Keeps db mid c before in
    let second = Step-Keeps step first.consistent in
    record {
      consistent = second.consistent;
      grows = Grows-trans db.incidents mid.incidents db'.incidents first.grows second.grows;
    }

pub incident_monotone :
    (db db' : Db) (i : Uuid) (x : Incident)
    → IsConsistent db
    → Reach db db'
    → find i db.incidents ≡ some x
    → (y : Incident) × (find i db'.incidents ≡ some y)
      × (x.current_tier ≤ y.current_tier)
      × CanBecome x.status y.status
incident_monotone db db' i x c r found =
    of_above (find i db'.incidents) refl ((Reach-Keeps db db' c r).grows i x found)
  where
    of_above :
        (o : Option Incident)
        → find i db'.incidents ≡ o
        → Above x o
        → (y : Incident) × (find i db'.incidents ≡ some y)
          × (x.current_tier ≤ y.current_tier)
          × CanBecome x.status y.status
    of_above none e h = absurd h
    of_above (some y) e h = (y, e, h.0, h.1)
