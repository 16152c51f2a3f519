-- ===== src/Ingest/Consumer.antt =====
-- cloud/ingest_worker/consumer.py: one Kafka record at a time; the database commits before the
-- offset does. Pydantic's validation, `uuid.UUID` and the Redis client are parameters.
use factory_monitor.Base.{
  ℕ, suc, String, Bool, true, false, Option, none, some, List, [], ◌∷◌, if◌then◌else◌,
}
use factory_monitor.Base.Outcome.{Outcome, ok, err}
use factory_monitor.Store.Incident.{Uuid}
use factory_monitor.Store.Db.{Db}
use factory_monitor.Ingest.Anomaly.{AnomalyEvent}
use factory_monitor.Ingest.Service.{
  Reason, IncidentResult, OnCallResolver, Supply, create_incident_from_anomaly,
}

-- What `handle_message` returns.
pub data Status : Type 0 where
  dlq : Status
  handled : Reason → Status

module _ (Raw : Type 0) (validate : Raw → Option AnomalyEvent) (parse_uuid : String → Option Uuid)
    (grace : ℕ) (resolver : Option OnCallResolver) where
  -- The database, the records of the dead-letter topic, the ids announced on the live channel
  -- and the committed offset.
  pub record World : Type 0 where
    pub db : Db
    pub dead_letters : List Raw
    pub announced : List Uuid
    pub offset : ℕ

  -- `incident_change(CHANGE_CREATED, id)`, published after the commit if the id is there.
  abbrev pub announce : Bool → Option Uuid → List Uuid → List Uuid
  announce true (some i) sent = i ∷ sent
  announce _ _ sent = sent

  abbrev pub finish : World → Outcome (IncidentResult × Db) → Outcome (Status × World)
  finish w (err e) = err e
  finish w (ok (result, db)) = ok (
    Status.handled result.reason,
    record w {
      db = if result.created then db else w.db;
      announced = announce result.created result.incident_id w.announced;
    },
  )

  -- `seen` is the database that the pre-checks read, and `later` the one that the checks after a
  -- rollback read.
  unfoldable pub handle_message : Db → Db → Supply → Raw → World → Outcome (Status × World)
  unfolding create_incident_from_anomaly
  handle_message seen later supply raw w = elim (validate raw) [
    | none ↦ ok (Status.dlq, record w { dead_letters = raw ∷ w.dead_letters })
    | some event ↦
        finish w
          (create_incident_from_anomaly parse_uuid seen w.db later event grace resolver supply)
  ]

  -- A turn of `run_forever`: the offset moves on only after `handle_message` has returned; an
  -- exception is raised again, and ends the loop.
  abbrev pub commit_offset : World → Outcome (Status × World) → Bool × World
  commit_offset w (err e) = (false, w)
  commit_offset w (ok (status, w')) = (true, record w' { offset = suc w'.offset })

  unfoldable pub consume_one : Db → Db → Supply → Raw → World → Bool × World
  unfolding handle_message
  consume_one seen later supply raw w = commit_offset w (handle_message seen later supply raw w)

  -- `run_forever` over the records from the committed offset on, each with what it sees.
  unfoldable pub run_forever : List (Db × Db × Supply × Raw) → World → Bool × World
  unfolding consume_one
  run_forever [] w = (true, w)
  run_forever ((seen, later, supply, raw) ∷ rest) w =
      let (going, w') = consume_one seen later supply raw w in
      let last = run_forever rest w' in if going then last else (false, w')
