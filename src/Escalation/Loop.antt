-- ===== src/Escalation/Loop.antt =====
-- cloud/escalation_worker/worker.py: the loop of a worker around its polls, and the publication of
-- what a poll has fired.
use factory_monitor.Base.{ℕ, String, Bool, Option, none, some, List, [], ◌∷◌, ◌++◌, if◌then◌else◌}
use factory_monitor.Store.Incident.{Uuid, Time}
use factory_monitor.Store.Db.{Db}
use factory_monitor.Escalation.Worker.{PollEnv, poll_once_ids}
use factory_monitor.Live.Publication.{Texts, Change, incident_change}

module _ {Raw : Type 0} (texts : Texts Raw) where
  abbrev pub fired_change : Uuid → Change
  fired_change i = incident_change texts "incident.tier_advanced" i []

  abbrev each_fired : (Change → Bool) → List Uuid → List Change
  each_fired publish [] = []
  each_fired publish (i ∷ is) =
      if publish (fired_change i)
      then fired_change i ∷ each_fired publish is
      else each_fired publish is

  -- `_publish_fired`: the changes that were published; a call that raises is passed over. The
  -- publisher is none, or whether a call of it returns.
  unfoldable pub publish_fired : Option (Change → Bool) → List Uuid → List Change
  unfolding incident_change
  publish_fired none ids = []
  publish_fired (some publish) ids = each_fired publish ids

  -- A turn of the loop: the poll, or the exception of its claim; the order in which the
  -- claim returned its rows; and what other transactions commit during the poll and after it.
  pub record WorkerTurn : Type 0 where
    pub is_failing : Bool
    pub order : List Uuid → List Uuid
    pub locked : Uuid → Bool
    pub at : Time
    pub env : PollEnv
    pub between : Db → Db
    pub meanwhile : Db → Db

  -- `run_until_stopped`: the database and the changes that were published. An exception is logged,
  -- and the loop goes on.
  unfoldable pub run_until_stopped :
      Option (Change → Bool) → String → ℕ → ℕ → List WorkerTurn → Db → Db × List Change
  unfolding poll_once_ids publish_fired
  run_until_stopped publisher worker lease batch [] db = (db, [])
  run_until_stopped publisher worker lease batch (t ∷ ts) db =
      if t.is_failing
      then run_until_stopped publisher worker lease batch ts (t.meanwhile db)
      else (let (fired, polled) =
            poll_once_ids t.order worker lease batch t.locked t.at t.env t.between db in
          let (last, later) =
            run_until_stopped publisher worker lease batch ts (t.meanwhile polled) in
          (last, publish_fired publisher fired ++ later))
