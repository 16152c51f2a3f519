-- ===== src/Notifier/Loop.antt =====
-- cloud/notifier_worker/relay.py: the loop of a relay around its passes.
use factory_monitor.Base.{ℕ, String, Bool, List, [], ◌∷◌, if◌then◌else◌}
use factory_monitor.Store.Incident.{Uuid, Time}
use factory_monitor.Store.Rows.{Outbox}
use factory_monitor.Store.Db.{Db}
use factory_monitor.Notifier.Provider.{Provider}
use factory_monitor.Notifier.Relay.{RelayEnv, run_once}

-- A turn of the loop: a pass, or the exception of its claim; the order in which the claim returned its
-- rows; and what other transactions commit
-- after it.
pub record RelayTurn : Type 0 where
  pub is_failing : Bool
  pub order : List Outbox → List Outbox
  pub locked : Uuid → Bool
  pub at : Time
  pub env : RelayEnv
  pub meanwhile : Db → Db

-- `run_forever` for some turns. A pass that ends with an exception has settled the rows before it.
unfoldable pub relay_forever : List Provider → String → ℕ → ℕ → ℕ → List RelayTurn → Db → Db
unfolding run_once
relay_forever chain worker lease batch base [] db = db
relay_forever chain worker lease batch base (t ∷ ts) db =
    if t.is_failing
    then relay_forever chain worker lease batch base ts (t.meanwhile db)
    else (let (count, finished, passed) =
          run_once chain t.order worker lease batch base t.locked t.at t.env db in
        relay_forever chain worker lease batch base ts (t.meanwhile passed))
