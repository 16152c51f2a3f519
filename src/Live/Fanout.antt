-- ===== src/Live/Fanout.antt =====
-- cloud/common/ws/fanout.py with the loops of ws/subscriber.py and ws/fallback.py: Redis while it
-- answers, polls of the table while it does not. What happens in the meantime (messages, the rows
-- that a poll finds, the answers of Redis) is a list of rounds.
pub mod Windows
use factory_monitor.Base.{
  ℕ, ◌-◌, ◌^◌, Bool, true, false, Option, none, some, List, [], ◌∷◌, ◌++◌, map,
}
use factory_monitor.Store.Incident.{Time, Incident}
use factory_monitor.Live.View.{WsType, IncidentView}
use factory_monitor.Live.Manager.{Connection, broadcast}
use factory_monitor.Live.Broadcaster.{ChangeData}
use factory_monitor.Live.Fallback.{Cursor, poll_changes_once}
use factory_monitor.Live.Publication.{Texts, handle_raw}

-- What a broadcast is about.
abbrev pub Broadcast : Type 0
Broadcast = WsType × ChangeData

-- A turn of the subscriber's loop: a payload, or nothing to handle.
pub record Arrival (Raw : Type 0) : Type 0 where
  pub raw : Option Raw
  pub takes : ℕ → Bool
  pub rows : List Incident

abbrev listed : Option Broadcast → List Broadcast
listed none = []
listed (some m) = m ∷ []

-- `RedisFanoutSubscriber.run` until it is stopped or its task raises.
unfoldable pub run_subscriber :
    {Raw : Type 0}
    → Texts Raw
    → List (Arrival Raw)
    → List Connection
    → List Broadcast × List Connection
unfolding handle_raw
run_subscriber texts [] conns = ([], conns)
run_subscriber texts (a ∷ later) conns = elim a.raw [
  | none ↦ run_subscriber texts later conns
  | some raw ↦
      let (returned, message, rest) = handle_raw texts a.takes a.rows conns raw in
      let (messages, last) = run_subscriber texts later rest in (listed message ++ messages, last)
]

-- A poll of the fallback: the rows of the table, or an error of the database.
pub record PollTurn : Type 0 where
  pub rows : Option (List Incident)
  pub takes : ℕ → Bool

abbrev pub max_uuid : ℕ
max_uuid = 2 ^ 128 - 1

-- The cursor with which `PostgresPollFallback.run` begins.
abbrev pub cursor_at : Time → Cursor
cursor_at now = record { since = now; since_id = max_uuid }

abbrev pub broadcast_views : (ℕ → Bool) → List IncidentView → List Connection → List Connection
broadcast_views takes [] conns = conns
broadcast_views takes (v ∷ vs) conns = broadcast_views takes vs (broadcast takes conns).1

-- The loop of `PostgresPollFallback.run`: an error leaves the cursor. It returns the views that it
-- has broadcast as updates.
unfoldable pub run_polls :
    ℕ → List PollTurn → Cursor → List Connection → List IncidentView × List Connection
unfolding poll_changes_once broadcast
run_polls batch [] c conns = ([], conns)
run_polls batch (p ∷ ps) c conns = elim p.rows [
  | none ↦ run_polls batch ps c conns
  | some rows ↦
      let poll = poll_changes_once c batch rows in
      let (views, last) =
        run_polls batch ps poll.cursor (broadcast_views p.takes poll.broadcasts conns) in
      (poll.broadcasts ++ views, last)
]

unfoldable pub run_fallback :
    ℕ → Time → List PollTurn → List Connection → List IncidentView × List Connection
unfolding run_polls
run_fallback batch now ps conns = run_polls batch ps (cursor_at now) conns

-- A round of the supervisor: Redis answers, and the subscriber runs until it ends; or it does not,
-- and a fallback with a cursor of its own runs for a window from a time on.
pub data Round (Raw : Type 0) : Type 0 where
  healthy : List (Arrival Raw) → Round Raw
  unhealthy : Time → List PollTurn → Round Raw

-- `FanoutSupervisor.run`, until it is stopped.
unfoldable pub supervise :
    {Raw : Type 0}
    → Texts Raw
    → ℕ
    → List (Round Raw)
    → List Connection
    → List Broadcast × List Connection
unfolding run_subscriber run_fallback
supervise texts batch [] conns = ([], conns)
supervise texts batch (Round.healthy arrivals ∷ rounds) conns =
    let (sent, next) = run_subscriber texts arrivals conns in
    let (messages, last) = supervise texts batch rounds next in (sent ++ messages, last)
supervise texts batch (Round.unhealthy now ps ∷ rounds) conns =
    let (views, next) = run_fallback batch now ps conns in
    let (messages, last) = supervise texts batch rounds next in
    (map (λ v. (WsType.incident_updated, ChangeData.whole v)) views ++ messages, last)
