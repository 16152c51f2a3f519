-- ===== src/Live/Socket.antt =====
-- cloud/api/ws.py: one client of the live view, from its connection to its end. The periods are Python
-- floats: their sum, their minimum and the comparison `elapsed + 1e-9 >= next` are parameters.
use factory_monitor.Base.{
  ℕ, String, Bool, true, false, Option, none, some, List, [], ◌∷◌, ◌++◌, keep, map, leb,
  if◌then◌else◌,
}
use factory_monitor.Base.Sorting.{sort_by}
use factory_monitor.Store.Incident.{Uuid, Time, IncidentStatus, Incident}
use factory_monitor.Live.View.{IncidentView, build_incident_view}
use factory_monitor.Live.Manager.{Connection, connect, disconnect, subscribe, send}

-- `_ACTIVE_STATUSES`
abbrev pub is_shown : IncidentStatus → Bool
is_shown IncidentStatus.ack = false
is_shown IncidentStatus.resolved = false
is_shown _ = true

unfoldable pub newest_first : Incident → Incident → Bool
newest_first a b = leb b.created_at a.created_at

unfoldable pub get_active_incident_views : List Incident → List IncidentView
unfolding newest_first build_incident_view
get_active_incident_views rows =
    map build_incident_view (sort_by newest_first (keep (λ inc. is_shown inc.status) rows))

pub record TimerRow : Type 0 where
  pub incident_id : Uuid
  pub deadline_at : Option Time
  pub current_tier : ℕ

unfoldable pub timer_rows : List Incident → List TimerRow
unfolding get_active_incident_views
timer_rows rows =
    map
      (λ (v : IncidentView). record {
        incident_id = v.incident_id;
        deadline_at = v.deadline_at;
        current_tier = v.current_tier;
      })
      (get_active_incident_views rows)

-- What a client sends: a subscription, whose `last_seq` is none where `int` raises, anything else, or
-- its end.
pub data ClientMessage : Type 0 where
  subscribes : List String → Option ℕ → ClientMessage
  other_message client_gone : ClientMessage

-- What a socket is sent.
pub data Sent : Type 0 where
  snapshot : List IncidentView → Sent
  heartbeat : Sent
  timers : List TimerRow → Sent

-- A loop goes on with the registry after it, or it has raised.
abbrev pub Going : Type 0
Going = Bool × List Connection × List Sent

-- `mgr.send`, which raises where the socket does not take the envelope.
unfoldable pub send_to : ℕ → Bool → Sent → List Connection → Going
unfolding send
send_to i takes m conns =
    let (is_sent, next) = send i takes conns in (is_sent, next, if is_sent then m ∷ [] else [])

-- One turn of `_receive_loop`.
unfoldable pub receive : ℕ → Bool → ClientMessage → List Connection → Going
unfolding send_to subscribe
receive i takes (ClientMessage.subscribes topics none) conns = (false, conns, [])
receive i takes (ClientMessage.subscribes topics (some last_seq)) conns =
    send_to i takes Sent.heartbeat (subscribe i topics last_seq conns)
receive i takes ClientMessage.other_message conns = (true, conns, [])
receive i takes ClientMessage.client_gone conns = (false, conns, [])

-- A turn of one of the two tasks of a connection, with what its socket takes and the table then.
pub data SocketTurn : Type 0 where
  message : Bool → ClientMessage → SocketTurn
  tick : Bool → Bool → List Incident → SocketTurn

-- The variables of `_broadcast_loop`.
pub record Beat (Float : Type 0) : Type 0 where
  pub next_hb : Float
  pub next_timer : Float
  pub elapsed : Float

-- `reaches elapsed next` is the comparison with its tolerance.
module _ {Float : Type 0} (zero_s : Float) (plus min_of : Float → Float → Float)
    (reaches : Float → Float → Bool) (heartbeat_s timer_s : Float) where
  abbrev pub first_beat : Beat Float
  first_beat = record { next_hb = heartbeat_s; next_timer = timer_s; elapsed = zero_s }

  -- The arithmetic of one turn: whether a heartbeat and whether a timer snapshot is due, and the
  -- variables after them.
  unfoldable pub turn_beat : Beat Float → Bool × Bool × Beat Float
  turn_beat b =
      let elapsed = plus b.elapsed (min_of heartbeat_s timer_s) in
      (
        reaches elapsed b.next_hb,
        reaches elapsed b.next_timer,
        record {
          next_hb = if reaches elapsed b.next_hb then plus b.next_hb heartbeat_s else b.next_hb;
          next_timer =
              if reaches elapsed b.next_timer then plus b.next_timer timer_s else b.next_timer;
          elapsed = elapsed;
        },
      )

  abbrev and_then : Going → (List Connection → Going) → Going
  and_then (false, conns, sent) f = (false, conns, sent)
  and_then (true, conns, sent) f =
      let (is_going, next, more) = f conns in (is_going, next, sent ++ more)

  abbrev send_if : Bool → ℕ → Bool → Sent → List Connection → Going
  send_if false i takes m conns = (true, conns, [])
  send_if true i takes m conns = send_to i takes m conns

  -- One turn of `_broadcast_loop`: the two sends in their order; `rows` is the table then.
  unfoldable pub broadcast_turn :
      ℕ → Bool → Bool → List Incident → Beat Float → List Connection → Going × Beat Float
  unfolding turn_beat send_to timer_rows
  broadcast_turn i takes_hb takes_timers rows b conns =
      let (hb_due, timer_due, next) = turn_beat b in
      (
        and_then (send_if hb_due i takes_hb Sent.heartbeat conns)
            (send_if timer_due i takes_timers (Sent.timers (timer_rows rows))),
        next,
      )

  -- The two tasks of `ws_live` until one of them has ended.
  unfoldable pub serve :
      ℕ → List SocketTurn → Beat Float → List Connection → List Connection × List Sent
  unfolding receive broadcast_turn
  serve i [] b conns = (conns, [])
  serve i (SocketTurn.message takes m ∷ turns) b conns =
      let (is_going, next, sent) = receive i takes m conns in
      let (last, more) = serve i turns b next in
      if is_going then (last, sent ++ more) else (next, sent)
  serve i (SocketTurn.tick takes_hb takes_timers rows ∷ turns) b conns =
      let ((is_going, next, sent), beat) = broadcast_turn i takes_hb takes_timers rows b conns in
      let (last, more) = serve i turns beat next in
      if is_going then (last, sent ++ more) else (next, sent)

  -- `ws_live`: the connection gets a snapshot of the active incidents, is served, and is taken out of
  -- the registry in every case.
  unfoldable pub ws_live :
      ℕ → Bool → List Incident → List SocketTurn → List Connection → List Connection × List Sent
  unfolding connect disconnect send_to get_active_incident_views serve
  ws_live i takes rows turns conns =
      let (is_going, next, sent) =
        send_to i takes (Sent.snapshot (get_active_incident_views rows)) (connect i conns) in
      let (last, more) = serve i turns first_beat next in
      if is_going then (disconnect i last, sent ++ more) else (disconnect i next, sent)
