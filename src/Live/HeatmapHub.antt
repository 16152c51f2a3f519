-- ===== src/Live/HeatmapHub.antt =====
-- cloud/common/ws/heatmap_hub.py: the relay of the heatmap ticks from Redis to every socket that
-- watches them. A call under the hub's lock is one step; a relay's turn awaits each
-- send without the lock, so that it reads one hub and writes a later one.
use factory_monitor.Base.{
  ℕ, String, ◌≡◌, refl, Bool, true, false, Option, none, some, List, [], ◌∷◌, keep, map, elem, not,
  inl, inr, Option-cases, if◌then◌else◌,
}
use factory_monitor.Live.Hub.{RelayTask, insert, discard, PubsubMessage}

-- `has_pubsub`: `_pubsub` is not None.
pub record HeatmapHub : Type 0 where
  pub sockets : List ℕ
  pub relay_task : Option RelayTask
  pub has_pubsub : Bool

abbrev pub new_heatmap_hub : HeatmapHub
new_heatmap_hub = record { sockets = []; relay_task = none; has_pubsub = false }

-- `_start_relay`; when `subscribe` raises, the new pubsub stays and there is no task.
unfoldable pub start : Bool → HeatmapHub → HeatmapHub
start is_subscribed hub =
    if is_subscribed
    then record hub { has_pubsub = true; relay_task = some RelayTask.running }
    else record hub { has_pubsub = true }

-- `_stop_relay`: a task that has ended by itself stays where it is.
unfoldable pub stop : HeatmapHub → HeatmapHub
stop hub = elim hub.relay_task [
  | some RelayTask.running ↦ record hub { relay_task = none; has_pubsub = false }
  | _ ↦ record hub { has_pubsub = false }
]

unfoldable pub register : Bool → ℕ → HeatmapHub → HeatmapHub
unfolding start
register is_subscribed ws hub =
    let registered = record hub { sockets = insert ws hub.sockets } in
    elim hub.relay_task [ some RelayTask.running ↦ registered | _ ↦ start is_subscribed registered ]

unfoldable pub deregister : ℕ → HeatmapHub → HeatmapHub
unfolding stop
deregister ws hub = elim (discard ws hub.sockets) [
  | [] ↦ stop (record hub { sockets = [] })
  | x ∷ rest ↦ record hub { sockets = x ∷ rest }
]

-- `close`
unfoldable pub shut_down : HeatmapHub → HeatmapHub
unfolding stop
shut_down hub = stop hub

-- One turn of `_relay_loop`, and what the sockets get: those that the hub `seen` has when the relay
-- lists them, in `order`, the iteration order of a Python set; other calls have led to `hub` by the
-- end of the sends.
unfoldable pub relay_tick :
    {Tick : Type 0}
    → (String → Option Tick)
    → (List ℕ → List ℕ)
    → (ℕ → Bool)
    → PubsubMessage
    → HeatmapHub
    → HeatmapHub
    → HeatmapHub × List (ℕ × Tick)
relay_tick loads order is_sent PubsubMessage.no_message seen hub = (hub, [])
relay_tick loads order is_sent PubsubMessage.other_type seen hub = (hub, [])
relay_tick loads order is_sent (PubsubMessage.payload raw) seen hub = elim (loads raw) [
  | none ↦ (hub, [])
  | some tick ↦
      let listed = order seen.sockets in
      let dead = keep (λ ws. not (is_sent ws)) listed in
      (
        record hub { sockets = keep (λ ws. not (elem ws dead)) hub.sockets },
        map (λ ws. (ws, tick)) (keep is_sent listed),
      )
]

-- After a registration whose subscription succeeds a relay runs, also where one has ended before.
pub register_relays :
    (ws : ℕ) (hub : HeatmapHub) → (register true ws hub).relay_task ≡ some RelayTask.running
unfolding register start
register_relays ws hub = elim (Option-cases hub.relay_task) [
  | inl e ↦ rw (e, register) refl
  | inr (RelayTask.running, e) ↦ rw (e, register) e
  | inr (RelayTask.ended, e) ↦ rw (e, register) refl
]
