-- ===== src/Live/Hub.antt =====
-- cloud/common/ws/detection_hub.py: the relay of one camera's detections from Redis to the sockets
-- that watch the camera. Redis and `json.loads` are parameters. A call under the hub's lock is one step;
-- a relay's turn awaits each send without the lock, so that it reads one hub and writes a later one.
pub mod Calls
pub mod Dying
pub mod Fanned
use factory_monitor.Base.{
  ℕ, String, Bool, true, false, not, Option, none, some, List, [], ◌∷◌, ◌++◌, ◌==◌, keep, elem, map,
  str_eq, if◌then◌else◌,
}

-- A dictionary with cameras as keys.
abbrev pub ByCamera : Type 0 → Type 0
ByCamera A = String → Option A

abbrev pub empty_dict : {A : Type 0} → ByCamera A
empty_dict camera_id = none

abbrev pub set_key : {A : Type 0} → String → Option A → ByCamera A → ByCamera A
set_key camera_id v d = λ k. if str_eq k camera_id then v else d k

-- A task that runs, or one that has ended: `task.done()`.
pub data RelayTask : Type 0 where
  running ended : RelayTask

-- A WebSocket is a number. `pubsubs` tells which cameras have a subscription.
pub record Hub : Type 0 where
  pub sockets : ByCamera (List ℕ)
  pub relay_tasks : ByCamera RelayTask
  pub pubsubs : ByCamera Unit

abbrev pub new_hub : Hub
new_hub = record { sockets = empty_dict; relay_tasks = empty_dict; pubsubs = empty_dict }

-- A set of sockets is a list without repetition; its order means nothing.
abbrev pub insert : ℕ → List ℕ → List ℕ
insert ws xs = if elem ws xs then xs else xs ++ (ws ∷ [])

abbrev pub discard : ℕ → List ℕ → List ℕ
discard ws xs = keep (λ x. not (x == ws)) xs

-- `self._sockets.get(camera_id, [])`
abbrev pub or_empty : Option (List ℕ) → List ℕ
or_empty none = []
or_empty (some xs) = xs

-- The start of a relay; when `subscribe` raises, so does `add`, and the hub stays without a relay.
unfoldable pub start_relay : Bool → String → Hub → Hub
start_relay is_subscribed camera_id hub =
    if is_subscribed
    then record hub {
      pubsubs = set_key camera_id (some tt) hub.pubsubs;
      relay_tasks = set_key camera_id (some RelayTask.running) hub.relay_tasks;
    }
    else hub

unfoldable pub add : Bool → String → ℕ → Hub → Hub
unfolding start_relay
add is_subscribed camera_id ws hub =
    let registered = record hub {
      sockets = set_key camera_id (some (insert ws (or_empty (hub.sockets camera_id)))) hub.sockets;
    } in
    elim (hub.relay_tasks camera_id) [
      | some task ↦ registered
      | none ↦ start_relay is_subscribed camera_id registered
    ]

-- The last subscriber of the camera is gone.
unfoldable pub tear_down : String → Hub → Hub
tear_down camera_id hub = record {
  sockets = set_key camera_id none hub.sockets;
  relay_tasks = set_key camera_id none hub.relay_tasks;
  pubsubs = set_key camera_id none hub.pubsubs;
}

-- A camera without sockets is torn down, whether it was registered or not.
unfoldable pub remove : String → ℕ → Hub → Hub
unfolding tear_down
remove camera_id ws hub = elim (hub.sockets camera_id) [
  | none ↦ tear_down camera_id hub
  | some xs ↦ elim (discard ws xs) [
    | [] ↦ tear_down camera_id hub
    | x ∷ rest ↦ record hub { sockets = set_key camera_id (some (x ∷ rest)) hub.sockets }
  ]
]

-- What `get_message` returns: no message in time, one of another type, or a payload.
pub data PubsubMessage : Type 0 where
  no_message other_type : PubsubMessage
  payload : String → PubsubMessage

-- The dead sockets are discarded from the camera's set, if it is still there.
unfoldable pub discard_dead : String → List ℕ → Hub → Hub
discard_dead camera_id dead hub = elim (hub.sockets camera_id) [
  | none ↦ hub
  | some xs ↦ record hub {
    sockets = set_key camera_id (some (keep (λ ws. not (elem ws dead)) xs)) hub.sockets;
  }
]

-- `json.loads`, or none when it raises.
module _ {Data : Type 0} (loads : String → Option Data) where
  -- A message to the sockets that the hub `seen` has for the camera when the relay lists them, in
  -- `order`, the iteration order of a Python set: what they get, and the hub after the sends, at the
  -- end of which other calls have led to `hub`. `is_sent` tells for which sockets the send succeeds.
  unfoldable pub fan_out :
      (List ℕ → List ℕ) → String → (ℕ → Bool) → Data → Hub → Hub → Hub × List (ℕ × Data)
  unfolding discard_dead
  fan_out order camera_id is_sent frame seen hub =
      let sockets = order (or_empty (seen.sockets camera_id)) in
      (
        discard_dead camera_id (keep (λ ws. not (is_sent ws)) sockets) hub,
        map (λ ws. (ws, frame)) (keep is_sent sockets),
      )

  -- One turn of `_relay`. A payload that is no JSON is skipped.
  unfoldable pub relay :
      (List ℕ → List ℕ) → String → (ℕ → Bool) → PubsubMessage → Hub → Hub → Hub × List (ℕ × Data)
  unfolding fan_out
  relay order camera_id is_sent no_message seen hub = (hub, [])
  relay order camera_id is_sent other_type seen hub = (hub, [])
  relay order camera_id is_sent (payload raw) seen hub = elim (loads raw) [
    | none ↦ (hub, [])
    | some frame ↦ fan_out order camera_id is_sent frame seen hub
  ]

-- Any other exception ends the task, which stays in `_relay_tasks`.
unfoldable pub end_task : String → Hub → Hub
end_task camera_id hub = elim (hub.relay_tasks camera_id) [
  | none ↦ hub
  | some task ↦ record hub {
    relay_tasks = set_key camera_id (some RelayTask.ended) hub.relay_tasks;
  }
]

-- `close`: every relay is cancelled and every subscription closed.
unfoldable pub close : Hub → Hub
close hub = record hub { relay_tasks = empty_dict; pubsubs = empty_dict }
