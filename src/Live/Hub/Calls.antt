-- ===== src/Live/Hub/Calls.antt =====
-- Sequences of the calls of the detection hub (cloud/common/ws/detection_hub.py) and of the messages
-- that Redis delivers to its relays.
use factory_monitor.Base.{ℕ, String, Bool, true, Option, some, List, [], ◌∷◌, ◌++◌}
use factory_monitor.Live.Hub.{RelayTask, Hub, add, remove, PubsubMessage, relay}

-- The calls of the hub's clients, and the turns of its relays, each with the hub that it listed its
-- sockets from and their order, while the subscriptions to Redis succeed.
pub data HubCall : Type 0 where
  adds removes : String → ℕ → HubCall
  arrives : Hub → (List ℕ → List ℕ) → String → (ℕ → Bool) → PubsubMessage → HubCall

module _ {Data : Type 0} (loads : String → Option Data) where
  -- A message is relayed by a running task, and by nothing else.
  abbrev pub relayed :
      Option RelayTask
      → Hub
      → (List ℕ → List ℕ)
      → String
      → (ℕ → Bool)
      → PubsubMessage
      → Hub
      → Hub × List (ℕ × Data)
  relayed (some RelayTask.running) seen order camera_id is_sent m hub =
      relay loads order camera_id is_sent m seen hub
  relayed _ seen order camera_id is_sent m hub = (hub, [])

  abbrev pub hub_call : HubCall → Hub → Hub × List (ℕ × Data)
  hub_call (adds camera_id ws) hub = (add true camera_id ws hub, [])
  hub_call (removes camera_id ws) hub = (remove camera_id ws hub, [])
  hub_call (arrives seen order camera_id is_sent m) hub =
      relayed (hub.relay_tasks camera_id) seen order camera_id is_sent m hub

  abbrev pub hub_calls : List HubCall → Hub → Hub × List (ℕ × Data)
  hub_calls [] hub = (hub, [])
  hub_calls (c ∷ cs) hub =
      let (next, sent) = hub_call c hub in
      let (last, later) = hub_calls cs next in (last, sent ++ later)
