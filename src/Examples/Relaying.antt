-- ===== src/Examples/Relaying.antt =====
-- Witnesses for the live fan-out: the hubs and the publication of changes.
use factory_monitor.Base.{
  ℕ, ◌≡◌, refl, String, Bool, true, not, ◌&&◌, elem, Option, none, some, List, [], ◌∷◌, ◌==◌,
  str_eq, ltb, if◌then◌else◌,
}
use factory_monitor.Base.Integer.{to_text}
use factory_monitor.Store.Incident.{Uuid, Incident}
use factory_monitor.Store.Db.{find}
use factory_monitor.Ingest.Service.{new_incident}
use factory_monitor.Live.Manager.{connect, broadcast}
use factory_monitor.Live.Broadcaster.{ws_type_of, build_data}
use factory_monitor.Live.Hub.{
  Hub, set_key, PubsubMessage, new_hub, end_task, add, start_relay, discard_dead, fan_out,
}
use factory_monitor.Live.Hub.Calls.{HubCall, hub_call, hub_calls}
use factory_monitor.Live.Hub.Fanned.{watchers, reached, fan_out_lem}
use factory_monitor.Live.Hub.Dying.{ended_relay_sends_nothing}
use factory_monitor.Live.Publication.{
  JsonValue, Field, Wire, Texts, wire_hints, incident_change, publish_incident_event, handle_raw,
  published_change_broadcast,
}
use factory_monitor.Examples.{event, clocks_at}

abbrev loads : String → Option String
loads raw = if str_eq raw "?" then none else some raw

abbrev all_sent : ℕ → Bool
all_sent ws = true

abbrev as_listed : List ℕ → List ℕ
as_listed xs = xs

abbrev watched : Hub
watched = (hub_calls loads (HubCall.adds "cam1" 1 ∷ HubCall.adds "cam1" 2 ∷ []) new_hub).0

-- A third socket comes while a frame is sent to the two.
abbrev joined : Hub
joined = (hub_call loads (HubCall.adds "cam1" 3) watched).0

fan_out_lem_example :
    (elem 2 (reached loads (fan_out loads as_listed "cam1" (λ ws. ws == 2) "a" watched joined).1)
      ≡ (elem 2 (watchers watched "cam1") && true))
    × (elem 2
          (watchers (fan_out loads as_listed "cam1" (λ ws. ws == 2) "a" watched joined).0 "cam1")
        ≡ (elem 2 (watchers joined "cam1") && not (elem 2 (watchers watched "cam1") && not true)))
    × (watchers (fan_out loads as_listed "cam1" (λ ws. ws == 2) "a" watched joined).0 "cam2"
        ≡ watchers joined "cam2")
fan_out_lem_example =
    fan_out_lem loads as_listed "cam1" (λ ws. ws == 2) "a" watched joined 2 "cam2" refl
      (λ x xs. refl)

frame_sent :
    fan_out loads as_listed "cam1" (λ ws. ws == 2) "a" watched joined
    ≡ (record joined { sockets = set_key "cam1" (some (2 ∷ 3 ∷ [])) joined.sockets }, (2, "a") ∷ [])
unfolding add start_relay fan_out discard_dead
frame_sent = refl

abbrev later_calls : List HubCall
later_calls = HubCall.adds "cam1" 2 ∷ HubCall.removes "cam2" 5 ∷ []

ended_relay_sends_nothing_example :
    (hub_call loads
      (HubCall.arrives watched as_listed "cam1" all_sent (PubsubMessage.payload "c"))
      (hub_calls loads later_calls (end_task "cam1" watched)).0).1
    ≡ []
unfolding add start_relay
ended_relay_sends_nothing_example =
    ended_relay_sends_nothing loads watched watched as_listed "cam1" later_calls all_sent
      (PubsubMessage.payload "c") refl (refl, (refl, tt))

abbrev pub read_id : String → Option Uuid
read_id s = if str_eq s "3" then some 3 else none

abbrev pub text_of : JsonValue → String
text_of (JsonValue.text s) = s
text_of _ = ""

-- Dictionaries that stand for their texts.
abbrev pub texts : Texts Wire
texts = record {
  dumps = λ d. d;
  loads = λ d. some d;
  uuid_text = to_text;
  parse_uuid = read_id;
  isoformat = to_text;
  value_text = text_of;
}

abbrev inc : Incident
inc = new_incident 3 event 60 (clocks_at 5)

published_change_broadcast_example :
    (raw : Wire) × (publish_incident_event texts
        (some (λ raw. true))
        (incident_change texts "incident.resolved" 3 (("resolved_at", Field.time 7) ∷ []))
      ≡ (true, some raw))
    × (handle_raw texts all_sent (inc ∷ []) (connect 1 []) raw ≡ (
      ltb 0 (broadcast all_sent (connect 1 [])).0,
      some (ws_type_of "incident.resolved", build_data "incident.resolved" inc),
      (broadcast all_sent (connect 1 [])).1,
    ))
unfolding wire_hints find to_text new_incident
published_change_broadcast_example =
    published_change_broadcast texts (λ d. refl) (λ raw. true) "incident.resolved" 3
      (("resolved_at", Field.time 7) ∷ []) all_sent (inc ∷ []) (connect 1 []) inc refl (λ raw. refl)
      (_, refl) refl
