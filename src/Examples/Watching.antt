-- ===== src/Examples/Watching.antt =====
-- Witnesses and tests for the edge's detector, engine and sinks.
use factory_monitor.Base.{
  ℕ, ◌≡◌, ◌≤◌, refl, String, Bool, true, false, ◌⊎◌, Option, none, some, List, [], ◌∷◌, ◌++◌,
  length, All, if◌then◌else◌, pos, arith, str_eq, ◌==◌,
}
use factory_monitor.Base.Integer.{to_text}
use factory_monitor.Base.Outcome.{Outcome, ok, err}
use factory_monitor.Ingest.Anomaly.{ObjectClass}
use factory_monitor.Ingest.Anomaly.{AnomalyEvent}
use factory_monitor.Store.Incident.{Uuid}
use factory_monitor.Store.Db.{Db, find, event_seen, open_with_key}
use factory_monitor.Escalation.Config.{resolve}
use factory_monitor.Ingest.Rows.{with_rows}
use factory_monitor.Ingest.Once.{fresh_rows}
use factory_monitor.System.Alarms.{one_alarm_a_bucket}
use factory_monitor.Examples.{supply, later_supply}
use factory_monitor.Examples.Ingesting.{start as start_db, supply-IsFree}
use factory_monitor.Ingest.Service.{refused, made, Reason, create_incident_from_anomaly}
use factory_monitor.Edge.Debounce.{observe_track, state_of, set_state, violations}
use factory_monitor.Edge.Sink.{Sink, SinkMessage, put_or_drop, drain_get, drain_send, new_sink}
use factory_monitor.Edge.Sink.Order.{SinkCall, traced_calls, start, queue_bounded}
use factory_monitor.Edge.Detector.{Detection, RawBox, contains, xyxy_to_xywh, detect}
use factory_monitor.Edge.Detector.Attachment.{name_boxes, detect_lem}
use factory_monitor.Edge.Zones.{ZoneKind, ZoneConfig, CameraConfig}
use factory_monitor.Edge.Anomalies.{build_anomaly_event}
use factory_monitor.Edge.Payloads.{Tracked}
use factory_monitor.Edge.Engine.{
  Surroundings, EngineConfig, EngineState, Frame, run_from, new_engine,
}
use factory_monitor.Edge.Engine.Sightings.{IsSighted, published-IsSighted}

text_of_1203 : to_text 1203 ≡ "1203"
unfolding to_text
text_of_1203 = refl

abbrev some_calls : List (SinkCall ℕ)
some_calls =
    SinkCall.puts 1
    ∷ SinkCall.puts 2
    ∷ SinkCall.puts 3
    ∷ SinkCall.gets
    ∷ SinkCall.sends false
    ∷ SinkCall.puts 4
    ∷ SinkCall.gets
    ∷ []

queue_bounded_example :
    (length (traced_calls some_calls (start 2)).sink.queue ≤ 2)
    × ((traced_calls some_calls (start 2)).taken ++ (traced_calls some_calls (start 2)).sink.queue
        ≡ (traced_calls some_calls (start 2)).accepted)
queue_bounded_example = queue_bounded 2 some_calls (omega arith)

third_dropped : (traced_calls some_calls (start 2)).accepted ≡ 1 ∷ 2 ∷ 4 ∷ []
unfolding put_or_drop drain_get drain_send
third_dropped = refl

-- A person whose head is bare, and a forklift that is not sure enough.
abbrev names : ℕ → Option String
names i = if i == 0 then some "person" else if i == 1 then some "head" else some "forklift"

abbrev raw_boxes : List RawBox
raw_boxes =
    record { cls = 0; conf = "0.9"; x1 = pos 10; y1 = pos 10; x2 = pos 30; y2 = pos 70 }
    ∷ record { cls = 1; conf = "0.8"; x1 = pos 15; y1 = pos 10; x2 = pos 25; y2 = pos 20 }
    ∷ record { cls = 2; conf = "0.1"; x1 = pos 0; y1 = pos 0; x2 = pos 5; y2 = pos 5 }
    ∷ []

abbrev is_sure : String → Bool
is_sure conf = str_eq conf "0.9"

abbrev is_rather_sure : String → Bool
is_rather_sure conf = str_eq conf "0.8"

abbrev worker : Detection
worker = record {
  object_class = ObjectClass.person;
  bbox = record { x = pos 10; y = pos 10; w = pos 20; h = pos 60 };
  confidence = "0.9";
  no_hardhat = true;
}

detect_lem_example : detect is_sure is_rather_sure names raw_boxes ≡ ok (worker ∷ [])
unfolding name_boxes contains xyxy_to_xywh
detect_lem_example = detect_lem is_sure is_rather_sure names raw_boxes

abbrev press_zone : ZoneConfig
press_zone = record {
  zone_id = "press";
  kind = ZoneKind.required_ppe;
  polygon = (pos 0, pos 0) ∷ (pos 100, pos 0) ∷ (pos 100, pos 100) ∷ [];
}

abbrev camera : CameraConfig
camera = record {
  camera_id = "cam1";
  site_id = "hosur";
  rtsp_url = "rtsp";
  zones = press_zone ∷ [];
}

abbrev tracked_of : List Detection → Tracked
tracked_of [] = []
tracked_of (d ∷ ds) = (4, d) ∷ []

-- A model that finds the worker in the image `true`, a tracker that gives him the id 4, and a zone
-- that covers every point.
abbrev around : Surroundings Bool ℕ
around = record {
  find_objects = λ image. ok (if image then worker ∷ [] else []);
  update = λ t ds. (t, tracked_of ds);
  covers_point = λ polygon point. true;
  publish = λ key event. ok tt;
  event_ids = to_text;
  dump_detections = λ payload. "{}";
  dump_heatmap = λ payload. "{}";
}

abbrev engine : EngineConfig
engine = record {
  cfg = camera;
  debounce = record { window = 3; m_of_n = 2; clear_consecutive = 2 };
  emit_detections = true;
  emit_interval = 10;
  emit_heatmap = true;
  heatmap_min_interval = 100;
}

abbrev frame_at : ℕ → Frame Bool
frame_at t = record {
  image = true;
  frame_w = 640;
  frame_h = 480;
  emit_mono = t;
  heatmap_mono = t;
  wall = t;
  heatmap_clock = t;
  clock = λ n. t;
}

abbrev sink : Option (Sink SinkMessage)
sink = some (new_sink 200)

abbrev frames : List (Frame Bool)
frames = frame_at 60000000 ∷ frame_at 61000000 ∷ []

abbrev fresh_engine : EngineState ℕ
fresh_engine = new_engine around engine 0 sink sink

abbrev after_run : Outcome (EngineState ℕ) → EngineState ℕ
after_run (ok st) = st
after_run (err e) = fresh_engine

abbrev last_state : EngineState ℕ
last_state = after_run (run_from around engine none 0 frames fresh_engine)

one_published : last_state.published ≡ 1
unfolding run_from new_engine state_of set_state observe_track violations to_text
one_published = refl

published-IsSighted_example :
    (st : EngineState ℕ) × (run_from around engine none 0 frames fresh_engine ≡ ok st)
    × All (IsSighted around engine) st.emitted
    × (st.published ≡ length st.emitted)
published-IsSighted_example =
    published-IsSighted around engine none frames 0 sink sink (λ image. (_, refl))
      (λ key event. refl) (omega arith)

-- The identifiers of these events are single digits.
abbrev parse_event_id : String → Option Uuid
parse_event_id s = if str_eq s "7" then some 7 else if str_eq s "8" then some 8 else none

abbrev first_alarm : AnomalyEvent
first_alarm = build_anomaly_event camera "press" worker "cam1:4" 60000000 "7"

abbrev alarmed : Db
alarmed = with_rows start_db first_alarm 7 60 (some resolve) supply

alarm_created :
    create_incident_from_anomaly parse_event_id start_db start_db start_db first_alarm 60
      (some resolve)
      supply
    ≡ ok (made 100, alarmed)
unfolding build_anomaly_event find event_seen open_with_key
alarm_created =
    fresh_rows parse_event_id start_db start_db start_db first_alarm 7 refl 60 (some resolve) supply
      refl refl refl refl refl supply-IsFree

one_alarm_a_bucket_example :
    (create_incident_from_anomaly parse_event_id start_db alarmed alarmed
        (build_anomaly_event camera "gate" worker "cam1:4" 61000000 "8")
        60
        (some resolve)
        later_supply
      ≡ ok (refused Reason.duplicate_event_id, alarmed))
    ⊎ (create_incident_from_anomaly parse_event_id start_db alarmed alarmed
          (build_anomaly_event camera "gate" worker "cam1:4" 61000000 "8")
          60
          (some resolve)
          later_supply
        ≡ ok (refused Reason.duplicate_open_dedup, alarmed))
one_alarm_a_bucket_example =
    one_alarm_a_bucket parse_event_id 60 (some resolve) camera "cam1:4" "press" "gate" "7" "8"
      worker worker 60000000 61000000 7 8 start_db start_db start_db alarmed start_db alarmed
      alarmed supply later_supply (made 100) refl refl refl alarm_created refl (λ h. h) (λ h. h)
