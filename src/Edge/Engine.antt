-- ===== src/Edge/Engine.antt =====
-- edge/vision/engine.py: one camera's loop over its frames, and the anomaly that it publishes. The
-- detector, the tracker, the publisher, shapely, the clocks and `uuid4` are parameters.
pub mod Totality
pub mod Sightings
use factory_monitor.Base.{
  ℕ, zero, suc, ◌+◌, ◌/◌, ◌≡◌, String, Bool, true, false, ◌&&◌, Option, none, some, List, [], ◌∷◌,
  ◌++◌, leb, str_eq, ℤ, pos, ◌+ℤ◌, ◌-ℤ◌, leb_ℤ, keep, any, map, is_some, to_text, if◌then◌else◌,
}
use Prim.Native.String.{◌++◌ as text_append}
use factory_monitor.Base.Outcome.{Outcome, Error, ok, err, ◌>>=◌}
use factory_monitor.Store.Incident.{Time, seconds, AnomalyType}
use factory_monitor.Ingest.Anomaly.{AnomalyEvent, Severity, ObjectClass, Source, class_value}
use factory_monitor.Edge.Debounce.{
  DebounceConfig, DebounceTransition, DebounceEvent, Entry, observe,
}
use factory_monitor.Edge.Detector.{Box, Detection}
use factory_monitor.Edge.Sink.{Sink, SinkMessage, publish_detections, publish_heatmap}
use factory_monitor.Edge.Zones.{ZoneKind, ZoneConfig, CameraConfig}
use factory_monitor.Edge.Anomalies.{
  bbox_anchor, is_person_class, rule_name, joined_by, dedup_key_of, build_anomaly_event, track_text,
}
use factory_monitor.Edge.Payloads.{
  Tracked, PayloadBox, DetectionPayload, Cell, HeatmapPayload, payload_box, zero_cell, zero_cells,
  count_in,
}

-- The engine's settings; `emit_interval` is `1.0 / detection_max_fps`, and a monotonic time is a
-- number of ticks of its clock.
pub record EngineConfig : Type 0 where
  pub cfg : CameraConfig
  pub debounce : DebounceConfig
  pub emit_detections : Bool
  pub emit_interval : ℕ
  pub emit_heatmap : Bool
  pub heatmap_min_interval : ℕ

-- A frame, with the readings of the clocks while it is processed: `clock` by the number of the
-- anomalies published before.
pub record Frame (Image : Type 0) : Type 0 where
  pub image : Image
  pub frame_w : ℕ
  pub frame_h : ℕ
  pub emit_mono : ℕ
  pub heatmap_mono : ℕ
  pub wall : Time
  pub heatmap_clock : Time
  pub clock : ℕ → Time

-- A published anomaly beside the detections of its frame.
pub record Emission : Type 0 where
  pub tracked : Tracked
  pub key : String
  pub event : AnomalyEvent

pub record EngineState (TrackerState : Type 0) : Type 0 where
  pub tracker : TrackerState
  pub states : List Entry
  pub last_emit_mono : ℕ
  pub det_seq : ℕ
  pub last_heatmap_mono : ℤ
  pub detection_sink : Option (Sink SinkMessage)
  pub heatmap_sink : Option (Sink SinkMessage)
  pub published : ℕ
  pub emitted : List Emission

-- What the engine is given, beside its settings. `covers_point` tells whether a polygon covers the point
-- with half the coordinates; `event_ids` are the results of `uuid4`.
pub record Surroundings (Image TrackerState : Type 0) : Type 0 where
  pub find_objects : Image → Outcome (List Detection)
  pub update : TrackerState → List Detection → TrackerState × Tracked
  pub covers_point : List (ℤ × ℤ) → ℤ × ℤ → Bool
  pub publish : String → AnomalyEvent → Outcome {0} Unit
  pub event_ids : ℕ → String
  pub dump_detections : DetectionPayload → String
  pub dump_heatmap : HeatmapPayload → String

abbrev to_sink :
    (Sink SinkMessage → Sink SinkMessage) → Option (Sink SinkMessage) → Option (Sink SinkMessage)
to_sink f none = none
to_sink f (some s) = some (f s)

-- `self.zones`: the zones of the camera that ask for protective equipment.
abbrev pub asks_for_ppe : ZoneConfig → Bool
asks_for_ppe zone = elim zone.kind [ ZoneKind.required_ppe ↦ true ]

-- `max_frames is not None and i >= max_frames`
abbrev pub is_enough : Option ℕ → ℕ → Bool
is_enough none i = false
is_enough (some max_frames) i = leb max_frames i

module _ {Image TrackerState : Type 0} (around : Surroundings Image TrackerState)
    (engine : EngineConfig) where
  abbrev State : Type 0
  State = EngineState TrackerState

  -- The detection emission is on and an interval has passed.
  abbrev pub is_emit_due : Frame Image → State → Bool
  is_emit_due frame st =
      engine.emit_detections
      && is_some st.detection_sink
      && leb (st.last_emit_mono + engine.emit_interval) frame.emit_mono

  abbrev pub detection_payload : Frame Image → Tracked → ℕ → DetectionPayload
  detection_payload frame tracked seq = record {
    camera_id = engine.cfg.camera_id;
    ts = frame.wall;
    frame_w = frame.frame_w;
    frame_h = frame.frame_h;
    seq = seq;
    boxes = map payload_box tracked;
  }

  -- The frame's boxes go to the detection sink, at most once in an interval.
  unfoldable pub emit_frame_detections : Frame Image → Tracked → State → State
  unfolding publish_detections
  emit_frame_detections frame tracked st =
      if is_emit_due frame st
      then record st {
        last_emit_mono = frame.emit_mono;
        det_seq = st.det_seq + 1;
        detection_sink =
            to_sink
              (publish_detections around.dump_detections engine.cfg.camera_id
                (detection_payload frame tracked (st.det_seq + 1)))
              st.detection_sink;
      }
      else st

  -- The zones that a person stands in are counted, over all zones of the camera.
  unfoldable pub count_zones : Detection → List ZoneConfig → List Cell → List Cell
  unfolding bbox_anchor count_in
  count_zones det [] cells = cells
  count_zones det (z ∷ zs) cells = count_zones det zs (
      if around.covers_point z.polygon (bbox_anchor det.bbox)
      then count_in z.zone_id cells
      else cells)

  unfoldable pub count_persons : Tracked → List Cell → List Cell
  unfolding count_zones
  count_persons [] cells = cells
  count_persons ((raw_id, det) ∷ ts) cells =
      count_persons ts
        (if is_person_class det.object_class then count_zones det engine.cfg.zones cells else cells)

  abbrev pub is_heatmap_due : Frame Image → State → Bool
  is_heatmap_due frame st =
      engine.emit_heatmap
      && is_some st.heatmap_sink
      && leb_ℤ (st.last_heatmap_mono +ℤ pos engine.heatmap_min_interval) (pos frame.heatmap_mono)

  unfoldable pub emit_frame_heatmap : Frame Image → Tracked → State → State
  unfolding count_persons zero_cells publish_heatmap
  emit_frame_heatmap frame tracked st =
      if is_heatmap_due frame st
      then record st {
        last_heatmap_mono = pos frame.heatmap_mono;
        heatmap_sink =
            to_sink
              (publish_heatmap around.dump_heatmap engine.cfg.camera_id (record {
                camera_id = engine.cfg.camera_id;
                ts = frame.heatmap_clock;
                cells = count_persons tracked (zero_cells engine.cfg.zones []);
              }))
              st.heatmap_sink;
      }
      else st

  -- `bool(inside and det.no_hardhat)`
  abbrev pub is_violating : Detection → ZoneConfig → Bool
  is_violating det zone = around.covers_point zone.polygon (bbox_anchor det.bbox) && det.no_hardhat

  -- The branch of an opening: the anomaly is built and published.
  unfoldable pub publish_anomaly :
      Frame Image → Tracked → ℕ × Detection → ZoneConfig → State → Outcome State
  unfolding build_anomaly_event
  publish_anomaly frame tracked (raw_id, det) zone st = do
    let anomaly =
        build_anomaly_event engine.cfg zone.zone_id det (track_text engine.cfg.camera_id raw_id)
          (frame.clock st.published) (around.event_ids st.published)
    sent ← around.publish engine.cfg.camera_id anomaly
    ok (record st {
      published = st.published + 1;
      emitted =
          st.emitted
          ++ (record { tracked = tracked; key = engine.cfg.camera_id; event = anomaly } ∷ []);
    })

  -- Nothing but an opening is published.
  unfoldable pub publish_opening :
      Frame Image
      → Tracked
      → ℕ × Detection
      → ZoneConfig
      → Option DebounceEvent
      → State
      → Outcome State
  unfolding publish_anomaly
  publish_opening frame tracked t zone none st = ok st
  publish_opening frame tracked t zone (some event) st = elim event.transition [
    | DebounceTransition.cleared ↦ ok st
    | DebounceTransition.opened ↦ publish_anomaly frame tracked t zone st
  ]

  unfoldable pub watch_zone :
      Frame Image → Tracked → ℕ × Detection → ZoneConfig → State → Outcome State
  unfolding publish_opening observe bbox_anchor
  watch_zone frame tracked (raw_id, det) zone st =
      let (states, event) =
        observe engine.debounce
          (joined_by ":" (track_text engine.cfg.camera_id raw_id) zone.zone_id) rule_name
          (is_violating det zone) st.states in
      publish_opening frame tracked (raw_id, det) zone event (record st { states = states })

  unfoldable pub watch_zones :
      Frame Image → Tracked → ℕ × Detection → List ZoneConfig → State → Outcome State
  unfolding watch_zone
  watch_zones frame tracked t [] st = ok st
  watch_zones frame tracked t (z ∷ zs) st = do
    next ← watch_zone frame tracked t z st
    watch_zones frame tracked t zs next

  -- The loop over what is tracked; `ts` is the rest of it.
  unfoldable pub watch_tracked : Frame Image → Tracked → Tracked → State → Outcome State
  unfolding watch_zones
  watch_tracked frame tracked [] st = ok st
  watch_tracked frame tracked ((raw_id, det) ∷ ts) st = do
    next ←
        (if is_person_class det.object_class
          then watch_zones frame tracked (raw_id, det) (keep asks_for_ppe engine.cfg.zones) st
          else ok st)
    watch_tracked frame tracked ts next

  -- The body of the loop of `run`.
  unfoldable pub run_frame : Frame Image → State → Outcome State
  unfolding emit_frame_detections emit_frame_heatmap watch_tracked
  run_frame frame st = do
    detections ← around.find_objects frame.image
    let (tracker, tracked) = around.update st.tracker detections
    watch_tracked frame tracked tracked (
        emit_frame_heatmap frame tracked
          (emit_frame_detections frame tracked (record st { tracker = tracker })))

  -- `run` from the frame `i`; it returns `published`.
  unfoldable pub run_from : Option ℕ → ℕ → List (Frame Image) → State → Outcome State
  unfolding run_frame
  run_from max_frames i [] st = ok st
  run_from max_frames i (f ∷ fs) st = elim (is_enough max_frames i) [
    | true ↦ ok st
    | false ↦ run_frame f st >>= run_from max_frames (i + 1) fs
  ]

  unfoldable pub new_engine :
      TrackerState → Option (Sink SinkMessage) → Option (Sink SinkMessage) → State
  new_engine tracker detection_sink heatmap_sink = record {
    tracker = tracker;
    states = [];
    last_emit_mono = 0;
    det_seq = 0;
    last_heatmap_mono = pos 0 -ℤ pos engine.heatmap_min_interval;
    detection_sink = detection_sink;
    heatmap_sink = heatmap_sink;
    published = 0;
    emitted = [];
  }
