-- ===== src/Edge/Anomalies.antt =====
-- edge/vision/engine.py: the anomaly that is built of a detection.
use factory_monitor.Base.{ℕ, ◌/◌, String, Bool, true, false, some, [], ◌∷◌, ℤ, ◌+ℤ◌, to_text}
use Prim.Native.String.{◌++◌ as text_append}
use factory_monitor.Store.Incident.{Time, seconds, AnomalyType}
use factory_monitor.Ingest.Anomaly.{AnomalyEvent, Severity, ObjectClass, Source}
use factory_monitor.Edge.Detector.{Box, Detection}
use factory_monitor.Edge.Zones.{CameraConfig}

-- `_bbox_anchor`, with both coordinates doubled, so that they are integers.
unfoldable pub bbox_anchor : Box → ℤ × ℤ
bbox_anchor b = (b.x +ℤ b.x +ℤ b.w, b.y +ℤ b.y +ℤ (b.h +ℤ b.h))

abbrev pub is_person_class : ObjectClass → Bool
is_person_class ObjectClass.person = true
is_person_class ObjectClass.forklift = false

abbrev pub rule_name : String
rule_name = "PPE_NO_HARDHAT"

-- Texts joined by a separator, as in the program's f-strings.
abbrev pub joined_by : String → String → String → String
joined_by separator a b = text_append a (text_append separator b)

-- The dedup key: camera, track, rule, and the half minute of the time.
unfoldable pub dedup_key_of : String → String → Time → String
dedup_key_of camera_id track_id now =
    joined_by "|" camera_id
      (joined_by "|" track_id (joined_by "|" rule_name (to_text (now / seconds 30))))

unfoldable pub build_anomaly_event :
    CameraConfig → String → Detection → String → Time → String → AnomalyEvent
unfolding dedup_key_of
build_anomaly_event cfg zone_id detection track_id now event_id = record {
  schema_version = "1.0";
  event_id = event_id;
  anomaly_type = AnomalyType.ppe_no_hardhat;
  rule_id = rule_name;
  occurred_at = now;
  site_id = cfg.site_id;
  camera_id = cfg.camera_id;
  zone_id = some zone_id;
  track_id = track_id;
  object_class = detection.object_class;
  severity = Severity.high;
  confidence = detection.confidence;
  dedup_key = dedup_key_of cfg.camera_id track_id now;
  evidence = record {
    bbox = detection.bbox.x ∷ detection.bbox.y ∷ detection.bbox.w ∷ detection.bbox.h ∷ [];
    snapshot_url = "";
    footage_source = "clip_03";
  };
  source = Source.edge;
}

-- The track id that the anomaly carries.
abbrev pub track_text : String → ℕ → String
track_text camera_id raw_id = joined_by ":" camera_id (to_text raw_id)
