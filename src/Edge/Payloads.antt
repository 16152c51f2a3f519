-- ===== src/Edge/Payloads.antt =====
-- edge/vision/engine.py: what one frame sends to the two sinks.
use factory_monitor.Base.{ℕ, ◌+◌, String, Bool, List, [], ◌∷◌, str_eq, ℤ, if◌then◌else◌}
use factory_monitor.Store.Incident.{Time}
use factory_monitor.Ingest.Anomaly.{class_value}
use factory_monitor.Edge.Detector.{Detection}
use factory_monitor.Edge.Zones.{ZoneConfig}

-- What the tracker returns: raw ids with detections.
abbrev pub Tracked : Type 0
Tracked = List (ℕ × Detection)

pub record PayloadBox : Type 0 where
  pub cls : String
  pub bbox : List ℤ
  pub track_id : ℕ
  pub no_hardhat : Bool

pub record DetectionPayload : Type 0 where
  pub camera_id : String
  pub ts : Time
  pub frame_w : ℕ
  pub frame_h : ℕ
  pub seq : ℕ
  pub boxes : List PayloadBox

pub record Cell : Type 0 where
  pub zone_id : String
  pub count : ℕ

-- The text of `ts` is part of what dumps the payload.
pub record HeatmapPayload : Type 0 where
  pub camera_id : String
  pub ts : Time
  pub cells : List Cell

abbrev pub payload_box : ℕ × Detection → PayloadBox
payload_box (raw_id, det) = record {
  cls = class_value det.object_class;
  bbox = det.bbox.x ∷ det.bbox.y ∷ det.bbox.w ∷ det.bbox.h ∷ [];
  track_id = raw_id;
  no_hardhat = det.no_hardhat;
}

-- The dictionary `counts`: a zone id that occurs twice has one cell.
unfoldable pub zero_cell : String → List Cell → List Cell
zero_cell z [] = record { zone_id = z; count = 0 } ∷ []
zero_cell z (c ∷ cs) = if str_eq c.zone_id z then c ∷ cs else c ∷ zero_cell z cs

unfoldable pub zero_cells : List ZoneConfig → List Cell → List Cell
unfolding zero_cell
zero_cells [] cs = cs
zero_cells (z ∷ zs) cs = zero_cells zs (zero_cell z.zone_id cs)

-- `counts[zone_id] += 1`
unfoldable pub count_in : String → List Cell → List Cell
count_in z [] = []
count_in z (c ∷ cs) =
    if str_eq c.zone_id z then record c { count = c.count + 1 } ∷ cs else c ∷ count_in z cs
