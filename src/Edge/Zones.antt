-- ===== src/Edge/Zones.antt =====
-- edge/vision/zone_config.py: the cameras with their zones. YAML, Pydantic's field checks and the file
-- system are parameters.
use factory_monitor.Base.{String, Bool, List, [], ◌∷◌, ℤ, ltb, length, if◌then◌else◌}
use factory_monitor.Base.Outcome.{Outcome, Error, ok, err, ◌>>=◌}

-- The only kind that the file format admits.
pub data ZoneKind : Type 0 where
  required_ppe : ZoneKind

pub record ZoneConfig : Type 0 where
  pub zone_id : String
  pub kind : ZoneKind
  pub polygon : List (ℤ × ℤ)

pub record CameraConfig : Type 0 where
  pub camera_id : String
  pub site_id : String
  pub rtsp_url : String
  pub zones : List ZoneConfig

-- The validator `_at_least_triangle`.
unfoldable pub at_least_triangle : List (ℤ × ℤ) → Outcome (List (ℤ × ℤ))
at_least_triangle v = if ltb (length v) 3 then err Error.value_error else ok v

-- `kind` and the other fields of a raw camera are what Pydantic has made of the file.
unfoldable pub validate_zones : List ZoneConfig → Outcome (List ZoneConfig)
unfolding at_least_triangle
validate_zones [] = ok []
validate_zones (z ∷ zs) = do
  polygon ← at_least_triangle z.polygon
  rest ← validate_zones zs
  ok (record z { polygon = polygon } ∷ rest)

-- `safe_load` reads a file into a raw camera, or fails.
module _ (safe_load : String → Outcome CameraConfig) where
  unfoldable pub load_camera_config : (String → Bool) → String → Outcome CameraConfig
  unfolding validate_zones
  load_camera_config is_file path =
      if is_file path
      then (do
        raw ← safe_load path
        zones ← validate_zones raw.zones
        ok (record raw { zones = zones }))
      else err Error.file_not_found

  abbrev pub load_each : (String → Bool) → List String → Outcome (List CameraConfig)
  unfolding load_camera_config
  load_each is_file [] = ok []
  load_each is_file (p ∷ ps) = do
    cfg ← load_camera_config is_file p
    rest ← load_each is_file ps
    ok (cfg ∷ rest)

  -- `paths` is what `glob` finds, sorted.
  unfoldable pub load_all_camera_configs :
      (String → Bool) → List String → Outcome (List CameraConfig)
  load_all_camera_configs is_file [] = err Error.file_not_found
  load_all_camera_configs is_file (p ∷ ps) = load_each is_file (p ∷ ps)
