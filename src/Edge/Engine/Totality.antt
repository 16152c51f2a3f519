-- ===== src/Edge/Engine/Totality.antt =====
-- The engine's run returns when its detector and its publisher do (edge/vision/engine.py).
use factory_monitor.Base.{
  ℕ, ◌+◌, ◌≡◌, refl, inl, inr, String, Bool, true, false, Option, none, some, List, [], ◌∷◌, keep,
  Bool-cases, if◌then◌else◌,
}
use factory_monitor.Base.Outcome.{Outcome, ok, ◌>>=◌}
use factory_monitor.Ingest.Anomaly.{AnomalyEvent}
use factory_monitor.Edge.Debounce.{DebounceTransition, DebounceEvent}
use factory_monitor.Edge.Detector.{Detection}
use factory_monitor.Edge.Zones.{ZoneConfig}
use factory_monitor.Edge.Anomalies.{is_person_class}
use factory_monitor.Edge.Payloads.{Tracked}
use factory_monitor.Edge.Engine.{
  Surroundings, EngineConfig, EngineState, Frame, publish_anomaly, publish_opening, watch_zone,
  watch_zones, watch_tracked, emit_frame_detections, emit_frame_heatmap, run_frame, run_from,
  asks_for_ppe, is_enough,
}

-- The call returns.
abbrev pub IsOk : {A : Type 0} → Outcome A → Type 0
IsOk {A} o = (a : A) × (o ≡ ok a)

bind-IsOk :
    {A B : Type 0} (o : Outcome A) (f : A → Outcome B)
    → IsOk o
    → ((a : A) → IsOk (f a))
    → IsOk (o >>= f)
bind-IsOk o f (a, e) h = rw e (h a)

module _ {Image TrackerState : Type 0} (around : Surroundings Image TrackerState)
    (engine : EngineConfig) (detects : (image : Image) → IsOk (around.find_objects image))
    (publishes : (key : String) (event : AnomalyEvent) → around.publish key event ≡ ok tt) where
  anomaly-IsOk :
      (frame : Frame Image) (tracked : Tracked) (t : ℕ × Detection) (zone : ZoneConfig)
      (st : EngineState TrackerState)
      → IsOk (publish_anomaly around engine frame tracked t zone st)
  unfolding publish_anomaly
  anomaly-IsOk frame tracked t zone st =
      bind-IsOk (around.publish engine.cfg.camera_id _) _ (tt, publishes _ _) (λ sent. (_, refl))

  opening-IsOk :
      (frame : Frame Image) (tracked : Tracked) (t : ℕ × Detection) (zone : ZoneConfig)
      (event : Option DebounceEvent) (st : EngineState TrackerState)
      → IsOk (publish_opening around engine frame tracked t zone event st)
  unfolding publish_opening
  opening-IsOk frame tracked t zone none st = (st, refl)
  opening-IsOk frame tracked t zone (some e) st = by_transition e.transition
    where
      by_transition :
          (c : DebounceTransition)
          → IsOk (elim c [
            | DebounceTransition.cleared ↦ ok st
            | DebounceTransition.opened ↦ publish_anomaly around engine frame tracked t zone st
          ])
      by_transition DebounceTransition.cleared = (st, refl)
      by_transition DebounceTransition.opened = anomaly-IsOk frame tracked t zone st

  zone-IsOk :
      (frame : Frame Image) (tracked : Tracked) (t : ℕ × Detection) (zone : ZoneConfig)
      (st : EngineState TrackerState)
      → IsOk (watch_zone around engine frame tracked t zone st)
  unfolding watch_zone
  zone-IsOk frame tracked (raw_id, det) zone st = opening-IsOk frame tracked (raw_id, det) zone _ _

  zones-IsOk :
      (frame : Frame Image) (tracked : Tracked) (t : ℕ × Detection) (zones : List ZoneConfig)
      (st : EngineState TrackerState)
      → IsOk (watch_zones around engine frame tracked t zones st)
  unfolding watch_zones
  zones-IsOk frame tracked t [] st = (st, refl)
  zones-IsOk frame tracked t (z ∷ zs) st =
      bind-IsOk (watch_zone around engine frame tracked t z st) _ (zone-IsOk frame tracked t z st)
        (λ next. zones-IsOk frame tracked t zs next)

  tracked-IsOk :
      (frame : Frame Image) (tracked ts : Tracked) (st : EngineState TrackerState)
      → IsOk (watch_tracked around engine frame tracked ts st)
  unfolding watch_tracked
  tracked-IsOk frame tracked [] st = (st, refl)
  tracked-IsOk frame tracked ((raw_id, det) ∷ ts) st =
      bind-IsOk _ _ (first (is_person_class det.object_class))
        (λ next. tracked-IsOk frame tracked ts next)
    where
      first :
          (b : Bool)
          → IsOk (
              if b
              then watch_zones around engine frame tracked
                  (raw_id, det)
                  (keep asks_for_ppe engine.cfg.zones)
                  st
              else ok st)
      first true = zones-IsOk frame tracked (raw_id, det) _ st
      first false = (st, refl)

  frame-IsOk :
      (frame : Frame Image) (st : EngineState TrackerState)
      → IsOk (run_frame around engine frame st)
  unfolding run_frame
  frame-IsOk frame st = bind-IsOk (around.find_objects frame.image) _ (detects frame.image) (λ ds.
      tracked-IsOk frame (around.update st.tracker ds).1 (around.update st.tracker ds).1 (
        emit_frame_heatmap around engine frame (around.update st.tracker ds).1 (
          emit_frame_detections around engine frame (around.update st.tracker ds).1
            (record st { tracker = (around.update st.tracker ds).0 }))))

  pub run-IsOk :
      (max_frames : Option ℕ) (i : ℕ) (frames : List (Frame Image)) (st : EngineState TrackerState)
      → IsOk (run_from around engine max_frames i frames st)
  unfolding run_from
  run-IsOk max_frames i [] st = (st, refl)
  run-IsOk max_frames i (f ∷ fs) st = elim (Bool-cases (is_enough max_frames i)) [
    | inl e ↦ rw (e, run_from) (st, refl)
    | inr e ↦
        rw (e, run_from)
          (bind-IsOk (run_frame around engine f st) _ (frame-IsOk f st)
            (λ next. run-IsOk max_frames (i + 1) fs next))
  ]
