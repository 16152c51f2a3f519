-- ===== src/Edge/Engine/Sightings.antt =====
-- What the engine publishes (edge/vision/engine.py): only what a frame shows.
use factory_monitor.Base.{
  ℕ, ◌+◌, ◌≤◌, ◌≡◌, refl, subst, inl, inr, String, true, Option, none, some, List, [], ◌∷◌, ◌++◌,
  All, Has, Has-keep, Bool-cases, keep, arith, length, length-append, if◌then◌else◌,
}
use factory_monitor.Base.Outcome.{Outcome, ok, err, ◌>>=◌}
use factory_monitor.Store.Incident.{Time}
use factory_monitor.Ingest.Anomaly.{AnomalyEvent}
use factory_monitor.Edge.Debounce.{DebounceTransition, DebounceEvent}
use factory_monitor.Edge.Debounce.Quiet.{AreQuiet, observe-AreQuiet, observe_opens}
use factory_monitor.Edge.Detector.{Detection}
use factory_monitor.Edge.Sink.{Sink, SinkMessage}
use factory_monitor.Edge.Zones.{ZoneConfig}
use factory_monitor.Edge.Anomalies.{build_anomaly_event, is_person_class, track_text, rule_name}
use factory_monitor.Edge.Payloads.{Tracked}
use factory_monitor.Edge.Engine.Totality.{IsOk, run-IsOk}
use factory_monitor.Edge.Engine.{
  Surroundings, EngineConfig, EngineState, Frame, Emission, is_violating, publish_anomaly,
  publish_opening, watch_zone, watch_zones, watch_tracked, emit_frame_detections,
  emit_frame_heatmap, run_frame, run_from, new_engine, is_emit_due, is_heatmap_due, asks_for_ppe,
  is_enough,
}

-- Whatever a call returns has the property.
abbrev pub Returns : {A : Type 0} → (A → Type 0) → Outcome A → Type 0
Returns P (ok a) = P a
Returns P (err e) = Unit

pub Returns-bind :
    {A B : Type 0} (P : A → Type 0) (Q : B → Type 0) (o : Outcome A) (f : A → Outcome B)
    → Returns P o
    → ((a : A) → P a → Returns Q (f a))
    → Returns Q (o >>= f)
Returns-bind P Q (ok a) f h k = k a h
Returns-bind P Q (err e) f h k = tt

module _ {Image TrackerState : Type 0} (around : Surroundings Image TrackerState)
    (engine : EngineConfig) where
  -- The anomaly is about a person without a hard hat that stands in a zone of the camera, in the
  -- very frame in which it is published.
  pub record IsSighted (em : Emission) : Type 0 where
    pub raw_id : ℕ
    pub det : Detection
    pub zone : ZoneConfig
    pub now : Time
    pub event_id : String
    pub in_frame : Has (raw_id, det) em.tracked
    pub in_camera : Has zone engine.cfg.zones
    pub person : is_person_class det.object_class ≡ true
    pub violating : is_violating around engine det zone ≡ true
    pub event_eq :
        em.event
        ≡ build_anomaly_event engine.cfg zone.zone_id det
            (track_text engine.cfg.camera_id raw_id)
            now
            event_id

  record IsWatched (st : EngineState TrackerState) : Type 0 where
    quiet : AreQuiet engine.debounce st.states
    sighted : All IsSighted st.emitted
    counted : st.published ≡ length st.emitted

  All-snoc :
      (P : Emission → Type 0) (xs : List Emission) (x : Emission)
      → All P xs
      → P x
      → All P (xs ++ (x ∷ []))
  All-snoc P [] x h k = (k, tt)
  All-snoc P (y ∷ ys) x h k = (h.0, All-snoc P ys x h.1 k)

  module _ (pos_m : 1 ≤ engine.debounce.m_of_n) (frame : Frame Image) (tracked : Tracked) where
    anomaly-IsWatched :
        (raw_id : ℕ) (det : Detection) (zone : ZoneConfig) (st : EngineState TrackerState)
        → Has (raw_id, det) tracked
        → Has zone engine.cfg.zones
        → is_person_class det.object_class ≡ true
        → is_violating around engine det zone ≡ true
        → IsWatched st
        → Returns IsWatched (publish_anomaly around engine frame tracked (raw_id, det) zone st)
    unfolding publish_anomaly
    anomaly-IsWatched raw_id det zone st i j p v h =
        Returns-bind (λ u. Unit) IsWatched (around.publish engine.cfg.camera_id _) _ (anything _)
          (λ sent u. record {
            quiet = h.quiet;
            sighted = All-snoc IsSighted st.emitted _ h.sighted (record {
              raw_id = raw_id;
              det = det;
              zone = zone;
              now = _;
              event_id = _;
              in_frame = i;
              in_camera = j;
              person = p;
              violating = v;
              event_eq = refl;
            });
            counted =
                rw
                  (length-append st.emitted (
                    record {
                      tracked = tracked;
                      key = engine.cfg.camera_id;
                      event =
                          build_anomaly_event engine.cfg zone.zone_id det
                            (track_text engine.cfg.camera_id raw_id) (frame.clock st.published)
                            (around.event_ids st.published);
                    }
                    ∷ []))
                  (omega (arith, h.counted));
          })
      where
        anything : (o : Outcome {0} Unit) → Returns (λ u. Unit) o
        anything (ok u) = tt
        anything (err e) = tt

    opening-IsWatched :
        (raw_id : ℕ) (det : Detection) (zone : ZoneConfig) (event : Option DebounceEvent)
        (st : EngineState TrackerState)
        → Has (raw_id, det) tracked
        → Has zone engine.cfg.zones
        → is_person_class det.object_class ≡ true
        → ((e : DebounceEvent)
            → event ≡ some e
            → e.transition ≡ DebounceTransition.opened
            → is_violating around engine det zone ≡ true)
        → IsWatched st
        → Returns IsWatched
            (publish_opening around engine frame tracked (raw_id, det) zone event st)
    unfolding publish_opening
    opening-IsWatched raw_id det zone none st i j p v h = h
    opening-IsWatched raw_id det zone (some e) st i j p v h = by_transition e.transition (v e refl)
      where
        by_transition :
            (t : DebounceTransition)
            → (t ≡ DebounceTransition.opened → is_violating around engine det zone ≡ true)
            → Returns IsWatched (elim t [
              | DebounceTransition.cleared ↦ ok st
              | DebounceTransition.opened ↦
                  publish_anomaly around engine frame tracked (raw_id, det) zone st
            ])
        by_transition DebounceTransition.cleared v = h
        by_transition DebounceTransition.opened v =
            anomaly-IsWatched raw_id det zone st i j p (v refl) h

    zone-IsWatched :
        (raw_id : ℕ) (det : Detection) (zone : ZoneConfig) (st : EngineState TrackerState)
        → Has (raw_id, det) tracked
        → Has zone engine.cfg.zones
        → is_person_class det.object_class ≡ true
        → IsWatched st
        → Returns IsWatched (watch_zone around engine frame tracked (raw_id, det) zone st)
    unfolding watch_zone
    zone-IsWatched raw_id det zone st i j p h =
        opening-IsWatched raw_id det zone _ _ i j p
          (λ e seen opened.
            observe_opens engine.debounce _ rule_name (is_violating around engine det zone)
              st.states e pos_m h.quiet seen opened)
          (record {
            quiet =
                observe-AreQuiet engine.debounce _ rule_name (is_violating around engine det zone)
                  st.states pos_m h.quiet;
            sighted = h.sighted;
            counted = h.counted;
          })

    zones-IsWatched :
        (raw_id : ℕ) (det : Detection) (zones : List ZoneConfig) (st : EngineState TrackerState)
        → Has (raw_id, det) tracked
        → ((z : ZoneConfig) → Has z zones → Has z engine.cfg.zones)
        → is_person_class det.object_class ≡ true
        → IsWatched st
        → Returns IsWatched (watch_zones around engine frame tracked (raw_id, det) zones st)
    unfolding watch_zones
    zones-IsWatched raw_id det [] st i j p h = h
    zones-IsWatched raw_id det (z ∷ zs) st i j p h =
        Returns-bind IsWatched IsWatched _ _ (zone-IsWatched raw_id det z st i (j z (inl refl)) p h)
          (λ next k. zones-IsWatched raw_id det zs next i (λ y m. j y (inr m)) p k)

    tracked-IsWatched :
        (ts : Tracked) (st : EngineState TrackerState)
        → ((t : ℕ × Detection) → Has t ts → Has t tracked)
        → IsWatched st
        → Returns IsWatched (watch_tracked around engine frame tracked ts st)
    unfolding watch_tracked
    tracked-IsWatched [] st i h = h
    tracked-IsWatched ((raw_id, det) ∷ ts) st i h =
        Returns-bind IsWatched IsWatched _ _ first
          (λ next k. tracked-IsWatched ts next (λ t m. i t (inr m)) k)
      where
        first : Returns IsWatched (
            if is_person_class det.object_class
            then watch_zones around engine frame tracked
                (raw_id, det)
                (keep asks_for_ppe engine.cfg.zones)
                st
            else ok st)
        first = elim (Bool-cases (is_person_class det.object_class)) [
          | inl p ↦ rw p (
              zones-IsWatched raw_id det (keep asks_for_ppe engine.cfg.zones) st
                (i (raw_id, det) (inl refl)) (λ z m. Has-keep asks_for_ppe z engine.cfg.zones m) p
                h)
          | inr p ↦ rw p h
        ]

  detections-IsWatched :
      (frame : Frame Image) (tracked : Tracked) (st : EngineState TrackerState)
      → IsWatched st
      → IsWatched (emit_frame_detections around engine frame tracked st)
  unfolding emit_frame_detections
  detections-IsWatched frame tracked st h = elim (Bool-cases (is_emit_due around engine frame st)) [
    | inl e ↦ rw e (record { quiet = h.quiet; sighted = h.sighted; counted = h.counted })
    | inr e ↦ rw e h
  ]

  heatmap-IsWatched :
      (frame : Frame Image) (tracked : Tracked) (st : EngineState TrackerState)
      → IsWatched st
      → IsWatched (emit_frame_heatmap around engine frame tracked st)
  unfolding emit_frame_heatmap
  heatmap-IsWatched frame tracked st h = elim (Bool-cases (is_heatmap_due around engine frame st)) [
    | inl e ↦ rw e (record { quiet = h.quiet; sighted = h.sighted; counted = h.counted })
    | inr e ↦ rw e h
  ]

  frame-IsWatched :
      (frame : Frame Image) (st : EngineState TrackerState)
      → 1 ≤ engine.debounce.m_of_n
      → IsWatched st
      → Returns IsWatched (run_frame around engine frame st)
  unfolding run_frame
  frame-IsWatched frame st pos_m h =
      Returns-bind (λ ds. Unit) IsWatched (around.find_objects frame.image) _ (anything _)
        (λ ds u.
          tracked-IsWatched pos_m frame (around.update st.tracker ds).1
            (around.update st.tracker ds).1 _ (λ t m. m)
            (heatmap-IsWatched frame (around.update st.tracker ds).1 _ (
              detections-IsWatched frame (around.update st.tracker ds).1 _
                (record { quiet = h.quiet; sighted = h.sighted; counted = h.counted }))))
    where
      anything : (o : Outcome (List Detection)) → Returns (λ u. Unit) o
      anything (ok u) = tt
      anything (err e) = tt

  run-IsWatched :
      (max_frames : Option ℕ) (i : ℕ) (frames : List (Frame Image)) (st : EngineState TrackerState)
      → 1 ≤ engine.debounce.m_of_n
      → IsWatched st
      → Returns IsWatched (run_from around engine max_frames i frames st)
  unfolding run_from
  run-IsWatched max_frames i [] st pos_m h = h
  run-IsWatched max_frames i (f ∷ fs) st pos_m h = elim (Bool-cases (is_enough max_frames i)) [
    | inl e ↦ rw (e, Returns) h
    | inr e ↦
        rw (e, Returns)
          (Returns-bind IsWatched IsWatched (run_frame around engine f st) _
            (frame-IsWatched f st pos_m h)
            (λ next k. run-IsWatched max_frames (i + 1) fs next pos_m k))
  ]

  returned-IsSighted :
      (max_frames : Option ℕ) (frames : List (Frame Image)) (tracker : TrackerState)
      (detection_sink heatmap_sink : Option (Sink SinkMessage)) (st : EngineState TrackerState)
      → 1 ≤ engine.debounce.m_of_n
      → run_from around engine max_frames 0 frames
          (new_engine around engine tracker detection_sink heatmap_sink)
        ≡ ok st
      → All IsSighted st.emitted × (st.published ≡ length st.emitted)
  unfolding new_engine
  returned-IsSighted max_frames frames tracker detection_sink heatmap_sink st pos_m e =
      let h = subst (Returns IsWatched) e (
        run-IsWatched max_frames 0 frames
          (new_engine around engine tracker detection_sink heatmap_sink) pos_m
          (record { quiet = tt; sighted = tt; counted = refl })) in
      (h.sighted, h.counted)

  -- Where the detector and the publisher return and the debouncer asks for at least one violating
  -- frame: a run over any frames, with any limit, returns; each anomaly that it has published is
  -- about a person that was tracked without a hard hat in a zone of the camera in the frame of the
  -- publication; and the number that it returns is the number of the published anomalies.
  pub published-IsSighted :
      (max_frames : Option ℕ) (frames : List (Frame Image)) (tracker : TrackerState)
      (detection_sink heatmap_sink : Option (Sink SinkMessage))
      → ((image : Image) → IsOk (around.find_objects image))
      → ((key : String) (event : AnomalyEvent) → around.publish key event ≡ ok tt)
      → 1 ≤ engine.debounce.m_of_n
      → (st : EngineState TrackerState) × (run_from around engine max_frames 0 frames
            (new_engine around engine tracker detection_sink heatmap_sink)
          ≡ ok st)
        × All IsSighted st.emitted
        × (st.published ≡ length st.emitted)
  published-IsSighted max_frames frames tracker detection_sink heatmap_sink detects publishes
        pos_m =
      let (st, e) =
        run-IsOk around engine detects publishes max_frames 0 frames
          (new_engine around engine tracker detection_sink heatmap_sink) in
      let (sighted, counted) =
        returned-IsSighted max_frames frames tracker detection_sink heatmap_sink st pos_m e in
      (st, e, sighted, counted)
