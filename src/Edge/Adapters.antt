-- ===== src/Edge/Adapters.antt =====
-- The wrappers of the vision libraries: RoboflowPpeDetector.detect in edge/vision/roboflow_detector.py
-- and ByteTrackTracker.update in edge/publisher/run_edge.py. The libraries and their floats are
-- parameters.
use factory_monitor.Base.{
  ℕ, zero, suc, ◌≡◌, refl, ◌⊎◌, inl, inr, String, Option, none, some, List, [], ◌∷◌, ℤ, Has, All,
  some_eq, Option-cases,
}
use factory_monitor.Base.Outcome.{Outcome, Error, ok, err, ◌>>=◌}
use factory_monitor.Edge.Detector.{Detection, Prediction, map_detections}

-- An element by its index.
abbrev pub get_elem? : {A : Type 0} → List A → ℕ → Option A
get_elem? [] i = none
get_elem? (x ∷ xs) zero = some x
get_elem? (x ∷ xs) (suc i) = get_elem? xs i

-- `int(round(...))` of a float, and the difference of two floats.
module _ {Float : Type 0} (rounded : Float → ℤ) (minus : Float → Float → Float) where
  -- A row of `sv.Detections`: its corners, and its confidence, if the model gives any.
  pub record ModelBox : Type 0 where
    pub x1 : Float
    pub y1 : Float
    pub x2 : Float
    pub y2 : Float
    pub confidence : Option String

  abbrev conf_or_zero : Option String → String
  conf_or_zero none = "0.0"
  conf_or_zero (some c) = c

  abbrev label_or_empty : List String → String
  label_or_empty [] = ""
  label_or_empty (name ∷ names) = name

  abbrev rest_of : List String → List String
  rest_of [] = []
  rest_of (name ∷ names) = names

  -- The loop over the rows, with the names that are left for them.
  unfoldable pub predictions_of : List String → List ModelBox → List Prediction
  predictions_of names [] = []
  predictions_of names (d ∷ ds) =
      record {
        label = label_or_empty names;
        bbox = record {
          x = rounded d.x1;
          y = rounded d.y1;
          w = rounded (minus d.x2 d.x1);
          h = rounded (minus d.y2 d.y1);
        };
        conf = conf_or_zero d.confidence;
      }
      ∷ predictions_of (rest_of names) ds

  unfoldable pub detect_workers : (String → String) → List String → List ModelBox → List Detection
  unfolding predictions_of map_detections
  detect_workers lower names ds = map_detections lower (predictions_of names ds)

-- A row that the tracker returns: its id, if it has one, and the index that was given as its class.
pub record TrackedRow : Type 0 where
  pub tracker_id : Option ℕ
  pub class_id : ℕ

-- `detections[orig_idx]`
abbrev pub detection_at : List Detection → ℕ → Outcome Detection
detection_at ds i = elim (get_elem? ds i) [ none ↦ err Error.index_error | some d ↦ ok d ]

unfoldable pub collect : List Detection → List TrackedRow → Outcome (List (ℕ × Detection))
collect ds [] = ok []
collect ds (r ∷ rs) = elim r.tracker_id [
  | none ↦ collect ds rs
  | some tid ↦ do d ← detection_at ds r.class_id; out ← collect ds rs; ok ((tid, d) ∷ out)
]

-- `update`: without detections the tracker is not called. `track` is `update_with_detections`.
unfoldable pub track_detections :
    {S : Type 0}
    → (S → List Detection → S × List TrackedRow)
    → S
    → List Detection
    → S × Outcome (List (ℕ × Detection))
unfolding collect
track_detections track s [] = (s, ok [])
track_detections track s (d ∷ ds) =
    let (next, rows) = track s (d ∷ ds) in (next, collect (d ∷ ds) rows)

-- What is collected are detections of the list.
abbrev AreFrom : List Detection → Outcome (List (ℕ × Detection)) → Type 0
AreFrom ds (err e) = Unit
AreFrom ds (ok ts) = All (λ (t : ℕ × Detection). Has t.1 ds) ts

get_elem?-Has : (ds : List Detection) (i : ℕ) (d : Detection) → get_elem? ds i ≡ some d → Has d ds
get_elem?-Has [] i d h = cc
get_elem?-Has (x ∷ xs) zero d h = inl (some_eq h)
get_elem?-Has (x ∷ xs) (suc i) d h = inr (get_elem?-Has xs i d h)

found_at :
    (ds : List Detection) (i : ℕ)
    → (detection_at ds i ≡ err Error.index_error)
      ⊎ ((d : Detection) × (detection_at ds i ≡ ok d) × Has d ds)
found_at ds i = elim (Option-cases (get_elem? ds i)) [
  | inl n ↦ inl (rw (n, detection_at) refl)
  | inr (d, f) ↦ inr (d, rw (f, detection_at) refl, get_elem?-Has ds i d f)
]

-- Whatever ids and indices the tracker returns, each tracked detection is one of the frame's.
pub collect-AreFrom : (ds : List Detection) (rs : List TrackedRow) → AreFrom ds (collect ds rs)
unfolding collect
collect-AreFrom ds [] = tt
collect-AreFrom ds (r ∷ rs) = elim (Option-cases r.tracker_id) [
  | inl e ↦ rw (e, collect, AreFrom) (collect-AreFrom ds rs)
  | inr (tid, e) ↦ elim (found_at ds r.class_id) [
    | inl n ↦ rw (e, collect) (rw n tt)
    | inr (d, f, h) ↦ rw (e, collect) (rw f (both tid d h (collect ds rs) (collect-AreFrom ds rs)))
  ]
]
  where
    both :
        (tid : ℕ) (d : Detection)
        → Has d ds
        → (o : Outcome (List (ℕ × Detection))) → AreFrom ds o
        → AreFrom ds (o >>= (λ out. ok ((tid, d) ∷ out)))
    both tid d h (ok out) k = (h, k)
    both tid d h (err e) k = tt
