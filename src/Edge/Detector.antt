-- ===== src/Edge/Detector.antt =====
-- edge/vision/detector.py and roboflow_detector.py: the boxes of a model made into persons and
-- forklifts. The model, its floats and `str.lower` are parameters: a coordinate arrives rounded to an
-- integer, and a confidence is the text of the number, with the comparison to a threshold a test.
pub mod Attachment
use factory_monitor.Base.{
  ℕ, String, Bool, true, false, ◌&&◌, ◌||◌, Option, none, some, List, [], ◌∷◌, ◌++◌, map, any,
  str_eq, ℤ, ◌+ℤ◌, ◌-ℤ◌, leb_ℤ, if◌then◌else◌,
}
use factory_monitor.Base.Outcome.{Outcome, Error, ok, err, ◌>>=◌}
use factory_monitor.Ingest.Anomaly.{ObjectClass}

-- (x, y, w, h) in pixels.
pub record Box : Type 0 where
  pub x : ℤ
  pub y : ℤ
  pub w : ℤ
  pub h : ℤ

pub record Detection : Type 0 where
  pub object_class : ObjectClass
  pub bbox : Box
  pub confidence : String
  pub no_hardhat : Bool

abbrev pub one_of : List String → String → Bool
one_of labels label = any (str_eq label) labels

abbrev pub person_labels : List String
person_labels = "person" ∷ []

abbrev pub no_hardhat_labels : List String
no_hardhat_labels = "no-hardhat" ∷ "no_hardhat" ∷ "head" ∷ []

abbrev pub forklift_labels : List String
forklift_labels = "forklift" ∷ []

-- `_xyxy_to_xywh` of corners that are rounded already.
unfoldable pub xyxy_to_xywh : ℤ → ℤ → ℤ → ℤ → Box
xyxy_to_xywh x1 y1 x2 y2 = record { x = x1; y = y1; w = x2 -ℤ x1; h = y2 -ℤ y1 }

-- `_contains`. Both sides of its comparisons are doubled, so that the centre is an integer.
unfoldable pub contains : Box → Box → Bool
contains p b =
    let cx = b.x +ℤ b.x +ℤ b.w in
    let cy = b.y +ℤ b.y +ℤ b.h in
    leb_ℤ (p.x +ℤ p.x) cx
    && leb_ℤ cx (p.x +ℤ p.x +ℤ (p.w +ℤ p.w))
    && leb_ℤ (p.y +ℤ p.y) cy
    && leb_ℤ cy (p.y +ℤ p.y +ℤ (p.h +ℤ p.h))

-- `_attach_ppe`
unfoldable pub attach_ppe : List Detection → List Box → List Detection
unfolding contains
attach_ppe [] no_hardhat_boxes = []
attach_ppe (p ∷ ps) no_hardhat_boxes =
    record p { no_hardhat = any (contains p.bbox) no_hardhat_boxes }
    ∷ attach_ppe ps no_hardhat_boxes

-- A box of the YOLO result.
pub record RawBox : Type 0 where
  pub cls : ℕ
  pub conf : String
  pub x1 : ℤ
  pub y1 : ℤ
  pub x2 : ℤ
  pub y2 : ℤ

-- The three lists that `detect` fills.
pub record Sorted : Type 0 where
  pub persons : List Detection
  pub no_hardhat_boxes : List Box
  pub forklifts : List Detection

abbrev pub bare : ObjectClass → Box → String → Detection
bare object_class bbox confidence = record {
  object_class = object_class;
  bbox = bbox;
  confidence = confidence;
  no_hardhat = false;
}

abbrev pub none_sorted : Sorted
none_sorted = record { persons = []; no_hardhat_boxes = []; forklifts = [] }

-- `names[cls_id]`, which raises `KeyError` on a class without a name.
abbrev pub named : Option String → Outcome String
named none = err Error.key_error
named (some label) = ok label

-- `is_person_conf` and `is_ppe_conf` are the tests `conf >= self.person_conf` and
-- `conf >= self.ppe_conf`.
module _ (is_person_conf is_ppe_conf : String → Bool) where
  -- The branches of the loop of `detect`.
  unfoldable pub sort_box : String → Box → String → Sorted → Sorted
  sort_box label xywh conf s =
      if one_of person_labels label
      then (if is_person_conf conf
          then record s { persons = s.persons ++ (bare ObjectClass.person xywh conf ∷ []) }
          else s)
      else (if one_of no_hardhat_labels label
          then (if is_ppe_conf conf
              then record s { no_hardhat_boxes = s.no_hardhat_boxes ++ (xywh ∷ []) }
              else s)
          else (if one_of forklift_labels label
              then (if is_person_conf conf
                  then record s {
                    forklifts = s.forklifts ++ (bare ObjectClass.forklift xywh conf ∷ []);
                  }
                  else s)
              else s))

  unfoldable pub sort_boxes : (ℕ → Option String) → List RawBox → Sorted → Outcome Sorted
  unfolding sort_box xyxy_to_xywh
  sort_boxes names [] s = ok s
  sort_boxes names (b ∷ bs) s = do
    label ← named (names b.cls)
    sort_boxes names bs (sort_box label (xyxy_to_xywh b.x1 b.y1 b.x2 b.y2) b.conf s)

  -- `PpeDetector.detect` on the result of the model.
  unfoldable pub detect : (ℕ → Option String) → List RawBox → Outcome (List Detection)
  unfolding sort_boxes attach_ppe
  detect names boxes = do
    s ← sort_boxes names boxes none_sorted
    ok (attach_ppe s.persons s.no_hardhat_boxes ++ s.forklifts)

-- The labels of roboflow_detector.py.
abbrev pub helmet_labels : List String
helmet_labels = "helmet" ∷ "hardhat" ∷ "hard-hat" ∷ []

abbrev pub head_labels : List String
head_labels = "head" ∷ "no-hardhat" ∷ "no_hardhat" ∷ []

pub record Prediction : Type 0 where
  pub label : String
  pub bbox : Box
  pub conf : String

unfoldable pub map_detections : (String → String) → List Prediction → List Detection
map_detections lower [] = []
map_detections lower (p ∷ ps) =
    let out = map_detections lower ps in
    if one_of head_labels (lower p.label)
    then record (bare ObjectClass.person p.bbox p.conf) { no_hardhat = true } ∷ out
    else (if one_of helmet_labels (lower p.label)
        then bare ObjectClass.person p.bbox p.conf ∷ out
        else out)
