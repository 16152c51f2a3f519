-- ===== src/Edge/Detector/Attachment.antt =====
-- PpeDetector.detect (edge/vision/detector.py) against a description by the kinds of the boxes.
use factory_monitor.Base.{
  ℕ, String, ◌≡◌, refl, sym, subst, ap, ◌∙◌, ◌⊎◌, Bool, true, false, ◌&&◌, ◌||◌, Option, List, [],
  ◌∷◌, ◌++◌, map, any, keep, str_eq, eq_iff, inl, inr, Bool-cases, Option-cases, if◌then◌else◌,
  arith,
}
use mathlib.Core.List.{append-nil, append_assoc}
use factory_monitor.Base.Outcome.{Outcome, ok, err, ◌>>=◌}
use factory_monitor.Ingest.Anomaly.{ObjectClass}
use factory_monitor.Edge.Detector.{
  Box, Detection, one_of, person_labels, no_hardhat_labels, forklift_labels, xyxy_to_xywh, contains,
  attach_ppe, RawBox, Sorted, bare, none_sorted, sort_box, named, sort_boxes, detect,
}

pub record NamedBox : Type 0 where
  pub label : String
  pub bbox : Box
  pub conf : String

unfoldable pub name_boxes : (ℕ → Option String) → List RawBox → Outcome (List NamedBox)
unfolding xyxy_to_xywh
name_boxes names [] = ok []
name_boxes names (b ∷ bs) = do
  label ← named (names b.cls)
  rest ← name_boxes names bs
  ok (record { label = label; bbox = xyxy_to_xywh b.x1 b.y1 b.x2 b.y2; conf = b.conf } ∷ rest)

first_only : (a : Bool) → (a || false) ≡ true → a ≡ true
first_only a h = ground arith

one_of_three :
    (a b c : Bool) → (a || (b || (c || false))) ≡ true → (a ≡ true) ⊎ (b ≡ true) ⊎ (c ≡ true)
one_of_three true b c h = inl refl
one_of_three false true c h = inr (inl refl)
one_of_three false false c h = inr (inr (first_only c h))

person_label_alone :
    (l : String)
    → one_of person_labels l ≡ true
    → (one_of no_hardhat_labels l ≡ false) × (one_of forklift_labels l ≡ false)
person_label_alone l h =
    subst (λ t. (one_of no_hardhat_labels t ≡ false) × (one_of forklift_labels t ≡ false))
      (sym ((eq_iff l "person").0 (first_only _ h))) (refl, refl)

head_label_alone :
    (l : String) → one_of no_hardhat_labels l ≡ true → one_of forklift_labels l ≡ false
head_label_alone l h =
    elim (one_of_three (str_eq l "no-hardhat") (str_eq l "no_hardhat") (str_eq l "head") h) [
      | inl e ↦ no_forklift "no-hardhat" e refl
      | inr (inl e) ↦ no_forklift "no_hardhat" e refl
      | inr (inr e) ↦ no_forklift "head" e refl
    ]
  where
    no_forklift :
        (t : String)
        → str_eq l t ≡ true
        → one_of forklift_labels t ≡ false
        → one_of forklift_labels l ≡ false
    no_forklift t e h = subst (λ t. one_of forklift_labels t ≡ false) (sym ((eq_iff l t).0 e)) h

module _ (is_person_conf is_ppe_conf : String → Bool) where
  abbrev pub is_person : NamedBox → Bool
  is_person b = one_of person_labels b.label && is_person_conf b.conf

  abbrev pub is_bare_head : NamedBox → Bool
  is_bare_head b = one_of no_hardhat_labels b.label && is_ppe_conf b.conf

  abbrev pub is_forklift : NamedBox → Bool
  is_forklift b = one_of forklift_labels b.label && is_person_conf b.conf

  abbrev pub bare_of : ObjectClass → NamedBox → Detection
  bare_of object_class b = bare object_class b.bbox b.conf

  -- A person is without a hard hat if the centre of a bare head is in it.
  abbrev pub person_of : List NamedBox → NamedBox → Detection
  person_of bs b = record (bare_of ObjectClass.person b) {
    no_hardhat = any (λ (n : NamedBox). contains b.bbox n.bbox) (keep is_bare_head bs);
  }

  -- The persons and then the forklifts, in the order of the boxes.
  abbrev pub described : List NamedBox → List Detection
  described bs =
      map (person_of bs) (keep is_person bs)
      ++ map (bare_of ObjectClass.forklift) (keep is_forklift bs)

  abbrev sorted_of : List NamedBox → Sorted
  sorted_of bs = record {
    persons = map (bare_of ObjectClass.person) (keep is_person bs);
    no_hardhat_boxes = map (λ (b : NamedBox). b.bbox) (keep is_bare_head bs);
    forklifts = map (bare_of ObjectClass.forklift) (keep is_forklift bs);
  }

  abbrev joined : Sorted → Sorted → Sorted
  joined s t = record {
    persons = s.persons ++ t.persons;
    no_hardhat_boxes = s.no_hardhat_boxes ++ t.no_hardhat_boxes;
    forklifts = s.forklifts ++ t.forklifts;
  }

  joined_assoc : (s t u : Sorted) → joined (joined s t) u ≡ joined s (joined t u)
  joined_assoc s t u =
      rw
        (
          append_assoc s.persons t.persons u.persons,
          append_assoc s.no_hardhat_boxes t.no_hardhat_boxes u.no_hardhat_boxes,
          append_assoc s.forklifts t.forklifts u.forklifts,
        )
        refl

  clash : {A : Type 0} → true ≡ false → A
  clash h = cc

  nothing : (s : Sorted) → s ≡ joined s none_sorted
  nothing s = rw (append-nil s.persons, append-nil s.no_hardhat_boxes, append-nil s.forklifts) refl

  one_person :
      (s : Sorted) (ds : List Detection)
      → record s { persons = s.persons ++ ds } ≡ joined s (record none_sorted { persons = ds })
  one_person s ds = rw (append-nil s.no_hardhat_boxes, append-nil s.forklifts) refl

  one_head :
      (s : Sorted) (bs : List Box)
      → record s { no_hardhat_boxes = s.no_hardhat_boxes ++ bs }
        ≡ joined s (record none_sorted { no_hardhat_boxes = bs })
  one_head s bs = rw (append-nil s.persons, append-nil s.forklifts) refl

  one_forklift :
      (s : Sorted) (ds : List Detection)
      → record s { forklifts = s.forklifts ++ ds }
        ≡ joined s (record none_sorted { forklifts = ds })
  one_forklift s ds = rw (append-nil s.persons, append-nil s.no_hardhat_boxes) refl

  -- The branches by the five tests: the labels exclude each other.
  branches :
      (b : NamedBox) (s : Sorted) (p h f c d : Bool)
      → (p ≡ true → (h ≡ false) × (f ≡ false))
      → (h ≡ true → f ≡ false)
      → (if p
          then (if c
              then record s { persons = s.persons ++ (bare_of ObjectClass.person b ∷ []) }
              else s)
          else (if h
              then (if d
                  then record s { no_hardhat_boxes = s.no_hardhat_boxes ++ (b.bbox ∷ []) }
                  else s)
              else (if f
                  then (if c
                      then record s {
                        forklifts = s.forklifts ++ (bare_of ObjectClass.forklift b ∷ []);
                      }
                      else s)
                  else s)))
        ≡ joined s (record {
          persons = map (bare_of ObjectClass.person) (if p && c then b ∷ [] else []);
          no_hardhat_boxes = map (λ (b : NamedBox). b.bbox) (if h && d then b ∷ [] else []);
          forklifts = map (bare_of ObjectClass.forklift) (if f && c then b ∷ [] else []);
        })
  branches b s true true f c d i j = clash (i refl).0
  branches b s true false true c d i j = clash (i refl).1
  branches b s true false false true d i j = one_person s _
  branches b s true false false false d i j = nothing s
  branches b s false true true c d i j = clash (j refl)
  branches b s false true false c true i j = one_head s _
  branches b s false true false c false i j = nothing s
  branches b s false false true true d i j = one_forklift s _
  branches b s false false true false d i j = nothing s
  branches b s false false false c d i j = nothing s

  sort_box_lem :
      (b : NamedBox) (s : Sorted)
      → sort_box is_person_conf is_ppe_conf b.label b.bbox b.conf s ≡ joined s (sorted_of (b ∷ []))
  unfolding sort_box
  sort_box_lem b s =
      branches b s (one_of person_labels b.label) (one_of no_hardhat_labels b.label)
        (one_of forklift_labels b.label) (is_person_conf b.conf) (is_ppe_conf b.conf)
        (person_label_alone b.label) (head_label_alone b.label)

  map-keep_cons :
      {A : Type 0} (f : NamedBox → A) (test : NamedBox → Bool) (n : NamedBox) (ns : List NamedBox)
      → map f (keep test (n ∷ [])) ++ map f (keep test ns) ≡ map f (keep test (n ∷ ns))
  map-keep_cons f test n ns = elim (Bool-cases (test n)) [ inl e ↦ rw e refl | inr e ↦ rw e refl ]

  sorted_cons :
      (n : NamedBox) (ns : List NamedBox)
      → joined (sorted_of (n ∷ [])) (sorted_of ns) ≡ sorted_of (n ∷ ns)
  sorted_cons n ns =
      rw
        (
          map-keep_cons (bare_of ObjectClass.person) is_person n ns,
          map-keep_cons (λ (b : NamedBox). b.bbox) is_bare_head n ns,
          map-keep_cons (bare_of ObjectClass.forklift) is_forklift n ns,
        )
        refl

  bind_cons :
      (o : Outcome (List NamedBox)) (n : NamedBox) (s : Sorted)
      → (o >>= (λ ns. ok (joined (joined s (sorted_of (n ∷ []))) (sorted_of ns))))
        ≡ ((o >>= (λ ns. ok (n ∷ ns))) >>= (λ ns. ok (joined s (sorted_of ns))))
  bind_cons (ok ns) n s = ap ok (joined_assoc s _ _ ∙ ap (joined s) (sorted_cons n ns))
  bind_cons (err e) n s = refl

  sort_boxes_lem :
      (names : ℕ → Option String) (bs : List RawBox) (s : Sorted)
      → sort_boxes is_person_conf is_ppe_conf names bs s
        ≡ (name_boxes names bs >>= (λ ns. ok (joined s (sorted_of ns))))
  unfolding sort_boxes name_boxes
  sort_boxes_lem names [] s = ap ok (nothing s)
  sort_boxes_lem names (b ∷ bs) s = elim (Option-cases (names b.cls)) [
    | inl e ↦ rw e refl
    | inr (label, e) ↦ rw e (
        sort_boxes_lem names bs _
        ∙ ap (λ r. name_boxes names bs >>= (λ ns. ok (joined r (sorted_of ns))))
            (sort_box_lem
              (record { label = label; bbox = xyxy_to_xywh b.x1 b.y1 b.x2 b.y2; conf = b.conf }) s)
        ∙ bind_cons (name_boxes names bs) _ s)
  ]

  any-map :
      (test : Box → Bool) (bs : List NamedBox)
      → any test (map (λ (b : NamedBox). b.bbox) bs) ≡ any (λ (b : NamedBox). test b.bbox) bs
  any-map test [] = refl
  any-map test (b ∷ bs) = ap (λ r. test b.bbox || r) (any-map test bs)

  attach-map :
      (bs heads : List NamedBox)
      → attach_ppe (map (bare_of ObjectClass.person) bs) (map (λ (b : NamedBox). b.bbox) heads)
        ≡ map
            (λ b. record (bare_of ObjectClass.person b) {
              no_hardhat = any (λ (n : NamedBox). contains b.bbox n.bbox) heads;
            })
            bs
  unfolding attach_ppe
  attach-map [] heads = refl
  attach-map (b ∷ bs) heads = rw (any-map (contains b.bbox) heads, attach-map bs heads) refl

  -- `detect` returns the persons and then the forklifts among the boxes with enough confidence,
  -- each in the order of the boxes, where exactly those persons are without a hard hat that have
  -- the centre of a bare head with enough confidence in their box; and it fails exactly if a class
  -- of a box has no name.
  pub detect_lem :
      (names : ℕ → Option String) (bs : List RawBox)
      → detect is_person_conf is_ppe_conf names bs
        ≡ (name_boxes names bs >>= (λ ns. ok (described ns)))
  unfolding detect
  detect_lem names bs =
      ap (λ o. o >>= (λ (s : Sorted). ok (attach_ppe s.persons s.no_hardhat_boxes ++ s.forklifts)))
        (sort_boxes_lem names bs none_sorted)
      ∙ returned (name_boxes names bs)
    where
      returned :
          (o : Outcome (List NamedBox))
          → ((o >>= (λ ns. ok (joined none_sorted (sorted_of ns))))
              >>= (λ (s : Sorted). ok (attach_ppe s.persons s.no_hardhat_boxes ++ s.forklifts)))
            ≡ (o >>= (λ ns. ok (described ns)))
      returned (ok ns) =
          ap (λ ds. ok (ds ++ map (bare_of ObjectClass.forklift) (keep is_forklift ns)))
            (attach-map (keep is_person ns) (keep is_bare_head ns))
      returned (err e) = refl
