-- ===== src/Seeds/Again.antt =====
-- Seeding the demo data again (cloud/common/seed_demo.py, seed_cameras.py).
use factory_monitor.Base.{
  ℕ, String, ◌≡◌, ◌↔◌, refl, ap, ◌∙◌, inl, inr, Bool, true, false, List, [], ◌∷◌, ◌==◌, ==_iff,
  str_eq, eq_iff, All, Bool-cases, if◌then◌else◌,
}
use factory_monitor.Store.Incident.{Uuid, Time}
use factory_monitor.Store.Rows.{EscalationRole, OnCallAssignment}
use factory_monitor.Seeds.{
  Table, SeedDb, upsert, upsert_all, keep_old, new_delay, new_name, demo_users, role_users,
  demo_tiers, assignment_rows, seed_demo_roster, tier_rows, seed_demo_tiers, demo_zones, zone_rows,
  demo_cameras, camera_rows, seed_cameras,
}

module _ {K R : Type 0} (same : K → K → Bool) where
  abbrev Differ : K → List (K × R) → Type 0
  Differ k rows = All (λ (row : K × R). same row.0 k ≡ false) rows

  -- The keys of the rows are pairwise different.
  abbrev pub HaveOwnKeys : List (K × R) → Type 0
  HaveOwnKeys [] = Unit
  HaveOwnKeys ((k, r) ∷ rows) = Differ k rows × HaveOwnKeys rows

module _ {K R : Type 0} (same : K → K → Bool) (law : (a b : K) → (same a b ≡ true) ↔ (a ≡ b))
    (merge : R → R → R) (merged : (x r : R) → merge (merge x r) r ≡ merge x r)
    (merge_self : (r : R) → merge r r ≡ r) where
  -- The row under the key is as its insertion would leave it.
  abbrev IsSettled : Table K R → K × R → Type 0
  IsSettled [] (k, r) = ⊥
  IsSettled ((i, x) ∷ t) (k, r) = if same i k then (merge x r ≡ x) else IsSettled t (k, r)

  settled_same : (k : K) (r : R) (t : Table K R) → IsSettled t (k, r) → upsert same merge k r t ≡ t
  unfolding upsert
  settled_same k r [] h = elim h [ ]
  settled_same k r ((i, x) ∷ t) h = elim (Bool-cases (same i k)) [
    | inl e ↦ rw (e, upsert) (ap (λ y. (i, y) ∷ t) (rw e at h))
    | inr e ↦ rw (e, upsert) (ap (λ rest. (i, x) ∷ rest) (settled_same k r t (rw e at h)))
  ]

  settles : (k : K) (r : R) (t : Table K R) → IsSettled (upsert same merge k r t) (k, r)
  unfolding upsert
  settles k r [] = rw ((law k k).1 refl, upsert) (merge_self r)
  settles k r ((i, x) ∷ t) = elim (Bool-cases (same i k)) [
    | inl e ↦ rw (e, upsert) (rw e (merged x r))
    | inr e ↦ rw (e, upsert) (rw e (settles k r t))
  ]

  -- Another key's insertion changes nothing of that.
  other_key-IsSettled :
      (k j : K) (r s : R) (t : Table K R)
      → same j k ≡ false
      → IsSettled t (k, r)
      → IsSettled (upsert same merge j s t) (k, r)
  unfolding upsert
  other_key-IsSettled k j r s [] ne h = elim h [ ]
  other_key-IsSettled k j r s ((i, x) ∷ t) ne h = elim (Bool-cases (same i j)) [
    | inl e ↦
        let other : same i k ≡ false = ap (λ c. same c k) ((law i j).0 e) ∙ ne in
        rw (e, upsert) (rw other (rw other at h))
    | inr e ↦ elim (Bool-cases (same i k)) [
      | inl f ↦ rw (e, upsert) (rw f (rw f at h))
      | inr f ↦ rw (e, upsert) (rw f (other_key-IsSettled k j r s t ne (rw f at h)))
    ]
  ]

  later_rows-IsSettled :
      (k : K) (r : R) (rows : List (K × R)) (t : Table K R)
      → Differ same k rows
      → IsSettled t (k, r)
      → IsSettled (upsert_all same merge rows t) (k, r)
  unfolding upsert_all
  later_rows-IsSettled k r [] t d h = h
  later_rows-IsSettled k r ((j, s) ∷ rows) t d h =
      later_rows-IsSettled k r rows _ d.1 (other_key-IsSettled k j r s t d.0 h)

  settles_each :
      (rows : List (K × R)) (t : Table K R)
      → HaveOwnKeys same rows
      → All (IsSettled (upsert_all same merge rows t)) rows
  unfolding upsert_all
  settles_each [] t d = tt
  settles_each ((k, r) ∷ rows) t d = (
    later_rows-IsSettled k r rows _ d.0 (settles k r t),
    settles_each rows (upsert same merge k r t) d.1,
  )

  settled_same_each :
      (rows : List (K × R)) (t : Table K R)
      → All (IsSettled t) rows
      → upsert_all same merge rows t ≡ t
  unfolding upsert_all
  settled_same_each [] t h = refl
  settled_same_each ((k, r) ∷ rows) t h =
      ap (upsert_all same merge rows) (settled_same k r t h.0) ∙ settled_same_each rows t h.1

  upsert_twice :
      (rows : List (K × R)) (t : Table K R)
      → HaveOwnKeys same rows
      → upsert_all same merge rows (upsert_all same merge rows t) ≡ upsert_all same merge rows t
  upsert_twice rows t d = settled_same_each rows _ (settles_each rows t d)

abbrev AreKept : {R : Type 0} → Table ℕ R → List (ℕ × R) → Type 0
AreKept {R} t rows = All (IsSettled ◌==◌ ==_iff (keep_old {R = R}) (λ x r. refl) (λ r. refl) t) rows

-- A row that is kept is kept for any row with its key.
kept :
    {R : Type 0} (k : ℕ) (r s : R) (t : Table ℕ R)
    → IsSettled ◌==◌ ==_iff keep_old (λ x r. refl) (λ r. refl) t (k, r)
    → IsSettled ◌==◌ ==_iff keep_old (λ x r. refl) (λ r. refl) t (k, s)
kept k r s [] h = h
kept k r s ((i, x) ∷ t) h = elim (Bool-cases (i == k)) [
  | inl e ↦ rw e refl
  | inr e ↦ rw e (kept k r s t (rw e at h))
]

kept_later :
    (uuid5 : String → Uuid) (now now₂ : Time) (roles : List (EscalationRole × Uuid))
    (t : Table ℕ OnCallAssignment)
    → AreKept t (assignment_rows uuid5 now roles)
    → AreKept t (assignment_rows uuid5 now₂ roles)
unfolding assignment_rows
kept_later uuid5 now now₂ [] t h = tt
kept_later uuid5 now now₂ ((role, user_id) ∷ roles) t h =
    (kept _ _ _ t h.0, kept_later uuid5 now now₂ roles t h.1)

roster_again :
    (uuid5 : String → Uuid) (now now₂ : Time) (t : Table ℕ OnCallAssignment)
    → HaveOwnKeys ◌==◌ (assignment_rows uuid5 now role_users)
    → upsert_all ◌==◌ keep_old
        (assignment_rows uuid5 now₂ role_users)
        (upsert_all ◌==◌ keep_old (assignment_rows uuid5 now role_users) t)
      ≡ upsert_all ◌==◌ keep_old (assignment_rows uuid5 now role_users) t
roster_again uuid5 now now₂ t d =
    settled_same_each ◌==◌ ==_iff keep_old (λ x r. refl) (λ r. refl) _ _
      (kept_later uuid5 now now₂ role_users _ (
        settles_each ◌==◌ ==_iff keep_old (λ x r. refl) (λ r. refl)
          (assignment_rows uuid5 now role_users) t d))

own_zones : HaveOwnKeys str_eq (zone_rows demo_zones)
unfolding zone_rows
own_zones = ((refl, (refl, tt)), ((refl, tt), (tt, tt)))

own_cameras : HaveOwnKeys str_eq (camera_rows demo_cameras)
unfolding camera_rows
own_cameras = (
  (refl, (refl, (refl, (refl, (refl, tt))))),
  (
    (refl, (refl, (refl, (refl, tt)))),
    ((refl, (refl, (refl, tt))), ((refl, (refl, tt)), ((refl, tt), (tt, tt)))),
  ),
)

own_users : HaveOwnKeys ◌==◌ demo_users
own_users = ((refl, (refl, tt)), ((refl, tt), (tt, tt)))

cameras_again : (db : SeedDb) → seed_cameras (seed_cameras db) ≡ seed_cameras db
unfolding seed_cameras
cameras_again db =
    let zones =
      upsert_twice str_eq eq_iff keep_old (λ x r. refl) (λ r. refl) (zone_rows demo_zones) db.zones
        own_zones in
    let cameras =
      upsert_twice str_eq eq_iff new_name (λ x r. refl) (λ r. refl) (camera_rows demo_cameras)
        db.cameras own_cameras in
    λ i. record db { zones = zones i; cameras = cameras i }

duties_again :
    (uuid5 : String → Uuid) (now now₂ : Time) (db : SeedDb)
    → HaveOwnKeys ◌==◌ (assignment_rows uuid5 now role_users)
    → seed_demo_roster uuid5 now₂ (seed_demo_roster uuid5 now db) ≡ seed_demo_roster uuid5 now db
unfolding seed_demo_roster
duties_again uuid5 now now₂ db own_duties =
    let users =
      upsert_twice ◌==◌ ==_iff keep_old (λ x r. refl) (λ r. refl) demo_users db.users own_users in
    let duties = roster_again uuid5 now now₂ db.assignments own_duties in
    λ i. record db { users = users i; assignments = duties i }

-- Where `uuid5` gives the assignments of the three roles different ids, and the tiers of the site:
-- seeding the tiers again with the same delay, or the cameras again, changes nothing; and seeding the
-- roster again, at whatever time, changes nothing either, so that it does not extend the duties.
pub seeding_again :
    (uuid5 : String → Uuid) (site_id : String) (delay : ℕ) (now now₂ : Time) (db : SeedDb)
    → HaveOwnKeys ◌==◌ (tier_rows uuid5 site_id delay demo_tiers)
    → HaveOwnKeys ◌==◌ (assignment_rows uuid5 now role_users)
    → (seed_demo_tiers uuid5 site_id delay (seed_demo_tiers uuid5 site_id delay db)
        ≡ seed_demo_tiers uuid5 site_id delay db)
      × (seed_cameras (seed_cameras db) ≡ seed_cameras db)
      × (seed_demo_roster uuid5 now₂ (seed_demo_roster uuid5 now db)
          ≡ seed_demo_roster uuid5 now db)
unfolding seed_demo_tiers
seeding_again uuid5 site_id delay now now₂ db own_tiers own_duties = (
  ap (λ t. record db { tiers = t })
      (upsert_twice ◌==◌ ==_iff new_delay (λ x r. refl) (λ r. refl)
        (tier_rows uuid5 site_id delay demo_tiers) db.tiers own_tiers),
  cameras_again db,
  duties_again uuid5 now now₂ db own_duties,
)
