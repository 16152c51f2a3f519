-- ===== src/Seeds.antt =====
-- cloud/common/seed_demo.py and seed_cameras.py: the demo data, inserted with ON CONFLICT. `uuid5` is a
-- parameter.
pub mod Again
use factory_monitor.Base.{
  ℕ, ◌+◌, ◌*◌, ◌^◌, ◌-◌, String, Bool, true, false, Option, none, some, List, [], ◌∷◌, ◌==◌, str_eq,
  to_text, find?, if◌then◌else◌,
}
use Prim.Native.String.{◌++◌ as text_append}
use factory_monitor.Store.Incident.{Uuid, Time, seconds}
use factory_monitor.Store.Rows.{EscalationRole, EscalationTier, User, OnCallAssignment}

-- The columns that the seeds write.
pub record Zone : Type 0 where
  pub site_id : String
  pub camera_id : Option String
  pub name : Option String
  pub kind : String
  pub polygon : String

pub record Camera : Type 0 where
  pub site_id : String
  pub name : Option String
  pub rtsp_path : String
  pub whep_url : Option String
  pub zone_id : Option String

-- A row under its primary key.
abbrev pub Table : Type 0 → Type 0 → Type 0
Table K R = List (K × R)

pub record SeedDb : Type 0 where
  pub users : Table Uuid User
  pub assignments : Table Uuid OnCallAssignment
  pub tiers : Table Uuid EscalationTier
  pub zones : Table String Zone
  pub cameras : Table String Camera

module _ {K R : Type 0} (same : K → K → Bool) (merge : R → R → R) where
  -- INSERT ... ON CONFLICT: `merge` makes the row of the old one and the one that was to be inserted.
  unfoldable pub upsert : K → R → Table K R → Table K R
  upsert k r [] = (k, r) ∷ []
  upsert k r ((i, x) ∷ rows) = if same i k then (i, merge x r) ∷ rows else (i, x) ∷ upsert k r rows

  -- One after the other.
  unfoldable pub upsert_all : List (K × R) → Table K R → Table K R
  unfolding upsert
  upsert_all [] t = t
  upsert_all ((k, r) ∷ rows) t = upsert_all rows (upsert k r t)

-- DO NOTHING
abbrev pub keep_old : {R : Type 0} → R → R → R
keep_old x r = x

-- DO UPDATE SET delay_seconds, template_name
abbrev pub new_delay : EscalationTier → EscalationTier → EscalationTier
new_delay x r = record x { delay_seconds = r.delay_seconds; template_name = r.template_name }

-- DO UPDATE SET name, whep_url, zone_id
abbrev pub new_name : Camera → Camera → Camera
new_name x r = record x { name = r.name; whep_url = r.whep_url; zone_id = r.zone_id }

-- "aaaaaaaa-0000-0000-0000-00000000000n"
abbrev pub demo_uuid : ℕ → Uuid
demo_uuid n = 2863311530 * 2 ^ 96 + n

abbrev demo_user : ℕ → String → String → Uuid × User
demo_user n full_name phone = (
  demo_uuid n,
  record {
    id = demo_uuid n;
    site_id = "plant-01";
    full_name = full_name;
    phone_e164 = phone;
    is_active = true;
  },
)

-- `_DEMO_USERS`; no query reads the column `role` of a user.
abbrev pub demo_users : List (Uuid × User)
demo_users =
    demo_user 1 "Demo Operator" "+15550000001"
    ∷ demo_user 2 "Demo Floor Manager" "+15550000002"
    ∷ demo_user 3 "Demo Plant Director" "+15550000003"
    ∷ []

abbrev pub role_name : EscalationRole → String
role_name EscalationRole.operator = "OPERATOR"
role_name EscalationRole.floor_manager = "FLOOR_MANAGER"
role_name EscalationRole.plant_director = "PLANT_DIRECTOR"

-- `_ROLE_USER_MAP`
abbrev pub role_users : List (EscalationRole × Uuid)
role_users =
    (EscalationRole.operator, demo_uuid 1)
    ∷ (EscalationRole.floor_manager, demo_uuid 2)
    ∷ (EscalationRole.plant_director, demo_uuid 3)
    ∷ []

-- `_DEMO_TIERS`
abbrev pub demo_tiers : List (ℕ × EscalationRole × String)
demo_tiers =
    (0, EscalationRole.operator, "operator_alert_v1")
    ∷ (1, EscalationRole.floor_manager, "floor_manager_alert_v1")
    ∷ (2, EscalationRole.plant_director, "plant_director_alert_v1")
    ∷ []

abbrev pub days : ℕ → Time
days n = seconds (n * 86400)

-- `uuid5 name` is `uuid.uuid5(uuid.NAMESPACE_DNS, name)`.
module _ (uuid5 : String → Uuid) where
  unfoldable pub assignment_rows :
      Time → List (EscalationRole × Uuid) → List (Uuid × OnCallAssignment)
  assignment_rows now [] = []
  assignment_rows now ((role, user_id) ∷ more) =
      (
        uuid5 (text_append "demo-assign-" (role_name role)),
        record {
          site_id = "plant-01";
          role = role;
          zone_id = none;
          user_id = user_id;
          starts_at = now - days 1;
          ends_at = now + days 30;
        },
      )
      ∷ assignment_rows now more

  unfoldable pub seed_demo_roster : Time → SeedDb → SeedDb
  unfolding upsert_all assignment_rows
  seed_demo_roster now db = record db {
    users = upsert_all ◌==◌ keep_old demo_users db.users;
    assignments = upsert_all ◌==◌ keep_old (assignment_rows now role_users) db.assignments;
  }

  abbrev pub tier_uuid : String → ℕ → Uuid
  tier_uuid site_id tier =
      uuid5 (text_append "demo-tier-" (text_append site_id (text_append "-" (to_text tier))))

  unfoldable pub tier_rows :
      String → ℕ → List (ℕ × EscalationRole × String) → List (Uuid × EscalationTier)
  tier_rows site_id delay [] = []
  tier_rows site_id delay ((tier, role, template_name) ∷ more) =
      (
        tier_uuid site_id tier,
        record {
          site_id = site_id;
          anomaly_type = none;
          tier = tier;
          role = role;
          delay_seconds = delay;
          template_name = template_name;
        },
      )
      ∷ tier_rows site_id delay more

  unfoldable pub seed_demo_tiers : String → ℕ → SeedDb → SeedDb
  unfolding upsert_all tier_rows
  seed_demo_tiers site_id delay db = record db {
    tiers = upsert_all ◌==◌ new_delay (tier_rows site_id delay demo_tiers) db.tiers;
  }

pub record DemoCamera : Type 0 where
  pub id : String
  pub zone_id : String
  pub name : String

abbrev demo_camera : String → String → String → DemoCamera
demo_camera id zone_id name = record { id = id; zone_id = zone_id; name = name }

-- `_DEMO_CAMERAS`
abbrev pub demo_cameras : List DemoCamera
demo_cameras =
    demo_camera "cam_01" "zone_weld_bay" "Weld Bay Cam 1"
    ∷ demo_camera "cam_02" "zone_weld_bay" "Weld Bay Cam 2"
    ∷ demo_camera "cam_03" "zone_assembly" "Assembly Cam 1"
    ∷ demo_camera "cam_04" "zone_assembly" "Assembly Cam 2"
    ∷ demo_camera "cam_05" "zone_loading_dock" "Loading Dock Cam 1"
    ∷ demo_camera "cam_06" "zone_loading_dock" "Loading Dock Cam 2"
    ∷ []

-- `_DEMO_ZONES`
abbrev pub demo_zones : List (String × String)
demo_zones =
    ("zone_weld_bay", "Weld Bay")
    ∷ ("zone_assembly", "Assembly")
    ∷ ("zone_loading_dock", "Loading Dock")
    ∷ []

-- The first camera of the zone; `next` raises where there is none, which is then left out here.
unfoldable pub zone_rows : List (String × String) → List (String × Zone)
zone_rows [] = []
zone_rows ((zone_id, name) ∷ more) =
    let rest = zone_rows more in
    elim (find? (λ (c : DemoCamera). str_eq c.zone_id zone_id) demo_cameras) [
      | none ↦ rest
      | some c ↦
          (
            zone_id,
            record {
              site_id = "plant-01";
              camera_id = some c.id;
              name = some name;
              kind = "required_ppe";
              polygon = "[]";
            },
          )
          ∷ rest
    ]

unfoldable pub camera_rows : List DemoCamera → List (String × Camera)
camera_rows [] = []
camera_rows (c ∷ more) =
    (
      c.id,
      record {
        site_id = "plant-01";
        name = some c.name;
        rtsp_path = text_append "rtsp://mediamtx:8554/" c.id;
        whep_url = some (text_append "/whep/" (text_append c.id "/whep"));
        zone_id = some c.zone_id;
      },
    )
    ∷ camera_rows more

unfoldable pub seed_cameras : SeedDb → SeedDb
unfolding upsert_all zone_rows camera_rows
seed_cameras db = record db {
  zones = upsert_all str_eq keep_old (zone_rows demo_zones) db.zones;
  cameras = upsert_all str_eq new_name (camera_rows demo_cameras) db.cameras;
}
