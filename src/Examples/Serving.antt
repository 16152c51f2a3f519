-- ===== src/Examples/Serving.antt =====
-- Witnesses for the live view's clients, the fallback, the seeds and the routes.
use factory_monitor.Base.{
  ◌≡◌, refl, String, true, Option, none, some, List, [], ◌∷◌, map, str_eq, ℤ, pos, if◌then◌else◌,
}
use factory_monitor.Base.Integer.{to_text}
use factory_monitor.Store.Incident.{Uuid, Incident}
use factory_monitor.Ingest.Service.{new_incident}
use factory_monitor.Live.Manager.{connect}
use factory_monitor.Live.Fanout.{PollTurn, cursor_at, Round, supervise}
use factory_monitor.Live.Fanout.Windows.{recent, older_changes_not_sent}
use factory_monitor.Seeds.{
  SeedDb, seed_demo_roster, seed_demo_tiers, seed_cameras, tier_rows, assignment_rows,
}
use factory_monitor.Seeds.Again.{seeding_again}
use factory_monitor.Api.Window.{parse_window, IsWindow, parse_window-IsWindow}
use factory_monitor.Examples.{event, clocks_at}
use factory_monitor.Examples.Relaying.{texts}

abbrev rows : List Incident
rows = new_incident 3 event 60 (clocks_at 5) ∷ new_incident 4 event 60 (clocks_at 9) ∷ []

abbrev polls : List PollTurn
polls =
    record { rows = some rows; takes = λ i. true }
    ∷ record { rows = none; takes = λ i. true }
    ∷ record { rows = some rows; takes = λ i. true }
    ∷ []

older_changes_not_sent_example :
    supervise texts 2 (Round.unhealthy 7 (map (recent (cursor_at 7)) polls) ∷ []) (connect 1 [])
    ≡ supervise texts 2 (Round.unhealthy 7 polls ∷ []) (connect 1 [])
older_changes_not_sent_example = older_changes_not_sent texts 2 7 polls [] (connect 1 [])

-- Different ids for the names of these rows.
abbrev uuid5 : String → Uuid
uuid5 s =
    if str_eq s "demo-assign-OPERATOR"
    then 1
    else if str_eq s "demo-assign-FLOOR_MANAGER"
    then 2
    else if str_eq s "demo-assign-PLANT_DIRECTOR"
    then 3
    else if str_eq s "demo-tier-plant-01-0"
    then 4
    else if str_eq s "demo-tier-plant-01-1"
    then 5
    else 6

abbrev unseeded : SeedDb
unseeded = record { users = []; assignments = []; tiers = []; zones = []; cameras = [] }

seeding_again_example :
    (seed_demo_tiers uuid5 "plant-01" 5 (seed_demo_tiers uuid5 "plant-01" 5 unseeded)
      ≡ seed_demo_tiers uuid5 "plant-01" 5 unseeded)
    × (seed_cameras (seed_cameras unseeded) ≡ seed_cameras unseeded)
    × (seed_demo_roster uuid5 900 (seed_demo_roster uuid5 800 unseeded)
        ≡ seed_demo_roster uuid5 800 unseeded)
unfolding tier_rows assignment_rows to_text
seeding_again_example =
    seeding_again uuid5 "plant-01" 5 800 900 unseeded ((refl, (refl, tt)), ((refl, tt), (tt, tt)))
      ((refl, (refl, tt)), ((refl, tt), (tt, tt)))

abbrev int : String → Option ℤ
int s = if str_eq s "90" then some (pos 90) else none

parse_window-IsWindow_example : IsWindow (parse_window (λ s. s) int "90m")
parse_window-IsWindow_example = parse_window-IsWindow (λ s. s) int "90m"
