-- ===== src/Escalation/Config.antt =====
-- cloud/common/escalation.py and cloud/common/on_call_resolver.py: which tier configuration and
-- which on-call user a transition takes.
use factory_monitor.Base.{
  ℕ, String, Bool, true, false, ◌&&◌, ◌||◌, Option, none, some, List, [], ◌∷◌, ◌==◌, str_eq, leb,
  ltb, keep, head?, if◌then◌else◌,
}
use mathlib.Core.Option
use factory_monitor.Base.Sorting.{sort_by}
use factory_monitor.Store.Incident.{Time, AnomalyType, anomaly_eq}
use factory_monitor.Store.Rows.{EscalationTier, EscalationRole, role_eq, User, OnCallAssignment}
use factory_monitor.Store.Db.{Roster}

-- `IS NULL ASC`: false before true.
abbrev pub null_rank {ℓ} : {A : Type ℓ} → Option A → ℕ
null_rank (some a) = 0
null_rank none = 1

abbrev pub anomaly_or_null : AnomalyType → Option AnomalyType → Bool
anomaly_or_null a none = true
anomaly_or_null a (some b) = anomaly_eq b a

unfoldable pub tier_matches : String → AnomalyType → ℕ → EscalationTier → Bool
tier_matches site a t row =
    str_eq row.site_id site && (row.tier == t && anomaly_or_null a row.anomaly_type)

abbrev pub specific_first : EscalationTier → EscalationTier → Bool
specific_first r s = leb (null_rank r.anomaly_type) (null_rank s.anomaly_type)

unfoldable pub fetch_tier_config :
    List EscalationTier → String → AnomalyType → ℕ → Option EscalationTier
unfolding tier_matches
fetch_tier_config rows site a t = head? (sort_by specific_first (keep (tier_matches site a t) rows))

-- With a zone, the rows of that zone and the plant-wide rows; without one, the plant-wide rows.
abbrev pub zone_matches : Option String → Option String → Bool
zone_matches none none = true
zone_matches none (some z) = false
zone_matches (some zone) none = true
zone_matches (some zone) (some z) = str_eq z zone

unfoldable pub covers : EscalationRole → String → Option String → Time → OnCallAssignment → Bool
covers role site zone at a =
    str_eq a.site_id site
    && (role_eq a.role role
        && (leb a.starts_at at && (ltb at a.ends_at && zone_matches zone a.zone_id)))

-- A joined row: an assignment and the user that it names.
pub record Duty : Type 0 where
  pub assignment : OnCallAssignment
  pub user : User

unfoldable pub find_user : ℕ → List User → Option User
find_user i [] = none
find_user i (u ∷ us) = if u.id == i then some u else find_user i us

-- JOIN on_call_assignments ON user_id = users.id; `users.id` is the primary key.
unfoldable pub join_users : List User → List OnCallAssignment → List Duty
unfolding find_user
join_users us [] = []
join_users us (a ∷ as') =
    let rest = join_users us as' in
    elim (find_user a.user_id us) [
      | none ↦ rest
      | some u ↦ record { assignment = a; user = u } ∷ rest
    ]

-- ORDER BY zone_id IS NULL ASC, starts_at DESC
abbrev pub duty_first : Duty → Duty → Bool
duty_first d e =
    ltb (null_rank d.assignment.zone_id) (null_rank e.assignment.zone_id)
    || (null_rank d.assignment.zone_id == null_rank e.assignment.zone_id
        && leb e.assignment.starts_at d.assignment.starts_at)

unfoldable pub resolve_duty :
    List User → List OnCallAssignment → EscalationRole → String → Option String → Time → Option Duty
unfolding covers join_users
resolve_duty us rows role site zone at =
    head? (sort_by duty_first (join_users us (keep (covers role site zone at) rows)))

unfoldable pub resolve : Roster → EscalationRole → String → Option String → Time → Option User
unfolding resolve_duty
resolve roster role site zone at =
    Option.map (λ d. d.user) (resolve_duty roster.users roster.assignments role site zone at)
