-- ===== src/Escalation/Choice.antt =====
-- Which configuration and which user a transition takes (`fetch_tier_config` of
-- cloud/common/escalation.py, `resolve` of cloud/common/on_call_resolver.py): the best of the rows
-- that match, and none only where no row matches.
use factory_monitor.Base.{
  ℕ, ◌≡◌, String, Bool, true, false, ◌&&◌, ◌||◌, Option, none, some, List, [], ◌∷◌, ◌==◌, leb, ltb,
  keep, arith, ◌⊎◌, inl, inr, Option-cases, All, All-map, keep-All, Among, All-Among, ◌≤◌, refl,
}
use factory_monitor.Base.Sorting.{first-sort_by, sort_by-none}
use factory_monitor.Store.Incident.{Time, AnomalyType, is_null}
use factory_monitor.Store.Rows.{EscalationTier, EscalationRole, User, OnCallAssignment}
use factory_monitor.Escalation.Config.{
  null_rank, tier_matches, specific_first, fetch_tier_config, covers, Duty, find_user, join_users,
  duty_first, resolve_duty,
}

specific_total : (r s : EscalationTier) → specific_first r s ≡ false → specific_first s r ≡ true
specific_total r s h = le_total (null_rank r.anomaly_type) (null_rank s.anomaly_type) h
  where
    le_total : (a b : ℕ) → leb a b ≡ false → leb b a ≡ true
    le_total a b h = ground arith

specific_trans :
    (r s t : EscalationTier)
    → specific_first r s ≡ true
    → specific_first s t ≡ true
    → specific_first r t ≡ true
specific_trans r s t h k =
    le_trans (null_rank r.anomaly_type) (null_rank s.anomaly_type) (null_rank t.anomaly_type) h k
  where
    le_trans : (a b c : ℕ) → leb a b ≡ true → leb b c ≡ true → leb a c ≡ true
    le_trans a b c h k = ground arith

-- A row for the anomaly type itself is not behind one for every type.
abbrev pub IsAsSpecific : EscalationTier → EscalationTier → Type 0
IsAsSpecific cfg r = ((b : AnomalyType) × (cfg.anomaly_type ≡ some b)) ⊎ (r.anomaly_type ≡ none)

specific-IsAsSpecific : (cfg r : EscalationTier) → specific_first cfg r ≡ true → IsAsSpecific cfg r
specific-IsAsSpecific cfg r h = elim (Option-cases cfg.anomaly_type) [
  | inr e ↦ inl e
  | inl e ↦ elim (Option-cases r.anomaly_type) [
    | inl f ↦ inr f
    | inr (b, f) ↦ absurd (clash (rw (e, f) at h))
  ]
]
  where
    clash : leb 1 0 ≡ true → ⊥
    clash q = cc

-- Either no row matches the site, the type and the tier, and none is found; or one of the rows is
-- found that matches, and no row that matches is for the type itself while the found one is for every
-- type.
pub fetch_tier_config_lem :
    (rows : List EscalationTier) (site : String) (a : AnomalyType) (t : ℕ)
    → ((fetch_tier_config rows site a t ≡ none) × (keep (tier_matches site a t) rows ≡ []))
      ⊎ ((cfg : EscalationTier) × (fetch_tier_config rows site a t ≡ some cfg)
          × Among cfg rows
          × (tier_matches site a t cfg ≡ true)
          × All (IsAsSpecific cfg) (keep (tier_matches site a t) rows))
unfolding fetch_tier_config
fetch_tier_config_lem rows site a t = elim (Option-cases (fetch_tier_config rows site a t)) [
  | inl e ↦ inl (e, sort_by-none specific_first specific_total specific_trans _ e)
  | inr (cfg, e) ↦
      let best =
        first-sort_by specific_first specific_total specific_trans
          (λ r. Among r rows × (tier_matches site a t r ≡ true)) _ cfg
          (keep-All (λ r. Among r rows) (tier_matches site a t) rows (All-Among rows)) e in
      inr (cfg, e, best.0.0, best.0.1, All-map _ _ _ (λ r h. specific-IsAsSpecific cfg r h) best.1)
]

abbrev rank_first : ℕ → ℕ → Time → Time → Bool
rank_first a b s t = ltb a b || (a == b && leb t s)

rank_total : (a b : ℕ) (s t : Time) → rank_first a b s t ≡ false → rank_first b a t s ≡ true
rank_total a b s t h = ground arith

rank_trans :
    (a b c : ℕ) (s t u : Time)
    → rank_first a b s t ≡ true
    → rank_first b c t u ≡ true
    → rank_first a c s u ≡ true
rank_trans a b c s t u h k = ground arith

duty_total : (d e : Duty) → duty_first d e ≡ false → duty_first e d ≡ true
duty_total d e h =
    rank_total (null_rank d.assignment.zone_id) (null_rank e.assignment.zone_id)
      d.assignment.starts_at e.assignment.starts_at h

duty_trans : (d e f : Duty) → duty_first d e ≡ true → duty_first e f ≡ true → duty_first d f ≡ true
duty_trans d e f h k =
    rank_trans (null_rank d.assignment.zone_id) (null_rank e.assignment.zone_id)
      (null_rank f.assignment.zone_id) d.assignment.starts_at e.assignment.starts_at
      f.assignment.starts_at h k

-- A joined row is one of the assignments, with the user whom it names.
abbrev pub IsJoined : List User → List OnCallAssignment → (OnCallAssignment → Bool) → Duty → Type 0
IsJoined us all test d =
    Among d.assignment all
    × (test d.assignment ≡ true)
    × (find_user d.assignment.user_id us ≡ some d.user)

join_users-All :
    (us : List User) (all : List OnCallAssignment) (test : OnCallAssignment → Bool)
    (rows : List OnCallAssignment)
    → All (λ a. Among a all × (test a ≡ true)) rows
    → All (IsJoined us all test) (join_users us rows)
unfolding join_users
join_users-All us all test [] h = tt
join_users-All us all test (a ∷ rows) h = elim (Option-cases (find_user a.user_id us)) [
  | inl gone ↦ rw (gone, join_users) (join_users-All us all test rows h.1)
  | inr (u, found) ↦
      rw (found, join_users) ((h.0.0, h.0.1, found), join_users-All us all test rows h.1)
]

-- A duty of the zone is before a plant-wide one, and of two that are alike the later started one.
abbrev pub IsPreferred : Duty → Duty → Type 0
IsPreferred d e =
    (((z : String) × (d.assignment.zone_id ≡ some z)) × (e.assignment.zone_id ≡ none))
    ⊎ ((is_null d.assignment.zone_id ≡ is_null e.assignment.zone_id)
        × (e.assignment.starts_at ≤ d.assignment.starts_at))

duty-IsPreferred : (d e : Duty) → duty_first d e ≡ true → IsPreferred d e
duty-IsPreferred d e h = elim (Option-cases d.assignment.zone_id) [
  | inl p ↦ elim (Option-cases e.assignment.zone_id) [
    | inl q ↦ inr (rw (p, q) refl, started 1 (rw (p, q) at h))
    | inr (z, q) ↦ absurd (behind (rw (p, q) at h))
  ]
  | inr (y, p) ↦ elim (Option-cases e.assignment.zone_id) [
    | inl q ↦ inl ((y, p), q)
    | inr (z, q) ↦ inr (rw (p, q) refl, started 0 (rw (p, q) at h))
  ]
]
  where
    started :
        (n : ℕ)
        → rank_first n n d.assignment.starts_at e.assignment.starts_at ≡ true
        → e.assignment.starts_at ≤ d.assignment.starts_at
    started n q = ground arith

    behind : rank_first 1 0 d.assignment.starts_at e.assignment.starts_at ≡ true → ⊥
    behind q = cc

-- Either no duty of a user covers the role, the site, the zone and the time, and none is found; or
-- one of the assignments that covers them is found, with the user whom it names, and each other one is
-- behind it: one of the zone before a plant-wide one, and then the one that started last.
pub resolve_duty_lem :
    (us : List User) (rows : List OnCallAssignment) (role : EscalationRole) (site : String)
    (zone : Option String) (at : Time)
    → ((resolve_duty us rows role site zone at ≡ none)
        × (join_users us (keep (covers role site zone at) rows) ≡ []))
      ⊎ ((d : Duty) × (resolve_duty us rows role site zone at ≡ some d)
          × IsJoined us rows (covers role site zone at) d
          × All (IsPreferred d) (join_users us (keep (covers role site zone at) rows)))
unfolding resolve_duty
resolve_duty_lem us rows role site zone at =
    elim (Option-cases (resolve_duty us rows role site zone at)) [
      | inl e ↦ inl (e, sort_by-none duty_first duty_total duty_trans _ e)
      | inr (d, e) ↦
          let best =
            first-sort_by duty_first duty_total duty_trans
              (IsJoined us rows (covers role site zone at)) _ d
              (join_users-All us rows (covers role site zone at) _
                (keep-All (λ a. Among a rows) (covers role site zone at) rows (All-Among rows)))
              e in
          inr (d, e, best.0, All-map _ _ _ (λ x h. duty-IsPreferred d x h) best.1)
    ]
