-- ===== src/Escalation/Worker.antt =====
-- cloud/escalation_worker/worker.py: the claim of a batch of due incidents, one transaction for
-- each claimed incident, and the poll that runs both.
use factory_monitor.Base.{
  ℕ, ◌+◌, String, Bool, true, false, ◌&&◌, ◌||◌, not, none, some, List, [], ◌∷◌, map, elem, keep,
  take, leb, if◌then◌else◌,
}
use factory_monitor.Base.Outcome.{Outcome, ok, err}
use factory_monitor.Base.Sorting.{sort_by}
use factory_monitor.Store.Incident.{
  Uuid, Time, seconds, IncidentStatus, Incident, before_or_at, before, is_null,
}
use factory_monitor.Store.Db.{Db, Clocks, find, update}
use factory_monitor.Escalation.Transition.{TransitionResult, fire_transition}

-- `_ACTIVE_STATUSES`
unfoldable pub is_active : IncidentStatus → Bool
is_active IncidentStatus.awaiting_operator = true
is_active IncidentStatus.tier1 = true
is_active IncidentStatus.tier2 = true
is_active _ = false

-- The WHERE clause of `_CLAIM_SQL`.
unfoldable pub is_due : Time → Incident → Bool
unfolding is_active
is_due at inc =
    is_active inc.status
    && (before_or_at inc.next_fire_at at
        && (is_null inc.claimed_until || before inc.claimed_until at))

-- ORDER BY next_fire_at, NULLs last.
abbrev pub fires_before : Incident → Incident → Bool
fires_before a b = elim a.next_fire_at [
  | none ↦ is_null b.next_fire_at
  | some t ↦ elim b.next_fire_at [ none ↦ true | some u ↦ leb t u ]
]

-- The subquery: the due rows that no other transaction has locked, oldest timer first. `locked`
-- is what SKIP LOCKED passes over.
unfoldable pub due_rows : (Uuid → Bool) → Time → ℕ → List Incident → List Incident
unfolding is_due
due_rows locked at batch rows =
    take batch (sort_by fires_before (keep (λ inc. is_due at inc && not (locked inc.id)) rows))

unfoldable pub stamp : String → Time → Incident → Incident
stamp worker until inc = record inc { claimed_by = some worker; claimed_until = some until }

unfoldable pub stamp_all : String → Time → List ℕ → List Incident → List Incident
unfolding stamp
stamp_all worker until ids [] = []
stamp_all worker until ids (x ∷ xs) =
    (if elem x.id ids then stamp worker until x else x) ∷ stamp_all worker until ids xs

abbrev pub ids_of : List Incident → List Uuid
ids_of = map (λ (inc : Incident). inc.id)

-- `_CLAIM_SQL`, committed: the ids that are returned, and the stamped table. RETURNING gives the rows
-- in no certain order: the list of ids stands for their set.
unfoldable pub claim : String → ℕ → ℕ → (Uuid → Bool) → Time → Db → List Uuid × Db
unfolding due_rows stamp_all
claim worker lease batch locked at db =
    let ids = ids_of (due_rows locked at batch db.incidents) in
    (ids, record db { incidents = stamp_all worker (at + seconds lease) ids db.incidents })

unfoldable pub unclaimed : Incident → Incident
unclaimed inc = record inc { claimed_by = none; claimed_until = none }

-- `_RELEASE_CLAIM_SQL`
unfoldable pub release_claim : Uuid → Db → Db
unfolding unclaimed
release_claim i db = record db { incidents = update i unclaimed db.incidents }

-- What the environment settles for each claimed incident: the clocks at its transaction, a new
-- UUID, whether `fault_hook` raises, and whether the release of the claim gets through.
pub record PollEnv : Type 0 where
  pub clocks : Uuid → Clocks
  pub new_id : Uuid → Uuid
  pub fault : Uuid → Bool
  pub releases : Uuid → Bool

-- The re-check of the locked row before a transition.
unfoldable pub still_due : Incident → Bool
unfolding is_active
still_due inc = is_active inc.status && not (is_null inc.next_fire_at)

-- The handler of `except Exception`: the transaction is rolled back, the claim is released.
unfoldable pub recover : PollEnv → Uuid → Db → Db
unfolding release_claim
recover env i db = if env.releases i then release_claim i db else db

-- The result of the transition, and whether the hook let it commit.
unfoldable pub commit_or_recover : PollEnv → Uuid → Db → Outcome (TransitionResult × Db) → Bool × Db
unfolding recover
commit_or_recover env i db (err e) = (false, recover env i db)
commit_or_recover env i db (ok (result, db₁)) =
    if env.fault i then (false, recover env i db) else (result.fired, db₁)

-- One turn of the loop over the claimed rows: whether the incident fired, and the database.
unfoldable pub process_incident : PollEnv → Uuid → Db → Bool × Db
unfolding still_due commit_or_recover fire_transition
process_incident env i db = elim (find i db.incidents) [
  | none ↦ (false, db)
  | some inc ↦
      if still_due inc
      then commit_or_recover env i db (fire_transition db inc (env.clocks i) (env.new_id i))
      else (false, db)
]

unfoldable pub process_all : PollEnv → List Uuid → Db → List Uuid × Db
unfolding process_incident
process_all env [] db = ([], db)
process_all env (i ∷ is) db =
    let (did_fire, db₁) = process_incident env i db in
    let (rest, db₂) = process_all env is db₁ in ((if did_fire then i ∷ rest else rest), db₂)

-- `poll_once_ids`: the ids that fired. `between` is what other transactions commit after the claim,
-- and `order` puts the claimed rows into the order in which the database returned them.
unfoldable pub poll_once_ids :
    (List Uuid → List Uuid)
    → String
    → ℕ
    → ℕ
    → (Uuid → Bool)
    → Time
    → PollEnv
    → (Db → Db)
    → Db
    → List Uuid × Db
unfolding claim process_all
poll_once_ids order worker lease batch locked at env between db =
    let (ids, db₁) = claim worker lease batch locked at db in
    process_all env (order ids) (between db₁)
