-- ===== src/System/Working.antt =====
-- The escalation worker's transactions keep the database consistent.
use factory_monitor.Base.{
  ℕ, ◌≡◌, refl, sym, subst, ◌∙◌, inl, inr, Bool, Option, none, some, List, String, arith,
  Bool-cases, Option-cases, some_eq, ◌+◌, elem,
}
use mathlib.Core.Option
use factory_monitor.Base.Outcome.{Outcome, ok, err}
use factory_monitor.Store.Incident.{Uuid, Time, seconds, Incident}
use factory_monitor.Store.Db.{Db, find}
use factory_monitor.Store.Lookup.{update-none}
use factory_monitor.Escalation.Transition.{TransitionResult}
use factory_monitor.Escalation.Worker.{
  stamp, stamp_all, claim, due_rows, ids_of, unclaimed, release_claim, PollEnv, still_due, recover,
  commit_or_recover, process_incident,
}
use factory_monitor.System.Tables.{
  IsSound, Sound, CanBecome, CanBecome-refl, Grows, stamped, find-stamp_all,
}
use factory_monitor.System.Consistent.{IsConsistent, Keeps, Keeps-refl, carry, carry_update}
use factory_monitor.System.Firing.{fire_transition-Keeps}

unclaimed-IsSound : (x : Incident) → IsSound x → IsSound (unclaimed x)
unfolding unclaimed
unclaimed-IsSound x s = record {
  tier_of_status = s.tier_of_status;
  shown = s.shown;
  stopped = s.stopped;
}

pub release_claim-Keeps : (i : Uuid) (db : Db) → IsConsistent db → Keeps db (release_claim i db)
unfolding release_claim
release_claim-Keeps i db c = elim (Option-cases (find i db.incidents)) [
  | inl gone ↦
      subst (λ rows. Keeps db (record db { incidents = rows }))
        (sym (update-none i unclaimed db.incidents gone)) (Keeps-refl db c)
  | inr (x, found) ↦
      carry_update db unclaimed x (λ y. refl) i found (omega arith) (CanBecome-refl x.status)
        (unclaimed-IsSound x) _ refl refl refl c
]

stamped-IsSound :
    (worker : String) (until : Time) (ids : List Uuid) (x : Incident)
    → IsSound x
    → IsSound (stamped worker until ids x)
unfolding stamp
stamped-IsSound worker until ids x s = elim (Bool-cases (elem x.id ids)) [
  | inl e ↦
      rw e (record { tier_of_status = s.tier_of_status; shown = s.shown; stopped = s.stopped })
  | inr e ↦ rw e s
]

stamped-tier :
    (worker : String) (until : Time) (ids : List Uuid) (x : Incident)
    → (stamped worker until ids x).current_tier ≡ x.current_tier
unfolding stamp
stamped-tier worker until ids x = ground arith

stamped-CanBecome :
    (worker : String) (until : Time) (ids : List Uuid) (x : Incident)
    → CanBecome x.status (stamped worker until ids x).status
unfolding stamp
stamped-CanBecome worker until ids x = elim (Bool-cases (elem x.id ids)) [
  | inl e ↦ rw e (CanBecome-refl x.status)
  | inr e ↦ rw e (CanBecome-refl x.status)
]

map_found :
    (f : Incident → Incident) (o : Option Incident) (y : Incident)
    → Option.map f o ≡ some y
    → (x : Incident) × (o ≡ some x) × (f x ≡ y)
map_found f none y h = cc
map_found f (some x) y h = (x, refl, some_eq h)

pub claim-Keeps :
    (worker : String) (lease batch : ℕ) (locked : Uuid → Bool) (at : Time) (db : Db)
    → IsConsistent db
    → Keeps db (claim worker lease batch locked at db).1
unfolding claim
claim-Keeps worker lease batch locked at db c = carry db _ c sound grows refl (λ k. refl)
  where
    ids : List Uuid
    ids = ids_of (due_rows locked at batch db.incidents)

    until : Time
    until = at + seconds lease

    sound : Sound (stamp_all worker until ids db.incidents)
    sound i y h =
        let (x, found, e) =
          map_found (stamped worker until ids) (find i db.incidents) y
            (sym (find-stamp_all worker until ids i db.incidents) ∙ h) in
        subst IsSound e (stamped-IsSound worker until ids x (c.sound i x found))

    grows : Grows db.incidents (stamp_all worker until ids db.incidents)
    grows i x h = rw (find-stamp_all worker until ids i db.incidents) (
        rw h (omega (arith, stamped-tier worker until ids x), stamped-CanBecome worker until ids x))

pub recover-Keeps :
    (env : PollEnv) (i : Uuid) (db : Db) → IsConsistent db → Keeps db (recover env i db)
unfolding recover
recover-Keeps env i db c = elim (Bool-cases (env.releases i)) [
  | inl e ↦ rw e (release_claim-Keeps i db c)
  | inr e ↦ rw e (Keeps-refl db c)
]

commit_or_recover-Keeps :
    (env : PollEnv) (i : Uuid) (db : Db) (o : Outcome (TransitionResult × Db))
    → IsConsistent db
    → ((r : TransitionResult) (d : Db) → o ≡ ok (r, d) → Keeps db d)
    → Keeps db (commit_or_recover env i db o).1
unfolding commit_or_recover
commit_or_recover-Keeps env i db (err e) c h = recover-Keeps env i db c
commit_or_recover-Keeps env i db (ok (r, d)) c h = elim (Bool-cases (env.fault i)) [
  | inl e ↦ rw e (recover-Keeps env i db c)
  | inr e ↦ rw e (h r d refl)
]

-- One turn of the worker's loop, whatever the hook and the release of the claim do.
pub process_incident-Keeps :
    (env : PollEnv) (i : Uuid) (db : Db) → IsConsistent db → Keeps db (process_incident env i db).1
unfolding process_incident
process_incident-Keeps env i db c = elim (Option-cases (find i db.incidents)) [
  | inl gone ↦ rw (gone, process_incident) (Keeps-refl db c)
  | inr (inc, found) ↦ elim (Bool-cases (still_due inc)) [
    | inl due ↦
        rw (found, process_incident)
          (rw due (
            commit_or_recover-Keeps env i db _ c
              λ r d e. fire_transition-Keeps db d i inc _ _ r c found e))
    | inr late ↦ rw (found, process_incident) (rw late (Keeps-refl db c))
  ]
]
