-- ===== src/System/Acting.antt =====
-- Acknowledge and resolve keep the database consistent, whatever was committed since they loaded
-- the incident.
use factory_monitor.Base.{
  ◌≡◌, refl, subst, ◌⊎◌, inl, inr, Bool, true, Option, some, String, arith, Option-cases,
}
use factory_monitor.Base.Outcome.{ok, err_ok}
use factory_monitor.Store.Incident.{Uuid, Time, IncidentStatus, Incident}
use factory_monitor.Store.Db.{Db, find, update}
use factory_monitor.Escalation.Actions.{
  is_acked, is_ackable, is_resolved, is_resolvable, acknowledged, resolved, acknowledge_row,
  resolve_row, acknowledge_incident, resolve_incident,
}
use factory_monitor.System.Consistent.{IsConsistent, Keeps, Keeps-refl, IsAnswer, carry_answer}

is_acked-eq : (s : IncidentStatus) → is_acked s ≡ true → s ≡ IncidentStatus.ack
is_acked-eq IncidentStatus.ack h = refl
is_acked-eq _ h = cc

is_resolved-eq : (s : IncidentStatus) → is_resolved s ≡ true → s ≡ IncidentStatus.resolved
is_resolved-eq IncidentStatus.resolved h = refl
is_resolved-eq _ h = cc

-- A successful action on a loaded row: nothing where it is there already, or the change.
abbrev pub Did : Bool → (Incident → Incident) → Db → Incident → Db → Type 0
Did allowed f db inc db' =
    (allowed ≡ true)
    × (db'.incidents ≡ update inc.id f db.incidents)
    × (db'.idempotency ≡ db.idempotency)
    × (db'.outbox ≡ db.outbox)

pub acknowledge_row-ok :
    (db db' : Db) (key : Option String) (now : Time) (inc x : Incident)
    → acknowledge_row db key now inc ≡ ok (x, db')
    → ((inc.status ≡ IncidentStatus.ack) × (db ≡ db'))
      ⊎ Did (is_ackable inc.status) (acknowledged now) db inc db'
unfolding acknowledge_row
acknowledge_row-ok db db' key now inc x h = ground (arith, is_acked-eq inc.status)

pub resolve_row-ok :
    (db db' : Db) (note : String) (key : Option String) (now : Time) (inc x : Incident)
    → resolve_row db note key now inc ≡ ok (x, db')
    → ((inc.status ≡ IncidentStatus.resolved) × (db ≡ db'))
      ⊎ Did (is_resolvable inc.status) (resolved now note inc) db inc db'
unfolding resolve_row
resolve_row-ok db db' note key now inc x h = ground (arith, is_resolved-eq inc.status)

pub acknowledged-IsAnswer : (now : Time) → IsAnswer (acknowledged now)
unfolding acknowledged
acknowledged-IsAnswer now = record {
  keeps_id = λ x. refl;
  keeps_tier = λ x. refl;
  answers = λ x. inl refl;
  no_timer = λ x. refl;
  no_deadline = λ x. refl;
}

pub resolved-IsAnswer :
    (now : Time) (note : String) (loaded : Incident) → IsAnswer (resolved now note loaded)
unfolding resolved
resolved-IsAnswer now note loaded = record {
  keeps_id = λ x. refl;
  keeps_tier = λ x. refl;
  answers = λ x. inr refl;
  no_timer = λ x. refl;
  no_deadline = λ x. refl;
}

pub acknowledge_of :
    (seen db db' : Db) (i : Uuid) (key : Option String) (now : Time) (x : Incident)
    → acknowledge_incident seen db i key now ≡ ok (x, db')
    → (inc : Incident) × (find i seen.incidents ≡ some inc)
      × (acknowledge_row db key now inc ≡ ok (x, db'))
unfolding acknowledge_incident
acknowledge_of seen db db' i key now x h = elim (Option-cases (find i seen.incidents)) [
  | inl gone ↦ absurd (err_ok (rw (gone, acknowledge_incident) at h))
  | inr (inc, found) ↦ (inc, found, rw (found, acknowledge_incident) at h)
]

pub resolve_of :
    (seen db db' : Db) (i : Uuid) (note : String) (key : Option String) (now : Time) (x : Incident)
    → resolve_incident seen db i note key now ≡ ok (x, db')
    → (inc : Incident) × (find i seen.incidents ≡ some inc)
      × (resolve_row db note key now inc ≡ ok (x, db'))
unfolding resolve_incident
resolve_of seen db db' i note key now x h = elim (Option-cases (find i seen.incidents)) [
  | inl gone ↦ absurd (err_ok (rw (gone, resolve_incident) at h))
  | inr (inc, found) ↦ (inc, found, rw (found, resolve_incident) at h)
]

pub acknowledge_incident-Keeps :
    (seen db db' : Db) (i : Uuid) (key : Option String) (now : Time) (x : Incident)
    → acknowledge_incident seen db i key now ≡ ok (x, db')
    → IsConsistent db
    → Keeps db db'
acknowledge_incident-Keeps seen db db' i key now x h c =
    let (inc, found, row) = acknowledge_of seen db db' i key now x h in
    elim (acknowledge_row-ok db db' key now inc x row) [
      | inl same ↦ subst (Keeps db) same.1 (Keeps-refl db c)
      | inr did ↦
          carry_answer db db' (acknowledged now) inc.id (acknowledged-IsAnswer now) did.1 did.2
            did.3 c
    ]

pub resolve_incident-Keeps :
    (seen db db' : Db) (i : Uuid) (note : String) (key : Option String) (now : Time) (x : Incident)
    → resolve_incident seen db i note key now ≡ ok (x, db')
    → IsConsistent db
    → Keeps db db'
resolve_incident-Keeps seen db db' i note key now x h c =
    let (inc, found, row) = resolve_of seen db db' i note key now x h in
    elim (resolve_row-ok db db' note key now inc x row) [
      | inl same ↦ subst (Keeps db) same.1 (Keeps-refl db c)
      | inr did ↦
          carry_answer db db' (resolved now note inc) inc.id (resolved-IsAnswer now note inc) did.1
            did.2 did.3 c
    ]
