-- ===== src/System/Ingesting.antt =====
-- The ingest worker's transaction keeps the database consistent.
use factory_monitor.Base.{
  ℕ, ◌≡◌, refl, sym, subst, ◌∙◌, ◌⊎◌, inl, inr, Option, none, some, List, ◌∷◌, ◌==◌, ==_iff, String,
  arith, Bool-cases, some_eq,
}
use factory_monitor.Base.Outcome.{ok}
use factory_monitor.Store.Incident.{Uuid, Incident}
use factory_monitor.Store.Db.{Db, find}
use factory_monitor.Ingest.Anomaly.{AnomalyEvent}
use factory_monitor.Ingest.Service.{
  OnCallResolver, Supply, IncidentResult, new_incident, operator_phone, operator_template,
  create_incident_from_anomaly,
}
use factory_monitor.Ingest.Rows.{fresh, with_rows}
use factory_monitor.Ingest.Cases.{Ingested, refused_event, inserted, create-Ingested}
use factory_monitor.System.Tables.{CanBecome-refl, IsSound, Reached, Grows, Reached-Grows}
use factory_monitor.System.Consistent.{IsConsistent, Keeps, Keeps-refl, key}
use factory_monitor.System.Firing.{has_key-sent_rows}

find-cons :
    (x : Incident) (rows : List Incident) (j : Uuid) (y : Incident)
    → find j (x ∷ rows) ≡ some y
    → ((x.id ≡ j) × (x ≡ y)) ⊎ (find j rows ≡ some y)
unfolding find
find-cons x rows j y h = elim (Bool-cases (x.id == j)) [
  | inl e ↦ inl ((==_iff x.id j).0 e, some_eq (rw (e, find) at h))
  | inr e ↦ inr (rw (e, find) at h)
]

find-cons_ne :
    (x : Incident) (rows : List Incident) (j : Uuid) (y : Incident)
    → find x.id rows ≡ none
    → find j rows ≡ some y
    → find j (x ∷ rows) ≡ some y
unfolding find
find-cons_ne x rows j y free h = elim (Bool-cases (x.id == j)) [
  | inl e ↦
      absurd
        (none_some (sym free ∙ subst (λ k. find k rows ≡ some y) (sym ((==_iff x.id j).0 e)) h))
  | inr e ↦ rw (e, find) h
]
  where
    none_some : {z : Incident} → ◌≡◌ {A = Option Incident} none (some z) → ⊥
    none_some q = cc

find-cons_self : (x : Incident) (rows : List Incident) → find x.id (x ∷ rows) ≡ some x
unfolding find
find-cons_self x rows = ground arith

module _ (db : Db) (event : AnomalyEvent) (source : Uuid) (grace : ℕ)
    (resolver : Option OnCallResolver) (supply : Supply)
    (free : find supply.incident_id db.incidents ≡ none) (c : IsConsistent db) where
  abbrev new : Incident
  new = fresh db event source grace resolver supply

  fresh-IsSound : IsSound new
  unfolding new_incident
  fresh-IsSound = record { tier_of_status = refl; shown = refl; stopped = λ h. cc }

  id_of_new : new.id ≡ supply.incident_id
  unfolding new_incident
  id_of_new = refl

  new-Grows : Grows db.incidents (new ∷ db.incidents)
  new-Grows i x h =
      rw (find-cons_ne new db.incidents i x (rw id_of_new free) h)
        (omega arith, CanBecome-refl x.status)

  sent-Reached :
      (i : Uuid) (t : ℕ) → i ≡ supply.incident_id → t ≡ 0 → Reached (find i (new ∷ db.incidents)) t
  sent-Reached i t e z = rw (e ∙ sym id_of_new, find-cons_self new db.incidents, z) (omega arith)

  pub with_rows-Keeps : Keeps db (with_rows db event source grace resolver supply)
  with_rows-Keeps = record {
    grows = new-Grows;
    consistent = record {
      sound = λ i x h. elim (find-cons new db.incidents i x h) [
        | inl e ↦ subst IsSound e.1 fresh-IsSound
        | inr old ↦ c.sound i x old
      ];
      guarded = λ i t h. Reached-Grows db.incidents _ i t new-Grows (c.guarded i t h);
      keyed = λ i t h.
          elim (has_key-sent_rows supply.outbox_id supply.incident_id 0
            (operator_phone db.roster resolver event supply.clocks.now)
            (operator_template db.roster event) supply.clocks.db_now db.outbox (key i t) h) [
              | inl e ↦ sent-Reached i t e.0 e.1
              | inr old ↦ Reached-Grows db.incidents _ i t new-Grows (c.keyed i t old)
            ];
    };
  }

-- Whatever the ingest worker's transaction returns, the database stays consistent.
pub create_incident-Keeps :
    (parse_uuid : String → Option Uuid) (seen db later db' : Db) (event : AnomalyEvent) (grace : ℕ)
    (resolver : Option OnCallResolver) (supply : Supply) (r : IncidentResult)
    → create_incident_from_anomaly parse_uuid seen db later event grace resolver supply
      ≡ ok (r, db')
    → IsConsistent db
    → Keeps db db'
create_incident-Keeps parse_uuid seen db later db' event grace resolver supply r h c =
    let (source, cases) =
      create-Ingested parse_uuid seen db later db' event grace resolver supply r h in
    keep_of source cases
  where
    keep_of : (source : Uuid) → Ingested db event source grace resolver supply r db' → Keeps db db'
    keep_of source (refused_event n why e) = subst (Keeps db) e (Keeps-refl db c)
    keep_of source (inserted e rows) =
        subst (Keeps db) (sym rows.rows)
          (with_rows-Keeps db event source grace resolver supply rows.new_id c)
