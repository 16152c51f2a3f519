-- ===== src/Ingest/Rows.antt =====
-- What the three inserts of a new incident check and write (cloud/ingest_worker/service.py).
use factory_monitor.Base.{ℕ, ◌≡◌, sym, ap, subst, ◌∙◌, false, Option, none, ◌∷◌}
use factory_monitor.Base.Outcome.{ok}
use factory_monitor.Store.Incident.{Uuid, Incident}
use factory_monitor.Store.Db.{Db, find, open_with_key, event_seen, insert_incident, insert_event}
use factory_monitor.Store.Inserts.{
  bind_ok, bind_eq, insert_incident-ok, insert_event-ok, insert_incident_free, insert_event_free,
  OnlyIntegrity, bind-OnlyIntegrity, insert_incident-OnlyIntegrity, insert_event-OnlyIntegrity,
}
use factory_monitor.Escalation.Transition.Cases.{
  sent_rows, IsFree, enqueue-ok, enqueue_free, enqueue-OnlyIntegrity,
}
use factory_monitor.Ingest.Anomaly.{AnomalyEvent}
use factory_monitor.Ingest.Service.{
  OnCallResolver, Supply, new_incident, created_event, operator_phone, operator_template,
  insert_rows,
}

module _ (db : Db) (event : AnomalyEvent) (source : Uuid) (grace : ℕ)
    (resolver : Option OnCallResolver) (supply : Supply) where
  abbrev pub fresh : Incident
  fresh = new_incident supply.incident_id event grace supply.clocks

  abbrev pub with_rows : Db
  with_rows = record db {
    incidents = fresh ∷ db.incidents;
    events = created_event supply.incident_id source event ∷ db.events;
    outbox =
        sent_rows supply.outbox_id supply.incident_id 0
          (operator_phone db.roster resolver event supply.clocks.now)
          (operator_template db.roster event) supply.clocks.db_now db.outbox;
  }

  -- The new id, the deduplication key and the source event were free, and these rows are new.
  pub record IsInserted (db' : Db) : Type 0 where
    pub new_id : find supply.incident_id db.incidents ≡ none
    pub new_key : open_with_key event.dedup_key db.incidents ≡ false
    pub new_source : event_seen source db.events ≡ false
    pub rows : db' ≡ with_rows

  abbrev note : Db → Db
  note d = record d { events = created_event supply.incident_id source event ∷ d.events }

  abbrev send : Db → Db
  send d = record d {
    outbox =
        sent_rows supply.outbox_id supply.incident_id 0
          (operator_phone db.roster resolver event supply.clocks.now)
          (operator_template db.roster event) supply.clocks.db_now d.outbox;
  }

  pub insert_rows-ok :
      (db' : Db) → insert_rows db event source grace resolver supply ≡ ok db' → IsInserted db'
  unfolding insert_rows
  insert_rows-ok db' h =
      let (db₁, e₁, h₁) = bind_ok (insert_incident fresh db) _ db' h in
      let (db₂, e₂, h₂) =
        bind_ok (insert_event (created_event supply.incident_id source event) db₁) _ db' h₁ in
      let p₁ = insert_incident-ok fresh db db₁ e₁ in
      let p₂ = insert_event-ok (created_event supply.incident_id source event) db₁ db₂ e₂ in
      let p₃ = enqueue-ok _ _ _ _ _ _ db₂ db' h₂ in
      record {
        new_id = p₁.0;
        new_key = p₁.1;
        new_source = subst (λ (d : Db). event_seen source d.events ≡ false) (sym p₁.2) p₂.0;
        rows = p₃ ∙ ap send (sym p₂.1 ∙ ap note (sym p₁.2));
      }

  pub insert_rows_free :
      find supply.incident_id db.incidents ≡ none
      → open_with_key event.dedup_key db.incidents ≡ false
      → event_seen source db.events ≡ false
      → IsFree supply.outbox_id supply.incident_id 0 db.outbox
      → insert_rows db event source grace resolver supply ≡ ok with_rows
  unfolding insert_rows
  insert_rows_free i k s free =
      bind_eq (insert_incident fresh db) _ _ (insert_incident_free fresh db i k)
      ∙ bind_eq (insert_event (created_event supply.incident_id source event) _) _ _
          (insert_event_free (created_event supply.incident_id source event) _ s)
      ∙ enqueue_free supply.outbox_id supply.incident_id 0 _ _ supply.clocks.db_now _ free

  -- The only exception of the inserts.
  pub insert_rows-OnlyIntegrity : OnlyIntegrity (insert_rows db event source grace resolver supply)
  unfolding insert_rows
  insert_rows-OnlyIntegrity =
      bind-OnlyIntegrity (insert_incident fresh db) _ (insert_incident-OnlyIntegrity fresh db)
        (λ db₁.
          bind-OnlyIntegrity (insert_event (created_event supply.incident_id source event) db₁) _
            (insert_event-OnlyIntegrity (created_event supply.incident_id source event) db₁)
            (λ db₂.
              enqueue-OnlyIntegrity supply.outbox_id supply.incident_id 0 _ _ supply.clocks.db_now
                db₂))
