-- ===== src/Examples/Ingesting.antt =====
-- Witnesses for the ingest worker.
use factory_monitor.Base.{
  ◌+◌, ◌≡◌, refl, ap, ◌∙◌, ◌⊎◌, inl, true, false, Option, some, List, [], ◌∷◌,
}
use factory_monitor.Base.Outcome.{Error, ok, err}
use factory_monitor.Store.Incident.{Uuid, Incident, seconds}
use factory_monitor.Store.Rows.{IncidentEvent}
use factory_monitor.Store.Db.{
  Db, find, event_seen, open_with_key, has_key, has_outbox_id, source_is,
}
use factory_monitor.Escalation.Config.{resolve, fetch_tier_config}
use factory_monitor.Escalation.Transition.Cases.{IsFree}
use factory_monitor.Ingest.Anomaly.{AnomalyEvent}
use factory_monitor.Ingest.Service.{
  Reason, made, refused, create_incident_from_anomaly, created_event, new_incident,
}
use factory_monitor.Ingest.Rows.{with_rows}
use factory_monitor.Ingest.Consumer.{Status, World, finish, handle_message, run_forever}
use factory_monitor.Ingest.Once.{duplicate_refused, fresh_rows}
use factory_monitor.Ingest.Creation.{
  IsIncidentOf, IsCreation, operator_of, IsEnqueued, fresh_created,
}
use factory_monitor.Ingest.Redelivery.{
  answered_since_blocks, bad_id_blocks, redelivery_changes_nothing, handle_valid,
}
use factory_monitor.System.Steps.{empty_db}
use factory_monitor.Examples.{roster, event, supply, later_supply, parse_digit}

abbrev pub start : Db
start = empty_db roster

-- The database with the first incident.
abbrev pub opened : Db
opened = with_rows start event 7 60 (some resolve) supply

abbrev bad_event : AnomalyEvent
bad_event = record event { event_id = "x" }

pub supply-IsFree : IsFree 200 100 0 start.outbox
unfolding has_key has_outbox_id
supply-IsFree = record { id_free = refl; key_free = refl }

pub event_created :
    create_incident_from_anomaly parse_digit start start start event 60 (some resolve) supply
    ≡ ok (made 100, opened)
unfolding find event_seen open_with_key
event_created =
    fresh_rows parse_digit start start start event 7 refl 60 (some resolve) supply refl refl refl
      refl refl supply-IsFree

seen_again : event_seen 7 opened.events ≡ true
unfolding event_seen source_is created_event
seen_again = refl

duplicate_refused_example :
    (create_incident_from_anomaly parse_digit start opened opened event 60
        (some resolve)
        later_supply
      ≡ ok (refused Reason.duplicate_event_id, opened))
    ⊎ ((create_incident_from_anomaly parse_digit start opened opened event 60
            (some resolve)
            later_supply
          ≡ ok (refused Reason.duplicate_open_dedup, opened))
        ⊎ ((create_incident_from_anomaly parse_digit start opened opened event 60
                (some resolve)
                later_supply
              ≡ err Error.integrity_error)
            × (event_seen 7 opened.events ≡ false)
            × (open_with_key event.dedup_key opened.incidents ≡ false)))
duplicate_refused_example =
    duplicate_refused parse_digit start opened opened event 7 refl 60 (some resolve) later_supply
      (inl seen_again)

fresh_created_example :
    (x : Incident) × (e : IncidentEvent) × (db' : Db) × (create_incident_from_anomaly parse_digit
        start start start event 60
        (some resolve)
        supply
      ≡ ok (made 100, db'))
    × (db'.incidents ≡ x ∷ start.incidents)
    × IsIncidentOf event 100 (supply.clocks.now + seconds 60) x
    × (db'.events ≡ e ∷ start.events)
    × IsCreation 100 7 e
    × IsEnqueued
        (operator_of (some resolve) roster event supply.clocks.now)
        (fetch_tier_config roster.tiers event.site_id event.anomaly_type 0)
        100
        start.outbox
        db'.outbox
unfolding find event_seen open_with_key
fresh_created_example =
    fresh_created parse_digit start start start event 7 refl 60 (some resolve) supply refl refl refl
      refl refl supply-IsFree

-- Records that are events already; one of them has no identifier of digits.
abbrev validate : AnomalyEvent → Option AnomalyEvent
validate e = some e

abbrev Consumer : Type 0
Consumer = World AnomalyEvent validate parse_digit 60 (some resolve)

abbrev consumer : Db → List Uuid → Consumer
consumer db sent = record { db = db; dead_letters = []; announced = sent; offset = 0 }

handled_first :
    handle_message AnomalyEvent validate parse_digit 60
      (some resolve)
      start
      start
      supply
      event
      (consumer start [])
    ≡ ok (Status.handled Reason.created, consumer opened (100 ∷ []))
handled_first =
    handle_valid AnomalyEvent validate parse_digit 60 (some resolve) start start supply event
      (consumer start []) event refl
    ∙ ap (finish AnomalyEvent validate parse_digit 60 (some resolve) (consumer start []))
        event_created

redelivery_changes_nothing_example :
    (handle_message AnomalyEvent validate parse_digit 60
        (some resolve)
        start
        opened
        later_supply
        event
        (consumer opened (100 ∷ []))
      ≡ ok (Status.handled Reason.duplicate_event_id, consumer opened (100 ∷ [])))
    ⊎ (handle_message AnomalyEvent validate parse_digit 60
          (some resolve)
          start
          opened
          later_supply
          event
          (consumer opened (100 ∷ []))
        ≡ ok (Status.handled Reason.duplicate_open_dedup, consumer opened (100 ∷ [])))
redelivery_changes_nothing_example =
    redelivery_changes_nothing AnomalyEvent validate parse_digit 60 (some resolve) start start start
      opened supply later_supply event (consumer start []) (consumer opened (100 ∷ [])) event 7 refl
      refl handled_first (λ h. h)

bad_id_blocks_example :
    run_forever AnomalyEvent validate parse_digit 60
      (some resolve)
      ((start, start, supply, bad_event) ∷ (start, start, later_supply, event) ∷ [])
      (consumer start [])
    ≡ (false, consumer start [])
bad_id_blocks_example =
    bad_id_blocks AnomalyEvent validate parse_digit 60 (some resolve) start start supply bad_event
      (consumer start []) bad_event ((start, start, later_supply, event) ∷ []) refl refl

-- Another event with the key of the first.
abbrev again : AnomalyEvent
again = record event { event_id = "8" }

answered_since_blocks_example :
    run_forever AnomalyEvent validate parse_digit 60
      (some resolve)
      ((start, start, later_supply, again) ∷ [])
      (consumer opened [])
    ≡ (false, consumer opened [])
unfolding event_seen open_with_key new_incident
answered_since_blocks_example =
    answered_since_blocks AnomalyEvent validate parse_digit 60 (some resolve) start start
      later_supply again (consumer opened []) again 8 [] refl refl refl refl refl refl refl
