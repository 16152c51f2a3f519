-- ===== src/Examples/Escalating.antt =====
-- Witnesses for the escalation worker, the operators' actions and the system's steps.
use factory_monitor.Base.{
  ◌≤◌, ◌≡◌, refl, ◌⊎◌, Bool, true, false, none, some, [], ◌∷◌, elem, length, keep, arith, All,
  Among, ◌&&◌,
}
use factory_monitor.Base.Outcome.{ok}
use factory_monitor.Base.Sorting.{sort_by}
use factory_monitor.Store.Incident.{Time, IncidentStatus, AnomalyType, Incident}
use factory_monitor.Store.Rows.{
  EscalationTier, EscalationRole, EventType, Payload, OnCallAssignment,
}
use factory_monitor.Store.Db.{Db, find, update, fired, has_key, has_outbox_id}
use factory_monitor.Escalation.Config.{
  resolve, fetch_tier_config, tier_matches, resolve_duty, covers, Duty, join_users,
}
use factory_monitor.Escalation.Choice.{
  fetch_tier_config_lem, resolve_duty_lem, IsJoined, IsAsSpecific, IsPreferred,
}
use factory_monitor.Escalation.Transition.{outbox_row}
use factory_monitor.Escalation.Actions.{
  acknowledge_incident, resolve_incident, acknowledged, action_event,
}
use factory_monitor.Escalation.Worker.{
  PollEnv, is_due, due_rows, claim, still_due, process_incident,
}
use factory_monitor.Escalation.Claims.{claim_exclusive, due_rows_lem, IsTakenOr}
use factory_monitor.Ingest.Service.{made, new_incident}
use factory_monitor.System.Consistent.{IsConsistent}
use factory_monitor.System.Progress.{due_incident_advances, one_tier_on}
use factory_monitor.System.Closing.{acknowledged_never_fires, IsAnsweredAs, late_actions_overwrite}
use factory_monitor.System.Timers.{IsCalm, polled, unconfigured_tier_stalls}
use factory_monitor.System.Critical.{thrice, escalates_to_critical}
use factory_monitor.System.Steps.{
  ingests, processes, administers, Reach, here, next, Reach-IsConsistent,
}
use factory_monitor.Examples.{
  roster, bare_roster, tiers, assignments, asha, ravi, tier_row, event, supply, clocks_at,
  parse_digit, poll_env,
}
use factory_monitor.Examples.Ingesting.{start, opened, event_created}

-- The row of the first incident.
abbrev row : Incident
row = new_incident 100 event 60 (clocks_at 1000)

to_opened : Reach start opened
to_opened =
    next here
      (ingests parse_digit start start event 60 (some resolve) supply (made 100) event_created)

pub opened-IsConsistent : IsConsistent opened
opened-IsConsistent = Reach-IsConsistent roster opened to_opened

row_found : find 100 opened.incidents ≡ some row
unfolding find new_incident
row_found = refl

row_due : still_due row ≡ true
unfolding still_due new_incident
row_due = refl

Reach-IsConsistent_example : IsConsistent opened
Reach-IsConsistent_example = Reach-IsConsistent roster opened to_opened

abbrev env₁ : PollEnv
env₁ = poll_env 201 100000000

abbrev env₂ : PollEnv
env₂ = poll_env 202 300000000

abbrev env₃ : PollEnv
env₃ = poll_env 203 600000000

fired_later : Reach opened (polled env₁ 100 opened)
fired_later = next here (processes env₁ 100 refl)

calm₁ : IsCalm env₁ 100 opened
unfolding has_outbox_id outbox_row resolve fetch_tier_config sort_by
calm₁ = record { id_free = refl; no_fault = refl }

calm₂ : IsCalm env₂ 100 (polled env₁ 100 opened)
unfolding has_outbox_id outbox_row resolve fetch_tier_config sort_by process_incident new_incident
    find update fired has_key
calm₂ = record { id_free = refl; no_fault = refl }

calm₃ : IsCalm env₃ 100 (polled env₂ 100 (polled env₁ 100 opened))
unfolding has_outbox_id outbox_row resolve fetch_tier_config sort_by process_incident new_incident
    find update fired has_key
calm₃ = record { id_free = refl; no_fault = refl }

escalates_to_critical_example :
    (x : Incident) × (find 100 (thrice env₁ env₂ env₃ 100 opened).incidents ≡ some x)
    × (x.status ≡ IncidentStatus.critical_unresolved)
    × (x.current_tier ≡ 3)
    × (x.next_fire_at ≡ none)
unfolding new_incident fetch_tier_config sort_by
escalates_to_critical_example =
    escalates_to_critical env₁ env₂ env₃ 100 opened row
      (tier_row none 1 EscalationRole.floor_manager 120)
      (tier_row none 2 EscalationRole.plant_director 180) opened-IsConsistent row_found refl row_due
      refl refl calm₁ calm₂ calm₃

-- The acknowledgement of the open incident.
abbrev acked_db : Db
acked_db = record opened {
  events =
      action_event EventType.ack IncidentStatus.ack (Payload.acknowledged none) row ∷ opened.events;
  incidents = update 100 (acknowledged 5000) opened.incidents;
}

acked : acknowledge_incident opened opened 100 none 5000 ≡ ok (acknowledged 5000 row, acked_db)
unfolding acknowledge_incident find new_incident
acked = refl

acknowledged_never_fires_example : process_incident env₁ 100 acked_db ≡ (false, acked_db)
acknowledged_never_fires_example =
    acknowledged_never_fires opened opened acked_db acked_db 100 none 5000 (acknowledged 5000 row)
      env₁ opened-IsConsistent here acked here

-- An acknowledgement and a resolution that commit after the worker's turn.
late_actions_overwrite_example :
    ((x : Incident) × (db₁ : Db) × (acknowledge_incident opened
          (polled env₁ 100 opened)
          100
          none
          5000
        ≡ ok (x, db₁))
      × IsAnsweredAs IncidentStatus.ack 100 (polled env₁ 100 opened) db₁)
    × ((x : Incident) × (db₁ : Db) × (resolve_incident opened
            (polled env₁ 100 opened)
            100
            "done"
            none
            5000
          ≡ ok (x, db₁))
        × IsAnsweredAs IncidentStatus.resolved 100 (polled env₁ 100 opened) db₁)
unfolding new_incident
late_actions_overwrite_example =
    late_actions_overwrite opened (polled env₁ 100 opened) 100 row none "done" 5000
      opened-IsConsistent fired_later row_found refl

due_incident_advances_example :
    ((process_incident env₁ 100 opened).0 ≡ true)
    × (find 100 (process_incident env₁ 100 opened).1.incidents
        ≡ some (one_tier_on roster (clocks_at 100000000) row))
unfolding has_outbox_id outbox_row resolve fetch_tier_config sort_by
due_incident_advances_example =
    due_incident_advances env₁ 100 opened row opened-IsConsistent row_found row_due refl refl

-- The factory after its tiers were deleted.
abbrev bare_db : Db
bare_db = record opened { roster = bare_roster }

bare_db-IsConsistent : IsConsistent bare_db
bare_db-IsConsistent =
    Reach-IsConsistent roster bare_db (next to_opened (administers bare_roster refl))

IsCalm-bare : IsCalm env₁ 100 bare_db
unfolding has_outbox_id outbox_row resolve fetch_tier_config sort_by
IsCalm-bare = record { id_free = refl; no_fault = refl }

unconfigured_tier_stalls_example :
    (x : Incident) × (find 100 (polled env₁ 100 bare_db).incidents ≡ some x)
    × (x.current_tier ≡ 1)
    × ((at : Time) → is_due at x ≡ false)
    × (process_incident env₂ 100 (polled env₁ 100 bare_db) ≡ (false, polled env₁ 100 bare_db))
unfolding fetch_tier_config sort_by new_incident
unconfigured_tier_stalls_example =
    unconfigured_tier_stalls env₁ env₂ 100 bare_db row bare_db-IsConsistent row_found row_due
      IsCalm-bare refl

claimed : elem 100 (claim "w1" 60 10 (λ i. false) 100000000 opened).0 ≡ true
unfolding claim new_incident sort_by
claimed = refl

claim_exclusive_example :
    elem 100
      (claim "w2" 60 10 (λ i. false) 110000000 (claim "w1" 60 10 (λ i. false) 100000000 opened).1).0
    ≡ false
claim_exclusive_example =
    claim_exclusive "w1" "w2" 60 60 10 10 (λ i. false) (λ i. false) 100000000 110000000 opened 100
      (omega arith) claimed

due_rows_lem_example :
    (length (due_rows (λ i. false) 100000000 1 (row ∷ row ∷ [])) ≤ 1)
    × All
        (λ x. (is_due 100000000 x ≡ true) × (false ≡ false))
        (due_rows (λ i. false) 100000000 1 (row ∷ row ∷ []))
    × All
        (IsTakenOr 1 (due_rows (λ i. false) 100000000 1 (row ∷ row ∷ [])))
        (keep (λ inc. is_due 100000000 inc && true) (row ∷ row ∷ []))
due_rows_lem_example = due_rows_lem (λ i. false) 100000000 1 (row ∷ row ∷ [])

fetch_tier_config_lem_example :
    ((fetch_tier_config tiers "hosur" AnomalyType.loitering 1 ≡ none)
      × (keep (tier_matches "hosur" AnomalyType.loitering 1) tiers ≡ []))
    ⊎ ((cfg : EscalationTier) × (fetch_tier_config tiers "hosur" AnomalyType.loitering 1 ≡ some cfg)
        × Among cfg tiers
        × (tier_matches "hosur" AnomalyType.loitering 1 cfg ≡ true)
        × All (IsAsSpecific cfg) (keep (tier_matches "hosur" AnomalyType.loitering 1) tiers))
fetch_tier_config_lem_example = fetch_tier_config_lem tiers "hosur" AnomalyType.loitering 1

abbrev on_duty_now : OnCallAssignment → Bool
on_duty_now = covers EscalationRole.operator "hosur" (some "press") 1000

resolve_duty_lem_example :
    ((resolve_duty
          (asha ∷ ravi ∷ [])
          assignments
          EscalationRole.operator
          "hosur"
          (some "press")
          1000
        ≡ none)
      × (join_users (asha ∷ ravi ∷ []) (keep on_duty_now assignments) ≡ []))
    ⊎ ((d : Duty) × (resolve_duty
            (asha ∷ ravi ∷ [])
            assignments
            EscalationRole.operator
            "hosur"
            (some "press")
            1000
          ≡ some d)
        × IsJoined (asha ∷ ravi ∷ []) assignments on_duty_now d
        × All (IsPreferred d) (join_users (asha ∷ ravi ∷ []) (keep on_duty_now assignments)))
resolve_duty_lem_example =
    resolve_duty_lem (asha ∷ ravi ∷ []) assignments EscalationRole.operator "hosur" (some "press")
      1000
