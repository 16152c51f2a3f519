-- ===== src/Examples/Seeing.antt =====
-- Witnesses for the edge and for the live view.
use factory_monitor.Base.{
  ℕ, ◌≡◌, refl, Bool, true, false, ◌||◌, some, List, [], ◌∷◌, ◌==◌, any, keep, All,
}
use factory_monitor.Store.Incident.{Incident}
use factory_monitor.Edge.Debounce.{
  DebounceConfig, DebounceTransition, TrackState, fresh_track, observe_track, violations,
}
use factory_monitor.Edge.Debounce.Alternation.{run_track, alternates, open_after, events_alternate}
use factory_monitor.Edge.Debounce.Window.{after_frames, opens_when_dense, clears_when_calm}
use factory_monitor.Ingest.Service.{new_incident}
use factory_monitor.Live.Sequence.{
  turns, IsGapless, connects, broadcasts, sends, Turn, received_in_order,
}
use factory_monitor.Live.Fallback.{Cursor, is_after, poll_changes_once}
use factory_monitor.Live.Coverage.{is_view_of, no_change_skipped}
use factory_monitor.Examples.{event, clocks_at}

abbrev debounce : DebounceConfig
debounce = record { window = 3; m_of_n = 2; clear_consecutive = 2 }

abbrev frames : List Bool
frames = true ∷ false ∷ true ∷ false ∷ false ∷ true ∷ []

events_alternate_example :
    (alternates false (run_track debounce fresh_track frames).1 ≡ true)
    × (open_after false (run_track debounce fresh_track frames).1
        ≡ (run_track debounce fresh_track frames).0.is_open)
events_alternate_example = events_alternate debounce fresh_track frames

opens_when_dense_example :
    (observe_track debounce (after_frames debounce fresh_track (false ∷ true ∷ [])) true).1
    ≡ some DebounceTransition.opened
unfolding violations
opens_when_dense_example = opens_when_dense debounce (false ∷ true ∷ []) true (refl, (refl, tt))

abbrev alarm : TrackState
alarm = record { history = true ∷ true ∷ []; is_open = true; clear_streak = 0 }

clears_when_calm_example :
    (observe_track debounce (after_frames debounce alarm (false ∷ true ∷ [])) false).1
    ≡ some DebounceTransition.cleared
clears_when_calm_example =
    clears_when_calm debounce alarm (false ∷ true ∷ []) false refl refl (refl, (refl, tt))

abbrev all_take : ℕ → Bool
all_take i = true

abbrev some_turns : List Turn
some_turns =
    connects 1 ∷ broadcasts all_take ∷ connects 2 ∷ sends 1 true ∷ broadcasts (λ i. i == 2) ∷ []

received_in_order_example : All IsGapless (turns some_turns [])
received_in_order_example = received_in_order some_turns

abbrev rows : List Incident
rows =
    new_incident 3 event 60 (clocks_at 5)
    ∷ new_incident 1 event 60 (clocks_at 5)
    ∷ new_incident 2 event 60 (clocks_at 5)
    ∷ []

abbrev start : Cursor
start = record { since = 5; since_id = 0 }

no_change_skipped_example :
    All
      (λ inc.
        (any (is_view_of inc) (poll_changes_once start 2 rows).broadcasts
          || is_after (poll_changes_once start 2 rows).cursor inc)
        ≡ true)
      (keep (is_after start) rows)
no_change_skipped_example = no_change_skipped start 2 rows
