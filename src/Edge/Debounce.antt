-- ===== src/Edge/Debounce.antt =====
-- edge/vision/debounce.py: M-of-N debounce for each track and rule. The test whether a point is in a
-- polygon is shapely's and is no part of it.
pub mod Alternation
pub mod Window
pub mod Quiet
use factory_monitor.Base.{
  ℕ, ◌+◌, String, Bool, true, false, ◌&&◌, Option, none, some, List, [], ◌∷◌, str_eq, leb, take,
  if◌then◌else◌,
}

pub record DebounceConfig : Type 0 where
  pub window : ℕ
  pub m_of_n : ℕ
  pub clear_consecutive : ℕ

-- The field `transition` of a `DebounceEvent`: "open" or "clear".
pub data DebounceTransition : Type 0 where
  opened cleared : DebounceTransition

pub record DebounceEvent : Type 0 where
  pub track_id : String
  pub rule_id : String
  pub transition : DebounceTransition

-- `history` is the deque of at most `window` frames, newest first.
pub record TrackState : Type 0 where
  pub history : List Bool
  pub is_open : Bool
  pub clear_streak : ℕ

abbrev pub fresh_track : TrackState
fresh_track = record { history = []; is_open = false; clear_streak = 0 }

-- `sum(st.history)`
unfoldable pub violations : List Bool → ℕ
violations [] = 0
violations (v ∷ vs) = (if v then 1 else 0) + violations vs

-- The frame is appended, and the streak of frames without a violation counted.
unfoldable pub with_frame : DebounceConfig → TrackState → Bool → TrackState
with_frame cfg st violating = record st {
  history = take cfg.window (violating ∷ st.history);
  clear_streak = if violating then 0 else st.clear_streak + 1;
}

-- The decision on a state that has the frame.
unfoldable pub decide : DebounceConfig → TrackState → TrackState × Option DebounceTransition
unfolding violations
decide cfg st =
    if st.is_open
    then (if leb cfg.clear_consecutive st.clear_streak
        then (
          record { history = []; is_open = false; clear_streak = 0 },
          some DebounceTransition.cleared,
        )
        else (st, none))
    else (if leb cfg.m_of_n (violations st.history)
        then (record st { is_open = true; clear_streak = 0 }, some DebounceTransition.opened)
        else (st, none))

unfoldable pub observe_track :
    DebounceConfig → TrackState → Bool → TrackState × Option DebounceTransition
unfolding with_frame decide
observe_track cfg st violating = decide cfg (with_frame cfg st violating)

-- An entry of `_states`.
pub record Entry : Type 0 where
  pub track_id : String
  pub rule_id : String
  pub state : TrackState

unfoldable pub has_name : String → String → Entry → Bool
has_name track rule e = str_eq e.track_id track && str_eq e.rule_id rule

-- `_states.get(key)`, or a new state.
unfoldable pub state_of : String → String → List Entry → TrackState
unfolding has_name
state_of track rule [] = fresh_track
state_of track rule (e ∷ es) = if has_name track rule e then e.state else state_of track rule es

unfoldable pub set_state : String → String → TrackState → List Entry → List Entry
unfolding has_name
set_state track rule st [] = record { track_id = track; rule_id = rule; state = st } ∷ []
set_state track rule st (e ∷ es) =
    if has_name track rule e then record e { state = st } ∷ es else e ∷ set_state track rule st es

abbrev pub event_of : String → String → Option DebounceTransition → Option DebounceEvent
event_of track rule none = none
event_of track rule (some t) = some (record { track_id = track; rule_id = rule; transition = t })

-- `TrackDebouncer.observe`
unfoldable pub observe :
    DebounceConfig → String → String → Bool → List Entry → List Entry × Option DebounceEvent
unfolding state_of set_state observe_track
observe cfg track rule violating states =
    let (st, change) = observe_track cfg (state_of track rule states) violating in
    (set_state track rule st states, event_of track rule change)
