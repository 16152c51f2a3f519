-- ===== src/Edge/Debounce/Alternation.antt =====
-- What a track's events look like over its frames (edge/vision/debounce.py): they alternate, and
-- each track has its own.
use factory_monitor.Base.{
  ◌≡◌, refl, String, Bool, true, false, ◌&&◌, not, Option, none, some, List, [], ◌∷◌, str_eq,
  eq_iff, leb, arith, inl, inr, Bool-cases,
}
use factory_monitor.Edge.Debounce.{
  DebounceConfig, DebounceTransition, TrackState, with_frame, decide, observe_track, Entry,
  violations, has_name, state_of, set_state, observe,
}

-- The frames of one track from a state on, oldest first: the state that they leave and what each
-- of them makes.
abbrev pub run_track :
    DebounceConfig → TrackState → List Bool → TrackState × List (Option DebounceTransition)
run_track cfg st [] = (st, [])
run_track cfg st (v ∷ vs) =
    let (st₁, event) = observe_track cfg st v in
    let (last, events) = run_track cfg st₁ vs in (last, event ∷ events)

-- An opening only while closed, a clearing only while open; and whether the track is then open.
abbrev pub alternates : Bool → List (Option DebounceTransition) → Bool
alternates is_open [] = true
alternates is_open (none ∷ es) = alternates is_open es
alternates is_open (some DebounceTransition.opened ∷ es) = not is_open && alternates true es
alternates is_open (some DebounceTransition.cleared ∷ es) = is_open && alternates false es

abbrev pub open_after : Bool → List (Option DebounceTransition) → Bool
open_after is_open [] = is_open
open_after is_open (none ∷ es) = open_after is_open es
open_after is_open (some DebounceTransition.opened ∷ es) = open_after true es
open_after is_open (some DebounceTransition.cleared ∷ es) = open_after false es

abbrev Follows : Bool → List (Option DebounceTransition) → Bool → Type 0
Follows is_open es last = (alternates is_open es ≡ true) × (open_after is_open es ≡ last)

decide-Follows :
    (cfg : DebounceConfig) (st : TrackState) (es : List (Option DebounceTransition)) (last : Bool)
    → Follows (decide cfg st).0.is_open es last
    → Follows st.is_open ((decide cfg st).1 ∷ es) last
unfolding decide
decide-Follows cfg st es last h = elim (Bool-cases st.is_open) [
  | inl o ↦ elim (Bool-cases (leb cfg.clear_consecutive st.clear_streak)) [
    | inl e ↦ rw (o, e) (rw (o, e) at h)
    | inr e ↦ rw (o, e) (rw (o, e) at h)
  ]
  | inr o ↦ elim (Bool-cases (leb cfg.m_of_n (violations st.history))) [
    | inl e ↦ rw (o, e) (rw (o, e) at h)
    | inr e ↦ rw (o, e) (rw (o, e) at h)
  ]
]

observe-Follows :
    (cfg : DebounceConfig) (st : TrackState) (v : Bool) (es : List (Option DebounceTransition))
    (last : Bool)
    → Follows (observe_track cfg st v).0.is_open es last
    → Follows st.is_open ((observe_track cfg st v).1 ∷ es) last
unfolding observe_track with_frame
observe-Follows cfg st v es last h = decide-Follows cfg (with_frame cfg st v) es last h

run-Follows :
    (cfg : DebounceConfig) (st : TrackState) (vs : List Bool)
    → Follows st.is_open (run_track cfg st vs).1 (run_track cfg st vs).0.is_open
run-Follows cfg st [] = (refl, refl)
run-Follows cfg st (v ∷ vs) =
    observe-Follows cfg st v _ _ (run-Follows cfg (observe_track cfg st v).0 vs)

-- The events of a track, over any frames from any state: it opens only while it is closed and
-- clears only while it is open, and it is open in the end exactly if its last event says so, or if
-- it was open and there is no event.
pub events_alternate :
    (cfg : DebounceConfig) (st : TrackState) (vs : List Bool)
    → (alternates st.is_open (run_track cfg st vs).1 ≡ true)
      × (open_after st.is_open (run_track cfg st vs).1 ≡ (run_track cfg st vs).0.is_open)
events_alternate cfg st vs = run-Follows cfg st vs

both_texts : (a b c d : String) → (str_eq a c && str_eq b d) ≡ true → (a ≡ c) × (b ≡ d)
both_texts a b c d h =
    let p = left_right (str_eq a c) (str_eq b d) h in ((eq_iff a c).0 p.0, (eq_iff b d).0 p.1)
  where
    left_right : (p q : Bool) → (p && q) ≡ true → (p ≡ true) × (q ≡ true)
    left_right p q h = ground arith

other_name :
    (track rule track₂ rule₂ : String) (e : Entry)
    → (str_eq track track₂ && str_eq rule rule₂) ≡ false
    → has_name track rule e ≡ true
    → has_name track₂ rule₂ e ≡ false
unfolding has_name
other_name track rule track₂ rule₂ e ne h =
    let same = both_texts e.track_id e.rule_id track rule h in rw (same.0, same.1) ne

state_of-set_ne :
    (track rule track₂ rule₂ : String) (st : TrackState) (es : List Entry)
    → (str_eq track track₂ && str_eq rule rule₂) ≡ false
    → state_of track₂ rule₂ (set_state track rule st es) ≡ state_of track₂ rule₂ es
unfolding state_of set_state
state_of-set_ne track rule track₂ rule₂ st [] ne = rw (ne, has_name) refl
state_of-set_ne track rule track₂ rule₂ st (e ∷ es) ne = elim (Bool-cases (has_name track rule e)) [
  | inl h ↦ rw (h, other_name track rule track₂ rule₂ e ne h) refl
  | inr h ↦ elim (Bool-cases (has_name track₂ rule₂ e)) [
    | inl k ↦ rw (h, k) refl
    | inr k ↦ rw (h, k) (state_of-set_ne track rule track₂ rule₂ st es ne)
  ]
]

state_of-set_self :
    (track rule : String) (st : TrackState) (es : List Entry)
    → state_of track rule (set_state track rule st es) ≡ st
unfolding state_of set_state
state_of-set_self track rule st [] = rw (self_name, has_name) refl
  where
    self_name : (str_eq track track && str_eq rule rule) ≡ true
    self_name = rw ((eq_iff track track).1 refl, (eq_iff rule rule).1 refl) refl
state_of-set_self track rule st (e ∷ es) = elim (Bool-cases (has_name track rule e)) [
  | inl h ↦ rw h (rw h refl)
  | inr h ↦ rw h (rw h (state_of-set_self track rule st es))
]

-- A frame of one track and rule takes the state of that pair one step on, and leaves the state of
-- every pair with another track or another rule.
pub observe_lem :
    (cfg : DebounceConfig) (track rule track₂ rule₂ : String) (violating : Bool)
    (states : List Entry)
    → (str_eq track track₂ && str_eq rule rule₂) ≡ false
    → (state_of track rule (observe cfg track rule violating states).0
        ≡ (observe_track cfg (state_of track rule states) violating).0)
      × (state_of track₂ rule₂ (observe cfg track rule violating states).0
          ≡ state_of track₂ rule₂ states)
unfolding observe
observe_lem cfg track rule track₂ rule₂ violating states ne =
    (state_of-set_self track rule _ states, state_of-set_ne track rule track₂ rule₂ _ states ne)
