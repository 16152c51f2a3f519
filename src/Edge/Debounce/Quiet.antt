-- ===== src/Edge/Debounce/Quiet.antt =====
-- A track that is not open has too few violating frames to open without another one
-- (edge/vision/debounce.py).
use factory_monitor.Base.{
  ℕ, zero, suc, ◌≤◌, ◌≡◌, refl, sym, ap, ◌∙◌, ◌⊎◌, inl, inr, String, Bool, true, false, Option,
  none, some, List, [], ◌∷◌, leb, take, All, arith, Bool-cases,
}
use factory_monitor.Edge.Debounce.{
  DebounceConfig, DebounceTransition, DebounceEvent, TrackState, violations, with_frame, decide,
  observe_track, Entry, has_name, state_of, set_state, observe, event_of,
}

abbrev pub IsQuiet : DebounceConfig → TrackState → Type 0
IsQuiet cfg st = (st.is_open ≡ true) ⊎ (leb cfg.m_of_n (violations st.history) ≡ false)

abbrev pub AreQuiet : DebounceConfig → List Entry → Type 0
AreQuiet cfg es = All (λ (e : Entry). IsQuiet cfg e.state) es

violations-take : (n : ℕ) (vs : List Bool) → violations (take n vs) ≤ violations vs
unfolding violations
violations-take zero vs = omega arith
violations-take (suc n) [] = omega arith
violations-take (suc n) (v ∷ vs) = omega (arith, violations-take n vs)

fewer : (m a b : ℕ) → a ≤ b → leb m b ≡ false → leb m a ≡ false
fewer m a b h k = ground arith

none_yet : (cfg : DebounceConfig) → 1 ≤ cfg.m_of_n → leb cfg.m_of_n (violations []) ≡ false
unfolding violations
none_yet cfg h = ground arith

decide-IsQuiet :
    (cfg : DebounceConfig) (st : TrackState) → 1 ≤ cfg.m_of_n → IsQuiet cfg (decide cfg st).0
unfolding decide
decide-IsQuiet cfg st pos = elim (Bool-cases st.is_open) [
  | inl o ↦ elim (Bool-cases (leb cfg.clear_consecutive st.clear_streak)) [
    | inl e ↦ rw (o, e) (inr (none_yet cfg pos))
    | inr e ↦ rw (o, e) (inl refl)
  ]
  | inr o ↦ elim (Bool-cases (leb cfg.m_of_n (violations st.history))) [
    | inl e ↦ rw (o, e) (inl refl)
    | inr e ↦ rw (o, e) (inr e)
  ]
]

pub observe_track-IsQuiet :
    (cfg : DebounceConfig) (st : TrackState) (v : Bool)
    → 1 ≤ cfg.m_of_n
    → IsQuiet cfg (observe_track cfg st v).0
unfolding observe_track
observe_track-IsQuiet cfg st v pos = decide-IsQuiet cfg (with_frame cfg st v) pos

abbrev is_opening : Option DebounceTransition → Bool
is_opening (some DebounceTransition.opened) = true
is_opening _ = false

clears_at_most :
    (cfg : DebounceConfig) (st : TrackState)
    → st.is_open ≡ true
    → is_opening (decide cfg st).1 ≡ false
unfolding decide
clears_at_most cfg st o = elim (Bool-cases (leb cfg.clear_consecutive st.clear_streak)) [
  | inl e ↦ rw (o, e) refl
  | inr e ↦ rw (o, e) refl
]

too_few :
    (cfg : DebounceConfig) (st : TrackState)
    → st.is_open ≡ false
    → leb cfg.m_of_n (violations st.history) ≡ false
    → is_opening (decide cfg st).1 ≡ false
unfolding decide
too_few cfg st o e = rw (o, e) refl

opens_nothing :
    (cfg : DebounceConfig) (st : TrackState)
    → IsQuiet cfg st
    → is_opening (observe_track cfg st false).1 ≡ false
unfolding observe_track with_frame violations
opens_nothing cfg st (inl o) = clears_at_most cfg (with_frame cfg st false) o
opens_nothing cfg st (inr few) = elim (Bool-cases st.is_open) [
  | inl o ↦ clears_at_most cfg (with_frame cfg st false) o
  | inr o ↦ too_few cfg (with_frame cfg st false) o (
      fewer cfg.m_of_n _ (violations st.history)
        (omega (arith, violations-take cfg.window (false ∷ st.history))) few)
]

-- A frame without a violation opens nothing.
pub opens_on_violation :
    (cfg : DebounceConfig) (st : TrackState) (v : Bool)
    → IsQuiet cfg st
    → (observe_track cfg st v).1 ≡ some DebounceTransition.opened
    → v ≡ true
opens_on_violation cfg st true q h = refl
opens_on_violation cfg st false q h = sym (opens_nothing cfg st q) ∙ ap is_opening h

pub state_of-IsQuiet :
    (cfg : DebounceConfig) (track rule : String) (es : List Entry)
    → 1 ≤ cfg.m_of_n
    → AreQuiet cfg es
    → IsQuiet cfg (state_of track rule es)
unfolding state_of
state_of-IsQuiet cfg track rule [] pos h = inr (none_yet cfg pos)
state_of-IsQuiet cfg track rule (e ∷ es) pos h = elim (Bool-cases (has_name track rule e)) [
  | inl k ↦ rw k h.0
  | inr k ↦ rw k (state_of-IsQuiet cfg track rule es pos h.1)
]

set_state-AreQuiet :
    (cfg : DebounceConfig) (track rule : String) (st : TrackState) (es : List Entry)
    → IsQuiet cfg st
    → AreQuiet cfg es
    → AreQuiet cfg (set_state track rule st es)
unfolding set_state
set_state-AreQuiet cfg track rule st [] q h = (q, tt)
set_state-AreQuiet cfg track rule st (e ∷ es) q h = elim (Bool-cases (has_name track rule e)) [
  | inl k ↦ rw k (q, h.1)
  | inr k ↦ rw k (h.0, set_state-AreQuiet cfg track rule st es q h.1)
]

pub observe-AreQuiet :
    (cfg : DebounceConfig) (track rule : String) (v : Bool) (es : List Entry)
    → 1 ≤ cfg.m_of_n
    → AreQuiet cfg es
    → AreQuiet cfg (observe cfg track rule v es).0
unfolding observe
observe-AreQuiet cfg track rule v es pos h =
    set_state-AreQuiet cfg track rule _ es (observe_track-IsQuiet cfg _ v pos) h

-- An opening that `observe` reports comes with a violation.
pub observe_opens :
    (cfg : DebounceConfig) (track rule : String) (v : Bool) (es : List Entry)
    (event : DebounceEvent)
    → 1 ≤ cfg.m_of_n
    → AreQuiet cfg es
    → (observe cfg track rule v es).1 ≡ some event
    → event.transition ≡ DebounceTransition.opened
    → v ≡ true
unfolding observe
observe_opens cfg track rule v es event pos h seen opened =
    opens_on_violation cfg (state_of track rule es) v (state_of-IsQuiet cfg track rule es pos h)
      (made _ seen)
  where
    transition_of : Option DebounceEvent → Option DebounceTransition
    transition_of none = none
    transition_of (some e) = some e.transition

    made :
        (o : Option DebounceTransition)
        → event_of track rule o ≡ some event
        → o ≡ some DebounceTransition.opened
    made none h = cc
    made (some t) h = ap transition_of h ∙ ap some opened
