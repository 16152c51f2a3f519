-- ===== src/Edge/Debounce/Window.antt =====
-- When a track opens and clears (edge/vision/debounce.py), against a description by its whole run of
-- frames.
use factory_monitor.Base.{
  ℕ, zero, suc, ◌+◌, ◌≡◌, refl, ap, Bool, true, false, none, some, List, [], ◌∷◌, leb, take, arith,
  inl, inr, Bool-cases, if◌then◌else◌,
}
use factory_monitor.Edge.Debounce.{
  DebounceConfig, DebounceTransition, TrackState, fresh_track, violations, with_frame, decide,
  observe_track,
}

-- The state after a list of frames, newest first.
abbrev pub after_frames : DebounceConfig → TrackState → List Bool → TrackState
after_frames cfg st [] = st
after_frames cfg st (v ∷ vs) = (observe_track cfg (after_frames cfg st vs) v).0

-- At least `m_of_n` of the last `window` frames are violating.
abbrev pub is_dense : DebounceConfig → List Bool → Bool
is_dense cfg vs = leb cfg.m_of_n (violations (take cfg.window vs))

-- None of the frames so far has made the track open.
abbrev pub NeverDense : DebounceConfig → List Bool → Type 0
NeverDense cfg [] = Unit
NeverDense cfg (v ∷ vs) = (is_dense cfg (v ∷ vs) ≡ false) × NeverDense cfg vs

-- The newest frames without a violation.
abbrev pub calm_frames : List Bool → ℕ
calm_frames [] = 0
calm_frames (true ∷ vs) = 0
calm_frames (false ∷ vs) = calm_frames vs + 1

abbrev pub NeverCalm : DebounceConfig → List Bool → Type 0
NeverCalm cfg [] = Unit
NeverCalm cfg (v ∷ vs) =
    (leb cfg.clear_consecutive (calm_frames (v ∷ vs)) ≡ false) × NeverCalm cfg vs

take-take : (n : ℕ) (v : Bool) (vs : List Bool) → take n (v ∷ take n vs) ≡ take n (v ∷ vs)
take-take zero v vs = refl
take-take (suc n) v vs = ap (λ r. v ∷ r) (shorter n vs)
  where
    shorter : (n : ℕ) (vs : List Bool) → take n (take (suc n) vs) ≡ take n vs
    shorter zero vs = refl
    shorter (suc n) [] = refl
    shorter (suc n) (v ∷ vs) = ap (λ r. v ∷ r) (shorter n vs)

-- What a closed track knows of its frames.
record IsWatching (cfg : DebounceConfig) (vs : List Bool) (st : TrackState) : Type 0 where
  seen : st.history ≡ take cfg.window vs
  closed : st.is_open ≡ false

framed :
    (cfg : DebounceConfig) (vs : List Bool) (v : Bool) (st : TrackState)
    → IsWatching cfg vs st
    → IsWatching cfg (v ∷ vs) (with_frame cfg st v)
unfolding with_frame
framed cfg vs v st w = record { seen = rw w.seen (take-take cfg.window v vs); closed = w.closed }

dense_of :
    (cfg : DebounceConfig) (vs : List Bool) (st : TrackState)
    → IsWatching cfg vs st
    → leb cfg.m_of_n (violations st.history) ≡ is_dense cfg vs
dense_of cfg vs st w = rw w.seen refl

decide-IsWatching :
    (cfg : DebounceConfig) (vs : List Bool) (st : TrackState)
    → IsWatching cfg vs st
    → is_dense cfg vs ≡ false
    → IsWatching cfg vs (decide cfg st).0
unfolding decide
decide-IsWatching cfg vs st w sparse =
    rw (w.closed, dense_of cfg vs st w, sparse) (record { seen = w.seen; closed = refl })

decide_closed :
    (cfg : DebounceConfig) (vs : List Bool) (st : TrackState)
    → IsWatching cfg vs st
    → (decide cfg st).1 ≡ (if is_dense cfg vs then some DebounceTransition.opened else none)
unfolding decide
decide_closed cfg vs st w = elim (Bool-cases (is_dense cfg vs)) [
  | inl e ↦ rw (w.closed, dense_of cfg vs st w, e) refl
  | inr e ↦ rw (w.closed, dense_of cfg vs st w, e) refl
]

watching :
    (cfg : DebounceConfig) (vs : List Bool)
    → NeverDense cfg vs
    → IsWatching cfg vs (after_frames cfg fresh_track vs)
unfolding observe_track
watching cfg [] h = record { seen = take_nil cfg.window; closed = refl }
  where
    take_nil : (n : ℕ) → ◌≡◌ {A = List Bool} [] (take n [])
    take_nil zero = refl
    take_nil (suc n) = refl
watching cfg (v ∷ vs) h =
    decide-IsWatching cfg (v ∷ vs) _ (framed cfg vs v _ (watching cfg vs h.1)) h.0

-- A track that has not opened yet: its next frame opens it exactly if at least `m_of_n` of its last
-- `window` frames, this one included, are violating, and else makes no event.
pub opens_when_dense :
    (cfg : DebounceConfig) (vs : List Bool) (v : Bool)
    → NeverDense cfg vs
    → (observe_track cfg (after_frames cfg fresh_track vs) v).1
      ≡ (if is_dense cfg (v ∷ vs) then some DebounceTransition.opened else none)
unfolding observe_track
opens_when_dense cfg vs v h = decide_closed cfg (v ∷ vs) _ (framed cfg vs v _ (watching cfg vs h))

-- What an open track knows of its frames since it opened.
record IsAlarmed (vs : List Bool) (st : TrackState) : Type 0 where
  streak : st.clear_streak ≡ calm_frames vs
  is_open : st.is_open ≡ true

frame-IsAlarmed :
    (cfg : DebounceConfig) (vs : List Bool) (v : Bool) (st : TrackState)
    → IsAlarmed vs st
    → IsAlarmed (v ∷ vs) (with_frame cfg st v)
unfolding with_frame
frame-IsAlarmed cfg vs true st w = record { streak = refl; is_open = w.is_open }
frame-IsAlarmed cfg vs false st w = record { streak = omega (arith, w.streak); is_open = w.is_open }

decide-IsAlarmed :
    (cfg : DebounceConfig) (vs : List Bool) (st : TrackState)
    → IsAlarmed vs st
    → leb cfg.clear_consecutive (calm_frames vs) ≡ false
    → IsAlarmed vs (decide cfg st).0
unfolding decide
decide-IsAlarmed cfg vs st w e =
    rw (w.is_open, w.streak, e) (record { streak = refl; is_open = refl })

decide_open :
    (cfg : DebounceConfig) (vs : List Bool) (st : TrackState)
    → IsAlarmed vs st
    → (decide cfg st).1 ≡ (
        if leb cfg.clear_consecutive (calm_frames vs)
        then some DebounceTransition.cleared
        else none)
unfolding decide
decide_open cfg vs st w = elim (Bool-cases (leb cfg.clear_consecutive (calm_frames vs))) [
  | inl e ↦ rw (w.is_open, w.streak, e) refl
  | inr e ↦ rw (w.is_open, w.streak, e) refl
]

alarmed :
    (cfg : DebounceConfig) (st : TrackState) (vs : List Bool)
    → IsAlarmed [] st
    → NeverCalm cfg vs
    → IsAlarmed vs (after_frames cfg st vs)
unfolding observe_track
alarmed cfg st [] w h = w
alarmed cfg st (v ∷ vs) w h =
    decide-IsAlarmed cfg (v ∷ vs) _ (frame-IsAlarmed cfg vs v _ (alarmed cfg st vs w h.1)) h.0

-- An open track whose streak is zero, as it is when it opens, and that has not cleared since: its
-- next frame clears it exactly if the frames without a violation, this one included, have come to
-- `clear_consecutive` in a row, and else makes no event.
pub clears_when_calm :
    (cfg : DebounceConfig) (st : TrackState) (vs : List Bool) (v : Bool)
    → st.is_open ≡ true
    → st.clear_streak ≡ 0
    → NeverCalm cfg vs
    → (observe_track cfg (after_frames cfg st vs) v).1 ≡ (
        if leb cfg.clear_consecutive (calm_frames (v ∷ vs))
        then some DebounceTransition.cleared
        else none)
unfolding observe_track
clears_when_calm cfg st vs v o z h =
    decide_open cfg (v ∷ vs) _
      (frame-IsAlarmed cfg vs v _ (alarmed cfg st vs (record { streak = z; is_open = o }) h))
