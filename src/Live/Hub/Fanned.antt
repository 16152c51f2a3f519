-- ===== src/Live/Hub/Fanned.antt =====
-- Whom one message of a camera reaches, and who is dropped (`_relay` of
-- cloud/common/ws/detection_hub.py).
use factory_monitor.Base.{
  ℕ, String, ◌≡◌, refl, ◌∙◌, ap, Bool, false, not, ◌&&◌, Option, List, [], ◌∷◌, keep, map, elem,
  ◌==◌, ==_iff, str_eq, eq_iff, Bool-cases, Option-cases, inl, inr, arith,
}
use factory_monitor.Live.Hub.{Hub, or_empty, discard_dead, fan_out}

elem-keep : (test : ℕ → Bool) (x : ℕ) (xs : List ℕ) → elem x (keep test xs) ≡ (elem x xs && test x)
elem-keep test x [] = refl
elem-keep test x (y ∷ xs) =
    let ih = elem-keep test x xs in
    elim (Bool-cases (y == x)) [
      | inl e ↦
          let same : test y ≡ test x = ap test ((==_iff y x).0 e) in
          elim (Bool-cases (test x)) [
            | inl t ↦ rw (same, t, e) refl
            | inr t ↦ rw (same, t, e, ih) (rw t (and_false (elem x xs)))
          ]
      | inr e ↦ elim (Bool-cases (test y)) [ inl t ↦ rw (t, e) ih | inr t ↦ rw (t, e) ih ]
    ]
  where
    and_false : (b : Bool) → (b && false) ≡ false
    and_false b = ground arith

map-fst :
    {Data : Type 0} (frame : Data) (xs : List ℕ)
    → map (λ (p : ℕ × Data). p.0) (map (λ ws. (ws, frame)) xs) ≡ xs
map-fst frame [] = refl
map-fst frame (x ∷ xs) = ap (λ ys. x ∷ ys) (map-fst frame xs)

-- The sockets that the hub has for a camera.
abbrev pub watchers : Hub → String → List ℕ
watchers hub camera_id = or_empty (hub.sockets camera_id)

discard_dead-watchers :
    (camera_id : String) (dead : List ℕ) (hub : Hub) (ws : ℕ)
    → elem ws (watchers (discard_dead camera_id dead hub) camera_id)
      ≡ (elem ws (watchers hub camera_id) && not (elem ws dead))
unfolding discard_dead
discard_dead-watchers camera_id dead hub ws = elim (Option-cases (hub.sockets camera_id)) [
  | inl e ↦ rw (e, discard_dead) (rw e refl)
  | inr (xs, e) ↦
      rw (e, discard_dead, (eq_iff camera_id camera_id).1 refl)
        (elem-keep (λ x. not (elem x dead)) ws xs)
]

discard_dead-other :
    (camera_id k : String) (dead : List ℕ) (hub : Hub)
    → str_eq k camera_id ≡ false
    → watchers (discard_dead camera_id dead hub) k ≡ watchers hub k
unfolding discard_dead
discard_dead-other camera_id k dead hub other = elim (Option-cases (hub.sockets camera_id)) [
  | inl e ↦ rw (e, discard_dead) refl
  | inr (xs, e) ↦ rw (e, discard_dead) (rw other refl)
]

module _ {Data : Type 0} (loads : String → Option Data) where
  -- The sockets that a frame was sent to.
  abbrev pub reached : List (ℕ × Data) → List ℕ
  reached sent = map (λ p. p.0) sent

  -- A frame of a camera, its relay having listed the sockets of the camera at `seen`, in whatever
  -- order, and other calls having led to `hub` by the end of the sends: it reaches exactly the listed
  -- sockets that take it, a socket is then registered for the camera exactly if it was at the end of
  -- the sends and is none of the listed that did not take the frame, and no other camera is touched.
  pub fan_out_lem :
      (order : List ℕ → List ℕ) (camera_id : String) (is_sent : ℕ → Bool) (frame : Data)
      (seen hub : Hub) (ws : ℕ) (k : String)
      → str_eq k camera_id ≡ false
      → ((x : ℕ) (xs : List ℕ) → elem x (order xs) ≡ elem x xs)
      → (elem ws (reached (fan_out loads order camera_id is_sent frame seen hub).1)
          ≡ (elem ws (watchers seen camera_id) && is_sent ws))
        × (elem ws (watchers (fan_out loads order camera_id is_sent frame seen hub).0 camera_id) ≡ (
            elem ws (watchers hub camera_id)
            && not (elem ws (watchers seen camera_id) && not (is_sent ws))))
        × (watchers (fan_out loads order camera_id is_sent frame seen hub).0 k ≡ watchers hub k)
  unfolding fan_out discard_dead
  fan_out_lem order camera_id is_sent frame seen hub ws k other same =
      let listed = order (watchers seen camera_id) in
      (
        ap (elem ws) (map-fst frame (keep is_sent listed))
            ∙ elem-keep is_sent ws listed
            ∙ ap (λ b. b && is_sent ws) (same ws (watchers seen camera_id)),
        discard_dead-watchers camera_id (keep (λ x. not (is_sent x)) listed) hub ws
            ∙ ap (λ b. elem ws (watchers hub camera_id) && not b)
                (elem-keep (λ x. not (is_sent x)) ws listed
                  ∙ ap (λ b. b && not (is_sent ws)) (same ws (watchers seen camera_id))),
        discard_dead-other camera_id k _ hub other,
      )
