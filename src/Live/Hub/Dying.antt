-- ===== src/Live/Hub/Dying.antt =====
-- What happens to a camera of the detection hub (cloud/common/ws/detection_hub.py) when its relay has
-- ended with an exception.
use factory_monitor.Base.{
  ℕ, String, ◌≡◌, refl, sym, ap, ◌∙◌, Bool, true, false, Option, none, some, List, [], ◌∷◌, All,
  not, arith, str_eq, eq_iff, Bool-cases, Option-cases, inl, inr,
}
use factory_monitor.Live.Hub.{
  RelayTask, Hub, set_key, add, start_relay, tear_down, remove, discard, PubsubMessage,
  discard_dead, fan_out, relay, end_task,
}
use factory_monitor.Live.Hub.Calls.{HubCall, relayed, hub_call, hub_calls}

-- The call removes no socket of the camera.
abbrev pub keeps_camera : String → HubCall → Bool
keeps_camera camera_id (HubCall.removes c ws) = not (str_eq camera_id c)
keeps_camera camera_id _ = true

module _ {Data : Type 0} (loads : String → Option Data) where
  abbrev IsDown : String → Hub → Type 0
  IsDown camera_id hub = hub.relay_tasks camera_id ≡ some RelayTask.ended

  set_other :
      (hub : Hub) (camera_id c : String) (t : Option RelayTask)
      → str_eq camera_id c ≡ false
      → IsDown camera_id hub
      → set_key c t hub.relay_tasks camera_id ≡ some RelayTask.ended
  set_other hub camera_id c t e h = rw e h

  differs :
      (hub : Hub) (camera_id c : String)
      → IsDown camera_id hub
      → hub.relay_tasks c ≡ none
      → str_eq camera_id c ≡ false
  differs hub camera_id c h e = elim (Bool-cases (str_eq camera_id c)) [
    | inl same ↦ absurd (clash _ (sym (ap hub.relay_tasks ((eq_iff camera_id c).0 same)) ∙ h) e)
    | inr other ↦ other
  ]
    where
      clash : (o : Option RelayTask) → o ≡ some RelayTask.ended → o ≡ none → ⊥
      clash o p q = cc

  add-IsDown :
      (hub : Hub) (camera_id c : String) (ws : ℕ)
      → IsDown camera_id hub
      → IsDown camera_id (add true c ws hub)
  unfolding add start_relay
  add-IsDown hub camera_id c ws h = elim (Option-cases (hub.relay_tasks c)) [
    | inl e ↦ rw (e, add) (set_other hub camera_id c _ (differs hub camera_id c h e) h)
    | inr (t, e) ↦ rw (e, add) h
  ]

  tear_down-IsDown :
      (hub : Hub) (camera_id c : String)
      → str_eq camera_id c ≡ false
      → IsDown camera_id hub
      → IsDown camera_id (tear_down c hub)
  unfolding tear_down
  tear_down-IsDown hub camera_id c other h = set_other hub camera_id c none other h

  remove-IsDown :
      (hub : Hub) (camera_id c : String) (ws : ℕ)
      → str_eq camera_id c ≡ false
      → IsDown camera_id hub
      → IsDown camera_id (remove c ws hub)
  unfolding remove
  remove-IsDown hub camera_id c ws other h = by_sockets (hub.sockets c)
    where
      by_rest :
          (ys : List ℕ)
          → IsDown camera_id (elim ys [
            | [] ↦ tear_down c hub
            | x ∷ rest ↦ record hub { sockets = set_key c (some (x ∷ rest)) hub.sockets }
          ])
      by_rest [] = tear_down-IsDown hub camera_id c other h
      by_rest (y ∷ ys) = h

      by_sockets :
          (o : Option (List ℕ))
          → IsDown camera_id (elim o [
            | none ↦ tear_down c hub
            | some xs ↦ elim (discard ws xs) [
              | [] ↦ tear_down c hub
              | x ∷ rest ↦ record hub { sockets = set_key c (some (x ∷ rest)) hub.sockets }
            ]
          ])
      by_sockets none = tear_down-IsDown hub camera_id c other h
      by_sockets (some xs) = by_rest (discard ws xs)

  fan_out-IsDown :
      (seen hub : Hub) (order : List ℕ → List ℕ) (camera_id c : String) (is_sent : ℕ → Bool)
      (frame : Data)
      → IsDown camera_id hub
      → IsDown camera_id (fan_out loads order c is_sent frame seen hub).0
  unfolding fan_out discard_dead
  fan_out-IsDown seen hub order camera_id c is_sent frame h = elim (Option-cases (hub.sockets c)) [
    | inl e ↦ rw (e, fan_out, discard_dead) h
    | inr (xs, e) ↦ rw (e, fan_out, discard_dead) h
  ]

  relay-IsDown :
      (seen hub : Hub) (order : List ℕ → List ℕ) (camera_id c : String) (is_sent : ℕ → Bool)
      (m : PubsubMessage)
      → IsDown camera_id hub
      → IsDown camera_id (relay loads order c is_sent m seen hub).0
  unfolding relay
  relay-IsDown seen hub order camera_id c is_sent PubsubMessage.no_message h = h
  relay-IsDown seen hub order camera_id c is_sent PubsubMessage.other_type h = h
  relay-IsDown seen hub order camera_id c is_sent (PubsubMessage.payload raw) h =
      elim (Option-cases (loads raw)) [
        | inl e ↦ rw (e, relay) h
        | inr (frame, e) ↦ rw (e, relay) (fan_out-IsDown seen hub order camera_id c is_sent frame h)
      ]

  relayed-IsDown :
      (t : Option RelayTask) (seen hub : Hub) (order : List ℕ → List ℕ) (camera_id c : String)
      (is_sent : ℕ → Bool) (m : PubsubMessage)
      → IsDown camera_id hub
      → IsDown camera_id (relayed loads t seen order c is_sent m hub).0
  relayed-IsDown (some RelayTask.running) seen hub order camera_id c is_sent m h =
      relay-IsDown seen hub order camera_id c is_sent m h
  relayed-IsDown (some RelayTask.ended) seen hub order camera_id c is_sent m h = h
  relayed-IsDown none seen hub order camera_id c is_sent m h = h

  call-IsDown :
      (call : HubCall) (hub : Hub) (camera_id : String)
      → keeps_camera camera_id call ≡ true
      → IsDown camera_id hub
      → IsDown camera_id (hub_call loads call hub).0
  call-IsDown (HubCall.adds c ws) hub camera_id k h = add-IsDown hub camera_id c ws h
  call-IsDown (HubCall.removes c ws) hub camera_id k h =
      remove-IsDown hub camera_id c ws (unlike _ k) h
    where
      unlike : (b : Bool) → not b ≡ true → b ≡ false
      unlike b e = ground arith
  call-IsDown (HubCall.arrives seen order c is_sent m) hub camera_id k h =
      relayed-IsDown (hub.relay_tasks c) seen hub order camera_id c is_sent m h

  calls-IsDown :
      (cs : List HubCall) (hub : Hub) (camera_id : String)
      → All (λ c. keeps_camera camera_id c ≡ true) cs
      → IsDown camera_id hub
      → IsDown camera_id (hub_calls loads cs hub).0
  calls-IsDown [] hub camera_id k h = h
  calls-IsDown (c ∷ cs) hub camera_id k h =
      calls-IsDown cs (hub_call loads c hub).0 camera_id k.1 (call-IsDown c hub camera_id k.0 h)

  end_task-IsDown :
      (hub : Hub) (camera_id : String)
      → hub.relay_tasks camera_id ≡ some RelayTask.running
      → IsDown camera_id (end_task camera_id hub)
  unfolding end_task
  end_task-IsDown hub camera_id h = rw (h, (eq_iff camera_id camera_id).1 refl, end_task) refl

  -- When the running relay of a camera ends with an exception: after any further registrations, for
  -- that camera too, any messages, and any removals from other cameras, a message of the camera is
  -- sent to no socket.
  pub ended_relay_sends_nothing :
      (seen hub : Hub) (order : List ℕ → List ℕ) (camera_id : String) (cs : List HubCall)
      (is_sent : ℕ → Bool) (m : PubsubMessage)
      → hub.relay_tasks camera_id ≡ some RelayTask.running
      → All (λ c. keeps_camera camera_id c ≡ true) cs
      → (hub_call loads
          (HubCall.arrives seen order camera_id is_sent m)
          (hub_calls loads cs (end_task camera_id hub)).0).1
        ≡ []
  ended_relay_sends_nothing seen hub order camera_id cs is_sent m h k =
      rw (calls-IsDown cs (end_task camera_id hub) camera_id k (end_task-IsDown hub camera_id h))
        refl
