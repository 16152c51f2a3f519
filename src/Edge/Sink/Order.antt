-- ===== src/Edge/Sink/Order.antt =====
-- What a sink does with its messages (edge/publisher/detection_sink.py, heatmap_sink.py): a bounded
-- queue that keeps the order.
use factory_monitor.Base.{
  ℕ, ◌≤◌, ◌≡◌, refl, ap, Bool, true, false, Option, none, some, List, [], ◌∷◌, ◌++◌, ◌⊎◌, subst,
  leb, length, if◌then◌else◌, arith, inl, inr, Bool-cases, length-append, sym, ◌∙◌, suc,
}
use mathlib.Core.List.{append-nil, append_assoc}
use factory_monitor.Edge.Sink.{
  Sink, new_sink, is_full, put_or_drop, drain_get, drain_send, close, pop, take_next,
}

-- The calls that a sink gets, from the vision loop, the event loop and the shutdown.
pub data SinkCall (Message : Type 0) : Type 0 where
  puts : Message → SinkCall Message
  gets : SinkCall Message
  sends : Bool → SinkCall Message
  closes : SinkCall Message

-- A sink beside the messages that it has accepted and those that its task has taken, oldest first.
pub record Traced (Message : Type 0) : Type 0 where
  pub sink : Sink Message
  pub accepted : List Message
  pub taken : List Message

module _ {Message : Type 0} where
  abbrev pub sink_call : SinkCall Message → Sink Message → Sink Message
  sink_call (puts m) s = put_or_drop m s
  sink_call gets s = drain_get s
  sink_call (sends is_sent) s = drain_send is_sent s
  sink_call closes s = close s

  abbrev newly_accepted : SinkCall Message → Sink Message → List Message
  newly_accepted (puts m) s = if leb (s.maxq) (length s.queue) then [] else m ∷ []
  newly_accepted _ s = []

  -- A message is taken when the task had none and has one.
  abbrev taken_between : Option Message → Option Message → List Message
  taken_between none (some m) = m ∷ []
  taken_between _ _ = []

  abbrev pub traced_call : SinkCall Message → Traced Message → Traced Message
  traced_call c t = record {
    sink = sink_call c t.sink;
    accepted = t.accepted ++ newly_accepted c t.sink;
    taken = t.taken ++ taken_between t.sink.sending (sink_call c t.sink).sending;
  }

  -- The calls, oldest first.
  abbrev pub traced_calls : List (SinkCall Message) → Traced Message → Traced Message
  traced_calls [] t = t
  traced_calls (c ∷ cs) t = traced_calls cs (traced_call c t)

  record IsBounded (maxq : ℕ) (t : Traced Message) : Type 0 where
    size : t.sink.maxq ≡ maxq
    bound : length t.sink.queue ≤ maxq
    order : t.taken ++ t.sink.queue ≡ t.accepted

  is_full_lem : (s : Sink Message) → 1 ≤ s.maxq → is_full s ≡ leb s.maxq (length s.queue)
  unfolding is_full
  is_full_lem s h = ground (arith, h)

  put-full :
      (m : Message) (s : Sink Message)
      → 1 ≤ s.maxq
      → leb s.maxq (length s.queue) ≡ true
      → put_or_drop m s ≡ s
  unfolding put_or_drop
  put-full m s pos e = rw (is_full_lem s pos, e) refl

  put-free :
      (m : Message) (s : Sink Message)
      → 1 ≤ s.maxq
      → leb s.maxq (length s.queue) ≡ false
      → put_or_drop m s ≡ record s { queue = s.queue ++ (m ∷ []) }
  unfolding put_or_drop
  put-free m s pos e = rw (is_full_lem s pos, e) refl

  taken_same : (o : Option Message) → taken_between o o ≡ []
  taken_same none = refl
  taken_same (some m) = refl

  taken_none : (o : Option Message) → taken_between o none ≡ []
  taken_none none = refl
  taken_none (some m) = refl

  snoc_le :
      (maxq : ℕ) (m : Message) (ms : List Message)
      → leb maxq (length ms) ≡ false
      → length (ms ++ (m ∷ [])) ≤ maxq
  snoc_le maxq m ms h = rw (length-append ms (m ∷ [])) (ground (arith, h))

  -- A call that takes nothing and accepts nothing.
  unchanged :
      (maxq : ℕ) (t : Traced Message) (s : Sink Message) (out more : List Message)
      → IsBounded maxq t
      → s.maxq ≡ t.sink.maxq
      → s.queue ≡ t.sink.queue
      → out ≡ []
      → more ≡ []
      → IsBounded maxq (record { sink = s; accepted = t.accepted ++ more; taken = t.taken ++ out })
  unchanged maxq t s out more h size same e d = record {
    size = size ∙ h.size;
    bound = rw same h.bound;
    order = rw (same, e, d, append-nil t.taken, append-nil t.accepted) h.order;
  }

  put-IsBounded :
      (maxq : ℕ) (m : Message) (t : Traced Message)
      → 1 ≤ maxq
      → IsBounded maxq t
      → IsBounded maxq (traced_call (puts m) t)
  put-IsBounded maxq m t pos h = elim (Bool-cases (leb t.sink.maxq (length t.sink.queue))) [
    | inl e ↦
        rw (put-full m t.sink (rw h.size pos) e, e)
          (unchanged maxq t t.sink _ _ h refl refl (taken_same t.sink.sending) refl)
    | inr e ↦
        rw (put-free m t.sink (rw h.size pos) e, e)
          (record {
            size = h.size;
            bound = snoc_le maxq m t.sink.queue (rw (sym h.size) e);
            order =
                rw (taken_same t.sink.sending, append-nil t.taken)
                  (sym (append_assoc t.taken t.sink.queue (m ∷ []))
                    ∙ ap (λ ms. ms ++ (m ∷ [])) h.order);
          })
  ]

  pop-IsBounded :
      (maxq : ℕ) (t : Traced Message)
      → IsBounded maxq t
      → t.sink.sending ≡ none
      → (ms : List Message) → t.sink.queue ≡ ms
      → IsBounded maxq (record {
        sink = pop ms t.sink;
        accepted = t.accepted ++ [];
        taken = t.taken ++ taken_between t.sink.sending (pop ms t.sink).sending;
      })
  pop-IsBounded maxq t h idle [] e =
      unchanged maxq t t.sink _ [] h refl refl (taken_same t.sink.sending) refl
  pop-IsBounded maxq t h idle (m ∷ ms) e = rw idle (record {
    size = h.size;
    bound = shorter (length t.sink.queue) (ap length e) h.bound;
    order =
        append_assoc t.taken (m ∷ []) ms
        ∙ ap (λ q. t.taken ++ q) (sym e)
        ∙ h.order
        ∙ sym (append-nil t.accepted);
  })
    where
      shorter : (n : ℕ) → n ≡ suc (length ms) → n ≤ maxq → length ms ≤ maxq
      shorter n p q = omega arith

  take_next-cases :
      (o : Option Message) (s : Sink Message)
      → (take_next o s ≡ s) ⊎ ((o ≡ none) × (take_next o s ≡ pop s.queue s))
  take_next-cases (some m) s = inl refl
  take_next-cases none s = inr (refl, refl)

  drain_get-cases :
      (s : Sink Message) → (drain_get s ≡ s) ⊎ ((s.sending ≡ none) × (drain_get s ≡ pop s.queue s))
  unfolding drain_get
  drain_get-cases s = elim (Bool-cases s.is_draining) [
    | inl d ↦
        subst
          (λ b.
            ((if b then take_next s.sending s else s) ≡ s)
            ⊎ ((s.sending ≡ none) × ((if b then take_next s.sending s else s) ≡ pop s.queue s)))
          (sym d) (take_next-cases s.sending s)
    | inr d ↦ inl (ap (λ b. if b then take_next s.sending s else s) d)
  ]

  get-IsBounded :
      (maxq : ℕ) (t : Traced Message) → IsBounded maxq t → IsBounded maxq (traced_call gets t)
  get-IsBounded maxq t h = elim (drain_get-cases t.sink) [
    | inl e ↦ rw e (unchanged maxq t t.sink _ [] h refl refl (taken_same t.sink.sending) refl)
    | inr (idle, e) ↦ rw e (pop-IsBounded maxq t h idle t.sink.queue refl)
  ]

  call-IsBounded :
      (maxq : ℕ) (c : SinkCall Message) (t : Traced Message)
      → 1 ≤ maxq
      → IsBounded maxq t
      → IsBounded maxq (traced_call c t)
  unfolding drain_send close
  call-IsBounded maxq (puts m) t pos h = put-IsBounded maxq m t pos h
  call-IsBounded maxq gets t pos h = get-IsBounded maxq t h
  call-IsBounded maxq (sends is_sent) t pos h =
      unchanged maxq t _ _ [] h refl refl (taken_none t.sink.sending) refl
  call-IsBounded maxq closes t pos h =
      unchanged maxq t _ _ [] h refl refl (taken_none t.sink.sending) refl

  calls-IsBounded :
      (maxq : ℕ) (cs : List (SinkCall Message)) (t : Traced Message)
      → 1 ≤ maxq
      → IsBounded maxq t
      → IsBounded maxq (traced_calls cs t)
  calls-IsBounded maxq [] t pos h = h
  calls-IsBounded maxq (c ∷ cs) t pos h =
      calls-IsBounded maxq cs (traced_call c t) pos (call-IsBounded maxq c t pos h)

  -- A new sink beside the empty lists of messages.
  abbrev pub start : ℕ → Traced Message
  start maxq = record { sink = new_sink maxq; accepted = []; taken = [] }

  -- Whatever calls a sink with a bound of at least one gets, in whatever order: its queue never
  -- holds more messages than the bound, and the messages that its task has taken, followed by those
  -- in the queue, are exactly the accepted ones in their order, where a message is dropped only when
  -- the queue holds as many as the bound.
  pub queue_bounded :
      (maxq : ℕ) (calls : List (SinkCall Message))
      → 1 ≤ maxq
      → (length (traced_calls calls (start maxq)).sink.queue ≤ maxq)
        × ((traced_calls calls (start maxq)).taken ++ (traced_calls calls (start maxq)).sink.queue
            ≡ (traced_calls calls (start maxq)).accepted)
  queue_bounded maxq calls pos =
      let h =
        calls-IsBounded maxq calls (start maxq) pos
          (record { size = refl; bound = omega arith; order = refl }) in
      (h.bound, h.order)
