-- ===== src/Live/Sequence.antt =====
-- The sequence numbers that a client sees (cloud/common/ws/manager.py with cloud/api/ws.py, which
-- disconnects a connection whose send has raised).
use factory_monitor.Base.{
  ℕ, zero, suc, ◌≡◌, refl, ap, String, Bool, true, false, List, [], ◌∷◌, keep, length, ◌==◌, arith,
  inl, inr, Bool-cases, All, All-map, keep-All,
}
use factory_monitor.Live.Manager.{
  Connection, connect, disconnect, on_connection, subscribe, next_seq, send_envelope, send,
  broadcast,
}

-- What happens to the registry: each is one turn of the event loop.
pub data Turn : Type 0 where
  connects disconnects : ℕ → Turn
  subscribes : ℕ → List String → ℕ → Turn
  sends : ℕ → Bool → Turn
  broadcasts : (ℕ → Bool) → Turn

-- A send that raised, followed by its caller's `finally`.
abbrev pub settle_send : ℕ → Bool × List Connection → List Connection
settle_send i (true, conns) = conns
settle_send i (false, conns) = disconnect i conns

abbrev pub turn : Turn → List Connection → List Connection
turn (connects i) conns = connect i conns
turn (disconnects i) conns = disconnect i conns
turn (subscribes i topics last_seq) conns = subscribe i topics last_seq conns
turn (sends i takes) conns = settle_send i (send i takes conns)
turn (broadcasts takes) conns = (broadcast takes conns).1

-- The registry after some turns, oldest first.
abbrev pub turns : List Turn → List Connection → List Connection
turns [] conns = conns
turns (t ∷ ts) conns = turns ts (turn t conns)

-- n, n - 1, …, 1
abbrev pub countdown : ℕ → List ℕ
countdown zero = []
countdown (suc n) = suc n ∷ countdown n

-- The client has received every number up to the connection's, each once and in order.
abbrev pub IsGapless : Connection → Type 0
IsGapless c = c.received ≡ countdown c.seq

send-IsGapless : (c : Connection) → IsGapless c → IsGapless (send_envelope true c)
unfolding send_envelope next_seq
send-IsGapless c h = ap (λ r. suc c.seq ∷ r) h

broadcast-IsGapless :
    (takes : ℕ → Bool) (conns : List Connection)
    → All IsGapless conns
    → All IsGapless (broadcast takes conns).1
unfolding broadcast
broadcast-IsGapless takes [] h = tt
broadcast-IsGapless takes (c ∷ cs) h = elim (Bool-cases (takes c.id)) [
  | inl e ↦ rw e (send-IsGapless c h.0, broadcast-IsGapless takes cs h.1)
  | inr e ↦ rw e (broadcast-IsGapless takes cs h.1)
]

on_connection-All :
    (i : ℕ) (f : Connection → Connection) (conns : List Connection)
    → ((c : Connection) → IsGapless c → IsGapless (f c))
    → All IsGapless conns
    → All IsGapless (on_connection i f conns)
unfolding on_connection
on_connection-All i f [] p h = tt
on_connection-All i f (c ∷ cs) p h = elim (Bool-cases (c.id == i)) [
  | inl e ↦ rw e (p c h.0, on_connection-All i f cs p h.1)
  | inr e ↦ rw e (h.0, on_connection-All i f cs p h.1)
]

disconnect-IsGapless :
    (i : ℕ) (conns : List Connection) → All IsGapless conns → All IsGapless (disconnect i conns)
unfolding disconnect
disconnect-IsGapless i conns h = All-map _ _ _ (λ c p. p.0) (keep-All IsGapless _ conns h)

-- A connection that could not be sent to is thrown out.
dropped :
    (i : ℕ) (f : Connection → Connection) (conns : List Connection)
    → ((c : Connection) → (f c).id ≡ c.id)
    → disconnect i (on_connection i f conns) ≡ disconnect i conns
unfolding disconnect on_connection
dropped i f [] keeps = refl
dropped i f (c ∷ cs) keeps = ground (arith, keeps c, dropped i f cs keeps)

turn-IsGapless :
    (t : Turn) (conns : List Connection) → All IsGapless conns → All IsGapless (turn t conns)
unfolding connect subscribe send
turn-IsGapless (connects i) conns h = (refl, h)
turn-IsGapless (disconnects i) conns h = disconnect-IsGapless i conns h
turn-IsGapless (subscribes i topics last_seq) conns h = on_connection-All i _ conns (λ c p. p) h
turn-IsGapless (sends i true) conns h = on_connection-All i _ conns send-IsGapless h
turn-IsGapless (sends i false) conns h =
    rw (dropped i (send_envelope false) conns (unfold send_envelope next_seq in λ c. refl))
      (disconnect-IsGapless i conns h)
turn-IsGapless (broadcasts takes) conns h = broadcast-IsGapless takes conns h

turns-IsGapless :
    (ts : List Turn) (conns : List Connection)
    → All IsGapless conns
    → All IsGapless (turns ts conns)
turns-IsGapless [] conns h = h
turns-IsGapless (t ∷ ts) conns h = turns-IsGapless ts (turn t conns) (turn-IsGapless t conns h)

-- After any turns from the empty registry, every connection that is registered has received exactly
-- the numbers from 1 to its seq, each once and in order.
pub received_in_order : (ts : List Turn) → All IsGapless (turns ts [])
received_in_order ts = turns-IsGapless ts [] tt

-- A broadcast counts the connections that took the envelope, and these are the ones that it leaves.
pub broadcast_lem :
    (takes : ℕ → Bool) (conns : List Connection)
    → ((broadcast takes conns).0 ≡ length (keep (λ (c : Connection). takes c.id) conns))
      × ((broadcast takes conns).0 ≡ length (broadcast takes conns).1)
      × All (λ (c : Connection). takes c.id ≡ true) (broadcast takes conns).1
unfolding broadcast send_envelope next_seq
broadcast_lem takes [] = (refl, refl, tt)
broadcast_lem takes (c ∷ cs) = elim (Bool-cases (takes c.id)) [
  | inl e ↦ let ih = broadcast_lem takes cs in rw e (ap suc ih.0, ap suc ih.1, (e, ih.2))
  | inr e ↦ rw e (broadcast_lem takes cs)
]
