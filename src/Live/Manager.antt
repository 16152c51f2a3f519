-- ===== src/Live/Manager.antt =====
-- cloud/common/ws/manager.py: the registry of connections and the fan-out. A connection object is
-- known by a number. `received` is the seq of each envelope that its socket has taken, newest first:
-- the client's side, which the source does not keep. `takes` is what `send_json` does: false where
-- it or the framing raises.
use factory_monitor.Base.{ℕ, suc, String, Bool, true, not, List, [], ◌∷◌, keep, ◌==◌, if◌then◌else◌}

pub record Connection : Type 0 where
  pub id : ℕ
  pub seq : ℕ
  pub subscriptions : List String
  pub client_last_seq : ℕ
  pub received : List ℕ

-- A new connection, registered after `accept`.
unfoldable pub connect : ℕ → List Connection → List Connection
connect i conns =
    record { id = i; seq = 0; subscriptions = []; client_last_seq = 0; received = [] } ∷ conns

-- `discard`: of no effect on a connection that is gone.
unfoldable pub disconnect : ℕ → List Connection → List Connection
disconnect i conns = keep (λ c. not (c.id == i)) conns

unfoldable pub on_connection : ℕ → (Connection → Connection) → List Connection → List Connection
on_connection i f [] = []
on_connection i f (c ∷ cs) = (if c.id == i then f c else c) ∷ on_connection i f cs

unfoldable pub subscribe : ℕ → List String → ℕ → List Connection → List Connection
unfolding on_connection
subscribe i topics last_seq conns =
    on_connection i (λ c. record c { subscriptions = topics; client_last_seq = last_seq }) conns

unfoldable pub next_seq : Connection → Connection
next_seq c = record c { seq = suc c.seq }

-- The envelope with the next seq, handed to the socket.
unfoldable pub send_envelope : Bool → Connection → Connection
unfolding next_seq
send_envelope takes c =
    if takes then record (next_seq c) { received = suc c.seq ∷ c.received } else next_seq c

-- `send`: whether it returned, and the registry. On an exception the caller disconnects.
unfoldable pub send : ℕ → Bool → List Connection → Bool × List Connection
unfolding on_connection send_envelope
send i takes conns = (takes, on_connection i (send_envelope takes) conns)

-- `broadcast`: how many sockets took the envelope, and the registry without those that did not.
unfoldable pub broadcast : (ℕ → Bool) → List Connection → ℕ × List Connection
unfolding send_envelope
broadcast takes [] = (0, [])
broadcast takes (c ∷ cs) =
    let (sent, rest) = broadcast takes cs in
    if takes c.id then (suc sent, send_envelope true c ∷ rest) else (sent, rest)
