-- ===== src/Notifier/Relay.antt =====
-- cloud/notifier_worker/relay.py: the claim of due outbox rows, and the settlement of each after
-- its send.
use factory_monitor.Base.{
  ℕ, ◌+◌, ◌*◌, ◌-◌, ◌^◌, min, String, Bool, true, false, ◌&&◌, not, Option, none, some, List, [],
  ◌∷◌, map, length, elem, keep, take, leb, ◌==◌, if◌then◌else◌,
}
use factory_monitor.Base.Outcome.{Outcome, Error, ok, err}
use factory_monitor.Base.Sorting.{sort_by}
use factory_monitor.Store.Incident.{Uuid, Time, seconds, before}
use factory_monitor.Store.Rows.{Outbox, OutboxStatus, Message, MsgDirection, MessageStatus}
use factory_monitor.Store.Db.{Db}
use factory_monitor.Notifier.Provider.{SendStatus, ProviderResult, Request, Provider}
use factory_monitor.Notifier.Chain.{chain_send}

-- `_backoff`, in seconds: base * 2 ** max(attempts - 1, 0), at most one hour.
unfoldable pub backoff : ℕ → ℕ → ℕ
backoff attempts base = min (base * 2 ^ (attempts - 1)) 3600

-- The WHERE clause of `_CLAIM_SQL`.
unfoldable pub is_claimable : Time → Outbox → Bool
is_claimable at row = elim row.status [
  | OutboxStatus.pending ↦ leb row.next_attempt_at at
  | OutboxStatus.sending ↦ before row.claimed_until at
  | _ ↦ false
]

abbrev pub attempt_before : Outbox → Outbox → Bool
attempt_before a b = leb a.next_attempt_at b.next_attempt_at

-- `locked` is what SKIP LOCKED passes over.
unfoldable pub due_outbox : (Uuid → Bool) → Time → ℕ → List Outbox → List Outbox
unfolding is_claimable
due_outbox locked at batch rows =
    take batch
      (sort_by attempt_before (keep (λ row. is_claimable at row && not (locked row.id)) rows))

unfoldable pub stamp_sending : String → Time → Outbox → Outbox
stamp_sending worker until row = record row {
  status = OutboxStatus.sending;
  claimed_by = some worker;
  claimed_until = some until;
  attempts = row.attempts + 1;
}

unfoldable pub stamp_outbox : String → Time → List Uuid → List Outbox → List Outbox
unfolding stamp_sending
stamp_outbox worker until ids [] = []
stamp_outbox worker until ids (x ∷ xs) =
    (if elem x.id ids then stamp_sending worker until x else x) ∷ stamp_outbox worker until ids xs

unfoldable pub find_outbox : Uuid → List Outbox → Option Outbox
find_outbox i [] = none
find_outbox i (x ∷ xs) = if x.id == i then some x else find_outbox i xs

unfoldable pub update_outbox : Uuid → (Outbox → Outbox) → List Outbox → List Outbox
update_outbox i f [] = []
update_outbox i f (x ∷ xs) = (if x.id == i then f x else x) ∷ update_outbox i f xs

abbrev pub outbox_ids : List Outbox → List Uuid
outbox_ids = map (λ (row : Outbox). row.id)

-- Phase 1, committed.
unfoldable pub claim_outbox : String → ℕ → ℕ → (Uuid → Bool) → Time → Db → List Uuid × Db
unfolding due_outbox stamp_outbox
claim_outbox worker lease batch locked at db =
    let ids = outbox_ids (due_outbox locked at batch db.outbox) in
    (ids, record db { outbox = stamp_outbox worker (at + seconds lease) ids db.outbox })

-- The arguments of the provider's `send`, from the row that the claim returned.
unfoldable pub request_of : Outbox → Request
request_of row = record {
  to = row.to_phone_e164;
  kind = row.kind;
  template_name = row.template_name;
  body = row.body;
  idempotency_key = row.id;
}

-- The three ends of a settlement.
unfoldable pub mark_sent : Time → ProviderResult → Outbox → Outbox
mark_sent now result row = record row {
  status = OutboxStatus.sent;
  sent_at = some now;
  provider_sid = result.sid;
  claimed_by = none;
  claimed_until = none;
}

unfoldable pub mark_dead : Outbox → Outbox
mark_dead row = record row { status = OutboxStatus.dead; claimed_by = none; claimed_until = none }

unfoldable pub mark_retry : Time → ℕ → Outbox → Outbox
unfolding backoff
mark_retry now base row = record row {
  status = OutboxStatus.pending;
  next_attempt_at = now + seconds (backoff row.attempts base);
  claimed_by = none;
  claimed_until = none;
}

unfoldable pub out_message : Uuid → Time → ProviderResult → Outbox → Message
out_message new_id at result row = record {
  id = new_id;
  incident_id = row.incident_id;
  direction = MsgDirection.outbound;
  channel = result.channel;
  to_phone_e164 = some row.to_phone_e164;
  from_phone_e164 = none;
  body = none;
  provider_sid = result.sid;
  status = MessageStatus.sent;
  created_at = at;
}

abbrev pub is_sending : OutboxStatus → Bool
is_sending OutboxStatus.sending = true
is_sending _ = false

-- A send that did not succeed: dead after the last attempt, else back to PENDING.
unfoldable pub settle_unsent : ℕ → Time → Outbox → Db → Db
unfolding mark_dead mark_retry
settle_unsent base now ob db =
    if leb ob.max_attempts ob.attempts
    then record db { outbox = update_outbox ob.id mark_dead db.outbox }
    else record db { outbox = update_outbox ob.id (mark_retry now base) db.outbox }

unfoldable pub settle_as : SendStatus → ℕ → Time → Time → Uuid → ProviderResult → Outbox → Db → Db
unfolding mark_sent out_message settle_unsent
settle_as SendStatus.sent base now at new_id result ob db = record db {
  outbox = update_outbox ob.id (mark_sent now result) db.outbox;
  messages = out_message new_id at result ob ∷ db.messages;
}
settle_as _ base now at new_id result ob db = settle_unsent base now ob db

-- The row that `FOR UPDATE` locked, if there is one, and the result of its send: only a row that is
-- still SENDING is settled.
unfoldable pub settle_found : ℕ → Time → Time → Uuid → ProviderResult → Option Outbox → Db → Db
unfolding settle_as
settle_found base now at new_id result none db = db
settle_found base now at new_id result (some ob) db =
    if is_sending ob.status then settle_as result.status base now at new_id result ob db else db

-- Phase 3, for the row of an id.
unfoldable pub settle : ℕ → Time → Time → Uuid → ProviderResult → Uuid → Db → Db
unfolding find_outbox settle_found
settle base now at new_id result i db =
    settle_found base now at new_id result (find_outbox i db.outbox) db

-- What the environment settles for each claimed row: the clocks and a new UUID at its settlement,
-- whether `fault_hook` raises, and what other transactions commit during its send.
pub record RelayEnv : Type 0 where
  pub now : Uuid → Time
  pub db_now : Uuid → Time
  pub new_id : Uuid → Uuid
  pub fault : Uuid → Bool
  pub during_send : Uuid → Db → Db

-- `_settle_row`: send, then settle. An exception leaves the row SENDING.
unfoldable pub settle_row : List Provider → ℕ → RelayEnv → Outbox → Db → Outcome Db
unfolding request_of settle chain_send
settle_row chain base env row db = elim (chain_send chain (request_of row)) [
  | err e ↦ err e
  | ok result ↦
      if env.fault row.id
      then err Error.injected_fault
      else ok (
          settle base (env.now row.id) (env.db_now row.id) (env.new_id row.id) result row.id
            (env.during_send row.id db))
]

-- The loop over the claimed rows: an exception ends it, with what was committed before.
unfoldable pub settle_all : List Provider → ℕ → RelayEnv → List Outbox → Db → Bool × Db
unfolding settle_row
settle_all chain base env [] db = (true, db)
settle_all chain base env (row ∷ rest) db = elim (settle_row chain base env row db) [
  | err e ↦ (false, env.during_send row.id db)
  | ok db₁ ↦ settle_all chain base env rest db₁
]

-- `run_once`: the claim, then the settlement of each claimed row as the claim returned it, in the
-- `order` in which it did. The count of the rows, whether the loop came to its end, and the database.
unfoldable pub run_once :
    List Provider
    → (List Outbox → List Outbox)
    → String
    → ℕ
    → ℕ
    → ℕ
    → (Uuid → Bool)
    → Time
    → RelayEnv
    → Db
    → ℕ × Bool × Db
unfolding due_outbox stamp_sending claim_outbox settle_all
run_once chain order worker lease batch base locked at env db =
    let rows =
      order
        (map (stamp_sending worker (at + seconds lease)) (due_outbox locked at batch db.outbox)) in
    let (finished, db₁) =
      settle_all chain base env rows (claim_outbox worker lease batch locked at db).1 in
    (length rows, finished, db₁)
