-- ===== src/Store/Db.antt =====
-- The tables together, and the statements that insert, find and update rows. A table is a list,
-- newest row first. An insert that breaks a UNIQUE constraint or index of
-- cloud/common/db/models.py raises SQLAlchemy's `IntegrityError`.
use factory_monitor.Base.{
  ℕ, String, Bool, false, ◌&&◌, ◌||◌, Option, none, some, List, [], ◌∷◌, ◌==◌, str_eq,
  if◌then◌else◌,
}
use factory_monitor.Base.Outcome.{Outcome, Error, ok, err}
use factory_monitor.Store.Incident.{Uuid, Incident, is_open}
use factory_monitor.Store.Rows.{
  IncidentEvent, EscalationIdempotency, IdempotencyKey, Outbox, Message, WhatsappSession,
  UnmatchedInbound, User, OnCallAssignment, EscalationTier,
}

-- The tables that the workers only read.
pub record Roster : Type 0 where
  pub users : List User
  pub assignments : List OnCallAssignment
  pub tiers : List EscalationTier

pub record Db : Type 0 where
  pub incidents : List Incident
  pub events : List IncidentEvent
  pub idempotency : List EscalationIdempotency
  pub outbox : List Outbox
  pub messages : List Message
  pub sessions : List WhatsappSession
  pub unmatched : List UnmatchedInbound
  pub roster : Roster

-- The Python clock and the database's `now()` at one transaction.
pub record Clocks : Type 0 where
  pub now : ℕ
  pub db_now : ℕ

-- SELECT … WHERE id = :id
unfoldable pub find : Uuid → List Incident → Option Incident
find i [] = none
find i (x ∷ xs) = if x.id == i then some x else find i xs

-- UPDATE … WHERE id = :id
unfoldable pub update : Uuid → (Incident → Incident) → List Incident → List Incident
update i f [] = []
update i f (x ∷ xs) = (if x.id == i then f x else x) ∷ update i f xs

-- The index `uq_incident_open_dedup`: an open incident has the key.
unfoldable pub open_with_key : String → List Incident → Bool
open_with_key k [] = false
open_with_key k (x ∷ xs) = (str_eq x.dedup_key k && is_open x.status) || open_with_key k xs

unfoldable pub source_is : Uuid → Option Uuid → Bool
source_is e none = false
source_is e (some s) = s == e

-- The index `uq_event_source`: an audit row has the source event.
unfoldable pub event_seen : Uuid → List IncidentEvent → Bool
unfolding source_is
event_seen e [] = false
event_seen e (x ∷ xs) = source_is e x.source_event_id || event_seen e xs

unfoldable pub fired : Uuid → ℕ → List EscalationIdempotency → Bool
fired i t [] = false
fired i t (x ∷ xs) = (x.incident_id == i && x.tier == t) || fired i t xs

abbrev pub key_eq : IdempotencyKey → IdempotencyKey → Bool
key_eq a b = a.incident == b.incident && a.tier == b.tier

unfoldable pub has_key : IdempotencyKey → List Outbox → Bool
has_key k [] = false
has_key k (x ∷ xs) = key_eq x.idempotency_key k || has_key k xs

unfoldable pub has_outbox_id : Uuid → List Outbox → Bool
has_outbox_id i [] = false
has_outbox_id i (x ∷ xs) = x.id == i || has_outbox_id i xs

-- INSERT INTO incidents: the primary key, and the partial unique index on open rows.
unfoldable pub insert_incident : Incident → Db → Outcome Db
unfolding find
insert_incident x db = elim (find x.id db.incidents) [
  | some _ ↦ err Error.integrity_error
  | none ↦
      if is_open x.status && open_with_key x.dedup_key db.incidents
      then err Error.integrity_error
      else ok (record db { incidents = x ∷ db.incidents })
]

unfoldable pub duplicates_source : Option Uuid → List IncidentEvent → Bool
duplicates_source none xs = false
duplicates_source (some e) xs = event_seen e xs

-- INSERT INTO incident_events: the partial unique index on `source_event_id`.
unfoldable pub insert_event : IncidentEvent → Db → Outcome Db
unfolding duplicates_source
insert_event x db =
    if duplicates_source x.source_event_id db.events
    then err Error.integrity_error
    else ok (record db { events = x ∷ db.events })

-- INSERT INTO outbox: the primary key, and UNIQUE (idempotency_key).
unfoldable pub insert_outbox : Outbox → Db → Outcome Db
insert_outbox x db =
    if has_outbox_id x.id db.outbox || has_key x.idempotency_key db.outbox
    then err Error.integrity_error
    else ok (record db { outbox = x ∷ db.outbox })
