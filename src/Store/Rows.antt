-- ===== src/Store/Rows.antt =====
-- cloud/common/db/models.py: the tables beside `incidents` that the workers read and write.
use factory_monitor.Base.{ℕ, String, Bool, true, false, Option}
use factory_monitor.Store.Incident.{Uuid, Time, IncidentStatus, AnomalyType}

pub data EscalationRole : Type 0 where
  operator floor_manager plant_director : EscalationRole

abbrev pub role_eq : EscalationRole → EscalationRole → Bool
role_eq EscalationRole.operator EscalationRole.operator = true
role_eq EscalationRole.floor_manager EscalationRole.floor_manager = true
role_eq EscalationRole.plant_director EscalationRole.plant_director = true
role_eq _ _ = false

pub data MsgChannel : Type 0 where
  whatsapp sms console : MsgChannel

pub data MsgDirection : Type 0 where
  inbound outbound : MsgDirection

pub data OutboxStatus : Type 0 where
  pending sending sent dead : OutboxStatus

-- `NotificationKind` of cloud/notifications/provider.py, the values of the column `kind`.
pub data NotificationKind : Type 0 where
  template freeform : NotificationKind

-- The values that the program writes into `incident_events.type`.
pub data EventType : Type 0 where
  created tier1_fired tier2_fired critical ack resolved reply_received : EventType

-- The JSON objects that the program writes into `incident_events.payload`.
pub data Payload : Type 0 where
  anomaly : String → AnomalyType → String → String → Time → String → Payload
  tier_change : ℕ → ℕ → Option String → Payload
  acknowledged : Option String → Payload
  resolution : String → Option String → Payload
  reply : String → String → Payload
  from_reply : String → Payload

pub record IncidentEvent : Type 0 where
  pub incident_id : Uuid
  pub type : EventType
  pub from_state : Option IncidentStatus
  pub to_state : Option IncidentStatus
  pub tier : Option ℕ
  pub source_event_id : Option Uuid
  pub payload : Payload

-- A row of `escalation_idempotency`.
pub record EscalationIdempotency : Type 0 where
  pub incident_id : Uuid
  pub tier : ℕ
  pub fired_at : Time

-- The text f"{incident.id}|{tier}", kept as its two parts: a UUID prints to 36 characters, so the
-- text determines both.
pub record IdempotencyKey : Type 0 where
  pub incident : Uuid
  pub tier : ℕ

pub record Outbox : Type 0 where
  pub id : Uuid
  pub incident_id : Option Uuid
  pub tier : Option ℕ
  pub to_phone_e164 : String
  pub channel : MsgChannel
  pub kind : NotificationKind
  pub template_name : Option String
  pub body : Option String
  pub idempotency_key : IdempotencyKey
  pub status : OutboxStatus
  pub attempts : ℕ
  pub max_attempts : ℕ
  pub next_attempt_at : Time
  pub provider_sid : Option String
  pub claimed_by : Option String
  pub claimed_until : Option Time
  pub sent_at : Option Time

pub data MessageStatus : Type 0 where
  sent received : MessageStatus

pub record Message : Type 0 where
  pub id : Uuid
  pub incident_id : Option Uuid
  pub direction : MsgDirection
  pub channel : MsgChannel
  pub to_phone_e164 : Option String
  pub from_phone_e164 : Option String
  pub body : Option String
  pub provider_sid : Option String
  pub status : MessageStatus
  pub created_at : Time

pub record WhatsappSession : Type 0 where
  pub phone_e164 : String
  pub window_expires_at : Time
  pub last_inbound_at : Time

pub record UnmatchedInbound : Type 0 where
  pub id : Uuid
  pub from_phone_e164 : String
  pub body : Option String
  pub provider_sid : Option String

pub record User : Type 0 where
  pub id : Uuid
  pub site_id : String
  pub full_name : String
  pub phone_e164 : String
  pub is_active : Bool

pub record OnCallAssignment : Type 0 where
  pub site_id : String
  pub role : EscalationRole
  pub zone_id : Option String
  pub user_id : Uuid
  pub starts_at : Time
  pub ends_at : Time

pub record EscalationTier : Type 0 where
  pub site_id : String
  pub anomaly_type : Option AnomalyType
  pub tier : ℕ
  pub role : EscalationRole
  pub delay_seconds : ℕ
  pub template_name : String
