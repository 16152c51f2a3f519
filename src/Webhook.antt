-- ===== src/Webhook.antt =====
-- cloud/api/twilio_webhook.py: the inbound reply of a phone. The base64 of the HMAC is a parameter;
-- the form's fields come stripped and upper-cased.
pub mod Replies
use Prim.Native.Char.{code}
use Prim.Native.Nat.{Ordering}
use Prim.Native.String.{compare, ◌++◌ as text_append}
use factory_monitor.Base.{
  ℕ, ◌+◌, ◌*◌, String, Bool, true, false, ◌&&◌, ◌||◌, not, Option, none, some, List, [], ◌∷◌,
  str_eq, leb, ltb, keep, head?, if◌then◌else◌,
}
use factory_monitor.Base.Outcome.{Outcome, Error, ok, err}
use factory_monitor.Base.Sorting.{sort_by}
use factory_monitor.Store.Incident.{Uuid, Time, seconds, IncidentStatus, Incident, is_open}
use factory_monitor.Store.Rows.{
  EventType, Payload, IncidentEvent, Message, MsgChannel, MsgDirection, MessageStatus,
  WhatsappSession,
}
use factory_monitor.Store.Db.{Db, find, update}
use factory_monitor.Escalation.Actions.{action_event}

-- `_ACK_KEYWORDS` and `_RESOLVE_KEYWORDS`
unfoldable pub is_ack_keyword : String → Bool
is_ack_keyword k = str_eq k "ACK" || (str_eq k "ACKNOWLEDGE" || str_eq k "NOTED")

unfoldable pub is_resolve_keyword : String → Bool
is_resolve_keyword k =
    str_eq k "RESOLVED"
    || (str_eq k "RESOLVE" || (str_eq k "DONE" || (str_eq k "FIXED" || str_eq k "CLOSED")))

-- The settings, the header and the request that the signature check reads; `url` has no query.
pub record Security : Type 0 where
  pub skip_check : Bool
  pub auth_token : String
  pub signature : Option String
  pub url : String
  pub params : List (String × String)

abbrev pub key_le : String × String → String × String → Bool
key_le p q = elim (compare p.0 q.0) [ Ordering.gt ↦ false | _ ↦ true ]

-- `"".join(f"{k}{v}" for k, v in sorted(params.items()))`; the keys of a dictionary differ.
abbrev pub join_params : List (String × String) → String
join_params [] = ""
join_params (p ∷ rest) = text_append p.0 (text_append p.1 (join_params rest))

unfoldable pub is_ascii : String → Bool
is_ascii String.[] = true
is_ascii (String.◌∷◌ c s) = ltb (code c) 128 && is_ascii s

-- `hmac.compare_digest`, which raises TypeError on text that is not ASCII.
unfoldable pub compare_digest : String → String → Outcome Bool
unfolding is_ascii
compare_digest a b = if is_ascii a && is_ascii b then ok (str_eq a b) else err Error.type_error

-- `hmac_base64 key text` is the base64 of the HMAC-SHA1.
unfoldable pub validate_twilio_signature :
    (hmac_base64 : String → String → String) → Security → String → Outcome Bool
unfolding compare_digest
validate_twilio_signature hmac_base64 s sig =
    compare_digest
      (hmac_base64 s.auth_token (text_append s.url (join_params (sort_by key_le s.params)))) sig

-- Fail-closed: with the check on, an empty token, a missing or an empty signature is refused.
unfoldable pub is_authentic : (String → String → String) → Security → Outcome Bool
unfolding validate_twilio_signature
is_authentic hmac_base64 s =
    if s.skip_check
    then ok true
    else if str_eq s.auth_token ""
    then ok false
    else elim s.signature [
      | none ↦ ok false
      | some sig ↦ if str_eq sig "" then ok false else validate_twilio_signature hmac_base64 s sig
    ]

-- The fields of the form, after their parsing: the phone without its prefix, the stripped body and
-- its upper case.
pub record Reply : Type 0 where
  pub from_phone : String
  pub body_text : String
  pub keyword : String
  pub provider_sid : Option String

unfoldable pub is_outbound_to : String → Message → Bool
is_outbound_to phone m = elim m.direction [
  | MsgDirection.inbound ↦ false
  | MsgDirection.outbound ↦ elim m.status [
    | MessageStatus.received ↦ false
    | MessageStatus.sent ↦ elim m.to_phone_e164 [ none ↦ false | some to ↦ str_eq to phone ]
  ]
]

abbrev pub newer : Message → Message → Bool
newer a b = leb b.created_at a.created_at

-- The most recent outbound message to the phone.
unfoldable pub last_outbound : String → List Message → Option Message
unfolding is_outbound_to
last_outbound phone rows = head? (sort_by newer (keep (is_outbound_to phone) rows))

-- INSERT … ON CONFLICT (phone_e164) DO UPDATE.
unfoldable pub upsert_session : String → Time → Time → List WhatsappSession → List WhatsappSession
upsert_session phone expires now [] =
    record { phone_e164 = phone; window_expires_at = expires; last_inbound_at = now } ∷ []
upsert_session phone expires now (s ∷ rest) =
    if str_eq s.phone_e164 phone
    then record s { window_expires_at = expires; last_inbound_at = now } ∷ rest
    else s ∷ upsert_session phone expires now rest

-- The UPDATEs of the two keyword branches.
unfoldable pub acked_by_reply : Time → Incident → Incident
acked_by_reply now inc = record inc {
  status = IncidentStatus.ack;
  next_fire_at = none;
  deadline_at = none;
  acked_at = some now;
  updated_at = now;
}

unfoldable pub resolved_by_reply : Time → Incident → Incident
resolved_by_reply now inc = record inc {
  status = IncidentStatus.resolved;
  next_fire_at = none;
  deadline_at = none;
  resolved_at = some now;
  updated_at = now;
}

-- `_ACTIVE | {ACK}`
abbrev pub is_closable : IncidentStatus → Bool
is_closable IncidentStatus.ack = true
is_closable s = is_open s

unfoldable pub reply_event : Reply → Incident → IncidentEvent
reply_event reply inc = record {
  incident_id = inc.id;
  type = EventType.reply_received;
  from_state = some inc.status;
  to_state = some inc.status;
  tier = some inc.current_tier;
  source_event_id = none;
  payload = Payload.reply reply.body_text reply.from_phone;
}

-- Keyword-driven close of the loaded incident.
unfoldable pub close_by_keyword : Reply → Time → Incident → Db → Db
unfolding is_ack_keyword is_resolve_keyword acked_by_reply resolved_by_reply action_event
close_by_keyword reply now inc db =
    if is_ack_keyword reply.keyword && is_open inc.status
    then record db {
      incidents = update inc.id (acked_by_reply now) db.incidents;
      events =
          action_event EventType.ack IncidentStatus.ack (Payload.from_reply reply.body_text) inc
          ∷ db.events;
    }
    else if is_resolve_keyword reply.keyword && is_closable inc.status
    then record db {
      incidents = update inc.id (resolved_by_reply now) db.incidents;
      events =
          action_event EventType.resolved IncidentStatus.resolved
            (Payload.from_reply reply.body_text) inc
          ∷ db.events;
    }
    else db

unfoldable pub in_message : Uuid → Time → Uuid → Reply → Message
in_message new_id at i reply = record {
  id = new_id;
  incident_id = some i;
  direction = MsgDirection.inbound;
  channel = MsgChannel.whatsapp;
  to_phone_e164 = none;
  from_phone_e164 = some reply.from_phone;
  body = some reply.body_text;
  provider_sid = reply.provider_sid;
  status = MessageStatus.received;
  created_at = at;
}

-- The matched branch, with its incident if that still exists.
unfoldable pub record_reply : Reply → Time → Time → Uuid → Option Incident → Db → Db
unfolding close_by_keyword in_message reply_event
record_reply reply now at new_id none db = db
record_reply reply now at new_id (some inc) db = close_by_keyword reply now inc (record db {
  messages = in_message new_id at inc.id reply ∷ db.messages;
  events = reply_event reply inc ∷ db.events;
})

-- The incident that a message is about; a message without one finds nothing.
abbrev pub incident_of : Message → List Incident → Option Incident
incident_of m rows = elim m.incident_id [ none ↦ none | some i ↦ find i rows ]

unfoldable pub dispatch_reply : Reply → Time → Time → Uuid → Option Message → Db → Db → Db
unfolding record_reply
dispatch_reply reply now at new_id none seen db = record db {
  unmatched =
      record {
        id = new_id;
        from_phone_e164 = reply.from_phone;
        body = some reply.body_text;
        provider_sid = reply.provider_sid;
      }
      ∷ db.unmatched;
}
dispatch_reply reply now at new_id (some m) seen db =
    record_reply reply now at new_id (incident_of m seen.incidents) db

abbrev pub window_hours : ℕ
window_hours = 24

-- The transaction of an authentic reply. Each SELECT is a statement of its own without a lock: the
-- messages are those of the database `asked`, the incident is the one of `seen`, and the writes go to
-- the database `db` of the commit.
unfoldable pub receive_reply : Reply → Time → Time → Uuid → Db → Db → Db → Db
unfolding upsert_session dispatch_reply last_outbound
receive_reply reply now at new_id asked seen db =
    dispatch_reply reply now at new_id (last_outbound reply.from_phone asked.messages) seen
      (record db {
        sessions =
            upsert_session reply.from_phone (now + seconds (window_hours * 3600)) now db.sessions;
      })

-- The answer to the signature check: 403 when it fails; an exception of it is the status 500.
abbrev pub if_authentic : Outcome Bool → Db → Outcome Db
if_authentic (err e) db = err e
if_authentic (ok false) db = err Error.forbidden
if_authentic (ok true) db = ok db

-- The whole handler; its answer to a reply that it accepts is always the empty TwiML.
unfoldable pub twilio_inbound :
    (String → String → String) → Security → Reply → Time → Time → Uuid → Db → Db → Db → Outcome Db
unfolding is_authentic receive_reply
twilio_inbound hmac_base64 security reply now at new_id asked seen db =
    if_authentic (is_authentic hmac_base64 security)
      (receive_reply reply now at new_id asked seen db)
