-- ===== src/Examples/Replying.antt =====
-- Witnesses for the webhook.
use factory_monitor.Base.{◌≡◌, refl, inl, ◌⊎◌, true, false, none, some, [], ◌∷◌, String, arith}
use factory_monitor.Base.Outcome.{Error, ok, err}
use factory_monitor.Base.Sorting.{sort_by}
use factory_monitor.Store.Incident.{IncidentStatus, Incident}
use factory_monitor.Store.Rows.{Message, MsgChannel, MsgDirection, MessageStatus}
use factory_monitor.Store.Db.{Db, find}
use factory_monitor.Ingest.Service.{new_incident}
use factory_monitor.Notifier.Provider.{has_open_window}
use factory_monitor.Webhook.{
  is_ack_keyword, Security, is_ascii, compare_digest, validate_twilio_signature, is_authentic,
  Reply, last_outbound, twilio_inbound,
}
use factory_monitor.Webhook.Replies.{
  reply_opens_window, forged_reply_refused, Raises, ack_reply_acknowledges,
}
use factory_monitor.Examples.{event, clocks_at}
use factory_monitor.Examples.Ingesting.{opened}

-- A message about the open incident, and the reply to it.
abbrev asked : Message
asked = record {
  id = 400;
  incident_id = some 100;
  direction = MsgDirection.outbound;
  channel = MsgChannel.whatsapp;
  to_phone_e164 = some "+912";
  from_phone_e164 = none;
  body = none;
  provider_sid = some "SM1";
  status = MessageStatus.sent;
  created_at = 2000;
}

abbrev notified : Db
notified = record opened { messages = asked ∷ [] }

abbrev answer : Reply
answer = record { from_phone = "+912"; body_text = "ack"; keyword = "ACK"; provider_sid = none }

-- A hash that is the token itself.
abbrev same_text : String → String → String
same_text token text = token

abbrev signed : Security
signed = record {
  skip_check = false;
  auth_token = "t";
  signature = some "t";
  url = "https://x";
  params = ("Body", "ack") ∷ [];
}

abbrev unsigned : Security
unsigned = record {
  skip_check = false;
  auth_token = "";
  signature = some "";
  url = "https://x";
  params = [];
}

is_signed : is_authentic same_text signed ≡ ok true
unfolding is_authentic validate_twilio_signature compare_digest is_ascii sort_by
is_signed = refl

abbrev row : Incident
row = new_incident 100 event 60 (clocks_at 1000)

ack_reply_acknowledges_example :
    (db' : Db) × (x : Incident) × (twilio_inbound same_text signed answer 5000 5000 500 notified
        notified notified
      ≡ ok db')
    × (find 100 db'.incidents ≡ some x)
    × (x.status ≡ IncidentStatus.ack)
    × (x.current_tier ≡ 0)
    × (x.next_fire_at ≡ none)
unfolding last_outbound find new_incident is_ack_keyword sort_by
ack_reply_acknowledges_example =
    ack_reply_acknowledges same_text signed answer 5000 5000 500 notified notified notified asked
      100 row row is_signed refl refl refl refl refl refl

reply_opens_window_example :
    (db' : Db) × (twilio_inbound same_text signed answer 5000 5000 500 notified notified notified
      ≡ ok db')
    × (has_open_window (some db'.sessions) 6000 "+912" ≡ true)
    × (has_open_window none 6000 "+912" ≡ false)
reply_opens_window_example =
    reply_opens_window same_text signed answer 5000 5000 6000 500 notified notified notified
      is_signed (omega arith)

forged_reply_refused_example :
    (twilio_inbound same_text unsigned answer 5000 5000 500 notified notified notified
      ≡ err Error.forbidden)
    ⊎ ((twilio_inbound same_text unsigned answer 5000 5000 500 notified notified notified
          ≡ err Error.type_error)
        × Raises same_text unsigned)
forged_reply_refused_example =
    forged_reply_refused same_text unsigned answer 5000 5000 500 notified notified notified refl
      (inl refl)

-- A signature that is not ASCII.
abbrev accented : Security
accented = record {
  skip_check = false;
  auth_token = "t";
  signature = some "é";
  url = "https://x";
  params = [];
}

accented_raises :
    twilio_inbound same_text accented answer 5000 5000 500 notified notified notified
    ≡ err Error.type_error
unfolding twilio_inbound is_authentic validate_twilio_signature compare_digest is_ascii sort_by
accented_raises = refl
