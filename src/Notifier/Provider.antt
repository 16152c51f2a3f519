-- ===== src/Notifier/Provider.antt =====
-- cloud/notifications: the result type, and the three providers. The Twilio client is a parameter:
-- given the message it returns a SID or raises.
use factory_monitor.Base.{
  String, Bool, false, Option, none, some, List, [], ◌∷◌, str_eq, ltb, ◌||◌, ◌&&◌, if◌then◌else◌,
}
use factory_monitor.Base.Outcome.{Outcome, ok}
use factory_monitor.Store.Incident.{Uuid, Time}
use factory_monitor.Store.Rows.{MsgChannel, NotificationKind, WhatsappSession}

pub data SendStatus : Type 0 where
  sent degraded failed : SendStatus

pub record ProviderResult : Type 0 where
  pub sid : Option String
  pub status : SendStatus
  pub channel : MsgChannel

-- The arguments of `send`; `variables` is never set by this program and is left out.
pub record Request : Type 0 where
  pub to : String
  pub kind : NotificationKind
  pub template_name : Option String
  pub body : Option String
  pub idempotency_key : Uuid

abbrev pub Provider : Type 0
Provider = Request → Outcome ProviderResult

unfoldable pub console_send : Provider
console_send request =
    ok (record { sid = none; status = SendStatus.sent; channel = MsgChannel.console })

-- `messages.create`: the text or the template, to a phone, answered by a SID or an exception.
abbrev pub TwilioClient : Type 0
TwilioClient = String → String → Option String

abbrev pub text_or_empty : Option String → String
text_or_empty none = ""
text_or_empty (some s) = s

-- `_render_body`
unfoldable pub render_body : Request → String
render_body request = elim request.kind [
  | NotificationKind.freeform ↦ text_or_empty request.body
  | NotificationKind.template ↦ text_or_empty request.template_name
]

abbrev pub create_result : MsgChannel → Option String → ProviderResult
create_result channel none = record { sid = none; status = SendStatus.failed; channel = channel }
create_result channel (some sid) = record {
  sid = some sid;
  status = SendStatus.sent;
  channel = channel;
}

unfoldable pub sms_send : TwilioClient → Provider
unfolding render_body
sms_send client request =
    ok (create_result MsgChannel.sms (client request.to (render_body request)))

-- The SELECT of `_has_open_window`: a session row of the phone that has not expired.
unfoldable pub has_session : List WhatsappSession → Time → String → Bool
has_session [] now phone = false
has_session (s ∷ rest) now phone =
    (str_eq s.phone_e164 phone && ltb now s.window_expires_at) || has_session rest now phone

-- `_has_open_window`: what a `session_maker` reads, or none for a provider without one, such as the
-- one that `build_provider_chain` makes.
unfoldable pub has_open_window : Option (List WhatsappSession) → Time → String → Bool
unfolding has_session
has_open_window none now phone = false
has_open_window (some rows) now phone = has_session rows now phone

abbrev pub degraded_whatsapp : ProviderResult
degraded_whatsapp = record {
  sid = none;
  status = SendStatus.degraded;
  channel = MsgChannel.whatsapp;
}

-- The window is read only for a free-form message. `to_wa` adds the prefix of a WhatsApp address.
unfoldable pub whatsapp_send :
    TwilioClient → (String → String) → Option (List WhatsappSession) → Time → Provider
unfolding render_body has_open_window
whatsapp_send client to_wa sessions now request = elim request.kind [
  | NotificationKind.freeform ↦
      if has_open_window sessions now request.to
      then ok (create_result MsgChannel.whatsapp (client (to_wa request.to) (render_body request)))
      else ok degraded_whatsapp
  | NotificationKind.template ↦
      ok (create_result MsgChannel.whatsapp (client (to_wa request.to) (render_body request)))
]
