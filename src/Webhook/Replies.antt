-- ===== src/Webhook/Replies.antt =====
-- What an authentic reply does to the incident and to the phone's session
-- (`twilio_inbound` of cloud/api/twilio_webhook.py).
use Prim.Native.String.{◌++◌ as text_append}
use factory_monitor.Base.{
  ◌+◌, ◌*◌, ◌<◌, ◌≡◌, ◌⊎◌, ◌&&◌, refl, sym, subst, String, Bool, true, false, Option, none, some,
  List, [], ◌∷◌, str_eq, eq_iff, lt→ltb, arith, inl, inr, Bool-cases, Option-cases, some_eq,
}
use factory_monitor.Base.Outcome.{Error, ok, err}
use factory_monitor.Base.Sorting.{sort_by}
use factory_monitor.Store.Incident.{Uuid, Time, seconds, IncidentStatus, Incident, is_open}
use factory_monitor.Store.Rows.{Message, WhatsappSession}
use factory_monitor.Store.Db.{Db, find, update}
use factory_monitor.Store.Lookup.{find-id, find-update_self}
use factory_monitor.Notifier.Provider.{has_session, has_open_window}
use factory_monitor.Webhook.{
  is_ack_keyword, Security, key_le, join_params, is_ascii, compare_digest,
  validate_twilio_signature, is_authentic, Reply, last_outbound, upsert_session, acked_by_reply,
  close_by_keyword, record_reply, incident_of, dispatch_reply, window_hours, receive_reply,
  twilio_inbound,
}

str_eq_refl : (s : String) → str_eq s s ≡ true
str_eq_refl s = (eq_iff s s).1 refl

open_after_upsert :
    (phone : String) (expires now t : Time) (rows : List WhatsappSession)
    → t < expires
    → has_session (upsert_session phone expires now rows) t phone ≡ true
unfolding has_session upsert_session
open_after_upsert phone expires now t [] h = rw (str_eq_refl phone, lt→ltb t expires h) refl
open_after_upsert phone expires now t (s ∷ rows) h = elim (Bool-cases (str_eq s.phone_e164 phone)) [
  | inl e ↦ rw e (rw (e, lt→ltb t expires h) refl)
  | inr e ↦ rw e (rw (e, open_after_upsert phone expires now t rows h) refl)
]

-- The sessions are written by the upsert alone.
module _ (reply : Reply) (now at : Time) (new_id : Uuid) where
  close-sessions :
      (inc : Incident) (db : Db) → (close_by_keyword reply now inc db).sessions ≡ db.sessions
  unfolding close_by_keyword
  close-sessions inc db = ground arith

  record-sessions :
      (o : Option Incident) (db : Db)
      → (record_reply reply now at new_id o db).sessions ≡ db.sessions
  unfolding record_reply
  record-sessions none db = refl
  record-sessions (some inc) db = close-sessions inc _

  dispatch-sessions :
      (o : Option Message) (seen db : Db)
      → (dispatch_reply reply now at new_id o seen db).sessions ≡ db.sessions
  unfolding dispatch_reply
  dispatch-sessions none seen db = refl
  dispatch-sessions (some m) seen db = record-sessions (incident_of m seen.incidents) db

  receive-sessions :
      (asked seen db : Db)
      → (receive_reply reply now at new_id asked seen db).sessions
        ≡ upsert_session reply.from_phone (now + seconds (window_hours * 3600)) now db.sessions
  unfolding receive_reply
  receive-sessions asked seen db =
      dispatch-sessions (last_outbound reply.from_phone asked.messages) seen _

-- An authentic reply is accepted, and for the next 24 hours a WhatsApp provider that has a
-- `session_maker` finds the phone's window open, whatever the reply says and whether or not it
-- matches a message; a provider without one, as the provider chain builds it, finds it closed.
pub reply_opens_window :
    (hmac_base64 : String → String → String) (security : Security) (reply : Reply) (now at t : Time)
    (new_id : Uuid) (asked seen db : Db)
    → is_authentic hmac_base64 security ≡ ok true
    → t < now + seconds (24 * 3600)
    → (db' : Db) × (twilio_inbound hmac_base64 security reply now at new_id asked seen db ≡ ok db')
      × (has_open_window (some db'.sessions) t reply.from_phone ≡ true)
      × (has_open_window none t reply.from_phone ≡ false)
unfolding twilio_inbound has_open_window
reply_opens_window hmac_base64 security reply now at t new_id asked seen db a h = (
  receive_reply reply now at new_id asked seen db,
  rw a refl,
  rw (receive-sessions reply now at new_id asked seen db)
      (open_after_upsert reply.from_phone (now + seconds (24 * 3600)) now t db.sessions h),
  refl,
)

module _ (hmac_base64 : String → String → String) (security : Security) where
  -- The signature that the request should have.
  abbrev pub expected : String
  expected =
      hmac_base64 security.auth_token
        (text_append security.url (join_params (sort_by key_le security.params)))

  -- With the check on: no token, or no signature, or an empty one, or another one than expected.
  abbrev pub IsForged : Type 0
  IsForged =
      (security.auth_token ≡ "")
      ⊎ ((sig : String)
          → security.signature ≡ some sig
          → (sig ≡ "") ⊎ (str_eq expected sig ≡ false))

  -- The comparison of the signature raises TypeError.
  abbrev pub Raises : Type 0
  Raises =
      (sig : String) × (security.signature ≡ some sig)
      × ((is_ascii expected && is_ascii sig) ≡ false)

  invalid :
      (sig : String)
      → security.signature ≡ some sig
      → str_eq expected sig ≡ false
      → (validate_twilio_signature hmac_base64 security sig ≡ ok false)
        ⊎ ((validate_twilio_signature hmac_base64 security sig ≡ err Error.type_error) × Raises)
  unfolding validate_twilio_signature compare_digest
  invalid sig e h = elim (Bool-cases (is_ascii expected && is_ascii sig)) [
    | inl q ↦ inl (rw (q, h) refl)
    | inr q ↦ inr (rw q refl, (sig, e, q))
  ]

  not_authentic :
      security.skip_check ≡ false
      → IsForged
      → (is_authentic hmac_base64 security ≡ ok false)
        ⊎ ((is_authentic hmac_base64 security ≡ err Error.type_error) × Raises)
  unfolding is_authentic
  not_authentic on (inl empty) = inl (rw (on, empty) refl)
  not_authentic on (inr bad) = elim (Bool-cases (str_eq security.auth_token "")) [
    | inl no_token ↦ inl (rw (on, no_token, is_authentic) refl)
    | inr token ↦ elim (Option-cases security.signature) [
      | inl e ↦ inl (rw (on, token, e, is_authentic) refl)
      | inr (sig, e) ↦ elim (Bool-cases (str_eq sig "")) [
        | inl q ↦ inl (rw (on, token, e, q, is_authentic) refl)
        | inr q ↦ elim (bad sig e) [
          | inl q₂ ↦ absurd (clash _ ((eq_iff sig "").1 q₂) q)
          | inr w ↦ elim (invalid sig e w) [
            | inl v ↦ inl (rw (on, token, e, q, is_authentic) v)
            | inr v ↦ inr (rw (on, token, e, q, is_authentic) v.0, v.1)
          ]
        ]
      ]
    ]
  ]
    where
      clash : (b : Bool) → b ≡ true → b ≡ false → ⊥
      clash b p q = cc

  -- A reply that is not authentic, that is, with the check on, one with no signature, an empty one, or
  -- another one than the HMAC of the request, and every one while the token is empty: it is answered by
  -- 403, whatever it says, or else the comparison of the signatures raises TypeError, which is the
  -- status 500 and happens only where one of the two is not ASCII; in neither case is anything written.
  pub forged_reply_refused :
      (reply : Reply) (now at : Time) (new_id : Uuid) (asked seen db : Db)
      → security.skip_check ≡ false
      → IsForged
      → (twilio_inbound hmac_base64 security reply now at new_id asked seen db
          ≡ err Error.forbidden)
        ⊎ ((twilio_inbound hmac_base64 security reply now at new_id asked seen db
              ≡ err Error.type_error)
            × Raises)
  unfolding twilio_inbound
  forged_reply_refused reply now at new_id asked seen db on bad = elim (not_authentic on bad) [
    | inl e ↦ inl (rw e refl)
    | inr e ↦ inr (rw e.0 refl, e.1)
  ]

module _ (reply : Reply) (now at : Time) (new_id : Uuid) (i : Uuid) (inc cur : Incident)
    (is_inc : inc.id ≡ i) (still_open : is_open inc.status ≡ true)
    (says_ack : is_ack_keyword reply.keyword ≡ true) where
  close-acks :
      (db : Db)
      → find i db.incidents ≡ some cur
      → find i (close_by_keyword reply now inc db).incidents ≡ some (acked_by_reply now cur)
  unfolding close_by_keyword acked_by_reply
  close-acks db found =
      rw (still_open, says_ack)
        (subst
          (λ k. find i (update k (acked_by_reply now) db.incidents) ≡ some (acked_by_reply now cur))
          (sym is_inc) (find-update_self i (acked_by_reply now) (λ x. refl) db.incidents cur found))

  record-acks :
      (o : Option Incident) (db : Db)
      → o ≡ some inc
      → find i db.incidents ≡ some cur
      → find i (record_reply reply now at new_id o db).incidents ≡ some (acked_by_reply now cur)
  unfolding record_reply
  record-acks none db e found = cc
  record-acks (some x) db e found =
      subst
        (λ y.
          find i (record_reply reply now at new_id (some y) db).incidents
          ≡ some (acked_by_reply now cur))
        (sym (some_eq e)) (close-acks _ found)

  dispatch-acks :
      (o : Option Message) (m : Message) (seen db : Db)
      → o ≡ some m
      → m.incident_id ≡ some i
      → find i seen.incidents ≡ some inc
      → find i db.incidents ≡ some cur
      → find i (dispatch_reply reply now at new_id o seen db).incidents
        ≡ some (acked_by_reply now cur)
  unfolding dispatch_reply
  dispatch-acks none m seen db e about here found = cc
  dispatch-acks (some n) m seen db e about here found =
      record-acks (incident_of n seen.incidents) db (rw (some_eq e, about) here) found

-- An authentic reply with an acknowledging keyword from a phone whose last outbound message is about
-- an incident that was open when the handler loaded it: the reply is accepted and the incident is then
-- acknowledged, at the tier that it has by then and with its timer stopped.
pub ack_reply_acknowledges :
    (hmac_base64 : String → String → String) (security : Security) (reply : Reply) (now at : Time)
    (new_id : Uuid) (asked seen db : Db) (m : Message) (i : Uuid) (inc cur : Incident)
    → is_authentic hmac_base64 security ≡ ok true
    → last_outbound reply.from_phone asked.messages ≡ some m
    → m.incident_id ≡ some i
    → find i seen.incidents ≡ some inc
    → is_open inc.status ≡ true
    → find i db.incidents ≡ some cur
    → is_ack_keyword reply.keyword ≡ true
    → (db' : Db) × (x : Incident) × (twilio_inbound hmac_base64 security reply now at new_id asked
          seen db
        ≡ ok db')
      × (find i db'.incidents ≡ some x)
      × (x.status ≡ IncidentStatus.ack)
      × (x.current_tier ≡ cur.current_tier)
      × (x.next_fire_at ≡ none)
unfolding twilio_inbound receive_reply acked_by_reply
ack_reply_acknowledges hmac_base64 security reply now at new_id asked seen db m i inc cur a last
      about here is_open' found ack =
    (
      receive_reply reply now at new_id asked seen db,
      acked_by_reply now cur,
      rw a refl,
      dispatch-acks reply now at new_id i inc cur (find-id i seen.incidents inc here) is_open' ack _
          m seen _ last about here found,
      refl,
      refl,
      refl,
    )
