-- ===== src/Live/Publication.antt =====
-- cloud/common/ws_events.py, ws_publisher.py and ws/subscriber.py: a change event from the writer that
-- publishes it, through Redis, to the messages for the sockets. `json.dumps` and `json.loads` of a
-- flat dictionary, the text of a UUID or a time, and Redis are parameters.
use factory_monitor.Base.{
  ℕ, ◌≡◌, refl, ap, ◌∙◌, String, Bool, true, false, Option, none, some, List, [], ◌∷◌, str_eq, ltb,
  if◌then◌else◌,
}
use factory_monitor.Base.Outcome.{Outcome, Error, ok, err}
use factory_monitor.Store.Incident.{Uuid, Time, Incident}
use factory_monitor.Store.Db.{find}
use factory_monitor.Live.View.{WsType}
use factory_monitor.Live.Manager.{Connection, broadcast}
use factory_monitor.Live.Broadcaster.{ChangeData, ws_type_of, build_data, broadcast_change}

-- A value of the dictionary on the wire, and one before `_default` has been applied to it: `opaque` is
-- an object that `_default` refuses.
pub data JsonValue : Type 0 where
  null : JsonValue
  number : ℕ → JsonValue
  text : String → JsonValue

pub data Field : Type 0 where
  json : JsonValue → Field
  time : Time → Field
  uuid : Uuid → Field
  opaque : Field

abbrev pub Wire : Type 0
Wire = List (String × JsonValue)

-- `d[key]`
unfoldable pub wire_get : String → Wire → Option JsonValue
wire_get key [] = none
wire_get key ((k, v) ∷ d) = if str_eq k key then some v else wire_get key d

-- The change: its two fixed fields and the optional hints.
pub record Change : Type 0 where
  pub change_type : String
  pub incident_id : String
  pub hints : List (String × Field)

-- The Redis client of a writer: none, or whether `publish` of a text succeeds.
abbrev pub RedisClient : Type 0 → Type 0
RedisClient Raw = Option (Raw → Bool)

-- What Python's standard library does with dictionaries, UUIDs and times; `Raw` is the text of a
-- dictionary, and `loads` is none where it raises or gives anything else.
pub record Texts (Raw : Type 0) : Type 0 where
  pub dumps : Wire → Raw
  pub loads : Raw → Option Wire
  pub uuid_text : Uuid → String
  pub parse_uuid : String → Option Uuid
  pub isoformat : Time → String
  pub value_text : JsonValue → String

module _ {Raw : Type 0} (texts : Texts Raw) where
  unfoldable pub incident_change : String → Uuid → List (String × Field) → Change
  incident_change change_type incident_id hints = record {
    change_type = change_type;
    incident_id = texts.uuid_text incident_id;
    hints = hints;
  }

  -- `_default`, on the values that need it: `TypeError` is none.
  unfoldable pub default : Field → Option JsonValue
  default (Field.json v) = some v
  default (Field.time t) = some (JsonValue.text (texts.isoformat t))
  default (Field.uuid u) = some (JsonValue.text (texts.uuid_text u))
  default Field.opaque = none

  unfoldable pub wire_hints : List (String × Field) → Option Wire
  unfolding default
  wire_hints [] = some []
  wire_hints ((k, f) ∷ fs) =
      let rest = wire_hints fs in
      elim (default f) [
        | none ↦ none
        | some v ↦ elim rest [ none ↦ none | some d ↦ some ((k, v) ∷ d) ]
      ]

  -- `encode_change`; none is its `TypeError`.
  unfoldable pub encode_change : Change → Option Raw
  unfolding wire_hints
  encode_change c = elim (wire_hints c.hints) [
    | none ↦ none
    | some d ↦ some (
        texts.dumps (
          ("change_type", JsonValue.text c.change_type)
          ∷ ("incident_id", JsonValue.text c.incident_id)
          ∷ d))
  ]

  -- `decode_change`
  unfoldable pub decode_change : Raw → Option Wire
  decode_change raw = texts.loads raw

  -- Whether it was issued, and what Redis got. It never raises.
  unfoldable pub publish_incident_event : RedisClient Raw → Change → Bool × Option Raw
  unfolding encode_change
  publish_incident_event none c = (false, none)
  publish_incident_event (some publish) c = elim (encode_change c) [
    | none ↦ (false, none)
    | some raw ↦ if publish raw then (true, some raw) else (false, none)
  ]

  -- A change type that is no text is like an unknown one.
  unfoldable pub type_text : JsonValue → String
  type_text (JsonValue.text s) = s
  type_text _ = ""

  -- `broadcast_change` on the decoded dictionary: a missing key raises.
  unfoldable pub broadcast_wire :
      (ℕ → Bool)
      → Wire
      → List Incident
      → List Connection
      → Outcome (Option (WsType × ChangeData) × ℕ × List Connection)
  unfolding wire_get type_text broadcast_change
  broadcast_wire takes d rows conns = elim (wire_get "change_type" d) [
    | none ↦ err Error.key_error
    | some t ↦ elim (wire_get "incident_id" d) [
      | none ↦ err Error.key_error
      | some i ↦
          broadcast_change texts.parse_uuid takes (type_text t) (texts.value_text i) rows conns
    ]
  ]

  -- What `handle_raw` returns and has sent, and the registry after it. It never raises.
  abbrev pub settled :
      List Connection
      → Outcome (Option (WsType × ChangeData) × ℕ × List Connection)
      → Bool × Option (WsType × ChangeData) × List Connection
  settled conns (err e) = (false, none, conns)
  settled conns (ok (message, sent, rest)) = (ltb 0 sent, message, rest)

  unfoldable pub handle_raw :
      (ℕ → Bool)
      → List Incident
      → List Connection
      → Raw
      → Bool × Option (WsType × ChangeData) × List Connection
  unfolding decode_change broadcast_wire
  handle_raw takes rows conns raw = elim (decode_change raw) [
    | none ↦ (false, none, conns)
    | some d ↦ settled conns (broadcast_wire takes d rows conns)
  ]

  -- `default` accepts the hints.
  abbrev pub AreJson : List (String × Field) → Type 0
  AreJson hints = (d : Wire) × (wire_hints hints ≡ some d)

  abbrev wire_of : String → Uuid → Wire → Wire
  wire_of change_type i d =
      ("change_type", JsonValue.text change_type)
      ∷ ("incident_id", JsonValue.text (texts.uuid_text i))
      ∷ d

  publish_lem :
      (publish : Raw → Bool) (change_type : String) (i : Uuid) (hints : List (String × Field))
      (d : Wire)
      → ((raw : Raw) → publish raw ≡ true)
      → wire_hints hints ≡ some d
      → publish_incident_event (some publish) (incident_change change_type i hints)
        ≡ (true, some (texts.dumps (wire_of change_type i d)))
  unfolding publish_incident_event incident_change encode_change
  publish_lem publish change_type i hints d works h =
      rw (h, encode_change, works (texts.dumps (wire_of change_type i d))) refl

  broadcast_wire_lem :
      (change_type : String) (i : Uuid) (d : Wire) (takes : ℕ → Bool) (rows : List Incident)
      (conns : List Connection)
      → broadcast_wire takes (wire_of change_type i d) rows conns
        ≡ broadcast_change texts.parse_uuid takes change_type
            (texts.value_text (JsonValue.text (texts.uuid_text i)))
            rows
            conns
  unfolding broadcast_wire wire_get type_text
  broadcast_wire_lem change_type i d takes rows conns = refl

  broadcast_found :
      (change_type incident_id : String) (i : Uuid) (takes : ℕ → Bool) (rows : List Incident)
      (conns : List Connection) (inc : Incident)
      → texts.parse_uuid incident_id ≡ some i
      → find i rows ≡ some inc
      → broadcast_change texts.parse_uuid takes change_type incident_id rows conns
        ≡ ok (
          some (ws_type_of change_type, build_data change_type inc),
          (broadcast takes conns).0,
          (broadcast takes conns).1,
        )
  unfolding broadcast_change
  broadcast_found change_type incident_id i takes rows conns inc p f =
      rw (p, f, broadcast_change) refl

  handle_lem :
      (change_type : String) (i : Uuid) (d : Wire) (takes : ℕ → Bool) (rows : List Incident)
      (conns : List Connection) (inc : Incident) (raw : Raw)
      → texts.loads raw ≡ some (wire_of change_type i d)
      → texts.parse_uuid (texts.value_text (JsonValue.text (texts.uuid_text i))) ≡ some i
      → find i rows ≡ some inc
      → handle_raw takes rows conns raw ≡ (
        ltb 0 (broadcast takes conns).0,
        some (ws_type_of change_type, build_data change_type inc),
        (broadcast takes conns).1,
      )
  unfolding handle_raw decode_change
  handle_lem change_type i d takes rows conns inc raw e p f =
      rw (e, handle_raw)
        (ap (settled conns) (
          broadcast_wire_lem change_type i d takes rows conns
          ∙ broadcast_found change_type _ i takes rows conns inc p f))

  -- Where `loads` inverts `dumps` and the incident's id is read back from its text: a change that a
  -- writer publishes on a Redis client that works, with hints that `_default` accepts, is sent by
  -- the subscriber as a message of its type with the data of the incident as it stands then, to the
  -- connections that take it, and the subscriber returns whether there was one.
  pub published_change_broadcast :
      ((d : Wire) → texts.loads (texts.dumps d) ≡ some d)
      → (publish : Raw → Bool) (change_type : String) (i : Uuid) (hints : List (String × Field))
        (takes : ℕ → Bool) (rows : List Incident) (conns : List Connection) (inc : Incident)
      → texts.parse_uuid (texts.value_text (JsonValue.text (texts.uuid_text i))) ≡ some i
      → ((raw : Raw) → publish raw ≡ true)
      → AreJson hints
      → find i rows ≡ some inc
      → (raw : Raw) × (publish_incident_event (some publish) (incident_change change_type i hints)
          ≡ (true, some raw))
        × (handle_raw takes rows conns raw ≡ (
          ltb 0 (broadcast takes conns).0,
          some (ws_type_of change_type, build_data change_type inc),
          (broadcast takes conns).1,
        ))
  published_change_broadcast inverse publish change_type i hints takes rows conns inc parsed works
        are_json row =
      let d = are_json.0 in
      (
        texts.dumps (wire_of change_type i d),
        publish_lem publish change_type i hints d works are_json.1,
        handle_lem change_type i d takes rows conns inc _ (inverse (wire_of change_type i d)) parsed
            row,
      )
