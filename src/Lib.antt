-- ===== src/Lib.antt =====
-- Factory monitor: the incident pipeline of factory-monitor-ai.
--
-- The edge turns camera frames into anomaly events on Kafka. The ingest worker makes one incident of
-- each event, with an audit row and a first message for the operator in the outbox. The escalation
-- worker claims incidents whose timer has passed and moves them up the tiers, until somebody
-- acknowledges or resolves them by the API or by a reply from a phone. The relay claims the rows of
-- the outbox and sends them by a chain of providers. The workers share nothing but the database. The
-- changes go over Redis, or by polls of the database while Redis is down, to the browsers that watch.
--
-- The files, with paths from factory-monitor-ai/:
--   Base: helpers (Boolean tests, lists, ORDER BY as a sort, errors as values, signed integers and
--     the decimal text of a number).
--   Store: cloud/common/db/models.py. A table is a list of rows, newest first; `Db` holds them all.
--     Store/Incident and Store/Rows are the rows, Store/Db the statements. An insert that breaks a
--     UNIQUE constraint is an error, as SQLAlchemy's IntegrityError.
--   Escalation: cloud/escalation_worker (Transition, Worker), cloud/common/escalation.py and
--     cloud/common/on_call_resolver.py (Config), cloud/common/incident_actions.py (Actions).
--   Ingest: cloud/ingest_worker/service.py (Service) and consumer.py (Consumer), with the event of
--     cloud/common/schemas/anomaly.py (Anomaly).
--   Notifier: cloud/notifications (Provider, Chain) and cloud/notifier_worker/relay.py (Relay).
--   Webhook: cloud/api/twilio_webhook.py.
--   Edge: edge/vision (Debounce: debounce.py; Detector: detector.py and roboflow_detector.py; Zones:
--     zone_config.py; Anomalies, Payloads and Engine: engine.py), the wrappers of the vision libraries
--     (Adapters: roboflow_detector.py and edge/publisher/run_edge.py) and the sinks of edge/publisher (Sink:
--     detection_sink.py and heatmap_sink.py). The engine's `publish` is what hands an anomaly to Kafka,
--     and so to Ingest.
--   Live: what the browsers see. In cloud/common/ws the incident's view (View: contract.py and
--     incident_view.py), the connections (Manager), the messages (Broadcaster), the poll that stands in
--     for Redis (Fallback), the loops that choose between the two (Fanout: fanout.py, with the loops of
--     subscriber.py and fallback.py) and the hubs of the detections and of the heatmap (Hub, HeatmapHub);
--     cloud/common/ws_events.py, ws_publisher.py and the handler of subscriber.py (Publication);
--     cloud/api/ws.py (Socket).
--   Api: cloud/api/routes.py (Window, Routes), with cloud/common/schemas/incident.py.
--   Heatmap: cloud/heatmap_worker/consumer.py, with the JSON values that it reads (Json).
--   Seeds: cloud/common/seed_demo.py and seed_cameras.py.
--   System: the transactions of all of them as the steps of one database, and what they keep; and what
--     the alarms of one track make of the database (Alarms).
--   Examples: a small factory, for the witnesses.
--
-- Conventions. A committed transaction is one function on `Db`; an exception is an error, and leaves
-- the database as it was. Where a transaction reads without a lock before it writes and others may commit
-- between, it has two databases or more: what each read saw, and what it writes to. So an action of an
-- operator or a reply decides on the row that it loaded, and its UPDATE goes to the row of its commit. A
-- list of rows that a claim returns stands for their set, and `order` is the order in which the database
-- gives them; in the same way `order` is the iteration order of a Python set. `locked` is the set of rows that SKIP
-- LOCKED passes over. A UUID is its 128-bit number and a timestamp a number of microseconds, both
-- unbounded; the attempts and tiers stay far below the 32 bits of their columns. The key
-- f"{incident.id}|{tier}" is kept as its two parts. Clocks, new UUIDs, Pydantic's validation,
-- `uuid.UUID`, `uuid5`, `json`, the base64 of an HMAC-SHA1, `str.strip`, `str.upper` and `int`, and the
-- clients of Twilio, Redis and Kafka are parameters, and so are the YOLO model, the tracker and shapely
-- of the edge. Pixel coordinates are integers, doubled where the source halves one; a confidence is the
-- text of a float, which the program only copies and compares, and the arithmetic of the periods of the
-- live view, also floats, is a parameter. Loops run over lists, of frames, polls,
-- messages or turns; only the decimal text of a number has fuel, the number itself, which is enough
-- since each division by 10 makes it smaller.
--
-- Not modelled: metrics, logs and traces; the start and stop of clients; the heatmap query of the API; the
-- reading of RTSP streams by OpenCV; the migrations, whose
-- schema is the one of the models; the tools and the front end.
pub mod Base
pub mod Store
pub mod Escalation
pub mod Ingest
pub mod Notifier
pub mod Webhook
pub mod System
pub mod Seeds
pub mod Heatmap
pub mod Api
pub mod Edge
pub mod Live
pub mod Examples
