-- ===== src/Edge/Sink.antt =====
-- edge/publisher/detection_sink.py and heatmap_sink.py: the two sinks of the edge. Both put a message
-- into a bounded asyncio.Queue and send it from a background task. A message is a channel or key with
-- the dumped payload; `json.dumps` and the encoding into bytes are the parameter `dumps`.
pub mod Order
use factory_monitor.Base.{
  ℕ, String, Bool, true, false, not, ◌&&◌, Option, none, some, List, [], ◌∷◌, ◌++◌, leb, length,
  if◌then◌else◌, ◌==◌,
}
use Prim.Native.String.{◌++◌ as text_append}

-- `queue` is oldest first; `sending` is the message that the task awaits the delivery of;
-- `is_draining` is false when `close` has cancelled the task.
pub record Sink (Message : Type 0) : Type 0 where
  pub maxq : ℕ
  pub queue : List Message
  pub sending : Option Message
  pub is_draining : Bool

module _ {Message : Type 0} where
  abbrev pub new_sink : ℕ → Sink Message
  new_sink maxq = record { maxq = maxq; queue = []; sending = none; is_draining = true }

  -- `asyncio.Queue.full`: a queue with the size 0 is not bounded.
  unfoldable pub is_full : Sink Message → Bool
  is_full s = not (s.maxq == 0) && leb s.maxq (length s.queue)

  -- `put_nowait`, with `QueueFull` caught: the newest message is dropped.
  unfoldable pub put_or_drop : Message → Sink Message → Sink Message
  unfolding is_full
  put_or_drop m s = if is_full s then s else record s { queue = s.queue ++ (m ∷ []) }

  abbrev pub pop : List Message → Sink Message → Sink Message
  pop [] s = s
  pop (m ∷ ms) s = record s { queue = ms; sending = some m }

  abbrev pub take_next : Option Message → Sink Message → Sink Message
  take_next (some m) s = s
  take_next none s = pop s.queue s

  -- `_drain` up to its second `await`: it takes the oldest message, and waits when there is none.
  unfoldable pub drain_get : Sink Message → Sink Message
  drain_get s = if s.is_draining then take_next s.sending s else s

  -- The rest of its loop: the send has returned or raised, and the error is swallowed.
  unfoldable pub drain_send : Bool → Sink Message → Sink Message
  drain_send is_sent s = record s { sending = none }

  -- `close`: the cancelled task drops the message that it awaits, and takes no other.
  unfoldable pub close : Sink Message → Sink Message
  close s = record s { sending = none; is_draining = false }

-- A message of the detection sink is a channel and a text, one of the heatmap sink a key and a value.
abbrev pub SinkMessage : Type 0
SinkMessage = String × String

module _ {Payload : Type 0} (dumps : Payload → String) where
  -- `RedisDetectionSink.publish`
  unfoldable pub publish_detections : String → Payload → Sink SinkMessage → Sink SinkMessage
  unfolding put_or_drop
  publish_detections camera_id payload s =
      put_or_drop (text_append "detections:" camera_id, dumps payload) s

  -- `KafkaHeatmapSink.publish`
  unfoldable pub publish_heatmap : String → Payload → Sink SinkMessage → Sink SinkMessage
  unfolding put_or_drop
  publish_heatmap camera_id payload s = put_or_drop (camera_id, dumps payload) s
