-- ===== src/Heatmap.antt =====
-- cloud/heatmap_worker/consumer.py: a heatmap tick from Kafka, stored and sent on to Redis.
-- `json.loads`, `datetime.fromisoformat`, the types of the database's columns and Redis are parameters.
pub mod Json
pub mod Ticks
use factory_monitor.Base.{
  ℕ, ◌+◌, String, Bool, true, false, Option, none, some, List, [], ◌∷◌, ◌++◌, if◌then◌else◌,
}
use factory_monitor.Base.Outcome.{Outcome, Error, ok, err, ◌>>=◌}
use factory_monitor.Store.Incident.{Time}
use factory_monitor.Heatmap.Json.{Value, subscript, iterate}

-- A row as it is added; the database decides at the flush whether its values fit the columns.
pub record DensitySnapshot : Type 0 where
  pub camera_id : Value
  pub zone_id : Value
  pub count : Value
  pub ts : Time

-- `fits` tells whether the values of a row fit the columns: texts or NULL, and a 32-bit integer or
-- NULL. `loads` fails with `JSONDecodeError`.
pub record Parsing (Raw : Type 0) : Type 0 where
  pub loads : Raw → Option Value
  pub fromisoformat : String → Option Time
  pub characters : String → List Value
  pub fits : DensitySnapshot → Bool

module _ {Raw : Type 0} (parsing : Parsing Raw) where
  -- `fromisoformat(ts_raw.replace("Z", "+00:00"))`; what is no text has no `replace`.
  unfoldable pub time_of : Value → Outcome Time
  time_of (Value.text s) = elim (parsing.fromisoformat s) [
    | none ↦ err Error.value_error
    | some t ↦ ok t
  ]
  time_of _ = err Error.attribute_error

  unfoldable pub rows_of : Value → Time → List Value → Outcome (List DensitySnapshot)
  unfolding subscript
  rows_of payload ts [] = ok []
  rows_of payload ts (cell ∷ cells) = do
    camera_id ← subscript "camera_id" payload
    zone_id ← subscript "zone_id" cell
    count ← subscript "count" cell
    rest ← rows_of payload ts cells
    ok (record { camera_id = camera_id; zone_id = zone_id; count = count; ts = ts } ∷ rest)

  abbrev pub loaded : Option Value → Outcome Value
  loaded none = err Error.json_error
  loaded (some payload) = ok payload

  -- The body of the first `try`.
  unfoldable pub parse_tick : Raw → Outcome (List DensitySnapshot)
  unfolding subscript iterate time_of rows_of
  parse_tick raw = do
    payload ← loaded (parsing.loads raw)
    ts_raw ← subscript "ts" payload
    ts ← time_of ts_raw
    listed ← subscript "cells" payload
    cells ← iterate parsing.characters listed
    rows_of payload ts cells

  -- The exceptions of its handler: JSONDecodeError, KeyError and ValueError.
  abbrev pub is_malformed : Error → Bool
  is_malformed Error.json_error = true
  is_malformed Error.key_error = true
  is_malformed Error.value_error = true
  is_malformed _ = false

  -- All rows of a transaction, or none.
  unfoldable pub add_all :
      List DensitySnapshot → List DensitySnapshot → Outcome (List DensitySnapshot)
  add_all [] table = ok table
  add_all (r ∷ rs) table =
      if parsing.fits r then add_all rs (table ++ (r ∷ [])) else err Error.data_error

  pub record HeatmapWorld : Type 0 where
    pub table : List DensitySnapshot
    pub published : List Raw
    pub committed : ℕ

  -- The rest of `handle_heatmap` on what was parsed; `is_sent` is whether Redis takes the tick.
  abbrev pub store_tick :
      Bool → Raw → Outcome (List DensitySnapshot) → HeatmapWorld → Outcome HeatmapWorld
  store_tick is_sent raw (err e) w = if is_malformed e then ok w else err e
  store_tick is_sent raw (ok rows) w = do
    table ← add_all rows w.table
    ok (record w {
      table = table;
      published = if is_sent then w.published ++ (raw ∷ []) else w.published;
    })

  unfoldable pub handle_heatmap : Bool → Raw → HeatmapWorld → Outcome HeatmapWorld
  unfolding parse_tick add_all
  handle_heatmap is_sent raw w = store_tick is_sent raw (parse_tick raw) w

  -- The loop of `HeatmapConsumer.run_forever`: whether it is still going, and what it leaves. An
  -- exception is raised again, before the offset is committed.
  unfoldable pub consume : List (Bool × Raw) → HeatmapWorld → Bool × HeatmapWorld
  unfolding handle_heatmap
  consume [] w = (true, w)
  consume ((is_sent, raw) ∷ later) w = elim (handle_heatmap is_sent raw w) [
    | err e ↦ (false, w)
    | ok next ↦ consume later (record next { committed = next.committed + 1 })
  ]
