-- ===== src/Live/Fallback.antt =====
-- cloud/common/ws/fallback.py: one poll of the table for the rows after a cursor.
use factory_monitor.Base.{
  ℕ, Bool, ◌&&◌, ◌||◌, List, [], ◌∷◌, length, take, keep, map, leb, ltb, ◌==◌,
}
use factory_monitor.Base.Sorting.{sort_by}
use factory_monitor.Store.Incident.{Uuid, Time, Incident}
use factory_monitor.Live.View.{IncidentView, build_incident_view}

-- The pair (since, since_id).
pub record Cursor : Type 0 where
  pub since : Time
  pub since_id : Uuid

-- The row-value comparison (updated_at, id) > (since, since_id).
unfoldable pub is_after : Cursor → Incident → Bool
is_after c inc = ltb c.since inc.updated_at || (inc.updated_at == c.since && ltb c.since_id inc.id)

-- ORDER BY updated_at ASC, id ASC
unfoldable pub changed_first : Incident → Incident → Bool
changed_first a b = ltb a.updated_at b.updated_at || (a.updated_at == b.updated_at && leb a.id b.id)

unfoldable pub changed_rows : Cursor → ℕ → List Incident → List Incident
unfolding is_after changed_first
changed_rows c batch rows = take batch (sort_by changed_first (keep (is_after c) rows))

abbrev pub cursor_of : Incident → Cursor
cursor_of inc = record { since = inc.updated_at; since_id = inc.id }

-- The cursor after the loop: the last row's, if there is one.
unfoldable pub advance_cursor : Cursor → List Incident → Cursor
advance_cursor c [] = c
advance_cursor c (inc ∷ rest) = advance_cursor (cursor_of inc) rest

-- What is broadcast as incident.updated, and what is returned.
pub record Poll : Type 0 where
  pub broadcasts : List IncidentView
  pub count : ℕ
  pub cursor : Cursor

unfoldable pub poll_changes_once : Cursor → ℕ → List Incident → Poll
unfolding changed_rows advance_cursor build_incident_view
poll_changes_once c batch rows = record {
  broadcasts = map build_incident_view (changed_rows c batch rows);
  count = length (changed_rows c batch rows);
  cursor = advance_cursor c (changed_rows c batch rows);
}
