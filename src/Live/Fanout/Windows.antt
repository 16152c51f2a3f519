-- ===== src/Live/Fanout/Windows.antt =====
-- What the polls of a window of the fallback can reach (cloud/common/ws/fallback.py, fanout.py).
use factory_monitor.Base.{
  ℕ, ◌≡◌, refl, ap, true, ◌&&◌, ◌||◌, Option, none, some, List, [], ◌∷◌, ◌++◌, keep, map, ltb, ◌==◌,
  arith, inl, inr, Bool-cases, Option-cases, All, keep-All, All-take, All-map, All-const,
}
use factory_monitor.Base.Sorting.{sort_by-All}
use factory_monitor.Store.Incident.{Time, Incident}
use factory_monitor.Live.View.{WsType, IncidentView, build_incident_view}
use factory_monitor.Live.Manager.{Connection}
use factory_monitor.Live.Broadcaster.{ChangeData}
use factory_monitor.Live.Publication.{Texts}
use factory_monitor.Live.Fallback.{
  Cursor, is_after, changed_first, changed_rows, cursor_of, advance_cursor,
}
use factory_monitor.Live.Fanout.{
  PollTurn, cursor_at, broadcast_views, run_polls, run_fallback, Round, supervise,
}

-- What is after the second cursor is after the first.
abbrev Later : Cursor → Cursor → Type 0
Later c d = (inc : Incident) → is_after d inc ≡ true → is_after c inc ≡ true

row-Later : (c : Cursor) (row : Incident) → is_after c row ≡ true → Later c (cursor_of row)
unfolding is_after
row-Later c row h inc k = numbers c.since c.since_id row.updated_at row.id inc.updated_at inc.id h k
  where
    numbers :
        (s i t j u k : ℕ)
        → (ltb s t || (t == s && ltb i j)) ≡ true
        → (ltb t u || (u == t && ltb j k)) ≡ true
        → (ltb s u || (u == s && ltb i k)) ≡ true
    numbers s i t j u k g h = ground arith

abbrev AreAfter : Cursor → List Incident → Type 0
AreAfter c rows = All (λ inc. is_after c inc ≡ true) rows

advance-Later :
    (c d : Cursor) (rows : List Incident)
    → Later c d
    → AreAfter c rows
    → Later c (advance_cursor d rows)
unfolding advance_cursor
advance-Later c d [] h k = h
advance-Later c d (row ∷ rows) h k = advance-Later c (cursor_of row) rows (row-Later c row k.0) k.1

abbrev recent_rows : Cursor → Option (List Incident) → Option (List Incident)
recent_rows start none = none
recent_rows start (some rows) = some (keep (is_after start) rows)

-- The same poll on a table without the rows that stand at the cursor or before it.
abbrev pub recent : Cursor → PollTurn → PollTurn
recent start p = record p { rows = recent_rows start p.rows }

keep-keep :
    (start c : Cursor) (rows : List Incident)
    → Later start c
    → keep (is_after c) (keep (is_after start) rows) ≡ keep (is_after c) rows
keep-keep start c [] h = refl
keep-keep start c (row ∷ rows) h = elim (Bool-cases (is_after c row)) [
  | inl e ↦ rw (h row e, e) (ap (λ rs. row ∷ rs) (keep-keep start c rows h))
  | inr e ↦ elim (Bool-cases (is_after start row)) [
    | inl f ↦ rw (f, e) (keep-keep start c rows h)
    | inr f ↦ rw (f, e) (keep-keep start c rows h)
  ]
]

changed-AreAfter :
    (start c : Cursor) (batch : ℕ) (rows : List Incident)
    → Later start c
    → AreAfter start (changed_rows c batch rows)
unfolding changed_rows
changed-AreAfter start c batch rows h =
    All-take (λ inc. is_after start inc ≡ true) batch _
      (sort_by-All changed_first (λ inc. is_after start inc ≡ true) _
        (All-map _ _ _ (λ inc k. h inc k.1)
          (keep-All (λ inc. Unit) (is_after c) rows (All-const (λ inc. Unit) rows (λ inc. tt)))))

changed-recent :
    (start c : Cursor) (batch : ℕ) (rows : List Incident)
    → Later start c
    → changed_rows c batch (keep (is_after start) rows) ≡ changed_rows c batch rows
unfolding changed_rows
changed-recent start c batch rows h = rw (keep-keep start c rows h) refl

polls-recent :
    (start : Cursor) (batch : ℕ) (ps : List PollTurn) (c : Cursor) (conns : List Connection)
    → Later start c
    → run_polls batch (map (recent start) ps) c conns ≡ run_polls batch ps c conns
unfolding run_polls
polls-recent start batch [] c conns h = refl
polls-recent start batch (p ∷ ps) c conns h = elim (Option-cases p.rows) [
  | inl e ↦ rw (e, run_polls) (polls-recent start batch ps c conns h)
  | inr (rows, e) ↦
      rw (e, run_polls)
        (rw (changed-recent start c batch rows h) (
          rw
            (polls-recent start batch ps (advance_cursor c (changed_rows c batch rows))
              (broadcast_views p.takes (map build_incident_view (changed_rows c batch rows)) conns)
              (advance-Later start c (changed_rows c batch rows) h
                (changed-AreAfter start c batch rows h)))
            refl))
]

-- A window of the fallback broadcasts only changes that are newer than its start: from such a
-- window on the supervisor sends the same, and leaves the same connections, when every row whose
-- last change is not after the start of the window (paired with the largest UUID) is taken out of
-- the rows that the polls of the window read.
pub older_changes_not_sent :
    {Raw : Type 0} (texts : Texts Raw) (batch : ℕ) (now : Time) (ps : List PollTurn)
    (rounds : List (Round Raw)) (conns : List Connection)
    → supervise texts batch (Round.unhealthy now (map (recent (cursor_at now)) ps) ∷ rounds) conns
      ≡ supervise texts batch (Round.unhealthy now ps ∷ rounds) conns
unfolding supervise run_fallback
older_changes_not_sent texts batch now ps rounds conns =
    ap
      (λ (fallen : List IncidentView × List Connection). (
        map (λ v. (WsType.incident_updated, ChangeData.whole v)) fallen.0
            ++ (supervise texts batch rounds fallen.1).0,
        (supervise texts batch rounds fallen.1).1,
      ))
      (polls-recent (cursor_at now) batch ps (cursor_at now) conns (λ inc h. h))
