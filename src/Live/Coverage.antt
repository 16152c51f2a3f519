-- ===== src/Live/Coverage.antt =====
-- A poll of the fallback skips no change (cloud/common/ws/fallback.py).
use factory_monitor.Base.{
  ℕ, zero, suc, ◌≡◌, refl, Bool, true, false, ◌&&◌, ◌||◌, List, [], ◌∷◌, any, take, keep, map, leb,
  ltb, ◌==◌, ==_refl, arith, All, All-map, All-const, keep-All,
}
use factory_monitor.Base.Sorting.{sort_by, sort_by-All, All-sort_by, sort_by-IsSorted, IsSorted}
use factory_monitor.Store.Incident.{Incident}
use factory_monitor.Live.View.{IncidentView, build_incident_view}
use factory_monitor.Live.Fallback.{
  Cursor, is_after, changed_first, changed_rows, cursor_of, advance_cursor, poll_changes_once,
}

changed_first_total : (a b : Incident) → changed_first a b ≡ false → changed_first b a ≡ true
unfolding changed_first
changed_first_total a b h = numbers a.updated_at b.updated_at a.id b.id h
  where
    numbers :
        (s t i j : ℕ)
        → (ltb s t || (s == t && leb i j)) ≡ false
        → (ltb t s || (t == s && leb j i)) ≡ true
    numbers s t i j h = ground arith

changed_first_trans :
    (a b c : Incident)
    → changed_first a b ≡ true
    → changed_first b c ≡ true
    → changed_first a c ≡ true
unfolding changed_first
changed_first_trans a b c h k = numbers a.updated_at b.updated_at c.updated_at a.id b.id c.id h k
  where
    numbers :
        (s t u i j l : ℕ)
        → (ltb s t || (s == t && leb i j)) ≡ true
        → (ltb t u || (t == u && leb j l)) ≡ true
        → (ltb s u || (s == u && leb i l)) ≡ true
    numbers s t u i j l h k = ground arith

-- The view is of this version of the row.
abbrev pub is_view_of : Incident → IncidentView → Bool
is_view_of inc view = view.incident_id == inc.id

abbrev same_row : Incident → Incident → Bool
same_row x y = y.id == x.id

-- What comes behind a row in the order is after its cursor or is that row.
behind :
    (x y : Incident) → changed_first x y ≡ true → (same_row y x || is_after (cursor_of x) y) ≡ true
unfolding changed_first is_after
behind x y h = numbers x.updated_at y.updated_at x.id y.id h
  where
    numbers :
        (s t i j : ℕ)
        → (ltb s t || (s == t && leb i j)) ≡ true
        → (i == j || (ltb s t || (t == s && ltb i j))) ≡ true
    numbers s t i j h = ground arith

-- A row of the page, or one that the next cursor has not passed.
abbrev Covered : List Incident → Cursor → Incident → Type 0
Covered page c y = (any (same_row y) page || is_after c y) ≡ true

weaken : (a b c : Bool) → (b || c) ≡ true → ((a || b) || c) ≡ true
weaken a b c h = ground arith

alone : (a c : Bool) → (a || c) ≡ true → ((a || false) || c) ≡ true
alone a c h = ground arith

head_covered : (x : Incident) (b c : Bool) → ((x.id == x.id || b) || c) ≡ true
head_covered x b c = rw (==_refl x.id) refl

-- A page of a sorted list that begins with a row.
page_covers :
    (n : ℕ) (x : Incident) (rows : List Incident)
    → IsSorted changed_first (x ∷ rows)
    → All (Covered (x ∷ take n rows) (advance_cursor (cursor_of x) (take n rows))) (x ∷ rows)
unfolding advance_cursor
page_covers zero x rows s = (
  head_covered x _ _,
  All-map (λ y. changed_first x y ≡ true) _ rows
      (λ y h. alone (x.id == y.id) (is_after (cursor_of x) y) (behind x y h)) s.0,
)
page_covers (suc n) x [] s = (head_covered x _ _, tt)
page_covers (suc n) x (z ∷ zs) s = (
  head_covered x _ _,
  All-map (Covered (z ∷ take n zs) (advance_cursor (cursor_of z) (take n zs))) _ (z ∷ zs)
      (λ y h. weaken (x.id == y.id) (any (same_row y) (z ∷ take n zs)) _ h)
      (page_covers n z zs s.1),
)

page_of :
    (c : Cursor) (batch : ℕ) (rows : List Incident)
    → IsSorted changed_first rows
    → All (λ y. is_after c y ≡ true) rows
    → All (Covered (take batch rows) (advance_cursor c (take batch rows))) rows
unfolding advance_cursor
page_of c zero rows s h = h
page_of c (suc n) [] s h = tt
page_of c (suc n) (x ∷ rows) s h = page_covers n x rows s

any_view :
    (y : Incident) (page : List Incident)
    → any (is_view_of y) (map build_incident_view page) ≡ any (same_row y) page
unfolding build_incident_view
any_view y [] = refl
any_view y (x ∷ page) = rw (any_view y page) refl

-- Every row that stands after the cursor of a poll is broadcast by it, or stands after the cursor
-- that the poll returns, also where rows have the same time and where there are more of them than
-- a batch.
pub no_change_skipped :
    (c : Cursor) (batch : ℕ) (rows : List Incident)
    → All
        (λ inc.
          (any (is_view_of inc) (poll_changes_once c batch rows).broadcasts
            || is_after (poll_changes_once c batch rows).cursor inc)
          ≡ true)
        (keep (is_after c) rows)
unfolding poll_changes_once changed_rows
no_change_skipped c batch rows = All-sort_by changed_first _ _ (
    All-map _ _ _
      (λ inc h. rw (any_view inc (take batch (sort_by changed_first (keep (is_after c) rows)))) h)
      (page_of c batch _
        (sort_by-IsSorted changed_first changed_first_total changed_first_trans
          (keep (is_after c) rows))
        (sort_by-All changed_first (λ y. is_after c y ≡ true) _
          (All-map _ _ _ (λ y p. p.1)
            (keep-All (λ y. Unit) (is_after c) rows (All-const (λ y. Unit) rows (λ y. tt)))))))
