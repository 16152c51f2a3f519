-- ===== src/Heatmap/Ticks.antt =====
-- What a heatmap tick comes to (cloud/heatmap_worker/consumer.py).
use factory_monitor.Base.{
  ◌≡◌, refl, sym, ap, ◌∙◌, ◌⊎◌, inl, inr, Bool, false, some, List, [], ◌∷◌, ◌++◌, Bool-cases,
  if◌then◌else◌,
}
use mathlib.Core.List.{append-nil, append_assoc}
use factory_monitor.Base.Outcome.{Outcome, Error, ok, err}
use factory_monitor.Heatmap.Json.{Value, Items, subscript}
use factory_monitor.Heatmap.{
  DensitySnapshot, Parsing, parse_tick, is_malformed, add_all, HeatmapWorld, store_tick,
  handle_heatmap, consume,
}

module _ {Raw : Type 0} (parsing : Parsing Raw) where
  -- The rows of a tick stand behind the others, and the tick has been sent if Redis takes it.
  abbrev pub with_tick :
      Bool → Raw → List DensitySnapshot → HeatmapWorld parsing → HeatmapWorld parsing
  with_tick is_sent raw rows w = record w {
    table = w.table ++ rows;
    published = if is_sent then w.published ++ (raw ∷ []) else w.published;
  }

  add_all-cases :
      (rows table : List DensitySnapshot)
      → (add_all parsing rows table ≡ ok (table ++ rows))
        ⊎ (add_all parsing rows table ≡ err Error.data_error)
  unfolding add_all
  add_all-cases [] table = inl (ap ok (sym (append-nil table)))
  add_all-cases (r ∷ rs) table = elim (Bool-cases (parsing.fits r)) [
    | inl e ↦ rw (e, add_all) (moved (add_all-cases rs (table ++ (r ∷ []))))
    | inr e ↦ rw (e, add_all) (inr refl)
  ]
    where
      moved :
          (add_all parsing rs (table ++ (r ∷ [])) ≡ ok ((table ++ (r ∷ [])) ++ rs))
            ⊎ (add_all parsing rs (table ++ (r ∷ [])) ≡ err Error.data_error)
          → (add_all parsing rs (table ++ (r ∷ [])) ≡ ok (table ++ (r ∷ rs)))
            ⊎ (add_all parsing rs (table ++ (r ∷ [])) ≡ err Error.data_error)
      moved (inl h) = inl (h ∙ ap ok (append_assoc table (r ∷ []) rs))
      moved (inr h) = inr h

  abbrev Comes : Bool → Raw → HeatmapWorld parsing → Outcome (List DensitySnapshot) → Type 0
  Comes is_sent raw w parsed =
      (store_tick parsing is_sent raw parsed w ≡ ok w)
      ⊎ ((rows : List DensitySnapshot) × (parsed ≡ ok rows)
          × (store_tick parsing is_sent raw parsed w ≡ ok (with_tick is_sent raw rows w)))
      ⊎ ((e : Error) × (is_malformed parsing e ≡ false)
          × (store_tick parsing is_sent raw parsed w ≡ err e))

  store_tick-Comes :
      (is_sent : Bool) (raw : Raw) (w : HeatmapWorld parsing)
      (parsed : Outcome (List DensitySnapshot))
      → Comes is_sent raw w parsed
  store_tick-Comes is_sent raw w (err e) = elim (Bool-cases (is_malformed parsing e)) [
    | inl m ↦ inl (rw m refl)
    | inr m ↦ inr (inr (e, m, rw m refl))
  ]
  store_tick-Comes is_sent raw w (ok rows) = elim (add_all-cases rows w.table) [
    | inl h ↦ inr (inl (rows, refl, rw h refl))
    | inr h ↦ inr (inr (Error.data_error, refl, rw h refl))
  ]

  -- A tick is skipped without a trace, or all its rows are stored and it is sent on, or an exception
  -- that is no sign of a malformed payload leaves the handler.
  pub tick_is_whole :
      (is_sent : Bool) (raw : Raw) (w : HeatmapWorld parsing)
      → (handle_heatmap parsing is_sent raw w ≡ ok w)
        ⊎ ((rows : List DensitySnapshot) × (parse_tick parsing raw ≡ ok rows)
            × (handle_heatmap parsing is_sent raw w ≡ ok (with_tick is_sent raw rows w)))
        ⊎ ((e : Error) × (is_malformed parsing e ≡ false)
            × (handle_heatmap parsing is_sent raw w ≡ err e))
  unfolding handle_heatmap
  tick_is_whole is_sent raw w = store_tick-Comes is_sent raw w (parse_tick parsing raw)

  -- A payload that is a JSON array ends the loop at once, and its offset is not committed.
  pub array_ends_loop :
      (is_sent : Bool) (raw : Raw) (vs : Items) (later : List (Bool × Raw))
      (w : HeatmapWorld parsing)
      → parsing.loads raw ≡ some (Value.array vs)
      → consume parsing ((is_sent, raw) ∷ later) w ≡ (false, w)
  unfolding consume handle_heatmap parse_tick subscript
  array_ends_loop is_sent raw vs later w h = rw (array_parsed, consume, handle_heatmap) refl
    where
      array_parsed : parse_tick parsing raw ≡ err Error.type_error
      array_parsed = rw (h, parse_tick) refl
