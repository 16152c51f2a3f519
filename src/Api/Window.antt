-- ===== src/Api/Window.antt =====
-- cloud/api/routes.py: the window of the heatmap query, `_parse_window`. `int` and `strip` are Python's
-- and are parameters; a window is a number of seconds.
use factory_monitor.Base.{
  ℕ, suc, ◌+◌, ◌-◌, ◌*◌, ◌/◌, ◌≤◌, min, ◌≡◌, refl, ◌⊎◌, inl, inr, String, Bool, true, false, Option,
  none, some, ℤ, pos, negsuc, str_eq, ltb, arith, Bool-cases, if◌then◌else◌, ◌==◌,
}
use Prim.Native.String.{len, slice}
use native.Mathlib.Nat.{mul-pos}
use factory_monitor.Base.Outcome.{Outcome, Error, ok, err, ◌>>=◌}

abbrev pub window_max : ℕ
window_max = 6 * 3600

abbrev pub window_default : ℕ
window_default = 15 * 60

abbrev pub ends_with : String → String → Bool
ends_with s last = str_eq (slice s (len s - 1) (len s)) last

abbrev pub without_last : String → String
without_last s = slice s 0 (len s - 1)

-- `timedelta` of `n` units: `OverflowError` where it has more than 999999999 days, either way. A
-- positive result is some number of seconds, and none is a result that is not positive.
unfoldable pub timedelta : ℕ → ℤ → Outcome (Option ℕ)
timedelta unit (pos n) =
    if ltb 999999999 (n * unit / 86400)
    then err Error.overflow_error
    else ok (if n == 0 then none else some (n * unit))
timedelta unit (negsuc n) =
    if ltb 999999999 ((suc n * unit + 86399) / 86400) then err Error.overflow_error else ok none

-- A window that is not positive raises `ValueError`, which becomes the status 422.
abbrev pub capped : Option ℕ → Outcome ℕ
capped none = err Error.unprocessable
capped (some td) = ok (min td window_max)

unfoldable pub window_of : ℕ → Option ℤ → Outcome ℕ
unfolding timedelta
window_of unit none = err Error.unprocessable
window_of unit (some n) = timedelta unit n >>= capped

module _ (strip : String → String) (int : String → Option ℤ) where
  unfoldable pub parse_window : String → Outcome ℕ
  unfolding window_of
  parse_window raw =
      let s = strip raw in
      if str_eq s ""
      then ok window_default
      else if ends_with s "m"
      then window_of 60 (int (without_last s))
      else if ends_with s "h"
      then window_of 3600 (int (without_last s))
      else err Error.unprocessable

-- A window between one second and six hours, the status 422, or the `OverflowError`.
abbrev pub IsWindow : Outcome ℕ → Type 0
IsWindow (ok w) = (1 ≤ w) × (w ≤ window_max)
IsWindow (err e) = (e ≡ Error.unprocessable) ⊎ (e ≡ Error.overflow_error)

abbrev IsDelta : Outcome (Option ℕ) → Type 0
IsDelta (ok none) = Unit
IsDelta (ok (some td)) = 1 ≤ td
IsDelta (err e) = e ≡ Error.overflow_error

some_units :
    (unit n : ℕ) (b : Bool)
    → 1 ≤ unit
    → (n == 0) ≡ b
    → IsDelta (ok (if b then none else some (n * unit)))
some_units unit n true h e = tt
some_units unit n false h e = positive n unit (ground arith) h
  where
    positive : (a b : ℕ) → 1 ≤ a → 1 ≤ b → 1 ≤ a * b
    positive a b p q = mul-pos p q

timedelta-IsDelta : (unit : ℕ) (n : ℤ) → 1 ≤ unit → IsDelta (timedelta unit n)
unfolding timedelta
timedelta-IsDelta unit (pos n) h = elim (Bool-cases (ltb 999999999 (n * unit / 86400))) [
  | inl e ↦ rw (e, IsDelta) refl
  | inr e ↦ rw (e, IsDelta) (some_units unit n (n == 0) h refl)
]
timedelta-IsDelta unit (negsuc n) h =
    elim (Bool-cases (ltb 999999999 ((suc n * unit + 86399) / 86400))) [
      | inl e ↦ rw (e, IsDelta) refl
      | inr e ↦ rw (e, IsDelta) tt
    ]

capped-IsWindow : (o : Outcome (Option ℕ)) → IsDelta o → IsWindow (o >>= capped)
capped-IsWindow (ok none) h = inl refl
capped-IsWindow (ok (some td)) h = (omega (arith, h), omega arith)
capped-IsWindow (err e) h = inr h

window_of-IsWindow : (unit : ℕ) (n : Option ℤ) → 1 ≤ unit → IsWindow (window_of unit n)
unfolding window_of
window_of-IsWindow unit none h = inl refl
window_of-IsWindow unit (some n) h = capped-IsWindow (timedelta unit n) (timedelta-IsDelta unit n h)

-- Whatever text the query has, and whatever `strip` and `int` make of it: the window is between one
-- second and six hours, or the request is refused with the status 422, or an `OverflowError` leaves
-- the parser.
pub parse_window-IsWindow :
    (strip : String → String) (int : String → Option ℤ) (raw : String)
    → IsWindow (parse_window strip int raw)
unfolding parse_window
parse_window-IsWindow strip int raw = elim (Bool-cases (str_eq (strip raw) "")) [
  | inl e ↦ rw (e, IsWindow) (omega arith, omega arith)
  | inr e ↦ elim (Bool-cases (ends_with (strip raw) "m")) [
    | inl m ↦ rw (e, m) (window_of-IsWindow 60 (int (without_last (strip raw))) (omega arith))
    | inr m ↦ elim (Bool-cases (ends_with (strip raw) "h")) [
      | inl k ↦
          rw (e, m, k) (window_of-IsWindow 3600 (int (without_last (strip raw))) (omega arith))
      | inr k ↦ rw (e, m, k, IsWindow) (inl refl)
    ]
  ]
]
