-- ===== src/Base/Sorting.antt =====
-- `ORDER BY`: a stable insertion sort by a Boolean comparison, and what its first rows are.
use Prim.Native.Nat.{ℕ, zero, suc}
use mathlib.Core.Path.{◌≡◌, refl, subst}
use mathlib.Core.Bool.{Bool, true, false}
use mathlib.Core.Logic.{inl, inr}
use mathlib.Core.List.{List, [], ◌∷◌}
use factory_monitor.Base.Tests.{if◌then◌else◌, Bool-cases, some_eq}
use factory_monitor.Base.Lists.{All, All-map, All-take, take, head?}
use mathlib.Core.Option.{none, some}

module _ {ℓ} {A : Type ℓ} (le : A → A → Bool) where
  unfoldable pub place : A → List A → List A
  place x [] = x ∷ []
  place x (y ∷ ys) = if le x y then x ∷ y ∷ ys else y ∷ place x ys

  unfoldable pub sort_by : List A → List A
  unfolding place
  sort_by [] = []
  sort_by (x ∷ xs) = place x (sort_by xs)

  place-All {κ} : (P : A → Type κ) (x : A) (xs : List A) → P x → All P xs → All P (place x xs)
  unfolding place
  place-All P x [] p h = (p, tt)
  place-All P x (y ∷ ys) p h = elim (Bool-cases (le x y)) [
    | inl e ↦ rw e (p, h)
    | inr e ↦ rw e (h.0, place-All P x ys p h.1)
  ]

  All-place {κ} : (P : A → Type κ) (x : A) (xs : List A) → All P (place x xs) → P x × All P xs
  unfolding place
  All-place P x [] h = (h.0, tt)
  All-place P x (y ∷ ys) h = elim (Bool-cases (le x y)) [
    | inl e ↦ rw e at h
    | inr e ↦
        let h' : P y × All P (place x ys) = rw e at h in
        let ih = All-place P x ys h'.1 in (ih.0, (h'.0, ih.1))
  ]

  pub sort_by-All {κ} : (P : A → Type κ) (xs : List A) → All P xs → All P (sort_by xs)
  unfolding sort_by
  sort_by-All P [] h = tt
  sort_by-All P (x ∷ xs) h = place-All P x (sort_by xs) h.0 (sort_by-All P xs h.1)

  -- What holds of every sorted row holds of every row.
  pub All-sort_by {κ} : (P : A → Type κ) (xs : List A) → All P (sort_by xs) → All P xs
  unfolding sort_by
  All-sort_by P [] h = tt
  All-sort_by P (x ∷ xs) h =
      let both = All-place P x (sort_by xs) h in (both.0, All-sort_by P xs both.1)

  -- Every row stands before the rows behind it.
  abbrev pub IsSorted : List A → Type ℓ
  IsSorted [] = Unit
  IsSorted (x ∷ xs) = All (λ y. le x y ≡ true) xs × IsSorted xs

  pub IsSorted-take : (n : ℕ) (xs : List A) → IsSorted xs → IsSorted (take n xs)
  IsSorted-take zero xs h = tt
  IsSorted-take (suc n) [] h = tt
  IsSorted-take (suc n) (x ∷ xs) h =
      (All-take (λ y. le x y ≡ true) n xs h.0, IsSorted-take n xs h.1)

module _ {ℓ} {A : Type ℓ} (le : A → A → Bool) (total : (a b : A) → le a b ≡ false → le b a ≡ true)
    (trans : (a b c : A) → le a b ≡ true → le b c ≡ true → le a c ≡ true) where
  place-IsSorted : (x : A) (xs : List A) → IsSorted le xs → IsSorted le (place le x xs)
  unfolding place
  place-IsSorted x [] h = (tt, tt)
  place-IsSorted x (y ∷ ys) h = elim (Bool-cases (le x y)) [
    | inl e ↦
        rw e (
          (e, All-map (λ z. le y z ≡ true) (λ z. le x z ≡ true) ys (λ z p. trans x y z e p) h.0),
          h,
        )
    | inr e ↦
        rw e (place-All le (λ z. le y z ≡ true) x ys (total x y e) h.0, place-IsSorted x ys h.1)
  ]

  pub sort_by-IsSorted : (xs : List A) → IsSorted le (sort_by le xs)
  unfolding sort_by
  sort_by-IsSorted [] = tt
  sort_by-IsSorted (x ∷ xs) = place-IsSorted x (sort_by le xs) (sort_by-IsSorted xs)

  refl_of_total : (a : A) → le a a ≡ true
  refl_of_total a = elim (Bool-cases (le a a)) [ inl e ↦ e | inr e ↦ total a a e ]

  -- `ORDER BY … LIMIT 1`: the row that comes first has what every row has, and stands before every
  -- row.
  pub first-sort_by {κ} :
      (P : A → Type κ) (xs : List A) (x : A)
      → All P xs
      → head? (sort_by le xs) ≡ some x
      → P x × All (λ y. le x y ≡ true) xs
  first-sort_by P xs x h e =
      let best = first (sort_by le xs) (sort_by-All le P xs h) (sort_by-IsSorted xs) e in
      (best.0, All-sort_by le (λ y. le x y ≡ true) xs best.1)
    where
      first :
          (ys : List A)
          → All P ys
          → IsSorted le ys
          → head? ys ≡ some x
          → P x × All (λ y. le x y ≡ true) ys
      first [] p s q = cc
      first (y ∷ ys) p s q =
          subst (λ z. P z × All (λ w. le z w ≡ true) (y ∷ ys)) (some_eq q)
            (p.0, (refl_of_total y, s.0))

  place-some : (x : A) (xs : List A) → head? (place le x xs) ≡ none → ⊥
  unfolding place
  place-some x [] h = cc
  place-some x (y ∷ ys) h = elim (Bool-cases (le x y)) [
    | inl e ↦ none_not (rw e at h)
    | inr e ↦ none_not (rw e at h)
  ]
    where
      none_not : {a : A} → some a ≡ none → ⊥
      none_not p = cc

  -- No row comes first only if there is none.
  pub sort_by-none : (xs : List A) → head? (sort_by le xs) ≡ none → xs ≡ []
  unfolding sort_by
  sort_by-none [] h = refl
  sort_by-none (x ∷ xs) h = absurd (place-some x (sort_by le xs) h)
