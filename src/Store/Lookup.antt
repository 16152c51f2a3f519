-- ===== src/Store/Lookup.antt =====
-- The laws of the statements on the tables, which the components share.
use factory_monitor.Base.{◌≡◌, refl, false, none, some, List, [], ◌∷◌, ◌==◌, arith}
use factory_monitor.Store.Incident.{Uuid, Incident}
use factory_monitor.Store.Db.{find, update}

-- What `find` returns has the id that was asked for.
pub find-id : (i : Uuid) (xs : List Incident) (x : Incident) → find i xs ≡ some x → x.id ≡ i
unfolding find
find-id i [] x h = ground arith
find-id i (y ∷ xs) x h = ground (arith, find-id i xs x)

module _ (i : Uuid) (f : Incident → Incident) (keeps : (x : Incident) → (f x).id ≡ x.id) where
  pub find-update_self :
      (xs : List Incident) (x : Incident) → find i xs ≡ some x → find i (update i f xs) ≡ some (f x)
  unfolding find update
  find-update_self [] x h = ground arith
  find-update_self (y ∷ xs) x h = ground (arith, keeps y, find-update_self xs x)

  pub find-update_ne :
      (j : Uuid) (xs : List Incident) → (i == j) ≡ false → find j (update i f xs) ≡ find j xs
  unfolding find update
  find-update_ne j [] h = refl
  find-update_ne j (y ∷ xs) h = ground (arith, keeps y, find-update_ne j xs)

-- An UPDATE that finds no row changes nothing.
pub update-none :
    (i : Uuid) (f : Incident → Incident) (xs : List Incident)
    → find i xs ≡ none
    → update i f xs ≡ xs
unfolding find update
update-none i f [] h = refl
update-none i f (y ∷ xs) h = ground (arith, update-none i f xs)
