-- ===== src/Escalation/Claims.antt =====
-- What a claim of the escalation worker takes (`_CLAIM_SQL` of cloud/escalation_worker/worker.py).
use factory_monitor.Base.{
  ℕ, ◌≤◌, ◌+◌, ◌≡◌, refl, String, Bool, true, false, ◌&&◌, not, Option, none, some, List, [], ◌∷◌,
  ◌==◌, ==_iff, elem, length, leb, arith, inl, inr, Bool-cases, All, All-map, All-take, All-const,
  keep, keep-All, length-take-le, Among, take, zero, suc, ap, ◌⊎◌, All-both, if◌then◌else◌,
}
use factory_monitor.Base.Sorting.{sort_by-All, All-sort_by, sort_by-IsSorted, IsSorted}
use factory_monitor.Store.Incident.{Uuid, Time, seconds, Incident, is_null}
use factory_monitor.Store.Db.{Db}
use factory_monitor.Escalation.Worker.{
  is_due, fires_before, due_rows, stamp, stamp_all, ids_of, claim,
}

-- Oldest timer first: the comparison is total and transitive.
fires_before_total : (a b : Incident) → fires_before a b ≡ false → fires_before b a ≡ true
fires_before_total a b h = elim_total a.next_fire_at b.next_fire_at h
  where
    elim_total :
        (o p : Option Time)
        → (elim o [ none ↦ is_null p | some t ↦ elim p [ none ↦ true | some u ↦ leb t u ] ]) ≡ false
        → (elim p [ none ↦ is_null o | some t ↦ elim o [ none ↦ true | some u ↦ leb t u ] ]) ≡ true
    elim_total none none h = cc
    elim_total none (some u) h = refl
    elim_total (some t) none h = cc
    elim_total (some t) (some u) h = ground arith

fires_before_trans :
    (a b c : Incident) → fires_before a b ≡ true → fires_before b c ≡ true → fires_before a c ≡ true
fires_before_trans a b c h k = elim_trans a.next_fire_at b.next_fire_at c.next_fire_at h k
  where
    elim_trans :
        (o p q : Option Time)
        → (elim o [ none ↦ is_null p | some t ↦ elim p [ none ↦ true | some u ↦ leb t u ] ]) ≡ true
        → (elim p [ none ↦ is_null q | some t ↦ elim q [ none ↦ true | some u ↦ leb t u ] ]) ≡ true
        → (elim o [ none ↦ is_null q | some t ↦ elim q [ none ↦ true | some u ↦ leb t u ] ]) ≡ true
    elim_trans none none q h k = k
    elim_trans none (some u) q h k = cc
    elim_trans (some t) none none h k = refl
    elim_trans (some t) none (some v) h k = cc
    elim_trans (some t) (some u) none h k = refl
    elim_trans (some t) (some u) (some v) h k = ground arith

both : (a b : Bool) → (a && b) ≡ true → (a ≡ true) × (b ≡ true)
both a b h = ground arith

-- A prefix of a sorted list leaves out only what is behind it, and only where it is full.
abbrev pub IsTakenOr : ℕ → List Incident → Incident → Type 0
IsTakenOr batch taken x =
    Among x taken ⊎ ((length taken ≡ batch) × All (λ y. fires_before y x ≡ true) taken)

take-IsTakenOr :
    (batch : ℕ) (s : List Incident)
    → IsSorted fires_before s
    → All (IsTakenOr batch (take batch s)) s
take-IsTakenOr zero s h = All-const _ s (λ x. inr (refl, tt))
take-IsTakenOr (suc batch) [] h = tt
take-IsTakenOr (suc batch) (x ∷ s) h = (
  inl (inl refl),
  All-map _ _ s (λ y p. add y p.0 p.1) (All-both _ _ s h.0 (take-IsTakenOr batch s h.1)),
)
  where
    add :
        (y : Incident)
        → fires_before x y ≡ true
        → IsTakenOr batch (take batch s) y
        → IsTakenOr (suc batch) (x ∷ take batch s) y
    add y before (inl taken) = inl (inr taken)
    add y before (inr (full, behind)) = inr (ap suc full, (before, behind))

-- A claim takes at most a batch of rows, each of them due and not locked by another transaction; and
-- every other row that is due and not locked is left out only because the batch is full, and fires no
-- earlier than any row of it.
pub due_rows_lem :
    (locked : Uuid → Bool) (at : Time) (batch : ℕ) (rows : List Incident)
    → (length (due_rows locked at batch rows) ≤ batch)
      × All (λ x. (is_due at x ≡ true) × (locked x.id ≡ false)) (due_rows locked at batch rows)
      × All
          (IsTakenOr batch (due_rows locked at batch rows))
          (keep (λ inc. is_due at inc && not (locked inc.id)) rows)
unfolding due_rows
due_rows_lem locked at batch rows = (
  length-take-le batch _,
  All-take _ batch _ (
      sort_by-All fires_before _ _ (
        All-map _ _ _ (λ x h. passes x h.1)
          (keep-All (λ x. Unit) (λ inc. is_due at inc && not (locked inc.id)) rows
            (All-const (λ x. Unit) rows (λ x. tt))))),
  All-sort_by fires_before _ _ (
      take-IsTakenOr batch _
        (sort_by-IsSorted fires_before fires_before_total fires_before_trans _)),
)
  where
    passes :
        (x : Incident)
        → (is_due at x && not (locked x.id)) ≡ true
        → (is_due at x ≡ true) × (locked x.id ≡ false)
    passes x h = let p = both (is_due at x) (not (locked x.id)) h in (p.0, flip (locked x.id) p.1)
      where
        flip : (b : Bool) → not b ≡ true → b ≡ false
        flip true h = cc
        flip false h = refl

stamped_until :
    (worker : String) (until : Time) (ids : List Uuid) (x : Incident) (b : Bool)
    → elem x.id ids ≡ b
    → elem (if b then stamp worker until x else x).id ids ≡ true
    → (if b then stamp worker until x else x).claimed_until ≡ some until
unfolding stamp
stamped_until worker until ids x true e h = refl
stamped_until worker until ids x false e h = cc

stamp_all-stamped :
    (worker : String) (until : Time) (ids : List Uuid) (rows : List Incident)
    → All
        (λ x. elem x.id ids ≡ true → x.claimed_until ≡ some until)
        (stamp_all worker until ids rows)
unfolding stamp_all
stamp_all-stamped worker until ids [] = tt
stamp_all-stamped worker until ids (x ∷ rows) =
    (stamped_until worker until ids x (elem x.id ids) refl, stamp_all-stamped worker until ids rows)

leased_not_due :
    (at until : Time) (x : Incident)
    → at ≤ until
    → x.claimed_until ≡ some until
    → is_due at x ≡ false
unfolding is_due
leased_not_due at until x le h = rw h (ground arith)

unlisted :
    (ids : List Uuid) (i : Uuid) (rows : List Incident)
    → elem i ids ≡ true
    → All (λ (x : Incident). elem x.id ids ≡ false) rows
    → elem i (ids_of rows) ≡ false
unlisted ids i [] h a = refl
unlisted ids i (x ∷ rows) h a = elim (Bool-cases (x.id == i)) [
  | inl e ↦ absurd (clash x.id ((==_iff x.id i).0 e) a.0)
  | inr e ↦ rw e (unlisted ids i rows h a.1)
]
  where
    clash : (j : Uuid) → j ≡ i → elem j ids ≡ false → ⊥
    clash j q r = cc

-- An incident that one worker has claimed is in no claim that another worker then makes before the
-- lease has passed, whatever rows are locked.
pub claim_exclusive :
    (worker worker₂ : String) (lease lease₂ batch batch₂ : ℕ) (locked locked₂ : Uuid → Bool)
    (at at₂ : Time) (db : Db) (i : Uuid)
    → at₂ ≤ at + seconds lease
    → elem i (claim worker lease batch locked at db).0 ≡ true
    → elem i (claim worker₂ lease₂ batch₂ locked₂ at₂ (claim worker lease batch locked at db).1).0
      ≡ false
unfolding claim due_rows
claim_exclusive worker worker₂ lease lease₂ batch batch₂ locked locked₂ at at₂ db i le h =
    unlisted ids i _ h (
      All-take _ batch₂ _ (
        sort_by-All fires_before _ _ (
          All-map _ _ _ (λ x p. not_listed x p.0 p.1)
            (keep-All (λ x. elem x.id ids ≡ true → x.claimed_until ≡ some (at + seconds lease))
              (λ inc. is_due at₂ inc && not (locked₂ inc.id)) _
              (stamp_all-stamped worker (at + seconds lease) ids db.incidents)))))
  where
    ids : List Uuid
    ids = ids_of (due_rows locked at batch db.incidents)

    not_listed :
        (x : Incident)
        → (elem x.id ids ≡ true → x.claimed_until ≡ some (at + seconds lease))
        → (is_due at₂ x && not (locked₂ x.id)) ≡ true
        → elem x.id ids ≡ false
    not_listed x k d = elim (Bool-cases (elem x.id ids)) [
      | inl e ↦ absurd (
          clash _ (leased_not_due at₂ (at + seconds lease) x le (k e))
            (both (is_due at₂ x) (not (locked₂ x.id)) d).0)
      | inr e ↦ e
    ]
      where
        clash : (b : Bool) → b ≡ false → b ≡ true → ⊥
        clash b p q = cc
