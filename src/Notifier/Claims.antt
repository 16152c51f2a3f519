-- ===== src/Notifier/Claims.antt =====
-- What a claim of the relay takes (`_CLAIM_SQL` of cloud/notifier_worker/relay.py).
use factory_monitor.Base.{
  ℕ, ◌≤◌, ◌+◌, ◌≡◌, refl, String, Bool, true, false, ◌&&◌, not, some, List, [], ◌∷◌, ◌==◌, ==_iff,
  elem, arith, inl, inr, Bool-cases, All, All-map, All-take, keep-All, if◌then◌else◌,
}
use factory_monitor.Base.Sorting.{sort_by-All}
use factory_monitor.Store.Incident.{Uuid, Time, seconds}
use factory_monitor.Store.Rows.{Outbox, OutboxStatus}
use factory_monitor.Store.Db.{Db}
use factory_monitor.Notifier.Relay.{
  is_claimable, attempt_before, due_outbox, stamp_sending, stamp_outbox, outbox_ids, claim_outbox,
}

-- A row that a worker holds until a time.
abbrev IsHeld : Time → Outbox → Type 0
IsHeld until row = (row.status ≡ OutboxStatus.sending) × (row.claimed_until ≡ some until)

stamped-IsHeld :
    (worker : String) (until : Time) (ids : List Uuid) (x : Outbox) (b : Bool)
    → elem x.id ids ≡ b
    → elem (if b then stamp_sending worker until x else x).id ids ≡ true
    → IsHeld until (if b then stamp_sending worker until x else x)
unfolding stamp_sending
stamped-IsHeld worker until ids x true e h = (refl, refl)
stamped-IsHeld worker until ids x false e h = cc

stamp_outbox-IsHeld :
    (worker : String) (until : Time) (ids : List Uuid) (rows : List Outbox)
    → All (λ x. elem x.id ids ≡ true → IsHeld until x) (stamp_outbox worker until ids rows)
unfolding stamp_outbox
stamp_outbox-IsHeld worker until ids [] = tt
stamp_outbox-IsHeld worker until ids (x ∷ rows) = (
  stamped-IsHeld worker until ids x (elem x.id ids) refl,
  stamp_outbox-IsHeld worker until ids rows,
)

held_not_claimable :
    (at until : Time) (x : Outbox) → at ≤ until → IsHeld until x → is_claimable at x ≡ false
unfolding is_claimable
held_not_claimable at until x le h = rw (h.0, h.1) (ground arith)

unlisted :
    (ids : List Uuid) (i : Uuid) (rows : List Outbox)
    → elem i ids ≡ true
    → All (λ (x : Outbox). elem x.id ids ≡ false) rows
    → elem i (outbox_ids rows) ≡ false
unlisted ids i [] h a = refl
unlisted ids i (x ∷ rows) h a = elim (Bool-cases (x.id == i)) [
  | inl e ↦ absurd (clash x.id ((==_iff x.id i).0 e) a.0)
  | inr e ↦ rw e (unlisted ids i rows h a.1)
]
  where
    clash : (j : Uuid) → j ≡ i → elem j ids ≡ false → ⊥
    clash j q r = cc

left_true : (a b : Bool) → (a && b) ≡ true → a ≡ true
left_true a b h = ground arith

-- A message that one worker has claimed is in no claim that another worker then makes before the
-- lease has passed, whatever rows are locked.
pub claim_outbox_exclusive :
    (worker worker₂ : String) (lease lease₂ batch batch₂ : ℕ) (locked locked₂ : Uuid → Bool)
    (at at₂ : Time) (db : Db) (i : Uuid)
    → at₂ ≤ at + seconds lease
    → elem i (claim_outbox worker lease batch locked at db).0 ≡ true
    → elem i
        (claim_outbox worker₂ lease₂ batch₂ locked₂ at₂
          (claim_outbox worker lease batch locked at db).1).0
      ≡ false
unfolding claim_outbox due_outbox
claim_outbox_exclusive worker worker₂ lease lease₂ batch batch₂ locked locked₂ at at₂ db i le h =
    unlisted ids i _ h (
      All-take _ batch₂ _ (
        sort_by-All attempt_before _ _ (
          All-map _ _ _ (λ x p. not_listed x p.0 p.1)
            (keep-All (λ x. elem x.id ids ≡ true → IsHeld (at + seconds lease) x)
              (λ row. is_claimable at₂ row && not (locked₂ row.id)) _
              (stamp_outbox-IsHeld worker (at + seconds lease) ids db.outbox)))))
  where
    ids : List Uuid
    ids = outbox_ids (due_outbox locked at batch db.outbox)

    not_listed :
        (x : Outbox)
        → (elem x.id ids ≡ true → IsHeld (at + seconds lease) x)
        → (is_claimable at₂ x && not (locked₂ x.id)) ≡ true
        → elem x.id ids ≡ false
    not_listed x k d = elim (Bool-cases (elem x.id ids)) [
      | inl e ↦ absurd (
          clash _ (held_not_claimable at₂ (at + seconds lease) x le (k e))
            (left_true (is_claimable at₂ x) (not (locked₂ x.id)) d))
      | inr e ↦ e
    ]
      where
        clash : (b : Bool) → b ≡ false → b ≡ true → ⊥
        clash b p q = cc
