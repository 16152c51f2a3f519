-- ===== src/System/Delivering.antt =====
-- The relay's transactions keep the database consistent: they write neither an incident nor a key.
use factory_monitor.Base.{
  ℕ, ◌≡◌, refl, Bool, Option, none, some, List, [], ◌∷◌, leb, String, arith, Bool-cases, inl, inr,
}
use factory_monitor.Store.Incident.{Uuid, Time}
use factory_monitor.Store.Rows.{Outbox, IdempotencyKey}
use factory_monitor.Store.Db.{Db, has_key}
use factory_monitor.Notifier.Provider.{ProviderResult, SendStatus}
use factory_monitor.Notifier.Relay.{
  stamp_outbox, find_outbox, update_outbox, claim_outbox, settle_unsent, settle_as, settle_found,
  settle, is_sending,
}
use factory_monitor.System.Tables.{Grows-refl}
use factory_monitor.System.Consistent.{IsConsistent, Keeps, Keeps-refl}

has_key-update_outbox :
    (i : Uuid) (f : Outbox → Outbox) (k : IdempotencyKey)
    → ((x : Outbox) → (f x).idempotency_key ≡ x.idempotency_key)
    → (rows : List Outbox) → has_key k (update_outbox i f rows) ≡ has_key k rows
unfolding has_key update_outbox
has_key-update_outbox i f k keeps [] = refl
has_key-update_outbox i f k keeps (x ∷ rows) =
    ground (arith, keeps x, has_key-update_outbox i f k keeps rows)

has_key-stamp_outbox :
    (worker : String) (until : Time) (ids : List Uuid) (k : IdempotencyKey) (rows : List Outbox)
    → has_key k (stamp_outbox worker until ids rows) ≡ has_key k rows
unfolding has_key stamp_outbox
has_key-stamp_outbox worker until ids k [] = refl
has_key-stamp_outbox worker until ids k (x ∷ rows) =
    ground (arith, has_key-stamp_outbox worker until ids k rows)

-- A change of the outbox that keeps the keys.
keep_keys :
    (db : Db) (rows : List Outbox) (db' : Db)
    → IsConsistent db
    → ((k : IdempotencyKey) → has_key k rows ≡ has_key k db.outbox)
    → db'.incidents ≡ db.incidents
    → db'.idempotency ≡ db.idempotency
    → db'.outbox ≡ rows
    → Keeps db db'
keep_keys db rows db' c same i g o = record {
  grows = rw i (Grows-refl db.incidents);
  consistent = record {
    sound = rw i c.sound;
    guarded = rw (i, g) c.guarded;
    keyed = λ j t h. rw i (c.keyed j t (rw (o, same _) at h));
  };
}

pub claim_outbox-Keeps :
    (worker : String) (lease batch : ℕ) (locked : Uuid → Bool) (at : Time) (db : Db)
    → IsConsistent db
    → Keeps db (claim_outbox worker lease batch locked at db).1
unfolding claim_outbox
claim_outbox-Keeps worker lease batch locked at db c =
    keep_keys db _ _ c (λ k. has_key-stamp_outbox worker _ _ k db.outbox) refl refl refl

settle_unsent-Keeps :
    (base : ℕ) (now : Time) (ob : Outbox) (db : Db)
    → IsConsistent db
    → Keeps db (settle_unsent base now ob db)
unfolding settle_unsent
settle_unsent-Keeps base now ob db c = elim (Bool-cases (leb ob.max_attempts ob.attempts)) [
  | inl e ↦ rw e (
      keep_keys db _ _ c (λ k. has_key-update_outbox ob.id _ k (λ x. refl) db.outbox) refl refl
        refl)
  | inr e ↦ rw e (
      keep_keys db _ _ c (λ k. has_key-update_outbox ob.id _ k (λ x. refl) db.outbox) refl refl
        refl)
]

settle_as-Keeps :
    (s : SendStatus) (base : ℕ) (now at : Time) (new_id : Uuid) (result : ProviderResult)
    (ob : Outbox) (db : Db)
    → IsConsistent db
    → Keeps db (settle_as s base now at new_id result ob db)
unfolding settle_as
settle_as-Keeps SendStatus.sent base now at new_id result ob db c =
    keep_keys db _ _ c (λ k. has_key-update_outbox ob.id _ k (λ x. refl) db.outbox) refl refl refl
settle_as-Keeps _ base now at new_id result ob db c = settle_unsent-Keeps base now ob db c

settle_found-Keeps :
    (base : ℕ) (now at : Time) (new_id : Uuid) (result : ProviderResult) (o : Option Outbox)
    (db : Db)
    → IsConsistent db
    → Keeps db (settle_found base now at new_id result o db)
unfolding settle_found
settle_found-Keeps base now at new_id result none db c = Keeps-refl db c
settle_found-Keeps base now at new_id result (some ob) db c =
    elim (Bool-cases (is_sending ob.status)) [
      | inl e ↦ rw e (settle_as-Keeps result.status base now at new_id result ob db c)
      | inr e ↦ rw e (Keeps-refl db c)
    ]

pub settle-Keeps :
    (base : ℕ) (now at : Time) (new_id : Uuid) (result : ProviderResult) (i : Uuid) (db : Db)
    → IsConsistent db
    → Keeps db (settle base now at new_id result i db)
unfolding settle
settle-Keeps base now at new_id result i db c =
    settle_found-Keeps base now at new_id result (find_outbox i db.outbox) db c
