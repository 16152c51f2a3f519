-- ===== src/Notifier/Retries.antt =====
-- How often a message that always fails is sent (`_settle_row` and `_backoff` of
-- cloud/notifier_worker/relay.py).
use factory_monitor.Base.{
  ℕ, suc, ◌+◌, ◌≤◌, ◌<◌, ◌≡◌, refl, sym, ap, subst, ◌∙◌, String, true, false, some, List, [], ◌∷◌,
  elem, length, leb, arith, inl, inr, Bool-cases, All, if◌then◌else◌,
}
use factory_monitor.Store.Incident.{Uuid, Time}
use factory_monitor.Store.Rows.{Outbox, OutboxStatus}
use factory_monitor.Store.Db.{Db}
use factory_monitor.Notifier.Provider.{SendStatus, ProviderResult}
use factory_monitor.Notifier.Chain.{is_sent}
use factory_monitor.Notifier.Relay.{
  stamp_sending, stamp_outbox, find_outbox, update_outbox, mark_dead, mark_retry, settle_unsent,
  settle_as, settle_found, settle,
}

find_outbox-id : (i : Uuid) (xs : List Outbox) (x : Outbox) → find_outbox i xs ≡ some x → x.id ≡ i
unfolding find_outbox
find_outbox-id i [] x h = ground arith
find_outbox-id i (y ∷ xs) x h = ground (arith, find_outbox-id i xs x)

find_outbox-update :
    (i : Uuid) (f : Outbox → Outbox)
    → ((x : Outbox) → (f x).id ≡ x.id)
    → (xs : List Outbox) (x : Outbox) → find_outbox i xs ≡ some x
    → find_outbox i (update_outbox i f xs) ≡ some (f x)
unfolding find_outbox update_outbox
find_outbox-update i f keeps [] x h = ground arith
find_outbox-update i f keeps (y ∷ xs) x h =
    ground (arith, keeps y, find_outbox-update i f keeps xs x)

find_outbox-stamp :
    (worker : String) (until : Time) (ids : List Uuid) (i : Uuid)
    → elem i ids ≡ true
    → (xs : List Outbox) (x : Outbox) → find_outbox i xs ≡ some x
    → find_outbox i (stamp_outbox worker until ids xs) ≡ some (stamp_sending worker until x)
unfolding find_outbox stamp_outbox stamp_sending
find_outbox-stamp worker until ids i e [] x h = ground arith
find_outbox-stamp worker until ids i e (y ∷ xs) x h =
    ground (arith, find_outbox-stamp worker until ids i e xs x)

-- One claim of the message and the settlement of its send.
pub record Delivery : Type 0 where
  pub worker : String
  pub until : Time
  pub ids : List Uuid
  pub base : ℕ
  pub now : Time
  pub at : Time
  pub new_id : Uuid
  pub result : ProviderResult

abbrev pub with_claim : Delivery → Db → Db
with_claim d db = record db { outbox = stamp_outbox d.worker d.until d.ids db.outbox }

abbrev pub deliver : Uuid → Delivery → Db → Db
deliver i d db = settle d.base d.now d.at d.new_id d.result i (with_claim d db)

abbrev pub deliver_all : Uuid → List Delivery → Db → Db
deliver_all i [] db = db
deliver_all i (d ∷ ds) db = deliver_all i ds (deliver i d db)

-- The claim lists the message, and its send does not succeed.
abbrev pub Fails : Uuid → Delivery → Type 0
Fails i d = (elem i d.ids ≡ true) × (is_sent d.result.status ≡ false)

settled_row : Delivery → Outbox → Outbox
settled_row d row =
    if leb row.max_attempts row.attempts then mark_dead row else mark_retry d.now d.base row

settle_as-unsent :
    (s : SendStatus) (base : ℕ) (now at : Time) (new_id : Uuid) (result : ProviderResult)
    (ob : Outbox) (db : Db)
    → is_sent s ≡ false
    → settle_as s base now at new_id result ob db ≡ settle_unsent base now ob db
unfolding settle_as
settle_as-unsent SendStatus.sent base now at new_id result ob db h = cc
settle_as-unsent SendStatus.degraded base now at new_id result ob db h = refl
settle_as-unsent SendStatus.failed base now at new_id result ob db h = refl

find-settle_unsent :
    (d : Delivery) (i : Uuid) (ob : Outbox) (db : Db)
    → find_outbox i db.outbox ≡ some ob
    → find_outbox ob.id (settle_unsent d.base d.now ob db).outbox ≡ some (settled_row d ob)
unfolding settle_unsent settled_row mark_dead mark_retry
find-settle_unsent d i ob db h =
    let h' =
      subst (λ k. find_outbox k db.outbox ≡ some ob) (sym (find_outbox-id i db.outbox ob h)) h in
    elim (Bool-cases (leb ob.max_attempts ob.attempts)) [
      | inl e ↦ rw e (find_outbox-update ob.id mark_dead (λ x. refl) db.outbox ob h')
      | inr e ↦
          rw e (find_outbox-update ob.id (mark_retry d.now d.base) (λ x. refl) db.outbox ob h')
    ]

find-deliver :
    (d : Delivery) (i : Uuid) (row : Outbox) (db : Db)
    → Fails i d
    → find_outbox i db.outbox ≡ some row
    → find_outbox i (deliver i d db).outbox
      ≡ some (settled_row d (stamp_sending d.worker d.until row))
unfolding settle settle_found stamp_sending
find-deliver d i row db fails h =
    let here = find_outbox-stamp d.worker d.until d.ids i fails.0 db.outbox row h in
    let same = find_outbox-id i _ _ here in
    rw (here, settle_found)
      (rw (settle_as-unsent d.result.status d.base d.now d.at d.new_id d.result _ _ fails.1) (
        subst
          (λ k.
            find_outbox k
              (settle_unsent d.base d.now (stamp_sending d.worker d.until row)
                (with_claim d db)).outbox
            ≡ some (settled_row d (stamp_sending d.worker d.until row)))
          same
          (find-settle_unsent d i (stamp_sending d.worker d.until row) (with_claim d db) here)))

-- The attempts of a message and where they leave it.
abbrev pub status_after : ℕ → Outbox → OutboxStatus
status_after n row =
    if leb row.max_attempts (row.attempts + n) then OutboxStatus.dead else OutboxStatus.pending

pub record IsAfter (n : ℕ) (row row' : Outbox) : Type 0 where
  pub counted : row'.attempts ≡ row.attempts + n
  pub limit : row'.max_attempts ≡ row.max_attempts
  pub state : row'.status ≡ status_after n row

settled-IsAfter :
    (d : Delivery) (row : Outbox)
    → IsAfter 1 row (settled_row d (stamp_sending d.worker d.until row))
unfolding settled_row stamp_sending mark_dead mark_retry
settled-IsAfter d row = elim (Bool-cases (leb row.max_attempts (row.attempts + 1))) [
  | inl e ↦ rw e (record { counted = refl; limit = refl; state = rw e refl })
  | inr e ↦ rw e (record { counted = refl; limit = refl; state = rw e refl })
]

IsAfter-trans :
    (n : ℕ) (row mid last : Outbox)
    → IsAfter 1 row mid
    → IsAfter n mid last
    → IsAfter (suc n) row last
IsAfter-trans n row mid last p q = record {
  counted = omega (arith, p.counted, q.counted);
  limit = q.limit ∙ p.limit;
  state = q.state ∙ same;
}
  where
    same : status_after n mid ≡ status_after (suc n) row
    same =
        rw (p.counted, p.limit)
          (ap (λ k. if leb row.max_attempts k then OutboxStatus.dead else OutboxStatus.pending)
            (omega arith))

-- A PENDING message that has an attempt left, each of whose sends fails: after any number of claims
-- and settlements up to its maximum it has so many attempts more, and it is DEAD exactly if its
-- attempts have come to `max_attempts`, else PENDING.
pub retries_end_dead :
    (i : Uuid) (ds : List Delivery) (db : Db) (row : Outbox)
    → find_outbox i db.outbox ≡ some row
    → row.status ≡ OutboxStatus.pending
    → row.attempts < row.max_attempts
    → row.attempts + length ds ≤ row.max_attempts
    → All (Fails i) ds
    → (row' : Outbox) × (find_outbox i (deliver_all i ds db).outbox ≡ some row')
      × IsAfter (length ds) row row'
retries_end_dead i [] db row found pending left le fails =
    (row, found, record { counted = omega arith; limit = refl; state = pending ∙ unspent })
  where
    unspent : OutboxStatus.pending ≡ status_after 0 row
    unspent = ground arith
retries_end_dead i (d ∷ []) db row found pending left le fails =
    (_, find-deliver d i row db fails.0 found, settled-IsAfter d row)
retries_end_dead i (d ∷ e ∷ ds) db row found pending left le fails =
    let once = settled-IsAfter d row in
    let (row', found', after) =
      retries_end_dead i (e ∷ ds) (deliver i d db) _ (find-deliver d i row db fails.0 found)
        (once.state ∙ unspent) (omega (arith, once.counted, once.limit))
        (omega (arith, once.counted, once.limit)) fails.1 in
    (row', found', IsAfter-trans _ row _ row' once after)
  where
    unspent : status_after 1 row ≡ OutboxStatus.pending
    unspent = ground arith
