-- ===== src/Escalation/Transition/Cases.antt =====
-- What a call of `fire_transition` can come to (cloud/escalation_worker/transition.py).
use factory_monitor.Base.{
  ℕ, String, ◌≡◌, refl, true, false, Option, none, some, List, ◌∷◌, arith, ap,
}
use factory_monitor.Base.Outcome.{Outcome, ok, err, ◌>>=◌}
use factory_monitor.Store.Incident.{Uuid, Incident}
use factory_monitor.Store.Inserts.{OnlyIntegrity, insert_outbox-OnlyIntegrity}
use factory_monitor.Store.Db.{Db, Clocks, update, fired, has_key, has_outbox_id}
use factory_monitor.Store.Rows.{Outbox}
use factory_monitor.Escalation.Transition.{
  Transition, TransitionResult, transition_table, next_config, recipient_phone, outbox_template,
  audit_event, fire_time, advance, outbox_row, nothing_to_do, skipped, fired_as, enqueue, fire_row,
  fire_transition,
}

-- What a transition writes beside its outbox row.
abbrev pub fired_db : Db → Incident → Transition → Clocks → List Outbox → Db
fired_db db inc move clocks outbox = record db {
  incidents =
      update inc.id
        (advance move (fire_time clocks.now (next_config db.roster inc move)) clocks.db_now)
        db.incidents;
  events = audit_event inc move (recipient_phone db.roster inc move clocks.now) ∷ db.events;
  idempotency =
      record { incident_id = inc.id; tier = move.next_tier; fired_at = clocks.db_now }
      ∷ db.idempotency;
  outbox = outbox;
}

-- The outbox after a transition: a row more if there are a phone and a template.
abbrev pub sent_rows :
    Uuid → Uuid → ℕ → Option String → Option String → ℕ → List Outbox → List Outbox
sent_rows new_id i t (some phone) (some template) at rows =
    outbox_row new_id i t phone template at ∷ rows
sent_rows new_id i t _ _ at rows = rows

-- No row of the outbox has the new row's id or its idempotency key.
pub record IsFree (new_id i : Uuid) (t : ℕ) (rows : List Outbox) : Type 0 where
  pub id_free : has_outbox_id new_id rows ≡ false
  pub key_free : has_key (record { incident = i; tier = t }) rows ≡ false

pub enqueue_free :
    (new_id i : Uuid) (t : ℕ) (phone template : Option String) (at : ℕ) (db : Db)
    → IsFree new_id i t db.outbox
    → enqueue new_id i t phone template at db
      ≡ ok (record db { outbox = sent_rows new_id i t phone template at db.outbox })
unfolding enqueue
enqueue_free new_id i t none template at db h = refl
enqueue_free new_id i t (some phone) none at db h = refl
enqueue_free new_id i t (some phone) (some template) at db h = rw (h.id_free, h.key_free)

-- What a successful enqueue leaves.
pub enqueue-ok :
    (new_id i : Uuid) (t : ℕ) (phone template : Option String) (at : ℕ) (db db' : Db)
    → enqueue new_id i t phone template at db ≡ ok db'
    → db' ≡ record db { outbox = sent_rows new_id i t phone template at db.outbox }
unfolding enqueue
enqueue-ok new_id i t none template at db db' h = ground arith
enqueue-ok new_id i t (some phone) none at db db' h = ground arith
enqueue-ok new_id i t (some phone) (some template) at db db' h = ground arith

pub enqueue-OnlyIntegrity :
    (new_id i : Uuid) (t : ℕ) (phone template : Option String) (at : ℕ) (db : Db)
    → OnlyIntegrity (enqueue new_id i t phone template at db)
unfolding enqueue
enqueue-OnlyIntegrity new_id i t none template at db e h = cc
enqueue-OnlyIntegrity new_id i t (some phone) none at db e h = cc
enqueue-OnlyIntegrity new_id i t (some phone) (some template) at db e h =
    insert_outbox-OnlyIntegrity _ db e h

abbrev pub full_outbox : Db → Incident → Transition → Clocks → Uuid → List Outbox
full_outbox db inc move clocks new_id =
    sent_rows new_id inc.id move.next_tier (recipient_phone db.roster inc move clocks.now)
      (outbox_template db.roster inc move) clocks.db_now db.outbox

pub fire_row-skip :
    (db : Db) (inc : Incident) (move : Transition) (clocks : Clocks) (new_id : Uuid)
    → fired inc.id move.next_tier db.idempotency ≡ true
    → fire_row db inc move clocks new_id ≡ ok (skipped, db)
unfolding fire_row
fire_row-skip db inc move clocks new_id h = rw h

pub fire_row-free :
    (db : Db) (inc : Incident) (move : Transition) (clocks : Clocks) (new_id : Uuid)
    → fired inc.id move.next_tier db.idempotency ≡ false
    → IsFree new_id inc.id move.next_tier db.outbox
    → fire_row db inc move clocks new_id
      ≡ ok (
        fired_as move.next_status,
        fired_db db inc move clocks (full_outbox db inc move clocks new_id),
      )
unfolding fire_row
fire_row-free db inc move clocks new_id h free = rw h (
    ap
      (λ (m : Outcome Db).
        ◌>>=◌ {B = TransitionResult × Db} m (λ d. ok (fired_as move.next_status, d)))
      (enqueue_free _ _ _ _ _ _ _ free))

bind-ok :
    (m : Outcome Db) (s : TransitionResult) (r : TransitionResult) (db' : Db)
    → ◌>>=◌ {B = TransitionResult × Db} m (λ d. ok (s, d)) ≡ ok (r, db')
    → (r ≡ s) × (m ≡ ok db')
bind-ok (ok d) s r db' h = ground arith
bind-ok (err e) s r db' h = cc

pub fire_row-ok :
    (db db' : Db) (inc : Incident) (move : Transition) (clocks : Clocks) (new_id : Uuid)
    (r : TransitionResult)
    → fired inc.id move.next_tier db.idempotency ≡ false
    → fire_row db inc move clocks new_id ≡ ok (r, db')
    → (r ≡ fired_as move.next_status)
      × (db' ≡ fired_db db inc move clocks (full_outbox db inc move clocks new_id))
unfolding fire_row
fire_row-ok db db' inc move clocks new_id r h e =
    let both = bind-ok _ _ _ _ (rw h at e) in (both.0, enqueue-ok _ _ _ _ _ _ _ _ both.1)

module _ (db : Db) (inc : Incident) (clocks : Clocks) (new_id : Uuid) where
  pub fire_transition-some :
      (move : Transition)
      → transition_table inc.status inc.current_tier ≡ some move
      → fire_transition db inc clocks new_id ≡ fire_row db inc move clocks new_id
  unfolding fire_transition
  fire_transition-some move h = rw (h, fire_transition) refl

  pub fire_transition-none :
      transition_table inc.status inc.current_tier ≡ none
      → fire_transition db inc clocks new_id ≡ ok (nothing_to_do, db)
  unfolding fire_transition
  fire_transition-none h = rw (h, fire_transition) refl

pub pair_of_ok :
    (r s : TransitionResult) (d e : Db)
    → ◌≡◌ {A = Outcome (TransitionResult × Db)} (ok (r, d)) (ok (s, e))
    → (r ≡ s) × (d ≡ e)
pair_of_ok r s d e h = ground arith
