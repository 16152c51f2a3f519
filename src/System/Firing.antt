-- ===== src/System/Firing.antt =====
-- `fire_transition` on a consistent database: it always fires, and keeps the database consistent.
use factory_monitor.Base.{
  ℕ, suc, ◌≤◌, ◌≡◌, refl, sym, subst, ◌∙◌, ◌⊎◌, inl, inr, true, false, Option, none, some, List,
  ◌∷◌, String, arith, Bool-cases, Option-cases,
}
use factory_monitor.Base.Outcome.{ok}
use factory_monitor.Store.Incident.{Uuid, Time, IncidentStatus, Incident, is_open}
use factory_monitor.Store.Rows.{Outbox, IdempotencyKey, EscalationIdempotency}
use factory_monitor.Store.Db.{Db, Roster, Clocks, find, update, fired, has_key, has_outbox_id}
use factory_monitor.Store.Lookup.{find-id, find-update_self}
use factory_monitor.Escalation.Transition.{
  Transition, TransitionResult, transition_table, next_config, recipient_phone, outbox_template,
  advance, fire_time, outbox_row, fired_as, fire_row, fire_transition,
}
use factory_monitor.Escalation.Transition.Cases.{
  fired_db, sent_rows, full_outbox, fire_row-free, fire_row-ok, fire_transition-some,
  fire_transition-none, pair_of_ok,
}
use factory_monitor.System.Tables.{
  StatusTier, CanBecome, IsSound, Reached, Grows, Reached-Grows, update-Sound, update-Grows,
}
use factory_monitor.System.Consistent.{IsConsistent, Keeps, Keeps-refl, key}

-- What the transition table lists.
pub record IsMove (s : IncidentStatus) (t : ℕ) (move : Transition) : Type 0 where
  pub next : move.next_tier ≡ suc t
  pub from_open : is_open s ≡ true
  pub lands : StatusTier move.next_status move.next_tier
  pub climbs : CanBecome s move.next_status

pub table-IsMove :
    (s : IncidentStatus) (t : ℕ) (move : Transition)
    → transition_table s t ≡ some move
    → IsMove s t move
unfolding transition_table
table-IsMove IncidentStatus.awaiting_operator t move h = ground arith
table-IsMove IncidentStatus.tier1 t move h = ground arith
table-IsMove IncidentStatus.tier2 t move h = ground arith
table-IsMove _ t move h = ground arith

config_of_closed :
    (roster : Roster) (inc : Incident) (move : Transition) (now : Time) (s : IncidentStatus) (t : ℕ)
    → transition_table s t ≡ some move
    → is_open move.next_status ≡ false
    → fire_time now (next_config roster inc move) ≡ none
unfolding transition_table next_config
config_of_closed roster inc move now IncidentStatus.awaiting_operator t h c = ground arith
config_of_closed roster inc move now IncidentStatus.tier1 t h c = ground arith
config_of_closed roster inc move now IncidentStatus.tier2 t h c = ground arith
config_of_closed roster inc move now _ t h c = ground arith

pub has_key-sent_rows :
    (new_id i : Uuid) (t : ℕ) (phone template : Option String) (at : ℕ) (rows : List Outbox)
    (k : IdempotencyKey)
    → has_key k (sent_rows new_id i t phone template at rows) ≡ true
    → ((k.incident ≡ i) × (k.tier ≡ t)) ⊎ (has_key k rows ≡ true)
unfolding has_key outbox_row
has_key-sent_rows new_id i t (some phone) (some template) at rows k h = ground arith
has_key-sent_rows new_id i t none template at rows k h = inr h
has_key-sent_rows new_id i t (some phone) none at rows k h = inr h

fired-cons :
    (j i : Uuid) (t n : ℕ) (at : Time) (rows : List EscalationIdempotency)
    → fired j t (record { incident_id = i; tier = n; fired_at = at } ∷ rows) ≡ true
    → ((i ≡ j) × (n ≡ t)) ⊎ (fired j t rows ≡ true)
unfolding fired
fired-cons j i t n at rows h = ground arith

-- An incident's tier bounds what is reached.
Reached-le :
    (rows : List Incident) (i : Uuid) (x : Incident) (t : ℕ)
    → find i rows ≡ some x
    → Reached (find i rows) t
    → t ≤ x.current_tier
Reached-le rows i x t h r = rw h at r

Reached-of :
    (rows : List Incident) (i : Uuid) (x : Incident) (t : ℕ)
    → find i rows ≡ some x
    → t ≤ x.current_tier
    → Reached (find i rows) t
Reached-of rows i x t h r = rw h r

module _ (db : Db) (c : IsConsistent db) (i : Uuid) (inc : Incident)
    (found : find i db.incidents ≡ some inc) (move : Transition)
    (table : transition_table inc.status inc.current_tier ≡ some move) where
  -- No worker has fired the next tier, and no outbox row has its key.
  pub next_unfired : fired inc.id move.next_tier db.idempotency ≡ false
  next_unfired = elim (Bool-cases (fired inc.id move.next_tier db.idempotency)) [
    | inl e ↦ absurd (
        omega (
          arith,
          (table-IsMove inc.status inc.current_tier move table).next,
          Reached-le db.incidents i inc move.next_tier found (
              subst (λ k. Reached (find k db.incidents) move.next_tier)
                (find-id i db.incidents inc found) (c.guarded inc.id move.next_tier e)),
        ))
    | inr e ↦ e
  ]

  pub next_unsent : has_key (key inc.id move.next_tier) db.outbox ≡ false
  next_unsent = elim (Bool-cases (has_key (key inc.id move.next_tier) db.outbox)) [
    | inl e ↦ absurd (
        omega (
          arith,
          (table-IsMove inc.status inc.current_tier move table).next,
          Reached-le db.incidents i inc move.next_tier found (
              subst (λ k. Reached (find k db.incidents) move.next_tier)
                (find-id i db.incidents inc found) (c.keyed inc.id move.next_tier e)),
        ))
    | inr e ↦ e
  ]

  module _ (clocks : Clocks) (new_id : Uuid) where
    abbrev after : Db
    after = fired_db db inc move clocks (full_outbox db inc move clocks new_id)

    pub fire_row_lem :
        has_outbox_id new_id db.outbox ≡ false
        → fire_row db inc move clocks new_id ≡ ok (fired_as move.next_status, after)
    fire_row_lem free =
        fire_row-free db inc move clocks new_id next_unfired
          (record { id_free = free; key_free = next_unsent })

    advanced : Incident → Incident
    advanced = advance move (fire_time clocks.now (next_config db.roster inc move)) clocks.db_now

    advanced-IsSound : IsSound (advanced inc)
    unfolding advance advanced
    advanced-IsSound = record {
      tier_of_status = (table-IsMove inc.status inc.current_tier move table).lands;
      shown = refl;
      stopped = config_of_closed db.roster inc move clocks.now inc.status inc.current_tier table;
    }

    found' : find inc.id db.incidents ≡ some inc
    found' =
        subst (λ k. find k db.incidents ≡ some inc) (sym (find-id i db.incidents inc found)) found

    keeps_id : (x : Incident) → (advanced x).id ≡ x.id
    unfolding advance advanced
    keeps_id x = refl

    next_of : move.next_tier ≡ suc inc.current_tier
    next_of = (table-IsMove inc.status inc.current_tier move table).next

    tier_of : (advanced inc).current_tier ≡ move.next_tier
    unfolding advance advanced
    tier_of = refl

    climbs_of : CanBecome inc.status (advanced inc).status
    unfolding advance advanced
    climbs_of = (table-IsMove inc.status inc.current_tier move table).climbs

    grows : Grows db.incidents (update inc.id advanced db.incidents)
    grows =
        update-Grows inc.id advanced keeps_id db.incidents inc found'
          (omega (arith, next_of, tier_of)) climbs_of

    after_find : find inc.id (update inc.id advanced db.incidents) ≡ some (advanced inc)
    after_find = find-update_self inc.id advanced keeps_id db.incidents inc found'

    at_next :
        (j : Uuid) (t : ℕ)
        → inc.id ≡ j
        → move.next_tier ≡ t
        → Reached (find j (update inc.id advanced db.incidents)) t
    at_next j t e n =
        subst (λ k. Reached (find k (update inc.id advanced db.incidents)) t) e
          (Reached-of _ inc.id (advanced inc) t after_find (omega (arith, tier_of)))

    pub after-Keeps : Keeps db after
    unfolding advanced
    after-Keeps = record {
      grows = grows;
      consistent = record {
        sound =
            update-Sound inc.id advanced keeps_id db.incidents inc found' c.sound advanced-IsSound;
        guarded = λ j t h.
            elim (fired-cons j inc.id t move.next_tier clocks.db_now db.idempotency h) [
              | inl e ↦ at_next j t e.0 e.1
              | inr old ↦ Reached-Grows db.incidents _ j t grows (c.guarded j t old)
            ];
        keyed = λ j t h.
            elim (has_key-sent_rows new_id inc.id move.next_tier
              (recipient_phone db.roster inc move clocks.now) (outbox_template db.roster inc move)
              clocks.db_now db.outbox (key j t) h) [
                | inl e ↦ at_next j t (sym e.0) (sym e.1)
                | inr old ↦ Reached-Grows db.incidents _ j t grows (c.keyed j t old)
              ];
      };
    }

-- In a consistent database and with a free outbox id, a transition that the table lists always
-- fires: the guard does not block it, no key is taken, and it writes the incident, its audit row and
-- its guard, with an outbox row where it has a recipient and a template.
pub fire_transition_fires :
    (db : Db) (i : Uuid) (inc : Incident) (move : Transition) (clocks : Clocks) (new_id : Uuid)
    → IsConsistent db
    → find i db.incidents ≡ some inc
    → transition_table inc.status inc.current_tier ≡ some move
    → has_outbox_id new_id db.outbox ≡ false
    → fire_transition db inc clocks new_id
      ≡ ok (
        fired_as move.next_status,
        fired_db db inc move clocks (full_outbox db inc move clocks new_id),
      )
fire_transition_fires db i inc move clocks new_id c found table free =
    fire_transition-some db inc clocks new_id move table
    ∙ fire_row_lem db c i inc found move table clocks new_id free

-- Whatever `fire_transition` returns, the database stays consistent.
pub fire_transition-Keeps :
    (db db' : Db) (i : Uuid) (inc : Incident) (clocks : Clocks) (new_id : Uuid)
    (r : TransitionResult)
    → IsConsistent db
    → find i db.incidents ≡ some inc
    → fire_transition db inc clocks new_id ≡ ok (r, db')
    → Keeps db db'
fire_transition-Keeps db db' i inc clocks new_id r c found e =
    elim (Option-cases (transition_table inc.status inc.current_tier)) [
      | inl unlisted ↦
          let both =
            pair_of_ok _ _ _ _ (sym (fire_transition-none db inc clocks new_id unlisted) ∙ e) in
          subst (Keeps db) both.1 (Keeps-refl db c)
      | inr (move, table) ↦
          let both =
            fire_row-ok db db' inc move clocks new_id r (next_unfired db c i inc found move table)
              (sym (fire_transition-some db inc clocks new_id move table) ∙ e) in
          subst (Keeps db) (sym both.1) (after-Keeps db c i inc found move table clocks new_id)
    ]
