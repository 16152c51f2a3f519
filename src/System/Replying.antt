-- ===== src/System/Replying.antt =====
-- The replies of phones keep the database consistent.
use factory_monitor.Base.{refl, inl, inr, Option, none, some, Bool-cases, ◌&&◌}
use factory_monitor.Store.Incident.{Uuid, Time, Incident, is_open}
use factory_monitor.Store.Rows.{Message}
use factory_monitor.Store.Db.{Db}
use factory_monitor.Webhook.{
  Reply, is_ack_keyword, is_resolve_keyword, acked_by_reply, resolved_by_reply, is_closable,
  close_by_keyword, record_reply, incident_of, dispatch_reply, receive_reply, last_outbound,
}
use factory_monitor.System.Tables.{Grows-refl}
use factory_monitor.System.Consistent.{
  IsConsistent, Keeps, Keeps-refl, after_others, IsAnswer, carry_answer,
}

acked_by_reply-IsAnswer : (now : Time) → IsAnswer (acked_by_reply now)
unfolding acked_by_reply
acked_by_reply-IsAnswer now = record {
  keeps_id = λ x. refl;
  keeps_tier = λ x. refl;
  answers = λ x. inl refl;
  no_timer = λ x. refl;
  no_deadline = λ x. refl;
}

resolved_by_reply-IsAnswer : (now : Time) → IsAnswer (resolved_by_reply now)
unfolding resolved_by_reply
resolved_by_reply-IsAnswer now = record {
  keeps_id = λ x. refl;
  keeps_tier = λ x. refl;
  answers = λ x. inr refl;
  no_timer = λ x. refl;
  no_deadline = λ x. refl;
}

close_by_keyword-Keeps :
    (reply : Reply) (now : Time) (inc : Incident) (db : Db)
    → IsConsistent db
    → Keeps db (close_by_keyword reply now inc db)
unfolding close_by_keyword
close_by_keyword-Keeps reply now inc db c =
    elim (Bool-cases (is_ack_keyword reply.keyword && is_open inc.status)) [
      | inl e ↦ rw e (
          carry_answer db _ (acked_by_reply now) inc.id (acked_by_reply-IsAnswer now) refl refl refl
            c)
      | inr e ↦
          rw e (elim (Bool-cases (is_resolve_keyword reply.keyword && is_closable inc.status)) [
            | inl r ↦ rw r (
                carry_answer db _ (resolved_by_reply now) inc.id (resolved_by_reply-IsAnswer now)
                  refl refl refl c)
            | inr r ↦ rw r (Keeps-refl db c)
          ])
    ]

record_reply-Keeps :
    (reply : Reply) (now at : Time) (new_id : Uuid) (o : Option Incident) (db : Db)
    → IsConsistent db
    → Keeps db (record_reply reply now at new_id o db)
unfolding record_reply
record_reply-Keeps reply now at new_id none db c = Keeps-refl db c
record_reply-Keeps reply now at new_id (some inc) db c = after_others db _ _ refl (
    close_by_keyword-Keeps reply now inc _
      (record { sound = c.sound; guarded = c.guarded; keyed = c.keyed }))

dispatch_reply-Keeps :
    (reply : Reply) (now at : Time) (new_id : Uuid) (o : Option Message) (seen db : Db)
    → IsConsistent db
    → Keeps db (dispatch_reply reply now at new_id o seen db)
unfolding dispatch_reply
dispatch_reply-Keeps reply now at new_id none seen db c = record {
  grows = Grows-refl db.incidents;
  consistent = record { sound = c.sound; guarded = c.guarded; keyed = c.keyed };
}
dispatch_reply-Keeps reply now at new_id (some m) seen db c =
    record_reply-Keeps reply now at new_id (incident_of m seen.incidents) db c

-- Whatever a phone replies, and whatever was committed since the handler's reads.
pub receive_reply-Keeps :
    (reply : Reply) (now at : Time) (new_id : Uuid) (asked seen db : Db)
    → IsConsistent db
    → Keeps db (receive_reply reply now at new_id asked seen db)
unfolding receive_reply
receive_reply-Keeps reply now at new_id asked seen db c = after_others db _ _ refl (
    dispatch_reply-Keeps reply now at new_id (last_outbound reply.from_phone asked.messages) seen _
      (record { sound = c.sound; guarded = c.guarded; keyed = c.keyed }))
