-- ===== src/Examples/Delivering.antt =====
-- Witnesses for the providers and the relay.
use factory_monitor.Base.{◌≡◌, refl, true, false, none, some, List, [], ◌∷◌, elem, map, arith}
use factory_monitor.Base.Outcome.{ok}
use factory_monitor.Base.Sorting.{sort_by}
use factory_monitor.Store.Rows.{Outbox, MsgChannel, NotificationKind}
use factory_monitor.Store.Db.{Db}
use factory_monitor.Escalation.Transition.{outbox_row}
use factory_monitor.Notifier.Provider.{ProviderResult, SendStatus, Request}
use factory_monitor.Notifier.Chain.{chain_send}
use factory_monitor.Notifier.Relay.{find_outbox, claim_outbox}
use factory_monitor.Notifier.Claims.{claim_outbox_exclusive}
use factory_monitor.Notifier.Retries.{Delivery, deliver_all, Fails, IsAfter, retries_end_dead}
use factory_monitor.Notifier.Delivery.{answering, answers, delivered, chain_send_lem}
use factory_monitor.Examples.Ingesting.{start}

abbrev message : Outbox
message = outbox_row 200 100 0 "+912" "alert" 1000

abbrev queued : Db
queued = record start { outbox = message ∷ [] }

abbrev failure : ProviderResult
failure = record { sid = none; status = SendStatus.failed; channel = MsgChannel.sms }

abbrev success : ProviderResult
success = record { sid = some "SM1"; status = SendStatus.sent; channel = MsgChannel.console }

abbrev attempt : Delivery
attempt = record {
  worker = "relay";
  until = 90000000;
  ids = 200 ∷ [];
  base = 5;
  now = 31000000;
  at = 31000000;
  new_id = 300;
  result = failure;
}

abbrev attempts : List Delivery
attempts = attempt ∷ attempt ∷ attempt ∷ attempt ∷ attempt ∷ attempt ∷ []

queued_found : find_outbox 200 queued.outbox ≡ some message
unfolding find_outbox outbox_row
queued_found = refl

fails : Fails 200 attempt
fails = (refl, refl)

retries_end_dead_example :
    (row : Outbox) × (find_outbox 200 (deliver_all 200 attempts queued).outbox ≡ some row)
    × IsAfter 6 message row
unfolding outbox_row
retries_end_dead_example =
    retries_end_dead 200 attempts queued message queued_found refl (omega arith) (omega arith)
      (fails, (fails, (fails, (fails, (fails, (fails, tt))))))

message_claimed : elem 200 (claim_outbox "a" 60 10 (λ i. false) 2000 queued).0 ≡ true
unfolding claim_outbox outbox_row sort_by
message_claimed = refl

claim_outbox_exclusive_example :
    elem 200
      (claim_outbox "b" 60 10
        (λ i. false)
        3000
        (claim_outbox "a" 60 10 (λ i. false) 2000 queued).1).0
    ≡ false
claim_outbox_exclusive_example =
    claim_outbox_exclusive "a" "b" 60 60 10 10 (λ i. false) (λ i. false) 2000 3000 queued 200
      (omega arith) message_claimed

abbrev question : Request
question = record {
  to = "+912";
  kind = NotificationKind.template;
  template_name = some "alert";
  body = none;
  idempotency_key = 200;
}

chain_send_lem_example :
    chain_send (map answering ((λ q. failure) ∷ (λ q. success) ∷ (λ q. failure) ∷ [])) question
    ≡ ok (delivered failure (answers ((λ q. success) ∷ (λ q. failure) ∷ []) question))
chain_send_lem_example =
    chain_send_lem (λ q. failure) ((λ q. success) ∷ (λ q. failure) ∷ []) question
