-- ===== src/Outbox/Tests.antt =====
-- Deliveries of backend/app/services/outbox_service.py over a network that is down, and one that is up.
use registrator_ofid.Base.{
  ◌+◌, ◌≤◌, ◌≡◌, refl, true, false, [], ◌∷◌, none, All, arith, length, filter,
}
use registrator_ofid.Base.Text.{text}
use registrator_ofid.Outbox.{
  OutboxMessage, OutboxSettings, Network, raised, gave, Payload, email, new_message, deliver_one,
  is_due, minute_us, deliver_pending, after_failure, send,
}
use registrator_ofid.Outbox.Row.{IsTracked, new_message-IsTracked}
use registrator_ofid.Outbox.Retry.{Delivered, deliveries_bounded}
use registrator_ofid.Outbox.Run.{takes, deliver_pending_settles}

abbrev settings : OutboxSettings
settings = record { webhook_url = text "https://partner.uz/hook"; outbox_max_attempts = 5 }

abbrev down : Network
down = record {
  smtp_send = λ mail. raised (text "timeout");
  post = λ envelope. raised (text "timeout");
}

abbrev up : Network
up = record {
  smtp_send = λ mail. gave tt;
  post = λ envelope. gave (record { status_code = 200; body = [] });
}

abbrev letter : Payload
letter =
    email (record { to = text "ali@example.uz"; subject = text "Javob"; body = []; html = none })

abbrev queued : OutboxMessage
queued = new_message 1 100 letter

abbrev failed_once : OutboxMessage
failed_once = deliver_one settings down 100 queued

-- The second attempt is a minute later.
abbrev delivered : OutboxMessage
delivered = deliver_one settings up (100 + minute_us) failed_once

bounded_example : (delivered.attempts ≡ 2) × (2 ≤ 5) × IsTracked 5 delivered
unfolding is_due new_message deliver_one send after_failure
bounded_example = deliveries_bounded settings 1 100 letter 2 delivered (omega arith) (
    Delivered.one_more (Delivered.one_more Delivered.no_delivery down 100 100 refl) up
      (100 + minute_us) (100 + minute_us) refl)

queued-IsTracked : IsTracked 5 queued
queued-IsTracked = new_message-IsTracked 5 1 100 letter (omega arith)

handles_example :
    (All
      (λ r. takes (λ id. false) 200 r ≡ false)
      (deliver_pending settings up true (λ id. false) 200 (λ id. 300) (queued ∷ [])).0)
    × ((deliver_pending settings up true (λ id. false) 200 (λ id. 300) (queued ∷ [])).1
        ≡ length (filter (takes (λ id. false) 200) (queued ∷ [])))
unfolding is_due new_message
handles_example =
    deliver_pending_settles settings up (λ id. false) 200 (λ id. 300) (queued ∷ [])
      (λ id. omega arith) (omega arith)
