-- ===== src/Outbox.antt =====
-- backend/app/services/outbox_service.py and models/outbox.py: emails and webhooks are rows that a
-- periodic job delivers, with retries. SMTP and HTTP are a parameter, the network, which may answer
-- each call as it likes; the claim of the job's lock and the row locks of the database are arguments.
pub mod Row
pub mod Retry
pub mod Run
mod Tests
use registrator_ofid.Base.{
  ℕ, zero, suc, ◌+◌, ◌-◌, ◌*◌, ◌^◌, Bool, true, false, not, ◌&&◌, leb, List, [], ◌∷◌, ◌++◌, Option,
  none, some, if◌then◌else◌, take,
}
use registrator_ofid.Base.Text.{Text, text, is_nonempty}
use registrator_ofid.Tracking.{decimal}

pub data OutboxStatus : Type 0 where
  pending sent failed : OutboxStatus

-- The arguments of `enqueue_email`.
pub record Mail : Type 0 where
  pub to : Text
  pub subject : Text
  pub body : Text
  pub html : Option Text

-- The envelope of `enqueue_webhook`, with its data as JSON.
pub record Envelope : Type 0 where
  pub id : Text
  pub event : Text
  pub occurred_at : Text
  pub data_json : Text

-- `kind` with `payload`: `other` is a kind that no sender is registered for.
pub data Payload : Type 0 where
  email : Mail → Payload
  webhook : Envelope → Payload
  other : Text → Payload

pub record OutboxMessage : Type 0 where
  pub id : ℕ
  pub payload : Payload
  pub status : OutboxStatus
  pub attempts : ℕ
  pub next_attempt_at : ℕ
  pub last_error : Option Text
  pub created_at : ℕ
  pub sent_at : Option ℕ

pub record OutboxSettings : Type 0 where
  pub webhook_url : Text
  pub outbox_max_attempts : ℕ

-- What a call to the outside gives: an exception, as its text, or a value.
pub data Reply (A : Type 0) : Type 0 where
  raised : Text → Reply A
  gave : A → Reply A

pub record HttpResponse : Type 0 where
  pub status_code : ℕ
  pub body : Text

-- `aiosmtplib.send`, and `client.post` to the webhook's address.
pub record Network : Type 0 where
  pub smtp_send : Mail → Reply (Unit {0})
  pub post : Envelope → Reply HttpResponse

-- A new row, with the defaults of the columns.
unfoldable pub new_message : ℕ → ℕ → Payload → OutboxMessage
new_message id now payload = record {
  id = id;
  payload = payload;
  status = pending;
  attempts = 0;
  next_attempt_at = now;
  last_error = none;
  created_at = now;
  sent_at = none;
}

unfoldable pub enqueue_email : List OutboxMessage → ℕ → ℕ → Mail → List OutboxMessage
unfolding new_message
enqueue_email rows id now mail = rows ++ new_message id now (email mail) ∷ []

unfoldable pub enqueue_webhook :
    OutboxSettings → List OutboxMessage → ℕ → ℕ → Envelope → List OutboxMessage
unfolding new_message
enqueue_webhook settings rows id now envelope =
    if is_nonempty settings.webhook_url
    then rows ++ new_message id now (webhook envelope) ∷ []
    else rows

check_response : HttpResponse → Reply (Unit {0})
check_response r =
    if leb 300 r.status_code
    then raised (
        text "RuntimeError: webhook HTTP " ++ decimal r.status_code ++ text ": " ++ take 200 r.body)
    else gave tt

responded : Reply HttpResponse → Reply (Unit {0})
unfolding check_response
responded (raised e) = raised e
responded (gave r) = check_response r

-- `_send_webhook`
unfoldable pub send_webhook : OutboxSettings → Network → Envelope → Reply (Unit {0})
unfolding responded
send_webhook settings net envelope =
    if is_nonempty settings.webhook_url then responded (net.post envelope) else gave tt

-- `_SENDERS`, and the error for a kind that is not in it.
unfoldable pub send : OutboxSettings → Network → Payload → Reply (Unit {0})
unfolding send_webhook
send settings net (email mail) = net.smtp_send mail
send settings net (webhook envelope) = send_webhook settings net envelope
send settings net (other kind) = raised (text "RuntimeError: unknown outbox kind " ++ kind)

-- Microseconds in a minute.
abbrev pub minute_us : ℕ
minute_us = 60_000_000

-- The row after a sender that raised `e`.
unfoldable pub after_failure : OutboxSettings → ℕ → Text → OutboxMessage → OutboxMessage
after_failure settings now e row =
    let tried = record row { attempts = row.attempts + 1; last_error = some (take 2000 e) } in
    if leb settings.outbox_max_attempts tried.attempts
    then record tried { status = failed }
    else record tried { next_attempt_at = now + 2 ^ (tried.attempts - 1) * minute_us }

-- The row after a sender that returned.
unfoldable pub after_success : ℕ → OutboxMessage → OutboxMessage
after_success now row = record row {
  attempts = row.attempts + 1;
  status = sent;
  sent_at = some now;
  last_error = none;
}

-- `_deliver_one`
unfoldable pub deliver_one : OutboxSettings → Network → ℕ → OutboxMessage → OutboxMessage
deliver_one settings net now row = elim (send settings net row.payload) [
  | raised e ↦ after_failure settings now e row
  | gave _ ↦ after_success now row
]

unfoldable pub is_pending : OutboxStatus → Bool
is_pending pending = true
is_pending sent = false
is_pending failed = false

-- The `where` of the query of `deliver_pending`.
unfoldable pub is_due : ℕ → OutboxMessage → Bool
unfolding is_pending
is_due now row = is_pending row.status && leb row.next_attempt_at now

-- `_BATCH`
abbrev pub batch_size : ℕ
batch_size = 50

-- The rows after the job, and how many it handled: by ascending key, each due row that nobody else
-- has locked, until the limit. The query runs at `now`, and a row is handled at a moment of its own.
unfoldable pub deliver_rows :
    OutboxSettings
    → Network
    → (ℕ → Bool)
    → ℕ
    → (ℕ → ℕ)
    → ℕ
    → List OutboxMessage
    → List OutboxMessage × ℕ
deliver_rows settings net locked now moment limit [] = ([], 0)
deliver_rows settings net locked now moment zero (row ∷ rows) = (row ∷ rows, 0)
deliver_rows settings net locked now moment (suc limit) (row ∷ rows) =
    let handled = deliver_rows settings net locked now moment limit rows in
    let skipped = deliver_rows settings net locked now moment (suc limit) rows in
    if is_due now row && not (locked row.id)
    then (deliver_one settings net (moment row.id) row ∷ handled.0, handled.1 + 1)
    else (row ∷ skipped.0, skipped.1)

-- `deliver_pending`
unfoldable pub deliver_pending :
    OutboxSettings
    → Network
    → Bool
    → (ℕ → Bool)
    → ℕ
    → (ℕ → ℕ)
    → List OutboxMessage
    → List OutboxMessage × ℕ
deliver_pending settings net claimed locked now moment rows =
    if claimed then deliver_rows settings net locked now moment batch_size rows else (rows, 0)
