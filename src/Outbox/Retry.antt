-- ===== src/Outbox/Retry.antt =====
-- The retries of backend/app/services/outbox_service.py.
use registrator_ofid.Base.{
  ℕ, suc, ◌+◌, ◌-◌, ◌*◌, ◌^◌, ◌≤◌, ◌<◌, ◌≡◌, refl, true, leb, arith, Bool-cases, inl, inr, subst,
  sym, ap, ◌∙◌,
}
use registrator_ofid.Outbox.{
  OutboxMessage, OutboxSettings, Network, deliver_one, after_success, is_due, is_pending,
  new_message, Payload, minute_us,
}
use registrator_ofid.Outbox.Row.{
  IsTracked, new_message-IsTracked, deliver_one-IsTracked, deliver_one-cases, pending_left,
  gives_up, tries_again, waiting,
}

-- The row `s` after `n` deliveries, each of a row that was due, under any behaviour of the network.
pub data Delivered (settings : OutboxSettings) (r : OutboxMessage)
    : ℕ → OutboxMessage → Type 0 where
  no_delivery : Delivered settings r 0 r
  one_more :
      {n : ℕ} {s : OutboxMessage}
      → Delivered settings r n s
      → (net : Network) (query now : ℕ) → is_due query s ≡ true
      → Delivered settings r (suc n) (deliver_one settings net now s)

pub due-pending :
    (now : ℕ) (row : OutboxMessage) → is_due now row ≡ true → is_pending row.status ≡ true
unfolding is_due
due-pending now row h = ground arith

due_time : (now : ℕ) (row : OutboxMessage) → is_due now row ≡ true → row.next_attempt_at ≤ now
unfolding is_due
due_time now row h = ground arith

counts_one :
    (settings : OutboxSettings) (net : Network) (now : ℕ) (row : OutboxMessage)
    → (deliver_one settings net now row).attempts ≡ row.attempts + 1
unfolding after_success
counts_one settings net now row = elim (deliver_one-cases settings net now row) [
  | inr succeeds ↦ ap (λ r. r.attempts) succeeds
  | inl (e, fails) ↦ elim (Bool-cases (leb settings.outbox_max_attempts (row.attempts + 1))) [
    | inl last ↦ ap (λ r. r.attempts) (fails ∙ gives_up settings now e row last)
    | inr more ↦ ap (λ r. r.attempts) (fails ∙ tries_again settings now e row more)
  ]
]

-- A queued message is delivered at most as often as the settings allow, whatever the network does:
-- after `n` deliveries its counter is `n`, which is no more than the limit, and the row satisfies its
-- invariant, so that it is pending, sent or given up as its counter says.
pub deliveries_bounded :
    (settings : OutboxSettings) (id created : ℕ) (p : Payload) (n : ℕ) (row : OutboxMessage)
    → 0 < settings.outbox_max_attempts
    → Delivered settings (new_message id created p) n row
    → (row.attempts ≡ n)
      × (n ≤ settings.outbox_max_attempts)
      × IsTracked settings.outbox_max_attempts row
unfolding new_message
deliveries_bounded settings id created p n row positive Delivered.no_delivery = (
  refl,
  omega (arith, positive),
  new_message-IsTracked settings.outbox_max_attempts id created p positive,
)
deliveries_bounded settings id created p n row positive
      (Delivered.one_more {n = m} {s = s} before net query now due) =
    let (count, below, tracked) = deliveries_bounded settings id created p m s positive before in
    let was = due-pending query s due in
    let (left, unsent) = pending_left settings.outbox_max_attempts s tracked was in
    (
      counts_one settings net now s ∙ omega (arith, count),
      omega (arith, count, left),
      deliver_one-IsTracked settings net now s was tracked,
    )

-- A delivered row is due again only if an attempt was left, and not before its delay is over, which
-- doubles with each attempt: a minute after the first, two after the second, and so on.
pub retry_waits :
    (settings : OutboxSettings) (net : Network) (now later : ℕ) (row : OutboxMessage)
    → is_due later (deliver_one settings net now row) ≡ true
    → (row.attempts + 1 < settings.outbox_max_attempts)
      × (now + 2 ^ row.attempts * minute_us ≤ later)
unfolding is_due is_pending after_success
retry_waits settings net now later row due_again = elim (deliver_one-cases settings net now row) [
  | inr succeeds ↦ absurd (ground (arith, sym (ap (is_due later) succeeds) ∙ due_again))
  | inl (e, fails) ↦ elim (Bool-cases (leb settings.outbox_max_attempts (row.attempts + 1))) [
    | inl last ↦ absurd (
        ground
          (arith, sym (ap (is_due later) (fails ∙ gives_up settings now e row last)) ∙ due_again))
    | inr more ↦
        let waits =
          sym (ap (is_due later) (fails ∙ tries_again settings now e row more)) ∙ due_again in
        let time : now + 2 ^ (row.attempts + 1 - 1) * minute_us ≤ later =
          due_time later (waiting now e row) waits in
        let last : row.attempts + 1 - 1 ≡ row.attempts = omega arith in
        (ground arith, subst (λ k. now + 2 ^ k * minute_us ≤ later) last time)
  ]
]
