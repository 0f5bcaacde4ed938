-- ===== src/Outbox/Row.antt =====
-- The invariant of a row of backend/app/services/outbox_service.py.
use registrator_ofid.Base.{
  ℕ, ◌+◌, ◌-◌, ◌*◌, ◌^◌, ◌≤◌, ◌<◌, ◌≡◌, refl, Bool, true, false, leb, none, some, is_some, arith,
  Bool-cases, inl, inr, ◌⊎◌, subst, sym, ap, ◌∙◌, take,
}
use registrator_ofid.Base.Text.{Text}
use registrator_ofid.Outbox.{
  OutboxMessage, OutboxSettings, OutboxStatus, pending, sent, failed, Network, Reply, raised, gave,
  deliver_one, after_failure, after_success, send, is_pending, new_message, minute_us, Payload,
}

unfoldable pub is_sent : OutboxStatus → Bool
is_sent pending = false
is_sent sent = true
is_sent failed = false

-- A pending row has attempts left under the limit `max`; a sent one was tried at least once and keeps
-- no error; a failed one has used every attempt and keeps its last error.
abbrev pub CountsFit : ℕ → OutboxMessage → OutboxStatus → Type 0
CountsFit max row pending = row.attempts < max
CountsFit max row sent = (row.last_error ≡ none) × (0 < row.attempts) × (row.attempts ≤ max)
CountsFit max row failed = (row.attempts ≡ max) × (is_some row.last_error ≡ true)

-- The columns of a row agree with its status, and exactly the sent rows have a time of sending.
pub record IsTracked (max : ℕ) (row : OutboxMessage) : Type 0 where
  pub counts : CountsFit max row row.status
  pub stamped : is_some row.sent_at ≡ is_sent row.status

pub new_message-IsTracked :
    (max id now : ℕ) (p : Payload) → 0 < max → IsTracked max (new_message id now p)
unfolding new_message is_sent
new_message-IsTracked max id now p h = record { counts = h; stamped = refl }

pub pending_left :
    (max : ℕ) (row : OutboxMessage)
    → IsTracked max row
    → is_pending row.status ≡ true
    → (row.attempts < max) × (is_some row.sent_at ≡ false)
unfolding is_pending is_sent
pending_left max row v h = by_status row.status v.counts v.stamped h
  where
    by_status :
        (s : OutboxStatus)
        → CountsFit max row s
        → is_some row.sent_at ≡ is_sent s
        → is_pending s ≡ true
        → (row.attempts < max) × (is_some row.sent_at ≡ false)
    by_status pending c e h = (c, e)
    by_status sent c e h = absurd (ground arith)
    by_status failed c e h = absurd (ground arith)

is_pending-eq : (s : OutboxStatus) → is_pending s ≡ true → s ≡ pending
unfolding is_pending
is_pending-eq pending h = refl
is_pending-eq sent h = absurd (ground arith)
is_pending-eq failed h = absurd (ground arith)

-- The two ends of a failed attempt: the last one, and one that will be repeated.
pub gives_up :
    (settings : OutboxSettings) (now : ℕ) (e : Text) (row : OutboxMessage)
    → leb settings.outbox_max_attempts (row.attempts + 1) ≡ true
    → after_failure settings now e row
      ≡ record row { attempts = row.attempts + 1; last_error = some (take 2000 e); status = failed }
unfolding after_failure
gives_up settings now e row h = rw h refl

-- The row that waits for its next attempt.
abbrev pub waiting : ℕ → Text → OutboxMessage → OutboxMessage
waiting now e row = record row {
  attempts = row.attempts + 1;
  last_error = some (take 2000 e);
  next_attempt_at = now + 2 ^ (row.attempts + 1 - 1) * minute_us;
}

pub tries_again :
    (settings : OutboxSettings) (now : ℕ) (e : Text) (row : OutboxMessage)
    → leb settings.outbox_max_attempts (row.attempts + 1) ≡ false
    → after_failure settings now e row ≡ waiting now e row
unfolding after_failure
tries_again settings now e row h = rw h refl

-- A delivery either fails with what the sender raised, or succeeds.
pub deliver_one-cases :
    (settings : OutboxSettings) (net : Network) (now : ℕ) (row : OutboxMessage)
    → ((e : Text) × (deliver_one settings net now row ≡ after_failure settings now e row))
      ⊎ (deliver_one settings net now row ≡ after_success now row)
unfolding deliver_one
deliver_one-cases settings net now row = by_reply (send settings net row.payload)
  where
    by_reply :
        (r : Reply (Unit {0}))
        → ((e : Text) × ((elim r [
          | raised x ↦ after_failure settings now x row
          | gave _ ↦ after_success now row
        ])
              ≡ after_failure settings now e row))
          ⊎ ((elim r [
            | raised x ↦ after_failure settings now x row
            | gave _ ↦ after_success now row
          ])
              ≡ after_success now row)
    by_reply (raised e) = inl (e, refl)
    by_reply (gave done) = inr refl

after_failure-IsTracked :
    (settings : OutboxSettings) (now : ℕ) (e : Text) (row : OutboxMessage)
    → row.attempts < settings.outbox_max_attempts
    → is_some row.sent_at ≡ false
    → is_pending row.status ≡ true
    → IsTracked settings.outbox_max_attempts (after_failure settings now e row)
unfolding is_sent
after_failure-IsTracked settings now e row left unsent was =
    let max = settings.outbox_max_attempts in
    elim (Bool-cases (leb max (row.attempts + 1))) [
      | inl last ↦
          subst (IsTracked max) (sym (gives_up settings now e row last))
            (record { counts = (ground arith, refl); stamped = unsent })
      | inr more ↦
          let status = sym (is_pending-eq row.status was) in
          subst (IsTracked max) (sym (tries_again settings now e row more)) (record {
            counts = subst (CountsFit max (waiting now e row)) status (ground arith);
            stamped = unsent ∙ ap is_sent status;
          })
    ]

-- Delivering a pending row keeps it tracked, whatever the network answers.
pub deliver_one-IsTracked :
    (settings : OutboxSettings) (net : Network) (now : ℕ) (row : OutboxMessage)
    → is_pending row.status ≡ true
    → IsTracked settings.outbox_max_attempts row
    → IsTracked settings.outbox_max_attempts (deliver_one settings net now row)
unfolding after_success is_sent
deliver_one-IsTracked settings net now row was v =
    let (left, unsent) = pending_left settings.outbox_max_attempts row v was in
    elim (deliver_one-cases settings net now row) [
      | inl (e, fails) ↦
          subst (IsTracked settings.outbox_max_attempts) (sym fails)
            (after_failure-IsTracked settings now e row left unsent was)
      | inr succeeds ↦
          subst (IsTracked settings.outbox_max_attempts) (sym succeeds)
            (record { counts = (refl, omega arith, omega arith); stamped = refl })
    ]
