-- ===== src/Outbox/Run.antt =====
-- One run of `deliver_pending` of backend/app/services/outbox_service.py.
use Prim.Native.Nat.pow
use registrator_ofid.Base.{
  ℕ, zero, suc, ◌+◌, ◌^◌, ◌≤◌, ◌<◌, ◌≡◌, refl, Bool, true, false, not, ◌&&◌, List, [], ◌∷◌, All,
  arith, Bool-cases, inl, inr, subst, sym, filter, length,
}
use registrator_ofid.Outbox.{
  OutboxMessage, OutboxSettings, Network, deliver_one, is_due, deliver_rows, deliver_pending,
  batch_size,
}
use registrator_ofid.Outbox.Retry.{retry_waits}

-- The rows that a run may take.
abbrev pub takes : (ℕ → Bool) → ℕ → OutboxMessage → Bool
takes locked now row = is_due now row && not (locked row.id)

power_positive : (k : ℕ) → 0 < 2 ^ k
power_positive zero = omega (arith, pow.zero 2)
power_positive (suc k) = omega (arith, pow.suc 2 k, power_positive k)

module _ (p : OutboxMessage → Bool) where
  length-filter_hit :
      (r : OutboxMessage) (rs : List OutboxMessage)
      → p r ≡ true
      → length (filter p (r ∷ rs)) ≡ suc (length (filter p rs))
  length-filter_hit r rs h = rw h refl

  length-filter_miss :
      (r : OutboxMessage) (rs : List OutboxMessage)
      → p r ≡ false
      → length (filter p (r ∷ rs)) ≡ length (filter p rs)
  length-filter_miss r rs h = rw h refl

  none_taken : (rs : List OutboxMessage) → length (filter p rs) ≤ 0 → All (λ r. p r ≡ false) rs
  none_taken [] h = tt
  none_taken (r ∷ rs) h = elim (Bool-cases (p r)) [
    | inl hit ↦ absurd (omega (arith, length-filter_hit r rs hit, h))
    | inr miss ↦ (miss, none_taken rs (omega (arith, length-filter_miss r rs miss, h)))
  ]

module _ (settings : OutboxSettings) (net : Network) (locked : ℕ → Bool) (now : ℕ)
    (moment : ℕ → ℕ) where
  rows_taken :
      (limit : ℕ) (row : OutboxMessage) (rows : List OutboxMessage)
      → takes locked now row ≡ true
      → deliver_rows settings net locked now moment (suc limit) (row ∷ rows) ≡ (
        deliver_one settings net (moment row.id) row
            ∷ (deliver_rows settings net locked now moment limit rows).0,
        (deliver_rows settings net locked now moment limit rows).1 + 1,
      )
  unfolding deliver_rows
  rows_taken limit row rows h = rw h refl

  rows_left :
      (limit : ℕ) (row : OutboxMessage) (rows : List OutboxMessage)
      → takes locked now row ≡ false
      → deliver_rows settings net locked now moment (suc limit) (row ∷ rows) ≡ (
        row ∷ (deliver_rows settings net locked now moment (suc limit) rows).0,
        (deliver_rows settings net locked now moment (suc limit) rows).1,
      )
  unfolding deliver_rows
  rows_left limit row rows h = rw h refl

  -- What a delivery leaves is not due at the moment of the query, if it was made at or after it.
  settled_one :
      (row : OutboxMessage)
      → now ≤ moment row.id
      → is_due now (deliver_one settings net (moment row.id) row) ≡ false
  settled_one row h =
      elim (Bool-cases (is_due now (deliver_one settings net (moment row.id) row))) [
        | inr quiet ↦ quiet
        | inl due ↦
            let (left, time) = retry_waits settings net (moment row.id) now row due in
            absurd (omega (arith, time, h, power_positive row.attempts))
      ]

  unfoldable Settled : ℕ → List OutboxMessage × ℕ → Type 0
  Settled count o = (All (λ r. takes locked now r ≡ false) o.0) × (o.1 ≡ count)

  deliver_rows-Settled :
      (limit : ℕ) (rows : List OutboxMessage)
      → ((id : ℕ) → now ≤ moment id)
      → length (filter (takes locked now) rows) ≤ limit
      → Settled
          (length (filter (takes locked now) rows))
          (deliver_rows settings net locked now moment limit rows)
  unfolding Settled deliver_rows
  deliver_rows-Settled limit [] later fits = (tt, refl)
  deliver_rows-Settled zero (row ∷ rows) later fits =
      (none_taken (takes locked now) (row ∷ rows) fits, omega (arith, fits))
  deliver_rows-Settled (suc limit) (row ∷ rows) later fits =
      elim (Bool-cases (takes locked now row)) [
        | inl hit ↦
            let count = length-filter_hit (takes locked now) row rows hit in
            let (quiet, handled) =
              deliver_rows-Settled limit rows later (omega (arith, count, fits)) in
            let done = settled_one row (later row.id) in
            subst (Settled _) (sym (rows_taken limit row rows hit))
              ((ground arith, quiet), omega (arith, count, handled))
        | inr miss ↦
            let count = length-filter_miss (takes locked now) row rows miss in
            let (quiet, handled) =
              deliver_rows-Settled (suc limit) rows later (omega (arith, count, fits)) in
            subst (Settled _) (sym (rows_left limit row rows miss))
              ((miss, quiet), omega (arith, count, handled))
      ]

-- A run that got the job's lock handles every row that is due and not locked, when these fit in one
-- batch: it returns their number, and leaves none of them due at the moment of its query, at or after
-- which each row is handled.
pub deliver_pending_settles :
    (settings : OutboxSettings) (net : Network) (locked : ℕ → Bool) (now : ℕ) (moment : ℕ → ℕ)
    (rows : List OutboxMessage)
    → ((id : ℕ) → now ≤ moment id)
    → length (filter (takes locked now) rows) ≤ batch_size
    → (All
        (λ r. takes locked now r ≡ false)
        (deliver_pending settings net true locked now moment rows).0)
      × ((deliver_pending settings net true locked now moment rows).1
          ≡ length (filter (takes locked now) rows))
unfolding deliver_pending Settled
deliver_pending_settles settings net locked now moment rows later fits =
    deliver_rows-Settled settings net locked now moment batch_size rows later fits
