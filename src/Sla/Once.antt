-- ===== src/Sla/Once.antt =====
-- Each stage of backend/app/services/sla_service.py is reported once.
use registrator_ofid.Base.{ℕ, ◌≡◌, inl, inr, true, false, arith, Bool-cases}
use registrator_ofid.Models.Request.{Request}
use registrator_ofid.Models.Db.{Db}
use registrator_ofid.Workflow.{add_history}
use registrator_ofid.Sla.{is_due, is_breached, mark, notify, sweep_one}

-- A row that a sweep has handled is due at a later moment only for its breach, and only when what
-- was reported before was the warning.
sweep_one_once :
    (db : Db) (now later warn : ℕ) (r : Request)
    → is_due now warn r ≡ true
    → is_due later warn (sweep_one db now r).request ≡ true
    → (is_breached now r ≡ false) × (is_breached later r ≡ true)
unfolding is_due is_breached sweep_one mark notify add_history
sweep_one_once db now later warn r due again = elim (Bool-cases (is_breached now r)) [
  | inl late ↦ absurd (ground arith)
  | inr early ↦ (early, ground arith)
]

-- At the moment of the sweep it is not due any more.
pub sweep_one_settles :
    (db : Db) (now warn : ℕ) (r : Request)
    → is_due now warn r ≡ true
    → is_due now warn (sweep_one db now r).request ≡ false
sweep_one_settles db now warn r due =
    elim (Bool-cases (is_due now warn (sweep_one db now r).request)) [
      | inl again ↦
          let (early, late) = sweep_one_once db now now warn r due again in absurd (ground arith)
      | inr settled ↦ settled
    ]

pub sweep_one_id : (db : Db) (now : ℕ) (r : Request) → (sweep_one db now r).request.id ≡ r.id
unfolding sweep_one mark notify add_history
sweep_one_id db now r = elim (Bool-cases (is_breached now r)) [
  | inl e ↦ ground arith
  | inr e ↦ ground arith
]
