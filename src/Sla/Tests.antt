-- ===== src/Sla/Tests.antt =====
-- Sweeps of backend/app/services/sla_service.py over concrete requests.
use registrator_ofid.Workflow.{add_history}
use registrator_ofid.Base.{ℕ, ◌+◌, ◌*◌, ◌≡◌, refl, true, false, some, ◌⊎◌, inl, inr, ◌↔◌, In, arith}
use registrator_ofid.Samples.{friday_noon, registrar, open_request, sample_db}
use registrator_ofid.Calendar.{hour_us, day_us}
use registrator_ofid.Models.Status.{is_in}
use registrator_ofid.Models.User.{has_role}
use registrator_ofid.Models.Request.{Request}
use registrator_ofid.Sla.{
  Notice, is_due, is_breached, sweep_one, recipients, is_registrator, department_head_id,
  sweep_sla_deadlines, batch, mark, notify, replace, sweep_loop,
}
use registrator_ofid.Sla.Told.{Responsible, recipients_iff, breach_is_told}
use registrator_ofid.Sla.Sweep.{sweep_sla_deadlines_settles}

-- Shortly before and shortly after the deadline.
abbrev near : ℕ
near = friday_noon + 2 * day_us + 23 * hour_us

abbrev late : ℕ
late = friday_noon + 3 * day_us + hour_us

recipients_example :
    (In (registrar.id) (recipients sample_db open_request false)
      ↔ (open_request.assigned_to ≡ some registrar.id))
    × (In (registrar.id) (recipients sample_db open_request true) ↔ (
        (open_request.assigned_to ≡ some registrar.id)
        ⊎ ((department_head_id sample_db open_request.department_id ≡ some registrar.id)
            ⊎ Responsible sample_db open_request.faculty_id registrar.id)))
recipients_example = recipients_iff sample_db open_request registrar.id

told_example :
    (n : Notice) × In n (sweep_one sample_db late open_request).notices
    × (n.request_id ≡ open_request.id)
    × (n.sla_breached ≡ true)
unfolding is_registrator has_role is_breached
told_example = breach_is_told sample_db late open_request registrar (inr (inr (inl refl))) refl refl

abbrev swept_row : Request
swept_row = (sweep_one sample_db late open_request).request

settles_example : is_due late (4 * hour_us) swept_row ≡ false
unfolding is_due is_in sweep_sla_deadlines sweep_loop batch replace sweep_one mark is_breached
    notify add_history
settles_example =
    sweep_sla_deadlines_settles sample_db late (4 * hour_us) swept_row (omega arith) (inl refl)
