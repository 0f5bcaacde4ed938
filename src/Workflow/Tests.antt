-- ===== src/Workflow/Tests.antt =====
-- Runs of backend/app/services/request_service.py on concrete requests.
use registrator_ofid.Calendar.Civil.{month_day, weekday}
use registrator_ofid.Base.{ℕ, ◌+◌, ◌*◌, ◌≡◌, refl, true, [], ◌∷◌, none, some, ◌↔◌, In}
use registrator_ofid.Base.Text.{text}
use registrator_ofid.Http.{ok, is_ok}
use registrator_ofid.Calendar.{
  hour_us, day_us, working_time_between, add_loop, add_working_time, between_loop, is_working_day,
  local_date, local_midnight_after,
}
use registrator_ofid.Models.Status.{returned, same}
use registrator_ofid.Models.Request.{Request}
use registrator_ofid.Workflow.{
  transition_request, resubmit_request, get_request_for_user, find_request, apply_status,
}
use registrator_ofid.Workflow.Clock.{Restarts, resubmit_request-Restarts}
use registrator_ofid.Workflow.Access.{CanSee, get_request_for_user_iff}
use registrator_ofid.Workflow.Permitted.{Permitted, transition_request_iff}
use registrator_ofid.Samples.{
  office, friday_noon, student, staff_member, open_request, returned_request, value_of,
}

-- The student sends it back on the next Monday.
abbrev monday : ℕ
monday = friday_noon + 3 * day_us

abbrev resubmitted : Request
resubmitted = value_of open_request (resubmit_request office monday returned_request student none)

clock_example : Restarts office monday (friday_noon + hour_us) returned_request resubmitted
unfolding resubmit_request same apply_status working_time_between between_loop local_date
    local_midnight_after is_working_day weekday month_day add_working_time add_loop
clock_example =
    resubmit_request-Restarts office monday (friday_noon + hour_us) returned_request student none
      resubmitted refl refl

finds_example : (get_request_for_user (open_request ∷ []) 9 staff_member ≡ ok open_request) ↔ (
    In open_request (open_request ∷ []) × (open_request.id ≡ 9) × CanSee open_request staff_member)
unfolding find_request
finds_example = get_request_for_user_iff (open_request ∷ []) 9 staff_member open_request (refl, tt)

transition_example :
    (is_ok (transition_request office monday open_request staff_member returned (some (text "x")))
      ≡ true)
    ↔ Permitted open_request staff_member returned (some (text "x"))
unfolding same
transition_example =
    transition_request_iff office monday open_request staff_member returned (some (text "x")) refl
