-- ===== src/Lifecycle/Tests.antt =====
-- A request of backend/app that is answered, and one that is worked on.
use registrator_ofid.Base.{◌≡◌, refl, false}
use registrator_ofid.Base.Text.{text, strip}
use registrator_ofid.Samples.{office, friday_noon, staff_member, open_request, value_of}
use registrator_ofid.Models.Status.{in_progress, same, is_in, closed_statuses}
use registrator_ofid.Models.User.{has_role}
use registrator_ofid.Models.Request.{Request}
use registrator_ofid.Workflow.{answer_request, add_history, apply_status}
use registrator_ofid.Workflow.Sound.{IsSound}
use registrator_ofid.Lifecycle.{Step, Reach}
use registrator_ofid.Lifecycle.Sound.{Reach-IsSound}
use registrator_ofid.Lifecycle.Final.{closed_is_final, only_answers_close, IsAnswer}

abbrev answered_request : Request
answered_request =
    value_of open_request
      (answer_request office friday_noon open_request staff_member (text "Tayyor"))

answering : Step open_request answered_request
unfolding answer_request has_role is_in strip apply_status
answering = Step.answered office friday_noon staff_member (text "Tayyor") refl

open-IsSound : IsSound open_request
unfolding is_in same
open-IsSound = record {
  settled = record { closed = refl; answered = refl; answer = refl; paused = refl; warned = refl };
  trail = (refl, refl);
}

sound_example : IsSound answered_request
sound_example = Reach-IsSound (Reach.next Reach.here answering) open-IsSound

final_example : is_in in_progress closed_statuses ≡ false
final_example = closed_is_final answering

closing_example : IsAnswer open_request answered_request
unfolding answer_request is_in has_role strip apply_status add_history
closing_example = only_answers_close answering refl
