-- ===== src/Filing/Tests.antt =====
-- A request filed by `create_request` of backend/app/services/request_service.py.
use registrator_ofid.Workflow.{add_history}
use registrator_ofid.Tracking.{
  after_last_dash, after_prefix, decimal, generate_tracking_no, highest, next_seq, pad5, parse_int,
  prefix_of, text_lt, tracking_no,
}
use registrator_ofid.Models.Status.{is_in, same}
use registrator_ofid.Catalog.{list_auto_reply_files, resolve_service, find_category}
use registrator_ofid.Calendar.{
  add_loop, add_working_time, is_working_day, local_date, local_midnight_after, sla_deadline_from,
}
use registrator_ofid.Calendar.Civil.{month_day, weekday}
use registrator_ofid.Routing.{
  least_loaded, can_receive, faculty_name, find_general_manager, find_registrator_for_faculty,
  find_service_assignee, manages_general, open_load, or_else, service_assignee, resolve_handler,
  resolve_handler_for_student, find_staff_for, bound_employees, is_bound, is_of_department,
}
use registrator_ofid.Base.{refl, none, some, All}
use registrator_ofid.Base.Text.{text, is_space, lstrip, strip}
use registrator_ofid.Samples.{office, friday_noon, student, open_request, value_of, sample_db}
use registrator_ofid.Models.User
use registrator_ofid.Models.User.{User}
use registrator_ofid.Models.Category.{is_general, is_auto_reply}
use registrator_ofid.Models.Request.{Request}
use registrator_ofid.Models.Db.{Db}
use registrator_ofid.Catalog.Coherent.{IsCoherent}
use registrator_ofid.Filing.{
  Submission, Context, create_request, answer_at_once, answer_file, build_request, id_of,
  new_request, routed_comment, settle, with_history, with_row, choose, handler_for,
}
use registrator_ofid.Filing.Filed.{Filed, create_request-Filed}

abbrev form : Submission
form = record {
  category_id = 11;
  service_type_id = some 10;
  title = text " Stipendiya ";
  description = text "Ariza";
  client_ref = none;
  api_client_id = none;
}

abbrev context : Context
context = record {
  calendar = office;
  now = friday_noon;
  year = 2024;
  new_id = 10;
  new_file_id = λ id. id;
  counter = some 1;
}

abbrev outcome : Db × Request
outcome = value_of (sample_db, open_request) (create_request sample_db context student form).0

abbrev filed_db : Db
filed_db = outcome.0

abbrev filed_row : Request
filed_row = outcome.1

IsCoherent-types : All IsCoherent sample_db.categories
unfolding is_auto_reply
IsCoherent-types =
    (record { answers = refl; assigns = refl }, (record { answers = refl; assigns = refl }, tt))

submission_example : Filed sample_db context student form filed_db filed_row
unfolding least_loaded is_space lstrip strip month_day weekday add_loop add_working_time
    is_working_day local_date local_midnight_after sla_deadline_from list_auto_reply_files
    answer_at_once answer_file build_request id_of new_request routed_comment settle with_history
    with_row is_in same User.same_role can_receive faculty_name find_general_manager
    find_registrator_for_faculty find_service_assignee manages_general open_load or_else
    service_assignee after_last_dash after_prefix decimal generate_tracking_no highest next_seq pad5
    parse_int prefix_of text_lt tracking_no add_history create_request choose resolve_service
    find_category handler_for is_auto_reply resolve_handler is_general resolve_handler_for_student
    User.faculty_id find_staff_for User.department_id bound_employees is_bound User.has_role
    is_of_department
submission_example =
    create_request-Filed sample_db context student form {db' = filed_db} {r = filed_row}
      IsCoherent-types refl
