-- ===== src/Endpoints/Tests.antt =====
-- The handlers of backend/app/api/v1/requests.py on concrete requests.
use registrator_ofid.Workflow.{add_history}
use registrator_ofid.Base.Text.{strip, lstrip, is_space}
use registrator_ofid.Thread.{attach_file}
use registrator_ofid.Sessions.{require_roles}
use registrator_ofid.Routing.{least_loaded}
use registrator_ofid.Base.Text.{is_space}
use registrator_ofid.Base.Text.{lstrip}
use registrator_ofid.Base.Text.{strip}
use registrator_ofid.Calendar.Civil.{month_day}
use registrator_ofid.Calendar.Civil.{weekday}
use registrator_ofid.Calendar.{add_loop}
use registrator_ofid.Calendar.{add_working_time}
use registrator_ofid.Calendar.{is_working_day}
use registrator_ofid.Calendar.{local_date}
use registrator_ofid.Calendar.{local_midnight_after}
use registrator_ofid.Calendar.{sla_deadline_from}
use registrator_ofid.Catalog.{list_auto_reply_files}
use registrator_ofid.Filing.{answer_at_once}
use registrator_ofid.Filing.{answer_file}
use registrator_ofid.Filing.{build_request}
use registrator_ofid.Filing.{id_of}
use registrator_ofid.Filing.{new_request}
use registrator_ofid.Filing.{routed_comment}
use registrator_ofid.Filing.{settle}
use registrator_ofid.Filing.{with_history}
use registrator_ofid.Filing.{with_row}
use registrator_ofid.Models.Status.{is_in}
use registrator_ofid.Models.Status.{same}
use registrator_ofid.Routing.{can_receive}
use registrator_ofid.Routing.{faculty_name}
use registrator_ofid.Routing.{find_general_manager}
use registrator_ofid.Routing.{find_registrator_for_faculty}
use registrator_ofid.Routing.{find_service_assignee}
use registrator_ofid.Routing.{manages_general}
use registrator_ofid.Routing.{open_load}
use registrator_ofid.Routing.{or_else}
use registrator_ofid.Routing.{service_assignee}
use registrator_ofid.Tracking.{after_last_dash}
use registrator_ofid.Tracking.{after_prefix}
use registrator_ofid.Tracking.{decimal}
use registrator_ofid.Tracking.{generate_tracking_no}
use registrator_ofid.Tracking.{highest}
use registrator_ofid.Tracking.{next_seq}
use registrator_ofid.Tracking.{pad5}
use registrator_ofid.Tracking.{parse_int}
use registrator_ofid.Tracking.{prefix_of}
use registrator_ofid.Tracking.{text_lt}
use registrator_ofid.Tracking.{tracking_no}
use registrator_ofid.Workflow.{add_history, answer_request, assert_can_answer, get_request_for_user}
use registrator_ofid.Filing.{create_request}
use registrator_ofid.Filing.{choose}
use registrator_ofid.Catalog.{resolve_service}
use registrator_ofid.Catalog.{find_category}
use registrator_ofid.Filing.{handler_for}
use registrator_ofid.Models.Category.{is_auto_reply}
use registrator_ofid.Routing.{resolve_handler}
use registrator_ofid.Models.Category.{is_general}
use registrator_ofid.Routing.{resolve_handler_for_student}
use registrator_ofid.Routing.{find_staff_for}
use registrator_ofid.Routing.{bound_employees}
use registrator_ofid.Routing.{is_bound}
use registrator_ofid.Routing.{is_of_department}
use registrator_ofid.Endpoints.{
  create, file_new, already_filed, find_by_client_ref, has_ref, reply_with, detail_for, reloaded,
  sees_internal,
}
use registrator_ofid.Actions.{
  file_request, submission, client_key, client_name, announce_filed, notify_handler,
  notify_assigned, notify_assignee,
}
use registrator_ofid.Work.{
  log_action, notify_user, create_notification, email_to, send_to, render, join, request_link,
  publish,
}
use registrator_ofid.Workflow.{find_user, find_request}
use registrator_ofid.Outbox.{enqueue_email, enqueue_webhook}
use registrator_ofid.Views.{for_viewer}
use registrator_ofid.Base.{◌≡◌, refl, true, false, [], ◌∷◌, none, some, length}
use registrator_ofid.Base.Text.{text}
use registrator_ofid.Http.{ok, err, http, answer_text_missing, no_internal_notes}
use registrator_ofid.Models.User
use registrator_ofid.Models.User.{User}
use registrator_ofid.Samples.{
  office, friday_noon, student, staff_member, open_request, sample_db, value_of,
}
use registrator_ofid.Filing.{Context}
use registrator_ofid.Files.{Storage, Upload, save_upload}
use registrator_ofid.Views.{RequestDetail, MessageOut, for_viewer}
use registrator_ofid.Work.{Env, Work}
use registrator_ofid.Actions.{RequestCreate}
use registrator_ofid.Endpoints.{Replied, create, get_detail, add_message, sees_internal}
use registrator_ofid.Endpoints.Answer.{answer}
use registrator_ofid.Endpoints.Internal.{internal_note_unseen}
use registrator_ofid.Endpoints.Idempotent.{create_idempotent}

abbrev env : Env
env = record {
  outbox_settings = record {
    webhook_url = text "https://partner.uz/hook";
    outbox_max_attempts = 5;
  };
  public_base_url = text "https://royd.uz/";
  now = friday_noon;
  new_key = λ count. count;
  envelope_id = λ count. count ∷ [];
  file_token = λ count. text "0a1b2c3d4e5f6071";
  json = λ data_row. data_row.tracking_no;
  isoformat = λ moment. moment ∷ [];
  html = λ title lines link. title;
}

abbrev work : Work
work = record { db = sample_db; audit_logs = []; notifications = []; outbox = []; pushed = [] }

abbrev context : Context
context = record {
  calendar = office;
  now = friday_noon;
  year = 2024;
  new_id = 10;
  new_file_id = λ id. id;
  counter = some 1;
}

abbrev form : RequestCreate
form = record {
  category_id = 11;
  service_type_id = some 10;
  title = text "Stipendiya";
  description = text "Ariza";
}

abbrev blank_detail : RequestDetail
blank_detail = for_viewer sample_db friday_noon open_request false

abbrev blank_reply : Replied RequestDetail
blank_reply = record { status_code = 0; work = work; body = blank_detail }

abbrev filed : Replied RequestDetail
filed = value_of blank_reply (create env work context student form (some (text "key-1"))).0

idempotent_example :
    (again : Replied RequestDetail) × (create env filed.work context student form
        (some (text "key-1"))
      ≡ (ok again, some 1))
    × (again.status_code ≡ 200)
    × (again.work ≡ filed.work)
    × (again.body.summary.id ≡ filed.body.summary.id)
unfolding least_loaded is_space lstrip strip month_day weekday add_loop add_working_time
    is_working_day local_date local_midnight_after sla_deadline_from list_auto_reply_files
    answer_at_once answer_file build_request id_of new_request routed_comment settle with_history
    with_row is_in same User.same_role can_receive faculty_name find_general_manager
    find_registrator_for_faculty find_service_assignee manages_general open_load or_else
    service_assignee after_last_dash after_prefix decimal generate_tracking_no highest next_seq pad5
    parse_int prefix_of text_lt tracking_no add_history create_request choose resolve_service
    find_category handler_for is_auto_reply resolve_handler is_general resolve_handler_for_student
    User.faculty_id find_staff_for User.department_id bound_employees is_bound User.has_role
    is_of_department create file_new already_filed find_by_client_ref has_ref reply_with detail_for
    reloaded sees_internal file_request submission client_key client_name announce_filed
    notify_handler notify_assigned notify_assignee log_action notify_user create_notification
    email_to send_to render join request_link publish find_user find_request enqueue_email
    enqueue_webhook for_viewer
idempotent_example =
    create_idempotent env env work context context student form form (text "key-1") filed refl refl

abbrev blank_message : Replied MessageOut
blank_message = record {
  status_code = 0;
  work = work;
  body = record {
    row = record { id = 0; sender_id = 0; content = []; is_internal = false; created_at = 0 };
    sender_name = none;
    sender_role = none;
  };
}

abbrev noted : Replied MessageOut
noted = value_of blank_message (add_message env work 9 (text "Tekshirilsin") true staff_member)

internal_example :
    (sees_internal staff_member ≡ true)
    × (noted.work.notifications ≡ [])
    × (noted.work.outbox ≡ [])
    × (noted.work.pushed ≡ [])
    × (get_detail env noted.work 9 student ≡ get_detail env work 9 student)
unfolding add_message get_request_for_user User.has_role
internal_example =
    internal_note_unseen env work 9 (text "Tekshirilsin") staff_member student 9 noted refl refl

by_student :
    add_message env work 9 (text "Tekshirilsin") true student ≡ err (http 403 no_internal_notes)
unfolding add_message get_request_for_user User.has_role
by_student = refl

abbrev storage : Storage
storage = record { root = text "srv" ∷ []; max_upload_mb = 20; resolve = λ path. path }

abbrev certificate : Upload
certificate = record {
  filename = some (text "javob.pdf");
  content_type = some (text "application/pdf");
  content = text "%PDF-1.7";
}

abbrev answered : Replied RequestDetail
answered =
    value_of blank_reply
      (answer env office storage work [] 9 (text "Tayyor") (certificate ∷ []) staff_member).0

-- A text that is blank is refused, but only once the files are on the disk.
blank_answer :
    let (reply, disk) =
      answer env office storage work [] 9 (text "  ") (certificate ∷ []) staff_member in
    (reply ≡ err (http 422 answer_text_missing)) × (length disk ≡ 1)
unfolding answer require_roles User.has_role get_request_for_user assert_can_answer is_in
    attach_file save_upload strip answer_request
blank_answer = (refl, refl)
