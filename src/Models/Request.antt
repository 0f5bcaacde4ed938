-- ===== src/Models/Request.antt =====
-- backend/app/models/request.py: a request with the rows that belong to it, oldest first. Moments are
-- those of the SLA calendar.
use registrator_ofid.Base.{ℕ, Bool, Option, List}
use registrator_ofid.Base.Text.{Text}
use registrator_ofid.Models.Status.{Status}

pub record RequestHistory : Type 0 where
  pub request_id : ℕ
  pub changed_by : Option ℕ
  pub old_status : Option Status
  pub new_status : Status
  pub comment : Option Text
  pub created_at : ℕ

pub record RequestFile : Type 0 where
  pub id : ℕ
  pub uploaded_by : ℕ
  pub file_path : Text
  pub file_name : Text
  pub file_size : ℕ
  pub mime_type : Text
  pub is_answer : Bool
  pub created_at : ℕ

pub record Message : Type 0 where
  pub id : ℕ
  pub sender_id : ℕ
  pub content : Text
  pub is_internal : Bool
  pub created_at : ℕ

pub record Request : Type 0 where
  pub id : ℕ
  pub tracking_no : Text
  pub student_id : ℕ
  pub category_id : ℕ
  pub title : Text
  pub description : Text
  pub status : Status
  pub priority : Text
  pub assigned_to : Option ℕ
  pub faculty_id : Option ℕ
  pub department_id : Option ℕ
  pub sla_deadline : ℕ
  pub closed_at : Option ℕ
  pub sla_warned_at : Option ℕ
  pub sla_breached_at : Option ℕ
  pub sla_paused_at : Option ℕ
  pub client_ref : Option Text
  pub api_client_id : Option ℕ
  pub answer_text : Option Text
  pub answer_description : Option Text
  pub answered_at : Option ℕ
  pub answered_by : Option ℕ
  pub created_at : ℕ
  pub history : List RequestHistory
  pub files : List RequestFile
  pub messages : List Message
