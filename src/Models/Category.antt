-- ===== src/Models/Category.antt =====
-- backend/app/models/category.py: the catalogue's rows and the files of automatic answers.
use registrator_ofid.Base.{ℕ, Bool, true, false, Option}
use registrator_ofid.Base.Text.{Text}

pub data ServiceRouting : Type 0 where
  auto_reply faculty_manager general_manager : ServiceRouting

unfoldable pub is_auto_reply : ServiceRouting → Bool
is_auto_reply auto_reply = true
is_auto_reply faculty_manager = false
is_auto_reply general_manager = false

unfoldable pub is_general : ServiceRouting → Bool
is_general auto_reply = false
is_general faculty_manager = false
is_general general_manager = true

pub record RequestCategory : Type 0 where
  pub id : ℕ
  pub parent_id : Option ℕ
  pub name : Text
  pub description : Option Text
  pub sla_hours : ℕ
  pub priority : Text
  pub routing : ServiceRouting
  pub auto_reply_text : Option Text
  pub auto_reply_description : Option Text
  pub assignee_id : Option ℕ
  pub is_active : Bool
  pub icon : Option Text

pub record AutoReplyFile : Type 0 where
  pub id : ℕ
  pub category_id : ℕ
  pub uploaded_by : ℕ
  pub file_path : Text
  pub file_name : Text
  pub file_size : ℕ
  pub mime_type : Text
  pub created_at : ℕ
