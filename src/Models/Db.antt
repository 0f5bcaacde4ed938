-- ===== src/Models/Db.antt =====
-- The tables that the modelled services read and write. Each lists its rows by ascending primary key,
-- so `order_by(id)` keeps the order and a new row goes to the end.
use registrator_ofid.Base.{ℕ, List, Option}
use registrator_ofid.Base.Text.{Text}
use registrator_ofid.Models.User.{User}
use registrator_ofid.Models.Category.{RequestCategory, AutoReplyFile}
use registrator_ofid.Models.Request.{Request}

pub record Db : Type 0 where
  pub users : List User
  pub faculty_names : List (ℕ × Text)
  -- `Department.head_user_id` by department.
  pub department_heads : List (ℕ × Option ℕ)
  pub department_names : List (ℕ × Text)
  pub categories : List RequestCategory
  pub auto_reply_files : List AutoReplyFile
  pub requests : List Request
