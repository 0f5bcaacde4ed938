-- ===== src/Views.antt =====
-- backend/app/schemas/request.py: what a caller is shown of a request. The outputs keep the columns of
-- the rows that they copy.
pub mod Names
pub mod Plain
mod Tests
use registrator_ofid.Base.{
  ℕ, Bool, true, false, not, ◌&&◌, ◌==◌, ltb, List, [], ◌∷◌, ◌++◌, Option, none, some,
  if◌then◌else◌, filter, map,
}
use registrator_ofid.Base.Text.{Text, or_empty}
use registrator_ofid.Models.Status.{Status, is_in, sla_running_statuses}
use registrator_ofid.Models.User.{User, Role}
use registrator_ofid.Models.Category.{RequestCategory}
use registrator_ofid.Models.Request.{Request, RequestHistory, RequestFile, Message}
use registrator_ofid.Models.Db.{Db}
use registrator_ofid.Catalog.{find_category}
use registrator_ofid.Workflow.{find_user}

pub record MessageOut : Type 0 where
  pub row : Message
  pub sender_name : Option Text
  pub sender_role : Option Role

pub record RequestHistoryOut : Type 0 where
  pub row : RequestHistory
  pub changed_by_name : Option Text
  pub changed_by_role : Option Role

pub record RequestAnswerOut : Type 0 where
  pub text : Text
  pub description : Option Text
  pub answered_at : ℕ
  pub answered_by : Option ℕ
  pub answered_by_name : Option Text
  pub files : List RequestFile

pub record UserMini : Type 0 where
  pub id : ℕ
  pub full_name : Text
  pub email : Option Text

-- The columns of a list, with the badge; `updated_at`, which the database sets, is left out.
pub record RequestSummary : Type 0 where
  pub id : ℕ
  pub tracking_no : Text
  pub title : Text
  pub status : Status
  pub priority : Text
  pub category_id : ℕ
  pub student_id : ℕ
  pub assigned_to : Option ℕ
  pub faculty_id : Option ℕ
  pub department_id : Option ℕ
  pub sla_deadline : ℕ
  pub sla_paused_at : Option ℕ
  pub client_ref : Option Text
  pub created_at : ℕ
  pub closed_at : Option ℕ
  pub is_overdue : Bool

pub record RequestDetail : Type 0 where
  pub summary : RequestSummary
  pub description : Text
  pub category : Option RequestCategory
  pub service_type : Option RequestCategory
  pub student : Option UserMini
  pub assignee : Option UserMini
  pub history : List RequestHistoryOut
  pub files : List RequestFile
  pub messages : List MessageOut
  pub answer : Option RequestAnswerOut

-- `RequestSummary.is_overdue`
unfoldable pub is_overdue : ℕ → Request → Bool
is_overdue now req =
    if is_in req.status sla_running_statuses then ltb req.sla_deadline now else false

unfoldable pub summary_of : ℕ → Request → RequestSummary
unfolding is_overdue
summary_of now req = record {
  id = req.id;
  tracking_no = req.tracking_no;
  title = req.title;
  status = req.status;
  priority = req.priority;
  category_id = req.category_id;
  student_id = req.student_id;
  assigned_to = req.assigned_to;
  faculty_id = req.faculty_id;
  department_id = req.department_id;
  sla_deadline = req.sla_deadline;
  sla_paused_at = req.sla_paused_at;
  client_ref = req.client_ref;
  created_at = req.created_at;
  closed_at = req.closed_at;
  is_overdue = is_overdue now req;
}

-- The user of an optional key, as a relationship loads it.
unfoldable pub load_user : List User → Option ℕ → Option User
unfolding find_user
load_user users none = none
load_user users (some id) = find_user users id

unfoldable pub mini : Option User → Option UserMini
mini none = none
mini (some u) = some (record { id = u.id; full_name = u.full_name; email = u.email })

-- The dictionary `people`: the latest entry first.
unfoldable pub add_person : Option User → List User → List User
add_person none people = people
add_person (some u) people = u ∷ people

unfoldable pub add_people : List User → List (Option ℕ) → List User → List User
unfolding add_person load_user
add_people users [] people = people
add_people users (key ∷ keys) people =
    add_people users keys (add_person (load_user users key) people)

-- The keys whose users the loops of `_fill_actor_names` add, in their order.
abbrev pub author_keys : Request → List (Option ℕ)
author_keys req =
    some req.student_id ∷ req.assigned_to ∷ map (λ m. some m.sender_id) req.messages
    ++ map (λ h. h.changed_by) req.history

unfoldable pub people_of : List User → Request → List User
unfolding add_people
people_of users req = add_people users (author_keys req) []

-- `describe`
unfoldable pub name_of : Option User → Option Text
name_of none = none
name_of (some u) = some u.full_name

unfoldable pub role_of : Option User → Option Role
role_of none = none
role_of (some u) = u.role

-- An output with the name and the role of its author.
unfoldable pub signed_message : Message → Option User → MessageOut
unfolding name_of role_of
signed_message m author = record {
  row = m;
  sender_name = name_of author;
  sender_role = role_of author;
}

unfoldable pub signed_entry : RequestHistory → Option User → RequestHistoryOut
unfolding name_of role_of
signed_entry h actor = record {
  row = h;
  changed_by_name = name_of actor;
  changed_by_role = role_of actor;
}

unfoldable pub message_out : List User → Message → MessageOut
unfolding signed_message
message_out people m = signed_message m (find_user people m.sender_id)

unfoldable pub history_out : List User → RequestHistory → RequestHistoryOut
unfolding signed_entry load_user
history_out people h = signed_entry h (load_user people h.changed_by)

unfoldable pub parent_of : List RequestCategory → Option RequestCategory → Option RequestCategory
unfolding find_category
parent_of categories none = none
parent_of categories (some c) = elim c.parent_id [
  | none ↦ none
  | some id ↦ find_category categories id
]

unfoldable pub answer_of : List User → Request → Option ℕ → Option RequestAnswerOut
unfolding name_of load_user
answer_of users req none = none
answer_of users req (some answered_at) = some (record {
  text = or_empty req.answer_text;
  description = req.answer_description;
  answered_at = answered_at;
  answered_by = req.answered_by;
  answered_by_name = name_of (load_user users req.answered_by);
  files = filter (λ f. f.is_answer) req.files;
})

-- The messages of a detail.
unfoldable pub visible_messages : Bool → List Message → List Message
visible_messages include_internal messages =
    if include_internal then messages else filter (λ m. not m.is_internal) messages

-- `RequestDetail.for_viewer`
unfoldable pub for_viewer : Db → ℕ → Request → Bool → RequestDetail
unfolding visible_messages message_out history_out people_of parent_of answer_of find_category
    summary_of mini load_user
for_viewer db now req include_internal =
    let people = people_of db.users req in
    let category = find_category db.categories req.category_id in
    record {
      summary = summary_of now req;
      description = req.description;
      category = category;
      service_type = parent_of db.categories category;
      student = mini (find_user db.users req.student_id);
      assignee = mini (load_user db.users req.assigned_to);
      history = map (history_out people) req.history;
      files = req.files;
      messages = map (message_out people) (visible_messages include_internal req.messages);
      answer = answer_of db.users req req.answered_at;
    }
