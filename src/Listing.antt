-- ===== src/Listing.antt =====
-- `list_requests` of backend/app/api/v1/requests.py: the requests that a user may see, filtered, by
-- pages. Rows that were made at one moment keep their order in the table.
pub mod Latest
pub mod Pages
mod Tests
use registrator_ofid.Base.{
  ℕ, zero, suc, ◌+◌, Bool, true, false, not, ◌&&◌, ◌||◌, ◌==◌, ltb, List, [], ◌∷◌, ◌++◌, Option,
  none, some, if◌then◌else◌, filter, map, length, take, drop, is_some,
}
use registrator_ofid.Base.Text.{Text, text, is_nonempty}
use registrator_ofid.Http.{Result, ok, ◌>>=◌, ◌>>◌, raise_if, unknown_filter}
use registrator_ofid.Models.Status.{
  Status, same, is_in, all_statuses, sla_running_statuses, unknown,
}
use registrator_ofid.Models.User.{User, has_role}
use registrator_ofid.Models.User
use registrator_ofid.Models.Request.{Request}
use registrator_ofid.Workflow.{is_id}
use registrator_ofid.Views.{RequestSummary, summary_of}

-- The query parameters; `limit` is from 1 to 200, which the framework checks.
pub record Query : Type 0 where
  pub status : Option Status
  pub faculty_id : Option ℕ
  pub category_id : Option ℕ
  pub assigned_to : Option ℕ
  pub unassigned : Option Bool
  pub overdue : Option Bool
  pub search : Option Text
  pub limit : ℕ
  pub offset : ℕ

-- `Page[RequestSummary]`
pub record Page : Type 0 where
  pub items : List RequestSummary
  pub total : ℕ
  pub limit : ℕ
  pub offset : ℕ

-- The first filters: those of the role.
unfoldable pub role_keeps : User → Request → Bool
role_keeps user r =
    if has_role user (User.student ∷ [])
    then r.student_id == user.id
    else if has_role user (User.staff ∷ [])
    then is_id r.assigned_to user.id
    else true

-- A filter that is used when its parameter is given.
abbrev pub when_given : {A : Type 0} → Option A → (A → Bool) → Bool
when_given none test = true
when_given (some a) test = test a

-- A flag that is used when it is true.
abbrev pub when_set : Option Bool → Bool → Bool
when_set none test = true
when_set (some false) test = true
when_set (some true) test = test

-- `if search:`
abbrev pub when_text : Option Text → (Text → Bool) → Bool
when_text none test = true
when_text (some []) test = true
when_text (some (c ∷ s)) test = test (c ∷ s)

abbrev percent : Text
percent = text "%"

-- The filters of the query, where `ilike` is the operator of the database, of a value and a pattern.
unfoldable pub query_keeps : (Text → Text → Bool) → ℕ → Query → Request → Bool
query_keeps ilike now q r =
    when_given q.status (same r.status)
    && when_given q.faculty_id (is_id r.faculty_id)
    && when_given q.category_id (λ id. r.category_id == id)
    && when_given q.assigned_to (is_id r.assigned_to)
    && when_set q.unassigned (not (is_some r.assigned_to))
    && when_set q.overdue (is_in r.status sla_running_statuses && ltb r.sla_deadline now)
    && when_text q.search (λ s.
      let like = percent ++ s ++ percent in
      ilike r.title like || ilike r.description like || ilike r.tracking_no like)

unfoldable pub keeps : (Text → Text → Bool) → ℕ → Query → User → Request → Bool
unfolding role_keeps query_keeps
keeps ilike now q user r = role_keeps user r && query_keeps ilike now q r

-- `order_by(created_at.desc())`
unfoldable pub insert_latest : Request → List Request → List Request
insert_latest r [] = r ∷ []
insert_latest r (q ∷ qs) =
    let rest = insert_latest r qs in if ltb r.created_at q.created_at then q ∷ rest else r ∷ q ∷ qs

unfoldable pub latest_first : List Request → List Request
unfolding insert_latest
latest_first [] = []
latest_first (r ∷ rs) = insert_latest r (latest_first rs)

-- The rows of the second query.
unfoldable pub page_rows : (Text → Text → Bool) → ℕ → List Request → Query → User → List Request
unfolding keeps latest_first
page_rows ilike now requests q user =
    take q.limit (drop q.offset (latest_first (filter (keeps ilike now q user) requests)))

unfoldable pub known_status : Query → Bool
known_status q = when_given q.status (λ s. is_in s all_statuses)

abbrev pub spelling : Option Status → Text
spelling (some (unknown t)) = t
spelling _ = []

unfoldable pub list_requests : (Text → Text → Bool) → ℕ → List Request → Query → User → Result Page
unfolding page_rows known_status keeps
list_requests ilike now requests q user = do
  raise_if (not (known_status q)) 422 (unknown_filter (spelling q.status))
  let total = length (filter (keeps ilike now q user) requests)
  ok (record {
    items = map (summary_of now) (page_rows ilike now requests q user);
    total = total;
    limit = q.limit;
    offset = q.offset;
  })
