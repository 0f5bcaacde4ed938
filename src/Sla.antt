-- ===== src/Sla.antt =====
-- backend/app/services/sla_service.py: the periodic sweep over running requests. The claim of the
-- job's lock is an argument, since it is Redis that grants it.
pub mod Once
pub mod Sets
pub mod Told
pub mod Sweep
mod Tests
use registrator_ofid.Base.{
  ℕ, zero, suc, ◌+◌, ◌-◌, ◌/◌, Bool, true, false, not, ◌&&◌, ◌||◌, ◌==◌, ltb, leb, List, [], ◌∷◌,
  ◌++◌, Option, none, some, if◌then◌else◌, filter, length, map, any, is_some, take,
}
use registrator_ofid.Base.Text.{Text, text, is_nonempty}
use registrator_ofid.Calendar.{hour_us}
use registrator_ofid.Models.Status.{Status, is_in, sla_running_statuses}
use registrator_ofid.Models.User.{User, Employee, has_role}
use registrator_ofid.Models.User
use registrator_ofid.Models.Request.{Request, RequestHistory}
use registrator_ofid.Models.Db.{Db}
use registrator_ofid.Routing.{is_id, is_bound}
use registrator_ofid.Tracking.{decimal}
use registrator_ofid.Workflow.{add_history}

-- A notification of the sweep to one user, and an email to one address.
pub record Notice : Type 0 where
  pub user_id : ℕ
  pub title : Text
  pub body : Text
  pub request_id : ℕ
  pub tracking_no : Text
  pub sla_breached : Bool

pub record Email : Type 0 where
  pub address : Text
  pub subject : Text

-- A Python set of ids, as a list without repetitions.
unfoldable pub add_id : ℕ → List ℕ → List ℕ
add_id id ids = if any (λ i. i == id) ids then ids else id ∷ ids

unfoldable pub set_of : List ℕ → List ℕ
unfolding add_id
set_of [] = []
set_of (i ∷ is) = add_id i (set_of is)

unfoldable pub is_registrator : User → Bool
is_registrator u = has_role u (User.registrator ∷ []) && u.is_active

unfoldable pub ids_that : (User → Bool) → List User → List ℕ
ids_that p users = map (λ u. u.id) (filter p users)

unfoldable pub or_all : List ℕ → List ℕ → List ℕ
or_all [] everybody = everybody
or_all (i ∷ is) everybody = set_of (i ∷ is)

-- `_faculty_registrator_ids`
unfoldable pub faculty_registrator_ids : Db → Option ℕ → List ℕ
unfolding ids_that or_all set_of
faculty_registrator_ids db none = set_of (ids_that is_registrator db.users)
faculty_registrator_ids db (some faculty) =
    or_all (ids_that (is_bound User.registrator faculty) db.users)
      (set_of (ids_that is_registrator db.users))

head_in : List (ℕ × Option ℕ) → ℕ → Option ℕ
head_in [] id = none
head_in ((i, head) ∷ rest) id = if i == id then head else head_in rest id

-- `_department_head_id`
unfoldable pub department_head_id : Db → Option ℕ → Option ℕ
unfolding head_in
department_head_id db none = none
department_head_id db (some id) = head_in db.department_heads id

unfoldable pub add_optional : Option ℕ → List ℕ → List ℕ
unfolding add_id
add_optional none ids = ids
add_optional (some i) ids = add_id i ids

unfoldable pub recipients : Db → Request → Bool → List ℕ
unfolding add_optional
recipients db req breached = add_optional req.assigned_to (
    if breached
    then add_optional (department_head_id db req.department_id)
        (faculty_registrator_ids db req.faculty_id)
    else [])

notice_title : Request → Bool → Text
notice_title req breached =
    (if breached then text "SLA buzildi: " else text "SLA muddati yaqin: ") ++ req.tracking_no

notice_body : Request → Bool → ℕ → Text
notice_body req breached now =
    text "'"
    ++ req.title
    ++ (if breached
        then text "' murojaati muddatidan "
          ++ decimal ((now - req.sla_deadline) / hour_us)
          ++ text " soat o'tdi."
        else text "' murojaati muddati tez orada tugaydi.")

-- The addresses of the recipients, as the query of `_notify` finds them.
emails_of : List User → List ℕ → Text → List Email
emails_of [] ids subject = []
emails_of (u ∷ us) ids subject =
    let rest = emails_of us ids subject in
    elim u.email [
      | none ↦ rest
      | some address ↦
          if is_nonempty address && any (λ i. i == u.id) ids
          then record { address = address; subject = subject } ∷ rest
          else rest
    ]

pub record Notified : Type 0 where
  pub request : Request
  pub notices : List Notice
  pub emails : List Email

-- `_notify`
unfoldable pub notify : Db → Request → Bool → ℕ → Notified
unfolding notice_title notice_body emails_of
notify db req breached now =
    let title = notice_title req breached in
    let body = notice_body req breached now in
    let ids = recipients db req breached in
    record {
      request =
          add_history req none (some req.status) req.status
            (some ((if breached then text "[sla-breach] " else text "[sla-warning] ") ++ body)) now;
      notices =
          map
            (λ id. record {
              user_id = id;
              title = title;
              body = body;
              request_id = req.id;
              tracking_no = req.tracking_no;
              sla_breached = breached;
            })
            ids;
      emails = emails_of db.users ids title;
    }

-- The `where` of the sweep's query.
unfoldable pub is_due : ℕ → ℕ → Request → Bool
is_due now warn_before r =
    is_in r.status sla_running_statuses
    && not (is_some r.sla_breached_at)
    && (ltb r.sla_deadline now
        || (ltb r.sla_deadline (now + warn_before) && not (is_some r.sla_warned_at)))

unfoldable pub is_breached : ℕ → Request → Bool
is_breached now r = ltb r.sla_deadline now

unfoldable pub or_now : Option ℕ → ℕ → Option ℕ
or_now none now = some now
or_now (some t) now = some t

-- The marks that the sweep sets, once the request was notified of.
unfoldable pub mark : ℕ → Bool → Request → Request
unfolding or_now
mark now breached r =
    if breached
    then record r { sla_breached_at = some now; sla_warned_at = or_now r.sla_warned_at now }
    else record r { sla_warned_at = some now }

-- One round of the sweep's loop.
unfoldable pub sweep_one : Db → ℕ → Request → Notified
sweep_one db now r =
    let breached = is_breached now r in
    let n = notify db r breached now in record n { request = mark now breached n.request }

unfoldable pub insert_request : Request → List Request → List Request
insert_request r [] = r ∷ []
insert_request r (q ∷ qs) =
    let rest = insert_request r qs in
    if leb r.sla_deadline q.sla_deadline then r ∷ q ∷ qs else q ∷ rest

unfoldable pub sort_by_deadline : List Request → List Request
sort_by_deadline [] = []
sort_by_deadline (r ∷ rs) = insert_request r (sort_by_deadline rs)

-- `_BATCH`
abbrev pub batch_size : ℕ
batch_size = 200

-- The rows that one sweep handles: the earliest deadlines first.
unfoldable pub batch : Db → ℕ → ℕ → List Request
unfolding sort_by_deadline insert_request
batch db now warn_before =
    take batch_size (sort_by_deadline (filter (is_due now warn_before) db.requests))

pub record Swept : Type 0 where
  pub requests : List Request
  pub notices : List Notice
  pub emails : List Email
  pub breached : ℕ
  pub warned : ℕ

-- Writes a row back in place of the one with its key.
unfoldable pub replace : Request → List Request → List Request
replace r [] = []
replace r (q ∷ qs) = (if q.id == r.id then r else q) ∷ replace r qs

unfoldable pub sweep_loop : Db → ℕ → List Request → Swept → Swept
sweep_loop db now [] s = s
sweep_loop db now (r ∷ rs) s =
    let n = sweep_one db now r in
    sweep_loop db now rs (record {
      requests = replace n.request s.requests;
      notices = s.notices ++ n.notices;
      emails = s.emails ++ n.emails;
      breached = if is_breached now r then s.breached + 1 else s.breached;
      warned = if is_breached now r then s.warned else s.warned + 1;
    })

-- `sweep_sla_deadlines`
unfoldable pub sweep_sla_deadlines : Db → Bool → ℕ → ℕ → Swept
sweep_sla_deadlines db claimed now warn_before =
    let start : Swept = record {
      requests = db.requests;
      notices = [];
      emails = [];
      breached = 0;
      warned = 0;
    } in
    if claimed then sweep_loop db now (batch db now warn_before) start else start
