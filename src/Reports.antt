-- ===== src/Reports.antt =====
-- backend/app/services/report_service.py: the KPI report over a period, by groups. A date is a day
-- since 0001-01-01 in the zone of the calendar, a duration a number of microseconds. Python's division
-- and `round(…, 1)` on floats are a parameter, from a numerator and a denominator to tenths.
pub mod Kpi
pub mod Groups
pub mod Shares
mod Tests
use registrator_ofid.Base.{
  ℕ, zero, suc, ◌+◌, ◌-◌, ◌*◌, Bool, true, false, ◌&&◌, ◌||◌, ◌==◌, ltb, leb, List, [], ◌∷◌, ◌++◌,
  Option, none, some, if◌then◌else◌, length, map, any, is_some,
}
use registrator_ofid.Base.Text.{Text, text, text_eq}
use registrator_ofid.Http.{Result, ok, ◌>>=◌, ◌>>◌, raise_if, period_reversed, period_too_long}
use registrator_ofid.Calendar.{SlaCalendar, day_us, hour_us}
use registrator_ofid.Calendar.Civil.{month_day}
use registrator_ofid.Models.Status.{
  Status, accepted, in_progress, completed, rejected, returned, same, is_in, open_statuses,
  sla_running_statuses,
}
use registrator_ofid.Models.User.{User}
use registrator_ofid.Models.Category.{RequestCategory}
use registrator_ofid.Models.Request.{Request, RequestHistory}
use registrator_ofid.Models.Db.{Db}
use registrator_ofid.Catalog.{find_category}
use registrator_ofid.Tracking.{decimal, text_lt}
use registrator_ofid.Views.{load_user}

pub data GroupBy : Type 0 where
  by_staff by_faculty by_department by_service_type : GroupBy

-- A row of the query of `_rows`.
pub record Row : Type 0 where
  pub status : Status
  pub assigned_to : Option ℕ
  pub faculty_id : Option ℕ
  pub department_id : Option ℕ
  pub service_type_id : Option ℕ
  pub created_at : ℕ
  pub closed_at : Option ℕ
  pub sla_deadline : ℕ
  pub first_accepted_at : Option ℕ
  pub was_returned : Bool

-- `_Acc`; `still_open` is its `open`.
pub record Acc : Type 0 where
  pub total : ℕ
  pub still_open : ℕ
  pub completed_count : ℕ
  pub rejected_count : ℕ
  pub overdue_open : ℕ
  pub closed_on_time : ℕ
  pub returned_once : ℕ
  pub resolution_times : List ℕ
  pub accept_times : List ℕ

abbrev pub empty_acc : Acc
empty_acc = record {
  total = 0;
  still_open = 0;
  completed_count = 0;
  rejected_count = 0;
  overdue_open = 0;
  closed_on_time = 0;
  returned_once = 0;
  resolution_times = [];
  accept_times = [];
}

-- `if test: count += 1`
abbrev pub count_if : Bool → ℕ → ℕ
count_if test count = if test then count + 1 else count

abbrev pub in_time : Option ℕ → ℕ → Bool
in_time none deadline = false
in_time (some closed) deadline = leb closed deadline

-- The time from the filing until a moment, where there is one.
abbrev pub with_time : List ℕ → Option ℕ → ℕ → List ℕ
with_time times none created_at = times
with_time times (some moment) created_at = times ++ (moment - created_at) ∷ []

-- `_Acc.add`
unfoldable pub add : ℕ → Row → Acc → Acc
add now row acc = record {
  total = acc.total + 1;
  still_open = count_if (is_in row.status open_statuses) acc.still_open;
  completed_count = count_if (same row.status completed) acc.completed_count;
  rejected_count = count_if (same row.status rejected) acc.rejected_count;
  overdue_open =
      count_if (is_in row.status sla_running_statuses && ltb row.sla_deadline now) acc.overdue_open;
  closed_on_time = count_if (in_time row.closed_at row.sla_deadline) acc.closed_on_time;
  returned_once = count_if row.was_returned acc.returned_once;
  resolution_times = with_time acc.resolution_times row.closed_at row.created_at;
  accept_times = with_time acc.accept_times row.first_accepted_at row.created_at;
}

-- A row of the report; shares and times are in tenths of a percent and of an hour.
pub record KpiRow : Type 0 where
  pub key : Option ℕ
  pub label : Text
  pub total : ℕ
  pub still_open : ℕ
  pub completed_count : ℕ
  pub rejected_count : ℕ
  pub overdue_open : ℕ
  pub sla_compliance_pct : Option ℕ
  pub rejection_pct : Option ℕ
  pub returned_pct : Option ℕ
  pub avg_accept_hours : Option ℕ
  pub avg_resolution_hours : Option ℕ

abbrev pub Rounding : Type 0
Rounding = ℕ → ℕ → ℕ

unfoldable pub pct : Rounding → ℕ → ℕ → Option ℕ
pct rounding part zero = none
pct rounding part (suc whole) = some (rounding (100 * part) (suc whole))

abbrev pub sum : List ℕ → ℕ
sum [] = 0
sum (n ∷ ns) = n + sum ns

-- `mean`, of durations that are numbers of microseconds, in hours: the quotient of the exact sum is
-- rounded once, where the source adds up floats.
unfoldable pub mean : Rounding → List ℕ → Option ℕ
mean rounding [] = none
mean rounding (t ∷ ts) = some (rounding (sum (t ∷ ts)) (length (t ∷ ts) * hour_us))

-- `_Acc.as_row`
unfoldable pub as_row : Rounding → Option ℕ → Text → Acc → KpiRow
unfolding pct mean
as_row rounding key label acc =
    let closed = acc.completed_count + acc.rejected_count in
    record {
      key = key;
      label = label;
      total = acc.total;
      still_open = acc.still_open;
      completed_count = acc.completed_count;
      rejected_count = acc.rejected_count;
      overdue_open = acc.overdue_open;
      sla_compliance_pct = pct rounding acc.closed_on_time closed;
      rejection_pct = pct rounding acc.rejected_count closed;
      returned_pct = pct rounding acc.returned_once acc.total;
      avg_accept_hours = mean rounding acc.accept_times;
      avg_resolution_hours = mean rounding acc.resolution_times;
    }

-- `default_period`
unfoldable pub default_period : ℕ → ℕ × ℕ
default_period today = (today + 1 - (month_day today).1, today)

-- `_utc_bounds`
unfoldable pub utc_bounds : SlaCalendar → ℕ → ℕ → ℕ × ℕ
utc_bounds cal date_from date_to =
    (date_from * day_us - cal.offset, (date_to + 1) * day_us - cal.offset)

unfoldable pub earlier : ℕ → Option ℕ → ℕ
earlier moment none = moment
earlier moment (some other) = if ltb other moment then other else moment

-- The subquery `first_accepted`.
unfoldable pub first_accepted : List RequestHistory → Option ℕ
unfolding earlier
first_accepted [] = none
first_accepted (h ∷ hs) =
    let rest = first_accepted hs in
    if is_in h.new_status (accepted ∷ in_progress ∷ [])
    then some (earlier h.created_at rest)
    else rest

unfoldable pub row_under : Request → RequestCategory → Row
unfolding first_accepted
row_under req service = record {
  status = req.status;
  assigned_to = req.assigned_to;
  faculty_id = req.faculty_id;
  department_id = req.department_id;
  service_type_id = service.parent_id;
  created_at = req.created_at;
  closed_at = req.closed_at;
  sla_deadline = req.sla_deadline;
  first_accepted_at = first_accepted req.history;
  was_returned = any (λ h. same h.new_status returned) req.history;
}

-- The join with the service, which a request without one does not survive.
unfoldable pub joined : Request → Option RequestCategory → List Row → List Row
unfolding row_under
joined req none rest = rest
joined req (some service) rest = row_under req service ∷ rest

unfoldable pub query_rows : List RequestCategory → ℕ → ℕ → List Request → List Row
unfolding joined
query_rows categories start end [] = []
query_rows categories start end (r ∷ rs) =
    let rest = query_rows categories start end rs in
    if leb start r.created_at && ltb r.created_at end
    then joined r (find_category categories r.category_id) rest
    else rest

-- `_rows`
unfoldable pub rows_of : Db → SlaCalendar → ℕ → ℕ → List Row
unfolding query_rows utc_bounds
rows_of db cal date_from date_to =
    let (start, end) = utc_bounds cal date_from date_to in
    query_rows db.categories start end db.requests
