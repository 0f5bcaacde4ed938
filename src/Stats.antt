-- ===== src/Stats.antt =====
-- backend/app/services/stats_service.py: the numbers of the dashboard. Rounding is that of Reports; a day
-- begins at midnight UTC.
pub mod Scope
pub mod Statuses
pub mod Counted
mod Tests
use registrator_ofid.Base.{
  ℕ, zero, suc, ◌+◌, ◌-◌, ◌*◌, ◌/◌, Bool, true, false, not, ◌&&◌, ◌||◌, ◌==◌, ltb, leb, List, [],
  ◌∷◌, Option, none, some, if◌then◌else◌, filter, length, map, is_some,
}
use registrator_ofid.Calendar.{day_us, hour_us}
use registrator_ofid.Models.Status.{
  Status, completed, same, is_in, all_statuses, open_statuses, closed_statuses,
  sla_running_statuses,
}
use registrator_ofid.Models.User.{User, has_role}
use registrator_ofid.Models.User
use registrator_ofid.Models.Request.{Request}
use registrator_ofid.Models.Db.{Db}
use registrator_ofid.Workflow.{is_id}
use registrator_ofid.Reports.{Rounding, sum, mean, with_time}

-- `Request.faculty_id == user.faculty_id` where the user's is known.
abbrev pub of_faculty : Option ℕ → Request → Bool
of_faculty none r = false
of_faculty (some f) r = is_id r.faculty_id f

-- The conditions of `_visible_requests`.
unfoldable pub is_visible : User → Request → Bool
is_visible user r =
    if has_role user (User.student ∷ [])
    then r.student_id == user.id
    else if has_role user (User.staff ∷ [])
    then is_id r.assigned_to user.id
    else if has_role user (User.registrator ∷ []) && is_some (User.faculty_id user)
    then of_faculty (User.faculty_id user) r || is_id r.assigned_to user.id
    else true

unfoldable pub visible_requests : User → List Request → List Request
unfolding is_visible
visible_requests user requests = filter (is_visible user) requests

-- `select(status, count()).group_by(status)`, as a dictionary.
unfoldable pub add_status : Status → List (Status × ℕ) → List (Status × ℕ)
add_status s [] = (s, 1) ∷ []
add_status s ((t, n) ∷ counts) =
    let rest = add_status s counts in if same t s then (t, n + 1) ∷ counts else (t, n) ∷ rest

unfoldable pub group_statuses : List Request → List (Status × ℕ)
unfolding add_status
group_statuses [] = []
group_statuses (r ∷ rs) = add_status r.status (group_statuses rs)

-- `by_status.get(s, 0)`
unfoldable pub status_count : List (Status × ℕ) → Status → ℕ
status_count [] s = 0
status_count ((t, n) ∷ counts) s = let rest = status_count counts s in if same t s then n else rest

-- `sum(by_status.values())`
unfoldable pub all_counts : List (Status × ℕ) → ℕ
all_counts [] = 0
all_counts ((t, n) ∷ counts) = n + all_counts counts

abbrev pub counts_of : List (Status × ℕ) → List Status → ℕ
counts_of counts statuses = sum (map (status_count counts) statuses)

-- `select(count()).where(...)`
abbrev pub count_where : (Request → Bool) → List Request → ℕ
count_where test rows = length (filter test rows)

abbrev since : Option ℕ → ℕ → Bool
since none moment = false
since (some closed) moment = leb moment closed

abbrev pub after : Option ℕ → ℕ → Bool
after none moment = false
after (some closed) moment = ltb moment closed

-- The durations of the closed requests.
unfoldable pub resolution_times : List Request → List ℕ
resolution_times [] = []
resolution_times (r ∷ rs) = with_time (resolution_times rs) r.closed_at r.created_at

pub record Stats : Type 0 where
  pub total : ℕ
  pub still_open : ℕ
  pub by_status : List (Status × ℕ)
  pub overdue : ℕ
  pub due_soon : ℕ
  pub completed_today : ℕ
  pub created_this_week : ℕ
  pub avg_resolution_hours : Option ℕ
  pub sla_compliance_pct : Option ℕ
  -- Only for administrators and leadership.
  pub total_users : Option ℕ
  pub unassigned : Option ℕ

-- The share of closed requests that met their deadline, when any is closed.
unfoldable pub compliance : Rounding → ℕ → ℕ → Option ℕ
compliance rounding zero breached = none
compliance rounding (suc closed) breached =
    some (rounding (100 * (suc closed - breached)) (suc closed))

abbrev oversees : User → Bool
oversees user = has_role user (User.admin ∷ User.leadership ∷ [])

unfoldable pub dashboard_stats : Rounding → Db → ℕ → User → Stats
unfolding visible_requests group_statuses status_count all_counts resolution_times compliance mean
dashboard_stats rounding db now user =
    let today_start = now / day_us * day_us in
    let week_ago = now - 7 * day_us in
    let scoped = visible_requests user db.requests in
    let by_status = group_statuses scoped in
    let running = λ (r : Request). is_in r.status sla_running_statuses in
    let breached =
      count_where (λ r. is_in r.status closed_statuses && after r.closed_at r.sla_deadline)
        scoped in
    record {
      total = all_counts by_status;
      still_open = counts_of by_status open_statuses;
      by_status = map (λ s. (s, status_count by_status s)) all_statuses;
      overdue = count_where (λ r. running r && ltb r.sla_deadline now) scoped;
      due_soon =
          count_where
            (λ r. running r && (leb now r.sla_deadline && ltb r.sla_deadline (now + 24 * hour_us)))
            scoped;
      completed_today =
          count_where (λ r. same r.status completed && since r.closed_at today_start) scoped;
      created_this_week = count_where (λ r. leb week_ago r.created_at) scoped;
      avg_resolution_hours = mean rounding (resolution_times scoped);
      sla_compliance_pct = compliance rounding (counts_of by_status closed_statuses) breached;
      total_users =
          if oversees user then some (length (filter (λ u. u.is_active) db.users)) else none;
      unassigned =
          if oversees user
          then some (
              count_where (λ r. not (is_some r.assigned_to) && is_in r.status open_statuses) scoped)
          else none;
    }
