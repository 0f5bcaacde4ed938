-- ===== src/Stats/Counted.antt =====
-- What the numbers of the dashboard of backend/app/services/stats_service.py count.
use registrator_ofid.Base.{
  ℕ, zero, suc, ◌+◌, ◌-◌, ◌*◌, ◌≤◌, ◌≡◌, refl, sym, ap, subst, ◌∙◌, Bool, true, false, ◌&&◌, ltb,
  leb, List, [], ◌∷◌, arith, length, inl, inr, Option, none, some, Option-cases, filter, ◌↔◌,
}
use registrator_ofid.Calendar.{hour_us}
use registrator_ofid.Models.Status.{
  Status, same, is_in, all_statuses, open_statuses, closed_statuses, sla_running_statuses,
}
use registrator_ofid.Models.User.{User}
use registrator_ofid.Models.Request.{Request}
use registrator_ofid.Models.Db.{Db}
use registrator_ofid.Reports.{Rounding}
use registrator_ofid.Reports.Shares.{StaysBelow, IsShare}
use registrator_ofid.Stats.{
  visible_requests, group_statuses, status_count, counts_of, count_where, compliance,
  dashboard_stats, Stats, after, is_visible,
}
use registrator_ofid.Stats.Scope.{AnswersFor, is_visible_iff}
use registrator_ofid.Stats.Statuses.{
  all_counts-group, status_count-group, one_if, running_is_open, count_cons, open_counts,
  closed_counts,
}

-- Two tests of which at most one holds, and only where a third does.
counts_below :
    (p q o : Request → Bool) (rs : List Request)
    → ((r : Request) → one_if (p r) + one_if (q r) ≤ one_if (o r))
    → count_where p rs + count_where q rs ≤ count_where o rs
counts_below p q o [] h = omega arith
counts_below p q o (r ∷ rs) h =
    omega
      (arith, count_cons p r rs, count_cons q r rs, count_cons o r rs, h r, counts_below p q o rs h)

exclusive :
    (running kept : Bool) (deadline now later : ℕ)
    → (running ≡ true → kept ≡ true)
    → one_if (running && ltb deadline now)
        + one_if (running && (leb now deadline && ltb deadline later))
      ≤ one_if kept
exclusive false kept deadline now later h = omega arith
exclusive true kept deadline now later h = ground (arith, h refl)

compliance-IsShare :
    (rounding : Rounding) (closed breached : ℕ)
    → StaysBelow rounding
    → IsShare (compliance rounding closed breached)
unfolding compliance
compliance-IsShare rounding zero breached below = tt
compliance-IsShare rounding (suc closed) breached below =
    below (100 * (suc closed - breached)) closed 100 (omega arith)

-- Rows that pass two filters.
count_where-filter :
    (p q : Request → Bool) (rs : List Request)
    → count_where p (filter q rs) ≡ count_where (λ r. q r && p r) rs
count_where-filter p q [] = refl
count_where-filter p q (r ∷ rs) = ground (arith, count_where-filter p q rs)

-- The entries of a dictionary with a number for each status.
abbrev pub entries : (Status → ℕ) → List Status → List (Status × ℕ)
entries number [] = []
entries number (s ∷ ss) = (s, number s) ∷ entries number ss

entries_same :
    (f g : Status → ℕ) (ss : List Status) → ((s : Status) → f s ≡ g s) → entries f ss ≡ entries g ss
entries_same f g [] same_at = refl
entries_same f g (s ∷ ss) same_at =
    ap (λ n. (s, n) ∷ entries f ss) (same_at s)
    ∙ ap (λ rest. (s, g s) ∷ rest) (entries_same f g ss same_at)

-- A request that was not closed after its deadline.
abbrev pub met_deadline : Request → Bool
met_deadline r = elim r.closed_at [ none ↦ true | some closed ↦ leb closed r.sla_deadline ]

late_or_met :
    (r : Request) → one_if (after r.closed_at r.sla_deadline) + one_if (met_deadline r) ≡ 1
late_or_met r = elim (Option-cases r.closed_at) [
  | inl none_yet ↦ ground arith
  | inr (closed, at) ↦ ground arith
]

closed_apart :
    (rs : List Request)
    → count_where (λ r. is_in r.status closed_statuses && after r.closed_at r.sla_deadline) rs
        + count_where (λ r. is_in r.status closed_statuses && met_deadline r) rs
      ≡ count_where (λ r. is_in r.status closed_statuses) rs
closed_apart [] = refl
closed_apart (r ∷ rs) = ground (arith, late_or_met r, closed_apart rs)

-- The rounded percentage of some of a number of things, if there are any.
abbrev pub share : Rounding → ℕ → ℕ → Option ℕ
share rounding part zero = none
share rounding part (suc whole) = some (rounding (100 * part) (suc whole))

compliance-share :
    (rounding : Rounding) (late met closed : ℕ)
    → late + met ≡ closed
    → compliance rounding closed late ≡ share rounding met closed
unfolding compliance
compliance-share rounding late met zero h = refl
compliance-share rounding late met (suc closed) h =
    let left : suc closed - late ≡ met = omega (arith, h) in
    ap (λ n. some (rounding (100 * n) (suc closed))) left

-- How many requests there are that a user answers for and that pass a test.
abbrev pub count_of : User → Db → (Request → Bool) → ℕ
count_of user db test = count_where (λ r. is_visible user r && test r) db.requests

scoped_count :
    (user : User) (db : Db) (test : Request → Bool)
    → count_where test (visible_requests user db.requests) ≡ count_of user db test
unfolding visible_requests
scoped_count user db test = count_where-filter test (is_visible user) db.requests

all_pass : (rs : List Request) → length rs ≡ count_where (λ r. true) rs
all_pass [] = refl
all_pass (r ∷ rs) = ground (arith, all_pass rs)

-- A request that waits for the office and is past its deadline, or will be within a day.
abbrev pub is_overdue : ℕ → Request → Bool
is_overdue now r = is_in r.status sla_running_statuses && ltb r.sla_deadline now

abbrev pub is_due_soon : ℕ → Request → Bool
is_due_soon now r =
    is_in r.status sla_running_statuses
    && (leb now r.sla_deadline && ltb r.sla_deadline (now + 24 * hour_us))

-- What the numbers of a dashboard are, over the rows that the user answers for.
-- `now` is the moment of the call.
pub record HasCounts (rounding : Rounding) (db : Db) (now : ℕ) (user : User) (stats : Stats)
    : Type 0 where
  pub scope : (r : Request) → (is_visible user r ≡ true) ↔ AnswersFor user r
  pub total : stats.total ≡ count_of user db (λ r. true)
  pub still_open : stats.still_open ≡ count_of user db (λ r. is_in r.status open_statuses)
  pub by_status :
      stats.by_status ≡ entries (λ s. count_of user db (λ r. same r.status s)) all_statuses
  pub overdue : stats.overdue ≡ count_of user db (is_overdue now)
  pub due_soon : stats.due_soon ≡ count_of user db (is_due_soon now)
  pub urgent : stats.overdue + stats.due_soon ≤ stats.still_open
  pub compliance :
      stats.sla_compliance_pct
      ≡ share rounding
          (count_of user db (λ r. is_in r.status closed_statuses && met_deadline r))
          (count_of user db (λ r. is_in r.status closed_statuses))
  pub is_share : IsShare stats.sla_compliance_pct

-- The dashboard of a user counts exactly the requests that the user's role answers for: all of them,
-- those that are open, those of each known status, and those that wait for the office past their
-- deadline or within a day of it; a request is overdue or due soon, but not both, and only while it is
-- open; the share of kept deadlines is that of the closed requests that
-- were not closed after their deadline, and is at most 100 %, if rounding never goes over a whole
-- number that bounds the quotient.
pub dashboard_stats-HasCounts :
    (rounding : Rounding) (db : Db) (now : ℕ) (user : User)
    → StaysBelow rounding
    → HasCounts rounding db now user (dashboard_stats rounding db now user)
unfolding dashboard_stats
dashboard_stats-HasCounts rounding db now user below =
    let scoped = visible_requests user db.requests in
    let late =
      count_where (λ r. is_in r.status closed_statuses && after r.closed_at r.sla_deadline)
        scoped in
    record {
      scope = is_visible_iff user;
      total = all_counts-group scoped ∙ all_pass scoped ∙ scoped_count user db (λ r. true);
      still_open = open_counts scoped ∙ scoped_count user db (λ r. is_in r.status open_statuses);
      by_status =
          entries_same (status_count (group_statuses scoped))
            (λ s. count_of user db (λ r. same r.status s)) all_statuses
            (λ s. status_count-group s scoped ∙ scoped_count user db (λ r. same r.status s));
      overdue = scoped_count user db (is_overdue now);
      due_soon = scoped_count user db (is_due_soon now);
      urgent =
          subst
            (λ n. count_where (is_overdue now) scoped + count_where (is_due_soon now) scoped ≤ n)
            (sym (open_counts scoped))
            (counts_below (is_overdue now) (is_due_soon now) (λ r. is_in r.status open_statuses)
              scoped
              (λ r.
                exclusive (is_in r.status sla_running_statuses) (is_in r.status open_statuses)
                  r.sla_deadline now (now + 24 * hour_us) (running_is_open r.status)));
      compliance =
          compliance-share rounding late
            (count_where (λ r. is_in r.status closed_statuses && met_deadline r) scoped)
            (counts_of (group_statuses scoped) closed_statuses)
            (closed_apart scoped ∙ sym (closed_counts scoped))
          ∙ ap (λ n. share rounding n (counts_of (group_statuses scoped) closed_statuses))
              (scoped_count user db (λ r. is_in r.status closed_statuses && met_deadline r))
          ∙ ap
              (share rounding
                (count_of user db (λ r. is_in r.status closed_statuses && met_deadline r)))
              (closed_counts scoped ∙ scoped_count user db (λ r. is_in r.status closed_statuses));
      is_share = compliance-IsShare rounding _ _ below;
    }
