-- ===== src/Reports/Tests.antt =====
-- The report of backend/app/services/report_service.py on concrete requests.
use registrator_ofid.Workflow.{find_user}
use registrator_ofid.Tracking.{text_lt}
use registrator_ofid.Catalog.{find_category}
use registrator_ofid.Base.{
  ℕ, ◌+◌, ◌*◌, ltb, ◌&&◌, ◌≡◌, refl, true, List, [], ◌∷◌, Option, none, some, map, All,
}
use registrator_ofid.Base.Text.{text, is_space}
use registrator_ofid.Http.{err, http, period_reversed}
use registrator_ofid.Models.Status.{
  completed, rejected, in_progress, is_in, same, open_statuses, sla_running_statuses,
}
use registrator_ofid.Models.Request.{Request}
use registrator_ofid.Models.Db.{Db}
use registrator_ofid.Samples.{
  down, down-StaysBelow, office, friday_noon, open_request, sample_db, filed_entry,
}
use registrator_ofid.Workflow.Sound.{IsSound}
use registrator_ofid.Reports.{by_staff, Row, rows_of, add, as_row}
use registrator_ofid.Reports.Kpi.{kpi_report, report_on, period, Report}
use registrator_ofid.Reports.Groups.{report_on_counts, column_sum, requests_in}
use registrator_ofid.Reports.Shares.{HasShares, kpi_report-HasShares}
use registrator_ofid.Calendar.{hour_us}

abbrev done : Request
done = record open_request {
  id = 10;
  assigned_to = none;
  status = completed;
  closed_at = some (friday_noon + 2 * hour_us);
}

abbrev busy_db : Db
busy_db = record sample_db { requests = open_request ∷ done ∷ [] }

abbrev report : Report
report = kpi_report down busy_db office friday_noon by_staff 739_000 739_002

shown :
    (map (λ r. r.key) report.rows ≡ none ∷ some 2 ∷ [])
    × (map (λ r. r.sla_compliance_pct) report.rows ≡ some 1000 ∷ none ∷ [])
    × (report.totals.total ≡ 2)
    × (report.totals.avg_resolution_hours ≡ some 20)
unfolding kpi_report rows_of find_category as_row add text_lt find_user same
shown = (refl, refl, refl, refl)

reversed_period : period 739_001 (some 739_001) (some 739_000) ≡ err (http 422 period_reversed)
unfolding period
reversed_period = refl

abbrev rows : List Row
rows = rows_of busy_db office 739_000 739_002

counts_example :
    let all = λ (key : Option ℕ). true in
    (column_sum (λ r. r.total) all (report_on down busy_db friday_noon by_staff 0 1 rows).rows
      ≡ requests_in all by_staff (λ row. true) rows)
    × (column_sum
          (λ r. r.still_open)
          all
          (report_on down busy_db friday_noon by_staff 0 1 rows).rows
        ≡ requests_in all by_staff (λ row. is_in row.status open_statuses) rows)
    × (column_sum
          (λ r. r.completed_count)
          all
          (report_on down busy_db friday_noon by_staff 0 1 rows).rows
        ≡ requests_in all by_staff (λ row. same row.status completed) rows)
    × (column_sum
          (λ r. r.rejected_count)
          all
          (report_on down busy_db friday_noon by_staff 0 1 rows).rows
        ≡ requests_in all by_staff (λ row. same row.status rejected) rows)
    × (column_sum
          (λ r. r.overdue_open)
          all
          (report_on down busy_db friday_noon by_staff 0 1 rows).rows
        ≡ requests_in all by_staff
            (λ row. is_in row.status sla_running_statuses && ltb row.sla_deadline friday_noon)
            rows)
counts_example = report_on_counts down busy_db friday_noon by_staff 0 1 rows (λ key. true)

-- An answered request is sound.
abbrev answered_row : Request
answered_row = record done {
  answered_at = some friday_noon;
  answer_text = some (text "Tayyor");
  history =
      filed_entry
      ∷ record filed_entry { old_status = some in_progress; new_status = completed }
      ∷ [];
}

abbrev sound_db : Db
sound_db = record sample_db { requests = open_request ∷ answered_row ∷ [] }

settled : All IsSound sound_db.requests
unfolding is_in is_space
settled = (
  record {
    settled = record {
      closed = refl;
      answered = refl;
      answer = refl;
      paused = refl;
      warned = refl;
    };
    trail = (refl, refl);
  },
  (
    record {
      settled = record {
        closed = refl;
        answered = refl;
        answer = refl;
        paused = refl;
        warned = refl;
      };
      trail = (refl, (refl, refl));
    },
    tt,
  ),
)

shares_example : All HasShares (
    (kpi_report down sound_db office friday_noon by_staff 739_000 739_002).totals
    ∷ (kpi_report down sound_db office friday_noon by_staff 739_000 739_002).rows)
shares_example =
    kpi_report-HasShares down sound_db office friday_noon by_staff 739_000 739_002 down-StaysBelow
      settled
