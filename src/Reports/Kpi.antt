-- ===== src/Reports/Kpi.antt =====
-- `kpi_report` of backend/app/services/report_service.py, and the period that api/v1/reports.py checks.
use registrator_ofid.Base.{
  ℕ, ◌-◌, Bool, true, false, ◌&&◌, ◌||◌, ◌==◌, ltb, List, [], ◌∷◌, ◌++◌, Option, none, some,
  if◌then◌else◌, map,
}
use registrator_ofid.Base.Text.{Text, text}
use registrator_ofid.Http.{Result, ok, ◌>>=◌, ◌>>◌, raise_if, period_reversed, period_too_long}
use registrator_ofid.Calendar.{SlaCalendar}
use registrator_ofid.Models.User.{User}
use registrator_ofid.Models.Category.{RequestCategory}
use registrator_ofid.Sessions.{require_roles}
use registrator_ofid.Models.User
use registrator_ofid.Models.Db.{Db}
use registrator_ofid.Catalog.{find_category}
use registrator_ofid.Tracking.{decimal, text_lt}
use registrator_ofid.Workflow.{find_user}
use registrator_ofid.Reports.{
  GroupBy, by_staff, by_faculty, by_department, by_service_type, Row, Acc, empty_acc, add, KpiRow,
  Rounding, as_row, rows_of, default_period,
}

-- `row[_KEY_COLUMN[group_by]]`
unfoldable pub key_of : GroupBy → Row → Option ℕ
key_of by_staff row = row.assigned_to
key_of by_faculty row = row.faculty_id
key_of by_department row = row.department_id
key_of by_service_type row = row.service_type_id

unfoldable pub same_group : Option ℕ → Option ℕ → Bool
same_group none none = true
same_group none (some j) = false
same_group (some i) none = false
same_group (some i) (some j) = i == j

-- The dictionary `groups`, in the order of its keys' first rows.
abbrev pub GroupMap : Type 0
GroupMap = List (Option ℕ × Acc)

-- `groups[key].add(row, now)`
unfoldable pub add_to : ℕ → Option ℕ → Row → GroupMap → GroupMap
unfolding same_group
add_to now key row [] = (key, add now row empty_acc) ∷ []
add_to now key row ((k, acc) ∷ groups) =
    let rest = add_to now key row groups in
    if same_group k key then (k, add now row acc) ∷ groups else (k, acc) ∷ rest

-- The loop over the rows, on the groups and on the totals.
unfoldable pub group_rows : ℕ → (Row → Option ℕ) → List Row → GroupMap → GroupMap
unfolding add_to
group_rows now column [] groups = groups
group_rows now column (row ∷ rows) groups =
    group_rows now column rows (add_to now (column row) row groups)

unfoldable pub add_all : ℕ → List Row → Acc → Acc
add_all now [] acc = acc
add_all now (row ∷ rows) acc = add_all now rows (add now row acc)

name_in : List (ℕ × Text) → ℕ → Option Text
name_in [] id = none
name_in ((i, name) ∷ names) id = let rest = name_in names id in if i == id then some name else rest

full_name_of : Option User → Option Text
full_name_of none = none
full_name_of (some u) = some u.full_name

category_name : Option RequestCategory → Option Text
category_name none = none
category_name (some c) = some c.name

-- `_labels`, for one key.
unfoldable pub label_in : Db → GroupBy → ℕ → Option Text
unfolding name_in full_name_of category_name
label_in db by_staff id = full_name_of (find_user db.users id)
label_in db by_faculty id = name_in db.faculty_names id
label_in db by_department id = name_in db.department_names id
label_in db by_service_type id = category_name (find_category db.categories id)

-- `_UNSET_LABEL`
unfoldable pub unset_label : GroupBy → Text
unset_label by_staff = text "Biriktirilmagan"
unset_label by_faculty = text "Fakultet ko'rsatilmagan"
unset_label by_department = text "Bo'lim ko'rsatilmagan"
unset_label by_service_type = text "Turi ko'rsatilmagan"

abbrev or_number : Option Text → ℕ → Text
or_number none id = text "#" ++ decimal id
or_number (some name) id = name

unfoldable pub label_of : Db → GroupBy → Option ℕ → Text
unfolding label_in unset_label
label_of db group_by none = unset_label group_by
label_of db group_by (some id) = or_number (label_in db group_by id) id

-- The key of the sort: larger totals first, then by label.
unfoldable pub comes_first : KpiRow → KpiRow → Bool
comes_first a b = ltb b.total a.total || ((a.total == b.total) && text_lt a.label b.label)

unfoldable pub insert_row : KpiRow → List KpiRow → List KpiRow
unfolding comes_first
insert_row r [] = r ∷ []
insert_row r (q ∷ qs) =
    let rest = insert_row r qs in if comes_first q r then q ∷ rest else r ∷ q ∷ qs

unfoldable pub sort_rows : List KpiRow → List KpiRow
unfolding insert_row
sort_rows [] = []
sort_rows (r ∷ rs) = insert_row r (sort_rows rs)

pub record Report : Type 0 where
  pub group_by : GroupBy
  pub date_from : ℕ
  pub date_to : ℕ
  pub rows : List KpiRow
  pub totals : KpiRow

unfoldable pub row_of_group : Rounding → Db → GroupBy → Option ℕ × Acc → KpiRow
unfolding label_of
row_of_group rounding db group_by (key, acc) = as_row rounding key (label_of db group_by key) acc

-- The report on the rows of the query.
unfoldable pub report_on : Rounding → Db → ℕ → GroupBy → ℕ → ℕ → List Row → Report
unfolding group_rows row_of_group sort_rows key_of add_all
report_on rounding db now group_by date_from date_to rows = record {
  group_by = group_by;
  date_from = date_from;
  date_to = date_to;
  rows =
      sort_rows
        (map (row_of_group rounding db group_by) (group_rows now (key_of group_by) rows []));
  totals = as_row rounding none (text "Jami") (add_all now rows empty_acc);
}

unfoldable pub kpi_report : Rounding → Db → SlaCalendar → ℕ → GroupBy → ℕ → ℕ → Report
unfolding report_on
kpi_report rounding db cal now group_by date_from date_to =
    report_on rounding db now group_by date_from date_to (rows_of db cal date_from date_to)

abbrev or_day : Option ℕ → ℕ → ℕ
or_day none day = day
or_day (some d) day = d

-- `_period` of api/v1/reports.py.
unfoldable pub period : ℕ → Option ℕ → Option ℕ → Result (ℕ × ℕ)
period today date_from date_to = do
  let start = or_day date_from (default_period today).0
  let end = or_day date_to (default_period today).1
  raise_if (ltb end start) 422 period_reversed
  raise_if (ltb 400 (end - start)) 422 period_too_long
  ok (start, end)

-- `get_kpi`, with the dependency of its router.
unfoldable pub get_kpi :
    Rounding → Db → SlaCalendar → ℕ → ℕ → User → GroupBy → Option ℕ → Option ℕ → Result Report
unfolding period kpi_report
get_kpi rounding db cal now today user group_by date_from date_to = do
  reader ← require_roles (User.admin ∷ User.leadership ∷ []) user
  (start, end) ← period today date_from date_to
  ok (kpi_report rounding db cal now group_by start end)
