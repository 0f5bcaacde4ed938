-- ===== src/Reports/Shares.antt =====
-- The shares in a report of backend/app/services/report_service.py are shares: none is over 100 %.
use registrator_ofid.Base.{
  ℕ, zero, suc, ◌+◌, ◌*◌, ◌≤◌, ◌≡◌, refl, sym, ◌∙◌, Bool, true, false, ◌||◌, List, [], ◌∷◌, Option,
  none, some, arith, map, All, if_both, is_some,
}
use registrator_ofid.Base.Text.{Text}
use registrator_ofid.Calendar.{SlaCalendar}
use registrator_ofid.Models.Db.{Db}
use registrator_ofid.Models.Request.{Request}
use registrator_ofid.Models.Category.{RequestCategory}
use registrator_ofid.Models.Status.{Status, same, is_in, completed, rejected, closed_statuses}
use registrator_ofid.Catalog.{find_category}
use registrator_ofid.Workflow.Sound.{IsSound}
use registrator_ofid.Reports.{
  GroupBy, Row, Acc, empty_acc, add, KpiRow, Rounding, as_row, pct, query_rows, rows_of, joined,
  row_under, in_time, count_if,
}
use registrator_ofid.Reports.Kpi.{
  GroupMap, same_group, add_to, group_rows, add_all, comes_first, insert_row, sort_rows,
  row_of_group, report_on, kpi_report, key_of,
}

-- A row is closed exactly when its status says so.
abbrev IsClosedRow : Row → Type 0
IsClosedRow row = is_some row.closed_at ≡ is_in row.status closed_statuses

-- The parts of the accumulator are parts.
record InOrder (acc : Acc) : Type 0 where
  on_time : acc.closed_on_time ≤ acc.completed_count + acc.rejected_count
  returns : acc.returned_once ≤ acc.total

closed_is : (s : Status) → is_in s closed_statuses ≡ (same s completed || same s rejected)
unfolding is_in
closed_is s = ground arith

timely : (o : Option ℕ) (deadline : ℕ) → in_time o deadline ≡ true → is_some o ≡ true
timely none deadline h = h
timely (some c) deadline h = refl

on_time_closed :
    (row : Row)
    → IsClosedRow row
    → in_time row.closed_at row.sla_deadline ≡ true
    → (same row.status completed || same row.status rejected) ≡ true
on_time_closed row closed h =
    sym (closed_is row.status) ∙ sym closed ∙ timely row.closed_at row.sla_deadline h

counted :
    (t c r : Bool) (on_time done refused : ℕ)
    → (t ≡ true → (c || r) ≡ true)
    → on_time ≤ done + refused
    → count_if t on_time ≤ count_if c done + count_if r refused
counted false c r on_time done refused part h = ground (arith, h)
counted true c r on_time done refused part h = ground (arith, h, part refl)

add-InOrder :
    (now : ℕ) (row : Row) (acc : Acc) → IsClosedRow row → InOrder acc → InOrder (add now row acc)
unfolding add
add-InOrder now row acc closed h = record {
  on_time =
      counted (in_time row.closed_at row.sla_deadline) (same row.status completed)
        (same row.status rejected) acc.closed_on_time acc.completed_count acc.rejected_count
        (on_time_closed row closed) h.on_time;
  returns = ground (arith, h.returns);
}

empty-InOrder : InOrder empty_acc
empty-InOrder = record { on_time = omega arith; returns = omega arith }

add_all-InOrder :
    (now : ℕ) (rows : List Row) (acc : Acc)
    → All IsClosedRow rows
    → InOrder acc
    → InOrder (add_all now rows acc)
unfolding add_all
add_all-InOrder now [] acc all h = h
add_all-InOrder now (row ∷ rows) acc (closed, all) h =
    add_all-InOrder now rows (add now row acc) all (add-InOrder now row acc closed h)

abbrev AreInOrder : GroupMap → Type 0
AreInOrder = All (λ (entry : Option ℕ × Acc). InOrder entry.1)

add_to-AreInOrder :
    (now : ℕ) (key : Option ℕ) (row : Row) (groups : GroupMap)
    → IsClosedRow row
    → AreInOrder groups
    → AreInOrder (add_to now key row groups)
unfolding add_to
add_to-AreInOrder now key row [] closed all =
    (add-InOrder now row empty_acc closed empty-InOrder, tt)
add_to-AreInOrder now key row ((k, acc) ∷ groups) closed (h, all) =
    if_both AreInOrder (same_group k key) _ _ (add-InOrder now row acc closed h, all)
      (h, add_to-AreInOrder now key row groups closed all)

group_rows-AreInOrder :
    (now : ℕ) (column : Row → Option ℕ) (rows : List Row) (groups : GroupMap)
    → All IsClosedRow rows
    → AreInOrder groups
    → AreInOrder (group_rows now column rows groups)
unfolding group_rows
group_rows-AreInOrder now column [] groups all h = h
group_rows-AreInOrder now column (row ∷ rows) groups (closed, all) h =
    group_rows-AreInOrder now column rows (add_to now (column row) row groups) all
      (add_to-AreInOrder now (column row) row groups closed h)

-- What Python's rounding is known for here: a quotient that is no more than a whole number is not
-- rounded over it.
abbrev pub StaysBelow : Rounding → Type 0
StaysBelow rounding = (n d k : ℕ) → n ≤ k * suc d → rounding n (suc d) ≤ 10 * k

-- A share of at most 100 %, in tenths, or none.
abbrev pub IsShare : Option ℕ → Type 0
IsShare none = Unit {0}
IsShare (some tenths) = tenths ≤ 1000

pub record HasShares (row : KpiRow) : Type 0 where
  pub compliance : IsShare row.sla_compliance_pct
  pub rejection : IsShare row.rejection_pct
  pub returns : IsShare row.returned_pct

pct-IsShare :
    (rounding : Rounding) (part whole : ℕ)
    → StaysBelow rounding
    → part ≤ whole
    → IsShare (pct rounding part whole)
unfolding pct
pct-IsShare rounding part zero below h = tt
pct-IsShare rounding part (suc whole) below h = below (100 * part) whole 100 (omega (arith, h))

as_row-HasShares :
    (rounding : Rounding) (key : Option ℕ) (label : Text) (acc : Acc)
    → StaysBelow rounding
    → InOrder acc
    → HasShares (as_row rounding key label acc)
unfolding as_row
as_row-HasShares rounding key label acc below h = record {
  compliance = pct-IsShare rounding acc.closed_on_time _ below h.on_time;
  rejection = pct-IsShare rounding acc.rejected_count _ below (omega arith);
  returns = pct-IsShare rounding acc.returned_once _ below h.returns;
}

joined-IsClosedRow :
    (r : Request) (o : Option RequestCategory) (rest : List Row)
    → IsSound r
    → All IsClosedRow rest
    → All IsClosedRow (joined r o rest)
unfolding joined row_under
joined-IsClosedRow r none rest sound all = all
joined-IsClosedRow r (some c) rest sound all = (sound.settled.closed, all)

query_rows-All :
    (categories : List RequestCategory) (start end : ℕ) (rs : List Request)
    → All IsSound rs
    → All IsClosedRow (query_rows categories start end rs)
unfolding query_rows
query_rows-All categories start end [] all = tt
query_rows-All categories start end (r ∷ rs) (sound, all) =
    let rest = query_rows-All categories start end rs all in
    if_both (All IsClosedRow) _ _ _
      (joined-IsClosedRow r (find_category categories r.category_id) _ sound rest) rest

shown_rows :
    (rounding : Rounding) (db : Db) (g : GroupBy) (groups : GroupMap)
    → StaysBelow rounding
    → AreInOrder groups
    → All HasShares (map (row_of_group rounding db g) groups)
unfolding row_of_group
shown_rows rounding db g [] below all = tt
shown_rows rounding db g ((k, acc) ∷ groups) below (h, all) =
    (as_row-HasShares rounding k _ acc below h, shown_rows rounding db g groups below all)

inserted :
    (r : KpiRow) (rs : List KpiRow)
    → HasShares r
    → All HasShares rs
    → All HasShares (insert_row r rs)
unfolding insert_row
inserted r [] h all = (h, tt)
inserted r (q ∷ qs) h (hq, all) =
    if_both (All HasShares) (comes_first q r) (q ∷ insert_row r qs) (r ∷ q ∷ qs)
      (hq, inserted r qs h all) (h, (hq, all))

sorted : (rs : List KpiRow) → All HasShares rs → All HasShares (sort_rows rs)
unfolding sort_rows
sorted [] all = tt
sorted (r ∷ rs) (h, all) = inserted r (sort_rows rs) h (sorted rs all)

-- In a report over sound requests no share is over 100 %, on any of its rows and in its totals.
pub kpi_report-HasShares :
    (rounding : Rounding) (db : Db) (cal : SlaCalendar) (now : ℕ) (g : GroupBy)
    (date_from date_to : ℕ)
    → StaysBelow rounding
    → All IsSound db.requests
    → let report = kpi_report rounding db cal now g date_from date_to in
      All HasShares (report.totals ∷ report.rows)
unfolding kpi_report report_on rows_of
kpi_report-HasShares rounding db cal now g date_from date_to below sound =
    let closed = query_rows-All db.categories _ _ db.requests sound in
    (
      as_row-HasShares rounding none _ _ below
          (add_all-InOrder now _ empty_acc closed empty-InOrder),
      sorted _
          (shown_rows rounding db g _ below (group_rows-AreInOrder now (key_of g) _ [] closed tt)),
    )
