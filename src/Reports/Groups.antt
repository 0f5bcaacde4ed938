-- ===== src/Reports/Groups.antt =====
-- What the rows of a report of backend/app/services/report_service.py count.
use registrator_ofid.Base.{
  ℕ, ◌+◌, ◌≡◌, refl, ap, ◌∙◌, Bool, true, false, ◌&&◌, ltb, List, [], ◌∷◌, Option, none, some,
  arith, map, Bool-cases, inl, inr, if◌then◌else◌, filter, length, ==_iff,
}
use registrator_ofid.Models.Db.{Db}
use registrator_ofid.Models.Status.{
  same, is_in, completed, rejected, open_statuses, sla_running_statuses,
}
use registrator_ofid.Reports.{GroupBy, Row, Acc, empty_acc, add, KpiRow, Rounding, as_row, sum}
use registrator_ofid.Reports.Kpi.{
  GroupMap, same_group, add_to, group_rows, insert_row, sort_rows, row_of_group, report_on, key_of,
}

-- A counter of the accumulator counts the rows that pass a test.
record IsCounter (now : ℕ) (count : Acc → ℕ) (test : Row → Bool) : Type 0 where
  starts : count empty_acc ≡ 0
  adds : (row : Row) (acc : Acc) → count (add now row acc) ≡ count acc + (if test row then 1 else 0)

same_group-≡ : (a b : Option ℕ) → same_group a b ≡ true → a ≡ b
unfolding same_group
same_group-≡ none none h = refl
same_group-≡ none (some j) h = absurd (ground arith)
same_group-≡ (some i) none h = absurd (ground arith)
same_group-≡ (some i) (some j) h = ap some ((==_iff i j).0 h)

module _ (now : ℕ) (count : Acc → ℕ) (test : Row → Bool) (c : IsCounter now count test)
    (keep : Option ℕ → Bool) where
  -- The counters of the groups that are kept.
  abbrev kept_counts : GroupMap → ℕ
  kept_counts [] = 0
  kept_counts ((k, acc) ∷ groups) = (if keep k then count acc else 0) + kept_counts groups

  -- What a row adds to them.
  abbrev gain : Option ℕ → Row → ℕ
  gain key row = if keep key && test row then 1 else 0

  add_to_here :
      (key k : Option ℕ) (row : Row) (acc : Acc) (groups : GroupMap)
      → same_group k key ≡ true
      → add_to now key row ((k, acc) ∷ groups) ≡ (k, add now row acc) ∷ groups
  unfolding add_to
  add_to_here key k row acc groups h = rw h refl

  add_to_later :
      (key k : Option ℕ) (row : Row) (acc : Acc) (groups : GroupMap)
      → same_group k key ≡ false
      → add_to now key row ((k, acc) ∷ groups) ≡ (k, acc) ∷ add_to now key row groups
  unfolding add_to
  add_to_later key k row acc groups h = rw h refl

  added :
      (k : Option ℕ) (row : Row) (acc : Acc)
      → (if keep k then count (add now row acc) else 0)
        ≡ (if keep k then count acc else 0) + gain k row
  added k row acc = ground (arith, c.adds row acc)

  kept_counts-add_to :
      (key : Option ℕ) (row : Row) (groups : GroupMap)
      → kept_counts (add_to now key row groups) ≡ kept_counts groups + gain key row
  unfolding add_to
  kept_counts-add_to key row [] = ground (arith, added key row empty_acc, c.starts)
  kept_counts-add_to key row ((k, acc) ∷ groups) = elim (Bool-cases (same_group k key)) [
    | inl hit ↦
        let same_gain : gain k row ≡ gain key row = ap (λ o. gain o row) (same_group-≡ k key hit) in
        ap kept_counts (add_to_here key k row acc groups hit)
        ∙ omega (arith, added k row acc, same_gain)
    | inr miss ↦
        ap kept_counts (add_to_later key k row acc groups miss)
        ∙ omega (arith, kept_counts-add_to key row groups)
  ]

  -- How many rows of the kept groups pass.
  abbrev tally : (Row → Option ℕ) → List Row → ℕ
  tally column rows = length (filter (λ row. keep (column row) && test row) rows)

  tally_cons :
      (column : Row → Option ℕ) (row : Row) (rows : List Row)
      → tally column (row ∷ rows) ≡ gain (column row) row + tally column rows
  tally_cons column row rows = ground arith

  kept_counts-group_rows :
      (column : Row → Option ℕ) (rows : List Row) (groups : GroupMap)
      → kept_counts (group_rows now column rows groups) ≡ kept_counts groups + tally column rows
  unfolding group_rows
  kept_counts-group_rows column [] groups = omega arith
  kept_counts-group_rows column (row ∷ rows) groups =
      kept_counts-group_rows column rows (add_to now (column row) row groups)
      ∙ omega (arith, kept_counts-add_to (column row) row groups, tally_cons column row rows)

-- The sum of a column over the rows of a report whose keys are kept.
abbrev pub column_sum : (KpiRow → ℕ) → (Option ℕ → Bool) → List KpiRow → ℕ
column_sum f keep rows = sum (map (λ r. if keep r.key then f r else 0) rows)

insert_sum :
    (f : KpiRow → ℕ) (r : KpiRow) (rs : List KpiRow)
    → sum (map f (insert_row r rs)) ≡ f r + sum (map f rs)
unfolding insert_row
insert_sum f r [] = refl
insert_sum f r (q ∷ qs) = ground (arith, insert_sum f r qs)

sort_sum : (f : KpiRow → ℕ) (rs : List KpiRow) → sum (map f (sort_rows rs)) ≡ sum (map f rs)
unfolding sort_rows
sort_sum f [] = refl
sort_sum f (r ∷ rs) = omega (arith, insert_sum f r (sort_rows rs), sort_sum f rs)

mapped_sum :
    (rounding : Rounding) (db : Db) (g : GroupBy) (now : ℕ) (count : Acc → ℕ) (test : Row → Bool)
    (c : IsCounter now count test) (keep : Option ℕ → Bool) (f : KpiRow → ℕ)
    → ((k : Option ℕ) (acc : Acc) → f (row_of_group rounding db g (k, acc)) ≡ count acc)
    → (groups : GroupMap)
    → column_sum f keep (map (row_of_group rounding db g) groups)
      ≡ kept_counts now count test c keep groups
unfolding row_of_group as_row
mapped_sum rounding db g now count test c keep f shows [] = refl
mapped_sum rounding db g now count test c keep f shows ((k, acc) ∷ groups) =
    ap
      (λ n. (if keep k then n else 0) + column_sum f keep (map (row_of_group rounding db g) groups))
      (shows k acc)
    ∙ ap (λ n. (if keep k then count acc else 0) + n)
        (mapped_sum rounding db g now count test c keep f shows groups)

-- How many of the requests whose group is kept pass a test.
abbrev pub requests_in : (Option ℕ → Bool) → GroupBy → (Row → Bool) → List Row → ℕ
requests_in keep g test rows = length (filter (λ row. keep (key_of g row) && test row) rows)

report_counts :
    (rounding : Rounding) (db : Db) (g : GroupBy) (now date_from date_to : ℕ) (count : Acc → ℕ)
    (test : Row → Bool) (c : IsCounter now count test) (keep : Option ℕ → Bool) (f : KpiRow → ℕ)
    → ((k : Option ℕ) (acc : Acc) → f (row_of_group rounding db g (k, acc)) ≡ count acc)
    → (rows : List Row)
    → column_sum f keep (report_on rounding db now g date_from date_to rows).rows
      ≡ requests_in keep g test rows
unfolding report_on
report_counts rounding db g now date_from date_to count test c keep f shows rows =
    let groups = group_rows now (key_of g) rows [] in
    sort_sum (λ r. if keep r.key then f r else 0) (map (row_of_group rounding db g) groups)
    ∙ mapped_sum rounding db g now count test c keep f shows groups
    ∙ kept_counts-group_rows now count test c keep (key_of g) rows []
    ∙ omega arith

-- Whatever groups of a report are taken together, its rows count the requests of the period that
-- belong to these groups: all of them, the open, completed and rejected ones, and those overdue.
pub report_on_counts :
    (rounding : Rounding) (db : Db) (now : ℕ) (g : GroupBy) (date_from date_to : ℕ)
    (rows : List Row) (keep : Option ℕ → Bool)
    → let report = report_on rounding db now g date_from date_to rows in
      (column_sum (λ r. r.total) keep report.rows ≡ requests_in keep g (λ row. true) rows)
      × (column_sum (λ r. r.still_open) keep report.rows
          ≡ requests_in keep g (λ row. is_in row.status open_statuses) rows)
      × (column_sum (λ r. r.completed_count) keep report.rows
          ≡ requests_in keep g (λ row. same row.status completed) rows)
      × (column_sum (λ r. r.rejected_count) keep report.rows
          ≡ requests_in keep g (λ row. same row.status rejected) rows)
      × (column_sum (λ r. r.overdue_open) keep report.rows
          ≡ requests_in keep g
              (λ row. is_in row.status sla_running_statuses && ltb row.sla_deadline now)
              rows)
unfolding add row_of_group as_row
report_on_counts rounding db now g date_from date_to rows keep = (
  report_counts rounding db g now date_from date_to (λ a. a.total) _
      (record { starts = refl; adds = λ row acc. refl }) keep (λ r. r.total) (λ k acc. refl) rows,
  report_counts rounding db g now date_from date_to (λ a. a.still_open) _
      (record { starts = refl; adds = λ row acc. ground arith }) keep (λ r. r.still_open)
      (λ k acc. refl) rows,
  report_counts rounding db g now date_from date_to (λ a. a.completed_count) _
      (record { starts = refl; adds = λ row acc. ground arith }) keep (λ r. r.completed_count)
      (λ k acc. refl) rows,
  report_counts rounding db g now date_from date_to (λ a. a.rejected_count) _
      (record { starts = refl; adds = λ row acc. ground arith }) keep (λ r. r.rejected_count)
      (λ k acc. refl) rows,
  report_counts rounding db g now date_from date_to (λ a. a.overdue_open) _
      (record { starts = refl; adds = λ row acc. ground arith }) keep (λ r. r.overdue_open)
      (λ k acc. refl) rows,
)
