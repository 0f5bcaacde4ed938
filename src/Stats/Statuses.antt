-- ===== src/Stats/Statuses.antt =====
-- The dictionary of statuses in backend/app/services/stats_service.py.
use registrator_ofid.Base.{
  ℕ, suc, ◌+◌, ◌≡◌, refl, ap, ◌∙◌, Bool, true, false, ◌&&◌, List, [], ◌∷◌, arith, length,
  Bool-cases, inl, inr, if◌then◌else◌,
}
use registrator_ofid.Models.Status.{
  Status, new, accepted, in_progress, completed, rejected, returned, unknown, rank, other_spelling,
  same, same_sym, same_trans, is_in, open_statuses, closed_statuses, sla_running_statuses,
}
use registrator_ofid.Models.Request.{Request}
use registrator_ofid.Stats.{
  add_status, group_statuses, status_count, all_counts, counts_of, count_where,
}

all_counts-add_status :
    (s : Status) (counts : List (Status × ℕ))
    → all_counts (add_status s counts) ≡ suc (all_counts counts)
unfolding all_counts add_status
all_counts-add_status s [] = refl
all_counts-add_status s ((t, n) ∷ counts) = ground (arith, all_counts-add_status s counts)

pub all_counts-group : (rs : List Request) → all_counts (group_statuses rs) ≡ length rs
unfolding group_statuses all_counts
all_counts-group [] = refl
all_counts-group (r ∷ rs) =
    all_counts-add_status r.status (group_statuses rs) ∙ ap suc (all_counts-group rs)

apart_of : (s t u : Status) → same u s ≡ false → (same u t && same s t) ≡ false
apart_of s t u miss = elim (Bool-cases (same u t)) [
  | inr other ↦ ground (arith, other)
  | inl hit ↦
      let back : same u s ≡ same t s = same_trans u t s hit in
      let turned : same s t ≡ same t s = same_sym s t in ground (arith, miss, back, turned)
]

status_count-add_status :
    (s t : Status) (counts : List (Status × ℕ))
    → status_count (add_status s counts) t ≡ (if same s t then 1 else 0) + status_count counts t
unfolding status_count add_status
status_count-add_status s t [] = ground arith
status_count-add_status s t ((u, n) ∷ counts) = elim (Bool-cases (same u s)) [
  | inl hit ↦ let alike : same u t ≡ same s t = same_trans u s t hit in ground (arith, hit, alike)
  | inr miss ↦
      let apart : (same u t && same s t) ≡ false = apart_of s t u miss in
      ground (arith, miss, apart, status_count-add_status s t counts)
]

pub status_count-group :
    (t : Status) (rs : List Request)
    → status_count (group_statuses rs) t ≡ count_where (λ r. same r.status t) rs
unfolding group_statuses status_count
status_count-group t [] = refl
status_count-group t (r ∷ rs) =
    status_count-add_status r.status t (group_statuses rs) ∙ ground (arith, status_count-group t rs)

abbrev pub one_if : Bool → ℕ
one_if b = if b then 1 else 0

pub running_is_open :
    (s : Status) → is_in s sla_running_statuses ≡ true → is_in s open_statuses ≡ true
unfolding is_in
running_is_open s h = ground (arith, h)

open_share :
    (s : Status)
    → one_if (same s new)
        + (one_if (same s accepted)
            + (one_if (same s in_progress) + (one_if (same s returned) + 0)))
      ≡ one_if (is_in s open_statuses)
unfolding is_in same rank other_spelling
open_share new = refl
open_share accepted = refl
open_share in_progress = refl
open_share completed = refl
open_share rejected = refl
open_share returned = refl
open_share (unknown t) = refl

pub count_cons :
    (p : Request → Bool) (r : Request) (rs : List Request)
    → count_where p (r ∷ rs) ≡ one_if (p r) + count_where p rs
count_cons p r rs = ground arith

pub open_counts :
    (rs : List Request)
    → counts_of (group_statuses rs) open_statuses
      ≡ count_where (λ r. is_in r.status open_statuses) rs
open_counts rs = omega (
  arith,
  status_count-group new rs,
  status_count-group accepted rs,
  status_count-group in_progress rs,
  status_count-group returned rs,
  by_rows rs,
)
  where
    by_rows :
        (rs : List Request)
        → count_where (λ r. same r.status new) rs
            + (count_where (λ r. same r.status accepted) rs
                + (count_where (λ r. same r.status in_progress) rs
                    + count_where (λ r. same r.status returned) rs))
          ≡ count_where (λ r. is_in r.status open_statuses) rs
    by_rows [] = refl
    by_rows (r ∷ rs) = omega (
      arith,
      count_cons (λ q. same q.status new) r rs,
      count_cons (λ q. same q.status accepted) r rs,
      count_cons (λ q. same q.status in_progress) r rs,
      count_cons (λ q. same q.status returned) r rs,
      count_cons (λ q. is_in q.status open_statuses) r rs,
      open_share r.status,
      by_rows rs,
    )

closed_share :
    (s : Status)
    → one_if (same s completed) + (one_if (same s rejected) + 0) ≡ one_if (is_in s closed_statuses)
unfolding is_in same rank other_spelling
closed_share new = refl
closed_share accepted = refl
closed_share in_progress = refl
closed_share completed = refl
closed_share rejected = refl
closed_share returned = refl
closed_share (unknown t) = refl

closed_by_rows :
    (rs : List Request)
    → count_where (λ r. same r.status completed) rs + count_where (λ r. same r.status rejected) rs
      ≡ count_where (λ r. is_in r.status closed_statuses) rs
closed_by_rows [] = refl
closed_by_rows (r ∷ rs) = omega (
  arith,
  count_cons (λ q. same q.status completed) r rs,
  count_cons (λ q. same q.status rejected) r rs,
  count_cons (λ q. is_in q.status closed_statuses) r rs,
  closed_share r.status,
  closed_by_rows rs,
)

pub closed_counts :
    (rs : List Request)
    → counts_of (group_statuses rs) closed_statuses
      ≡ count_where (λ r. is_in r.status closed_statuses) rs
closed_counts rs =
    omega
      (arith, status_count-group completed rs, status_count-group rejected rs, closed_by_rows rs)
