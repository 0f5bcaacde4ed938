-- ===== src/Listing/Latest.antt =====
-- The order of `list_requests` (backend/app/api/v1/requests.py): the latest request first.
use mathlib.Core.List.{Perm}
use mathlib.Core.List.Perm
use registrator_ofid.Base.{
  ℕ, suc, ◌≤◌, ◌≡◌, refl, sym, ap, subst, ◌∙◌, inl, inr, true, false, ltb, List, [], ◌∷◌, arith,
  length, All, Bool-cases,
}
use registrator_ofid.Models.Request.{Request}
use registrator_ofid.Listing.{insert_latest, latest_first}

insert_here :
    (r q : Request) (qs : List Request)
    → ltb r.created_at q.created_at ≡ false
    → insert_latest r (q ∷ qs) ≡ r ∷ q ∷ qs
unfolding insert_latest
insert_here r q qs h = rw h refl

insert_later :
    (r q : Request) (qs : List Request)
    → ltb r.created_at q.created_at ≡ true
    → insert_latest r (q ∷ qs) ≡ q ∷ insert_latest r qs
unfolding insert_latest
insert_later r q qs h = rw h refl

-- The latest of the rows comes first.
abbrev pub IsLatestFirst : List Request → Type 0
IsLatestFirst [] = Unit {0}
IsLatestFirst (r ∷ rs) = All (λ q. q.created_at ≤ r.created_at) rs × IsLatestFirst rs

-- Inserting and sorting move rows.
insert_latest-Perm : (r : Request) (qs : List Request) → Perm (insert_latest r qs) (r ∷ qs)
unfolding insert_latest
insert_latest-Perm r [] = Perm.rfl
insert_latest-Perm r (q ∷ qs) = elim (Bool-cases (ltb r.created_at q.created_at)) [
  | inr here ↦ subst (λ l. Perm l (r ∷ q ∷ qs)) (sym (insert_here r q qs here)) Perm.rfl
  | inl past ↦
      subst (λ l. Perm l (r ∷ q ∷ qs)) (sym (insert_later r q qs past))
        (Perm.trans (Perm.cons q (insert_latest-Perm r qs)) (Perm.swap r q qs))
]

pub latest_first-Perm : (rs : List Request) → Perm (latest_first rs) rs
unfolding latest_first
latest_first-Perm [] = Perm.rfl
latest_first-Perm (r ∷ rs) =
    Perm.trans (insert_latest-Perm r (latest_first rs)) (Perm.cons r (latest_first-Perm rs))

-- What holds of a row and of others holds of all once it is inserted.
All-insert_latest :
    (n : ℕ) (r : Request) (qs : List Request)
    → r.created_at ≤ n
    → All (λ q. q.created_at ≤ n) qs
    → All (λ q. q.created_at ≤ n) (insert_latest r qs)
unfolding insert_latest
All-insert_latest n r [] h a = (h, tt)
All-insert_latest n r (q ∷ qs) h a = elim (Bool-cases (ltb r.created_at q.created_at)) [
  | inr here ↦ subst (All (λ o. o.created_at ≤ n)) (sym (insert_here r q qs here)) (h, a)
  | inl past ↦
      subst (All (λ o. o.created_at ≤ n)) (sym (insert_later r q qs past))
        (a.0, All-insert_latest n r qs h a.1)
]

All-below :
    (m n : ℕ) (rs : List Request)
    → m ≤ n
    → All (λ q. q.created_at ≤ m) rs
    → All (λ q. q.created_at ≤ n) rs
All-below m n [] h a = tt
All-below m n (r ∷ rs) h a = (omega (arith, h, a.0), All-below m n rs h a.1)

insert_latest-IsLatestFirst :
    (r : Request) (qs : List Request) → IsLatestFirst qs → IsLatestFirst (insert_latest r qs)
unfolding insert_latest
insert_latest-IsLatestFirst r [] sorted = (tt, tt)
insert_latest-IsLatestFirst r (q ∷ qs) sorted = elim (Bool-cases (ltb r.created_at q.created_at)) [
  | inr here ↦
      let newer : q.created_at ≤ r.created_at = ground (arith, here) in
      subst IsLatestFirst (sym (insert_here r q qs here))
        ((newer, All-below q.created_at r.created_at qs newer sorted.0), sorted)
  | inl past ↦
      let older : r.created_at ≤ q.created_at = ground (arith, past) in
      subst IsLatestFirst (sym (insert_later r q qs past)) (
        All-insert_latest q.created_at r qs older sorted.0,
        insert_latest-IsLatestFirst r qs sorted.1,
      )
]

pub latest_first-IsLatestFirst : (rs : List Request) → IsLatestFirst (latest_first rs)
unfolding latest_first
latest_first-IsLatestFirst [] = tt
latest_first-IsLatestFirst (r ∷ rs) =
    insert_latest-IsLatestFirst r (latest_first rs) (latest_first-IsLatestFirst rs)

length-insert_latest :
    (r : Request) (qs : List Request) → length (insert_latest r qs) ≡ suc (length qs)
unfolding insert_latest
length-insert_latest r [] = refl
length-insert_latest r (q ∷ qs) = elim (Bool-cases (ltb r.created_at q.created_at)) [
  | inr here ↦ ap length (insert_here r q qs here)
  | inl past ↦ ap length (insert_later r q qs past) ∙ ap suc (length-insert_latest r qs)
]

pub length-latest_first : (rs : List Request) → length (latest_first rs) ≡ length rs
unfolding latest_first
length-latest_first [] = refl
length-latest_first (r ∷ rs) =
    length-insert_latest r (latest_first rs) ∙ ap suc (length-latest_first rs)
