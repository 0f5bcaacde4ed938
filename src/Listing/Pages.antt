-- ===== src/Listing/Pages.antt =====
-- What a page of `list_requests` (backend/app/api/v1/requests.py) holds.
use mathlib.Core.List.{Perm}
use registrator_ofid.Base.{
  ℕ, zero, suc, ◌-◌, ◌≡◌, refl, sym, ap, ◌∙◌, ◌↔◌, inl, inr, Bool, true, ltb, List, [], ◌∷◌, arith,
  length, take, drop, filter, map, Bool-cases, if◌then◌else◌,
}
use registrator_ofid.Base.Text.{Text}
use registrator_ofid.Http.{ok}
use registrator_ofid.Models.User.{User, has_role}
use registrator_ofid.Models.User
use registrator_ofid.Models.Request.{Request}
use registrator_ofid.Views.{summary_of}
use registrator_ofid.Workflow.Access.{CanSee, is_id-some}
use registrator_ofid.Listing.{
  Query, Page, role_keeps, query_keeps, keeps, latest_first, page_rows, known_status, list_requests,
}
use registrator_ofid.Listing.Latest.{
  IsLatestFirst, latest_first-Perm, latest_first-IsLatestFirst, length-latest_first,
}

-- The smaller of two numbers.
abbrev pub least : ℕ → ℕ → ℕ
least m n = if ltb m n then m else n

length-take : {A : Type 0} (n : ℕ) (xs : List A) → length (take n xs) ≡ least (length xs) n
length-take zero xs = ground arith
length-take (suc n) [] = ground arith
length-take (suc n) (x ∷ xs) = ground (arith, length-take n xs)

length-drop : {A : Type 0} (n : ℕ) (xs : List A) → length (drop n xs) ≡ length xs - n
length-drop zero xs = omega arith
length-drop (suc n) [] = omega arith
length-drop (suc n) (x ∷ xs) = omega (arith, length-drop n xs)

length-map : {A B : Type 0} (f : A → B) (xs : List A) → length (map f xs) ≡ length xs
length-map f [] = refl
length-map f (x ∷ xs) = ap suc (length-map f xs)

role_keeps-CanSee : (user : User) (r : Request) → role_keeps user r ≡ true → CanSee r user
unfolding role_keeps
role_keeps-CanSee user r h = elim (Bool-cases (has_role user (User.student ∷ []))) [
  | inl student ↦ (inr (ground (arith, h, student)), inl (User.one_role user student))
  | inr other ↦ (
    inl other,
    elim (Bool-cases (has_role user (User.staff ∷ []))) [
      | inl staff ↦ inr ((is_id-some r.assigned_to user.id).0 (ground (arith, h, other, staff)))
      | inr neither ↦ inl neither
    ],
  )
]

CanSee-role_keeps : (user : User) (r : Request) → CanSee r user → role_keeps user r ≡ true
unfolding role_keeps
CanSee-role_keeps user r (author, handler) = elim (Bool-cases (has_role user (User.student ∷ []))) [
  | inl is ↦ elim author [ inl other ↦ absurd (ground arith) | inr e ↦ ground arith ]
  | inr no_student ↦ elim (Bool-cases (has_role user (User.staff ∷ []))) [
    | inl is ↦ elim handler [
      | inl other ↦ absurd (ground arith)
      | inr e ↦ ground (arith, (is_id-some r.assigned_to user.id).1 e)
    ]
    | inr neither ↦ ground arith
  ]
]

-- What the filters keep: the rows that the user may see and that the query asks for.
keeps_iff :
    (ilike : Text → Text → Bool) (now : ℕ) (q : Query) (user : User) (r : Request)
    → (keeps ilike now q user r ≡ true) ↔ (CanSee r user × (query_keeps ilike now q r ≡ true))
unfolding keeps
keeps_iff ilike now q user r = (
  λ h. (role_keeps-CanSee user r (ground (arith, h)), ground (arith, h)),
  λ (sees, wanted). ground (arith, CanSee-role_keeps user r sees, wanted),
)

-- A page: the summaries of `limit` rows from the offset on, of all the rows that the filters keep with
-- the latest first, which the total counts.
pub record IsPage (ilike : Text → Text → Bool) (now : ℕ) (requests : List Request) (q : Query)
    (user : User) (page : Page) : Type 0 where
  pub kept :
      (r : Request)
      → (keeps ilike now q user r ≡ true) ↔ (CanSee r user × (query_keeps ilike now q r ≡ true))
  pub order : List Request
  pub all_kept : Perm order (filter (keeps ilike now q user) requests)
  pub latest : IsLatestFirst order
  pub shown : page.items ≡ map (summary_of now) (take q.limit (drop q.offset order))
  pub counted : page.total ≡ length order
  pub size : length page.items ≡ least (page.total - q.offset) q.limit
  pub limit : page.limit ≡ q.limit
  pub offset : page.offset ≡ q.offset

-- A query whose status is known gets a page. It shows, as summaries, at most `limit` rows from the
-- offset on, and no fewer than there are, of all the stored requests that the user may see and that
-- the query keeps, with the latest first; and its total counts all of these.
pub list_requests-IsPage :
    (ilike : Text → Text → Bool) (now : ℕ) (requests : List Request) (q : Query) (user : User)
    → known_status q ≡ true
    → (page : Page) × (list_requests ilike now requests q user ≡ ok page)
      × IsPage ilike now requests q user page
unfolding list_requests page_rows
list_requests-IsPage ilike now requests q user known =
    let found = filter (keeps ilike now q user) requests in
    let rows = take q.limit (drop q.offset (latest_first found)) in
    (
      record {
        items = map (summary_of now) rows;
        total = length found;
        limit = q.limit;
        offset = q.offset;
      },
      rw (list_requests, known) refl,
      record {
        kept = keeps_iff ilike now q user;
        order = latest_first found;
        all_kept = latest_first-Perm found;
        latest = latest_first-IsLatestFirst found;
        shown = refl;
        counted = sym (length-latest_first found);
        size =
            length-map (summary_of now) rows
            ∙ length-take q.limit (drop q.offset (latest_first found))
            ∙ ap (λ n. least n q.limit)
                (length-drop q.offset (latest_first found)
                  ∙ ap (λ n. n - q.offset) (length-latest_first found));
        limit = refl;
        offset = refl;
      },
    )
