-- ===== src/Routing/Best.antt =====
-- `_least_loaded` of backend/app/services/routing_service.py picks a least loaded candidate.
use registrator_ofid.Base.{
  ◌≤◌, ◌<◌, ◌≡◌, refl, sym, subst, ◌⊎◌, inl, inr, Bool, true, false, List, [], ◌∷◌, Option, none,
  some, In, filter, In-filter, filter-In, arith, Bool-cases,
}
use registrator_ofid.Models.User.{User}
use registrator_ofid.Models.Request.{Request}
use registrator_ofid.Models.Db.{Db}
use registrator_ofid.Routing.{open_load, key_lt, min_from, least_loaded}

-- `u` carries fewer open requests than `v`, or as many and has no greater id.
abbrev pub NoMoreThan : List Request → User → User → Type 0
NoMoreThan requests u v =
    (open_load requests u.id < open_load requests v.id)
    ⊎ ((open_load requests u.id ≡ open_load requests v.id) × (u.id ≤ v.id))

-- `u` is a user of the table who passes the test `p`, and every user who passes it carries as many
-- open requests or more, ties going to the smaller id.
pub record BestOf (db : Db) (p : User → Bool) (u : User) : Type 0 where
  pub member : In u db.users
  pub fits : p u ≡ true
  pub lightest : (v : User) → In v db.users → p v ≡ true → NoMoreThan db.requests u v

-- Nobody in the table passes the test.
abbrev pub Nobody : Db → (User → Bool) → Type 0
Nobody db p = (v : User) → In v db.users → p v ≡ false

NoMoreThan-refl : (requests : List Request) (u : User) → NoMoreThan requests u u
NoMoreThan-refl requests u = inr (refl, omega arith)

NoMoreThan-trans :
    (requests : List Request) (u v w : User)
    → NoMoreThan requests u v
    → NoMoreThan requests v w
    → NoMoreThan requests u w
NoMoreThan-trans requests u v w a b = ground arith

key_lt_cases :
    (requests : List Request) (c d : User)
    → (key_lt requests c d ≡ true → NoMoreThan requests c d)
      × (key_lt requests c d ≡ false → NoMoreThan requests d c)
unfolding key_lt
key_lt_cases requests c d = (λ h. ground arith, λ h. ground arith)

-- `m` is `c` or one of `cs`, and no worse than any of them.
abbrev IsBest : List Request → User → User → List User → Type 0
IsBest requests m c cs =
    ((m ≡ c) ⊎ In m cs) × NoMoreThan requests m c × ((v : User) → In v cs → NoMoreThan requests m v)

keep-IsBest :
    (requests : List Request) (m c d : User) (cs : List User)
    → NoMoreThan requests c d
    → IsBest requests m c cs
    → IsBest requests m c (d ∷ cs)
keep-IsBest requests m c d cs less (place, best, rest) = (
  elim place [ inl e ↦ inl e | inr i ↦ inr (inr i) ],
  best,
  λ v. elim [
    | inl e ↦ subst (NoMoreThan requests m) (sym e) (NoMoreThan-trans requests m c d best less)
    | inr i ↦ rest v i
  ],
)

switch-IsBest :
    (requests : List Request) (m c d : User) (cs : List User)
    → NoMoreThan requests d c
    → IsBest requests m d cs
    → IsBest requests m c (d ∷ cs)
switch-IsBest requests m c d cs less (place, best, rest) = (
  inr place,
  NoMoreThan-trans requests m d c best less,
  λ v. elim [ inl e ↦ subst (NoMoreThan requests m) (sym e) best | inr i ↦ rest v i ],
)

min_from-IsBest :
    (requests : List Request) (c : User) (cs : List User)
    → IsBest requests (min_from requests c cs) c cs
unfolding min_from
min_from-IsBest requests c [] = (inl refl, NoMoreThan-refl requests c, λ v i. absurd i)
min_from-IsBest requests c (d ∷ cs) = elim (Bool-cases (key_lt requests d c)) [
  | inl less ↦
      let step : min_from requests d cs ≡ min_from requests c (d ∷ cs) = rw (less, min_from) in
      subst (λ m. IsBest requests m c (d ∷ cs)) step
        (switch-IsBest requests _ c d cs ((key_lt_cases requests d c).0 less)
          (min_from-IsBest requests d cs))
  | inr more ↦
      let step : min_from requests c cs ≡ min_from requests c (d ∷ cs) = rw (more, min_from) in
      subst (λ m. IsBest requests m c (d ∷ cs)) step
        (keep-IsBest requests _ c d cs ((key_lt_cases requests d c).1 more)
          (min_from-IsBest requests c cs))
]

-- What `_least_loaded` answers about the users who pass a test.
abbrev pub Answer : Db → (User → Bool) → Option User → Type 0
Answer db p none = Nobody db p
Answer db p (some u) = BestOf db p u

least_loaded-IsBest :
    (db : Db) (c : User) (cs : List User)
    → (m : User) × (least_loaded db (c ∷ cs) ≡ some m) × IsBest db.requests m c cs
unfolding least_loaded
least_loaded-IsBest db c [] = (c, refl, (inl refl, NoMoreThan-refl db.requests c, λ v i. absurd i))
least_loaded-IsBest db c (d ∷ rest) =
    (min_from db.requests c (d ∷ rest), refl, min_from-IsBest db.requests c (d ∷ rest))

-- `found` lists the users of the table who pass the test.
abbrev pub Lists : Db → (User → Bool) → List User → Type 0
Lists db p found =
    ((v : User) → In v found → In v db.users × (p v ≡ true))
    × ((v : User) → In v db.users → p v ≡ true → In v found)

pub filter-Lists : (db : Db) (p : User → Bool) → Lists db p (filter p db.users)
filter-Lists db p = (λ v i. In-filter p v db.users i, λ v i h. filter-In p v db.users i h)

pub least_loaded-Answer :
    (db : Db) (p : User → Bool) (found : List User)
    → Lists db p found
    → Answer db p (least_loaded db found)
unfolding least_loaded
least_loaded-Answer db p [] (sound, complete) =
    λ v i. elim (Bool-cases (p v)) [ inl h ↦ absurd (complete v i h) | inr h ↦ h ]
least_loaded-Answer db p (c ∷ cs) (sound, complete) =
    let (m, e, (place, best, rest)) = least_loaded-IsBest db c cs in
    let (member, fits) = sound m place in
    rw (e, least_loaded)
      (record {
        member = member;
        fits = fits;
        lightest = λ v i h. elim (complete v i h) [
          | inl same ↦ subst (NoMoreThan db.requests m) (sym same) best
          | inr later ↦ rest v later
        ];
      })

-- A search among some candidates finds one.
pub least_loaded-some :
    (db : Db) (c : User) (cs : List User) → (m : User) × (least_loaded db (c ∷ cs) ≡ some m)
least_loaded-some db c cs = let (m, e, _) = least_loaded-IsBest db c cs in (m, e)
