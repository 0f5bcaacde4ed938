-- ===== src/Routing/Tiers.antt =====
-- Whom backend/app/services/routing_service.py routes a request to, as an ordered list of tests: the
-- first test that anybody passes decides, and the least loaded of those who pass it is the handler.
use registrator_ofid.Base.{
  ℕ, ◌≡◌, refl, ap, subst, ◌∙◌, ◌⊎◌, inl, inr, Bool, true, false, ◌&&◌, List, [], ◌∷◌, Option, none,
  some, In, filter, In-filter, filter-In, arith, Bool-cases, Option-cases,
}
use registrator_ofid.Models.User.{User, Role}
use registrator_ofid.Models.User
use registrator_ofid.Models.Db.{Db}
use registrator_ofid.Routing.{
  open_load, is_bound, bound_employees, is_of_department, find_staff_for,
  find_registrator_for_faculty, manages_general, find_general_manager, can_receive, first_that,
  find_service_assignee, or_else, service_assignee, least_loaded,
}
use registrator_ofid.Routing.Best.{
  BestOf, Nobody, Answer, Lists, filter-Lists, least_loaded-Answer, least_loaded-some,
}

-- `u` is the best of the first tier that is not empty.
abbrev pub Picks : Db → List (User → Bool) → User → Type 0
Picks db [] u = ⊥
Picks db (p ∷ ps) u = BestOf db p u ⊎ (Nobody db p × Picks db ps u)

abbrev pub AllEmpty : Db → List (User → Bool) → Type 0
AllEmpty db [] = Unit
AllEmpty db (p ∷ ps) = Nobody db p × AllEmpty db ps

-- What a search over tiers finds.
abbrev pub Found : Db → List (User → Bool) → Option User → Type 0
Found db ps none = AllEmpty db ps
Found db ps (some u) = Picks db ps u

abbrev pub staff_of : ℕ → User → Bool
staff_of faculty = is_bound User.staff faculty

abbrev pub staff_of_department : ℕ → ℕ → User → Bool
staff_of_department faculty department u = is_of_department department u && staff_of faculty u

-- The student's department first, if it is known, then the faculty's staff, then its registrators.
abbrev pub student_tiers : ℕ → Option ℕ → List (User → Bool)
student_tiers faculty none = staff_of faculty ∷ is_bound User.registrator faculty ∷ []
student_tiers faculty (some department) =
    staff_of_department faculty department
    ∷ staff_of faculty
    ∷ is_bound User.registrator faculty
    ∷ []

-- The employee chosen on the service, if any, then the managers for general issues.
abbrev pub general_tiers : Option ℕ → List (User → Bool)
general_tiers none = manages_general ∷ []
general_tiers (some assignee_id) = can_receive assignee_id ∷ manages_general ∷ []

-- A search in one tier, then one in the others.
Found-or_else :
    (db : Db) (p : User → Bool) (ps : List (User → Bool)) (first second : Option User)
    → Answer db p first
    → Found db ps second
    → Found db (p ∷ ps) (or_else first second)
unfolding or_else
Found-or_else db p ps none none a f = (a, f)
Found-or_else db p ps none (some v) a f = inr (a, f)
Found-or_else db p ps (some u) second a f = inl a

-- A search that has found somebody decides.
Found-here :
    (db : Db) (p : User → Bool) (ps : List (User → Bool)) (first second : Option User)
    → Answer db p first
    → (u : User) × (first ≡ some u)
    → Found db (p ∷ ps) (or_else first second)
unfolding or_else
Found-here db p ps none second a (u, e) = cc
Found-here db p ps (some u) second a _ = inl a

Found-one : (db : Db) (p : User → Bool) (o : Option User) → Answer db p o → Found db (p ∷ []) o
Found-one db p none a = (a, tt)
Found-one db p (some u) a = inl a

by_bound :
    (db : Db) (role : Role) (faculty : ℕ)
    → Answer db (is_bound role faculty) (least_loaded db (bound_employees db role faculty))
unfolding bound_employees
by_bound db role faculty =
    least_loaded-Answer db (is_bound role faculty) _ (filter-Lists db (is_bound role faculty))

in_department-Lists :
    (db : Db) (faculty department : ℕ)
    → Lists db
        (staff_of_department faculty department)
        (filter (is_of_department department) (bound_employees db User.staff faculty))
unfolding bound_employees
in_department-Lists db faculty department = (
  λ v i.
      let (j, d) = In-filter (is_of_department department) v _ i in
      let (k, s) = In-filter (staff_of faculty) v db.users j in (k, rw (d, s)),
  λ v i h. elim (Bool-cases (is_of_department department v)) [
    | inl d ↦
        filter-In (is_of_department department) v _
          (filter-In (staff_of faculty) v db.users i (ground arith)) d
    | inr e ↦ absurd (ground arith)
  ],
)

-- The department's own staff is searched first, and the faculty's if it has none.
by_department :
    (db : Db) (p q : User → Bool) (rs : List (User → Bool)) (first second : Option User)
    → (found : List User) → Lists db p found
    → Answer db q first
    → Found db rs second
    → Found db
        (p ∷ q ∷ rs)
        (or_else (elim found [ [] ↦ first | c ∷ cs ↦ least_loaded db (c ∷ cs) ]) second)
unfolding or_else
by_department db p q rs first second [] lists a f =
    Found-or_else db p (q ∷ rs) none (or_else first second)
      (λ v i. elim (Bool-cases (p v)) [ inl h ↦ absurd (lists.1 v i h) | inr h ↦ h ])
      (Found-or_else db q rs first second a f)
by_department db p q rs first second (c ∷ cs) lists a f =
    Found-here db p (q ∷ rs) (least_loaded db (c ∷ cs)) second
      (least_loaded-Answer db p (c ∷ cs) lists) (least_loaded-some db c cs)

pub route_by_faculty-Found :
    (db : Db) (faculty : ℕ) (department : Option ℕ)
    → Found db
        (student_tiers faculty department)
        (or_else (find_staff_for db faculty department) (find_registrator_for_faculty db faculty))
unfolding find_staff_for find_registrator_for_faculty
route_by_faculty-Found db faculty none =
    Found-or_else db (staff_of faculty) (is_bound User.registrator faculty ∷ []) _ _
      (by_bound db User.staff faculty)
      (Found-one db (is_bound User.registrator faculty) _ (by_bound db User.registrator faculty))
route_by_faculty-Found db faculty (some department) =
    by_department db (staff_of_department faculty department) (staff_of faculty)
      (is_bound User.registrator faculty ∷ []) _ _ _ (in_department-Lists db faculty department)
      (by_bound db User.staff faculty)
      (Found-one db (is_bound User.registrator faculty) _ (by_bound db User.registrator faculty))

abbrev FirstIn : (User → Bool) → List User → Option User → Type 0
FirstIn p us none = (v : User) → In v us → p v ≡ false
FirstIn p us (some u) = In u us × (p u ≡ true)

FirstIn-cons :
    (p : User → Bool) (u : User) (us : List User) (o : Option User)
    → p u ≡ false
    → FirstIn p us o
    → FirstIn p (u ∷ us) o
FirstIn-cons p u us none miss f = λ v. elim [ inl e ↦ ap p e ∙ miss | inr i ↦ f v i ]
FirstIn-cons p u us (some v) miss (i, h) = (inr i, h)

first_that-FirstIn : (p : User → Bool) (us : List User) → FirstIn p us (first_that p us)
unfolding first_that
first_that-FirstIn p [] = λ v i. absurd i
first_that-FirstIn p (u ∷ us) = elim (Bool-cases (p u)) [
  | inl hit ↦ rw (hit, first_that) (inl refl, hit)
  | inr miss ↦ rw (miss, first_that) (FirstIn-cons p u us _ miss (first_that-FirstIn p us))
]

-- The test for the chosen employee names one id, so any user who passes it is as good as another.
same_id-BestOf :
    (db : Db) (a : ℕ) (u : User)
    → In u db.users
    → can_receive a u ≡ true
    → BestOf db (can_receive a) u
unfolding can_receive
same_id-BestOf db a u i h = record {
  member = i;
  fits = h;
  lightest = λ v j k.
      let same : u.id ≡ v.id = ground arith in inr (ap (open_load db.requests) same, omega arith);
}

first_that-Answer : (db : Db) (a : ℕ) → Answer db (can_receive a) (find_service_assignee db a)
unfolding find_service_assignee
first_that-Answer db a = elim (Option-cases (first_that (can_receive a) db.users)) [
  | inl e ↦
      rw e
        (subst (FirstIn (can_receive a) db.users) e (first_that-FirstIn (can_receive a) db.users))
  | inr (u, e) ↦
      let (i, h) =
        subst (FirstIn (can_receive a) db.users) e (first_that-FirstIn (can_receive a) db.users) in
      rw e (same_id-BestOf db a u i h)
]

general_managers-Answer : (db : Db) → Answer db manages_general (find_general_manager db)
unfolding find_general_manager
general_managers-Answer db =
    least_loaded-Answer db manages_general _ (filter-Lists db manages_general)

pub general-Found :
    (db : Db) (chosen : Option ℕ)
    → Found db
        (general_tiers chosen)
        (or_else (service_assignee db chosen) (find_general_manager db))
unfolding service_assignee or_else
general-Found db none = Found-one db manages_general _ (general_managers-Answer db)
general-Found db (some a) =
    Found-or_else db (can_receive a) (manages_general ∷ []) _ _ (first_that-Answer db a)
      (Found-one db manages_general _ (general_managers-Answer db))
