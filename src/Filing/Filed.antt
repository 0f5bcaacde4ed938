-- ===== src/Filing/Filed.antt =====
-- What `create_request` of backend/app/services/request_service.py makes of a submission.
use mathlib.Core.Path.{subst₂}
use registrator_ofid.Base.{
  ℕ, ◌*◌, ◌≡◌, ap, ◌∙◌, subst, true, false, List, [], ◌∷◌, Option, none, some, arith, if◌then◌else◌,
  Bool-cases, Option-cases, All, is_some, ◌==◌, ◌++◌, inl, inr,
}
use registrator_ofid.Base.Text.{Text}
use registrator_ofid.Http.{Result, ok, err, Result-cases, >>=-eq-ok}
use registrator_ofid.Calendar.{sla_deadline_from, hour_us}
use registrator_ofid.Calendar.Add.{Due, add_working_time-Due}
use registrator_ofid.Models.Status.{in_progress, completed}
use registrator_ofid.Models.User.{User}
use registrator_ofid.Models.Category.{RequestCategory, is_auto_reply}
use registrator_ofid.Models.Request.{Request}
use registrator_ofid.Models.Db.{Db}
use registrator_ofid.Workflow.{add_history}
use registrator_ofid.Workflow.Sound.{IsSound}
use registrator_ofid.Filing.{
  Context, Submission, build_request, settle, with_history, choose, handler_for, id_of,
  create_request, with_row,
}
use registrator_ofid.Catalog.{resolve_service, find_category}
use registrator_ofid.Catalog.Coherent.{IsCoherent}
use registrator_ofid.Routing.{resolve_handler}
use registrator_ofid.Tracking.{generate_tracking_no}
use registrator_ofid.Filing.Row.{build_request-IsSound}

find_category-All :
    (id : ℕ) (cs : List RequestCategory) {c : RequestCategory}
    → All IsCoherent cs
    → find_category cs id ≡ some c
    → IsCoherent c
unfolding find_category
find_category-All id [] h e = cc
find_category-All id (d ∷ cs) {c} h e = elim (Bool-cases (d.id == id)) [
  | inl hit ↦ subst IsCoherent (ground arith) h.0
  | inr miss ↦ find_category-All id cs h.1 (ground arith)
]

-- A service that the client may file under is a coherent child of a request type.
resolve_service-facts :
    (db : Db) (id : ℕ) (type_id : Option ℕ) {c : RequestCategory}
    → All IsCoherent db.categories
    → resolve_service db id type_id ≡ ok c
    → IsCoherent c × (is_some c.parent_id ≡ true)
unfolding resolve_service
resolve_service-facts db id type_id {c} all h =
    elim (Option-cases (find_category db.categories id)) [
      | inl missing ↦ absurd (ground arith)
      | inr (d, found) ↦
          let same : d ≡ c = ground arith in
          let child : is_some c.parent_id ≡ true = ground arith in
          (subst IsCoherent same (find_category-All id db.categories all found), child)
    ]

-- Who receives a request under a service: nobody, or the handler that routing resolved.
abbrev pub Assigns : Db → User → RequestCategory → Option User → Type 0
Assigns db student category none = is_auto_reply category.routing ≡ true
Assigns db student category (some handler) =
    (is_auto_reply category.routing ≡ false) × (resolve_handler db student category ≡ ok handler)

handler_for-Assigns :
    (db : Db) (student : User) (category : RequestCategory) (who : Option User)
    → handler_for db student category ≡ ok who
    → Assigns db student category who
unfolding handler_for
handler_for-Assigns db student category none h = ground arith
handler_for-Assigns db student category (some handler) h = ground arith

choose-facts :
    (db : Db) (student : User) (form : Submission) {category : RequestCategory} {who : Option User}
    → choose db student form ≡ ok (category, who)
    → (resolve_service db form.category_id form.service_type_id ≡ ok category)
      × (handler_for db student category ≡ ok who)
unfolding choose
choose-facts db student form {category} {who} h =
    let (c, found, h1) = >>=-eq-ok (resolve_service db form.category_id form.service_type_id) _ h in
    let (w, given, h2) = >>=-eq-ok (handler_for db student c) _ h1 in
    let same_c : c ≡ category = ground arith in
    let same_w : w ≡ who = ground arith in
    (found ∙ ap ok same_c, subst₂ (λ a b. handler_for db student a ≡ ok b) same_c same_w given)

-- What a call that returned has filed. The request is the last row of the table and satisfies the
-- invariant. A service that answers by itself has closed it, with nobody assigned; any other service
-- has handed it, in progress, to the handler that routing resolved. Its number is the next one, and it
-- is due once the working time of the service has passed.
pub record Filed (db : Db) (ctx : Context) (student : User) (form : Submission) (db' : Db)
    (r : Request) : Type 0 where
  pub category : RequestCategory
  pub assignee : Option User
  pub resolved : resolve_service db form.category_id form.service_type_id ≡ ok category
  pub routed : Assigns db student category assignee
  pub assigned : r.assigned_to ≡ id_of assignee
  pub status : r.status ≡ (if is_auto_reply category.routing then completed else in_progress)
  pub stored : db'.requests ≡ db.requests ++ r ∷ []
  pub sound : IsSound r
  pub number : r.tracking_no ≡ (generate_tracking_no db.requests ctx.year ctx.counter).0
  pub due : Due ctx.calendar ctx.now (category.sla_hours * hour_us) r.sla_deadline

build_request-facts :
    (db : Db) (ctx : Context) (student : User) (category : RequestCategory) (assignee : Option User)
    → (form : Submission) (number : Text) (r : Request)
    → build_request db ctx student category assignee form number ≡ ok r
    → (r.assigned_to ≡ id_of assignee)
      × (r.status ≡ (if is_auto_reply category.routing then completed else in_progress))
unfolding build_request with_history settle add_history
build_request-facts db ctx student category assignee form number r h =
    elim (Option-cases (sla_deadline_from ctx.calendar ctx.now category.sla_hours)) [
      | inl e ↦ absurd (ground arith)
      | inr (d, e) ↦ elim (Bool-cases (is_auto_reply category.routing)) [
        | inl auto ↦ ground arith
        | inr manual ↦ ground arith
      ]
    ]

build_request-deadline :
    (db : Db) (ctx : Context) (student : User) (category : RequestCategory) (assignee : Option User)
    → (form : Submission) (number : Text) (r : Request)
    → build_request db ctx student category assignee form number ≡ ok r
    → (r.tracking_no ≡ number)
      × (sla_deadline_from ctx.calendar ctx.now category.sla_hours ≡ some r.sla_deadline)
unfolding build_request with_history settle add_history
build_request-deadline db ctx student category assignee form number r h =
    elim (Option-cases (sla_deadline_from ctx.calendar ctx.now category.sla_hours)) [
      | inl e ↦ absurd (ground arith)
      | inr (d, e) ↦ elim (Bool-cases (is_auto_reply category.routing)) [
        | inl auto ↦ ground arith
        | inr manual ↦ ground arith
      ]
    ]

build_request-columns :
    (db : Db) (ctx : Context) (student : User) (category : RequestCategory) (assignee : Option User)
    → (form : Submission) (number : Text) (r : Request)
    → build_request db ctx student category assignee form number ≡ ok r
    → (r.student_id ≡ student.id) × (r.client_ref ≡ form.client_ref)
unfolding build_request with_history settle add_history
build_request-columns db ctx student category assignee form number r h =
    elim (Option-cases (sla_deadline_from ctx.calendar ctx.now category.sla_hours)) [
      | inl e ↦ absurd (ground arith)
      | inr (d, e) ↦ elim (Bool-cases (is_auto_reply category.routing)) [
        | inl auto ↦ ground arith
        | inr manual ↦ ground arith
      ]
    ]

build_request-Due :
    (db : Db) (ctx : Context) (student : User) (category : RequestCategory) (assignee : Option User)
    → (form : Submission) (number : Text) (r : Request)
    → build_request db ctx student category assignee form number ≡ ok r
    → Due ctx.calendar ctx.now (category.sla_hours * hour_us) r.sla_deadline
unfolding sla_deadline_from
build_request-Due db ctx student category assignee form number r h =
    add_working_time-Due ctx.calendar ctx.now (category.sla_hours * hour_us)
      (build_request-deadline db ctx student category assignee form number r h).1

with_row-ok :
    (db : Db) (built : Result Request) {db' : Db} {r : Request}
    → with_row db built ≡ ok (db', r)
    → (built ≡ ok r) × (db'.requests ≡ db.requests ++ r ∷ [])
unfolding with_row
with_row-ok db (ok q) h = ground arith
with_row-ok db (err e) h = cc

-- The row of a submission goes to the end of the table, under its student and its reference.
pub create_request-row :
    (db : Db) (ctx : Context) (student : User) (form : Submission)
    → {db' : Db} {r : Request} → (create_request db ctx student form).0 ≡ ok (db', r)
    → (db'.requests ≡ db.requests ++ r ∷ [])
      × (r.student_id ≡ student.id)
      × (r.client_ref ≡ form.client_ref)
unfolding create_request
create_request-row db ctx student form {db'} {r} h =
    let number = (generate_tracking_no db.requests ctx.year ctx.counter).0 in
    elim (Result-cases (choose db student form)) [
      | inr (x, e) ↦ absurd (ground arith)
      | inl ((category, who), e) ↦
          let made : with_row db (build_request db ctx student category who form number)
              ≡ ok (db', r) =
            ground arith in
          let (built, stored) = with_row-ok db _ made in
          let (author, reference) =
            build_request-columns db ctx student category who form number r built in
          (stored, author, reference)
    ]

-- A submission that `create_request` accepts, over a catalogue whose rows are coherent, is stored as
-- the last row, with the next tracking number, and satisfies the invariant. A service that answers by
-- itself has answered and closed it, any other has handed it, in progress, to the handler that routing
-- resolved; and its deadline is the first moment at which the working time of the service has passed.
pub create_request-Filed :
    (db : Db) (ctx : Context) (student : User) (form : Submission)
    → {db' : Db} {r : Request} → All IsCoherent db.categories
    → (create_request db ctx student form).0 ≡ ok (db', r)
    → Filed db ctx student form db' r
unfolding create_request
create_request-Filed db ctx student form {db'} {r} all h =
    let number = (generate_tracking_no db.requests ctx.year ctx.counter).0 in
    elim (Result-cases (choose db student form)) [
      | inr (x, e) ↦ absurd (ground arith)
      | inl ((category, who), e) ↦
          let made : with_row db (build_request db ctx student category who form number)
              ≡ ok (db', r) =
            ground arith in
          let (built, stored) = with_row-ok db _ made in
          let (resolved, given) = choose-facts db student form e in
          let (coherent, child) = resolve_service-facts db _ _ all resolved in
          let (assigned, status) =
            build_request-facts db ctx student category who form number r built in
          record {
            category = category;
            assignee = who;
            resolved = resolved;
            routed = handler_for-Assigns db student category who given;
            assigned = assigned;
            status = status;
            stored = stored;
            number = (build_request-deadline db ctx student category who form number r built).0;
            due = build_request-Due db ctx student category who form number r built;
            sound =
                build_request-IsSound db ctx student category who form number r (ground arith)
                  built;
          }
    ]
