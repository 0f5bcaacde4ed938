-- ===== src/Endpoints/Idempotent.antt =====
-- A partner that sends a submission again: `create` of backend/app/api/v1/requests.py files it once.
use registrator_ofid.Base.{
  ℕ, ◌≡◌, refl, sym, ap, subst, ◌∙◌, true, false, ◌&&◌, ◌==◌, List, [], ◌∷◌, ◌++◌, Option, none,
  some, arith, Bool-cases, Option-cases, inl, inr,
}
use registrator_ofid.Base.Text.{Text, text_eq_refl, is_nonempty}
use registrator_ofid.Http.{ok, err, http, students_only, >>=-eq-ok, ok_inj}
use registrator_ofid.Models.User.{User, has_role}
use registrator_ofid.Models.User
use registrator_ofid.Models.Request.{Request}
use registrator_ofid.Filing.{Context, create_request}
use registrator_ofid.Filing.Filed.{create_request-row}
use registrator_ofid.Workflow.{find_request}
use registrator_ofid.Workflow.Access.{find_request-In}
use registrator_ofid.Views.{RequestDetail, for_viewer, summary_of}
use registrator_ofid.Work.{Env, Work}
use registrator_ofid.Actions.{RequestCreate, file_request, submission}
use registrator_ofid.Actions.Kept.{announce_filed-db}
use registrator_ofid.Endpoints.{
  Replied, reply_with, has_ref, find_by_client_ref, already_filed, file_new, create,
}
use registrator_ofid.Endpoints.Replies.{reply_of, reply_with_row, reply_with_found, clash}

hit_here :
    (r : Request) (rs : List Request) (id : ℕ) (ref : Text)
    → ((r.student_id == id) && has_ref r.client_ref ref) ≡ true
    → find_by_client_ref (r ∷ rs) id ref ≡ some r
unfolding find_by_client_ref
hit_here r rs id ref h = rw h refl

miss_here :
    (r : Request) (rs : List Request) (id : ℕ) (ref : Text)
    → ((r.student_id == id) && has_ref r.client_ref ref) ≡ false
    → find_by_client_ref (r ∷ rs) id ref ≡ find_by_client_ref rs id ref
unfolding find_by_client_ref
miss_here r rs id ref h = rw h refl

not_both : {r : Request} {o : Option Request} → o ≡ some r → o ≡ none → ⊥
not_both e f = cc

-- A reference that no row had is found again in the row that was added with it.
found_again :
    (rs : List Request) (r : Request) (ref : Text)
    → r.client_ref ≡ some ref
    → find_by_client_ref rs r.student_id ref ≡ none
    → find_by_client_ref (rs ++ r ∷ []) r.student_id ref ≡ some r
unfolding has_ref
found_again [] r ref has missing =
    hit_here r [] r.student_id ref (rw has (ground (arith, text_eq_refl ref)))
found_again (q ∷ rs) r ref has missing =
    elim (Bool-cases ((q.student_id == r.student_id) && has_ref q.client_ref ref)) [
      | inl hit ↦ absurd (not_both (hit_here q rs r.student_id ref hit) missing)
      | inr miss ↦
          miss_here q (rs ++ r ∷ []) r.student_id ref miss
          ∙ found_again rs r ref has (sym (miss_here q rs r.student_id ref miss) ∙ missing)
    ]

file_request-row :
    (env : Env) (work : Work) (ctx : Context) (user : User) (form : RequestCreate)
    (key : Option Text) (work' : Work) (req : Request)
    → (file_request env work ctx user form key none).0 ≡ ok (work', req)
    → (work'.db.requests ≡ work.db.requests ++ req ∷ [])
      × (req.student_id ≡ user.id)
      × (req.client_ref ≡ key)
unfolding file_request submission
file_request-row env work ctx user form key work' req h =
    let ((db, r), made, same) =
      >>=-eq-ok (create_request work.db ctx user (submission form key none)).0 _ h in
    let (stored, author, reference) =
      create_request-row work.db ctx user (submission form key none) made in
    let same_row : r ≡ req = ap (λ o. o.1) (ok_inj same) in
    let same_db : work'.db ≡ db =
      sym (ap (λ o. o.0.db) (ok_inj same)) ∙ announce_filed-db env _ user _ r in
    subst
      (λ o.
        (work'.db.requests ≡ work.db.requests ++ o ∷ [])
        × (o.student_id ≡ user.id)
        × (o.client_ref ≡ key))
      same_row (ap (λ d. d.requests) same_db ∙ stored, author, reference)

-- The row under the key of a submission, after it was filed.
record Remembered (work : Work) (user : User) (key : Text) (shown : RequestDetail) : Type 0 where
  row : Request
  kept : Request
  remembered : already_filed work user (some key) ≡ some row
  found : find_request work.db.requests row.id ≡ some kept
  same_id : shown.summary.id ≡ row.id

module _ (env : Env) (work : Work) (ctx : Context) (user : User) (form : RequestCreate) where
  create_known :
      (key : Option Text) (existing : Request)
      → has_role user (User.student ∷ []) ≡ true
      → already_filed work user key ≡ some existing
      → create env work ctx user form key ≡ (reply_with env 200 work existing.id user, ctx.counter)
  unfolding create
  create_known key existing student known = rw (student, known) refl

  create_new :
      (key : Option Text)
      → has_role user (User.student ∷ []) ≡ true
      → already_filed work user key ≡ none
      → create env work ctx user form key ≡ file_new env work ctx user form key
  unfolding create
  create_new key student missing = rw (student, missing) refl

  create_refused :
      (key : Option Text)
      → has_role user (User.student ∷ []) ≡ false
      → create env work ctx user form key ≡ (err (http 403 students_only), ctx.counter)
  unfolding create
  create_refused key other = rw other refl

  as_student :
      (key : Option Text) (reply : Replied RequestDetail)
      → (create env work ctx user form key).0 ≡ ok reply
      → has_role user (User.student ∷ []) ≡ true
  as_student key reply h = elim (Bool-cases (has_role user (User.student ∷ []))) [
    | inl student ↦ student
    | inr other ↦ absurd (clash h (ap (λ o. o.0) (create_refused key other)))
  ]

-- The key is remembered once its row can be found and was shown.
remember :
    (env : Env) (code : ℕ) (work : Work) (user : User) (key : Text) (row : Request)
    (reply : Replied RequestDetail)
    → already_filed work user (some key) ≡ some row
    → reply_with env code work row.id user ≡ ok reply
    → Remembered reply.work user key reply.body
unfolding reply_of for_viewer summary_of
remember env code work user key row reply known replied =
    let (q, found, same) = reply_with_found env code work row.id user reply replied in
    subst (λ r. Remembered r.work user key r.body) (sym same)
      (record {
        row = row;
        kept = q;
        remembered = known;
        found = found;
        same_id = (find_request-In work.db.requests row.id q found).1;
      })

filed_is_known :
    (work work' : Work) (user : User) (key : Text) (req : Request)
    → is_nonempty key ≡ true
    → already_filed work user (some key) ≡ none
    → work'.db.requests ≡ work.db.requests ++ req ∷ []
    → req.student_id ≡ user.id
    → req.client_ref ≡ some key
    → already_filed work' user (some key) ≡ some req
unfolding already_filed
filed_is_known work work' user [] req filled missing stored author reference = absurd (ground arith)
filed_is_known work work' user (c ∷ key) req filled missing stored author reference =
    ap (λ rs. find_by_client_ref rs user.id (c ∷ key)) stored
    ∙ subst (λ i. find_by_client_ref (work.db.requests ++ req ∷ []) i (c ∷ key) ≡ some req) author
        (found_again work.db.requests req (c ∷ key) reference
          (ap (λ i. find_by_client_ref work.db.requests i (c ∷ key)) author ∙ missing))

filed-Remembered :
    (env : Env) (work : Work) (ctx : Context) (user : User) (form : RequestCreate) (key : Text)
    (reply : Replied RequestDetail)
    → is_nonempty key ≡ true
    → (create env work ctx user form (some key)).0 ≡ ok reply
    → Remembered reply.work user key reply.body
unfolding file_new
filed-Remembered env work ctx user form key reply filled h =
    let student = as_student env work ctx user form (some key) reply h in
    elim (Option-cases (already_filed work user (some key))) [
      | inr (existing, known) ↦ remember env 200 work user key existing reply known (
          sym
            (ap (λ o. o.0) (create_known env work ctx user form (some key) existing student known))
          ∙ h)
      | inl missing ↦
          let made =
            sym (ap (λ o. o.0) (create_new env work ctx user form (some key) student missing))
            ∙ h in
          let ((work', req), filed, replied) =
            >>=-eq-ok (file_request env work ctx user form (some key) none).0 _ made in
          let (stored, author, reference) =
            file_request-row env work ctx user form (some key) work' req filed in
          remember env 201 work' user key req reply
            (filed_is_known work work' user key req filled missing stored author reference) replied
    ]

-- A submission that was accepted with a key and is sent again with it, whatever it then holds and
-- whenever it comes, is answered with 200 and the request that was filed first; nothing is filed or
-- announced, and no number is taken.
pub create_idempotent :
    (env env' : Env) (work : Work) (ctx ctx' : Context) (user : User) (form form' : RequestCreate)
    (key : Text) (reply : Replied RequestDetail)
    → is_nonempty key ≡ true
    → (create env work ctx user form (some key)).0 ≡ ok reply
    → (again : Replied RequestDetail) × (create env' reply.work ctx' user form' (some key)
        ≡ (ok again, ctx'.counter))
      × (again.status_code ≡ 200)
      × (again.work ≡ reply.work)
      × (again.body.summary.id ≡ reply.body.summary.id)
unfolding reply_of for_viewer summary_of
create_idempotent env env' work ctx ctx' user form form' key reply filled h =
    let m = filed-Remembered env work ctx user form key reply filled h in
    let student = as_student env work ctx user form (some key) reply h in
    (
      reply_of env' 200 reply.work user m.kept,
      create_known env' reply.work ctx' user form' (some key) m.row student m.remembered
          ∙ ap (λ o. (o, ctx'.counter))
              (reply_with_row env' 200 reply.work m.row.id user m.kept m.found),
      refl,
      refl,
      (find_request-In reply.work.db.requests m.row.id m.kept m.found).1 ∙ sym m.same_id,
    )
