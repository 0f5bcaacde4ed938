-- ===== src/Catalog/Coherent.antt =====
-- What backend/app/services/catalog_service.py keeps true of each row of the catalogue.
use registrator_ofid.Base.{
  ℕ, ◌≡◌, refl, sym, ap, ◌∙◌, subst, inl, inr, true, not, ◌||◌, Option, none, some, arith,
  if◌then◌else◌, Bool-cases, Option-cases, is_some,
}
use registrator_ofid.Base.Text.{
  Text, or_empty, has_ink, has_ink-strip, nonempty-strip, strip, is_nonempty,
}
use registrator_ofid.Http.{ok, >>=-eq-ok}
use registrator_ofid.Models.Category.{RequestCategory, ServiceRouting, is_auto_reply, is_general}
use registrator_ofid.Models.Db.{Db}
use registrator_ofid.Catalog.{
  clean, check_auto_reply, check_assignee, parent_request_type, CategoryCreate, build_category,
  CategoryUpdate, apply_category_update, check_parent, set_fields, settle_assignee, new_service,
  set_nullable,
}

-- A service type that answers by itself has an answer that is not blank, and only a node whose route is
-- the general one names an employee.
pub record IsCoherent (c : RequestCategory) : Type 0 where
  pub answers :
      (not (is_some c.parent_id)
        || (not (is_auto_reply c.routing) || has_ink (or_empty c.auto_reply_text)))
      ≡ true
  pub assigns : (not (is_some c.assignee_id) || is_general c.routing) ≡ true

clean-is_some : (t : Option Text) → is_some (clean t) ≡ has_ink (or_empty t)
unfolding clean
clean-is_some t = elim (Bool-cases (is_nonempty (strip (or_empty t)))) [
  | inl full ↦ rw (full, clean) (sym full ∙ nonempty-strip (or_empty t))
  | inr blank ↦ rw (blank, clean) (sym blank ∙ nonempty-strip (or_empty t))
]

has_ink-clean : (t : Option Text) → has_ink (or_empty (clean t)) ≡ has_ink (or_empty t)
unfolding clean
has_ink-clean t = elim (Bool-cases (is_nonempty (strip (or_empty t)))) [
  | inl full ↦ rw (full, clean) (has_ink-strip (or_empty t))
  | inr blank ↦ rw (blank, clean) (sym blank ∙ nonempty-strip (or_empty t))
]

check_auto_reply-ok :
    (routing : ServiceRouting) (t : Option Text)
    → check_auto_reply routing t ≡ ok tt
    → (not (is_auto_reply routing) || has_ink (or_empty t)) ≡ true
unfolding check_auto_reply
check_auto_reply-ok routing t h = ground (arith, clean-is_some t)

check_assignee-ok :
    (db : Db) (routing : ServiceRouting) (id : Option ℕ)
    → check_assignee db routing id ≡ ok tt
    → (not (is_some id) || is_general routing) ≡ true
unfolding check_assignee
check_assignee-ok db routing none h = refl
check_assignee-ok db routing (some id) h = ground arith

new_service-IsCoherent :
    (db : Db) (id : ℕ) (parent : RequestCategory) (form : CategoryCreate)
    → (not (is_auto_reply form.routing) || has_ink (or_empty form.auto_reply_text)) ≡ true
    → (not (is_some form.assignee_id) || is_general form.routing) ≡ true
    → IsCoherent (new_service id parent form)
unfolding new_service
new_service-IsCoherent db id parent form answers assigns = record {
  answers = rw (has_ink-clean form.auto_reply_text) answers;
  assigns = assigns;
}

-- A node that `build_category` returns is coherent.
pub build_category-IsCoherent :
    (db : Db) (id : ℕ) (form : CategoryCreate) {c : RequestCategory}
    → build_category db id form ≡ ok c
    → IsCoherent c
unfolding build_category
build_category-IsCoherent db id form {c} h = elim (Option-cases form.parent_id) [
  | inl root ↦ record { answers = ground arith; assigns = ground arith }
  | inr (p, e) ↦
      let (parent, found, h1) = >>=-eq-ok (parent_request_type db p none) _ (rw e at h) in
      let (_, good, h2) = >>=-eq-ok (check_auto_reply form.routing form.auto_reply_text) _ h1 in
      let (_, fine, h3) = >>=-eq-ok (check_assignee db form.routing form.assignee_id) _ h2 in
      let answers = check_auto_reply-ok form.routing form.auto_reply_text good in
      let assigns = check_assignee-ok db form.routing form.assignee_id fine in
      let same : new_service id parent form ≡ c = ground arith in
      subst IsCoherent same (new_service-IsCoherent db id parent form answers assigns)
]

-- The end of an update: the chosen employee is checked, or dropped where the route takes none.
settle_assignee-IsCoherent :
    (db : Db) (cat c : RequestCategory) (a : Option (Option ℕ))
    → (not (is_some cat.parent_id)
        || (not (is_auto_reply cat.routing) || has_ink (or_empty cat.auto_reply_text)))
      ≡ true
    → settle_assignee db cat a ≡ ok c
    → IsCoherent c × (c.parent_id ≡ cat.parent_id)
unfolding settle_assignee
settle_assignee-IsCoherent db cat c none answers h =
    (record { answers = ground arith; assigns = ground arith }, ground arith)
settle_assignee-IsCoherent db cat c (some a) answers h =
    let (_, fine, done) = >>=-eq-ok (check_assignee db cat.routing cat.assignee_id) _ h in
    let assigns = check_assignee-ok db cat.routing cat.assignee_id fine in
    (record { answers = ground arith; assigns = ground arith }, ground arith)

check_parent-kind :
    (db : Db) (cat : RequestCategory) (a : Option (Option ℕ))
    → check_parent db cat a ≡ ok tt
    → is_some (set_nullable cat.parent_id a) ≡ is_some cat.parent_id
unfolding check_parent
check_parent-kind db cat none h = refl
check_parent-kind db cat (some none) h = ground arith
check_parent-kind db cat (some (some p)) h = ground arith

check_route :
    (cat : RequestCategory)
    → (if is_some cat.parent_id then check_auto_reply cat.routing cat.auto_reply_text else ok tt)
      ≡ ok tt
    → (not (is_some cat.parent_id)
        || (not (is_auto_reply cat.routing) || has_ink (or_empty cat.auto_reply_text)))
      ≡ true
check_route cat h = elim (Bool-cases (is_some cat.parent_id)) [
  | inl service ↦ rw service (check_auto_reply-ok cat.routing cat.auto_reply_text (rw service at h))
  | inr root ↦ rw root refl
]

-- A successful update returns a coherent node, whatever the node was, and leaves a request type a
-- request type and a service type a service type.
pub apply_category_update-IsCoherent :
    (db : Db) (cat : RequestCategory) (payload : CategoryUpdate) {c : RequestCategory}
    → apply_category_update db cat payload ≡ ok c
    → IsCoherent c × (is_some c.parent_id ≡ is_some cat.parent_id)
unfolding apply_category_update set_fields
apply_category_update-IsCoherent db cat payload {c} h =
    let cat' = set_fields cat payload in
    let (_, kind, h1) = >>=-eq-ok (check_parent db cat payload.parent_id) _ h in
    let (_, route, h2) =
      >>=-eq-ok
        (if is_some cat'.parent_id
          then check_auto_reply cat'.routing cat'.auto_reply_text
          else ok tt)
        _ h1 in
    let (coherent, parent) =
      settle_assignee-IsCoherent db cat' c payload.assignee_id (check_route cat' route) h2 in
    (coherent, ap is_some parent ∙ check_parent-kind db cat payload.parent_id kind)
