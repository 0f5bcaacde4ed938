-- ===== src/Catalog.antt =====
-- backend/app/services/catalog_service.py: the two-level catalogue of request types and their service
-- types.
pub mod Coherent
mod Tests
use registrator_ofid.Base.{
  ℕ, suc, ◌+◌, Bool, true, false, not, ◌&&◌, ◌||◌, ◌==◌, ltb, leb, List, [], ◌∷◌, ◌++◌, Option,
  none, some, if◌then◌else◌, filter, length, is_some,
}
use registrator_ofid.Base.Text.{Text, text, strip, is_nonempty, or_empty}
use registrator_ofid.Http.{
  Result, ok, ◌>>=◌, ◌>>◌, raise_if, or_raise, own_parent, request_type_missing, parent_not_root,
  auto_reply_text_missing, assignee_not_allowed, assignee_not_eligible, kind_change,
  service_missing, service_inactive, not_a_service, type_inactive, type_mismatch,
  file_not_for_auto_reply, too_many_answer_files, file_missing,
}
use registrator_ofid.Models.User.{User, has_role}
use registrator_ofid.Models.User
use registrator_ofid.Models.Category.{
  RequestCategory, AutoReplyFile, ServiceRouting, faculty_manager, is_auto_reply, is_general,
}
use registrator_ofid.Models.Db.{Db}

-- `MAX_ANSWER_FILES` of file_service.py.
abbrev pub max_answer_files : ℕ
max_answer_files = 10

-- `_clean`
unfoldable pub clean : Option Text → Option Text
clean t = let s = strip (or_empty t) in if is_nonempty s then some s else none

unfoldable pub find_category : List RequestCategory → ℕ → Option RequestCategory
find_category [] id = none
find_category (c ∷ cs) id = if c.id == id then some c else find_category cs id

is_moving : Option RequestCategory → ℕ → Bool
is_moving none parent_id = false
is_moving (some c) parent_id = parent_id == c.id

-- `_parent_request_type`
unfoldable pub parent_request_type : Db → ℕ → Option RequestCategory → Result RequestCategory
unfolding is_moving
parent_request_type db parent_id moving = do
  raise_if (is_moving moving parent_id) 400 own_parent
  parent ← or_raise (find_category db.categories parent_id) 404 request_type_missing
  raise_if (is_some parent.parent_id) 400 parent_not_root
  ok parent

-- `_check_auto_reply`
unfoldable pub check_auto_reply : ServiceRouting → Option Text → Result (Unit {0})
check_auto_reply routing auto_reply_text =
    raise_if (is_auto_reply routing && not (is_some (clean auto_reply_text))) 422
      auto_reply_text_missing

-- The active user with an id and a role that may receive requests.
is_eligible : ℕ → List User → Bool
is_eligible id [] = false
is_eligible id (u ∷ us) =
    if (u.id == id) && u.is_active
    then has_role u (User.staff ∷ User.registrator ∷ [])
    else is_eligible id us

-- `_check_assignee`
unfoldable pub check_assignee : Db → ServiceRouting → Option ℕ → Result (Unit {0})
unfolding is_eligible
check_assignee db routing none = ok tt
check_assignee db routing (some assignee_id) = do
  raise_if (not (is_general routing)) 400 assignee_not_allowed
  raise_if (not (is_eligible assignee_id db.users)) 400 assignee_not_eligible

pub record CategoryCreate : Type 0 where
  pub parent_id : Option ℕ
  pub name : Text
  pub description : Option Text
  pub sla_hours : ℕ
  pub priority : Text
  pub routing : ServiceRouting
  pub auto_reply_text : Option Text
  pub auto_reply_description : Option Text
  pub assignee_id : Option ℕ
  pub icon : Option Text

-- A root takes the columns' defaults for what belongs to service types.
new_root : ℕ → CategoryCreate → RequestCategory
new_root id form = record {
  id = id;
  parent_id = none;
  name = strip form.name;
  description = clean form.description;
  sla_hours = 24;
  priority = text "normal";
  routing = faculty_manager;
  auto_reply_text = none;
  auto_reply_description = none;
  assignee_id = none;
  is_active = true;
  icon = form.icon;
}

new_service : ℕ → RequestCategory → CategoryCreate → RequestCategory
new_service id parent form = record {
  id = id;
  parent_id = some parent.id;
  name = strip form.name;
  description = clean form.description;
  sla_hours = form.sla_hours;
  priority = form.priority;
  routing = form.routing;
  auto_reply_text = clean form.auto_reply_text;
  auto_reply_description = clean form.auto_reply_description;
  assignee_id = form.assignee_id;
  is_active = true;
  icon = form.icon;
}

build_under : Db → ℕ → CategoryCreate → Option ℕ → Result RequestCategory
unfolding new_root new_service
build_under db id form none = ok (new_root id form)
build_under db id form (some parent_id) = do
  parent ← parent_request_type db parent_id none
  check_auto_reply form.routing form.auto_reply_text
  check_assignee db form.routing form.assignee_id
  ok (new_service id parent form)

-- `build_category`; `id` is the key that the database gives to the row.
unfoldable pub build_category : Db → ℕ → CategoryCreate → Result RequestCategory
unfolding build_under
build_category db id form = build_under db id form form.parent_id

-- A partial update: `none` for a field that the payload lacks, `some none` for an explicit null.
pub record CategoryUpdate : Type 0 where
  pub parent_id : Option (Option ℕ)
  pub name : Option (Option Text)
  pub description : Option (Option Text)
  pub sla_hours : Option (Option ℕ)
  pub priority : Option (Option Text)
  pub routing : Option (Option ServiceRouting)
  pub auto_reply_text : Option (Option Text)
  pub auto_reply_description : Option (Option Text)
  pub assignee_id : Option (Option ℕ)
  pub is_active : Option (Option Bool)
  pub icon : Option (Option Text)

-- A column that may be null, and one where a null means "leave it".
abbrev set_nullable : {A : Type 0} → Option A → Option (Option A) → Option A
set_nullable old none = old
set_nullable old (some value) = value

abbrev set_present : {A : Type 0} → A → Option (Option A) → A
set_present old none = old
set_present old (some none) = old
set_present old (some (some value)) = value

abbrev map_present : {A : Type 0} → (Option A → Option A) → Option (Option A) → Option (Option A)
map_present f none = none
map_present f (some value) = some (f value)

abbrev strip_present : Option Text → Option Text
strip_present none = none
strip_present (some t) = some (strip t)

check_parent : Db → RequestCategory → Option (Option ℕ) → Result (Unit {0})
check_parent db cat none = ok tt
check_parent db cat (some none) = raise_if (is_some cat.parent_id) 400 kind_change
check_parent db cat (some (some new_parent)) = do
  raise_if (not (is_some cat.parent_id)) 400 kind_change
  parent ← parent_request_type db new_parent (some cat)
  ok tt

set_fields : RequestCategory → CategoryUpdate → RequestCategory
set_fields cat payload = record cat {
  parent_id = set_nullable cat.parent_id payload.parent_id;
  name = set_present cat.name (map_present strip_present payload.name);
  description = set_nullable cat.description (map_present clean payload.description);
  sla_hours = set_present cat.sla_hours payload.sla_hours;
  priority = set_present cat.priority payload.priority;
  routing = set_present cat.routing payload.routing;
  auto_reply_text = set_nullable cat.auto_reply_text (map_present clean payload.auto_reply_text);
  auto_reply_description =
      set_nullable cat.auto_reply_description (map_present clean payload.auto_reply_description);
  assignee_id = set_nullable cat.assignee_id payload.assignee_id;
  is_active = set_present cat.is_active payload.is_active;
  icon = set_nullable cat.icon payload.icon;
}

-- The end of `apply_category_update`, on whether the payload names an assignee.
settle_assignee : Db → RequestCategory → Option (Option ℕ) → Result RequestCategory
settle_assignee db cat (some _) = do check_assignee db cat.routing cat.assignee_id; ok cat
settle_assignee db cat none =
    ok (if is_general cat.routing then cat else record cat { assignee_id = none })

unfoldable pub apply_category_update :
    Db → RequestCategory → CategoryUpdate → Result RequestCategory
unfolding check_parent set_fields settle_assignee
apply_category_update db cat payload = do
  check_parent db cat payload.parent_id
  let cat' = set_fields cat payload
  if is_some cat'.parent_id then check_auto_reply cat'.routing cat'.auto_reply_text else ok tt
  settle_assignee db cat' payload.assignee_id

-- Before another file in `order_by(created_at, id)`.
file_before : AutoReplyFile → AutoReplyFile → Bool
file_before f g = ltb f.created_at g.created_at || ((f.created_at == g.created_at) && leb f.id g.id)

insert_file : AutoReplyFile → List AutoReplyFile → List AutoReplyFile
insert_file f [] = f ∷ []
insert_file f (g ∷ gs) =
    let rest = insert_file f gs in if file_before f g then f ∷ g ∷ gs else g ∷ rest

sort_files : List AutoReplyFile → List AutoReplyFile
sort_files [] = []
sort_files (f ∷ fs) = insert_file f (sort_files fs)

unfoldable pub list_auto_reply_files : Db → RequestCategory → List AutoReplyFile
unfolding sort_files insert_file file_before
list_auto_reply_files db cat =
    sort_files (filter (λ f. f.category_id == cat.id) db.auto_reply_files)

-- `add_auto_reply_file`; `record_of` is the row that the stored upload gets.
unfoldable pub add_auto_reply_file :
    Db → RequestCategory → Result AutoReplyFile → Result (Db × AutoReplyFile)
add_auto_reply_file db cat stored = do
  raise_if (not (is_some cat.parent_id) || not (is_auto_reply cat.routing)) 400
      file_not_for_auto_reply
  raise_if
      (leb max_answer_files (length (filter (λ f. f.category_id == cat.id) db.auto_reply_files)))
      422 too_many_answer_files
  file ← stored
  ok (record db { auto_reply_files = db.auto_reply_files ++ file ∷ [] }, file)

find_file : (AutoReplyFile → Bool) → List AutoReplyFile → Option AutoReplyFile
find_file p [] = none
find_file p (f ∷ fs) = if p f then some f else find_file p fs

unfoldable pub get_auto_reply_file : Db → RequestCategory → ℕ → Result AutoReplyFile
unfolding find_file
get_auto_reply_file db cat file_id =
    or_raise (find_file (λ f. (f.id == file_id) && (f.category_id == cat.id)) db.auto_reply_files)
      404 file_missing

unfoldable pub remove_auto_reply_file : Db → RequestCategory → ℕ → Result (Db × AutoReplyFile)
remove_auto_reply_file db cat file_id = do
  file ← get_auto_reply_file db cat file_id
  ok (
    record db { auto_reply_files = filter (λ f. not (f.id == file.id)) db.auto_reply_files },
    file,
  )

matches_type : Option ℕ → ℕ → Bool
matches_type none type_id = true
matches_type (some id) type_id = id == type_id

under_type : Db → RequestCategory → Option ℕ → Option ℕ → Result RequestCategory
unfolding matches_type
under_type db service service_type_id none = or_raise none 400 not_a_service
under_type db service service_type_id (some parent_id) = do
  request_type ← or_raise (find_category db.categories parent_id) 400 request_type_missing
  raise_if (not request_type.is_active) 400 type_inactive
  raise_if (not (matches_type service_type_id request_type.id)) 400 type_mismatch
  ok service

unfoldable pub resolve_service : Db → ℕ → Option ℕ → Result RequestCategory
unfolding under_type
resolve_service db service_id service_type_id = do
  service ← or_raise (find_category db.categories service_id) 400 service_missing
  raise_if (not service.is_active) 400 service_inactive
  under_type db service service_type_id service.parent_id
