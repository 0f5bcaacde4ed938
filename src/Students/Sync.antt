-- ===== src/Students/Sync.antt =====
-- `_upsert_student_group` and `sync_student_from_profile` of backend/app/services/auth_service.py.
use registrator_ofid.Base.{
  ℕ, Bool, true, false, not, ◌&&◌, ◌==◌, List, [], ◌∷◌, ◌++◌, Option, none, some, if◌then◌else◌,
  length,
}
use registrator_ofid.Base.Text.{Text, text_eq, is_nonempty, or_empty}
use registrator_ofid.Http.{Result, ok, err, auth_error, student_id_missing}
use registrator_ofid.Models.User.{Role}
use registrator_ofid.Students.{
  Faculty, StudentGroup, StudentRow, Identity, Profile, Directory, SyncEnv, or_else, upsert_faculty,
}

same_faculty : Option ℕ → Option ℕ → Bool
same_faculty none none = true
same_faculty none (some n) = false
same_faculty (some m) none = false
same_faculty (some m) (some n) = m == n

find_group : List StudentGroup → Text → Option ℕ → Option StudentGroup
unfolding same_faculty
find_group [] name faculty = none
find_group (g ∷ groups) name faculty =
    let rest = find_group groups name faculty in
    if text_eq g.name name && same_faculty g.faculty_id faculty then some g else rest

abbrev id_of : Option Faculty → Option ℕ
id_of none = none
id_of (some f) = some f.id

new_group : SyncEnv → List StudentGroup → Text → Option ℕ → StudentGroup
new_group env groups name faculty = record {
  id = env.new_key (length groups);
  name = name;
  faculty_id = faculty;
  is_active = true;
}

-- `_upsert_student_group`
unfoldable pub upsert_student_group :
    SyncEnv
    → List StudentGroup
    → Option Text
    → Option Faculty
    → Option StudentGroup × List StudentGroup
unfolding find_group new_group
upsert_student_group env groups name faculty =
    let row = new_group env groups (or_empty name) (id_of faculty) in
    if not (is_nonempty (or_empty name))
    then (none, groups)
    else elim (find_group groups (or_empty name) (id_of faculty)) [
      | some found ↦ (some found, groups)
      | none ↦ (some row, groups ++ row ∷ [])
    ]

same_student_id : Option Text → Text → Bool
same_student_id none id = false
same_student_id (some t) id = text_eq t id

has_student_id : Option StudentRow → Text → Bool
unfolding same_student_id
has_student_id none id = false
has_student_id (some s) id = same_student_id s.external_student_id id

find_student : List Identity → Text → Option Identity
unfolding has_student_id
find_student [] id = none
find_student (u ∷ users) id =
    let rest = find_student users id in if has_student_id u.student_profile id then some u else rest

-- `value or kept`, where a text that is empty does not count.
or_left : Option Text → Option Text → Option Text
or_left value kept = if is_nonempty (or_empty value) then value else kept

set_faculty : Option Faculty → StudentRow → StudentRow
set_faculty none s = s
set_faculty (some f) s = record s { faculty_id = some f.id }

set_group : Option StudentGroup → StudentRow → StudentRow
set_group none s = s
set_group (some g) s = record s { student_group_id = some g.id; group_name = some g.name }

abbrev empty_profile : StudentRow
empty_profile = record {
  external_student_id = none;
  faculty_id = none;
  student_group_id = none;
  group_name = none;
  image_path = none;
  level = none;
}

abbrev or_new_profile : Option StudentRow → StudentRow
or_new_profile none = empty_profile
or_new_profile (some s) = s

-- `_apply_profile`
unfoldable pub apply_profile :
    Profile → Text → Option Faculty → Option StudentGroup → Identity → Identity
unfolding or_else or_left set_faculty set_group
apply_profile profile student_id faculty group user =
    let academic = set_group group (set_faculty faculty (or_new_profile user.student_profile)) in
    record user {
      full_name = or_else (or_empty profile.full_name) user.full_name;
      student_profile = some (record academic {
        external_student_id = some student_id;
        image_path = or_left profile.image_path academic.image_path;
        level = or_left profile.level academic.level;
      });
    }

save_identity : List Identity → Identity → List Identity
save_identity [] user = []
save_identity (u ∷ users) user =
    let rest = save_identity users user in if u.id == user.id then user ∷ users else u ∷ rest

-- `profile.get("full_name", student_id)`
name_or : Option Text → Text → Text
name_or none student_id = student_id
name_or (some t) student_id = t

new_identity : SyncEnv → List Identity → Profile → Text → Identity
unfolding name_or
new_identity env users profile student_id = record {
  id = env.new_key (length users);
  full_name = name_or profile.full_name student_id;
  role = Role.student;
  is_active = true;
  student_profile = none;
}

unfoldable pub upsert_identity :
    SyncEnv
    → List Identity
    → Profile
    → Text
    → Option Faculty
    → Option StudentGroup
    → Identity × List Identity
unfolding new_identity save_identity find_student apply_profile
upsert_identity env users profile student_id faculty group = elim (find_student users student_id) [
  | none ↦
      let user =
        apply_profile profile student_id faculty group
          (new_identity env users profile student_id) in
      (user, users ++ user ∷ [])
  | some found ↦
      let user = apply_profile profile student_id faculty group found in
      (user, save_identity users user)
]

unfoldable pub with_faculty :
    SyncEnv → Directory → Profile → Text → Option Faculty × List Faculty → Identity × Directory
unfolding upsert_student_group upsert_identity
with_faculty env db profile student_id (faculty, faculties) =
    let (group, groups) = upsert_student_group env db.groups profile.group faculty in
    let (user, users) = upsert_identity env db.users profile student_id faculty group in
    (user, record { users = users; faculties = faculties; groups = groups })

-- `sync_student_from_profile`; `none` only if the loop of `upsert_faculty` runs out of fuel.
unfoldable pub sync_student_from_profile :
    SyncEnv → Directory → Profile → Option (Result (Identity × Directory))
unfolding upsert_faculty with_faculty
sync_student_from_profile env db profile =
    let student_id = or_empty profile.student_id_number in
    if not (is_nonempty student_id)
    then some (err (auth_error student_id_missing))
    else elim (upsert_faculty env db.faculties profile.faculty) [
      | none ↦ none
      | some filed ↦ some (ok (with_faculty env db profile student_id filed))
    ]
