-- ===== src/Students.antt =====
-- The student of a partner's request: sync_student_from_profile of
-- backend/app/services/auth_service.py, with the faculties and groups that it files. The role of a
-- student exists, names and codes are unique, and `str.upper` is left to the caller.
pub mod Sync
pub mod Codes
mod Tests
use registrator_ofid.Base.{
  ℕ, zero, suc, ◌+◌, Bool, true, false, not, ◌&&◌, ◌==◌, List, [], ◌∷◌, ◌++◌, Option, none, some,
  if◌then◌else◌, filter, any, length, map, take,
}
use registrator_ofid.Base.Text.{Text, text, text_eq, is_nonempty, or_empty, split}
use registrator_ofid.Http.{Result, ok, err, auth_error, student_id_missing}
use registrator_ofid.Models.User.{Role}
use registrator_ofid.Tracking.{decimal}
use registrator_ofid.Sessions.{has_text}

pub record Faculty : Type 0 where
  pub id : ℕ
  pub name : Text
  pub code : Text
  pub is_active : Bool

pub record StudentGroup : Type 0 where
  pub id : ℕ
  pub name : Text
  pub faculty_id : Option ℕ
  pub is_active : Bool

pub record StudentRow : Type 0 where
  pub external_student_id : Option Text
  pub faculty_id : Option ℕ
  pub student_group_id : Option ℕ
  pub group_name : Option Text
  pub image_path : Option Text
  pub level : Option Text

-- A row of `users` with its row of `students`.
pub record Identity : Type 0 where
  pub id : ℕ
  pub full_name : Text
  pub role : Role
  pub is_active : Bool
  pub student_profile : Option StudentRow

pub record Profile : Type 0 where
  pub student_id_number : Option Text
  pub full_name : Option Text
  pub faculty : Option Text
  pub group : Option Text
  pub image_path : Option Text
  pub level : Option Text

-- The tables, whose next key is a function of the rows that there are, and `str.upper`.
pub record Directory : Type 0 where
  pub users : List Identity
  pub faculties : List Faculty
  pub groups : List StudentGroup

pub record SyncEnv : Type 0 where
  pub new_key : ℕ → ℕ
  pub upper : Text → Text

initials : List Text → Text
initials [] = []
initials ([] ∷ parts) = initials parts
initials ((c ∷ word) ∷ parts) = c ∷ initials parts

unfoldable pub or_else : Text → Text → Text
or_else t other = if is_nonempty t then t else other

-- `_slugify_code`, for a length of 16.
unfoldable pub slugify_code : (Text → Text) → Text → Text
unfolding or_else split initials
slugify_code upper name =
    let short = or_else (initials (split name)) (filter (λ c. not (c == 32)) name) in
    or_else (take 16 (upper short)) (text "F")

-- The code that is tried first, and `f"{code[:29]}-{suffix}"` after it.
unfoldable pub candidate : Text → ℕ → Text
candidate code zero = code
candidate code (suc n) = take 29 code ++ 45 ∷ decimal (suc n)

-- The `while True` on fuel: the first candidate from a suffix on that no faculty has.
unfoldable pub free_code : List Text → Text → ℕ → ℕ → Option Text
free_code codes code zero suffix = none
free_code codes code (suc fuel) suffix =
    let rest = free_code codes code fuel (suc suffix) in
    if has_text (candidate code suffix) codes then rest else some (candidate code suffix)

unfoldable pub find_named : List Faculty → Text → Option Faculty
find_named [] name = none
find_named (f ∷ faculties) name =
    let rest = find_named faculties name in if text_eq f.name name then some f else rest

unfoldable pub codes_of : List Faculty → List Text
codes_of faculties = map (λ f. f.code) faculties

unfoldable pub new_faculty : SyncEnv → List Faculty → Text → Text → Faculty
new_faculty env faculties name code = record {
  id = env.new_key (length faculties);
  name = name;
  code = code;
  is_active = true;
}

-- The faculty with a name, which is filed if there is none, and the faculties; `none` only if the fuel
-- runs out. Two more rounds than there are faculties are enough.
unfoldable pub file_faculty : SyncEnv → List Faculty → Text → Option (Faculty × List Faculty)
unfolding codes_of free_code slugify_code new_faculty
file_faculty env faculties name =
    elim (free_code (codes_of faculties) (take 32 (slugify_code env.upper name))
      (length faculties + 2) 0) [
        | none ↦ none
        | some code ↦ some (
          new_faculty env faculties name code,
          faculties ++ new_faculty env faculties name code ∷ [],
        )
      ]

-- `_upsert_faculty`
unfoldable pub upsert_faculty :
    SyncEnv → List Faculty → Option Text → Option (Option Faculty × List Faculty)
unfolding file_faculty find_named
upsert_faculty env faculties name =
    if not (is_nonempty (or_empty name))
    then some (none, faculties)
    else elim (find_named faculties (or_empty name)) [
      | some row ↦ some (some row, faculties)
      | none ↦ elim (file_faculty env faculties (or_empty name)) [
        | none ↦ none
        | some (row, filed) ↦ some (some row, filed)
      ]
    ]
