-- ===== src/Students/Tests.antt =====
-- Profiles of backend/app/services/auth_service.py on concrete rows.
use registrator_ofid.Tracking.{decimal}
use registrator_ofid.Sessions.{has_text}
use registrator_ofid.Base.{
  ◌+◌, ◌-◌, ◌≡◌, refl, true, ◌&&◌, leb, List, [], ◌∷◌, none, some, if◌then◌else◌, map,
}
use registrator_ofid.Base.Text.{Text, text}
use registrator_ofid.Http.{err, auth_error, student_id_missing}
use registrator_ofid.Students.{
  Faculty, SyncEnv, Profile, slugify_code, free_code, upsert_faculty, candidate,
}
use registrator_ofid.Students.Sync.{sync_student_from_profile}
use registrator_ofid.Students.Codes.{Upserted, upsert_faculty_total}

abbrev env : SyncEnv
env = record {
  new_key = λ n. n + 1;
  upper = λ t. map (λ c. if leb 97 c && leb c 122 then c - 32 else c) t;
}

abbrev taken : Text → Faculty
taken code = record { id = 1; name = text "Fizika"; code = code; is_active = true }

abbrev faculties : List Faculty
faculties = taken (text "AF") ∷ taken (text "AF-1") ∷ []

abbrev profile : Profile
profile = record {
  student_id_number = none;
  full_name = none;
  faculty = some (text "Aniq fanlar");
  group = none;
  image_path = none;
  level = none;
}

code_of_words : slugify_code env.upper (text "Aniq  fanlar") ≡ text "AF"
unfolding slugify_code
code_of_words = refl

code_of_blank : slugify_code env.upper (text "  ") ≡ text "F"
unfolding slugify_code
code_of_blank = refl

third_code : free_code (text "AF" ∷ text "AF-1" ∷ []) (text "AF") 4 0 ≡ some (text "AF-2")
unfolding free_code has_text candidate decimal
third_code = refl

nobody :
    sync_student_from_profile env
      (record { users = []; faculties = faculties; groups = [] })
      profile
    ≡ some (err (auth_error student_id_missing))
unfolding sync_student_from_profile
nobody = refl

new_code_example :
    (f : Faculty) × (after : List Faculty) × (upsert_faculty env faculties
        (some (text "Aniq fanlar"))
      ≡ some (some f, after))
    × Upserted faculties (text "Aniq fanlar") f after
new_code_example = upsert_faculty_total env faculties (text "Aniq fanlar") refl
