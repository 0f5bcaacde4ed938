-- ===== src/Students/Codes.antt =====
-- Codes of new faculties: `_upsert_faculty` of backend/app/services/auth_service.py.
use registrator_ofid.Base.{
  ℕ, zero, suc, ◌+◌, ◌-◌, ◌≤◌, ◌<◌, ◌≡◌, refl, sym, ap, ◌∙◌, true, false, ◌==◌, List, [], ◌∷◌, ◌++◌,
  none, some, if◌then◌else◌, length, take, arith, Bool-cases, Option-cases, inl, inr, In, All,
}
use registrator_ofid.Base.Text.{Text, text_eq, text_eq→≡, text_eq_refl, is_nonempty}
use registrator_ofid.Tracking.{decimal, pad5, zeros, prefix_of, tracking_no}
use registrator_ofid.Tracking.Number.{recover-tracking_no}
use registrator_ofid.Sessions.{has_text}
use registrator_ofid.Students.{
  Faculty, SyncEnv, candidate, free_code, codes_of, slugify_code, file_faculty, new_faculty,
  find_named, upsert_faculty,
}

decimal_same : (m n : ℕ) → text_eq (decimal m) (decimal n) ≡ true → m ≡ n
unfolding tracking_no pad5
decimal_same m n h =
    (recover-tracking_no 0 m n).1.0
      (ap (λ d. prefix_of 0 ++ (zeros (5 - length d) ++ d)) (text_eq→≡ (decimal m) (decimal n) h))

text_eq-++ : (p s t : Text) → text_eq (p ++ s) (p ++ t) ≡ text_eq s t
text_eq-++ [] s t = refl
text_eq-++ (c ∷ p) s t = ground (arith, text_eq-++ p s t)

candidates_apart :
    (code : Text) (m n : ℕ)
    → m < n
    → text_eq (candidate code (suc m)) (candidate code (suc n)) ≡ false
unfolding candidate
candidates_apart code m n less = elim (Bool-cases (text_eq (decimal (suc m)) (decimal (suc n)))) [
  | inl same ↦ let e = decimal_same (suc m) (suc n) same in absurd (omega (arith, e, less))
  | inr other ↦
      text_eq-++ (take 29 code) (45 ∷ decimal (suc m)) (45 ∷ decimal (suc n)) ∙ ground arith
]

remove_first : Text → List Text → List Text
remove_first t [] = []
remove_first t (u ∷ us) = let rest = remove_first t us in if text_eq t u then us else u ∷ rest

length-remove_first :
    (t : Text) (us : List Text) → has_text t us ≡ true → length us ≡ length (remove_first t us) + 1
unfolding has_text remove_first
length-remove_first t [] h = absurd (ground arith)
length-remove_first t (u ∷ us) h = elim (Bool-cases (text_eq t u)) [
  | inl is ↦ ground arith
  | inr other ↦ ground (arith, length-remove_first t us)
]

has_text-remove_first :
    (t u : Text) (us : List Text)
    → text_eq t u ≡ false
    → has_text u us ≡ true
    → has_text u (remove_first t us) ≡ true
unfolding has_text remove_first
has_text-remove_first t u [] apart h = absurd (ground arith)
has_text-remove_first t u (w ∷ us) apart h = elim (Bool-cases (text_eq t w)) [
  | inl is ↦ elim (Bool-cases (text_eq u w)) [
    | inl is' ↦
        let e = text_eq→≡ t w is in
        let e' = text_eq→≡ u w is' in
        let same : text_eq t u ≡ true = ap (text_eq t) (e' ∙ sym e) ∙ text_eq_refl t in
        absurd (ground arith)
    | inr other ↦ ground arith
  ]
  | inr other ↦ ground (arith, has_text-remove_first t u us apart)
]

-- As many candidates as are taken, so many codes there are.
taken_bounded :
    (k n : ℕ) (codes : List Text) (code : Text)
    → ((i : ℕ) → n ≤ i → i < n + k → has_text (candidate code (suc i)) codes ≡ true)
    → k ≤ length codes
taken_bounded zero n codes code taken = omega arith
taken_bounded (suc k) n codes code taken =
    let first = taken n (omega arith) (omega arith) in
    let fewer =
      taken_bounded k (suc n) (remove_first (candidate code (suc n)) codes) code (λ i above below.
        has_text-remove_first (candidate code (suc n)) (candidate code (suc i)) codes
          (candidates_apart code n i (omega (arith, above)))
          (taken i (omega (arith, above)) (omega (arith, below)))) in
    let size = length-remove_first (candidate code (suc n)) codes first in
    omega (arith, fewer, size)

free_code_taken :
    (codes : List Text) (code : Text) (fuel s i : ℕ)
    → free_code codes code fuel s ≡ none
    → s ≤ i
    → i < s + fuel
    → has_text (candidate code i) codes ≡ true
unfolding free_code
free_code_taken codes code zero s i h above below = absurd (omega (arith, above, below))
free_code_taken codes code (suc fuel) s i h above below =
    elim (Bool-cases (has_text (candidate code s) codes)) [
      | inr free ↦ absurd (ground arith)
      | inl taken ↦ elim (Bool-cases (i == s)) [
        | inl is ↦
            let e : i ≡ s = ground arith in ap (λ j. has_text (candidate code j) codes) e ∙ taken
        | inr other ↦
            free_code_taken codes code fuel (suc s) i (ground arith) (ground arith)
              (omega (arith, below))
      ]
    ]

free_code_fresh :
    (codes : List Text) (code : Text) (fuel s : ℕ) (found : Text)
    → free_code codes code fuel s ≡ some found
    → has_text found codes ≡ false
unfolding free_code
free_code_fresh codes code zero s found h = absurd (ground arith)
free_code_fresh codes code (suc fuel) s found h =
    elim (Bool-cases (has_text (candidate code s) codes)) [
      | inl taken ↦ free_code_fresh codes code fuel (suc s) found (ground arith)
      | inr free ↦
          let e : candidate code s ≡ found = ground arith in
          ap (λ t. has_text t codes) (sym e) ∙ free
    ]

free_code_total :
    (codes : List Text) (code : Text)
    → (found : Text) × (free_code codes code (length codes + 2) 0 ≡ some found)
      × (has_text found codes ≡ false)
free_code_total codes code = elim (Option-cases (free_code codes code (length codes + 2) 0)) [
  | inl none_left ↦
      let many = taken_bounded (length codes + 1) 0 codes code (λ i above below.
        free_code_taken codes code (length codes + 2) 0 (suc i) none_left (omega arith)
          (omega (arith, below))) in
      absurd (omega (arith, many))
  | inr (found, is) ↦ (found, is, free_code_fresh codes code (length codes + 2) 0 found is)
]

length-codes_of : (faculties : List Faculty) → length (codes_of faculties) ≡ length faculties
unfolding codes_of
length-codes_of [] = refl
length-codes_of (f ∷ faculties) = ground (arith, length-codes_of faculties)

-- What `upsert_faculty` gives for a name, with the faculties after it: a faculty of that name that was
-- there, with nothing changed; or, if there was none, a new one at the end, whose code nobody had.
pub data Upserted (faculties : List Faculty) (name : Text) : Faculty → List Faculty → Type 0 where
  known : (f : Faculty) → In f faculties → f.name ≡ name → Upserted faculties name f faculties
  added :
      (f : Faculty)
      → All (λ g. text_eq g.name name ≡ false) faculties
      → f.name ≡ name
      → has_text f.code (codes_of faculties) ≡ false
      → Upserted faculties name f (faculties ++ f ∷ [])

file_faculty_total :
    (env : SyncEnv) (faculties : List Faculty) (name : Text)
    → (f : Faculty) × (file_faculty env faculties name ≡ some (f, faculties ++ f ∷ []))
      × (f.name ≡ name)
      × (has_text f.code (codes_of faculties) ≡ false)
unfolding file_faculty new_faculty
file_faculty_total env faculties name =
    let code = take 32 (slugify_code env.upper name) in
    let (found, is, fresh) = free_code_total (codes_of faculties) code in
    let is' : free_code (codes_of faculties) code (length faculties + 2) 0 ≡ some found =
      ap (λ n. free_code (codes_of faculties) code (n + 2) 0) (sym (length-codes_of faculties))
      ∙ is in
    (new_faculty env faculties name found, rw (file_faculty, is') refl, refl, fresh)

find_named_known :
    (faculties : List Faculty) (name : Text) (f : Faculty)
    → find_named faculties name ≡ some f
    → In f faculties × (f.name ≡ name)
unfolding find_named
find_named_known [] name f h = absurd (ground arith)
find_named_known (g ∷ faculties) name f h = elim (Bool-cases (text_eq g.name name)) [
  | inl is ↦
      let e : g ≡ f = ground arith in
      (inl (sym e), ap (λ o. o.name) (sym e) ∙ text_eq→≡ g.name name is)
  | inr other ↦ let (i, own) = find_named_known faculties name f (ground arith) in (inr i, own)
]

find_named_missing :
    (faculties : List Faculty) (name : Text)
    → find_named faculties name ≡ none
    → All (λ g. text_eq g.name name ≡ false) faculties
unfolding find_named
find_named_missing [] name h = tt
find_named_missing (g ∷ faculties) name h = elim (Bool-cases (text_eq g.name name)) [
  | inl is ↦ absurd (ground arith)
  | inr other ↦ (other, find_named_missing faculties name (ground arith))
]

-- The search for a code ends: for a profile that names a faculty, `upsert_faculty` returns a faculty of
-- that name. It is one of the table, which then stays as it is; or no faculty had the name, and it has
-- been added to the table, with a code that none of the others has.
pub upsert_faculty_total :
    (env : SyncEnv) (faculties : List Faculty) (name : Text)
    → is_nonempty name ≡ true
    → (f : Faculty) × (after : List Faculty) × (upsert_faculty env faculties (some name)
        ≡ some (some f, after))
      × Upserted faculties name f after
unfolding upsert_faculty
upsert_faculty_total env faculties name named = elim (Option-cases (find_named faculties name)) [
  | inr (f, found) ↦
      let (i, own) = find_named_known faculties name f found in
      (f, faculties, rw (upsert_faculty, named, found) refl, Upserted.known f i own)
  | inl missing ↦
      let (f, is, own, fresh) = file_faculty_total env faculties name in
      (
        f,
        faculties ++ f ∷ [],
        rw (upsert_faculty, named, missing, is) refl,
        Upserted.added f (find_named_missing faculties name missing) own fresh,
      )
]
