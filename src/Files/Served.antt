-- ===== src/Files/Served.antt =====
-- A file that `save_upload` of backend/app/services/file_service.py has stored is served again, and
-- no stored path leads out of the storage.
use registrator_ofid.Base.{
  ℕ, zero, suc, ◌+◌, ◌≤◌, ◌<◌, ◌/◌, ◌%◌, ◌≡◌, refl, sym, ap, subst, ◌∙◌, true, false, ◌==◌, ltb,
  leb, ◌&&◌, [], ◌∷◌, ◌++◌, arith, All, filter, Bool-cases, inl, inr,
}
use registrator_ofid.Base.Text.{Text, text_eq_refl, is_nonempty}
use registrator_ofid.Http.{ok}
use registrator_ofid.Tracking.{decimal, digits_of}
use registrator_ofid.Files.{
  Bytes, Storage, Upload, Stored, Disk, FullPath, save_upload, stored_file_response,
  download_headers, resolve_stored_path, is_relative_to, is_absolute, parts, split_slash, is_part,
  slash, exists_at, same_path,
}
use registrator_ofid.Tracking.Number.{one_digit, more_digits}
use registrator_ofid.Files.Names.{IsSafe}
use registrator_ofid.Files.{is_safe}
use registrator_ofid.Files.Accepted.{store-Accepted}

-- A path that is stored relative to the storage resolves inside of it, wherever links lead; otherwise
-- the call raises.
pub resolve_stored_path-confined :
    (storage : Storage) (stored : Text) (full : FullPath)
    → is_absolute stored ≡ false
    → resolve_stored_path storage stored ≡ ok full
    → is_relative_to full storage.root ≡ true
unfolding resolve_stored_path
resolve_stored_path-confined storage stored full relative h = ground (arith, relative, h)

abbrev pub HasNoSlash : Text → Type 0
HasNoSlash = All (λ c. (c == b'/') ≡ false)

no_slash-safe : (s : Text) → All IsSafe s → HasNoSlash s
unfolding is_safe
no_slash-safe [] h = tt
no_slash-safe (c ∷ s) (safe, h) = (ground (arith, safe), no_slash-safe s h)

no_fuel : (n : ℕ) → digits_of zero n ≡ (48 + n) ∷ []
unfolding digits_of
no_fuel n = refl

no_slash-append : (s t : Text) → HasNoSlash s → HasNoSlash t → HasNoSlash (s ++ t)
no_slash-append [] t hs ht = ht
no_slash-append (c ∷ s) t (h, hs) ht = (h, no_slash-append s t hs ht)

abbrev IsDigit : ℕ → Type 0
IsDigit c = (leb b'0' c && leb c b'9') ≡ true

digits-append : (s t : Text) → All IsDigit s → All IsDigit t → All IsDigit (s ++ t)
digits-append [] t hs ht = ht
digits-append (c ∷ s) t (h, hs) ht = (h, digits-append s t hs ht)

IsDigit-add : (n : ℕ) → n < 10 → IsDigit (48 + n)
IsDigit-add n h = ground (arith, h)

digits-digits_of : (fuel n : ℕ) → n ≤ fuel → All IsDigit (digits_of fuel n)
digits-digits_of zero n h =
    subst (All IsDigit) (sym (no_fuel n)) (IsDigit-add n (omega (arith, h)), tt)
digits-digits_of (suc fuel) n h = elim (Bool-cases (ltb n 10)) [
  | inl small ↦
      subst (All IsDigit) (sym (one_digit fuel n small)) (IsDigit-add n (ground (arith, small)), tt)
  | inr large ↦ subst (All IsDigit) (sym (more_digits fuel n large)) (
      digits-append (digits_of fuel (n / 10)) _
        (digits-digits_of fuel (n / 10) (ground (arith, h, large)))
        (IsDigit-add (n % 10) (omega arith), tt))
]

no_slash_digits : (s : Text) → All IsDigit s → HasNoSlash s
no_slash_digits [] h = tt
no_slash_digits (c ∷ s) (digit, h) = (ground (arith, digit), no_slash_digits s h)

nonempty_append : (s : Text) (c : ℕ) → is_nonempty (s ++ c ∷ []) ≡ true
nonempty_append [] c = refl
nonempty_append (d ∷ s) c = refl

nonempty-digits_of : (fuel n : ℕ) → is_nonempty (digits_of fuel n) ≡ true
nonempty-digits_of zero n = ap is_nonempty (no_fuel n)
nonempty-digits_of (suc fuel) n = elim (Bool-cases (ltb n 10)) [
  | inl small ↦ ap is_nonempty (one_digit fuel n small)
  | inr large ↦
      ap is_nonempty (more_digits fuel n large) ∙ nonempty_append (digits_of fuel (n / 10)) _
]

split_one : (s : Text) → HasNoSlash s → split_slash s ≡ s ∷ []
unfolding split_slash
split_one [] h = refl
split_one (c ∷ s) (h, hs) = rw (split_slash, h, split_one s hs) refl

split_two : (s t : Text) → HasNoSlash s → HasNoSlash t → split_slash (slash s t) ≡ s ∷ t ∷ []
unfolding split_slash
split_two [] t h ht = ap (λ ps. [] ∷ ps) (split_one t ht)
split_two (c ∷ s) t (h, hs) ht = rw (split_slash, h, split_two s t hs ht) refl

part_digits : (s : Text) → is_nonempty s ≡ true → All IsDigit s → is_part s ≡ true
unfolding is_part
part_digits [] h d = absurd (ground arith)
part_digits (c ∷ s) h (digit, d) = ground (arith, digit)

part_named : (token name : Text) → is_part (token ++ b'_' ∷ name) ≡ true
unfolding is_part
part_named [] name = refl
part_named (c ∷ []) name = ground arith
part_named (c ∷ d ∷ token) name = ground arith

relative_digits :
    (s t : Text) → is_nonempty s ≡ true → All IsDigit s → is_absolute (slash s t) ≡ false
relative_digits [] t h d = absurd (ground arith)
relative_digits (c ∷ s) t h (digit, d) = ground (arith, digit)

parts_two :
    (s t : Text)
    → HasNoSlash s
    → HasNoSlash t
    → is_part s ≡ true
    → is_part t ≡ true
    → parts (slash s t) ≡ s ∷ t ∷ []
unfolding parts
parts_two s t hs ht ps pt = ap (filter is_part) (split_two s t hs ht) ∙ rw (ps, pt) refl

same_path_refl : (p : FullPath) → same_path p p ≡ true
same_path_refl [] = refl
same_path_refl (s ∷ p) = ground (arith, text_eq_refl s, same_path_refl p)

under_root : (root p : FullPath) → is_relative_to (root ++ p) root ≡ true
under_root [] p = refl
under_root (s ∷ root) p = ground (arith, text_eq_refl s, under_root root p)

found_at_root :
    (path : FullPath) (content : Bytes) (disk disk' : Disk)
    → disk' ≡ (path, content) ∷ disk
    → exists_at disk' path ≡ true
found_at_root path content disk disk' e =
    ap (λ d. exists_at d path) e ∙ ground (arith, same_path_refl path)

response_of :
    (storage : Storage) (disk : Disk) (stored mime name : Text) (path : FullPath)
    → is_absolute stored ≡ false
    → storage.root ++ parts stored ≡ path
    → storage.resolve path ≡ path
    → is_relative_to path storage.root ≡ true
    → exists_at disk path ≡ true
    → stored_file_response storage disk stored mime name
      ≡ ok (record { path = path; media_type = mime; filename = name; headers = download_headers })
unfolding stored_file_response resolve_stored_path
response_of storage disk stored mime name path relative whole straight inside found =
    rw (relative, whole, straight, inside, found) refl

-- A file that was uploaded to a request is served again, under its name and type and as an attachment,
-- from the folder of that request inside of the storage, when no link of the file system leads away
-- from its path.
pub save_upload-served :
    (storage : Storage) (disk : Disk) (token : Text) (upload : Upload) (request_id : ℕ)
    (disk' : Disk) (stored : Stored)
    → HasNoSlash token
    → save_upload storage disk token upload request_id ≡ ok (disk', stored)
    → storage.resolve (storage.root ++ parts stored.file_path)
      ≡ storage.root ++ parts stored.file_path
    → stored_file_response storage disk' stored.file_path stored.mime_type stored.file_name
      ≡ ok (record {
        path = storage.root ++ decimal request_id ∷ (token ++ b'_' ∷ stored.file_name) ∷ [];
        media_type = stored.mime_type;
        filename = stored.file_name;
        headers = download_headers;
      })
unfolding save_upload decimal
save_upload-served storage disk token upload request_id disk' stored hex returned straight =
    let accepted =
      store-Accepted storage disk token upload (decimal request_id) disk' stored returned in
    let name = token ++ b'_' ∷ stored.file_name in
    let digits = digits-digits_of request_id request_id (omega arith) in
    let filled = nonempty-digits_of request_id request_id in
    let no_slash =
      no_slash-append token (b'_' ∷ stored.file_name) hex
        (refl, no_slash-safe stored.file_name accepted.name.safe) in
    let cut =
      ap parts accepted.placed
      ∙ parts_two (decimal request_id) name (no_slash_digits _ digits) no_slash
          (part_digits _ filled digits) (part_named token stored.file_name) in
    let whole = ap (λ ps. storage.root ++ ps) cut in
    response_of storage disk' stored.file_path stored.mime_type stored.file_name
      (storage.root ++ decimal request_id ∷ name ∷ [])
      (ap is_absolute accepted.placed ∙ relative_digits (decimal request_id) name filled digits)
      whole (sym (ap storage.resolve whole) ∙ straight ∙ whole)
      (under_root storage.root (decimal request_id ∷ name ∷ []))
      (sym (ap (exists_at disk') whole)
        ∙ found_at_root _ upload.content disk disk' accepted.written)
