-- ===== src/Files.antt =====
-- backend/app/services/file_service.py: the checks of an upload, and where its bytes are stored. The
-- disk is the list of the files written, the latest first; folders are made as they are needed.
pub mod Names
pub mod Accepted
pub mod Served
mod Tests
use registrator_ofid.Base.{
  ℕ, ◌+◌, ◌*◌, ◌-◌, Bool, true, false, not, ◌&&◌, ◌||◌, ◌==◌, leb, ltb, List, [], ◌∷◌, ◌++◌, Option,
  none, some, if◌then◌else◌, length, take, drop, any, filter,
}
use registrator_ofid.Base.Text.{Text, text, text_eq, strip, is_nonempty}
use registrator_ofid.Http.{
  Result, ok, err, ◌>>=◌, ◌>>◌, raise_if, content_mismatch, invalid_webp, invalid_path, empty_file,
  stored_file_missing, file_too_large, unsupported_type,
}
use registrator_ofid.Tracking.{decimal}

abbrev pub Bytes : Type 0
Bytes = List ℕ

-- A path from the root of the file system, as its parts.
abbrev pub FullPath : Type 0
FullPath = List Text

abbrev pub pdf : Text
pdf = text "application/pdf"

abbrev pub jpeg : Text
jpeg = text "image/jpeg"

abbrev pub png : Text
png = text "image/png"

abbrev pub webp : Text
webp = text "image/webp"

abbrev pub doc : Text
doc = text "application/msword"

abbrev pub docx : Text
docx = text "application/vnd.openxmlformats-officedocument.wordprocessingml.document"

-- The keys of `_ALLOWED_MIME`.
abbrev pub allowed_mime : List Text
allowed_mime = pdf ∷ jpeg ∷ png ∷ webp ∷ doc ∷ docx ∷ []

abbrev pub zip_signature : Bytes
zip_signature = text "PK" ++ 3 ∷ 4 ∷ []

-- `_MAGIC_BYTES.get(declared, ())`
unfoldable pub magic_bytes : Text → List Bytes
magic_bytes declared =
    if text_eq declared pdf
    then text "%PDF-" ∷ []
    else if text_eq declared jpeg
    then (0xff ∷ 0xd8 ∷ 0xff ∷ []) ∷ []
    else if text_eq declared png
    then (0x89 ∷ text "PNG" ++ 13 ∷ 10 ∷ 26 ∷ 10 ∷ []) ∷ []
    else if text_eq declared webp
    then text "RIFF" ∷ []
    else if text_eq declared docx
    then zip_signature ∷ []
    else if text_eq declared doc
    then (0xd0 ∷ 0xcf ∷ 0x11 ∷ 0xe0 ∷ 0xa1 ∷ 0xb1 ∷ 0x1a ∷ 0xe1 ∷ []) ∷ zip_signature ∷ []
    else []

-- The class `[A-Za-z0-9._-]` of `_SAFE_NAME`.
unfoldable pub is_safe : ℕ → Bool
is_safe c =
    (leb b'A' c && leb c b'Z')
    || (leb b'a' c && leb c b'z')
    || (leb b'0' c && leb c b'9')
    || (c == b'.')
    || (c == b'_')
    || (c == b'-')

-- `os.path.basename`
unfoldable pub basename : Text → Text
basename [] = []
basename (c ∷ s) = let rest = basename s in if any (λ d. d == b'/') (c ∷ s) then rest else c ∷ s

-- `_SAFE_NAME.sub("_", s)`: one underscore for each run of other characters. The first argument is
-- whether the character before was one of them.
unfoldable pub replace_unsafe : Bool → Text → Text
unfolding is_safe
replace_unsafe in_run [] = []
replace_unsafe in_run (c ∷ s) = elim (is_safe c) [
  | true ↦ c ∷ replace_unsafe false s
  | false ↦ let rest = replace_unsafe true s in if in_run then rest else b'_' ∷ rest
]

abbrev pub or_file : Text → Text
or_file [] = text "file"
or_file (c ∷ s) = c ∷ s

-- `_safe_filename`
unfoldable pub safe_filename : Text → Text
unfolding replace_unsafe basename
safe_filename name = or_file (take 200 (replace_unsafe false (basename name)))

abbrev pub starts_with : Bytes → Bytes → Bool
starts_with [] content = true
starts_with (c ∷ sig) [] = false
starts_with (c ∷ sig) (d ∷ content) = (c == d) && starts_with sig content

-- `_sniff_mime`
unfoldable pub sniff_mime : Bytes → Text → Result Text
unfolding magic_bytes
sniff_mime content declared = do
  raise_if (not (any (λ sig. starts_with sig content) (magic_bytes declared))) 415 content_mismatch
  raise_if (text_eq declared webp && not (text_eq (take 4 (drop 8 content)) (text "WEBP"))) 415
      invalid_webp
  ok declared

-- The settings of the storage: `STORAGE_DIR`, resolved, and `max_upload_mb`; and what `Path.resolve`
-- makes of a path, where links of the file system may lead elsewhere.
pub record Storage : Type 0 where
  pub root : FullPath
  pub max_upload_mb : ℕ
  pub resolve : FullPath → FullPath

pub record Upload : Type 0 where
  pub filename : Option Text
  pub content_type : Option Text
  pub content : Bytes

-- The columns that an upload gives to the row of its file.
pub record Stored : Type 0 where
  pub file_path : Text
  pub file_name : Text
  pub file_size : ℕ
  pub mime_type : Text

abbrev pub Disk : Type 0
Disk = List (FullPath × Bytes)

-- The parts of a path between its slashes, without the empty ones and those for the folder itself.
abbrev pub push : ℕ → List Text → List Text
push c [] = (c ∷ []) ∷ []
push c (p ∷ ps) = (c ∷ p) ∷ ps

unfoldable pub split_slash : Text → List Text
split_slash [] = [] ∷ []
split_slash (c ∷ s) = let rest = split_slash s in if c == b'/' then [] ∷ rest else push c rest

unfoldable pub is_part : Text → Bool
is_part p = is_nonempty p && not (text_eq p (text "."))

unfoldable pub parts : Text → List Text
unfolding split_slash is_part
parts s = filter is_part (split_slash s)

abbrev pub is_absolute : Text → Bool
is_absolute [] = false
is_absolute (c ∷ s) = c == b'/'

abbrev pub same_path : FullPath → FullPath → Bool
same_path [] [] = true
same_path [] (q ∷ qs) = false
same_path (p ∷ ps) [] = false
same_path (p ∷ ps) (q ∷ qs) = text_eq p q && same_path ps qs

-- `full.is_relative_to(root)`
abbrev pub is_relative_to : FullPath → FullPath → Bool
is_relative_to full [] = true
is_relative_to [] (q ∷ root) = false
is_relative_to (p ∷ full) (q ∷ root) = text_eq p q && is_relative_to full root

-- `resolve_stored_path`
unfoldable pub resolve_stored_path : Storage → Text → Result FullPath
unfolding parts
resolve_stored_path storage stored = do
  let candidate = if is_absolute stored then parts stored else storage.root ++ parts stored
  let full = storage.resolve candidate
  raise_if (not (is_relative_to full storage.root) && not (is_absolute stored)) 400 invalid_path
  ok full

abbrev pub exists_at : Disk → FullPath → Bool
exists_at disk path = any (λ entry. same_path entry.0 path) disk

-- A `FileResponse`: the file to send, its type, the name that it is saved under and more headers.
pub record Download : Type 0 where
  pub path : FullPath
  pub media_type : Text
  pub filename : Text
  pub headers : List (Text × Text)

-- What keeps a browser from showing an upload as a page of the application.
abbrev pub download_headers : List (Text × Text)
download_headers =
    (text "X-Content-Type-Options", text "nosniff")
    ∷ (text "Content-Disposition", text "attachment")
    ∷ []

unfoldable pub stored_file_response : Storage → Disk → Text → Text → Text → Result Download
unfolding resolve_stored_path
stored_file_response storage disk stored mime_type file_name = do
  path ← resolve_stored_path storage stored
  raise_if (not (exists_at disk path)) 404 stored_file_missing
  ok (record {
    path = path;
    media_type = mime_type;
    filename = file_name;
    headers = download_headers;
  })

-- `s.split(";")[0]`
abbrev pub before_semicolon : Text → Text
before_semicolon [] = []
before_semicolon (c ∷ s) = let rest = before_semicolon s in if c == b';' then [] else c ∷ rest

-- `upload.content_type or "application/octet-stream"`
abbrev pub or_default : Option Text → Text → Text
or_default none default = default
or_default (some []) default = default
or_default (some (c ∷ s)) default = c ∷ s

unfoldable pub max_bytes : Storage → ℕ
max_bytes storage = storage.max_upload_mb * 1024 * 1024

unfoldable pub declared_type : Upload → Text
declared_type upload =
    strip (before_semicolon (or_default upload.content_type (text "application/octet-stream")))

abbrev pub slash : Text → Text → Text
slash folder name = folder ++ b'/' ∷ name

-- What `_store` writes and returns once its checks have passed. The bytes go to the path that
-- `Path(STORAGE_DIR) / folder / stored_name` is.
unfoldable pub kept : Storage → Disk → Text → Upload → Text → Bytes → Text → Disk × Stored
unfolding safe_filename parts
kept storage disk token upload folder content mime =
    let safe_name = safe_filename (or_default upload.filename (text "file")) in
    let file_path = slash folder (token ++ b'_' ∷ safe_name) in
    (
      (storage.root ++ parts file_path, content) ∷ disk,
      record {
        file_path = file_path;
        file_name = safe_name;
        file_size = length content;
        mime_type = mime;
      },
    )

-- `_store`, where `token` is the `secrets.token_hex(8)` of the call.
unfoldable pub store : Storage → Disk → Text → Upload → Text → Result (Disk × Stored)
unfolding max_bytes declared_type sniff_mime kept
store storage disk token upload folder = do
  let content = take (max_bytes storage + 1) upload.content
  raise_if (ltb (max_bytes storage) (length content)) 413 (file_too_large storage.max_upload_mb)
  raise_if (length content == 0) 400 empty_file
  let declared = declared_type upload
  raise_if (not (any (text_eq declared) allowed_mime)) 415 (unsupported_type declared)
  mime ← sniff_mime content declared
  ok (kept storage disk token upload folder content mime)

unfoldable pub save_upload : Storage → Disk → Text → Upload → ℕ → Result (Disk × Stored)
unfolding store
save_upload storage disk token upload request_id =
    store storage disk token upload (decimal request_id)

unfoldable pub save_auto_reply_upload : Storage → Disk → Text → Upload → ℕ → Result (Disk × Stored)
unfolding store
save_auto_reply_upload storage disk token upload category_id =
    store storage disk token upload (slash (text "auto_reply") (decimal category_id))
