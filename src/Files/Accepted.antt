-- ===== src/Files/Accepted.antt =====
-- What `_store` of backend/app/services/file_service.py lets through, and what it keeps of it.
use registrator_ofid.Base.{
  ℕ, zero, suc, ◌+◌, ◌≤◌, ◌≡◌, refl, sym, ap, subst, Bool, true, false, not, List, [], ◌∷◌, ◌++◌,
  arith, length, take, drop, any, ltb, ◌==◌, ◌&&◌, In, inl, inr, Bool-cases, ◌⊎◌,
}
use registrator_ofid.Base.Text.{Text, text, text_eq, text_eq→≡}
use registrator_ofid.Http.{
  ok, >>=-eq-ok, raise_if, ok_inj, content_mismatch, invalid_webp, file_too_large, empty_file,
  unsupported_type,
}
use registrator_ofid.Files.{
  Storage, Upload, Stored, Disk, Bytes, allowed_mime, magic_bytes, starts_with, max_bytes,
  declared_type, sniff_mime, store, kept, webp, parts, slash, or_default, safe_filename,
}
use registrator_ofid.Files.Names.{IsFileName, safe_filename-IsFileName}

-- The bytes of a type: they start with one of its signatures, and an image in WebP has its second
-- marker.
pub record Matches (content : Bytes) (mime : Text) : Type 0 where
  pub signature : any (λ sig. starts_with sig content) (magic_bytes mime) ≡ true
  pub marker :
      (text_eq mime webp ≡ false) ⊎ (text_eq (take 4 (drop 8 content)) (text "WEBP") ≡ true)

-- An upload that is stored whole, as what it was declared to be.
pub record Accepted (storage : Storage) (disk : Disk) (token : Text) (upload : Upload)
    (folder : Text) (disk' : Disk) (stored : Stored) : Type 0 where
  pub whole : stored.file_size ≡ length upload.content
  pub least : 1 ≤ stored.file_size
  pub most : stored.file_size ≤ max_bytes storage
  pub name : IsFileName stored.file_name
  pub named : stored.file_name ≡ safe_filename (or_default upload.filename (text "file"))
  pub declared : stored.mime_type ≡ declared_type upload
  pub allowed : In stored.mime_type allowed_mime
  pub matches : Matches upload.content stored.mime_type
  pub placed : stored.file_path ≡ slash folder (token ++ b'_' ∷ stored.file_name)
  pub written : disk' ≡ (storage.root ++ parts stored.file_path, upload.content) ∷ disk

take_short : (n : ℕ) (s : Bytes) → length (take (suc n) s) ≤ n → take (suc n) s ≡ s
take_short n [] h = refl
take_short zero (c ∷ s) h = absurd (omega (arith, h))
take_short (suc n) (c ∷ s) h = ap (λ t. c ∷ t) (take_short n s (omega (arith, h)))

read_whole : (n : ℕ) (s : Bytes) → ltb n (length (take (n + 1) s)) ≡ false → take (n + 1) s ≡ s
read_whole n s h =
    subst (λ m. take m s ≡ s) e
      (take_short n s (subst (λ m. length (take m s) ≤ n) (sym e) (ground (arith, h))))
  where
    e : suc n ≡ n + 1
    e = omega arith

any-In : (t : Text) (ts : List Text) → any (text_eq t) ts ≡ true → In t ts
any-In t [] h = absurd (ground arith)
any-In t (u ∷ ts) h = elim (Bool-cases (text_eq t u)) [
  | inl hit ↦ inl (text_eq→≡ t u hit)
  | inr miss ↦ inr (any-In t ts (ground (arith, h, miss)))
]

marker_of : (a b : Bool) → (a && not b) ≡ false → (a ≡ false) ⊎ (b ≡ true)
marker_of true true h = inr refl
marker_of true false h = absurd (ground arith)
marker_of false b h = inl refl

sniff_mime-Matches :
    (content : Bytes) (declared mime : Text)
    → sniff_mime content declared ≡ ok mime
    → (mime ≡ declared) × Matches content declared
unfolding sniff_mime
sniff_mime-Matches content declared mime h =
    let signs = any (λ sig. starts_with sig content) (magic_bytes declared) in
    let (_, signed, rest) = >>=-eq-ok (raise_if (not signs) 415 content_mismatch) _ h in
    let is_webp = text_eq declared webp in
    let marks = text_eq (take 4 (drop 8 content)) (text "WEBP") in
    let (_, marked, same) = >>=-eq-ok (raise_if (is_webp && not marks) 415 invalid_webp) _ rest in
    (
      cc,
      record {
        signature = ground (arith, signed);
        marker = marker_of is_webp marks (ground (arith, marked));
      },
    )

kept-Accepted :
    (storage : Storage) (disk : Disk) (token : Text) (upload : Upload) (folder : Text)
    (content : Bytes) (mime : Text)
    → content ≡ upload.content
    → ltb (max_bytes storage) (length content) ≡ false
    → (length content == 0) ≡ false
    → any (text_eq (declared_type upload)) allowed_mime ≡ true
    → (mime ≡ declared_type upload) × Matches content (declared_type upload)
    → Accepted storage disk token upload folder
        (kept storage disk token upload folder content mime).0
        (kept storage disk token upload folder content mime).1
unfolding kept
kept-Accepted storage disk token upload folder content mime same fits filled known
      (as_declared, matches) =
    record {
      whole = ap length same;
      least = ground (arith, filled);
      most = ground (arith, fits);
      name = safe_filename-IsFileName (or_default upload.filename (text "file"));
      named = refl;
      declared = as_declared;
      allowed = subst (λ t. In t allowed_mime) (sym as_declared) (any-In _ allowed_mime known);
      matches =
          subst (λ t. Matches upload.content t) (sym as_declared)
            (subst (λ c. Matches c (declared_type upload)) same matches);
      placed = refl;
      written =
          ap
            (λ c.
              (
                storage.root
                    ++ parts (
                        slash folder (
                          token
                          ++ b'_' ∷ safe_filename (or_default upload.filename (text "file")))),
                c,
              )
              ∷ disk)
            same;
    }

-- An upload that passes is stored whole, under a folder of its own; it has at least one byte and no more
-- than the limit, and its bytes match its type, one of those allowed, which is the one it was
-- declared with; its name has one to 200 characters, all of them safe.
pub store-Accepted :
    (storage : Storage) (disk : Disk) (token : Text) (upload : Upload) (folder : Text)
    (disk' : Disk) (stored : Stored)
    → store storage disk token upload folder ≡ ok (disk', stored)
    → Accepted storage disk token upload folder disk' stored
unfolding store kept
store-Accepted storage disk token upload folder disk' stored h =
    let limit = max_bytes storage in
    let content = take (limit + 1) upload.content in
    let declared = declared_type upload in
    let (_, fits, h1) =
      >>=-eq-ok (raise_if (ltb limit (length content)) 413 (file_too_large storage.max_upload_mb)) _
        h in
    let (_, filled, h2) = >>=-eq-ok (raise_if (length content == 0) 400 empty_file) _ h1 in
    let (_, known, h3) =
      >>=-eq-ok
        (raise_if (not (any (text_eq declared) allowed_mime)) 415 (unsupported_type declared)) _
        h2 in
    let (mime, sniffed, h4) = >>=-eq-ok (sniff_mime content declared) _ h3 in
    let fits : ltb limit (length content) ≡ false = ground (arith, fits) in
    let accepted =
      kept-Accepted storage disk token upload folder content mime
        (read_whole limit upload.content fits) fits (ground (arith, filled)) (ground (arith, known))
        (sniff_mime-Matches content declared mime sniffed) in
    let same : kept storage disk token upload folder content mime ≡ (disk', stored) = ok_inj h4 in
    subst (λ (o : Disk × Stored). Accepted storage disk token upload folder o.0 o.1) same accepted
