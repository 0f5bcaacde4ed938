-- ===== src/Files/Tests.antt =====
-- Files of backend/app/services/file_service.py on concrete uploads.
use registrator_ofid.Tracking.{decimal}
use registrator_ofid.Base.{◌≡◌, refl, [], ◌∷◌, ◌++◌, some}
use registrator_ofid.Base.Text.{Text, text, strip}
use registrator_ofid.Http.{ok, err, http, content_mismatch, empty_file}
use registrator_ofid.Files.{
  Storage, Upload, Stored, Disk, FullPath, store, save_upload, stored_file_response,
  download_headers, safe_filename,
}
use registrator_ofid.Files.Accepted.{Accepted, store-Accepted}
use registrator_ofid.Files.Served.{save_upload-served}

abbrev root : FullPath
root = text "srv" ∷ text "uploads" ∷ []

abbrev storage : Storage
storage = record { root = root; max_upload_mb = 20; resolve = λ path. path }

abbrev certificate : Upload
certificate = record {
  filename = some (text "C/docs/ma'lumot.pdf");
  content_type = some (text "application/pdf; charset=x");
  content = text "%PDF-1.7";
}

abbrev token : Text
token = text "0a1b2c3d4e5f6071"

abbrev stored_row : Stored
stored_row = record {
  file_path = text "9/0a1b2c3d4e5f6071_ma_lumot.pdf";
  file_name = text "ma_lumot.pdf";
  file_size = 8;
  mime_type = text "application/pdf";
}

abbrev full_path : FullPath
full_path = root ++ text "9" ∷ text "0a1b2c3d4e5f6071_ma_lumot.pdf" ∷ []

abbrev disk_after : Disk
disk_after = (full_path, text "%PDF-1.7") ∷ []

saved : save_upload storage [] token certificate 9 ≡ ok (disk_after, stored_row)
unfolding save_upload strip decimal
saved = refl

names :
    (safe_filename (text "") ≡ text "file")
    × (safe_filename (text "../../etc/passwd") ≡ text "passwd")
    × (safe_filename (text "a  b(1).png") ≡ text "a_b_1_.png")
unfolding safe_filename
names = (refl, refl, refl)

disguised :
    (store storage [] token (record certificate { content = text "MZ" }) (text "9")
      ≡ err (http 415 content_mismatch))
    × (store storage [] token (record certificate { content = [] }) (text "9")
        ≡ err (http 400 empty_file))
unfolding store strip
disguised = (refl, refl)

stored_example : Accepted storage [] token certificate (text "9") disk_after stored_row
unfolding store strip
stored_example = store-Accepted storage [] token certificate (text "9") disk_after stored_row refl

served_example :
    stored_file_response storage disk_after stored_row.file_path stored_row.mime_type
      stored_row.file_name
    ≡ ok (record {
      path = full_path;
      media_type = stored_row.mime_type;
      filename = stored_row.file_name;
      headers = download_headers;
    })
unfolding save_upload strip decimal
served_example =
    save_upload-served storage [] token certificate 9 disk_after stored_row
      (
        refl,
        (
          refl,
          (
            refl,
            (
              refl,
              (
                refl,
                (
                  refl,
                  (
                    refl,
                    (refl, (refl, (refl, (refl, (refl, (refl, (refl, (refl, (refl, tt))))))))),
                  ),
                ),
              ),
            ),
          ),
        ),
      )
      refl refl
