-- ===== src/Endpoints/Attaching.antt =====
-- The files of an answer in backend/app/api/v1/requests.py, one after the other.
use registrator_ofid.Base.{◌≡◌, refl, sym, ap, subst, ◌∙◌, inl, inr, true, List, [], ◌∷◌, length}
use registrator_ofid.Http.{Result, Error, ok, err, ◌>>=◌, >>=-eq-ok, ok_inj, Result-cases}
use registrator_ofid.Models.User.{User}
use registrator_ofid.Base.Text.{Text, text}
use registrator_ofid.Tracking.{decimal}
use registrator_ofid.Models.Request.{Request, RequestFile}
use registrator_ofid.Workflow.Sound.{SameOwner}
use registrator_ofid.Files.{
  Storage, Upload, Disk, Stored, save_upload, store, safe_filename, or_default, declared_type,
}
use registrator_ofid.Files.Accepted.{store-Accepted}
use registrator_ofid.Work.{Env, Work}
use registrator_ofid.Thread.{Attached, attach_file, add_file, count_rows, new_file}
use registrator_ofid.Endpoints.Answer.{Attachments, attach_all, with_file}

-- The row of a file of an answer is that of an upload: its name, made safe, its size and its type.
pub record IsFileOf (actor : User) (u : Upload) (f : RequestFile) : Type 0 where
  pub named : f.file_name ≡ safe_filename (or_default u.filename (text "file"))
  pub whole : f.file_size ≡ length u.content
  pub typed : f.mime_type ≡ declared_type u
  pub by_actor : f.uploaded_by ≡ actor.id
  pub of_answer : f.is_answer ≡ true

-- One row for each upload, in their order.
abbrev pub AreFilesOf : User → List Upload → List RequestFile → Type 0
AreFilesOf actor [] [] = Unit {0}
AreFilesOf actor [] (f ∷ fs) = ⊥
AreFilesOf actor (u ∷ us) [] = ⊥
AreFilesOf actor (u ∷ us) (f ∷ fs) = IsFileOf actor u f × AreFilesOf actor us fs

stored-IsFileOf :
    (env : Env) (storage : Storage) (work : Work) (disk : Disk) (actor : User) (u : Upload)
    (folder token : Text) (d : Disk) (meta : Stored)
    → store storage disk token u folder ≡ ok (d, meta)
    → IsFileOf actor u (new_file env work actor true meta)
unfolding new_file
stored-IsFileOf env storage work disk actor u folder token d meta h =
    let a = store-Accepted storage disk token u folder d meta h in
    record {
      named = a.named;
      whole = a.whole;
      typed = a.declared;
      by_actor = refl;
      of_answer = refl;
    }

attach_file-IsFileOf :
    (env : Env) (storage : Storage) (work : Work) (disk : Disk) (req : Request) (actor : User)
    (u : Upload) (a : Attached)
    → attach_file env storage work disk req actor u true ≡ ok a
    → SameOwner req a.request × IsFileOf actor u a.file
unfolding attach_file add_file save_upload
attach_file-IsFileOf env storage work disk req actor u a h =
    let token = env.file_token (count_rows (λ r. length r.files) work.db.requests) in
    let ((d, meta), saved, made) = >>=-eq-ok (save_upload storage disk token u req.id) _ h in
    subst (λ o. SameOwner req o.request × IsFileOf actor u o.file) (ok_inj made)
      (
        (refl, refl),
        stored-IsFileOf env storage work disk actor u (decimal req.id) token d meta saved,
      )

module _ (env : Env) (storage : Storage) (actor : User) (u : Upload) (us : List Upload)
    (work : Work) (disk : Disk) (req : Request) where
  attach_all_fails :
      (e : Error)
      → attach_file env storage work disk req actor u true ≡ err e
      → attach_all env storage actor (u ∷ us) work disk req ≡ (err e, disk)
  unfolding attach_all
  attach_all_fails e h = rw (attach_all, h) refl

  attach_all_goes_on :
      (f : Attached)
      → attach_file env storage work disk req actor u true ≡ ok f
      → attach_all env storage actor (u ∷ us) work disk req ≡ (
        (do
          more ← (attach_all env storage actor us f.work f.disk f.request).0
          ok (with_file f.file more)),
        (attach_all env storage actor us f.work f.disk f.request).1,
      )
  unfolding attach_all
  attach_all_goes_on f h = rw (attach_all, h) refl

pub clash : {A : Type 0} {r : Result A} {a : A} {e : Error} → r ≡ ok a → r ≡ err e → ⊥
clash e f = cc

pub attached_all :
    (env : Env) (storage : Storage) (actor : User) (us : List Upload) (work : Work) (disk : Disk)
    (req : Request) (a : Attachments)
    → (attach_all env storage actor us work disk req).0 ≡ ok a
    → SameOwner req a.request × AreFilesOf actor us a.files
unfolding attach_all with_file
attached_all env storage actor [] work disk req a h =
    subst (λ o. SameOwner req o.request × AreFilesOf actor [] o.files) (ok_inj h) ((refl, refl), tt)
attached_all env storage actor (u ∷ us) work disk req a h =
    elim (Result-cases (attach_file env storage work disk req actor u true)) [
      | inr (e, failed) ↦
          absurd (
            clash h
              (ap (λ p. p.0) (attach_all_fails env storage actor u us work disk req e failed)))
      | inl (f, done) ↦
          let rest = attach_all env storage actor us f.work f.disk f.request in
          let gone_on =
            sym (ap (λ p. p.0) (attach_all_goes_on env storage actor u us work disk req f done))
            ∙ h in
          let (more, later, made) = >>=-eq-ok rest.0 _ gone_on in
          let (owner, files) =
            attached_all env storage actor us f.work f.disk f.request more later in
          let (first, file) = attach_file-IsFileOf env storage work disk req actor u f done in
          subst (λ o. SameOwner req o.request × AreFilesOf actor (u ∷ us) o.files) (ok_inj made)
            ((owner.0 ∙ first.0, owner.1 ∙ first.1), (file, files))
    ]
