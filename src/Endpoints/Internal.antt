-- ===== src/Endpoints/Internal.antt =====
-- Internal notes of backend/app/api/v1/requests.py: what is written for the office stays there.
use registrator_ofid.Catalog.{find_category}
use registrator_ofid.Base.{
  ℕ, ◌≡◌, refl, sym, ap, ◌∙◌, true, false, not, ◌==◌, ==_iff, List, [], ◌∷◌, ◌++◌, Option, none,
  some, arith, filter, map, if◌then◌else◌, Bool-cases, Option-cases, inl, inr,
}
use registrator_ofid.Base.Text.{Text}
use registrator_ofid.Http.{
  Result, ok, ◌>>=◌, ◌>>◌, >>=-eq-ok, >>=_same, >>=_assoc, ok_inj, raise_if, or_raise,
  read_only_role, no_internal_notes, request_missing,
}
use registrator_ofid.Models.User.{User, has_role, read_only}
use registrator_ofid.Models.Request.{Request, Message}
use registrator_ofid.Models.Db.{Db}
use registrator_ofid.Workflow.{find_request, get_request_for_user, assert_can_view}
use registrator_ofid.Workflow.Access.{find_request-In, get_request_for_user_found}
use registrator_ofid.Sla.{replace}
use registrator_ofid.Views.{
  RequestDetail, MessageOut, visible_messages, message_out, answer_of, mini, parent_of, summary_of,
}
use registrator_ofid.Views.Plain.{plain_view, for_viewer-plain_view}
use registrator_ofid.Work.{Env, Work}
use registrator_ofid.Actions.{save_row}
use registrator_ofid.Thread.{post_message, new_note}
use registrator_ofid.Endpoints.{Replied, sees_internal, get_detail, add_message}

replaced_here :
    (n q : Request) (rs : List Request)
    → (q.id == n.id) ≡ true
    → replace n (q ∷ rs) ≡ n ∷ replace n rs
unfolding replace
replaced_here n q rs h = rw h refl

replaced_later :
    (n q : Request) (rs : List Request)
    → (q.id == n.id) ≡ false
    → replace n (q ∷ rs) ≡ q ∷ replace n rs
unfolding replace
replaced_later n q rs h = rw h refl

-- The new version of a row, for the key of that row, and the row itself for another key.
abbrev pub version : Request → Option Request → Option Request
version n none = none
version n (some q) = some (if q.id == n.id then n else q)

pub find_request-replace :
    (n : Request) (rs : List Request) (i : ℕ)
    → find_request (replace n rs) i ≡ version n (find_request rs i)
unfolding find_request replace
find_request-replace n [] i = refl
find_request-replace n (q ∷ rs) i = ground (arith, find_request-replace n rs i)

-- With a note, the row looks to those who do not see notes as it did before.
unseen :
    (r : Request) (m : Message)
    → m.is_internal ≡ true
    → visible_messages false (r.messages ++ m ∷ []) ≡ visible_messages false r.messages
unfolding visible_messages
unseen r m hidden = drop_note r.messages
  where
    drop_note :
        (ms : List Message)
        → filter (λ o. not o.is_internal) (ms ++ m ∷ []) ≡ filter (λ o. not o.is_internal) ms
    drop_note [] = rw hidden refl
    drop_note (o ∷ ms) = ap (λ rest. if not o.is_internal then o ∷ rest else rest) (drop_note ms)

-- `get_detail`, with the view that it is to give.
shown : Db → ℕ → User → Request → Result RequestDetail
shown db now viewer q = ok (plain_view db now q (sees_internal viewer))

get_detail_shown :
    (env : Env) (work : Work) (i : ℕ) (viewer : User)
    → get_detail env work i viewer
      ≡ (get_request_for_user work.db.requests i viewer >>= shown work.db env.now viewer)
unfolding get_detail shown
get_detail_shown env work i viewer =
    >>=_same (get_request_for_user work.db.requests i viewer) _ _
      (λ q. ap ok (for_viewer-plain_view work.db env.now q (sees_internal viewer)))

-- What is left to `get_detail` once the row was looked up.
viewed : Db → ℕ → User → Option Request → Result RequestDetail
viewed db now viewer found = do
  req ← or_raise found 404 request_missing
  assert_can_view req viewer
  shown db now viewer req

get_detail_looks :
    (env : Env) (work : Work) (i : ℕ) (viewer : User)
    → get_detail env work i viewer ≡ viewed work.db env.now viewer (find_request work.db.requests i)
unfolding viewed get_request_for_user
get_detail_looks env work i viewer =
    let found = or_raise (find_request work.db.requests i) 404 request_missing in
    let show = shown work.db env.now viewer in
    get_detail_shown env work i viewer
    ∙ >>=_assoc found (λ q. assert_can_view q viewer >> ok q) show
    ∙ >>=_same found _ _ (λ q. >>=_assoc (assert_can_view q viewer) (λ done. ok q) show)

-- A request with one more message.
abbrev with_note : Request → Message → Request
with_note r m = record r { messages = r.messages ++ m ∷ [] }

with_messages : RequestDetail → List MessageOut → RequestDetail
with_messages d ms = record d { messages = ms }

same_view :
    (db : Db) (now : ℕ) (viewer : User) (r : Request) (m : Message)
    → m.is_internal ≡ true
    → sees_internal viewer ≡ false
    → shown db now viewer (with_note r m) ≡ shown db now viewer r
unfolding shown plain_view with_messages summary_of find_category parent_of mini visible_messages
    answer_of
same_view db now viewer r m hidden student =
    ap (λ b. ok (plain_view db now (with_note r m) b)) student
    ∙ ap (λ ms. ok (with_messages (plain_view db now r false) (map (message_out db.users) ms)))
        (unseen r m hidden)
    ∙ sym (ap (λ b. ok (plain_view db now r b)) student)

note_unseen :
    (db : Db) (now : ℕ) (viewer : User) (r : Request) (m : Message)
    → m.is_internal ≡ true
    → sees_internal viewer ≡ false
    → viewed db now viewer (some (with_note r m)) ≡ viewed db now viewer (some r)
unfolding viewed assert_can_view
note_unseen db now viewer r m hidden student =
    >>=_same (assert_can_view r viewer) _ _ (λ done. same_view db now viewer r m hidden student)

pub version_new : (n q : Request) → (q.id == n.id) ≡ true → version n (some q) ≡ some n
version_new n q h = rw h refl

version_old : (n q : Request) → (q.id == n.id) ≡ false → version n (some q) ≡ some q
version_old n q h = rw h refl

looks_same :
    (db : Db) (now : ℕ) (viewer : User) (r : Request) (m : Message) (rs : List Request) (i : ℕ)
    → find_request rs r.id ≡ some r
    → m.is_internal ≡ true
    → sees_internal viewer ≡ false
    → viewed db now viewer (version (with_note r m) (find_request rs i))
      ≡ viewed db now viewer (find_request rs i)
looks_same db now viewer r m rs i here hidden student = elim (Option-cases (find_request rs i)) [
  | inl missing ↦ ap (viewed db now viewer) (ap (version (with_note r m)) missing ∙ sym missing)
  | inr (q, found) ↦ elim (Bool-cases (q.id == r.id)) [
    | inr other ↦
        ap (viewed db now viewer)
          (ap (version (with_note r m)) found ∙ version_old (with_note r m) q other ∙ sym found)
    | inl hit ↦
        let same_id : i ≡ r.id = sym (find_request-In rs i q found).1 ∙ (==_iff q.id r.id).0 hit in
        ap (viewed db now viewer)
          (ap (version (with_note r m)) found ∙ version_new (with_note r m) q hit)
        ∙ note_unseen db now viewer r m hidden student
        ∙ sym (ap (viewed db now viewer) (ap (find_request rs) same_id ∙ here))
  ]
]

note_kept :
    (env : Env) (work : Work) (r : Request) (user viewer : User) (content : Text) (i : ℕ)
    → find_request work.db.requests r.id ≡ some r
    → sees_internal viewer ≡ false
    → get_detail env (save_row work (with_note r (new_note env work user content true))) i viewer
      ≡ get_detail env work i viewer
unfolding save_row new_note viewed shown plain_view
note_kept env work r user viewer content i here student =
    let m = new_note env work user content true in
    get_detail_looks env (save_row work (with_note r m)) i viewer
    ∙ ap (viewed work.db env.now viewer) (find_request-replace (with_note r m) work.db.requests i)
    ∙ looks_same work.db env.now viewer r m work.db.requests i here refl student
    ∙ sym (get_detail_looks env work i viewer)

-- An internal note, once posted, was written by someone who sees such notes, and leaves no trace for
-- those who do not: it notifies nobody and publishes nothing, and every request looks to them as it
-- did before.
pub internal_note_unseen :
    (env : Env) (work : Work) (request_id : ℕ) (content : Text) (user viewer : User) (i : ℕ)
    (reply : Replied MessageOut)
    → add_message env work request_id content true user ≡ ok reply
    → sees_internal viewer ≡ false
    → (sees_internal user ≡ true)
      × (reply.work.notifications ≡ work.notifications)
      × (reply.work.outbox ≡ work.outbox)
      × (reply.work.pushed ≡ work.pushed)
      × (get_detail env reply.work i viewer ≡ get_detail env work i viewer)
unfolding add_message save_row post_message
internal_note_unseen env work request_id content user viewer i reply returned student =
    let (req, found, h1) =
      >>=-eq-ok (get_request_for_user work.db.requests request_id user) _ returned in
    let (_, writes, h2) = >>=-eq-ok (raise_if (has_role user read_only) 403 read_only_role) _ h1 in
    let (_, sees, h3) =
      >>=-eq-ok (raise_if (not (sees_internal user)) 403 no_internal_notes) _ h2 in
    let (stored, key) = get_request_for_user_found work.db.requests request_id user req found in
    let here : find_request work.db.requests req.id ≡ some req =
      ap (find_request work.db.requests) key ∙ stored in
    let after : save_row work (with_note req (new_note env work user content true)) ≡ reply.work =
      ap (λ o. o.work) (ok_inj h3) in
    (
      ground (arith, sees),
      sym (ap (λ w. w.notifications) after),
      sym (ap (λ w. w.outbox) after),
      sym (ap (λ w. w.pushed) after),
      sym (ap (λ w. get_detail env w i viewer) after)
          ∙ note_kept env work req user viewer content i here student,
    )
