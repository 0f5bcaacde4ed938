-- ===== src/Endpoints/Sent.antt =====
-- A notification and an event of backend/app/api/v1/requests.py arrive in their tables.
use registrator_ofid.Base.{
  ℕ, ◌≡◌, refl, sym, subst, ◌∙◌, inl, inr, true, List, [], ◌∷◌, ◌++◌, Option, none, some,
  Bool-cases, Option-cases, In, length,
}
use registrator_ofid.Base.Text.{Text, is_nonempty}
use registrator_ofid.Models.User.{User}
use registrator_ofid.Models.Request.{Request}
use registrator_ofid.Outbox.{OutboxMessage, webhook, enqueue_webhook, new_message}
use registrator_ofid.Work.{
  Env, Work, Notification, NotificationType, Extra, publish, envelope, create_notification,
  notify_user, send_to, email_to,
}

In-last : {A : Type 0} (xs : List A) (x : A) → In x (xs ++ x ∷ [])
In-last [] x = inl refl
In-last (y ∷ xs) x = inr (In-last xs x)

-- A published event is a webhook in the outbox, where webhooks are on.
pub publish-In :
    (env : Env) (work : Work) (req : Request) (extra : Extra)
    → is_nonempty env.outbox_settings.webhook_url ≡ true
    → (m : OutboxMessage) × In m (publish env work req extra).outbox
      × (m.payload ≡ webhook (envelope env (length work.outbox) work.db req extra))
unfolding publish enqueue_webhook new_message
publish-In env work req extra on = elim (Bool-cases (is_nonempty env.outbox_settings.webhook_url)) [
  | inl e ↦ rw on (_, In-last work.outbox _, refl)
  | inr e ↦ absurd (cc (sym e ∙ on))
]

send_to-notifications :
    (env : Env) (work : Work) (address title : Text) (lines : List Text) (req : Request)
    (base : Text)
    → (send_to env work address title lines req base).notifications ≡ work.notifications
unfolding send_to
send_to-notifications env work [] title lines req base = refl
send_to-notifications env work (c ∷ address) title lines req base = refl

email_to-notifications :
    (env : Env) (work : Work) (u : Option User) (title : Text) (lines : List Text) (req : Request)
    (base : Text)
    → (email_to env work u title lines req base).notifications ≡ work.notifications
unfolding email_to
email_to-notifications env work none title lines req base = refl
email_to-notifications env work (some u) title lines req base = elim (Option-cases u.email) [
  | inl e ↦ rw e refl
  | inr (address, e) ↦ rw e (send_to-notifications env work address title lines req base)
]

-- A user who is notified has a notification of the request.
pub notify_user-In :
    (env : Env) (work : Work) (id : ℕ) (kind : NotificationType) (title : Text) (lines : List Text)
    (req : Request) (base : Text)
    → (n : Notification) × In n (notify_user env work id kind title lines req base).notifications
      × (n.user_id ≡ id)
      × (n.request_id ≡ req.id)
      × (n.kind ≡ kind)
unfolding notify_user create_notification
notify_user-In env work id kind title lines req base = (
  _,
  subst (In _) (sym (email_to-notifications env _ _ title lines req base))
      (In-last work.notifications _),
  refl,
  refl,
  refl,
)
