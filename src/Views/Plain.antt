-- ===== src/Views/Plain.antt =====
-- What a detail of backend/app/schemas/request.py is to show, without a dictionary of people.
use registrator_ofid.Base.{ℕ, ◌≡◌, ap, ◌∙◌, Bool, List, map}
use registrator_ofid.Models.Request.{Request}
use registrator_ofid.Models.Db.{Db}
use registrator_ofid.Workflow.{find_user}
use registrator_ofid.Catalog.{find_category}
use registrator_ofid.Views.{
  RequestDetail, MessageOut, RequestHistoryOut, load_user, people_of, message_out, history_out,
  visible_messages, for_viewer, summary_of, parent_of, answer_of, mini,
}
use registrator_ofid.Views.Names.{history_named, messages_named}

-- What `for_viewer` is to give: the columns of the row, and each message and entry with the name and
-- the role that its author has in the table of users.
unfoldable pub plain_view : Db → ℕ → Request → Bool → RequestDetail
plain_view db now req include_internal =
    let category = find_category db.categories req.category_id in
    record {
      summary = summary_of now req;
      description = req.description;
      category = category;
      service_type = parent_of db.categories category;
      student = mini (find_user db.users req.student_id);
      assignee = mini (load_user db.users req.assigned_to);
      history = map (history_out db.users) req.history;
      files = req.files;
      messages = map (message_out db.users) (visible_messages include_internal req.messages);
      answer = answer_of db.users req req.answered_at;
    }

with_threads : RequestDetail → List RequestHistoryOut → List MessageOut → RequestDetail
with_threads d hs ms = record d { history = hs; messages = ms }

-- The dictionary of people loses nobody: a detail names each author of a message and each actor of the
-- history as the table of users does, and shows the messages that the viewer may read, in their order.
pub for_viewer-plain_view :
    (db : Db) (now : ℕ) (req : Request) (include_internal : Bool)
    → for_viewer db now req include_internal ≡ plain_view db now req include_internal
unfolding for_viewer plain_view with_threads
for_viewer-plain_view db now req all =
    ap
      (λ hs.
        with_threads (plain_view db now req all) hs
          (map (message_out (people_of db.users req)) (visible_messages all req.messages)))
      (history_named db.users req)
    ∙ ap (with_threads (plain_view db now req all) (map (history_out db.users) req.history))
        (messages_named db.users req all)
