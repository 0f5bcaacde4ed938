-- ===== src/Views/Tests.antt =====
-- The detail of backend/app/schemas/request.py on a concrete request.
use registrator_ofid.Base.{◌≡◌, refl, true, false, [], ◌∷◌, map}
use registrator_ofid.Base.Text.{text}
use registrator_ofid.Models.Request.{Request, Message}
use registrator_ofid.Samples.{friday_noon, open_request, sample_db}
use registrator_ofid.Views.{for_viewer}
use registrator_ofid.Views.Plain.{plain_view, for_viewer-plain_view}

abbrev note : Message
note = record {
  id = 1;
  sender_id = 2;
  content = text "Tekshirilsin";
  is_internal = true;
  created_at = friday_noon;
}

abbrev discussed : Request
discussed = record open_request {
  messages = note ∷ record note { id = 2; sender_id = 1; is_internal = false } ∷ [];
}

view_example :
    for_viewer sample_db friday_noon discussed false
    ≡ plain_view sample_db friday_noon discussed false
view_example = for_viewer-plain_view sample_db friday_noon discussed false

shown_ids :
    (map (λ m. m.row.id) (for_viewer sample_db friday_noon discussed false).messages ≡ 2 ∷ [])
    × (map (λ m. m.row.id) (for_viewer sample_db friday_noon discussed true).messages ≡ 1 ∷ 2 ∷ [])
unfolding for_viewer
shown_ids = (refl, refl)
