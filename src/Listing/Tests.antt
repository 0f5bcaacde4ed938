-- ===== src/Listing/Tests.antt =====
-- `list_requests` of backend/app/api/v1/requests.py on a concrete table.
use registrator_ofid.Models.User.{has_role}
use registrator_ofid.Base.{◌+◌, ◌≡◌, refl, Bool, true, List, [], ◌∷◌, none, some, map}
use registrator_ofid.Base.Text.{Text, text}
use registrator_ofid.Http.{ok, err, http, unknown_filter}
use registrator_ofid.Models.Status.{unknown, is_in}
use registrator_ofid.Models.Request.{Request}
use registrator_ofid.Samples.{
  friday_noon, student, registrar, staff_member, open_request, returned_request, value_of,
}
use registrator_ofid.Views.{summary_of}
use registrator_ofid.Listing.{Query, Page, list_requests, known_status}
use registrator_ofid.Listing.Pages.{IsPage, list_requests-IsPage}

abbrev rows : List Request
rows =
    open_request
    ∷ record open_request { id = 10; student_id = 3; created_at = friday_noon + 1 }
    ∷ record returned_request { id = 11; assigned_to = none; created_at = friday_noon + 2 }
    ∷ []

abbrev everything : Query
everything = record {
  status = none;
  faculty_id = none;
  category_id = none;
  assigned_to = none;
  unassigned = none;
  overdue = none;
  search = none;
  limit = 50;
  offset = 0;
}

abbrev contains : Text → Text → Bool
contains value pattern = true

abbrev empty_page : Page
empty_page = record { items = []; total = 0; limit = 50; offset = 0 }

abbrev page : Page
page = value_of empty_page (list_requests contains friday_noon rows everything student)

shown : map (λ o. o.id) page.items ≡ 11 ∷ 9 ∷ []
unfolding list_requests has_role summary_of
shown = refl

to_staff :
    map
      (λ o. o.id)
      (value_of empty_page (list_requests contains friday_noon rows everything staff_member)).items
    ≡ 10 ∷ 9 ∷ []
unfolding list_requests has_role summary_of
to_staff = refl

mistyped :
    list_requests contains friday_noon rows
      (record everything { status = some (unknown (text "x")) })
      registrar
    ≡ err (http 422 (unknown_filter (text "x")))
unfolding list_requests is_in
mistyped = refl

page_example :
    (found : Page) × (list_requests contains friday_noon rows everything student ≡ ok found)
    × IsPage contains friday_noon rows everything student found
unfolding known_status
page_example = list_requests-IsPage contains friday_noon rows everything student refl
