-- ===== src/Catalog/Tests.antt =====
-- Runs of backend/app/services/catalog_service.py on a small catalogue.
use registrator_ofid.Base.{◌≡◌, refl, true, none, some, is_some}
use registrator_ofid.Base.Text.{text, strip}
use registrator_ofid.Samples.{value_of, sample_db, service_type, request_type}
use registrator_ofid.Models.User
use registrator_ofid.Models.User.{User}
use registrator_ofid.Models.Category.{
  RequestCategory, auto_reply, general_manager, is_general, is_auto_reply,
}
use registrator_ofid.Catalog.{
  build_category, apply_category_update, CategoryCreate, CategoryUpdate, check_assignee,
  check_auto_reply, clean, find_category, parent_request_type,
}
use registrator_ofid.Catalog.Coherent.{
  IsCoherent, build_category-IsCoherent, apply_category_update-IsCoherent,
}

abbrev answering_form : CategoryCreate
answering_form = record {
  parent_id = some 10;
  name = text " Ma'lumotnoma ";
  description = none;
  sla_hours = 24;
  priority = text "low";
  routing = auto_reply;
  auto_reply_text = some (text "Javob");
  auto_reply_description = none;
  assignee_id = none;
  icon = none;
}

abbrev built : RequestCategory
built = value_of request_type (build_category sample_db 12 answering_form)

built_example : IsCoherent built
unfolding build_category parent_request_type find_category check_auto_reply is_auto_reply clean
    strip check_assignee
built_example = build_category-IsCoherent sample_db 12 answering_form refl

abbrev general_update : CategoryUpdate
general_update = record {
  parent_id = none;
  name = none;
  description = none;
  sla_hours = some (some 48);
  priority = none;
  routing = some (some general_manager);
  auto_reply_text = none;
  auto_reply_description = none;
  assignee_id = some (some 4);
  is_active = none;
  icon = none;
}

abbrev updated : RequestCategory
updated = value_of request_type (apply_category_update sample_db service_type general_update)

updated_example : IsCoherent updated × (is_some updated.parent_id ≡ true)
unfolding apply_category_update check_auto_reply is_auto_reply check_assignee is_general
    User.has_role
updated_example = apply_category_update-IsCoherent sample_db service_type general_update refl
