-- ===== src/Children/Saving.antt =====
-- What a successful update of the children saves (app/api/items/update_item.go).
use algorea_backend.Shared.{Bool, true, false, Option, none, some, List, []}
use algorea_backend.Children.Update.{ItemsItemsRow, ItemsState, UpdateResponse}

abbrev is_updated : Option (UpdateResponse × ItemsState) → Bool
is_updated none = false
is_updated (some (UpdateResponse.children_updated, s)) = true
is_updated (some (UpdateResponse.cycle_forbidden, s)) = false
is_updated (some (UpdateResponse.field_forbidden field, s)) = false
is_updated (some (UpdateResponse.panicked, s)) = false

abbrev rows_of : Option (UpdateResponse × ItemsState) → List ItemsItemsRow
rows_of none = []
rows_of (some (response, s)) = s.items_items
