-- ===== src/Access/Tables.antt =====
-- The tables that `computeAllAccess` reads and writes
-- (app/database/permission_granted_store_compute_all_access.go). The enums of the permissions are
-- their indexes, from 1 for "none".
use algorea_backend.Shared.{ℕ, Bool, ◌&&◌, Option, List, [], ◌∷◌, ◌==◌, if◌then◌else◌}

-- A row of permissions_generated, without its key.
pub record Generated : Type 0 where
  pub can_view : ℕ
  pub can_grant_view : ℕ
  pub can_watch : ℕ
  pub can_edit : ℕ
  pub is_owner : Bool

-- A row of permissions_granted.
pub record Granted : Type 0 where
  pub group_id : ℕ
  pub item_id : ℕ
  pub can_view_value : ℕ
  pub can_grant_view_value : ℕ
  pub can_watch_value : ℕ
  pub can_edit_value : ℕ
  pub is_owner_value : Bool

pub data ContentViewPropagation : Type 0 where
  none as_info as_content : ContentViewPropagation

pub data UpperViewLevelsPropagation : Type 0 where
  use_content_view_propagation as_content_with_descendants as_is : UpperViewLevelsPropagation

-- A row of items_items.
pub record ItemItem : Type 0 where
  pub parent_item_id : ℕ
  pub child_item_id : ℕ
  pub content_view_propagation : ContentViewPropagation
  pub upper_view_levels_propagation : UpperViewLevelsPropagation
  pub grant_view_propagation : Bool
  pub watch_propagation : Bool
  pub edit_propagation : Bool

pub data PropagateTo : Type 0 where
  self children : PropagateTo

-- A row of permissions_propagate.
pub record Propagate : Type 0 where
  pub group_id : ℕ
  pub item_id : ℕ
  pub propagate_to : PropagateTo

-- permissions_generated, by group and item.
abbrev pub GeneratedTable : Type 0
GeneratedTable = List (ℕ × ℕ × Generated)

abbrev pub same_pair : ℕ → ℕ → ℕ → ℕ → Bool
same_pair g i h j = g == h && i == j

unfoldable pub generated_row : ℕ → ℕ → GeneratedTable → Option Generated
generated_row g i [] = Option.none
generated_row g i ((h, j, p) ∷ rows) =
    if same_pair h j g i then Option.some p else generated_row g i rows

-- An upsert.
unfoldable pub put_generated : ℕ → ℕ → Generated → GeneratedTable → GeneratedTable
put_generated g i p [] = (g, i, p) ∷ []
put_generated g i p ((h, j, old) ∷ rows) =
    let rest = put_generated g i p rows in
    if same_pair h j g i then (g, i, p) ∷ rows else (h, j, old) ∷ rest

-- What the tables hold besides permissions_propagate and permissions_generated.
pub record Items : Type 0 where
  pub permissions_granted : List Granted
  pub items_items : List ItemItem
  pub items_ancestors : List (ℕ × ℕ)

-- The tables that the propagation changes.
pub record State : Type 0 where
  pub permissions_generated : GeneratedTable
  pub permissions_propagate : List Propagate
