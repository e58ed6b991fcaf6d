-- ===== src/Children.antt =====
-- The relations of an item to its children, as `updateItem` and `createItem` validate and save them
-- (app/api/items/items.go, app/api/items/update_item.go, app/api/items/create_item.go).
pub mod Enums
pub mod Types
pub mod Validators
pub mod Fields
pub mod Policy
pub mod Allowed
pub mod Safety
pub mod Requested
pub mod Acceptance
pub mod Update
pub mod Edges
pub mod Cycles
pub mod Ids
pub mod Consistency
pub mod Rows
pub mod Saving
pub mod Listing
pub mod Hidden
pub mod Handler
mod Examples
mod UpdateExamples
