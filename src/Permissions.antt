-- ===== src/Permissions.antt =====
-- Granting permissions on an item to a group: app/api/groups/update_permissions.go, with the enums
-- of app/database/permission_granted_store.go.
pub mod Levels
pub mod Checks
pub mod Validators
pub mod Update
pub mod Accepted
pub mod Passed
pub mod Intended
pub mod Corrections
pub mod Saving
pub mod Rights
pub mod Guarantees
mod Examples
