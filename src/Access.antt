-- ===== src/Access.antt =====
-- The propagation of permissions: `PermissionGrantedStore.computeAllAccess`
-- (app/database/permission_granted_store_compute_all_access.go).
pub mod Tables
pub mod Computation
pub mod Rounds
pub mod Marks
pub mod Rows
pub mod Invariant
pub mod Steps
pub mod Loop
pub mod Policy
pub mod Origin
pub mod Removal
pub mod Triggers
mod Examples
mod TriggerExamples
