-- ===== src/Ancestors.antt =====
-- The recomputation of ancestors: `DataStore.createNewAncestors` (app/database/ancestors.go).
pub mod Tables
pub mod Rounds
pub mod Laws
pub mod Marks
pub mod Invariant
pub mod Loop
pub mod Items
pub mod ItemLaws
pub mod ItemClosure
pub mod Composition
pub mod Groups
pub mod GroupLaws
pub mod GroupInsertions
pub mod GroupClosure
pub mod GroupAncestry
mod Examples
mod GroupExamples
