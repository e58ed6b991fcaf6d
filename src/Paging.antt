-- ===== src/Paging.antt =====
-- Sorting and paging of the lists that the services return: app/service/sorting.go.
pub mod Conditions
pub mod Order
pub mod Pages
pub mod Rules
pub mod Names
pub mod Parsing
pub mod Completeness
pub mod Statements
mod Examples
pub mod Parameters
