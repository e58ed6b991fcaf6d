-- ===== src/Membership.antt =====
-- Group memberships: app/database/group_group_store_transitions.go, the state machine by which
-- users join and leave groups, over the tables groups_groups and group_pending_requests.
pub mod Action
pub mod Rules
pub mod Approvals
pub mod Tables
pub mod Plan
pub mod Statements
pub mod Transition
pub mod StatementLaws
pub mod Decision
pub mod Entries
pub mod PlanLaws
pub mod Striking
pub mod Final
pub mod Reading
pub mod Settle
pub mod Rows
pub mod PlanKeys
pub mod Outcomes
pub mod Refinement
pub mod Origin
pub mod Safety
pub mod Consent
pub mod ApprovalLists
mod Examples
