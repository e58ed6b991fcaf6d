-- ===== src/Lib.antt =====
-- Verification library of the AlgoreaBackend, the Go server of the Algorea learning platform.
--
-- The server is a set of HTTP services (app/api) over stores that build SQL statements
-- (app/database). A service reads the request (app/service, app/formdata), asks the database what
-- the user may do, and changes some rows in one transaction. Ancestors, permissions and results
-- are derived tables that are recomputed after the changes. What a service promises is decided by
-- Go code: rule tables, validators, plans of statements and conditions of queries. That code is
-- modelled here, with the tables it changes as lists of rows.
--
-- Membership is GroupGroupStore.Transition (app/database/group_group_store_transitions.go), which
-- every service that changes memberships calls.
--   Membership/Action: GroupMembershipAction with isActive, isPending, hasApprovals, PendingType.
--   Membership/Rules: groupGroupTransitionRules, the actions and the results.
--   Membership/Approvals: GroupApprovals with FromString and ToArray, approvalsOK.
--   Membership/Tables: the rows of groups, groups_groups, group_pending_requests,
--     group_membership_changes and permissions_granted, and the queries of the old states.
--   Membership/Plan: buildTransitionsPlan, buildOneTransition, deleteIDsFromTransitionPlan.
--   Membership/Statements: the deletions and insertions that a plan is carried out with.
--   Membership/Transition: performCyclesChecking, enforceMaxSize and Transition.
--   The other children of Membership are proofs: Decision describes independently what is decided
--   for one child, Settle, Reading and Rows what that does to its rows.
--
-- Permissions is the service that grants permissions on an item to a group
-- (app/api/groups/update_permissions.go, app/database/permission_granted_store.go).
--   Permissions/Levels: the enums of the columns and their indexes.
--   Permissions/Checks: the functions checkIfPossibleToModify...
--   Permissions/Validators: registerPermissionsValidators and the validators of each field, which
--     update the permissions that the next ones read.
--   Permissions/Update: updatePermissions, correctPermissionsDataMap, savePermissionsIntoDB.
--   The other children are proofs; Permissions/Intended describes the saved row independently, and
--   Permissions/Rights what a manager has the right to change.
--
-- Threads is the service that updates a help thread (app/api/threads/update_thread.go,
-- app/api/threads/threads.go, app/database/thread.go).
--   Threads/Status: IsThreadOpenStatus, userCanWriteInThread, userCanChangeThreadStatus,
--     newMessageCountWithIncrement.
--   Threads/Input: the validators.
--   Threads/Update: constructThreadInfoQuery, checkUpdateThreadPermissions, computeNewThreadData and
--     updateThread, with the upsert of the row.
--   The other children are proofs.
--
-- Paging is the sorting and paging of lists (app/service/sorting.go).
--   Paging/Rules: parseSortingRules with validateSortingField and the reading of a statement.
--   Paging/Conditions: constructPagingConditions as SQL expressions, and their values in the
--     three-valued logic of SQL.
--   Paging/Parameters: ParsePagingParameters.
--   Paging/Order: sortingType.asSQL and applyOrder as an order on rows.
--   The other children are proofs.
--
-- Access is the propagation of permissions over the items
-- (app/database/permission_granted_store_compute_all_access.go): computeAllAccess, which makes
-- permissions_generated follow permissions_granted and items_items, and the triggers (db/migrations)
-- that mark where it starts.
--   Access/Tables: the rows of permissions_generated, permissions_granted, permissions_propagate,
--     items_items and items_ancestors.
--   Access/Computation: queryUpdatePermissionsGenerated for one pair of a group and an item.
--   Access/Rounds: the other statements, one round, and the loop of computeAllAccess.
--   Access/Triggers: the triggers on permissions_granted and on a new relation, which mark what the
--     propagation has to compute.
--   Access/Removal: the trigger on a deleted relation, and what the propagation then does.
--   The other children are proofs; Access/Loop has the definition by recursion on the parents that
--   the loop is compared with.
--
-- Ancestors is the recomputation of groups_ancestors and items_ancestors after a change of the
-- relations (app/database/ancestors.go): createNewAncestors, which runs for both kinds of objects.
--   Ancestors/Tables: the marks, and ObjectTables, what differs between groups and items.
--   Ancestors/Rounds: the statements on the marks, one round and the loop.
--   Ancestors/Items and Ancestors/Groups: the statements on items_ancestors and groups_ancestors.
--   Ancestors/Laws: what the loop relies on; ItemLaws and GroupInsertions show it of the two.
--   The other children are proofs. Ancestors/Composition joins the part with Access, which reads
--   items_ancestors.
--
-- Children is the update of the children of an item (app/api/items/items.go,
-- app/api/items/update_item.go).
--   Children/Enums: the lookups of enum values (app/database/db_enums.go).
--   Children/Types: the request, the permissions of the user and the old relations.
--   Children/Validators and Children/Fields: validateChildrenFieldsAndApplyDefaults.
--   Children/Listing: the validators of the list (app/api/items/create_item.go).
--   Children/Update: updateChildrenAndRunListeners, which ends with the createNewAncestors of
--     Ancestors.
--   Children/Handler: the part of updateItem about the children, which calls the last two.
--   The other children are proofs; Children/Policy says independently what may be propagated.
--
-- Each part has a module Examples (Access, Ancestors and Children have two) with tests and with an
-- instance of each theorem. Shared holds what the parts use together: Boolean tests on numbers, Go
-- maps as association lists, Go strings as lists of code points.
--
-- Go maps are association lists with one entry for each key: a loop over a map runs in the order
-- of the list, one of the orders that Go may take. Times are numbers of seconds. The loops run
-- over a list and need no fuel, but for those of computeAllAccess and createNewAncestors, where
-- the height of the items or groups, and one more, is enough (twice the height after an update of
-- the children of an item). Go's int is written out where a sum of the program can leave its 64
-- bits (the message count of a thread). The answers of queries that are not modelled are
-- parameters: which groups are visible, what a user may watch, which groups a user may manage.
--
-- Not modelled are the decoding of requests by reflection and third-party packages, the text of
-- SQL statements (each is read as what it does to the rows), locks and retries of transactions,
-- cookies, tokens and cryptography, the recomputation of results and the triggers that start it,
-- the columns of items other than their relations, and the services that only build queries.
pub mod Shared
pub mod Membership
pub mod Permissions
pub mod Threads
pub mod Paging
pub mod Access
pub mod Ancestors
pub mod Children
