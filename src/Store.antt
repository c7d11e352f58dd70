-- ===== src/Store.antt =====
-- The data layer, backend/internal/data: the rows that the queries of one session see, the unit of
-- work of a tenant transaction, and the queries on sessions and assignments.
pub mod Rows
pub mod Tx
pub mod Steps
pub mod Atomic
pub mod Audit
pub mod Queries
pub mod Editing
pub mod Replace
pub mod Placements
mod Tests
