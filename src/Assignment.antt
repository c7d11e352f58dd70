-- ===== src/Assignment.antt =====
-- The manual operations on the draft of a session: backend/internal/program/assignment_operations.go.
pub mod Inputs
pub mod Rules
pub mod Operations
mod Tests
pub mod Runs
pub mod Frames
pub mod Placement
pub mod Revision
pub mod Outcome
pub mod Moves
pub mod Removal
pub mod Table
pub mod Safety
