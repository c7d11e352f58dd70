-- ===== src/Solver.antt =====
-- The solver's side of a session: the wire contract of backend/internal/solvercontract and the runs of
-- backend/internal/solver/service.go.
pub mod Contract
pub mod Response
pub mod Start
pub mod Coverage
pub mod Accept
pub mod Outcome
pub mod Rerun
mod Tests
