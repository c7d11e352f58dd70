-- ===== src/Lib.antt =====
-- Mini Class Planner: the placement of students in the offerings of a session, from the vote to the
-- published draft.
--
-- The program is a Go server (backend/) over PostgreSQL with a solver as a sidecar. A session walks
-- through the states of its lifecycle; students rank its offerings; a run of the solver or an organizer
-- fills its draft of assignments; every change runs in a tenant transaction that records who made it.
--
-- Base holds the helpers: Boolean tests, lists, texts and integers over the native numbers, maps from
-- identifiers to rows as lists in order (Keyed), counting (Counting) and sort.Slice (Sort).
--
-- Store models backend/internal/data and backend/internal/audit. Rows has the rows that the queries of
-- one session of one organization see, as one record; Tx is the transaction of data.go, a function on
-- these rows and on the two audit marks that returns an error or a value with the new rows; Queries and
-- Replace are the statements of session.go, assignment.go and assignment_editing.go with the SQL under
-- backend/sql/queries that they run. Steps, Atomic, Audit and Placements are lemmas on them.
--
-- Session models backend/internal/program/session_lifecycle.go: Lifecycle the planner, Transition the
-- service call with its preview. Graph, Moves and Outcome prove what they do.
--
-- Preference models backend/internal/program/offering_preference.go (Offering) and, of
-- backend/internal/preference, the validation of a submission in service.go and grade_eligibility.go
-- (Responses). Order, Complete and Eligibility prove what they do.
--
-- Assignment models backend/internal/program/assignment_operations.go: Inputs the rows to write, Rules
-- the hard rules, Operations the five operations. Runs takes a successful operation apart; Revision,
-- Outcome, Moves, Removal, Table and Safety prove what it did.
--
-- Solver models backend/internal/solvercontract/contract.go (Contract and Response) and, of
-- backend/internal/solver/service.go, the runs and their repetition (Start and Rerun). Coverage and
-- Accept are about the responses that are accepted, Outcome about what a run changes.
--
-- Exclusion models backend/internal/program/assignment_exclusions.go, and NonParticipation
-- backend/internal/program/non_participation.go, on the statements in Store.Editing. Exclusion.Effects
-- and Undo say what an addition does and how it is taken back. In NonParticipation, Invariant, Kept,
-- Draft and History are about the placed and the absent, and Projection about the members listed.
--
-- Authorization models backend/internal/auth/capabilities.go, and Authorization.Access the middleware of
-- backend/internal/auth/middleware.go that every operation passes; Matrix, Safety and
-- Administrative prove what they do.
--
-- RealIp models backend/internal/api/realip.go, with the packages net and net/netip as an interface, and
-- Limiter backend/internal/api/onboarding_rate_limit.go, whose middleware (Limiter.Middleware) keys its
-- buckets by the address that RealIp left in the request. Buckets has the laws of the map, Credit the
-- tokens that a request would find, Calls what a call does to them; Bounds, Quota, Wait and Keys are
-- what follows. A float64 of tokens is an exact fraction, so rounding is left out, and a call reads the
-- clock when it takes the lock, where the code reads it just before.
--
-- Ingest models the grades import of backend/internal/ingest/grades.go: Grades the preview,
-- Contradictions and Updates what it finds.
--
-- Feasibility models backend/internal/program/feasibility.go: the advice about a catalog (Gaps and
-- Evaluate), on the rows that the service reads. Sums and Capacity are about its places, Levels and
-- Window about its grades.
--
-- Staleness joins the transitions, the manual operations and the runs in one step relation. The editor
-- of sessions, which changes names, dates and deadlines, is not among them.
--
-- Samples and the modules called Tests hold a small session and runs on it.
--
-- Choices. Every loop is structural recursion on a list, so no definition needs fuel. An identifier is a
-- number in the order of the texts, 0 for the empty one; a text is a list of character codes; an int
-- whose sign is tested is an integer without bounds, since it is only compared; a revision is a natural
-- number without bound, where the source has 64 bits and adds one per edit. The clock, the sidecar, the
-- digest of a request and the drawn seed are arguments. A Go map is a list in the order of its keys; the
-- order in which a map is walked, which Go leaves open, is an argument where it matters. Each
-- transaction runs alone, and one that fails leaves no trace. The locks on the session row order the
-- transitions, the manual operations and the runs in this way; the creation of an absence reads the
-- session without a lock, and what it could see of a concurrent change is left out. So are lost
-- connections and failing commits, the texts of errors and messages and the JSON of audit summaries and
-- documents.
--
-- Not modelled: the compilation of the solver's snapshot, the editors of sessions and offerings, stored
-- submissions, reports of quality, the verification of tokens, the routes and handlers of
-- the HTTP layer, the roster sources of the import and its commit, people and guardians, and the
-- frontend.
pub mod Base
pub mod Session
pub mod Store
pub mod Preference
pub mod Assignment
pub mod Solver
pub mod Exclusion
pub mod NonParticipation
pub mod Authorization
pub mod RealIp
pub mod Limiter
pub mod Ingest
pub mod Feasibility
pub mod Staleness
mod Samples
