-- ===== src/Solver/Start.antt =====
-- `Start`, `Rerun` and their helpers of backend/internal/solver/service.go, and `CreateSolveRun` of
-- backend/internal/data/solve_run.go. The sidecar, the digest of a canonical request and the drawn
-- seed are arguments. The sidecar runs before the transaction, so the rows of a run are those at its
-- transaction, whatever the snapshot was.
use miniclass.Base.{
  ℕ, suc, ◌==◌, Bool, true, false, not, ◌&&◌, ◌||◌, List, [], ◌∷◌, Option, none, some, contains,
  map, length, if◌then◌else◌, Xid,
}
use miniclass.Base.Int.{ℤ}
use miniclass.Base.Counting.{distinct}
use miniclass.Store.Rows.{
  CreateAssignmentInput, Origin, Actor, Entry, solve_run, SolverStatus, optimal, feasible,
  ApplicationStatus, applied, superseded, not_applicable, SolveRun, Db,
}
use miniclass.Store.Tx.{
  response_invalid, Result, ok, err, Tx, pure, ◌>>=◌, ◌>>◌, record_audit, in_tenant,
}
use miniclass.Store.Queries.{get_session_for_update, advance_draft_revision}
use miniclass.Store.Replace.{replace_draft_assignments}
use miniclass.Solver.Contract.{Request, Participant, SolverOffering, Placement, canonicalize}
use miniclass.Solver.Response.{Response, SolverAssignment, canonicalize_response}

pub record StartInput : Type 0 where
  pub rerun_of_solve_run_id : Option Xid
  pub request : Request
  pub seed : Option ℤ
  pub draft_revision : Option ℕ

unfoldable pub successful_status : SolverStatus → Bool
successful_status optimal = true
successful_status feasible = true
successful_status _ = false

-- The revision that the snapshot was compiled at, against the session's.
abbrev is_superseded : Option ℕ → ℕ → Bool
is_superseded none current = false
is_superseded (some expected) current = not (current == expected)

unfoldable pub application_status : SolverStatus → Option ℕ → ℕ → ApplicationStatus
unfolding successful_status
application_status status expected current =
    if not (successful_status status)
    then not_applicable
    else if is_superseded expected current
    then superseded
    else applied

-- `assigned[id]`: where the last assignment of the participant puts them.
unfoldable pub assigned_from : Option Xid → Xid → List SolverAssignment → Option Xid
assigned_from found id [] = found
assigned_from found id (a ∷ l) =
    assigned_from (if a.participant_id == id then some a.offering_id else found) id l

unfoldable pub known_assignments : List Xid → List Xid → List SolverAssignment → Bool
known_assignments participants offerings [] = true
known_assignments participants offerings (a ∷ l) =
    contains a.participant_id participants
    && (contains a.offering_id offerings && known_assignments participants offerings l)

abbrev pub is_at : Option Xid → Xid → Bool
is_at none o = o == 0
is_at (some x) o = x == o

unfoldable pub retains_pins : List SolverAssignment → List Placement → Bool
unfolding assigned_from
retains_pins l [] = true
retains_pins l (p ∷ ps) =
    is_at (assigned_from none p.participant_id l) p.offering_id && retains_pins l ps

abbrev pub participant_ids : Request → List Xid
participant_ids r = map (λ (p : Participant). p.id) r.participants

abbrev pub offering_ids : Request → List Xid
offering_ids r = map (λ (o : SolverOffering). o.id) r.offerings

unfoldable pub validate_successful_response : Request → Response → Bool
unfolding successful_status distinct known_assignments retains_pins
validate_successful_response request response =
    not (successful_status response.status)
    || (length response.assignments == distinct (participant_ids request)
        && (known_assignments (participant_ids request) (offering_ids request) response.assignments
            && retains_pins response.assignments request.pins))

-- `pins[id]`: the last pin of the participant.
unfoldable pub pin_from : Option Xid → Xid → List Placement → Option Xid
pin_from found id [] = found
pin_from found id (p ∷ ps) =
    pin_from (if p.participant_id == id then some p.offering_id else found) id ps

unfoldable pub assignment_input : Request → Xid → SolverAssignment → CreateAssignmentInput
unfolding pin_from
assignment_input request run_id a = record {
  student_id = a.participant_id;
  offering_id = a.offering_id;
  solve_run_id = some run_id;
  origin = Origin.solver;
  pinned = is_at (pin_from none a.participant_id request.pins) a.offering_id;
  realized_quality = a.realized_quality;
}

unfoldable pub assignment_inputs : Request → Xid → Response → List CreateAssignmentInput
unfolding assignment_input
assignment_inputs request run_id response =
    map (assignment_input request run_id) response.assignments

-- The row takes a new identifier; its required fields are never empty here.
unfoldable pub create_solve_run : (Xid → SolveRun) → Tx SolveRun
create_solve_run row s = ok (
  row s.db.next_id,
  record s {
    db = record (s.db) {
      solve_runs = row s.db.next_id ∷ s.db.solve_runs;
      next_id = suc s.db.next_id;
    };
  },
)

abbrev pub run_row : StartInput → Request → ℕ → Response → ApplicationStatus → Xid → SolveRun
run_row input request fingerprint response status id = record {
  id = id;
  rerun_of_solve_run_id = input.rerun_of_solve_run_id;
  seed = request.seed;
  input_fingerprint = fingerprint;
  solver_status = response.status;
  application_status = status;
}

-- The rows of a run that applies.
unfoldable pub apply_run : Request → Xid → Response → ℕ → Tx (Unit {0})
unfolding assignment_inputs
apply_run request run_id response revision = do
  replace_draft_assignments (assignment_inputs request run_id response)
  advance_draft_revision revision
  pure tt

abbrev pub apply_if : ApplicationStatus → Tx (Unit {0}) → Tx (Unit {0})
apply_if applied m = m
apply_if superseded m = pure tt
apply_if not_applicable m = pure tt

abbrev pub run_entry : Xid → Entry
run_entry id = record { action = solve_run; object_id = some id; reason = [] }

unfoldable pub start_body : StartInput → Request → ℕ → Response → Tx SolveRun
unfolding application_status create_solve_run apply_run
start_body input request fingerprint response = do
  current ← get_session_for_update
  let status = application_status response.status input.draft_revision current.draft_revision
  run ← create_solve_run (run_row input request fingerprint response status)
  apply_if status (apply_run request run.id response current.draft_revision)
  record_audit (run_entry run.id)
  pure run

-- The canonical request, its fingerprint and the canonical response.
abbrev pub Prepared : Type 0
Prepared = Request × (ℕ × Response)

abbrev pub accept : Bool → Prepared → Result Prepared
accept true p = ok p
accept false p = err response_invalid

abbrev pub with_response : Request → ℕ → Result Response → Result Prepared
with_response request fingerprint (err e) = err e
with_response request fingerprint (ok response) =
    accept (validate_successful_response request response) (request, (fingerprint, response))

abbrev pub with_raw : Request → ℕ → Result Response → Result Prepared
with_raw request fingerprint (err e) = err e
with_raw request fingerprint (ok raw) =
    with_response request fingerprint (canonicalize_response raw)

module _ (solve : Request → Result Response) (digest : Request → ℕ) (drawn : ℤ) where
  abbrev pub with_request : Result Request → Result Prepared
  with_request (err e) = err e
  with_request (ok request) = with_raw request (digest request) (solve request)

  -- What `Start` does before its transaction.
  unfoldable pub prepare : StartInput → Result Prepared
  unfolding validate_successful_response
  prepare input = with_request (
      canonicalize
        (record (input.request) { seed = elim input.seed [ none ↦ drawn | some seed ↦ seed ] }))

  abbrev pub start_prepared : Actor → StartInput → Result Prepared → Db → Result SolveRun × Db
  start_prepared actor input (err e) db = (err e, db)
  start_prepared actor input (ok (request, (fingerprint, response))) db =
      in_tenant actor (start_body input request fingerprint response) db

  unfoldable pub start : Actor → StartInput → Db → Result SolveRun × Db
  unfolding prepare start_body
  start actor input db = start_prepared actor input (prepare input) db
