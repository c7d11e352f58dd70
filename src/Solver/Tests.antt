-- ===== src/Solver/Tests.antt =====
-- A run of the solver on a request for two participants.
use miniclass.Base.{ℕ, ◌≡◌, refl, true, [], ◌∷◌, none, some, contains, if◌then◌else◌}
use miniclass.Base.Int.{pos}
use miniclass.Base.Counting.{distinct, times}
use miniclass.Base.Keyed.{put}
use miniclass.Base.Sort.{sort_slice}
use miniclass.Session.{SessionState}
use miniclass.Store.Rows.{Quality, SolverStatus, ApplicationStatus, SolveRun, Db}
use miniclass.Store.Tx.{in_tenant_read, Result, ok, in_tenant, record_audit}
use miniclass.Store.Queries.{get_session_for_update, advance_draft_revision}
use miniclass.Store.Replace.{replace_draft_assignments, write_input}
use miniclass.Solver.Contract.{Request, Participant, SolverOffering, canonicalize}
use miniclass.Solver.Response.{Response, SolverAssignment, canonicalize_response}
use miniclass.Solver.Start.{
  StartInput, participant_ids, prepare, start, validate_successful_response, successful_status,
}
use miniclass.Solver.Coverage.{participant}
use miniclass.Solver.Accept.{prepare-times}
use miniclass.Solver.Rerun.{get_run, rerun, Reproduces, rerun-Reproduces}
use miniclass.Solver.Outcome.{RunOutcome, start-RunOutcome}
use miniclass.Samples.{db_in, organizer, value}

abbrev of_grade : ℕ → Participant
of_grade id = record {
  id = id;
  grade_ordinal = pos 1;
  ranked_choices = none;
  interest_profile = [];
}

abbrev open_to_all : ℕ → SolverOffering
open_to_all id = record {
  id = id;
  capacity = pos 2;
  min_grade_ordinal = pos 1;
  max_grade_ordinal = pos 2;
  interest_area_id = none;
}

abbrev sample_request : Request
sample_request = record {
  version = 1;
  seed = pos 0;
  max_deterministic_time = pos 1;
  high_rank_max = pos 3;
  participants = of_grade 12 ∷ of_grade 11 ∷ [];
  offerings = open_to_all 21 ∷ [];
  pins = [];
  exclusions = [];
  authorized_exceptions = [];
  prior_placements = [];
}

abbrev placed_at : ℕ → SolverAssignment
placed_at id = record { participant_id = id; offering_id = 21; realized_quality = Quality.high }

abbrev sample_response : Response
sample_response = record {
  version = 1;
  seed = pos 7;
  status = SolverStatus.optimal;
  assignments = placed_at 12 ∷ placed_at 11 ∷ [];
  conflict_diagnostics = [];
}

abbrev sidecar : Request → Result Response
sidecar request = ok sample_response

abbrev digest : Request → ℕ
digest request = 99

abbrev sample_input : StartInput
sample_input = record {
  rerun_of_solve_run_id = none;
  request = sample_request;
  seed = some (pos 7);
  draft_revision = some 5;
}

abbrev ordered_request : Request
ordered_request = record sample_request {
  seed = pos 7;
  participants = of_grade 11 ∷ of_grade 12 ∷ [];
}

abbrev ordered_response : Response
ordered_response = record sample_response { assignments = placed_at 11 ∷ placed_at 12 ∷ [] }

prepared :
    prepare sidecar digest (pos 0) sample_input ≡ ok (ordered_request, (99, ordered_response))
unfolding prepare canonicalize canonicalize_response sort_slice validate_successful_response
    distinct
prepared = refl

is_successful : successful_status ordered_response.status ≡ true
unfolding successful_status
is_successful = refl

prepare-times_example :
    times participant 12 ordered_response.assignments
    ≡ (if contains 12 (participant_ids ordered_request) then 1 else 0)
prepare-times_example =
    prepare-times sidecar digest (pos 0) sample_input ordered_request 99 ordered_response prepared
      is_successful 12

abbrev no_run : SolveRun
no_run = record {
  id = 0;
  rerun_of_solve_run_id = none;
  seed = pos 0;
  input_fingerprint = 0;
  solver_status = SolverStatus.no_status;
  application_status = ApplicationStatus.not_applicable;
}

abbrev db : Db
db = db_in SessionState.assigning

abbrev sample_run : SolveRun
sample_run = value no_run (start sidecar digest (pos 0) organizer sample_input db).0

started : (start sidecar digest (pos 0) organizer sample_input db).0 ≡ ok sample_run
unfolding start canonicalize canonicalize_response sort_slice distinct in_tenant
    get_session_for_update replace_draft_assignments write_input advance_draft_revision put
    record_audit
started = refl

start-RunOutcome_example :
    RunOutcome sample_input db (start sidecar digest (pos 0) organizer sample_input db).1 sample_run
start-RunOutcome_example =
    start-RunOutcome sidecar digest (pos 0) organizer sample_input db sample_run started

-- A session with a run to repeat.
abbrev source_run : SolveRun
source_run = record {
  id = 90;
  rerun_of_solve_run_id = none;
  seed = pos 7;
  input_fingerprint = 99;
  solver_status = SolverStatus.optimal;
  application_status = ApplicationStatus.applied;
}

abbrev db_with_run : Db
db_with_run = record db { solve_runs = source_run ∷ [] }

abbrev repeated_run : SolveRun
repeated_run = value no_run (rerun sidecar digest (pos 0) organizer 90 sample_request db_with_run).0

repeated :
    (rerun sidecar digest (pos 0) organizer 90 sample_request db_with_run).0 ≡ ok repeated_run
unfolding rerun in_tenant_read start canonicalize canonicalize_response sort_slice distinct
    in_tenant get_session_for_update replace_draft_assignments write_input advance_draft_revision
    put record_audit
repeated = refl

rerun-Reproduces_example :
    (source : SolveRun) × (get_run 90 db_with_run ≡ ok source) × Reproduces source repeated_run
rerun-Reproduces_example =
    rerun-Reproduces sidecar digest (pos 0) organizer 90 sample_request db_with_run repeated_run
      repeated
