-- ===== src/Store/Rows.antt =====
-- The rows of one session of one organization, as the queries restricted to its identifiers return
-- them (backend/internal/data/session.go, assignment.go, assignment_editing.go, offering.go,
-- preference_results.go, vocabulary.go, program.go; backend/internal/audit/audit.go).
use miniclass.Base.{ℕ, Bool, List, Option, Xid, Time, map}
use miniclass.Base.Int.{ℤ}
use miniclass.Base.Text.{Text}
use miniclass.Session.{Session}

pub data Quality : Type 0 where
  unset top high acceptable neutral unwanted : Quality

pub data Origin : Type 0 where
  solver manual : Origin

pub record Assignment : Type 0 where
  pub id : Xid
  pub student_id : Xid
  pub offering_id : Xid
  pub solve_run_id : Option Xid
  pub origin : Origin
  pub pinned : Bool
  pub realized_quality : Quality

pub record CreateAssignmentInput : Type 0 where
  pub student_id : Xid
  pub offering_id : Xid
  pub solve_run_id : Option Xid
  pub origin : Origin
  pub pinned : Bool
  pub realized_quality : Quality

-- The hard rules that a manual placement can violate.
pub data Rule : Type 0 where
  capacity grade_window exclusion : Rule

pub record AssignmentOverride : Type 0 where
  pub assignment_id : Xid
  pub rule : Rule
  pub reason : Text
  pub recorded_by : Text

pub record Offering : Type 0 where
  pub id : Xid
  pub capacity : ℕ
  pub minimum_viable_enrollment : Option ℕ
  pub min_grade_level_id : Xid
  pub max_grade_level_id : Xid
  pub interest_area_id : Option Xid

pub record GradeLevel : Type 0 where
  pub id : Xid
  pub code : Text
  pub label : Text
  pub ordinal : ℕ

pub record ProgramMembership : Type 0 where
  pub student_id : Xid
  pub grade_level_id : Option Xid

pub record AssignmentExclusion : Type 0 where
  pub id : Xid
  pub student_id : Xid
  pub offering_id : Xid

-- `other_answer` is every text outside the vocabulary.
pub data RankedChoiceAnswer : Type 0 where
  ranked interested not_interested no_response other_answer : RankedChoiceAnswer

pub record SessionNonParticipation : Type 0 where
  pub id : Xid
  pub student_id : Xid
  pub reason : Text

pub record SessionResultAnswer : Type 0 where
  pub student_id : Xid
  pub offering_id : Xid
  pub answer : RankedChoiceAnswer
  pub rank : Option ℤ

pub data ActorType : Type 0 where
  user link system invalid_type : ActorType

pub record Actor : Type 0 where
  pub type : ActorType
  pub user_id : Option Xid
  pub label : Text

pub data Action : Type 0 where
  session_state_transition manual_operation solve_run preference_submission : Action
  exclusion_change session_non_participation : Action

pub record Entry : Type 0 where
  pub action : Action
  pub object_id : Option Xid
  pub reason : Text

-- The audit log holds the newest row first.
pub record AuditRow : Type 0 where
  pub actor_label : Text
  pub entry : Entry

-- `no_status` is the empty text, and `other_status` every text outside the two that are tested.
pub data SolverStatus : Type 0 where
  no_status optimal feasible other_status : SolverStatus

pub data ApplicationStatus : Type 0 where
  applied superseded not_applicable : ApplicationStatus

-- A recorded run, without its documents.
pub record SolveRun : Type 0 where
  pub id : Xid
  pub rerun_of_solve_run_id : Option Xid
  pub seed : ℤ
  pub input_fingerprint : ℕ
  pub solver_status : SolverStatus
  pub application_status : ApplicationStatus

pub record Db : Type 0 where
  pub session : Option Session
  pub meeting_dates : List Time
  pub offerings : List Offering
  pub grade_levels : List GradeLevel
  pub memberships : List ProgramMembership
  pub non_participations : List SessionNonParticipation
  pub exclusions : List AssignmentExclusion
  pub assignments : List Assignment
  pub overrides : List AssignmentOverride
  pub answers : List SessionResultAnswer
  pub rank_high_max : ℤ
  pub rank_high_max_override : Option ℤ
  pub solve_runs : List SolveRun
  pub next_id : Xid
  pub audit_log : List AuditRow

-- The students who do not take part in the session.
abbrev pub absent : Db → List Xid
absent db = map (λ (n : SessionNonParticipation). n.student_id) db.non_participations
