-- ===== src/Samples.antt =====
-- A small session for the tests and the witnesses.
use miniclass.RealIp.{Netip}
use miniclass.Base.Text.{Text, codes}
use miniclass.Base.{ℕ, ◌==◌, Option, false, [], ◌∷◌, none, some, Xid}
use miniclass.Base.Int.{ℤ}
use miniclass.Session.{Session, SessionState}
use miniclass.Store.Rows.{
  Assignment, Offering, Actor, ActorType, Db, Origin, Quality, RankedChoiceAnswer,
}
use miniclass.Store.Tx.{Result, ok, err}
use miniclass.Assignment.Operations.{AssignmentOperationInput}

abbrev pub offering : Xid → ℕ → Xid → Xid → Offering
offering id capacity min max = record {
  id = id;
  capacity = capacity;
  minimum_viable_enrollment = none;
  min_grade_level_id = min;
  max_grade_level_id = max;
  interest_area_id = none;
}

abbrev pub placement : Xid → Xid → Xid → Assignment
placement id student offering = record {
  id = id;
  student_id = student;
  offering_id = offering;
  solve_run_id = none;
  origin = Origin.solver;
  pinned = false;
  realized_quality = Quality.high;
}

abbrev pub session_in : SessionState → Session
session_in state = record {
  id = 7;
  name = 0;
  state = state;
  draft_assignments_stale = false;
  draft_revision = 5;
  ranked_choice = some (record { rank_depth = ℤ.pos 3; deadline = some 100 });
}

-- Students 11 and 12 are placed in 21 and 22, student 13 is not placed, and 14 is absent.
abbrev pub db_in : SessionState → Db
db_in state = record {
  session = some (session_in state);
  meeting_dates = 40 ∷ [];
  offerings = offering 21 1 31 32 ∷ offering 22 2 31 31 ∷ [];
  grade_levels =
      record { id = 31; code = codes "1"; label = codes "First"; ordinal = 1 }
      ∷ record { id = 32; code = codes "2"; label = codes "Second"; ordinal = 2 }
      ∷ [];
  memberships =
      record { student_id = 11; grade_level_id = some 31 }
      ∷ record { student_id = 12; grade_level_id = some 31 }
      ∷ record { student_id = 13; grade_level_id = some 32 }
      ∷ record { student_id = 14; grade_level_id = some 32 }
      ∷ [];
  non_participations = record { id = 41; student_id = 14; reason = 97 ∷ [] } ∷ [];
  exclusions = record { id = 42; student_id = 12; offering_id = 21 } ∷ [];
  assignments = placement 51 11 21 ∷ placement 52 12 22 ∷ [];
  overrides = [];
  answers =
      record {
        student_id = 11;
        offering_id = 22;
        answer = RankedChoiceAnswer.ranked;
        rank = some (ℤ.pos 1);
      }
      ∷ [];
  rank_high_max = ℤ.pos 3;
  rank_high_max_override = none;
  solve_runs = [];
  next_id = 60;
  audit_log = [];
}

abbrev pub organizer : Actor
organizer = record { type = ActorType.user; user_id = some 1; label = 111 ∷ [] }

abbrev pub request : AssignmentOperationInput
request = record { session_id = 7; expected_revision = 5; confirm_violations = false; reason = [] }

-- The value of a run that succeeds.
abbrev pub value : {A : Type 0} → A → Result A → A
value a (ok b) = b
value a (err e) = a

-- An address is a digit, and a network one address.
abbrev pub parse_digit : Text → Option ℕ
parse_digit (c ∷ []) = some c
parse_digit _ = none

abbrev pub digits : Netip
digits = record {
  Addr = ℕ;
  Prefix = ℕ;
  parse_addr = parse_digit;
  has_zone = λ a. a == b'%';
  unmap = λ a. a;
  string = λ a. a ∷ [];
  parse_prefix = parse_digit;
  contains = λ p a. p == a;
  split_host_port = λ s. none;
}
