-- ===== src/Assignment/Inputs.antt =====
-- `assignmentMap` and `assignmentInputs` of backend/internal/program/assignment_operations.go. A Go
-- map from students to rows is the list of its rows in the order of the students, in which
-- `assignmentInputs` walks it.
use miniclass.Base.{
  ◌==◌, true, false, ◌&&◌, List, [], ◌∷◌, Option, none, some, map, if◌then◌else◌, Xid,
}
use miniclass.Base.Int.{ℤ}
use miniclass.Base.Keyed.{put}
use miniclass.Store.Rows.{
  Quality, unset, neutral, Assignment, CreateAssignmentInput, SessionResultAnswer,
}
use miniclass.Store.Replace.{student}
use miniclass.Preference.Offering.{derive_offering_preference}

-- Later rows of a student replace earlier ones.
unfoldable pub assignment_map_from : List Assignment → List Assignment → List Assignment
assignment_map_from rows [] = rows
assignment_map_from rows (row ∷ rest) = assignment_map_from (put student row rows) rest

unfoldable pub assignment_map : List Assignment → List Assignment
unfolding assignment_map_from
assignment_map rows = assignment_map_from [] rows

-- `quality[student][offering]`: the last answer of the student to the offering decides.
unfoldable pub quality_from :
    Option Quality → ℤ → Xid → Xid → List SessionResultAnswer → Option Quality
quality_from found high_rank_max student_id offering_id [] = found
quality_from found high_rank_max student_id offering_id (a ∷ answers) =
    quality_from
      (if a.student_id == student_id && a.offering_id == offering_id
        then some
            (derive_offering_preference true (some a) none false high_rank_max).potential_quality
        else found)
      high_rank_max student_id offering_id answers

unfoldable pub expected_quality : List SessionResultAnswer → ℤ → Xid → Xid → Quality
unfolding quality_from
expected_quality answers high_rank_max student_id offering_id =
    elim (quality_from none high_rank_max student_id offering_id answers) [
      | some q ↦ q
      | none ↦ neutral
    ]

-- A recorded quality stays; an empty one is computed, and is neutral without an answer.
unfoldable pub realized : List SessionResultAnswer → ℤ → Assignment → Quality
unfolding expected_quality
realized answers high_rank_max row = elim row.realized_quality [
  | unset ↦ expected_quality answers high_rank_max row.student_id row.offering_id
  | q ↦ q
]

unfoldable pub assignment_input : List SessionResultAnswer → ℤ → Assignment → CreateAssignmentInput
unfolding realized
assignment_input answers high_rank_max row = record {
  student_id = row.student_id;
  offering_id = row.offering_id;
  solve_run_id = row.solve_run_id;
  origin = row.origin;
  pinned = row.pinned;
  realized_quality = realized answers high_rank_max row;
}

unfoldable pub assignment_inputs :
    List Assignment → List SessionResultAnswer → ℤ → List CreateAssignmentInput
unfolding assignment_input
assignment_inputs rows answers high_rank_max = map (assignment_input answers high_rank_max) rows
