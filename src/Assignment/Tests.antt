-- ===== src/Assignment/Tests.antt =====
-- Runs of the manual operations on the sample session.
use miniclass.Base.{◌≡◌, ◌≢◌, refl, Bool, true, not, List, [], ◌∷◌, arith, All}
use miniclass.Base.Keyed.{put}
use miniclass.Session.{SessionState}
use miniclass.Store.Rows.{Assignment, Db}
use miniclass.Store.Tx.{ok, err, draft_revision_conflict, in_tenant, record_audit, validate_actor}
use miniclass.Store.Queries.{
  get_session_for_update, advance_or_conflict, create_assignment_override, list_assignments,
}
use miniclass.Store.Replace.{assignment_of, replace_draft_assignments, write_input}
use miniclass.Samples.{db_in, organizer, request, session_in, value}
use miniclass.Assignment.Inputs.{assignment_map, assignment_inputs}
use miniclass.Assignment.Rules.{
  Move, evaluate_manual_assignments, grade_from, violations_for_student,
}
use miniclass.Assignment.Operations.{
  AssignmentOperationInput, AssignmentOperationResult, moves, resolve, apply_moves,
  change_assignments, change_assignments_body, remove_body, remove_matching, remove_none,
  move_assignment, swap_assignments, remove_assignments, write_overrides,
}
use miniclass.Assignment.Placement.{IsDraft, placement_of, placed}
use miniclass.Assignment.Moves.{Exchanged, move_assignment-places, swap_assignments-Exchanged}
use miniclass.Assignment.Removal.{kept_placement, remove_assignments-keeps}
use miniclass.Assignment.Table.{change_assignments-IsDraft}
use miniclass.Assignment.Safety.{RespectsRules, change_assignments-RespectsRules}
use miniclass.Assignment.Revision.{run_manual, move, exchange, run_manual-conflict}
use miniclass.Assignment.Outcome.{Outcome, run_manual-Outcome, run_manual-exclusive}

abbrev db : Db
db = db_in SessionState.assigning

db-IsDraft : IsDraft db
db-IsDraft = record { sorted = ((omega arith, tt), (tt, tt)); recorded = (λ e. cc, (λ e. cc, tt)) }

abbrev confirmed : AssignmentOperationInput
confirmed = record request { confirm_violations = true }

abbrev late : AssignmentOperationInput
late = record request { expected_revision = 4 }

abbrev nothing : AssignmentOperationResult
nothing = record { assignments = []; draft_revision = 0 }

abbrev moved_result : AssignmentOperationResult
moved_result = value nothing (move_assignment organizer request 11 22 db).0

abbrev swapped_result : AssignmentOperationResult
swapped_result = value nothing (swap_assignments organizer confirmed 11 12 db).0

abbrev is_unpinned : Assignment → Bool
is_unpinned row = not row.pinned

abbrev cleared_result : AssignmentOperationResult
cleared_result = value nothing (remove_assignments organizer request is_unpinned db).0

moved_ok : (move_assignment organizer request 11 22 db).0 ≡ ok moved_result
unfolding move_assignment swap_assignments change_assignments change_assignments_body resolve
    remove_assignments remove_body remove_matching remove_none in_tenant get_session_for_update
    advance_or_conflict list_assignments evaluate_manual_assignments apply_moves put assignment_map
    grade_from replace_draft_assignments assignment_inputs write_input write_overrides
    violations_for_student record_audit
moved_ok = refl

swapped_ok : (swap_assignments organizer confirmed 11 12 db).0 ≡ ok swapped_result
unfolding move_assignment swap_assignments change_assignments change_assignments_body resolve
    remove_assignments remove_body remove_matching remove_none in_tenant get_session_for_update
    advance_or_conflict list_assignments evaluate_manual_assignments apply_moves put assignment_map
    grade_from replace_draft_assignments assignment_inputs write_input write_overrides
    violations_for_student create_assignment_override record_audit
swapped_ok = refl

cleared_ok : (remove_assignments organizer request is_unpinned db).0 ≡ ok cleared_result
unfolding move_assignment swap_assignments change_assignments change_assignments_body resolve
    remove_assignments remove_body remove_matching remove_none in_tenant get_session_for_update
    advance_or_conflict list_assignments evaluate_manual_assignments apply_moves put assignment_map
    grade_from replace_draft_assignments assignment_inputs write_input write_overrides
    violations_for_student record_audit
cleared_ok = refl

changed_ok : (change_assignments organizer request (moves ((11, 22) ∷ [])) db).0 ≡ ok moved_result
unfolding move_assignment swap_assignments change_assignments change_assignments_body resolve
    remove_assignments remove_body remove_matching remove_none in_tenant get_session_for_update
    advance_or_conflict list_assignments evaluate_manual_assignments apply_moves put assignment_map
    grade_from replace_draft_assignments assignment_inputs write_input write_overrides
    violations_for_student record_audit
changed_ok = moved_ok

run_ok : (run_manual organizer request (move 11 22) db).0 ≡ ok moved_result
unfolding run_manual
run_ok = moved_ok

move_assignment-places_example :
    placement_of (move_assignment organizer request 11 22 db).1 11
    ≡ placed db 11 22 (placement_of db) 11
move_assignment-places_example =
    move_assignment-places organizer request 11 22 11 db db-IsDraft moved_result moved_ok

swap_assignments-Exchanged_example :
    Exchanged db (swap_assignments organizer confirmed 11 12 db).1 11 12
swap_assignments-Exchanged_example =
    swap_assignments-Exchanged organizer confirmed 11 12 db db-IsDraft swapped_result swapped_ok

remove_assignments-keeps_example :
    placement_of (remove_assignments organizer request is_unpinned db).1 12
    ≡ kept_placement (λ row. not (is_unpinned row)) (assignment_of 12 db.assignments)
remove_assignments-keeps_example =
    remove_assignments-keeps organizer request is_unpinned 12 db db-IsDraft cleared_result
      cleared_ok

change_assignments-IsDraft_example :
    IsDraft (change_assignments organizer request (moves ((11, 22) ∷ [])) db).1
    × ((change_assignments organizer request (moves ((11, 22) ∷ [])) db).1.assignments
        ≡ moved_result.assignments)
change_assignments-IsDraft_example =
    change_assignments-IsDraft organizer request (moves ((11, 22) ∷ [])) db db-IsDraft moved_result
      changed_ok

change_assignments-RespectsRules_example :
    (l : List Move) × (resolve (moves ((11, 22) ∷ [])) db.assignments ≡ ok l)
    × All
        (RespectsRules db
          (change_assignments organizer request (moves ((11, 22) ∷ [])) db).1.assignments)
        l
change_assignments-RespectsRules_example =
    change_assignments-RespectsRules organizer request (moves ((11, 22) ∷ [])) db db-IsDraft
      moved_result refl changed_ok

organizer-valid : validate_actor organizer ≡ true
unfolding validate_actor
organizer-valid = refl

run_manual-conflict_example :
    run_manual organizer late (exchange 11 12) db ≡ (err draft_revision_conflict, db)
run_manual-conflict_example =
    run_manual-conflict organizer late (exchange 11 12) db (session_in SessionState.assigning)
      organizer-valid refl refl (λ e. cc)

run_manual-Outcome_example :
    Outcome request db (run_manual organizer request (move 11 22) db).1 moved_result.draft_revision
run_manual-Outcome_example =
    run_manual-Outcome organizer request (move 11 22) db moved_result run_ok

moved_on : moved_result.draft_revision ≢ request.expected_revision
unfolding move_assignment swap_assignments change_assignments change_assignments_body resolve
    remove_assignments remove_body remove_matching remove_none in_tenant get_session_for_update
    advance_or_conflict list_assignments evaluate_manual_assignments apply_moves put assignment_map
    grade_from replace_draft_assignments assignment_inputs write_input write_overrides
    violations_for_student record_audit
moved_on e = cc

run_manual-exclusive_example :
    run_manual organizer request (exchange 11 12) (run_manual organizer request (move 11 22) db).1
    ≡ (err draft_revision_conflict, (run_manual organizer request (move 11 22) db).1)
run_manual-exclusive_example =
    run_manual-exclusive organizer organizer request request (move 11 22) (exchange 11 12) db
      moved_result run_ok moved_on refl organizer-valid refl
