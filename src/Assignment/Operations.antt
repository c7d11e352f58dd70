-- ===== src/Assignment/Operations.antt =====
-- `MoveAssignment`, `SwapAssignments`, `RemoveAssignment`, `RemoveUnpinnedAssignments` and
-- `SetAssignmentPin` of backend/internal/program/assignment_operations.go.
use miniclass.Base.{
  ℕ, suc, ◌==◌, Bool, true, false, not, ◌||◌, List, [], ◌∷◌, Option, none, some, keep, any,
  if◌then◌else◌, Xid,
}
use miniclass.Base.Int.{ℤ}
use miniclass.Base.Keyed.{put}
use miniclass.Base.Text.{Text, trim_space}
use miniclass.Session.{Session}
use miniclass.Store.Rows.{Assignment, Rule, unset, manual, Actor, Entry, manual_operation, Db}
use miniclass.Store.Tx.{
  hard_rule_violation, draft_revision_conflict, students_must_differ, both_students_assigned,
  assignment_not_found, Result, ok, err, Tx, pure, ◌>>=◌, ◌>>◌, guard, get_db, found, lift,
  record_audit, no_audit_required, in_tenant,
}
use miniclass.Store.Queries.{
  get_session_for_update, advance_or_conflict, list_assignments, update_assignment_pin,
  delete_assignment_overrides, create_assignment_override,
}
use miniclass.Store.Replace.{student, assignment_of, replace_draft_assignments}
use miniclass.Assignment.Inputs.{assignment_map, assignment_inputs}
use miniclass.Assignment.Rules.{
  Move, Violation, evaluate_manual_assignments, violations_for_student,
}

pub record AssignmentOperationInput : Type 0 where
  pub session_id : Xid
  pub expected_revision : ℕ
  pub confirm_violations : Bool
  pub reason : Text

pub record AssignmentOperationResult : Type 0 where
  pub assignments : List Assignment
  pub draft_revision : ℕ

-- A manual placement forgets the run and the quality of the row that it changes.
abbrev pub place_row : Option Assignment → Move → Assignment
place_row (some row) (student_id, offering) = record row {
  offering_id = offering;
  pinned = true;
  origin = manual;
  solve_run_id = none;
  realized_quality = unset;
}
place_row none (student_id, offering) = record {
  id = 0;
  student_id = student_id;
  offering_id = offering;
  solve_run_id = none;
  origin = manual;
  pinned = true;
  realized_quality = unset;
}

unfoldable pub apply_moves : List Move → List Assignment → List Assignment
apply_moves [] final = final
apply_moves ((s, o) ∷ moves) final =
    apply_moves moves (put student (place_row (assignment_of s final) (s, o)) final)

-- The requested change: placements, or two students to exchange.
pub data Change : Type 0 where
  moves : List Move → Change
  swap : Xid → Xid → Change

abbrev pub swapped : Xid → Xid → Option Assignment → Option Assignment → Result (List Move)
swapped a b (some first) (some second) = ok ((a, second.offering_id) ∷ (b, first.offering_id) ∷ [])
swapped a b _ none = err both_students_assigned
swapped a b none _ = err both_students_assigned

unfoldable pub resolve : Change → List Assignment → Result (List Move)
resolve (moves l) rows = ok l
resolve (swap a b) rows =
    let by_student = assignment_map rows in
    swapped a b (assignment_of a by_student) (assignment_of b by_student)

abbrev pub is_moved : List Move → Assignment → Bool
is_moved l row = any (λ mv. mv.0 == row.student_id) l

abbrev pub no_violation : List Violation → Bool
no_violation [] = true
no_violation (_ ∷ _) = false

-- The rank bound of the program, or the session's own.
abbrev pub effective_high_rank_max : Db → ℤ
effective_high_rank_max db = elim db.rank_high_max_override [ none ↦ db.rank_high_max | some r ↦ r ]

unfoldable pub write_rules : Xid → Text → List Rule → Tx (Unit {0})
write_rules assignment_id reason [] = pure tt
write_rules assignment_id reason (rule ∷ rules) = do
  s ← (λ s. ok (s, s))
  create_assignment_override assignment_id rule reason s.actor.label
  write_rules assignment_id reason rules

unfoldable pub write_overrides : List Move → List Violation → Text → List Assignment → Tx (Unit {0})
unfolding write_rules
write_overrides l violations reason [] = pure tt
write_overrides l violations reason (row ∷ rows) = do
  write_rules row.id reason
      (if is_moved l row then violations_for_student violations row.student_id else [])
  write_overrides l violations reason rows

abbrev pub manual_entry : Option Xid → Text → Entry
manual_entry object_id reason = record {
  action = manual_operation;
  object_id = object_id;
  reason = trim_space reason;
}

unfoldable pub change_assignments_body :
    AssignmentOperationInput → Change → Tx AssignmentOperationResult
unfolding resolve write_overrides
change_assignments_body input change = do
  revision ← advance_or_conflict input.expected_revision
  rows ← list_assignments
  l ← lift (resolve change rows)
  let final = apply_moves l (assignment_map rows)
  db ← get_db
  violations ← lift (evaluate_manual_assignments db final l)
  guard (no_violation violations || input.confirm_violations) (hard_rule_violation violations)
  updated ←
      replace_draft_assignments (assignment_inputs final db.answers (effective_high_rank_max db))
  write_overrides l violations input.reason updated
  record_audit (manual_entry none input.reason)
  pure (record { assignments = updated; draft_revision = suc input.expected_revision })

unfoldable pub change_assignments :
    Actor → AssignmentOperationInput → Change → Db → Result AssignmentOperationResult × Db
unfolding change_assignments_body
change_assignments actor input change = in_tenant actor (change_assignments_body input change)

unfoldable pub move_assignment :
    Actor → AssignmentOperationInput → Xid → Xid → Db → Result AssignmentOperationResult × Db
unfolding change_assignments
move_assignment actor input student_id offering_id =
    change_assignments actor input (moves ((student_id, offering_id) ∷ []))

unfoldable pub swap_assignments :
    Actor → AssignmentOperationInput → Xid → Xid → Db → Result AssignmentOperationResult × Db
unfolding change_assignments
swap_assignments actor input first second db =
    if first == second
    then (err students_must_differ, db)
    else change_assignments actor input (swap first second) db

-- The branch of `removeAssignments` that has something to remove.
unfoldable pub remove_matching :
    AssignmentOperationInput → List Assignment → Tx AssignmentOperationResult
remove_matching input kept = do
  revision ← advance_or_conflict input.expected_revision
  db ← get_db
  updated ← replace_draft_assignments (assignment_inputs (assignment_map kept) [] (ℤ.pos 0))
  record_audit (manual_entry (some input.session_id) input.reason)
  pure (record { assignments = updated; draft_revision = revision })

unfoldable pub remove_none : Session → List Assignment → Tx AssignmentOperationResult
remove_none session rows = do
  no_audit_required
  pure (record { assignments = rows; draft_revision = session.draft_revision })

unfoldable pub remove_body :
    AssignmentOperationInput → (Assignment → Bool) → Tx AssignmentOperationResult
unfolding remove_matching remove_none
remove_body input remove = do
  session ← get_session_for_update
  guard (session.draft_revision == input.expected_revision) draft_revision_conflict
  rows ← list_assignments
  if any remove rows
      then remove_matching input (keep (λ row. not (remove row)) rows)
      else remove_none session rows

unfoldable pub remove_assignments :
    Actor
    → AssignmentOperationInput
    → (Assignment → Bool)
    → Db
    → Result AssignmentOperationResult × Db
unfolding remove_body
remove_assignments actor input remove = in_tenant actor (remove_body input remove)

unfoldable pub remove_assignment :
    Actor → AssignmentOperationInput → Xid → Db → Result AssignmentOperationResult × Db
unfolding remove_assignments
remove_assignment actor input student_id =
    remove_assignments actor input (λ row. row.student_id == student_id)

unfoldable pub remove_unpinned_assignments :
    Actor → AssignmentOperationInput → Db → Result AssignmentOperationResult × Db
unfolding remove_assignments
remove_unpinned_assignments actor input = remove_assignments actor input (λ row. not row.pinned)

abbrev pub replace_row : Assignment → List Assignment → List Assignment
replace_row updated [] = []
replace_row updated (row ∷ rows) =
    let rest = replace_row updated rows in (if row.id == updated.id then updated else row) ∷ rest

unfoldable pub set_pin_body : AssignmentOperationInput → Xid → Bool → Tx AssignmentOperationResult
set_pin_body input student_id pinned = do
  revision ← advance_or_conflict input.expected_revision
  rows ← list_assignments
  row ← found (assignment_of student_id rows) assignment_not_found
  updated ← update_assignment_pin row pinned
  if pinned then pure tt else delete_assignment_overrides row
  record_audit (manual_entry (some updated.id) input.reason)
  pure (record {
    assignments = replace_row updated rows;
    draft_revision = suc input.expected_revision;
  })

unfoldable pub set_assignment_pin :
    Actor → AssignmentOperationInput → Xid → Bool → Db → Result AssignmentOperationResult × Db
unfolding set_pin_body
set_assignment_pin actor input student_id pinned =
    in_tenant actor (set_pin_body input student_id pinned)
