-- ===== src/Exclusion.antt =====
-- `AddAssignmentExclusion` and `RemoveAssignmentExclusion` of
-- backend/internal/program/assignment_exclusions.go.
pub mod Runs
pub mod Effects
pub mod Undo
pub mod Tests
use miniclass.Base.{
  ℕ, suc, ◌==◌, Bool, true, false, not, ◌&&◌, List, [], ◌∷◌, ◌++◌, Option, none, some, any, keep,
  find_first, if◌then◌else◌, Xid,
}
use miniclass.Base.Text.{trim_space}
use miniclass.Store.Rows.{
  Actor, Assignment, AssignmentExclusion, Entry, exclusion, exclusion_change, Db,
}
use miniclass.Store.Tx.{
  not_program_member, offering_not_found, Result, Tx, pure, ◌>>=◌, ◌>>◌, guard, get_db,
  record_audit, no_audit_required, in_tenant,
}
use miniclass.Store.Queries.{get_session, advance_or_conflict, list_assignments}
use miniclass.Store.Editing.{
  excludes, list_assignment_exclusions, create_assignment_exclusion, delete_assignment_exclusion,
  delete_assignment_override_rule,
}
use miniclass.Assignment.Operations.{AssignmentOperationInput}

pub record AssignmentExclusionResult : Type 0 where
  pub exclusions : List AssignmentExclusion
  pub conflicting_assignments : List Assignment
  pub draft_revision : ℕ

abbrev pub conflicts_with : Xid → Xid → Assignment → Bool
conflicts_with student_id offering_id a =
    (a.student_id == student_id) && (a.offering_id == offering_id)

unfoldable pub assignment_exclusion_result :
    List AssignmentExclusion → ℕ → Xid → Xid → Tx AssignmentExclusionResult
unfolding list_assignments
assignment_exclusion_result exclusions revision student_id offering_id = do
  assignments ← list_assignments
  pure (record {
    exclusions = exclusions;
    conflicting_assignments = keep (conflicts_with student_id offering_id) assignments;
    draft_revision = revision;
  })

unfoldable pub validate_assignment_exclusion_scope : Xid → Xid → Tx (Unit {0})
validate_assignment_exclusion_scope student_id offering_id = do
  db ← get_db
  guard (any (λ m. m.student_id == student_id) db.memberships) not_program_member
  guard (any (λ o. o.id == offering_id) db.offerings) offering_not_found

abbrev pub exclusion_entry : AssignmentExclusion → AssignmentOperationInput → Entry
exclusion_entry e input = record {
  action = exclusion_change;
  object_id = some e.id;
  reason = trim_space input.reason;
}

-- The branch that has an exclusion to add.
unfoldable pub add_new :
    AssignmentOperationInput → Xid → Xid → List AssignmentExclusion → Tx AssignmentExclusionResult
unfolding validate_assignment_exclusion_scope create_assignment_exclusion
    assignment_exclusion_result advance_or_conflict record_audit
add_new input student_id offering_id exclusions = do
  revision ← advance_or_conflict input.expected_revision
  validate_assignment_exclusion_scope student_id offering_id
  created ← create_assignment_exclusion student_id offering_id
  result ←
      assignment_exclusion_result (exclusions ++ created ∷ []) (suc input.expected_revision)
        student_id offering_id
  record_audit (exclusion_entry created input)
  pure result

abbrev pub add_unless :
    AssignmentOperationInput
    → Xid
    → Xid
    → ℕ
    → List AssignmentExclusion
    → Option AssignmentExclusion
    → Tx AssignmentExclusionResult
add_unless input student_id offering_id revision exclusions none =
    add_new input student_id offering_id exclusions
add_unless input student_id offering_id revision exclusions (some _) = do
  no_audit_required
  assignment_exclusion_result exclusions revision student_id offering_id

-- `changeAssignmentExclusion` with `add`.
unfoldable pub add_body : AssignmentOperationInput → Xid → Xid → Tx AssignmentExclusionResult
unfolding add_new get_session list_assignment_exclusions no_audit_required
add_body input student_id offering_id = do
  session ← get_session
  exclusions ← list_assignment_exclusions
  add_unless input student_id offering_id session.draft_revision exclusions
      (find_first (excludes student_id offering_id) exclusions)

-- The loop over the placements that the exclusion forbade.
unfoldable pub delete_exclusion_overrides : AssignmentExclusion → List Assignment → Tx (Unit {0})
unfolding delete_assignment_override_rule
delete_exclusion_overrides target [] = pure tt
delete_exclusion_overrides target (a ∷ rows) = do
  if conflicts_with target.student_id target.offering_id a
      then delete_assignment_override_rule a exclusion
      else pure tt
  delete_exclusion_overrides target rows

-- The branch that has an exclusion to remove.
unfoldable pub remove_found :
    AssignmentOperationInput
    → AssignmentExclusion
    → List AssignmentExclusion
    → Tx AssignmentExclusionResult
unfolding delete_assignment_exclusion delete_exclusion_overrides advance_or_conflict
    list_assignments record_audit
remove_found input target exclusions = do
  revision ← advance_or_conflict input.expected_revision
  deleted ← delete_assignment_exclusion target
  assignments ← list_assignments
  delete_exclusion_overrides target assignments
  record_audit (exclusion_entry target input)
  pure (record {
    exclusions = keep (λ e. not (e.id == target.id)) exclusions;
    conflicting_assignments = [];
    draft_revision = suc input.expected_revision;
  })

-- An absent exclusion asks for the conflicts of no one.
abbrev pub remove_if :
    AssignmentOperationInput
    → ℕ
    → List AssignmentExclusion
    → Option AssignmentExclusion
    → Tx AssignmentExclusionResult
remove_if input revision exclusions (some target) = remove_found input target exclusions
remove_if input revision exclusions none = do
  no_audit_required
  assignment_exclusion_result exclusions revision 0 0

-- `changeAssignmentExclusion` without `add`.
unfoldable pub remove_body : AssignmentOperationInput → Xid → Tx AssignmentExclusionResult
unfolding remove_found get_session list_assignment_exclusions no_audit_required
remove_body input exclusion_id = do
  session ← get_session
  exclusions ← list_assignment_exclusions
  remove_if input session.draft_revision exclusions
      (find_first (λ e. e.id == exclusion_id) exclusions)

unfoldable pub add_assignment_exclusion :
    Actor → AssignmentOperationInput → Xid → Xid → Db → Result AssignmentExclusionResult × Db
unfolding add_body
add_assignment_exclusion actor input student_id offering_id =
    in_tenant actor (add_body input student_id offering_id)

unfoldable pub remove_assignment_exclusion :
    Actor → AssignmentOperationInput → Xid → Db → Result AssignmentExclusionResult × Db
unfolding remove_body
remove_assignment_exclusion actor input exclusion_id =
    in_tenant actor (remove_body input exclusion_id)
