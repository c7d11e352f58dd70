-- ===== src/NonParticipation.antt =====
-- Students who do not take part in a session: backend/internal/program/non_participation.go.
pub mod Invariant
pub mod Kept
pub mod Draft
pub mod History
pub mod Projection
pub mod Tests
use miniclass.Base.{
  ℕ, ◌==◌, Bool, true, false, not, ◌||◌, List, [], ◌∷◌, Option, none, some, any, keep, contains,
  map, if◌then◌else◌, Xid,
}
use miniclass.Base.Text.{Text, codes, eq_text, trim_space}
use miniclass.Store.Rows.{
  Actor, Entry, ProgramMembership, SessionNonParticipation, session_non_participation, Db,
}
use miniclass.Store.Tx.{
  not_program_member, no_changes, non_participation_not_found, Error, Result, Tx, pure, throw,
  ◌>>=◌, ◌>>◌, guard, get_db, record_audit, in_tenant, in_tenant_read,
}
use miniclass.Store.Queries.{get_session}
use miniclass.Store.Editing.{
  create_session_non_participation, list_session_non_participations, get_session_non_participation,
  update_session_non_participation, delete_session_non_participation,
}

unfoldable pub ensure_program_member : Xid → Tx (Unit {0})
ensure_program_member student_id = do
  db ← get_db
  guard (any (λ m. m.student_id == student_id) db.memberships) not_program_member

abbrev pub absence_entry : Xid → Text → Entry
absence_entry id reason = record {
  action = session_non_participation;
  object_id = some id;
  reason = reason;
}

unfoldable pub create_body : Xid → Text → Tx SessionNonParticipation
unfolding get_session ensure_program_member create_session_non_participation record_audit
create_body student_id reason = do
  session ← get_session
  ensure_program_member student_id
  created ← create_session_non_participation student_id reason
  record_audit (absence_entry created.id created.reason)
  pure created

unfoldable pub create_session_absence :
    Actor → Xid → Text → Db → Result SessionNonParticipation × Db
unfolding create_body
create_session_absence actor student_id reason = in_tenant actor (create_body student_id reason)

unfoldable pub list_session_absences : Db → Result (List SessionNonParticipation)
unfolding get_session list_session_non_participations
list_session_absences = in_tenant_read do session ← get_session; list_session_non_participations

unfoldable pub get_session_absence : Xid → Db → Result SessionNonParticipation
unfolding get_session_non_participation
get_session_absence id = in_tenant_read (get_session_non_participation id)

-- `input.Reason == nil || strings.TrimSpace(*input.Reason) == current.Reason`
abbrev pub is_unchanged : Option Text → SessionNonParticipation → Bool
is_unchanged none current = true
is_unchanged (some reason) current = eq_text (trim_space reason) current.reason

abbrev pub given_reason : Option Text → Text
given_reason none = []
given_reason (some reason) = reason

unfoldable pub update_body : Xid → Option Text → Tx SessionNonParticipation
unfolding get_session_non_participation update_session_non_participation record_audit
update_body id reason = do
  current ← get_session_non_participation id
  guard (not (is_unchanged reason current)) no_changes
  result ← update_session_non_participation id (given_reason reason)
  record_audit (absence_entry id result.reason)
  pure result

unfoldable pub update_session_absence :
    Actor → Xid → Option Text → Db → Result SessionNonParticipation × Db
unfolding update_body
update_session_absence actor id reason = in_tenant actor (update_body id reason)

abbrev pub removed_reason : Text
removed_reason = codes "organizer removed session non-participation"

unfoldable pub delete_body : Xid → Tx (Unit {0})
unfolding get_session_non_participation delete_session_non_participation record_audit
delete_body id = do
  current ← get_session_non_participation id
  deleted ← delete_session_non_participation id
  guard deleted non_participation_not_found
  record_audit (absence_entry id removed_reason)

unfoldable pub delete_session_absence : Actor → Xid → Db → Result (Unit {0}) × Db
unfolding delete_body
delete_session_absence actor id = in_tenant actor (delete_body id)

-- `excluded` is the set of the students of the rows.
abbrev pub participating :
    List SessionNonParticipation → List ProgramMembership → List ProgramMembership
participating rows memberships =
    keep
      (λ m. not (contains m.student_id (map (λ (n : SessionNonParticipation). n.student_id) rows)))
      memberships

unfoldable pub list_participating_memberships : Db → Result (List ProgramMembership)
unfolding get_session list_session_non_participations
list_participating_memberships = in_tenant_read do
  session ← get_session
  db ← get_db
  rows ← list_session_non_participations
  pure (participating rows db.memberships)
