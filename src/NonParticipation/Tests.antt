-- ===== src/NonParticipation/Tests.antt =====
-- Absences in the sample session.
use miniclass.Base.{◌≡◌, ◌↔◌, refl, false, List, [], ◌∷◌, some}
use miniclass.Base.Text.{codes}
use miniclass.Session.{SessionState}
use miniclass.Store.Rows.{Db, ProgramMembership}
use miniclass.Store.Tx.{
  ok, err, constraint_violated, not_program_member, no_changes, student_not_participating,
  in_tenant, in_tenant_read,
}
use miniclass.Samples.{db_in, organizer, request}
use miniclass.Assignment.Rules.{evaluate_move}
use miniclass.Assignment.Revision.{move}
use miniclass.NonParticipation.{
  create_session_absence, update_session_absence, list_participating_memberships, participating,
}
use miniclass.NonParticipation.Invariant.{NobodyAbsentPlaced}
use miniclass.NonParticipation.History.{
  Edit, manual, create, delete, run_edits, run_edits-NobodyAbsentPlaced,
}
use miniclass.NonParticipation.Projection.{is_listed, list_participating_memberships-evaluate_move}

abbrev db : Db
db = db_in SessionState.assigning

placed_student : (create_session_absence organizer 11 (codes "ill") db).0 ≡ err constraint_violated
unfolding create_session_absence in_tenant
placed_student = refl

stranger : (create_session_absence organizer 19 (codes "ill") db).0 ≡ err not_program_member
unfolding create_session_absence in_tenant
stranger = refl

same_reason : (update_session_absence organizer 41 (some (codes " a ")) db).0 ≡ err no_changes
unfolding update_session_absence in_tenant
same_reason = refl

db-NobodyAbsentPlaced : NobodyAbsentPlaced db
db-NobodyAbsentPlaced = (refl, (refl, tt))

abbrev history : List Edit
history =
    create organizer 13 (codes "away")
    ∷ manual organizer request (move 13 22)
    ∷ delete organizer 41
    ∷ manual organizer request (move 14 22)
    ∷ []

run_edits-NobodyAbsentPlaced_example : NobodyAbsentPlaced (run_edits history db)
run_edits-NobodyAbsentPlaced_example = run_edits-NobodyAbsentPlaced history db db-NobodyAbsentPlaced

abbrev members : List ProgramMembership
members = participating db.non_participations db.memberships

members_listed : list_participating_memberships db ≡ ok members
unfolding list_participating_memberships in_tenant_read
members_listed = refl

list_participating_memberships-evaluate_move_example :
    (evaluate_move db [] (14, 22) ≡ err student_not_participating) ↔ (is_listed 14 members ≡ false)
list_participating_memberships-evaluate_move_example =
    list_participating_memberships-evaluate_move db [] 14 22 members members_listed
