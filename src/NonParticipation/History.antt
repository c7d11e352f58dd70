-- ===== src/NonParticipation/History.antt =====
-- Any history of the operations on absences and on the draft.
use miniclass.Base.{List, [], ◌∷◌, Option, Xid}
use miniclass.Base.Text.{Text}
use miniclass.Store.Rows.{Actor, Db}
use miniclass.Assignment.Operations.{AssignmentOperationInput}
use miniclass.Assignment.Revision.{ManualOperation, run_manual}
use miniclass.NonParticipation.{
  create_session_absence, update_session_absence, delete_session_absence,
}
use miniclass.NonParticipation.Invariant.{NobodyAbsentPlaced}
use miniclass.NonParticipation.Kept.{
  create_session_absence-NobodyAbsentPlaced, update_session_absence-NobodyAbsentPlaced,
  delete_session_absence-NobodyAbsentPlaced,
}
use miniclass.NonParticipation.Draft.{run_manual-NobodyAbsentPlaced}

-- A request, with the actor who makes it.
pub data Edit : Type 0 where
  manual : Actor → AssignmentOperationInput → ManualOperation → Edit
  create : Actor → Xid → Text → Edit
  update : Actor → Xid → Option Text → Edit
  delete : Actor → Xid → Edit

-- The rows that it leaves, whether it succeeds or not.
pub run_edit : Edit → Db → Db
run_edit (manual actor input op) db = (run_manual actor input op db).1
run_edit (create actor student reason) db = (create_session_absence actor student reason db).1
run_edit (update actor id reason) db = (update_session_absence actor id reason db).1
run_edit (delete actor id) db = (delete_session_absence actor id db).1

pub run_edits : List Edit → Db → Db
run_edits [] db = db
run_edits (edit ∷ edits) db = run_edits edits (run_edit edit db)

run_edit-NobodyAbsentPlaced :
    (edit : Edit) (db : Db) → NobodyAbsentPlaced db → NobodyAbsentPlaced (run_edit edit db)
unfolding run_edit
run_edit-NobodyAbsentPlaced (manual actor input op) db h =
    run_manual-NobodyAbsentPlaced actor input db h op
run_edit-NobodyAbsentPlaced (create actor student reason) db h =
    create_session_absence-NobodyAbsentPlaced actor db h student reason
run_edit-NobodyAbsentPlaced (update actor id reason) db h =
    update_session_absence-NobodyAbsentPlaced actor db h id reason
run_edit-NobodyAbsentPlaced (delete actor id) db h =
    delete_session_absence-NobodyAbsentPlaced actor db h id

-- After any sequence of manual operations and of changes to absences, failed ones included, everybody
-- who is placed takes part, where this held at the start.
pub run_edits-NobodyAbsentPlaced :
    (edits : List Edit) (db : Db) → NobodyAbsentPlaced db → NobodyAbsentPlaced (run_edits edits db)
unfolding run_edits
run_edits-NobodyAbsentPlaced [] db h = h
run_edits-NobodyAbsentPlaced (edit ∷ edits) db h =
    run_edits-NobodyAbsentPlaced edits (run_edit edit db) (run_edit-NobodyAbsentPlaced edit db h)
