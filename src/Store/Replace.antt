-- ===== src/Store/Replace.antt =====
-- `ReplaceDraftAssignments` of backend/internal/data/assignment.go with its three statements, on the
-- table of assignments in the order of the students.
use miniclass.Base.{
  suc, ◌==◌, Bool, not, ◌&&◌, List, [], ◌∷◌, Option, none, some, any, keep, contains, if◌then◌else◌,
  Xid, map,
}
use miniclass.Base.Keyed.{get, put}
use miniclass.Store.Rows.{absent, Assignment, CreateAssignmentInput, Db}
use miniclass.Store.Tx.{constraint_violated, ok, err, Tx, pure, ◌>>=◌, ◌>>◌}

abbrev pub student : Assignment → Xid
student row = row.student_id

abbrev pub assignment_of : Xid → List Assignment → Option Assignment
assignment_of = get student

abbrev pub ids_of : List Assignment → List Xid
ids_of rows = map (λ row. row.id) rows

-- Overrides go with their assignment: `on delete cascade`.
unfoldable pub delete_where : (Assignment → Bool) → Db → Db
delete_where p db = record db {
  assignments = keep (λ row. not (p row)) db.assignments;
  overrides =
      keep (λ o. not (any (λ row. p row && row.id == o.assignment_id) db.assignments)) db.overrides;
}

-- `DeleteChangedDraftAssignment`
abbrev pub changed : CreateAssignmentInput → Assignment → Bool
changed input row =
    (row.student_id == input.student_id) && not (row.offering_id == input.offering_id)

-- The row keeps its identity on conflict, and takes a new one otherwise.
abbrev pub row_with_id : Xid → CreateAssignmentInput → Assignment
row_with_id id input = record {
  id = id;
  student_id = input.student_id;
  offering_id = input.offering_id;
  solve_run_id = input.solve_run_id;
  origin = input.origin;
  pinned = input.pinned;
  realized_quality = input.realized_quality;
}

-- The trigger `assignments_non_participant_guard` and the foreign key on the offering.
unfoldable pub admits : Db → CreateAssignmentInput → Bool
admits db input =
    not (contains input.student_id (absent db)) && any (λ o. o.id == input.offering_id) db.offerings

-- `UpsertAssignment`
unfoldable pub upsert_row : Db → CreateAssignmentInput → Assignment × Db
upsert_row db input = elim (assignment_of input.student_id db.assignments) [
  | some old ↦ (
    row_with_id old.id input,
    record db { assignments = put student (row_with_id old.id input) db.assignments },
  )
  | none ↦ (
    row_with_id db.next_id input,
    record db {
      assignments = put student (row_with_id db.next_id input) db.assignments;
      next_id = suc db.next_id;
    },
  )
]

-- The body of the loop: delete the student's other placement, then upsert.
unfoldable pub write_input : CreateAssignmentInput → Tx Assignment
unfolding delete_where admits upsert_row
write_input input s =
    let db = delete_where (changed input) s.db in
    let (row, db') = upsert_row db input in
    if admits db input then ok (row, record s { db = db' }) else err constraint_violated

unfoldable pub write_inputs : List CreateAssignmentInput → Tx (List Assignment)
write_inputs [] = pure []
write_inputs (input ∷ inputs) = do
  row ← write_input input
  rows ← write_inputs inputs
  pure (row ∷ rows)

-- `DeleteReplacedDraftAssignments`
unfoldable pub delete_replaced : List Xid → Tx (Unit {0})
unfolding delete_where
delete_replaced kept s =
    ok (tt, record s { db = delete_where (λ row. not (contains row.student_id kept)) s.db })

unfoldable pub replace_draft_assignments : List CreateAssignmentInput → Tx (List Assignment)
unfolding write_inputs delete_replaced
replace_draft_assignments inputs = do
  rows ← write_inputs inputs
  delete_replaced (map (λ i. i.student_id) inputs)
  pure rows
