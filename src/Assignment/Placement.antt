-- ===== src/Assignment/Placement.antt =====
-- Where the students are after a manual operation.
use mathlib.Core.Option
use miniclass.Base.{
  ◌==◌, ◌≡◌, ◌≢◌, refl, ap, ◌∙◌, true, List, [], ◌∷◌, Option, none, some, if◌then◌else◌, Xid, arith,
  All, Bool-cases, inl, inr,
}
use miniclass.Base.Int.{ℤ}
use miniclass.Base.Keyed.{put, get-put, IsSorted}
use miniclass.Store.Rows.{Assignment, CreateAssignmentInput, unset, manual, Db, SessionResultAnswer}
use miniclass.Store.Tx.{TxState}
use miniclass.Store.Replace.{student, assignment_of}
use miniclass.Store.Placements.{content, replace-Replaced}
use miniclass.Store.Audit.{record_audit-eq}
use miniclass.Assignment.Inputs.{assignment_map, assignment_input, realized, expected_quality}
use miniclass.Assignment.Operations.{
  AssignmentOperationInput, AssignmentOperationResult, Change, apply_moves, place_row,
  effective_high_rank_max,
}
use miniclass.Assignment.Runs.{ChangeRun}
use miniclass.Assignment.Frames.{
  write_overrides-SameDraft, map-assignment_of, map-IsSorted, apply_moves-IsSorted,
  written-IsSorted, written-lookup,
}

-- The table holds one row for a student, in the order of the students, and each row a quality: the
-- unique key and the check constraint of the table.
pub record IsDraft (db : Db) : Type 0 where
  pub sorted : IsSorted student db.assignments
  pub recorded : All (λ row. row.realized_quality ≢ unset) db.assignments

-- What is placed where, without the identities of the rows.
abbrev pub placement_of : Db → Xid → Option CreateAssignmentInput
placement_of db k = Option.map content (assignment_of k db.assignments)

ChangeRun-lookup :
    {input : AssignmentOperationInput} {change : Change} {s s' : TxState}
    {result : AssignmentOperationResult} (k : Xid) (run : ChangeRun input change s result s')
    → placement_of s'.db k
      ≡ Option.map
          (assignment_input s.db.answers (effective_high_rank_max s.db))
          (assignment_of k (apply_moves run.l (assignment_map s.db.assignments)))
ChangeRun-lookup {s} k run =
    let final = apply_moves run.l (assignment_map run.advanced.db.assignments) in
    let r = replace-Replaced _ run.advanced run.replaces in
    let sorted =
      written-IsSorted run.advanced.db.answers (effective_high_rank_max run.advanced.db) run.updated
        final r.written (apply_moves-IsSorted run.l _ (map-IsSorted run.advanced.db.assignments)) in
    let same = (record_audit-eq _ run.overridden run.recorded).1 in
    let kept = write_overrides-SameDraft _ _ _ _ run.replaced run.overrides in
    ap (Option.map content) (
      ap (λ u. assignment_of k u.db.assignments) run.ends
      ∙ (ap (assignment_of k) (same ∙ kept.same_assignments) ∙ r.placed k sorted))
    ∙ (written-lookup run.advanced.db.answers (effective_high_rank_max run.advanced.db) run.updated
          final r.written k
        ∙ ap
            (λ u.
              Option.map (assignment_input u.db.answers (effective_high_rank_max u.db))
                (assignment_of k (apply_moves run.l (assignment_map u.db.assignments))))
            run.advances)

-- A row with a quality keeps it.
input-content :
    (answers : List SessionResultAnswer) (bound : ℤ) (row : Assignment)
    → row.realized_quality ≢ unset
    → assignment_input answers bound row ≡ content row
unfolding assignment_input realized
input-content answers bound row h = ground arith

pub recorded-lookup :
    (answers : List SessionResultAnswer) (bound : ℤ) (k : Xid) (rows : List Assignment)
    → All (λ row. row.realized_quality ≢ unset) rows
    → Option.map (assignment_input answers bound) (assignment_of k rows)
      ≡ Option.map content (assignment_of k rows)
recorded-lookup answers bound k [] h = refl
recorded-lookup answers bound k (row ∷ rows) h = elim (Bool-cases (row.student_id == k)) [
  | inl e ↦ rw e (ap some (input-content answers bound row h.0))
  | inr e ↦ rw e (recorded-lookup answers bound k rows h.1)
]

pub lookup-student :
    (k : Xid) (rows : List Assignment) (row : Assignment)
    → assignment_of k rows ≡ some row
    → row.student_id ≡ k
lookup-student k [] row h = cc
lookup-student k (r ∷ rows) row h = ground (arith, lookup-student k rows row)

-- What a manual placement writes.
abbrev pub manual_input : Db → Xid → Xid → CreateAssignmentInput
manual_input db student_id offering_id = record {
  student_id = student_id;
  offering_id = offering_id;
  solve_run_id = none;
  origin = manual;
  pinned = true;
  realized_quality =
      expected_quality db.answers (effective_high_rank_max db) student_id offering_id;
}

abbrev input_at : Db → Assignment → CreateAssignmentInput
input_at db = assignment_input db.answers (effective_high_rank_max db)

placed_input :
    (db : Db) (k o : Xid) (found : Option Assignment)
    → ((row : Assignment) → found ≡ some row → row.student_id ≡ k)
    → input_at db (place_row found (k, o)) ≡ manual_input db k o
unfolding assignment_input realized
placed_input db k o none h = refl
placed_input db k o (some row) h = rw (h row refl) refl

placed_student :
    (k o : Xid) (found : Option Assignment)
    → ((row : Assignment) → found ≡ some row → row.student_id ≡ k)
    → (place_row found (k, o)).student_id ≡ k
placed_student k o none h = refl
placed_student k o (some row) h = h row refl

-- One placement in a map of rows.
step-lookup :
    (db : Db) (rows : List Assignment) (x o k : Xid)
    → Option.map
        (input_at db)
        (assignment_of k (put student (place_row (assignment_of x rows) (x, o)) rows))
      ≡ (if x == k
          then some (manual_input db x o)
          else Option.map (input_at db) (assignment_of k rows))
step-lookup db rows x o k =
    let row = place_row (assignment_of x rows) (x, o) in
    let of_x = placed_student x o (assignment_of x rows) (lookup-student x rows) in
    let at_x = placed_input db x o (assignment_of x rows) (lookup-student x rows) in
    ap (Option.map (input_at db)) (get-put student k row rows)
    ∙ elim (Bool-cases (x == k)) [ inl e ↦ rw (of_x, e) (ap some at_x) | inr e ↦ rw (of_x, e) ]

-- Before any move, the map of the draft holds the draft.
start-lookup :
    (db : Db) (d : IsDraft db) (k : Xid)
    → Option.map (input_at db) (assignment_of k (assignment_map db.assignments)) ≡ placement_of db k
start-lookup db d k =
    ap (Option.map (input_at db)) (map-assignment_of k db.assignments d.sorted)
    ∙ recorded-lookup db.answers (effective_high_rank_max db) k db.assignments d.recorded

-- Where a student is after one placement, and after two.
unfoldable pub placed :
    Db → Xid → Xid → (Xid → Option CreateAssignmentInput) → Xid → Option CreateAssignmentInput
placed db x o before k = if x == k then some (manual_input db x o) else before k

module _ {s s' : TxState} {input : AssignmentOperationInput} {change : Change}
    {result : AssignmentOperationResult} (d : IsDraft s.db)
    (run : ChangeRun input change s result s') where
  pub single-lookup :
      (x o k : Xid)
      → run.l ≡ (x, o) ∷ []
      → placement_of s'.db k ≡ placed s.db x o (placement_of s.db) k
  unfolding apply_moves placed
  single-lookup x o k e =
      ChangeRun-lookup k run
      ∙ rw e (
          step-lookup s.db (assignment_map s.db.assignments) x o k
          ∙ ap (λ old. if x == k then some (manual_input s.db x o) else old)
              (start-lookup s.db d k))

  pub double-lookup :
      (x o y p k : Xid)
      → run.l ≡ (x, o) ∷ (y, p) ∷ []
      → placement_of s'.db k ≡ placed s.db y p (placed s.db x o (placement_of s.db)) k
  unfolding apply_moves placed
  double-lookup x o y p k e =
      ChangeRun-lookup k run
      ∙ rw e (
          step-lookup s.db _ y p k
          ∙ ap (λ old. if y == k then some (manual_input s.db y p) else old)
              (step-lookup s.db (assignment_map s.db.assignments) x o k
                ∙ ap (λ old. if x == k then some (manual_input s.db x o) else old)
                    (start-lookup s.db d k)))
