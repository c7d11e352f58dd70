-- ===== src/Store/Placements.antt =====
-- What `ReplaceDraftAssignments` (backend/internal/data/assignment.go) leaves in the table.
use miniclass.Base.{
  ◌==◌, ◌≡◌, refl, ◌∙◌, false, not, List, [], ◌∷◌, Option, none, some, is_some, keep, contains,
  if◌then◌else◌, Xid, map, arith, Bool-cases, inl, inr,
}
use miniclass.Base.Keyed.{
  put, get-put, get-keep_other, get-keep-key, IsSorted, put-IsSorted, keep-IsSorted,
}
use miniclass.Store.Rows.{absent, Assignment, CreateAssignmentInput}
use miniclass.Store.Tx.{ok, TxState}
use miniclass.Store.Steps.{bind_rule, pure_inj}
use miniclass.Store.Replace.{
  student, assignment_of, changed, delete_where, write_input, write_inputs, delete_replaced,
  replace_draft_assignments,
}

-- A row without its identity.
abbrev pub content : Assignment → CreateAssignmentInput
content row = record {
  student_id = row.student_id;
  offering_id = row.offering_id;
  solve_run_id = row.solve_run_id;
  origin = row.origin;
  pinned = row.pinned;
  realized_quality = row.realized_quality;
}

-- One turn of the loop writes the input, in place of what the student had.
pub record Wrote (input : CreateAssignmentInput) (s : TxState) (row : Assignment) (s' : TxState)
    : Type 0 where
  pub written : content row ≡ input
  pub table :
      s'.db.assignments ≡ put student row (keep (λ a. not (changed input a)) s.db.assignments)
  pub same_session : s'.db.session ≡ s.db.session
  pub same_log : s'.db.audit_log ≡ s.db.audit_log
  pub same_actor : s'.actor ≡ s.actor
  pub same_runs : s'.db.solve_runs ≡ s.db.solve_runs
  pub admitted : contains input.student_id (absent s.db) ≡ false
  pub same_absent : s'.db.non_participations ≡ s.db.non_participations

pub write_input-Wrote :
    (input : CreateAssignmentInput) (s : TxState) {row : Assignment} {s' : TxState}
    → write_input input s ≡ ok (row, s')
    → Wrote input s row s'
unfolding write_input
write_input-Wrote input s h = ground arith

-- A placement of `k` is unchanged by the deletion of a changed placement of someone else.
Wrote-assignment_of :
    (input : CreateAssignmentInput) (s s' : TxState) (row : Assignment) (k : Xid)
    → Wrote input s row s'
    → assignment_of k s'.db.assignments
      ≡ (if row.student_id == k then some row else assignment_of k s.db.assignments)
Wrote-assignment_of input s s' row k w =
    rw (w.table, get-put student k row (keep (λ a. not (changed input a)) s.db.assignments))
      (elim (Bool-cases (row.student_id == k)) [
        | inl e ↦ rw e
        | inr ne ↦ rw ne (
            get-keep_other student k (λ a. not (changed input a)) s.db.assignments
              (λ a e. ground (arith, w.written)))
      ])

-- The loop over the inputs.
pub record WroteAll (inputs : List CreateAssignmentInput) (s : TxState) (rows : List Assignment)
    (s' : TxState) : Type 0 where
  pub written : map content rows ≡ inputs
  pub same_session : s'.db.session ≡ s.db.session
  pub same_log : s'.db.audit_log ≡ s.db.audit_log
  pub same_actor : s'.actor ≡ s.actor
  pub same_runs : s'.db.solve_runs ≡ s.db.solve_runs
  pub sorted : IsSorted student s.db.assignments → IsSorted student s'.db.assignments
  pub placed :
      (k : Xid)
      → IsSorted student rows
      → assignment_of k s'.db.assignments ≡ elim (assignment_of k rows) [
        | some row ↦ some row
        | none ↦ assignment_of k s.db.assignments
      ]

pub get-above_none :
    (k : Xid) (rows : List Assignment) (row : Assignment)
    → IsSorted student (row ∷ rows)
    → row.student_id ≡ k
    → assignment_of k rows ≡ none
get-above_none k [] row h e = refl
get-above_none k (r ∷ rows) row h e = ground (arith, get-above_none k rows row (h.0.1, h.1.1) e)

pub write_inputs-WroteAll :
    (inputs : List CreateAssignmentInput) (s : TxState) {rows : List Assignment} {s' : TxState}
    → write_inputs inputs s ≡ ok (rows, s')
    → WroteAll inputs s rows s'
unfolding write_inputs
write_inputs-WroteAll [] s h =
    let (none_written, same) = pure_inj h in
    rw (none_written, same)
      (record {
        written = refl;
        same_session = refl;
        same_log = refl;
        same_actor = refl;
        same_runs = refl;
        sorted = λ x. x;
        placed = λ k x. refl;
      })
write_inputs-WroteAll (input ∷ inputs) s h = bind_rule (write_input input s) _ h λ row s1 e1 k1.
    bind_rule (write_inputs inputs s1) _ k1 λ rest s2 e2 k2.
      let w = write_input-Wrote input s e1 in
      let ws = write_inputs-WroteAll inputs s1 e2 in
      let (cons, same) = pure_inj k2 in
      rw (cons, same)
        (record {
          written = ground (arith, w.written, ws.written);
          same_session = ws.same_session ∙ w.same_session;
          same_log = ws.same_log ∙ w.same_log;
          same_actor = ws.same_actor ∙ w.same_actor;
          same_runs = ws.same_runs ∙ w.same_runs;
          sorted = λ x. ws.sorted (
              rw w.table (
                put-IsSorted student row (keep (λ a. not (changed input a)) s.db.assignments)
                  (keep-IsSorted student (λ a. not (changed input a)) s.db.assignments x)));
          placed = λ k x. ground (
            arith,
            ws.placed k x.1,
            Wrote-assignment_of input s s1 row k w,
            get-above_none k rest row x,
          );
        })

contains-students :
    (k : Xid) (rows : List Assignment)
    → contains k (map (λ i. i.student_id) (map content rows)) ≡ is_some (assignment_of k rows)
contains-students k [] = refl
contains-students k (row ∷ rows) = ground (arith, contains-students k rows)

-- The whole replacement: the table holds the written rows and nothing else.
pub record Replaced (inputs : List CreateAssignmentInput) (s : TxState) (rows : List Assignment)
    (s' : TxState) : Type 0 where
  pub written : map content rows ≡ inputs
  pub same_session : s'.db.session ≡ s.db.session
  pub same_log : s'.db.audit_log ≡ s.db.audit_log
  pub same_actor : s'.actor ≡ s.actor
  pub same_runs : s'.db.solve_runs ≡ s.db.solve_runs
  pub sorted : IsSorted student s.db.assignments → IsSorted student s'.db.assignments
  pub placed :
      (k : Xid) → IsSorted student rows → assignment_of k s'.db.assignments ≡ assignment_of k rows

Replaced-placed :
    (k : Xid) (before rows : List Assignment) (mid : Option Assignment)
    → mid ≡ elim (assignment_of k rows) [ some row ↦ some row | none ↦ assignment_of k before ]
    → (if not (not (is_some (assignment_of k rows))) then mid else none) ≡ assignment_of k rows
Replaced-placed k before rows mid e = ground arith

pub replace-Replaced :
    (inputs : List CreateAssignmentInput) (s : TxState) {rows : List Assignment} {s' : TxState}
    → replace_draft_assignments inputs s ≡ ok (rows, s')
    → Replaced inputs s rows s'
unfolding replace_draft_assignments delete_replaced delete_where
replace-Replaced inputs s {rows} {s'} h = bind_rule (write_inputs inputs s) _ h λ written s1 e1 k1.
    let ids = map (λ (i : CreateAssignmentInput). i.student_id) inputs in
    let w = write_inputs-WroteAll inputs s e1 in
    let (same, at) = pure_inj k1 in
    rw (same, at)
      (record {
        written = w.written;
        same_session = w.same_session;
        same_log = w.same_log;
        same_actor = w.same_actor;
        same_runs = w.same_runs;
        sorted = λ x.
            keep-IsSorted student (λ a. not (not (contains (student a) ids))) s1.db.assignments
              (w.sorted x);
        placed = λ k x.
            get-keep-key student k (λ a. not (not (contains a ids))) s1.db.assignments
            ∙ rw (← w.written, contains-students k written)
                (Replaced-placed k s.db.assignments written (assignment_of k s1.db.assignments)
                  (w.placed k x));
      })
