-- ===== src/Store/Editing.antt =====
-- The queries on exclusions and absences: backend/internal/data/assignment_editing.go,
-- backend/internal/data/session_non_participation.go, and the constraints and triggers of
-- backend/migrations/20261006100000_assignment_editing_state.sql and
-- backend/migrations/20260831150100_session_non_participations.sql on one session.
use miniclass.Base.{
  suc, ◌==◌, ltb, Bool, true, false, not, ◌&&◌, ◌||◌, List, [], ◌∷◌, none, some, any, contains,
  find_first, keep, if◌then◌else◌, Xid,
}
use miniclass.Base.Sort.{insert_sorted}
use miniclass.Base.Text.{Text, is_blank, trim_space}
use miniclass.Store.Rows.{
  absent, Assignment, AssignmentExclusion, SessionNonParticipation, Rule, capacity, grade_window,
  exclusion, Db,
}
use miniclass.Store.Tx.{constraint_violated, no_rows, reason_required, ok, err, Tx, found}

-- `order by student_id, offering_id`
abbrev pub exclusion_less : AssignmentExclusion → AssignmentExclusion → Bool
exclusion_less a b =
    ltb a.student_id b.student_id
    || ((a.student_id == b.student_id) && ltb a.offering_id b.offering_id)

abbrev pub excludes : Xid → Xid → AssignmentExclusion → Bool
excludes student_id offering_id e = (e.student_id == student_id) && (e.offering_id == offering_id)

unfoldable pub list_assignment_exclusions : Tx (List AssignmentExclusion)
list_assignment_exclusions s = ok (s.db.exclusions, s)

-- `assignment_exclusions_student_offering_unique`; the identifier is a fresh one.
unfoldable pub create_assignment_exclusion : Xid → Xid → Tx AssignmentExclusion
unfolding insert_sorted
create_assignment_exclusion student_id offering_id s =
    let row : AssignmentExclusion = record {
      id = s.db.next_id;
      student_id = student_id;
      offering_id = offering_id;
    } in
    if any (excludes student_id offering_id) s.db.exclusions
    then err constraint_violated
    else ok (
      row,
      record s {
        db = record (s.db) {
          exclusions = insert_sorted exclusion_less row s.db.exclusions;
          next_id = suc s.db.next_id;
        };
      },
    )

unfoldable pub delete_assignment_exclusion : AssignmentExclusion → Tx Bool
delete_assignment_exclusion e s = ok (
  any (λ row. row.id == e.id) s.db.exclusions,
  record s {
    db = record (s.db) { exclusions = keep (λ row. not (row.id == e.id)) s.db.exclusions };
  },
)

abbrev pub same_rule : Rule → Rule → Bool
same_rule capacity capacity = true
same_rule grade_window grade_window = true
same_rule exclusion exclusion = true
same_rule _ _ = false

unfoldable pub delete_assignment_override_rule : Assignment → Rule → Tx (Unit {0})
delete_assignment_override_rule row rule s = ok (
  tt,
  record s {
    db = record (s.db) {
      overrides =
          keep (λ o. not ((o.assignment_id == row.id) && same_rule o.rule rule)) s.db.overrides;
    };
  },
)

-- `order by student_id, id`
abbrev pub absence_less : SessionNonParticipation → SessionNonParticipation → Bool
absence_less a b =
    ltb a.student_id b.student_id || ((a.student_id == b.student_id) && ltb a.id b.id)

-- `session_non_participations_student_unique`, and the trigger that refuses an assigned student.
abbrev pub refuses_absence : Db → Xid → Bool
refuses_absence db student_id =
    contains student_id (absent db) || any (λ a. a.student_id == student_id) db.assignments

unfoldable pub create_session_non_participation : Xid → Text → Tx SessionNonParticipation
unfolding is_blank trim_space insert_sorted
create_session_non_participation student_id reason s =
    let row : SessionNonParticipation = record {
      id = s.db.next_id;
      student_id = student_id;
      reason = trim_space reason;
    } in
    if is_blank (trim_space reason)
    then err reason_required
    else if refuses_absence s.db student_id
    then err constraint_violated
    else ok (
      row,
      record s {
        db = record (s.db) {
          non_participations = insert_sorted absence_less row s.db.non_participations;
          next_id = suc s.db.next_id;
        };
      },
    )

unfoldable pub list_session_non_participations : Tx (List SessionNonParticipation)
list_session_non_participations s = ok (s.db.non_participations, s)

unfoldable pub get_session_non_participation : Xid → Tx SessionNonParticipation
get_session_non_participation id s =
    found (find_first (λ n. n.id == id) s.db.non_participations) no_rows s

abbrev pub set_reason : Xid → Text → List SessionNonParticipation → List SessionNonParticipation
set_reason id reason [] = []
set_reason id reason (n ∷ ns) =
    let rest = set_reason id reason ns in
    (if n.id == id then record n { reason = reason } else n) ∷ rest

unfoldable pub update_session_non_participation : Xid → Text → Tx SessionNonParticipation
unfolding is_blank trim_space
update_session_non_participation id reason s =
    if is_blank (trim_space reason)
    then err reason_required
    else elim (find_first (λ n. n.id == id) s.db.non_participations) [
      | none ↦ err no_rows
      | some n ↦ ok (
        record n { reason = trim_space reason },
        record s {
          db = record (s.db) {
            non_participations = set_reason id (trim_space reason) s.db.non_participations;
          };
        },
      )
    ]

unfoldable pub delete_session_non_participation : Xid → Tx Bool
delete_session_non_participation id s = ok (
  any (λ n. n.id == id) s.db.non_participations,
  record s {
    db = record (s.db) {
      non_participations = keep (λ n. not (n.id == id)) s.db.non_participations;
    };
  },
)
