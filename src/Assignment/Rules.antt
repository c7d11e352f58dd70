-- ===== src/Assignment/Rules.antt =====
-- `evaluateManualAssignments` and `violationsForStudent` of
-- backend/internal/program/assignment_operations.go. A violation, in the source the text
-- `student:rule`, is the pair of the two: an identifier holds no colon.
use miniclass.Base.{
  ℕ, ◌==◌, ltb, Bool, true, false, ◌&&◌, ◌||◌, List, [], ◌∷◌, ◌++◌, Option, none, some, any,
  find_first, count_if, contains, if◌then◌else◌, Xid,
}
use miniclass.Store.Rows.{
  absent, Assignment, Offering, GradeLevel, ProgramMembership, Rule, capacity, grade_window,
  exclusion, Db,
}
use miniclass.Store.Tx.{student_not_participating, offering_not_found, Result, ok, err}

-- A move: the student and the offering to place them in.
abbrev pub Move : Type 0
Move = Xid × Xid

abbrev pub Violation : Type 0
Violation = Xid × Rule

-- `grade[id]`: the ordinal of the last level with the identifier, 0 without one.
unfoldable pub grade_from : ℕ → Xid → List GradeLevel → ℕ
grade_from found id [] = found
grade_from found id (g ∷ grades) = grade_from (if g.id == id then g.ordinal else found) id grades

abbrev pub grade : Db → Xid → ℕ
grade db id = grade_from 0 id db.grade_levels

-- The offerings and the members of a session have distinct identifiers, so the first is the only one.
abbrev pub offering_of : Db → Xid → Option Offering
offering_of db id = find_first (λ o. o.id == id) db.offerings

abbrev pub member_of : Db → Xid → Option ProgramMembership
member_of db id = find_first (λ m. m.student_id == id) db.memberships

abbrev pub placed_in : Xid → List Assignment → ℕ
placed_in offering rows = count_if (λ row. row.offering_id == offering) rows

abbrev pub over_capacity : List Assignment → Offering → Bool
over_capacity final o = ltb o.capacity (placed_in o.id final)

abbrev pub outside_window : Db → ProgramMembership → Offering → Bool
outside_window db m o = elim m.grade_level_id [
  | none ↦ true
  | some g ↦
      ltb (grade db g) (grade db o.min_grade_level_id)
      || ltb (grade db o.max_grade_level_id) (grade db g)
]

abbrev pub is_excluded : Db → Xid → Xid → Bool
is_excluded db student offering =
    any (λ e. e.student_id == student && e.offering_id == offering) db.exclusions

abbrev pub when_rule : Bool → Violation → List Violation
when_rule true v = v ∷ []
when_rule false v = []

-- The violations of one placement, in the order in which they are appended.
unfoldable pub violations_of :
    Db → List Assignment → Xid → ProgramMembership → Offering → List Violation
violations_of db final student m o =
    when_rule (over_capacity final o) (student, capacity)
    ++ (when_rule (outside_window db m o) (student, grade_window)
        ++ when_rule (is_excluded db student o.id) (student, exclusion))

-- One turn of the loop over the changed placements.
unfoldable pub evaluate_move : Db → List Assignment → Move → Result (List Violation)
unfolding violations_of
evaluate_move db final (student, target) = elim (member_of db student) [
  | none ↦ err student_not_participating
  | some m ↦
      if contains student (absent db)
      then err student_not_participating
      else elim (offering_of db target) [
        | none ↦ err offering_not_found
        | some o ↦ ok (violations_of db final student m o)
      ]
]

abbrev pub append_result : List Violation → Result (List Violation) → Result (List Violation)
append_result vs (ok ws) = ok (vs ++ ws)
append_result vs (err e) = err e

abbrev pub then_rest : Result (List Violation) → Result (List Violation) → Result (List Violation)
then_rest (ok vs) rest = append_result vs rest
then_rest (err e) rest = err e

-- `moves` is the map of changed placements in the order in which Go happens to walk it.
unfoldable pub evaluate_manual_assignments :
    Db → List Assignment → List Move → Result (List Violation)
unfolding evaluate_move
evaluate_manual_assignments db final [] = ok []
evaluate_manual_assignments db final (mv ∷ moves) =
    then_rest (evaluate_move db final mv) (evaluate_manual_assignments db final moves)

unfoldable pub violations_for_student : List Violation → Xid → List Rule
violations_for_student [] student = []
violations_for_student ((s, rule) ∷ vs) student =
    let rest = violations_for_student vs student in if s == student then rule ∷ rest else rest
