-- ===== src/Preference/Eligibility.antt =====
-- Grade windows and hidden classes: backend/internal/preference/grade_eligibility.go against
-- `evaluateManualAssignments` of backend/internal/program/assignment_operations.go.
use miniclass.Base.{
  ℕ, ◌+◌, ◌==◌, ◌≡◌, refl, ap, ◌∙◌, Bool, true, false, not, ◌&&◌, List, [], ◌∷◌, ◌++◌, Option, none,
  some, contains, map, keep, if◌then◌else◌, Xid, All, arith, Bool-cases, inl, inr,
}
use miniclass.Base.Counting.{no_duplicates, times}
use miniclass.Store.Rows.{Offering, GradeLevel, ProgramMembership, Db}
use miniclass.Preference.Responses.{
  RankedChoiceResponseInput, offering_ids, ordinal_from, is_eligible, grade_eligible_offerings,
  no_response_to, complete_hidden_ranked_choice_responses,
}
use miniclass.Preference.Complete.{answered}
use miniclass.Feasibility.Levels.{has_level, HasWindow}
use miniclass.Assignment.Rules.{grade_from, outside_window}

abbrev or_zero : Option ℕ → ℕ
or_zero none = 0
or_zero (some n) = n

-- The two readings of the vocabulary agree on the levels that it has.
ordinal_from-grade_from :
    (found : Option ℕ) (id : Xid) (grades : List GradeLevel)
    → grade_from (or_zero found) id grades ≡ or_zero (ordinal_from found id grades)
unfolding ordinal_from grade_from
ordinal_from-grade_from found id [] = refl
ordinal_from-grade_from found id (g ∷ grades) = elim (Bool-cases (g.id == id)) [
  | inl e ↦ rw e (ordinal_from-grade_from (some g.ordinal) id grades)
  | inr e ↦ rw e (ordinal_from-grade_from found id grades)
]

eligible-inside :
    (db : Db) (m : ProgramMembership) (o : Offering)
    → is_eligible m.grade_level_id db.grade_levels o ≡ true
    → outside_window db m o ≡ false
unfolding is_eligible
eligible-inside db m o h = go m.grade_level_id refl
  where
    go : (g : Option Xid) → m.grade_level_id ≡ g → outside_window db m o ≡ false
    go none e = absurd (ground arith)
    go (some g) e = ground (
      arith,
      ordinal_from-grade_from none g db.grade_levels,
      ordinal_from-grade_from none o.min_grade_level_id db.grade_levels,
      ordinal_from-grade_from none o.max_grade_level_id db.grade_levels,
    )

-- Every offering that the form shows to a student can be given to them by hand without a
-- grade-window violation.
pub grade_eligible_offerings-inside :
    (db : Db) (m : ProgramMembership) (offerings : List Offering)
    → All
        (λ o. outside_window db m o ≡ false)
        (grade_eligible_offerings m.grade_level_id db.grade_levels offerings)
unfolding grade_eligible_offerings
grade_eligible_offerings-inside db m [] = tt
grade_eligible_offerings-inside db m (o ∷ offerings) =
    elim (Bool-cases (is_eligible m.grade_level_id db.grade_levels o)) [
      | inl e ↦ rw e (eligible-inside db m o e, grade_eligible_offerings-inside db m offerings)
      | inr e ↦ rw e (grade_eligible_offerings-inside db m offerings)
    ]

-- The reader of the form finds a level that is there, and reads the ordinal of the editor.
ordinal_from-known :
    (found : Option ℕ) (n : ℕ) (id : Xid) (grades : List GradeLevel)
    → has_level grades id ≡ true
    → ordinal_from found id grades ≡ some (grade_from n id grades)
unfolding ordinal_from grade_from
ordinal_from-known found n id [] h = absurd (ground arith)
ordinal_from-known found n id (g ∷ grades) h = elim (Bool-cases (has_level grades id)) [
  | inl later ↦
      ordinal_from-known (if g.id == id then some g.ordinal else found)
        (if g.id == id then g.ordinal else n) id grades later
  | inr absent ↦
      let here : (g.id == id) ≡ true = ground arith in
      rw here (ordinal_from-last g.ordinal id grades absent)
]
  where
    ordinal_from-last :
        (n : ℕ) (id : Xid) (grades : List GradeLevel)
        → has_level grades id ≡ false
        → ordinal_from (some n) id grades ≡ some (grade_from n id grades)
    ordinal_from-last n id [] h = refl
    ordinal_from-last n id (g ∷ grades) h = ground (arith, ordinal_from-last n id grades)

eligible-window :
    (db : Db) (m : ProgramMembership) (g : Xid) (o : Offering)
    → m.grade_level_id ≡ some g
    → has_level db.grade_levels g ≡ true
    → HasWindow db.grade_levels o
    → is_eligible m.grade_level_id db.grade_levels o ≡ not (outside_window db m o)
unfolding is_eligible
eligible-window db m g o h there window = ground (
  arith,
  h,
  ordinal_from-known none 0 g db.grade_levels there,
  ordinal_from-known none 0 o.min_grade_level_id db.grade_levels window.0,
  ordinal_from-known none 0 o.max_grade_level_id db.grade_levels window.1,
)

-- Where the vocabulary has the grade of a student and the levels of the windows, the form shows them
-- exactly the offerings that the manual editor can give them without a grade-window violation.
pub grade_eligible_offerings-window :
    (db : Db) (m : ProgramMembership) (g : Xid) (offerings : List Offering)
    → m.grade_level_id ≡ some g
    → has_level db.grade_levels g ≡ true
    → All (HasWindow db.grade_levels) offerings
    → grade_eligible_offerings m.grade_level_id db.grade_levels offerings
      ≡ keep (λ o. not (outside_window db m o)) offerings
unfolding grade_eligible_offerings
grade_eligible_offerings-window db m g [] h there windows = refl
grade_eligible_offerings-window db m g (o ∷ offerings) h there windows =
    rw
      (
        eligible-window db m g o h there windows.0,
        grade_eligible_offerings-window db m g offerings h there windows.1,
      )
      refl

times-++ :
    (id : Xid) (l m : List RankedChoiceResponseInput)
    → times answered id (l ++ m) ≡ times answered id l + times answered id m
times-++ id [] m = omega arith
times-++ id (r ∷ l) m = ground (arith, times-++ id l m)

-- An offering is filled in once if it passes the test.
times-keep :
    (p : Offering → Bool) (q : Xid → Bool) (id : Xid) (offerings : List Offering)
    → ((o : Offering) → p o ≡ q o.id)
    → no_duplicates (offering_ids offerings) ≡ true
    → times answered id (map no_response_to (keep p offerings))
      ≡ (if contains id (offering_ids offerings) && q id then 1 else 0)
times-keep p q id [] same h = ground arith
times-keep p q id (o ∷ offerings) same h =
    let rest = times-keep p q id offerings same (ground arith) in
    elim (Bool-cases (p o)) [
      | inl e ↦ rw e (ground (arith, rest, same o))
      | inr e ↦ rw e (ground (arith, rest, same o))
    ]

-- A form that omits the classes hidden from a student is completed: each hidden offering that was not
-- answered gets one answer, and every other offering is answered as often as in the form.
pub complete_hidden-times :
    (responses : List RankedChoiceResponseInput) (offerings eligible : List Offering)
    → no_duplicates (offering_ids offerings) ≡ true
    → (id : Xid)
    → times answered id (complete_hidden_ranked_choice_responses responses offerings eligible)
      ≡ times answered id responses
        + (if contains id (offering_ids offerings)
              && (not (contains id (offering_ids eligible))
                  && not (contains id (map answered responses)))
            then 1
            else 0)
unfolding complete_hidden_ranked_choice_responses
complete_hidden-times responses offerings eligible h id =
    times-++ id responses _
    ∙ ap (λ n. times answered id responses + n)
        (times-keep _
          (λ x.
            not (contains x (offering_ids eligible)) && not (contains x (map answered responses)))
          id offerings (λ o. refl) h)
