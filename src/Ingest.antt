-- ===== src/Ingest.antt =====
-- The preview of a grades file: backend/internal/ingest/grades.go, on the shapes of
-- backend/internal/ingest/envelope.go and backend/internal/ingest/preview.go.
--
-- `strings.ToLower` on all of Unicode is the parameter `to_lower`. A detail is the sentence that the
-- code writes, without the values in it.
pub mod Grades
pub mod Contradictions
pub mod Updates
pub mod Tests
use miniclass.Base.{
  ℕ, suc, ◌+◌, ◌==◌, Bool, true, false, not, ◌&&◌, ◌||◌, List, [], ◌∷◌, ◌++◌, Option, none, some,
  any, contains, if◌then◌else◌, Xid, Time,
}
use miniclass.Base.Text.{Text, codes, eq_text, fields, trim_space, is_blank}
use miniclass.Store.Rows.{GradeLevel}

pub data Outcome : Type 0 where
  create update unchanged conflict error : Outcome

pub record OutcomeCounts : Type 0 where
  pub create : ℕ
  pub update : ℕ
  pub unchanged : ℕ
  pub conflict : ℕ
  pub error : ℕ

-- What `classifyGrade`, `resolveGradeLevel` and `matchGrades` say.
pub data Detail : Type 0 where
  no_detail no_student_name no_matching_student many_matching_students soft_deleted : Detail
  grade_empty grade_unknown grade_ambiguous grade_resolved contradictory_grades : Detail

-- A change of `grade_level_id`.
pub record FieldChange : Type 0 where
  pub before : Option Xid
  pub after : Xid

pub record RecordPreview : Type 0 where
  pub source_external_identifier : Text
  pub existing_id : Option Xid
  pub outcome : Outcome
  pub changes : List FieldChange
  pub detail : Detail
  pub deleted_at : Option Time

pub record SourceRowPreview : Type 0 where
  pub number : ℕ
  pub source_external_identifier : Text
  pub outcome : Outcome
  pub records : List RecordPreview

pub record Preview : Type 0 where
  pub rows : List SourceRowPreview
  pub counts : OutcomeCounts

pub record GradeRecord : Type 0 where
  pub student_name : Text
  pub grade : Text

pub record Student : Type 0 where
  pub id : Xid
  pub legal_given_name : Text
  pub legal_family_name : Text
  pub preferred_given_name : Option Text
  pub grade_level_id : Option Xid
  pub deleted_at : Option Time

-- `strings.Join(parts, " ")`
abbrev pub join : List Text → Text
join [] = []
join (part ∷ []) = part
join (part ∷ parts) = part ++ (b' ' ∷ join parts)

abbrev pub no_counts : OutcomeCounts
no_counts = record { create = 0; update = 0; unchanged = 0; conflict = 0; error = 0 }

unfoldable pub add_count : OutcomeCounts → Outcome → OutcomeCounts
add_count c create = record c { create = suc c.create }
add_count c update = record c { update = suc c.update }
add_count c unchanged = record c { unchanged = suc c.unchanged }
add_count c conflict = record c { conflict = suc c.conflict }
add_count c error = record c { error = suc c.error }

-- `previous, exists := duplicateGrades[nameKey]`
abbrev pub previous_grade : Text → List (Text × Text) → Option Text
previous_grade k [] = none
previous_grade k ((name, grade) ∷ rest) =
    let later = previous_grade k rest in if eq_text name k then some grade else later

abbrev pub contains_text : Text → List Text → Bool
contains_text k names = any (λ n. eq_text n k) names

-- The rows of the table whose identifier was not seen; `fits` is the test of the loop.
module _ {A : Type 0} (id : A → Xid) (fits : A → Bool) where
  abbrev pub first_matches : List Xid → List A → List A
  first_matches seen [] = []
  first_matches seen (a ∷ rows) = elim (fits a && not (contains (id a) seen)) [
    | true ↦ a ∷ first_matches (id a ∷ seen) rows
    | false ↦ first_matches seen rows
  ]

-- The level that a grade names, or why there is none.
pub data GradeResolution : Type 0 where
  level : GradeLevel → GradeResolution
  unresolved : Detail → GradeResolution

abbrev pub one_level : List GradeLevel → GradeResolution
one_level [] = unresolved grade_unknown
one_level (l ∷ []) = level l
one_level (_ ∷ _ ∷ _) = unresolved grade_ambiguous

abbrev pub is_grade : Option Xid → Xid → Bool
is_grade none id = false
is_grade (some current) id = current == id
