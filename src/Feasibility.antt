-- ===== src/Feasibility.antt =====
-- The advice about the catalog of a session: backend/internal/program/feasibility.go.
--
-- The messages of the warnings are left out. The rows of interest areas, which only carry labels to
-- the warnings, are an argument.
pub mod Gaps
pub mod Evaluate
pub mod Sums
pub mod Capacity
pub mod Levels
pub mod Window
pub mod Tests
use miniclass.Base.{ℕ, ◌+◌, ◌==◌, Bool, List, [], ◌∷◌, Option, none, some, if◌then◌else◌, Xid}
use miniclass.Base.Int.{ℤ}
use miniclass.Base.Text.{Text}
use miniclass.Store.Rows.{GradeLevel, Offering}

pub data WarningId : Type 0 where
  capacity_short grade_gap minimum_viability area_gap unmatched_offering : WarningId

pub data Severity : Type 0 where
  warning info : Severity

pub record CatalogParticipant : Type 0 where
  pub student_id : Xid
  pub grade_level_id : Xid
  pub grade_label : Text
  pub grade_ordinal : ℕ
  pub known_grade : Bool

pub record InterestArea : Type 0 where
  pub id : Xid
  pub label : Text

pub record CatalogAreaDemand : Type 0 where
  pub interest_area_id : Xid
  pub high_rating_count : ℤ

pub record CatalogFeasibilitySnapshot : Type 0 where
  pub participants : List CatalogParticipant
  pub grades : List GradeLevel
  pub offerings : List Offering
  pub interest_areas : List InterestArea
  pub area_demand : List CatalogAreaDemand
  pub has_ranked_choices : Bool

pub record CatalogGradeGap : Type 0 where
  pub id : Xid
  pub label : Text
  pub participant_count : ℕ

pub record CatalogAreaGap : Type 0 where
  pub id : Xid
  pub label : Text
  pub high_rating_count : ℕ

pub record CatalogFeasibilityWarning : Type 0 where
  pub id : WarningId
  pub severity : Severity
  pub participant_count : ℕ
  pub total_capacity : ℕ
  pub total_minimum_viable_enrollment : ℕ
  pub shortfall : ℕ
  pub affected_grades : List CatalogGradeGap
  pub affected_areas : List CatalogAreaGap
  pub offering_ids : List Xid

pub record CatalogFeasibility : Type 0 where
  pub participant_count : ℕ
  pub warnings : List CatalogFeasibilityWarning

-- The loop over the offerings sums what `f` reads.
abbrev pub total : (Offering → ℕ) → List Offering → ℕ
total f [] = 0
total f (o ∷ offerings) = f o + total f offerings

abbrev pub minimum_of : Offering → ℕ
minimum_of o = elim o.minimum_viable_enrollment [ none ↦ 0 | some n ↦ n ]

-- `gradeByID[id]`: the last level with the identifier.
abbrev pub last_level : Option GradeLevel → Xid → List GradeLevel → Option GradeLevel
last_level found id [] = found
last_level found id (g ∷ grades) = last_level (if g.id == id then some g else found) id grades
