-- ===== src/Ingest/Tests.antt =====
-- A small grades file.
use miniclass.Base.{◌≡◌, refl, true, List, [], ◌∷◌, none, some, inl, map}
use miniclass.Base.Text.{Text, codes, eq_text, lower_ascii}
use miniclass.Store.Rows.{GradeLevel}
use miniclass.Ingest.{
  Outcome, update, conflict, GradeRecord, RecordPreview, SourceRowPreview, Student,
}
use miniclass.Ingest.Grades.{preview_row, classify_grade, grade_key, match_grades}
use miniclass.Ingest.Updates.{SoundUpdate, match_grades-SoundUpdate}

abbrev lower : Text → Text
lower s = map lower_ascii s

abbrev pupils : List Student
pupils =
    record {
      id = 1;
      legal_given_name = codes "Ada";
      legal_family_name = codes "Li Po";
      preferred_given_name = some (codes "Addy");
      grade_level_id = some 31;
      deleted_at = none;
    }
    ∷ record {
      id = 2;
      legal_given_name = codes "Bo";
      legal_family_name = codes "Lee";
      preferred_given_name = none;
      grade_level_id = none;
      deleted_at = none;
    }
    ∷ []

abbrev levels : List GradeLevel
levels =
    record { id = 31; code = codes "1"; label = codes "First"; ordinal = 1 }
    ∷ record { id = 32; code = codes "2"; label = codes "Second"; ordinal = 2 }
    ∷ []

abbrev ada : GradeRecord
ada = record { student_name = codes " addy  LI po"; grade = codes "SECOND" }

abbrev file : List GradeRecord
file =
    ada
    ∷ record { student_name = codes "Bo Lee"; grade = codes "1" }
    ∷ record { student_name = codes "bo lee"; grade = codes "2" }
    ∷ []

abbrev outcomes : List SourceRowPreview → List Outcome
outcomes rows = map (λ (r : SourceRowPreview). r.outcome) rows

contradiction_found :
    outcomes (match_grades lower file pupils levels).rows ≡ update ∷ conflict ∷ conflict ∷ []
unfolding match_grades
contradiction_found = refl

counted :
    (match_grades lower file pupils levels).counts
    ≡ record { create = 0; update = 1; unchanged = 0; conflict = 2; error = 0 }
unfolding match_grades
counted = refl

abbrev first_row : SourceRowPreview
first_row = preview_row lower 0 ada (classify_grade lower ada pupils levels)

match_grades-SoundUpdate_example :
    (eq_text (grade_key lower ada) (grade_key lower ada) ≡ true)
    × ((r : RecordPreview) × (first_row.records ≡ r ∷ []) × SoundUpdate lower ada pupils levels r)
unfolding match_grades
match_grades-SoundUpdate_example =
    match_grades-SoundUpdate lower file pupils levels ada first_row (grade_key lower ada) (inl refl)
      refl refl
