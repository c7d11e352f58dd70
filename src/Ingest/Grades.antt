-- ===== src/Ingest/Grades.antt =====
-- `matchGrades`, `classifyGrade`, `matchingGradeStudents` and `resolveGradeLevel` of
-- backend/internal/ingest/grades.go.
use miniclass.Base.{
  ℕ, suc, ◌+◌, Bool, true, false, not, ◌&&◌, ◌||◌, List, [], ◌∷◌, ◌++◌, Option, none, some,
  if◌then◌else◌, Time,
}
use miniclass.Base.Text.{Text, eq_text, fields, trim_space}
use miniclass.Store.Rows.{GradeLevel}
use miniclass.Ingest.{
  GradeRecord, GradeResolution, OutcomeCounts, Preview, RecordPreview, SourceRowPreview, Student,
  add_count, conflict, contains_text, contradictory_grades, error, first_matches, grade_empty,
  grade_resolved, is_grade, join, level, many_matching_students, no_counts, no_detail,
  no_matching_student, no_student_name, one_level, previous_grade, soft_deleted, unchanged,
  unresolved, update,
}

module _ (to_lower : Text → Text) where
  unfoldable pub normalize_import_text : Text → Text
  unfolding fields trim_space
  normalize_import_text value = to_lower (join (fields (trim_space value)))

  unfoldable pub normalize_import_name : Text → Text
  unfolding normalize_import_text
  normalize_import_name value = normalize_import_text value

  abbrev pub is_nothing : Text → Bool
  is_nothing [] = true
  is_nothing (_ ∷ _) = false

  abbrev pub preferred_matches : Text → Text → Option Text → Bool
  preferred_matches key family none = false
  preferred_matches key family (some given) =
      let preferred = normalize_import_name (given ++ (b' ' ∷ family)) in
      not (is_nothing preferred) && eq_text key preferred

  unfoldable pub has_name : Text → Student → Bool
  unfolding normalize_import_name
  has_name key s =
      eq_text key (normalize_import_name (s.legal_given_name ++ (b' ' ∷ s.legal_family_name)))
      || preferred_matches key s.legal_family_name s.preferred_given_name

  unfoldable pub matching_grade_students : Text → List Student → List Student
  unfolding has_name
  matching_grade_students source_name students =
      first_matches (λ s. s.id) (has_name (normalize_import_name source_name)) [] students

  abbrev pub has_label : Text → GradeLevel → Bool
  has_label key l =
      eq_text key (normalize_import_text l.code) || eq_text key (normalize_import_text l.label)

  unfoldable pub resolve_grade_level : Text → List GradeLevel → GradeResolution
  unfolding normalize_import_text
  resolve_grade_level source levels =
      if is_nothing (normalize_import_text source)
      then unresolved grade_empty
      else one_level
          (first_matches (λ l. l.id) (has_label (normalize_import_text source)) [] levels)

  abbrev pub blank_record : Text → RecordPreview
  blank_record name = record {
    source_external_identifier = name;
    existing_id = none;
    outcome = error;
    changes = [];
    detail = no_student_name;
    deleted_at = none;
  }

  abbrev pub classify_level : RecordPreview → Student → GradeResolution → RecordPreview
  classify_level r s (unresolved detail) = record r { outcome = error; detail = detail }
  classify_level r s (level l) =
      if is_grade s.grade_level_id l.id
      then record r { outcome = unchanged; detail = no_detail }
      else record r {
        outcome = update;
        changes = record { before = s.grade_level_id; after = l.id } ∷ [];
        detail = grade_resolved;
      }

  abbrev pub classify_student :
      RecordPreview → Text → List GradeLevel → Student → Option Time → RecordPreview
  classify_student r grade levels s (some t) = record r {
    outcome = conflict;
    detail = soft_deleted;
    deleted_at = some t;
  }
  classify_student r grade levels s none = classify_level r s (resolve_grade_level grade levels)

  abbrev pub classify_candidates :
      RecordPreview → Text → List GradeLevel → List Student → RecordPreview
  classify_candidates r grade levels [] = record r {
    outcome = conflict;
    detail = no_matching_student;
  }
  classify_candidates r grade levels (s ∷ []) =
      classify_student (record r { existing_id = some s.id }) grade levels s s.deleted_at
  classify_candidates r grade levels (_ ∷ _ ∷ _) = record r {
    outcome = conflict;
    detail = many_matching_students;
  }

  unfoldable pub classify_grade : GradeRecord → List Student → List GradeLevel → RecordPreview
  unfolding normalize_import_name matching_grade_students resolve_grade_level
  classify_grade source students levels =
      if is_nothing (normalize_import_name source.student_name)
      then blank_record source.student_name
      else classify_candidates (blank_record source.student_name) source.grade levels
          (matching_grade_students source.student_name students)

  abbrev pub name_key : GradeRecord → Text
  name_key r = normalize_import_name r.student_name

  abbrev pub grade_key : GradeRecord → Text
  grade_key r = normalize_import_text r.grade

  -- The first loop of `matchGrades`: the names that the source gives two grades.
  unfoldable pub contradictory_names : List (Text × Text) → List GradeRecord → List Text
  unfolding normalize_import_name normalize_import_text
  contradictory_names grades [] = []
  contradictory_names grades (r ∷ rows) = elim (previous_grade (name_key r) grades) [
    | none ↦ contradictory_names ((name_key r, grade_key r) ∷ grades) rows
    | some previous ↦ elim (eq_text previous (grade_key r)) [
      | true ↦ contradictory_names grades rows
      | false ↦ name_key r ∷ contradictory_names grades rows
    ]
  ]

  unfoldable pub preview_record :
      List Text → GradeRecord → List Student → List GradeLevel → RecordPreview
  unfolding classify_grade normalize_import_name
  preview_record names source students levels =
      let r = classify_grade source students levels in
      if contains_text (name_key source) names
      then record r { outcome = conflict; changes = []; detail = contradictory_grades }
      else r

  abbrev pub preview_row : ℕ → GradeRecord → RecordPreview → SourceRowPreview
  preview_row index source r = record {
    number = index + 2;
    source_external_identifier = source.student_name;
    outcome = r.outcome;
    records = r ∷ [];
  }

  -- The second loop.
  unfoldable pub preview_rows :
      List Text → ℕ → List Student → List GradeLevel → OutcomeCounts → List GradeRecord → Preview
  unfolding preview_record add_count
  preview_rows names index students levels counts [] = record { rows = []; counts = counts }
  preview_rows names index students levels counts (source ∷ rows) =
      let r = preview_record names source students levels in
      let rest = preview_rows names (suc index) students levels (add_count counts r.outcome) rows in
      record rest { rows = preview_row index source r ∷ rest.rows }

  unfoldable pub match_grades : List GradeRecord → List Student → List GradeLevel → Preview
  unfolding contradictory_names preview_rows
  match_grades rows students levels =
      preview_rows (contradictory_names [] rows) 0 students levels no_counts rows
