-- ===== src/Ingest/Updates.antt =====
-- The rows of a grades file that the preview would apply.
use miniclass.Base.{
  ℕ, suc, ◌≡◌, refl, sym, ap, ◌∙◌, Bool, true, false, List, [], ◌∷◌, Option, none, some, arith,
  Bool-cases, inl, inr, In, Time,
}
use miniclass.Base.Text.{Text, eq_text, eq_text_refl}
use miniclass.Store.Rows.{GradeLevel}
use miniclass.Ingest.{
  update, error, unchanged, OutcomeCounts, GradeRecord, Student, RecordPreview, SourceRowPreview,
  GradeResolution, level, unresolved, contains_text, is_grade, no_counts, add_count,
}
use miniclass.Ingest.Grades.{
  is_nothing, name_key, grade_key, matching_grade_students, resolve_grade_level, classify_level,
  classify_student, classify_candidates, blank_record, classify_grade, contradictory_names,
  preview_record, preview_rows, match_grades, normalize_import_name,
}
use miniclass.Ingest.Contradictions.{gives, contradictory_names_complete}

abbrev pub zip {ℓ κ} : {A : Type ℓ} {B : Type κ} → List A → List B → List (A × B)
zip [] bs = []
zip (a ∷ as_) [] = []
zip (a ∷ as_) (b ∷ bs) = (a, b) ∷ zip as_ bs

clash : {b : Bool} → b ≡ true → b ≡ false → ⊥
clash h k = cc

module _ (to_lower : Text → Text) where
  -- The update of one student, who is the only one with the name, to another grade level, which is the
  -- only one that the row can mean.
  pub record SoundUpdate (source : GradeRecord) (students : List Student) (levels : List GradeLevel)
      (r : RecordPreview) : Type 0 where
    pub student : Student
    pub only : matching_grade_students to_lower source.student_name students ≡ student ∷ []
    pub alive : student.deleted_at ≡ none
    pub existing : r.existing_id ≡ some student.id
    pub to_level : GradeLevel
    pub resolves : resolve_grade_level to_lower source.grade levels ≡ level to_level
    pub differs : is_grade student.grade_level_id to_level.id ≡ false
    pub changes : r.changes ≡ record { before = student.grade_level_id; after = to_level.id } ∷ []

  classify_grade-SoundUpdate :
      (source : GradeRecord) (students : List Student) (levels : List GradeLevel)
      → (classify_grade to_lower source students levels).outcome ≡ update
      → SoundUpdate source students levels (classify_grade to_lower source students levels)
  unfolding classify_grade
  classify_grade-SoundUpdate source students levels h =
      elim (Bool-cases (is_nothing to_lower (normalize_import_name to_lower source.student_name))) [
        | inl e ↦ let h' : error ≡ update = rw e at h in absurd (cc)
        | inr e ↦
            let h' = rw e at h in
            rw e
              (candidates (matching_grade_students to_lower source.student_name students) refl h')
      ]
    where
      blank : RecordPreview
      blank = blank_record to_lower source.student_name

      leveled :
          (s : Student)
          → matching_grade_students to_lower source.student_name students ≡ s ∷ []
          → s.deleted_at ≡ none
          → (q : GradeResolution) → resolve_grade_level to_lower source.grade levels ≡ q
          → (classify_level to_lower (record blank { existing_id = some s.id }) s q).outcome
            ≡ update
          → SoundUpdate source students levels
              (classify_level to_lower (record blank { existing_id = some s.id }) s q)
      leveled s only alive (unresolved d) e k = absurd (ground arith)
      leveled s only alive (level l) e k = elim (Bool-cases (is_grade s.grade_level_id l.id)) [
        | inl same ↦ let k' : unchanged ≡ update = rw same at k in absurd (cc)
        | inr other ↦ rw other (record {
          student = s;
          only = only;
          alive = alive;
          existing = refl;
          to_level = l;
          resolves = e;
          differs = other;
          changes = refl;
        })
      ]

      living :
          (s : Student)
          → matching_grade_students to_lower source.student_name students ≡ s ∷ []
          → (o : Option Time) → s.deleted_at ≡ o
          → (classify_student to_lower
              (record blank { existing_id = some s.id })
              source.grade
              levels
              s
              o).outcome
            ≡ update
          → SoundUpdate source students levels (
              classify_student to_lower
                (record blank { existing_id = some s.id })
                source.grade
                levels
                s
                o)
      living s only (some t) e k = absurd (ground arith)
      living s only none e k =
          leveled s only e (resolve_grade_level to_lower source.grade levels) refl k

      candidates :
          (c : List Student)
          → matching_grade_students to_lower source.student_name students ≡ c
          → (classify_candidates to_lower blank source.grade levels c).outcome ≡ update
          → SoundUpdate source students levels
              (classify_candidates to_lower blank source.grade levels c)
      candidates [] e k = absurd (ground arith)
      candidates (s ∷ []) e k = living s e s.deleted_at refl k
      candidates (s ∷ t ∷ rest) e k = absurd (ground arith)

  -- What the preview of a row is made of.
  record RowOf (names : List Text) (source : GradeRecord) (students : List Student)
      (levels : List GradeLevel) (row : SourceRowPreview) : Type 0 where
    outcome : row.outcome ≡ (preview_record to_lower names source students levels).outcome
    records : row.records ≡ preview_record to_lower names source students levels ∷ []

  preview_rows-RowOf :
      (names : List Text) (index : ℕ) (students : List Student) (levels : List GradeLevel)
      (counts : OutcomeCounts) (rows : List GradeRecord) (source : GradeRecord)
      (row : SourceRowPreview)
      → In
          (source, row)
          (zip rows (preview_rows to_lower names index students levels counts rows).rows)
      → RowOf names source students levels row × In source rows
  unfolding preview_rows
  preview_rows-RowOf names index students levels counts [] source row m = absurd m
  preview_rows-RowOf names index students levels counts (r ∷ rows) source row (inl e) =
      let same : source ≡ r = ap (λ p. p.0) e in
      let same_row = ap (λ p. p.1) e in
      (rw (same_row, same) (record { outcome = refl; records = refl }), inl same)
  preview_rows-RowOf names index students levels counts (r ∷ rows) source row (inr m) =
      let rest =
        preview_rows-RowOf names (suc index) students levels
          (add_count counts (preview_record to_lower names r students levels).outcome) rows source
          row m in
      (rest.0, inr rest.1)

  gives-own :
      (source : GradeRecord) (rows : List GradeRecord)
      → In source rows
      → gives to_lower (name_key to_lower source) (grade_key to_lower source) rows ≡ true
  gives-own source [] m = absurd m
  gives-own source (r ∷ rows) (inl e) =
      rw e (ground (arith, eq_text_refl (name_key to_lower r), eq_text_refl (grade_key to_lower r)))
  gives-own source (r ∷ rows) (inr m) = ground (arith, gives-own source rows m)

  preview_record-kept :
      (names : List Text) (source : GradeRecord) (students : List Student)
      (levels : List GradeLevel)
      → (preview_record to_lower names source students levels).outcome ≡ update
      → (contains_text (name_key to_lower source) names ≡ false)
        × (preview_record to_lower names source students levels
            ≡ classify_grade to_lower source students levels)
  unfolding preview_record
  preview_record-kept names source students levels h = ground arith

  -- A row that the preview marks as an update has one record, which moves the only student with the
  -- row's name, who is not deleted, to another grade level, the only one that the row's grade names;
  -- and every grade that the file gives this name is the row's own.
  pub match_grades-SoundUpdate :
      (rows : List GradeRecord) (students : List Student) (levels : List GradeLevel)
      (source : GradeRecord) (row : SourceRowPreview) (g : Text)
      → In (source, row) (zip rows (match_grades to_lower rows students levels).rows)
      → row.outcome ≡ update
      → gives to_lower (name_key to_lower source) g rows ≡ true
      → (eq_text g (grade_key to_lower source) ≡ true)
        × ((r : RecordPreview) × (row.records ≡ r ∷ []) × SoundUpdate source students levels r)
  unfolding match_grades
  match_grades-SoundUpdate rows students levels source row g m updates given =
      let names = contradictory_names to_lower [] rows in
      let (of_row, inside) =
        preview_rows-RowOf names 0 students levels no_counts rows source row m in
      let (fresh, same) =
        preview_record-kept names source students levels (sym of_row.outcome ∙ updates) in
      let sound =
        classify_grade-SoundUpdate source students levels
          (ap (λ r. r.outcome) (sym same) ∙ sym of_row.outcome ∙ updates) in
      (
        elim (Bool-cases (eq_text g (grade_key to_lower source))) [
          | inl e ↦ e
          | inr ne ↦ absurd (
              clash
                (contradictory_names_complete to_lower (name_key to_lower source) g
                  (grade_key to_lower source) [] rows ne given (gives-own source rows inside))
                fresh)
        ],
        (
          classify_grade to_lower source students levels,
          of_row.records ∙ ap (λ r. r ∷ []) same,
          sound,
        ),
      )
