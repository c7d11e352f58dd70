-- ===== src/Ingest/Contradictions.antt =====
-- The names that a grades file gives more than one grade.
use miniclass.Base.{
  ◌≡◌, refl, Bool, true, false, ◌&&◌, List, [], ◌∷◌, none, some, any, arith, Bool-cases,
  Option-cases, inl, inr,
}
use miniclass.Base.Text.{Text, eq_text, eq_text_refl, eq_of_eq_text}
use miniclass.Ingest.{GradeRecord, previous_grade, contains_text}
use miniclass.Ingest.Grades.{name_key, grade_key, contradictory_names}

eq_text_sym : (s t : Text) → eq_text s t ≡ eq_text t s
eq_text_sym [] [] = refl
eq_text_sym [] (d ∷ t) = refl
eq_text_sym (c ∷ s) [] = refl
eq_text_sym (c ∷ s) (d ∷ t) = ground (arith, eq_text_sym s t)

module _ (to_lower : Text → Text) where
  -- A row of the source gives the name the grade.
  abbrev pub gives : Text → Text → List GradeRecord → Bool
  gives name grade rows =
      any (λ r. eq_text (name_key to_lower r) name && eq_text (grade_key to_lower r) grade) rows

  abbrev names : List (Text × Text) → List GradeRecord → List Text
  names grades rows = contradictory_names to_lower grades rows

  names-new :
      (grades : List (Text × Text)) (r : GradeRecord) (rows : List GradeRecord)
      → previous_grade (name_key to_lower r) grades ≡ none
      → names grades (r ∷ rows) ≡ names ((name_key to_lower r, grade_key to_lower r) ∷ grades) rows
  unfolding contradictory_names
  names-new grades r rows e = rw (e, contradictory_names)

  names-same :
      (grades : List (Text × Text)) (r : GradeRecord) (rows : List GradeRecord) (p : Text)
      → previous_grade (name_key to_lower r) grades ≡ some p
      → eq_text p (grade_key to_lower r) ≡ true
      → names grades (r ∷ rows) ≡ names grades rows
  unfolding contradictory_names
  names-same grades r rows p e t = rw (e, t, contradictory_names)

  names-other :
      (grades : List (Text × Text)) (r : GradeRecord) (rows : List GradeRecord) (p : Text)
      → previous_grade (name_key to_lower r) grades ≡ some p
      → eq_text p (grade_key to_lower r) ≡ false
      → names grades (r ∷ rows) ≡ name_key to_lower r ∷ names grades rows
  unfolding contradictory_names
  names-other grades r rows p e f = rw (e, f, contradictory_names)

  -- A second grade for a name that has one is noticed.
  names-later :
      (k g h : Text) (grades : List (Text × Text)) (rows : List GradeRecord)
      → previous_grade k grades ≡ some g
      → eq_text g h ≡ false
      → gives k h rows ≡ true
      → contains_text k (names grades rows) ≡ true
  names-later k g h grades [] e ne s = cc
  names-later k g h grades (r ∷ rows) e ne s =
      let name = name_key to_lower r in
      let grade = grade_key to_lower r in
      elim (Option-cases (previous_grade name grades)) [
        | inl new ↦
            rw (names-new grades r rows new) (
              ground (arith, eq_of_eq_text name k, names-later k g h ((name, grade) ∷ grades) rows))
        | inr (p, old) ↦ elim (Bool-cases (eq_text p grade)) [
          | inl same ↦ rw (names-same grades r rows p old same) (
              ground (
                arith,
                eq_of_eq_text name k,
                eq_of_eq_text p grade,
                eq_of_eq_text grade h,
                eq_text_refl g,
                names-later k g h grades rows,
              ))
          | inr other ↦
              rw (names-other grades r rows p old other)
                (ground (arith, eq_of_eq_text name k, names-later k g h grades rows))
        ]
      ]

  -- Two grades for one name are noticed, wherever the rows stand.
  pub contradictory_names_complete :
      (k g h : Text) (grades : List (Text × Text)) (rows : List GradeRecord)
      → eq_text g h ≡ false
      → gives k g rows ≡ true
      → gives k h rows ≡ true
      → contains_text k (names grades rows) ≡ true
  contradictory_names_complete k g h grades [] ne sg sh = cc
  contradictory_names_complete k g h grades (r ∷ rows) ne sg sh =
      let name = name_key to_lower r in
      let grade = grade_key to_lower r in
      elim (Option-cases (previous_grade name grades)) [
        | inl new ↦ rw (names-new grades r rows new) (
            ground (
              arith,
              eq_of_eq_text name k,
              eq_of_eq_text grade g,
              eq_of_eq_text grade h,
              eq_text_refl g,
              eq_text_sym g h,
              contradictory_names_complete k g h ((name, grade) ∷ grades) rows ne,
              names-later k g h ((name, grade) ∷ grades) rows,
              names-later k h g ((name, grade) ∷ grades) rows,
            ))
        | inr (p, old) ↦ elim (Bool-cases (eq_text p grade)) [
          | inl same ↦ rw (names-same grades r rows p old same) (
              ground (
                arith,
                eq_of_eq_text name k,
                eq_of_eq_text p grade,
                eq_of_eq_text grade g,
                eq_of_eq_text grade h,
                eq_text_refl g,
                eq_text_sym g h,
                contradictory_names_complete k g h grades rows ne,
                names-later k g h grades rows,
                names-later k h g grades rows,
              ))
          | inr other ↦ rw (names-other grades r rows p old other) (
              ground
                (arith, eq_of_eq_text name k, contradictory_names_complete k g h grades rows ne))
        ]
      ]
