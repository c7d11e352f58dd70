-- ===== src/Feasibility/Window.antt =====
-- What the warning about grades means for the placements of the manual editor.
use miniclass.Base.{
  ℕ, ◌≤◌, ◌==◌, ◌≡◌, refl, sym, ap, ◌∙◌, inl, inr, ltb, leb, Bool, true, false, not, ◌&&◌, ◌||◌,
  List, [], ◌∷◌, none, some, any, keep, length, All, In, Bool-cases, Xid, arith, eq_of_==,
}
use miniclass.Base.Keyed.{put}
use miniclass.Base.Sort.{insert_sorted, sort_slice}
use miniclass.Store.Rows.{GradeLevel, Offering, ProgramMembership, Db}
use miniclass.Store.Tx.{ok}
use miniclass.Assignment.Rules.{grade_from, outside_window}
use miniclass.NonParticipation.{participating}
use miniclass.Feasibility.{
  CatalogParticipant, CatalogFeasibilitySnapshot, CatalogFeasibilityWarning, CatalogFeasibility,
  CatalogGradeGap, InterestArea,
}
use miniclass.Feasibility.Gaps.{
  counted_gap, gap_id, in_window, offering_grade_ordinals, is_admitted, known_grades,
  uncovered_grades,
}
use miniclass.Feasibility.Evaluate.{
  live_snapshot, evaluate_catalog_feasibility, get_catalog_feasibility,
}
use miniclass.Feasibility.Capacity.{any-append, live-eq}
use miniclass.Feasibility.Levels.{
  HasWindow, last_level-grade_from, participants-IsLive, participant-has_grade, any-has_id,
  has_level, IsLive, has_grade, has_id,
}

-- One test of a grade stands for the tests of its participants.
any-in_window :
    (grades : List GradeLevel) (g min max : ℕ) (l : List CatalogParticipant)
    → 1 ≤ g
    → All (IsLive grades) l
    → any (in_window g (some (min, max))) l
      ≡ (any (has_id g) l && (leb min (grade_from 0 g grades) && leb (grade_from 0 g grades) max))
any-in_window grades g min max [] one live = refl
any-in_window grades g min max (p ∷ l) one live =
    let rest = any-in_window grades g min max l one live.1 in
    elim (Bool-cases (p.grade_level_id == g)) [
      | inl e ↦
          let same = eq_of_== p.grade_level_id g e in
          elim live.0 [
            | inl unknown ↦ absurd (omega arith)
            | inr known ↦
                let ordinal = known ∙ ap (λ k. grade_from 0 k grades) same in
                rw (e, ordinal, rest) (ground arith)
          ]
      | inr e ↦ rw e rest
    ]

offering_grade_ordinals-eq :
    (s : CatalogFeasibilitySnapshot) (o : Offering)
    → HasWindow s.grades o
    → offering_grade_ordinals s o
      ≡ some
          (grade_from 0 o.min_grade_level_id s.grades, grade_from 0 o.max_grade_level_id s.grades)
unfolding offering_grade_ordinals
offering_grade_ordinals-eq s o h =
    let (l, (found, _, min)) = last_level-grade_from none 0 o.min_grade_level_id s.grades h.0 in
    let (k, (also, _, max)) = last_level-grade_from none 0 o.max_grade_level_id s.grades h.1 in
    rw (found, also, sym min, sym max) refl

abbrev admits : List GradeLevel → Xid → Offering → Bool
admits grades g o =
    leb (grade_from 0 o.min_grade_level_id grades) (grade_from 0 g grades)
    && leb (grade_from 0 g grades) (grade_from 0 o.max_grade_level_id grades)

abbrev grade_admitted : CatalogFeasibilitySnapshot → Xid → List Offering → Bool
grade_admitted s g offerings =
    any (λ o. any (in_window g (offering_grade_ordinals s o)) s.participants) offerings

grade_admitted-admits :
    (s : CatalogFeasibilitySnapshot) (g : Xid) (offerings : List Offering)
    → 1 ≤ g
    → All (IsLive s.grades) s.participants
    → any (has_id g) s.participants ≡ true
    → All (HasWindow s.grades) offerings
    → grade_admitted s g offerings ≡ any (admits s.grades g) offerings
grade_admitted-admits s g [] one live there h = refl
grade_admitted-admits s g (o ∷ offerings) one live there h =
    let rest = grade_admitted-admits s g offerings one live there h.1 in
    let here =
      any-in_window s.grades g (grade_from 0 o.min_grade_level_id s.grades)
        (grade_from 0 o.max_grade_level_id s.grades) s.participants one live in
    rw (offering_grade_ordinals-eq s o h.0, here, there, rest) refl

-- The gaps in the result of a loop.
abbrev is_gap : Xid → CatalogGradeGap → Bool
is_gap g gap = gap.id == g

any-put :
    (g : Xid) (gap : CatalogGradeGap) (gaps : List CatalogGradeGap)
    → any (is_gap g) (put gap_id gap gaps) ≡ (is_gap g gap || any (is_gap g) gaps)
unfolding put
any-put g gap [] = refl
any-put g gap (x ∷ gaps) = ground (arith, any-put g gap gaps)

any-known_grades :
    (g : Xid) (gaps : List CatalogGradeGap) (l : List CatalogParticipant)
    → any (is_gap g) (known_grades gaps l) ≡ (any (is_gap g) gaps || any (has_grade g) l)
any-known_grades g gaps [] = ground arith
any-known_grades g gaps (p ∷ l) = elim (Bool-cases p.known_grade) [
  | inl e ↦ rw e (
      any-known_grades g (put gap_id (counted_gap p gaps) gaps) l
      ∙ (ap (λ b. b || any (has_grade g) l) (any-put g (counted_gap p gaps) gaps) ∙ ground arith))
  | inr e ↦ rw e (any-known_grades g gaps l)
]

any-keep :
    (g : Xid) (q : Xid → Bool) (l : List CatalogGradeGap)
    → any (is_gap g) (keep (λ gap. q (gap_id gap)) l) ≡ (q g && any (is_gap g) l)
any-keep g q [] = ground arith
any-keep g q (gap ∷ l) = ground (arith, any-keep g q l, eq_of_== gap.id g)

module _ {A : Type 0} (less : A → A → Bool) (p : A → Bool) where
  any-insert : (x : A) (l : List A) → any p (insert_sorted less x l) ≡ (p x || any p l)
  unfolding insert_sorted
  any-insert x [] = refl
  any-insert x (y ∷ l) = ground (arith, any-insert x l)

  any-sort : (l : List A) → any p (sort_slice less l) ≡ any p l
  unfolding sort_slice
  any-sort [] = refl
  any-sort (x ∷ l) = any-insert x (sort_slice less l) ∙ ap (λ b. p x || b) (any-sort l)

uncovered_grades-gap :
    (s : CatalogFeasibilitySnapshot) (g : Xid)
    → any (is_gap g) (uncovered_grades s)
      ≡ (not (is_admitted s g) && any (has_grade g) s.participants)
unfolding uncovered_grades
uncovered_grades-gap s g =
    let all = known_grades [] s.participants in
    any-sort (λ a b. ltb (gap_id a) (gap_id b)) (is_gap g)
      (keep (λ gap. not (is_admitted s (gap_id gap))) all)
    ∙ (any-keep g (λ k. not (is_admitted s k)) all
        ∙ ap (λ b. not (is_admitted s g) && b) (any-known_grades g [] s.participants))

-- The grade is in a warning.
abbrev pub lists_gap : Xid → CatalogFeasibility → Bool
lists_gap g f = any (λ (w : CatalogFeasibilityWarning). any (is_gap g) w.affected_grades) f.warnings

any-nothing :
    (g : Xid) (l : List CatalogGradeGap) → ltb 0 (length l) ≡ false → any (is_gap g) l ≡ false
any-nothing g [] h = refl
any-nothing g (gap ∷ l) h = absurd (ground arith)

evaluate-lists_gap :
    (s : CatalogFeasibilitySnapshot) (g : Xid)
    → lists_gap g (evaluate_catalog_feasibility s) ≡ any (is_gap g) (uncovered_grades s)
unfolding evaluate_catalog_feasibility
evaluate-lists_gap s g =
    let none_left = any-nothing g (uncovered_grades s) in
    ground (arith, any-append (λ (w : CatalogFeasibilityWarning). any (is_gap g) w.affected_grades))

admits-outside :
    (db : Db) (m : ProgramMembership) (g : Xid) (offerings : List Offering)
    → m.grade_level_id ≡ some g
    → any (admits db.grade_levels g) offerings ≡ any (λ o. not (outside_window db m o)) offerings
admits-outside db m g [] h = refl
admits-outside db m g (o ∷ offerings) h =
    rw (h, sym (admits-outside db m g offerings h)) (ground arith)

-- A grade of somebody who takes part is listed as a gap of the catalog exactly if the grade window of
-- the manual editor keeps them out of every offering, where all these levels are known and the
-- identifier of the grade is not empty.
pub get_catalog_feasibility-outside_window :
    (areas : List InterestArea) (db : Db) (f : CatalogFeasibility)
    → get_catalog_feasibility areas db ≡ ok f
    → All (HasWindow db.grade_levels) db.offerings
    → (m : ProgramMembership) (g : Xid) → In m (participating db.non_participations db.memberships)
    → m.grade_level_id ≡ some g
    → has_level db.grade_levels g ≡ true
    → 1 ≤ g
    → lists_gap g f ≡ not (any (λ o. not (outside_window db m o)) db.offerings)
unfolding is_admitted
get_catalog_feasibility-outside_window areas db f h windows m g i graded there one =
    let members = participating db.non_participations db.memberships in
    let s = live_snapshot db areas members in
    let known = participant-has_grade db.grade_levels members m g i graded there in
    let admitted =
      grade_admitted-admits s g db.offerings one (participants-IsLive db.grade_levels members)
        (any-has_id g s.participants known) windows
      ∙ admits-outside db m g db.offerings graded in
    let listed =
      ap (lists_gap g) (live-eq areas db f h)
      ∙ (evaluate-lists_gap s g ∙ uncovered_grades-gap s g) in
    listed ∙ rw (admitted, known) (ground arith)
