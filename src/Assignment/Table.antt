-- ===== src/Assignment/Table.antt =====
-- The table of assignments after a manual operation is the list that the operation returns.
use miniclass.Base.{
  ◌==◌, ◌≡◌, ◌≢◌, refl, sym, ap, ◌∙◌, subst, true, false, ◌&&◌, List, [], ◌∷◌, Option, none, some,
  Xid, arith, All, map, Bool-cases, inl, inr,
}
use miniclass.Base.Int.{ℤ}
use miniclass.Base.Keyed.{IsSorted}
use miniclass.Base.Keyed.Ext.{get_ext}
use miniclass.Store.Rows.{Assignment, Quality, unset, SessionResultAnswer, Actor, Db}
use miniclass.Store.Tx.{ok, TxState, begin_tx}
use miniclass.Store.Atomic.{in_tenant_commits}
use miniclass.Store.Replace.{student}
use miniclass.Store.Placements.{content, replace-Replaced}
use miniclass.Preference.Offering.{
  derive_offering_preference, answered_preference, blank_preference, ranked_quality, preference_of,
  unknown_offering_preference, is_interest_rating,
}
use miniclass.Store.Audit.{record_audit-eq}
use miniclass.Assignment.Inputs.{
  assignment_map, assignment_inputs, assignment_input, realized, expected_quality, quality_from,
}
use miniclass.Assignment.Rules.{placed_in}
use miniclass.Assignment.Operations.{
  AssignmentOperationInput, AssignmentOperationResult, Change, apply_moves, effective_high_rank_max,
  change_assignments, change_assignments_body,
}
use miniclass.Assignment.Runs.{ChangeRun, change_body-ChangeRun}
use miniclass.Assignment.Frames.{
  write_overrides-SameDraft, map-IsSorted, apply_moves-IsSorted, written-IsSorted,
}
use miniclass.Assignment.Placement.{IsDraft}

-- An answer always gives a quality.
answer_quality-set :
    (a : SessionResultAnswer) (bound : ℤ)
    → (derive_offering_preference true (some a) none false bound).potential_quality ≢ unset
unfolding derive_offering_preference answered_preference blank_preference ranked_quality
    preference_of unknown_offering_preference is_interest_rating
answer_quality-set a bound h = ground arith

quality_from-set :
    (found : Option Quality) (bound : ℤ) (k o : Xid) (answers : List SessionResultAnswer)
    → found ≢ some unset
    → quality_from found bound k o answers ≢ some unset
unfolding quality_from
quality_from-set found bound k o [] h = h
quality_from-set found bound k o (a ∷ answers) h =
    elim (Bool-cases (a.student_id == k && a.offering_id == o)) [
      | inl e ↦ rw e (
          quality_from-set
            (some (derive_offering_preference true (some a) none false bound).potential_quality)
            bound k o answers (λ e. answer_quality-set a bound (some-inj e)))
      | inr e ↦ rw e (quality_from-set found bound k o answers h)
    ]
  where
    some-inj : {p q : Quality} → some p ≡ some q → p ≡ q
    some-inj e = cc

expected_quality-set :
    (answers : List SessionResultAnswer) (bound : ℤ) (k o : Xid)
    → expected_quality answers bound k o ≢ unset
unfolding expected_quality
expected_quality-set answers bound k o h =
    ground (arith, quality_from-set none bound k o answers (λ e. none-some e))
  where
    none-some : {p : Quality} → none ≡ some p → ⊥
    none-some e = cc

realized-set :
    (answers : List SessionResultAnswer) (bound : ℤ) (row : Assignment)
    → realized answers bound row ≢ unset
unfolding realized
realized-set answers bound row h =
    ground (arith, expected_quality-set answers bound row.student_id row.offering_id)

-- Rows written from inputs: each with a quality, and as many in every offering.
module _ (answers : List SessionResultAnswer) (bound : ℤ) where
  written-recorded :
      (rows final : List Assignment)
      → map content rows ≡ assignment_inputs final answers bound
      → All (λ row. row.realized_quality ≢ unset) rows
  unfolding assignment_inputs assignment_input
  written-recorded [] final h = tt
  written-recorded (row ∷ rows) [] h = absurd (ground arith)
  written-recorded (row ∷ rows) (f ∷ final) h =
      (λ e. realized-set answers bound f (ground arith), written-recorded rows final (ground arith))

  pub written-placed_in :
      (o : Xid) (rows final : List Assignment)
      → map content rows ≡ assignment_inputs final answers bound
      → placed_in o rows ≡ placed_in o final
  unfolding assignment_inputs assignment_input
  written-placed_in o [] [] h = refl
  written-placed_in o [] (f ∷ final) h = absurd (ground arith)
  written-placed_in o (row ∷ rows) [] h = absurd (ground arith)
  written-placed_in o (row ∷ rows) (f ∷ final) h = ground (arith, written-placed_in o rows final)

module _ {s s' : TxState} {input : AssignmentOperationInput} {change : Change}
    {result : AssignmentOperationResult} (d : IsDraft s.db)
    (run : ChangeRun input change s result s') where
  updated-IsSorted : IsSorted student run.updated
  updated-IsSorted =
      written-IsSorted run.advanced.db.answers (effective_high_rank_max run.advanced.db) run.updated
        (apply_moves run.l (assignment_map run.advanced.db.assignments))
        (replace-Replaced _ run.advanced run.replaces).written
        (apply_moves-IsSorted run.l _ (map-IsSorted run.advanced.db.assignments))

  pub table-updated : s'.db.assignments ≡ run.updated
  table-updated =
      let r = replace-Replaced _ run.advanced run.replaces in
      let (_, same, _) = record_audit-eq _ run.overridden run.recorded in
      let kept = write_overrides-SameDraft _ _ _ _ run.replaced run.overrides in
      let sorted : IsSorted student run.replaced.db.assignments =
        r.sorted (subst (λ u. IsSorted student u.db.assignments) (sym run.advances) d.sorted) in
      ap (λ u. u.db.assignments) run.ends
      ∙ (same
          ∙ (kept.same_assignments
              ∙ get_ext student run.replaced.db.assignments run.updated sorted updated-IsSorted
                  (λ k. r.placed k updated-IsSorted)))

  pub run-IsDraft : IsDraft s'.db
  run-IsDraft = record {
    sorted = subst (IsSorted student) (sym table-updated) updated-IsSorted;
    recorded =
        subst (All (λ row. row.realized_quality ≢ unset)) (sym table-updated) (
          written-recorded _ _ run.updated _
            (replace-Replaced _ run.advanced run.replaces).written);
  }

-- A placement or an exchange that succeeds leaves a draft with one row for a student, in order and
-- each with a quality, and returns the very rows of the table.
pub change_assignments-IsDraft :
    (actor : Actor) (input : AssignmentOperationInput) (change : Change) (db : Db) (d : IsDraft db)
    (result : AssignmentOperationResult)
    → (change_assignments actor input change db).0 ≡ ok result
    → IsDraft (change_assignments actor input change db).1
      × ((change_assignments actor input change db).1.assignments ≡ result.assignments)
unfolding change_assignments
change_assignments-IsDraft actor input change db d result h =
    let (s, ran, ends, _, _) =
      in_tenant_commits actor (change_assignments_body input change) db result h in
    let run = change_body-ChangeRun input change (begin_tx db actor false) result s ran in
    (
      subst IsDraft (sym ends) (run-IsDraft d run),
      ap (λ u. u.assignments) ends
          ∙ (table-updated d run ∙ sym (ap (λ r. r.assignments) run.returned)),
    )
