-- ===== src/NonParticipation/Draft.antt =====
-- The manual operations keep the placed and the absent apart too.
use miniclass.Base.{
  ◌==◌, ◌≡◌, Bool, true, false, not, List, [], ◌∷◌, some, any, Xid, All, Bool-cases, inl, inr,
  if◌then◌else◌, arith,
}
use miniclass.Store.Rows.{Actor, Assignment, SessionNonParticipation, Db}
use miniclass.Store.Tx.{ok, TxState, pure, record_audit, begin_tx, found, no_audit_required}
use miniclass.Store.Steps.{bind_rule, found_rule, guard_rule, pure_inj}
use miniclass.Store.Atomic.{in_tenant_invariant}
use miniclass.Store.Queries.{
  get_session, get_session_for_update, advance_or_conflict, list_assignments, set_pinned,
  update_assignment_pin, delete_assignment_overrides,
}
use miniclass.Store.Replace.{assignment_of, replace_draft_assignments}
use miniclass.Assignment.Operations.{
  AssignmentOperationInput, AssignmentOperationResult, Change, moves, swap, change_assignments,
  change_assignments_body, move_assignment, swap_assignments, remove_assignment, remove_assignments,
  remove_unpinned_assignments, remove_body, remove_matching, remove_none, set_pin_body,
  set_assignment_pin, manual_entry,
}
use miniclass.Assignment.Runs.{change_body-ChangeRun, advance-eq-ok}
use miniclass.Assignment.Frames.{write_overrides-SameDraft}
use miniclass.Assignment.Revision.{
  ManualOperation, move, exchange, remove, remove_unpinned, set_pin, run_manual,
}
use miniclass.NonParticipation.Invariant.{
  TakesPart, NobodyAbsentPlaced, replace-NobodyAbsentPlaced, record-NobodyAbsentPlaced,
}

update_pin-eq :
    (row : Assignment) (pinned : Bool) (s : TxState) (updated : Assignment) (s' : TxState)
    → update_assignment_pin row pinned s ≡ ok (updated, s')
    → (s'.db.assignments ≡ set_pinned row.id pinned s.db.assignments)
      × (s'.db.non_participations ≡ s.db.non_participations)
unfolding update_assignment_pin
update_pin-eq row pinned s updated s' h = ground arith

unpin-eq :
    (pinned : Bool) (row : Assignment) (s s' : TxState)
    → (if pinned then pure tt else delete_assignment_overrides row) s ≡ ok (tt, s')
    → (s'.db.assignments ≡ s.db.assignments) × (s'.db.non_participations ≡ s.db.non_participations)
unfolding delete_assignment_overrides
unpin-eq true row s s' h = ground arith
unpin-eq false row s s' h = ground arith

module _ (actor : Actor) (input : AssignmentOperationInput) (db : Db)
    (before : NobodyAbsentPlaced db) where
  change-NobodyAbsentPlaced :
      (change : Change) → NobodyAbsentPlaced (change_assignments actor input change db).1
  unfolding change_assignments
  change-NobodyAbsentPlaced change =
      in_tenant_invariant NobodyAbsentPlaced actor (change_assignments_body input change) db before
        λ result s h.
          let run = change_body-ChangeRun input change (begin_tx db actor false) result s h in
          let kept =
            write_overrides-SameDraft run.l run.violations input.reason run.updated run.replaced
              run.overrides in
          let placed : NobodyAbsentPlaced run.replaced.db =
            replace-NobodyAbsentPlaced _ run.advanced run.updated run.replaced run.replaces
              (rw run.advances before) in
          rw run.ends (
            record-NobodyAbsentPlaced _ run.overridden run.last run.recorded
              (rw (kept.same_absent, kept.same_assignments) placed))

  matching-NobodyAbsentPlaced :
      (rows : List Assignment) (s : TxState) (result : AssignmentOperationResult) (s' : TxState)
      → remove_matching input rows s ≡ ok (result, s')
      → NobodyAbsentPlaced s.db
      → NobodyAbsentPlaced s'.db
  unfolding remove_matching
  matching-NobodyAbsentPlaced rows s result s' h held =
      bind_rule (advance_or_conflict input.expected_revision s) _ h λ revision s1 e1 k1.
        bind_rule (replace_draft_assignments _ s1) _ k1 λ updated s2 e2 k2.
          bind_rule (record_audit (manual_entry (some input.session_id) input.reason) s2) _ k2
            λ _ s3 e3 k3.
              let (row, found, current, next, at) =
                advance-eq-ok input.expected_revision revision s s1 e1 in
              rw (pure_inj k3).1 (
                record-NobodyAbsentPlaced _ s2 s3 e3
                  (replace-NobodyAbsentPlaced _ s1 updated s2 e2 (rw at held)))

  remove-NobodyAbsentPlaced :
      (p : Assignment → Bool) → NobodyAbsentPlaced (remove_assignments actor input p db).1
  unfolding remove_assignments remove_body get_session_for_update get_session list_assignments
      remove_none no_audit_required
  remove-NobodyAbsentPlaced p =
      in_tenant_invariant NobodyAbsentPlaced actor (remove_body input p) db before λ result s h.
        found_rule db.session _ (begin_tx db actor false) _ h λ row found k1.
          guard_rule (row.draft_revision == input.expected_revision) _ (begin_tx db actor false) _
            k1
            λ current k2. elim (Bool-cases (any p db.assignments)) [
              | inl e ↦
                  matching-NobodyAbsentPlaced _ (begin_tx db actor false) result s (rw e at k2)
                    before
              | inr e ↦ rw (pure_inj (rw e at k2)).1 before
            ]

  set_pinned-TakesPart :
      (rows : List SessionNonParticipation) (id : Xid) (pinned : Bool) (l : List Assignment)
      → All (TakesPart rows) l
      → All (TakesPart rows) (set_pinned id pinned l)
  set_pinned-TakesPart rows id pinned [] h = tt
  set_pinned-TakesPart rows id pinned (a ∷ l) h = elim (Bool-cases (a.id == id)) [
    | inl e ↦ rw e (h.0, set_pinned-TakesPart rows id pinned l h.1)
    | inr e ↦ rw e (h.0, set_pinned-TakesPart rows id pinned l h.1)
  ]

  pin-NobodyAbsentPlaced :
      (student : Xid) (pinned : Bool)
      → NobodyAbsentPlaced (set_assignment_pin actor input student pinned db).1
  unfolding set_assignment_pin set_pin_body list_assignments
  pin-NobodyAbsentPlaced student pinned =
      in_tenant_invariant NobodyAbsentPlaced actor (set_pin_body input student pinned) db before
        λ result s h.
          bind_rule (advance_or_conflict input.expected_revision (begin_tx db actor false)) _ h
            λ revision s1 e1 k1.
              found_rule (assignment_of student s1.db.assignments) _ s1 _ k1 λ row hit k2.
                bind_rule (update_assignment_pin row pinned s1) _ k2 λ updated s2 e2 k3.
                  bind_rule ((if pinned then pure tt else delete_assignment_overrides row) s2) _ k3
                    λ _ s3 e3 k4.
                      bind_rule (record_audit (manual_entry (some updated.id) input.reason) s3) _ k4
                        λ _ s4 e4 k5.
                          let (_, _, _, _, at) =
                            advance-eq-ok input.expected_revision revision (begin_tx db actor false)
                              s1 e1 in
                          let (rows, absent_rows) = update_pin-eq row pinned s1 updated s2 e2 in
                          let (rows', absent_rows') = unpin-eq pinned row s2 s3 e3 in
                          let (same, ends) = pure_inj k5 in
                          rw ends (
                            record-NobodyAbsentPlaced _ s3 s4 e4 (
                              rw (rows', absent_rows', rows, absent_rows, at)
                                (set_pinned-TakesPart db.non_participations row.id pinned
                                  db.assignments before)))

  -- Whatever a manual operation answers, everybody who is placed afterwards takes part.
  pub run_manual-NobodyAbsentPlaced :
      (op : ManualOperation) → NobodyAbsentPlaced (run_manual actor input op db).1
  unfolding run_manual move_assignment swap_assignments remove_assignment
      remove_unpinned_assignments
  run_manual-NobodyAbsentPlaced (move student offering) =
      change-NobodyAbsentPlaced (moves ((student, offering) ∷ []))
  run_manual-NobodyAbsentPlaced (exchange first second) = elim (Bool-cases (first == second)) [
    | inl e ↦ rw e before
    | inr e ↦ rw e (change-NobodyAbsentPlaced (swap first second))
  ]
  run_manual-NobodyAbsentPlaced (remove student) =
      remove-NobodyAbsentPlaced (λ row. row.student_id == student)
  run_manual-NobodyAbsentPlaced remove_unpinned = remove-NobodyAbsentPlaced (λ row. not row.pinned)
  run_manual-NobodyAbsentPlaced (set_pin student pinned) = pin-NobodyAbsentPlaced student pinned
