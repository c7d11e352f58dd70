-- ===== src/Assignment/Outcome.antt =====
-- What every manual operation that succeeds does to the session and to the log.
use miniclass.Base.{
  ℕ, suc, ◌==◌, ◌≡◌, ◌≢◌, refl, sym, ap, ◌∙◌, subst, Bool, true, false, not, List, [], ◌∷◌, Option,
  none, some, if◌then◌else◌, Xid, arith, Bool-cases, inl, inr, ◌⊎◌, any, eq_of_==,
}
use miniclass.Session.{Session}
use miniclass.Store.Rows.{Assignment, Actor, Db}
use miniclass.Store.Tx.{
  Error, draft_revision_conflict, Result, ok, err, TxState, begin_tx, stored, in_tenant,
  record_audit, Tx, pure, no_audit_required, validate_actor,
}
use miniclass.Store.Steps.{bind_rule, found_rule, guard_rule, pure_inj}
use miniclass.Store.Atomic.{in_tenant_commits}
use miniclass.Store.Replace.{assignment_of, replace_draft_assignments}
use miniclass.Store.Placements.{replace-Replaced}
use miniclass.Store.Queries.{
  advance_or_conflict, get_session_for_update, get_session, list_assignments, update_assignment_pin,
  delete_assignment_overrides,
}
use miniclass.Store.Audit.{record_audit-eq, entries}
use miniclass.Assignment.Operations.{
  AssignmentOperationInput, AssignmentOperationResult, Change, moves, swap, change_assignments,
  change_assignments_body, move_assignment, swap_assignments, remove_assignments, remove_body,
  remove_matching, remove_none, remove_assignment, remove_unpinned_assignments, set_pin_body,
  set_assignment_pin, manual_entry,
}
use miniclass.Assignment.Runs.{change_body-ChangeRun, advance-eq-ok}
use miniclass.Assignment.Frames.{write_overrides-SameDraft}
use miniclass.Assignment.Revision.{
  ManualOperation, move, exchange, remove, remove_unpinned, set_pin, run_manual, is_proper,
  run_manual-conflict,
}

-- The session goes up by one revision and one entry is logged, or nothing changes.
pub record Outcome (input : AssignmentOperationInput) (before after : Db) (revision : ℕ)
    : Type 0 where
  pub row : Session
  pub found : before.session ≡ some row
  pub current : row.draft_revision ≡ input.expected_revision
  pub outcome :
      ((revision ≡ suc input.expected_revision)
        × (after.session ≡ some (record row { draft_revision = revision }))
        × ((object : Option Xid) × (entries after
              ≡ stored (manual_entry object input.reason) ∷ entries before)))
      ⊎ ((revision ≡ input.expected_revision) × (after ≡ before))

err-ok : {A : Type 0} {e : Error} {a : A} → ◌≡◌ {A = Result A} (err e) (ok a) → ⊥
err-ok h = cc

change-Outcome :
    (input : AssignmentOperationInput) (change : Change) (s : TxState)
    (result : AssignmentOperationResult) (s' : TxState)
    → change_assignments_body input change s ≡ ok (result, s')
    → Outcome input s.db s'.db result.draft_revision
change-Outcome input change s result s' h =
    let run = change_body-ChangeRun input change s result s' h in
    let r = replace-Replaced _ run.advanced run.replaces in
    let (session, _, log) = record_audit-eq _ run.overridden run.recorded in
    let kept = write_overrides-SameDraft _ _ _ _ run.replaced run.overrides in
    record {
      row = run.row;
      found = run.found;
      current = run.current;
      outcome = inl (
        ap (λ x. x.draft_revision) run.returned,
        rw (
          run.ends, session, kept.same_session, r.same_session, run.advances, run.returned,
          run.current,
        ),
        (none, rw (run.ends, log, kept.same_log, r.same_log, run.advances)),
      );
    }

matching-Outcome :
    (input : AssignmentOperationInput) (rows : List Assignment) (s : TxState)
    (result : AssignmentOperationResult) (s' : TxState)
    → remove_matching input rows s ≡ ok (result, s')
    → Outcome input s.db s'.db result.draft_revision
unfolding remove_matching
matching-Outcome input rows s result s' h =
    bind_rule (advance_or_conflict input.expected_revision s) _ h λ revision s1 e1 k1.
      bind_rule (replace_draft_assignments _ s1) _ k1 λ updated s2 e2 k2.
        bind_rule (record_audit (manual_entry (some input.session_id) input.reason) s2) _ k2
          λ _ s3 e3 k3.
            let (row, found, current, next, at) =
              advance-eq-ok input.expected_revision revision s s1 e1 in
            let r = replace-Replaced _ s1 e2 in
            let (session, _, log) = record_audit-eq _ s2 e3 in
            let (same, at3) = pure_inj k3 in
            record {
              row = row;
              found = found;
              current = current;
              outcome = inl (
                ap (λ x. x.draft_revision) same ∙ next,
                rw (at3, session, r.same_session, at, same, next, current),
                (some input.session_id, rw (at3, log, r.same_log, at)),
              );
            }

remove-Outcome :
    (input : AssignmentOperationInput) (p : Assignment → Bool) (s : TxState)
    (result : AssignmentOperationResult) (s' : TxState)
    → remove_body input p s ≡ ok (result, s')
    → Outcome input s.db s'.db result.draft_revision
unfolding remove_body get_session_for_update get_session list_assignments remove_none
    no_audit_required
remove-Outcome input p s result s' h = found_rule s.db.session _ s _ h λ row found k1.
    guard_rule (row.draft_revision == input.expected_revision) _ s _ k1 λ current k2.
      elim (Bool-cases (any p s.db.assignments)) [
        | inl e ↦ matching-Outcome input _ s result s' (rw e at k2)
        | inr e ↦
            let (same, at) = pure_inj (rw e at k2) in
            record {
              row = row;
              found = found;
              current = eq_of_== _ _ current;
              outcome =
                  inr (ap (λ x. x.draft_revision) same ∙ eq_of_== _ _ current, ap (λ x. x.db) at);
            }
      ]

-- Unpinning deletes the overrides of the row, and nothing of the session or of the log.
unpin-same :
    (b : Bool) (a : Assignment) (s s' : TxState)
    → (if b then pure tt else delete_assignment_overrides a) s ≡ ok (tt, s')
    → (s'.db.session ≡ s.db.session) × (entries s'.db ≡ entries s.db)
unfolding delete_assignment_overrides
unpin-same true a s s' h = rw (pure_inj h).1 (refl, refl)
unpin-same false a s s' h = ground arith

update_pin-same :
    (a updated : Assignment) (b : Bool) (s s' : TxState)
    → update_assignment_pin a b s ≡ ok (updated, s')
    → (s'.db.session ≡ s.db.session) × (entries s'.db ≡ entries s.db)
unfolding update_assignment_pin
update_pin-same a updated b s s' h = ground arith

pin-Outcome :
    (input : AssignmentOperationInput) (x : Xid) (b : Bool) (s : TxState)
    (result : AssignmentOperationResult) (s' : TxState)
    → set_pin_body input x b s ≡ ok (result, s')
    → Outcome input s.db s'.db result.draft_revision
unfolding set_pin_body list_assignments
pin-Outcome input x b s result s' h =
    bind_rule (advance_or_conflict input.expected_revision s) _ h λ revision s1 e1 k1.
      found_rule (assignment_of x s1.db.assignments) _ s1 _ k1 λ a e2 k2.
        bind_rule (update_assignment_pin a b s1) _ k2 λ updated s2 e3 k3.
          bind_rule ((if b then pure tt else delete_assignment_overrides a) s2) _ k3 λ _ s3 e4 k4.
            bind_rule (record_audit (manual_entry (some updated.id) input.reason) s3) _ k4
              λ _ s4 e5 k5.
                let (row, found, current, next, at) =
                  advance-eq-ok input.expected_revision revision s s1 e1 in
                let (pinned, pinned_log) = update_pin-same a updated b s1 s2 e3 in
                let (unpinned, unpinned_log) = unpin-same b a s2 s3 e4 in
                let (session, _, log) = record_audit-eq _ s3 e5 in
                let (same, at4) = pure_inj k5 in
                record {
                  row = row;
                  found = found;
                  current = current;
                  outcome = inl (
                    ap (λ x. x.draft_revision) same,
                    rw (at4, session, unpinned, pinned, at, same, current),
                    (some updated.id, rw (at4, log, unpinned_log, pinned_log, at)),
                  );
                }

tenant-Outcome :
    (actor : Actor) (input : AssignmentOperationInput) (fn : Tx AssignmentOperationResult) (db : Db)
    (result : AssignmentOperationResult)
    → ((s s' : TxState) → fn s ≡ ok (result, s') → Outcome input s.db s'.db result.draft_revision)
    → (in_tenant actor fn db).0 ≡ ok result
    → Outcome input db (in_tenant actor fn db).1 result.draft_revision
tenant-Outcome actor input fn db result each h =
    let (s, ran, ends, _, _) = in_tenant_commits actor fn db result h in
    subst (λ after. Outcome input db after result.draft_revision) (sym ends)
      (each (begin_tx db actor false) s ran)

-- An operation of the editor that succeeds found the session at the revision that it expected. It
-- leaves the session as it was but for a revision that is one higher, which it returns, and adds one
-- entry with the reason to the log; or it had nothing to do, and changed nothing.
pub run_manual-Outcome :
    (actor : Actor) (input : AssignmentOperationInput) (op : ManualOperation) (db : Db)
    (result : AssignmentOperationResult)
    → (run_manual actor input op db).0 ≡ ok result
    → Outcome input db (run_manual actor input op db).1 result.draft_revision
unfolding run_manual move_assignment swap_assignments remove_assignment remove_unpinned_assignments
    set_assignment_pin change_assignments remove_assignments
run_manual-Outcome actor input (move x o) db result h =
    tenant-Outcome actor input _ db result
      (λ s s'. change-Outcome input (moves ((x, o) ∷ [])) s result s') h
run_manual-Outcome actor input (exchange x y) db result h = elim (Bool-cases (x == y)) [
  | inl same ↦ absurd (err-ok (rw same at h))
  | inr differ ↦ rw differ (
      tenant-Outcome actor input _ db result (λ s s'. change-Outcome input (swap x y) s result s')
        (rw differ at h))
]
run_manual-Outcome actor input (remove x) db result h =
    tenant-Outcome actor input _ db result
      (λ s s'. remove-Outcome input (λ r. r.student_id == x) s result s') h
run_manual-Outcome actor input remove_unpinned db result h =
    tenant-Outcome actor input _ db result
      (λ s s'. remove-Outcome input (λ r. not r.pinned) s result s') h
run_manual-Outcome actor input (set_pin x b) db result h =
    tenant-Outcome actor input _ db result (λ s s'. pin-Outcome input x b s result s') h

-- Of two operations that expect the same revision only one changes the draft: after a first one that
-- did, the second is refused as a conflict, and changes nothing, whatever the two operations are.
pub run_manual-exclusive :
    (first second : Actor) (input input' : AssignmentOperationInput) (op op' : ManualOperation)
    (db : Db) (result : AssignmentOperationResult)
    → (run_manual first input op db).0 ≡ ok result
    → result.draft_revision ≢ input.expected_revision
    → input'.expected_revision ≡ input.expected_revision
    → validate_actor second ≡ true
    → is_proper op' ≡ true
    → run_manual second input' op' (run_manual first input op db).1
      ≡ (err draft_revision_conflict, (run_manual first input op db).1)
run_manual-exclusive first second input input' op op' db result h moved same valid proper =
    let o = run_manual-Outcome first input op db result h in go o.row o.outcome
  where
    go :
        (row : Session)
        → ((result.draft_revision ≡ suc input.expected_revision)
            × ((run_manual first input op db).1.session
                ≡ some (record row { draft_revision = result.draft_revision }))
            × ((object : Option Xid) × (entries (run_manual first input op db).1
                  ≡ stored (manual_entry object input.reason) ∷ entries db)))
          ⊎ ((result.draft_revision ≡ input.expected_revision)
              × ((run_manual first input op db).1 ≡ db))
        → run_manual second input' op' (run_manual first input op db).1
          ≡ (err draft_revision_conflict, (run_manual first input op db).1)
    go row (inl (_, session, _)) =
        run_manual-conflict second input' op' _
          (record row { draft_revision = result.draft_revision }) valid proper session
          (λ e. moved (e ∙ same))
    go row (inr (e, _)) = absurd (moved e)
