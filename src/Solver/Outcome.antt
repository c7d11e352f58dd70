-- ===== src/Solver/Outcome.antt =====
-- What a run does to the session, to the draft and to the record of runs.
use miniclass.Base.{
  ◌↔◌, ◌⊎◌, true, none, Option, ℕ, suc, ◌≡◌, ◌≢◌, refl, sym, ap, ◌∙◌, subst, false, ◌∷◌, some, map,
  Xid, arith,
}
use miniclass.Base.Int.{ℤ}
use miniclass.Session.{Session}
use miniclass.Store.Rows.{
  Actor, SolverStatus, ApplicationStatus, applied, superseded, not_applicable, SolveRun, Db,
}
use miniclass.Store.Tx.{Error, Result, ok, err, TxState, pure, begin_tx, stored, record_audit}
use miniclass.Store.Audit.{entries, record_audit-eq, record_audit-solve_runs}
use miniclass.Store.Steps.{bind_rule, found_rule, pure_inj}
use miniclass.Store.Atomic.{in_tenant_commits}
use miniclass.Store.Queries.{get_session, get_session_for_update, advance_draft_revision}
use miniclass.Store.Replace.{replace_draft_assignments}
use miniclass.Store.Placements.{replace-Replaced}
use miniclass.Solver.Contract.{Request}
use miniclass.Solver.Response.{Response}
use miniclass.Solver.Start.{
  successful_status, StartInput, application_status, assignment_inputs, create_solve_run, apply_run,
  apply_if, run_entry, run_row, start_body, Prepared, prepare, start_prepared, start,
}

-- The revision after a run with the status.
abbrev pub next_revision : ApplicationStatus → ℕ → ℕ
next_revision applied n = suc n
next_revision _ n = n

-- Only a run that applies touches the session, and then its revision alone.
pub record RunOutcome (input : StartInput) (before after : Db) (run : SolveRun) : Type 0 where
  pub row : Session
  pub of_row : before.session ≡ some row
  pub status :
      run.application_status
      ≡ application_status run.solver_status input.draft_revision row.draft_revision
  pub applies : (run.application_status ≡ applied) ↔ (
      (successful_status run.solver_status ≡ true)
      × ((input.draft_revision ≡ none) ⊎ (input.draft_revision ≡ some row.draft_revision)))
  pub session :
      after.session
      ≡ some
          (record row { draft_revision = next_revision run.application_status row.draft_revision })
  pub kept : run.application_status ≢ applied → after.assignments ≡ before.assignments
  pub recorded : after.solve_runs ≡ run ∷ before.solve_runs
  pub logged : entries after ≡ stored (run_entry run.id) ∷ entries before

application_status-applied :
    (solver : SolverStatus) (expected : Option ℕ) (revision : ℕ)
    → (application_status solver expected revision ≡ applied)
      ↔ ((successful_status solver ≡ true) × ((expected ≡ none) ⊎ (expected ≡ some revision)))
unfolding application_status successful_status
application_status-applied solver expected revision = (λ e. ground arith, λ e. ground arith)

advance-eq :
    (expected revision : ℕ) (row : Session) (s s' : TxState)
    → s.db.session ≡ some row
    → advance_draft_revision expected s ≡ ok (revision, s')
    → (s'.db.session ≡ some (record row { draft_revision = suc row.draft_revision }))
      × (s'.db.solve_runs ≡ s.db.solve_runs)
      × (s'.db.audit_log ≡ s.db.audit_log)
unfolding advance_draft_revision
advance-eq expected revision row s s' of_row h = ground arith

-- The rows after the draft was replaced, or left alone.
record Applied (status : ApplicationStatus) (row : Session) (s s' : TxState) : Type 0 where
  session :
      s'.db.session ≡ some (record row { draft_revision = next_revision status row.draft_revision })
  kept : status ≢ applied → s'.db.assignments ≡ s.db.assignments
  same_runs : s'.db.solve_runs ≡ s.db.solve_runs
  same_log : s'.db.audit_log ≡ s.db.audit_log

apply_run-Applied :
    (request : Request) (run_id : Xid) (response : Response) (row : Session) (s s' : TxState)
    → s.db.session ≡ some row
    → apply_run request run_id response row.draft_revision s ≡ ok (tt, s')
    → Applied applied row s s'
unfolding apply_run
apply_run-Applied request run_id response row s s' of_row h =
    bind_rule (replace_draft_assignments (assignment_inputs request run_id response) s) _ h
      λ rows s1 e1 k1.
        bind_rule (advance_draft_revision row.draft_revision s1) _ k1 λ revision s2 e2 k2.
          let r = replace-Replaced _ s e1 in
          let (session, runs, log) =
            advance-eq row.draft_revision revision row s1 s2 (r.same_session ∙ of_row) e2 in
          let at = (pure_inj k2).1 in
          record {
            session = ap (λ u. u.db.session) at ∙ session;
            kept = λ e. absurd (e refl);
            same_runs = ap (λ u. u.db.solve_runs) at ∙ (runs ∙ r.same_runs);
            same_log = ap (λ u. u.db.audit_log) at ∙ (log ∙ r.same_log);
          }

left-Applied :
    (status : ApplicationStatus) (row : Session) (s s' : TxState)
    → s.db.session ≡ some (record row { draft_revision = next_revision status row.draft_revision })
    → pure tt s ≡ ok (tt, s')
    → Applied status row s s'
left-Applied status row s s' of_row h =
    let at = (pure_inj h).1 in
    record {
      session = ap (λ u. u.db.session) at ∙ of_row;
      kept = λ e. ap (λ u. u.db.assignments) at;
      same_runs = ap (λ u. u.db.solve_runs) at;
      same_log = ap (λ u. u.db.audit_log) at;
    }

apply_if-Applied :
    (status : ApplicationStatus) (request : Request) (run_id : Xid) (response : Response)
    (row : Session) (s s' : TxState)
    → s.db.session ≡ some row
    → apply_if status (apply_run request run_id response row.draft_revision) s ≡ ok (tt, s')
    → Applied status row s s'
apply_if-Applied applied request run_id response row s s' of_row h =
    apply_run-Applied request run_id response row s s' of_row h
apply_if-Applied superseded request run_id response row s s' of_row h =
    left-Applied superseded row s s' of_row h
apply_if-Applied not_applicable request run_id response row s s' of_row h =
    left-Applied not_applicable row s s' of_row h

pub create-eq :
    (mk : Xid → SolveRun) (run : SolveRun) (s s' : TxState)
    → create_solve_run mk s ≡ ok (run, s')
    → (run ≡ mk s.db.next_id)
      × (s'.db.session ≡ s.db.session)
      × (s'.db.assignments ≡ s.db.assignments)
      × (s'.db.solve_runs ≡ run ∷ s.db.solve_runs)
      × (s'.db.audit_log ≡ s.db.audit_log)
unfolding create_solve_run
create-eq mk run s s' h = ground arith

-- The four statements of the callback put together.
run-RunOutcome :
    (input : StartInput) (row : Session) (status : ApplicationStatus) (mk : Xid → SolveRun)
    (s s1 s2 s3 s' : TxState) (created run : SolveRun)
    → s.db.session ≡ some row
    → ((n : Xid)
        → ((mk n).application_status ≡ status)
          × (status
              ≡ application_status (mk n).solver_status input.draft_revision row.draft_revision))
    → (created ≡ mk s.db.next_id)
      × (s1.db.session ≡ s.db.session)
      × (s1.db.assignments ≡ s.db.assignments)
      × (s1.db.solve_runs ≡ created ∷ s.db.solve_runs)
      × (s1.db.audit_log ≡ s.db.audit_log)
    → (s1.db.session ≡ some row → Applied status row s1 s2)
    → record_audit (run_entry created.id) s2 ≡ ok (tt, s3)
    → (run ≡ created) × (s' ≡ s3)
    → RunOutcome input s.db s'.db run
run-RunOutcome input row status mk s s1 s2 s3 s' created run found of_mk created_eq applied_eq e3
      returned =
    let (made, session1, assignments1, runs1, log1) = created_eq in
    let a = applied_eq (session1 ∙ found) in
    let (session3, assignments3, log3) = record_audit-eq (run_entry created.id) s2 e3 in
    let (same, at) = returned in
    let of_run = of_mk s.db.next_id in
    let made_run = same ∙ made in
    let has_status = ap (λ r. r.application_status) made_run ∙ of_run.0 in
    let is_status =
      has_status
      ∙ (of_run.1
          ∙ ap (λ r. application_status r.solver_status input.draft_revision row.draft_revision)
              (sym made_run)) in
    record {
      row = row;
      of_row = found;
      applies =
          subst
            (λ v. (v ≡ applied) ↔ (
              (successful_status run.solver_status ≡ true)
              × ((input.draft_revision ≡ none) ⊎ (input.draft_revision ≡ some row.draft_revision))))
            (sym is_status)
            (application_status-applied run.solver_status input.draft_revision row.draft_revision);
      status =
          has_status
          ∙ (of_run.1
              ∙ ap (λ r. application_status r.solver_status input.draft_revision row.draft_revision)
                  (sym made_run));
      session =
          ap (λ u. u.db.session) at
          ∙ (session3
              ∙ (a.session
                  ∙ ap
                      (λ v.
                        some (record row { draft_revision = next_revision v row.draft_revision }))
                      (sym has_status)));
      kept = λ e.
          ap (λ u. u.db.assignments) at
          ∙ (assignments3 ∙ (a.kept (λ f. e (has_status ∙ f)) ∙ assignments1));
      recorded =
          ap (λ u. u.db.solve_runs) at
          ∙ (record_audit-solve_runs (run_entry created.id) s2 e3
              ∙ (a.same_runs ∙ (runs1 ∙ ap (λ r. r ∷ s.db.solve_runs) (sym same))));
      logged =
          ap (λ u. entries u.db) at
          ∙ (log3
              ∙ (ap (λ l. stored (run_entry created.id) ∷ map (λ x. x.entry) l) (a.same_log ∙ log1)
                  ∙ ap (λ r. stored (run_entry r.id) ∷ entries s.db) (sym same)));
    }

start_body-RunOutcome :
    (input : StartInput) (request : Request) (fingerprint : ℕ) (response : Response)
    (s s' : TxState) (run : SolveRun)
    → start_body input request fingerprint response s ≡ ok (run, s')
    → RunOutcome input s.db s'.db run
unfolding start_body get_session_for_update get_session
start_body-RunOutcome input request fingerprint response s s' run h =
    found_rule s.db.session Error.no_rows s _ h λ row found k1.
      let status = application_status response.status input.draft_revision row.draft_revision in
      let mk = run_row input request fingerprint response status in
      bind_rule (create_solve_run mk s) _ k1 λ created s1 e1 k2.
        bind_rule (apply_if status (apply_run request created.id response row.draft_revision) s1) _
          k2
          λ _ s2 e2 k3. bind_rule (record_audit (run_entry created.id) s2) _ k3 λ _ s3 e3 k4.
            run-RunOutcome input row status mk s s1 s2 s3 s' created run found (λ n. (refl, refl))
              (create-eq mk created s s1 e1)
              (λ of_row. apply_if-Applied status request created.id response row s1 s2 of_row e2) e3
              (pure_inj k4)

module _ (solve : Request → Result Response) (digest : Request → ℕ) (drawn : ℤ) where
  -- A run that succeeds is recorded and logged. It applies exactly when the sidecar was successful and
  -- the draft is at the revision of the snapshot, if the input names one; it then adds one to the
  -- revision, and otherwise leaves the session and the draft as they were.
  pub start-RunOutcome :
      (actor : Actor) (input : StartInput) (db : Db) (run : SolveRun)
      → (start solve digest drawn actor input db).0 ≡ ok run
      → RunOutcome input db (start solve digest drawn actor input db).1 run
  unfolding start
  start-RunOutcome actor input db run h = go (prepare solve digest drawn input) h
    where
      go :
          (p : Result Prepared)
          → (start_prepared solve digest drawn actor input p db).0 ≡ ok run
          → RunOutcome input db (start_prepared solve digest drawn actor input p db).1 run
      go (err e) k = absurd (ground arith)
      go (ok (request, (fingerprint, response))) k =
          let (s, ran, ends, _, _) =
            in_tenant_commits actor (start_body input request fingerprint response) db run k in
          subst (λ after. RunOutcome input db after run) (sym ends)
            (start_body-RunOutcome input request fingerprint response (begin_tx db actor false) s
              run ran)
