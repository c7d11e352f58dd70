-- ===== src/Staleness.antt =====
-- The life of a session under what writes its state, its stale mark and its draft: transitions
-- (backend/internal/program/session_lifecycle.go), the manual operations
-- (backend/internal/program/assignment_operations.go) and the runs of the solver
-- (backend/internal/solver/service.go).
mod Tests
use miniclass.Base.{
  ℕ, ◌==◌, ◌≡◌, ◌≢◌, refl, sym, ap, ◌∙◌, subst, suc, List, ◌∷◌, Bool, true, false, not, ◌&&◌, ◌||◌,
  Xid, Option, none, some, ◌⊎◌, inl, inr, Time, arith,
}
use miniclass.Base.Int.{ℤ}
use miniclass.Session.{
  Session, SessionState, assigning, voting_closed, published, complete, eq_state,
}
use miniclass.Session.Lifecycle.{is_legal_session_transition, legal_session_transitions}
use miniclass.Session.Transition.{
  SessionTransitionInput, SessionTransitionResult, transition_session,
}
use miniclass.Session.Moves.{Allowed, Moved}
use miniclass.Session.Outcome.{Previewed, transition_session-outcome}
use miniclass.Store.Rows.{Actor, Db, SolveRun}
use miniclass.Store.Tx.{Result, ok, stored}
use miniclass.Store.Audit.{entries}
use miniclass.Assignment.Operations.{
  AssignmentOperationInput, AssignmentOperationResult, manual_entry,
}
use miniclass.Assignment.Revision.{ManualOperation, run_manual}
use miniclass.Assignment.Outcome.{Outcome, run_manual-Outcome}
use miniclass.Solver.Contract.{Request}
use miniclass.Solver.Response.{Response}
use miniclass.Solver.Start.{StartInput, start}
use miniclass.Solver.Outcome.{RunOutcome, start-RunOutcome}

-- One operation that succeeds; one that fails changes nothing. The sidecar may answer anything.
pub data Step : Db → Db → Type 0 where
  transitioned :
      (actor : Actor) (now : Time) (input : SessionTransitionInput) (db : Db)
      (result : SessionTransitionResult)
      → (transition_session actor now input db).0 ≡ ok result
      → Step db (transition_session actor now input db).1
  edited :
      (actor : Actor) (input : AssignmentOperationInput) (op : ManualOperation) (db : Db)
      (result : AssignmentOperationResult)
      → (run_manual actor input op db).0 ≡ ok result
      → Step db (run_manual actor input op db).1
  solved :
      (solve : Request → Result Response) (digest : Request → ℕ) (drawn : ℤ) (actor : Actor)
      (input : StartInput) (db : Db) (run : SolveRun)
      → (start solve digest drawn actor input db).0 ≡ ok run
      → Step db (start solve digest drawn actor input db).1

pub data Reach : Db → Db → Type 0 where
  here : (db : Db) → Reach db db
  then : (db mid after : Db) → Step db mid → Reach mid after → Reach db after

-- The draft is stale, and the session is not visible to families.
pub record StaleDraft (db : Db) : Type 0 where
  pub row : Session
  pub of_row : db.session ≡ some row
  pub stale : row.draft_assignments_stale ≡ true
  pub not_published : row.state ≢ published
  pub not_complete : row.state ≢ complete

moved-state :
    (from to : SessionState)
    → is_legal_session_transition from to ≡ true
    → from ≢ published
    → from ≢ complete
    → (from ≡ assigning → to ≡ published → ⊥)
    → (to ≢ published) × (to ≢ complete)
unfolding is_legal_session_transition legal_session_transitions
moved-state from to legal p c gate = (λ e. ground arith, λ e. ground arith)

Moved-StaleDraft :
    {now : Time} {input : SessionTransitionInput} {before after : Db}
    {result : SessionTransitionResult}
    → StaleDraft before
    → Moved now input before after result
    → StaleDraft after
Moved-StaleDraft {input} s m =
    let same : s.row ≡ m.row = ground (arith, s.of_row, m.of_row) in
    let stale = ap (λ r. r.draft_assignments_stale) (sym same) ∙ s.stale in
    let (not_published, not_complete) =
      moved-state m.row.state input.next_state m.allowed.legal
        (λ e. s.not_published (ap (λ r. r.state) same ∙ e))
        (λ e. s.not_complete (ap (λ r. r.state) same ∙ e))
        (λ e f. ground (arith, m.allowed.fresh e f, stale)) in
    record {
      row = _;
      of_row = ap (λ d. d.session) m.same_rest;
      stale = ap (λ r. r.draft_assignments_stale) m.returned ∙ rw stale;
      not_published = λ e. not_published (sym (ap (λ r. r.state) m.returned) ∙ e);
      not_complete = λ e. not_complete (sym (ap (λ r. r.state) m.returned) ∙ e);
    }

-- A session that keeps its state and its mark.
kept-StaleDraft :
    (before after : Db) (s : StaleDraft before) (row row' : Session)
    → before.session ≡ some row
    → after.session ≡ some row'
    → row'.state ≡ row.state
    → row'.draft_assignments_stale ≡ row.draft_assignments_stale
    → StaleDraft after
kept-StaleDraft before after s row row' of_row of_row' state stale =
    let same : s.row ≡ row = ground (arith, s.of_row) in
    record {
      row = row';
      of_row = of_row';
      stale = stale ∙ (ap (λ r. r.draft_assignments_stale) (sym same) ∙ s.stale);
      not_published = λ e. s.not_published (ap (λ r. r.state) same ∙ (sym state ∙ e));
      not_complete = λ e. s.not_complete (ap (λ r. r.state) same ∙ (sym state ∙ e));
    }

edited-StaleDraft :
    {input : AssignmentOperationInput} {before after : Db} {revision : ℕ}
    → StaleDraft before
    → Outcome input before after revision
    → StaleDraft after
edited-StaleDraft {input} {before} {after} {revision} s o = go o.outcome
  where
    go :
        ((revision ≡ suc input.expected_revision)
            × (after.session ≡ some (record (o.row) { draft_revision = revision }))
            × ((object : Option Xid) × (entries after
                  ≡ stored (manual_entry object input.reason) ∷ entries before)))
          ⊎ ((revision ≡ input.expected_revision) × (after ≡ before))
        → StaleDraft after
    go (inl (_, session, _)) = kept-StaleDraft before after s o.row _ o.found session refl refl
    go (inr (_, same)) = subst StaleDraft (sym same) s

Step-StaleDraft : {before after : Db} → StaleDraft before → Step before after → StaleDraft after
Step-StaleDraft s (transitioned actor now input db result h) =
    go (transition_session-outcome actor now input db result h)
  where
    go :
        (Moved now input db (transition_session actor now input db).1 result
            × (result.applied ≡ true))
          ⊎ (Previewed now input db result × ((transition_session actor now input db).1 ≡ db))
        → StaleDraft (transition_session actor now input db).1
    go (inl (m, _)) = Moved-StaleDraft s m
    go (inr (_, same)) = subst StaleDraft (sym same) s
Step-StaleDraft s (edited actor input op db result h) =
    edited-StaleDraft s (run_manual-Outcome actor input op db result h)
Step-StaleDraft s (solved solve digest drawn actor input db run h) =
    let o = start-RunOutcome solve digest drawn actor input db run h in
    kept-StaleDraft db _ s o.row _ o.of_row o.session refl refl

-- Once the draft of a session that is not yet published is marked stale, no sequence of transitions,
-- manual operations and runs of the solver clears the mark, nor ever brings the session to published
-- or to complete, whatever the sidecar answers.
pub stale_never_published :
    (before after : Db) → StaleDraft before → Reach before after → StaleDraft after
stale_never_published before after s (here db) = s
stale_never_published before after s (then db mid last step rest) =
    stale_never_published mid last (Step-StaleDraft s step) rest

Moved-StaleDraft_back :
    {now : Time} {input : SessionTransitionInput} {before after : Db}
    {result : SessionTransitionResult} (row : Session)
    → before.session ≡ some row
    → ((row.state ≡ assigning) × (input.next_state ≡ voting_closed))
      ⊎ ((row.state ≡ published) × (input.next_state ≡ assigning))
    → Moved now input before after result
    → StaleDraft after
Moved-StaleDraft_back {input} {result} row of_row back m =
    let same : m.row ≡ row = ground (arith, of_row, m.of_row) in
    let state = ap (λ r. r.state) same in
    let backward : m.plan.backward ≡ true = ground (arith, m.allowed.is_backward, state, back) in
    let marked : m.plan.mark_draft_assignments_stale ≡ true =
      m.allowed.is_marked backward (ground (arith, state, back)) in
    record {
      row = result.session;
      of_row = ap (λ d. d.session) m.same_rest;
      stale = ap (λ r. r.draft_assignments_stale) m.returned ∙ ground (arith, marked);
      not_published = λ e. ground (arith, ap (λ r. r.state) m.returned, back);
      not_complete = λ e. ground (arith, ap (λ r. r.state) m.returned, back);
    }

-- A move back from assigning or from published that is applied leaves the draft stale and the session
-- not published.
pub backward-StaleDraft :
    (actor : Actor) (now : Time) (input : SessionTransitionInput) (db : Db) (row : Session)
    (result : SessionTransitionResult)
    → db.session ≡ some row
    → ((row.state ≡ assigning) × (input.next_state ≡ voting_closed))
      ⊎ ((row.state ≡ published) × (input.next_state ≡ assigning))
    → (transition_session actor now input db).0 ≡ ok result
    → result.applied ≡ true
    → StaleDraft (transition_session actor now input db).1
backward-StaleDraft actor now input db row result of_row back h applied =
    go (transition_session-outcome actor now input db result h)
  where
    go :
        (Moved now input db (transition_session actor now input db).1 result
            × (result.applied ≡ true))
          ⊎ (Previewed now input db result × ((transition_session actor now input db).1 ≡ db))
        → StaleDraft (transition_session actor now input db).1
    go (inl (m, _)) = Moved-StaleDraft_back row of_row back m
    go (inr (p, _)) = absurd (ground (arith, p.not_applied))
