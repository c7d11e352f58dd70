-- ===== src/Session/Moves.antt =====
-- What `TransitionSession` does to the store, on every path that succeeds.
use miniclass.Base.{
  ℕ, ◌<◌, ◌≡◌, refl, ltb, Bool, true, false, ◌||◌, ◌∷◌, ◌⊎◌, Option, none, some, if◌then◌else◌,
  Time, arith, length,
}
use miniclass.Base.Text.{is_blank}
use miniclass.Session.{
  Session, SessionState, RankedChoiceConfiguration, catalog_published, voting_open, assigning,
  published,
}
use miniclass.Session.Lifecycle.{
  SessionTransitionPlan, PlanResult, planned, plan_session_transition, is_legal_session_transition,
  is_backward_session_transition,
}
use miniclass.Session.Graph.{stage}
use miniclass.Session.Transition.{
  SessionTransitionInput, SessionTransitionResult, plan_result, is_after, is_reopening,
  check_ranked_choice, session_transition_plan, reopened, transition_entry,
}
use miniclass.Store.Rows.{Db}
use miniclass.Store.Tx.{Result, ok, err, TxState, stored, lift}
use miniclass.Store.Audit.{entries}
use miniclass.Store.Steps.{lift_rule, pure_inj}
use miniclass.Store.Queries.{
  count_offerings, update_session_lifecycle, update_session_ranked_choice_deadline, with_deadline,
}

-- The conditions on a move, read off the session, the request and the clock.
pub record Allowed (now : Time) (offerings : ℕ) (row : Session) (input : SessionTransitionInput)
    (plan : SessionTransitionPlan) : Type 0 where
  pub legal : is_legal_session_transition row.state input.next_state ≡ true
  pub is_backward : plan.backward ≡ ltb (stage input.next_state) (stage row.state)
  pub marks :
      plan.mark_draft_assignments_stale ≡ true
      → (plan.backward ≡ true)
        × ((row.state ≡ assigning)
            ⊎ ((row.state ≡ published) ⊎ (row.draft_assignments_stale ≡ true)))
  pub is_marked :
      plan.backward ≡ true
      → (row.state ≡ assigning) ⊎ (row.state ≡ published)
      → plan.mark_draft_assignments_stale ≡ true
  pub catalog : row.state ≡ catalog_published → input.next_state ≡ voting_open → 0 < offerings
  pub fresh :
      row.state ≡ assigning → input.next_state ≡ published → row.draft_assignments_stale ≡ false
  pub configuration :
      input.next_state ≡ voting_open
      → (c : RankedChoiceConfiguration) × (row.ranked_choice ≡ some c)
  pub deadline :
      row.state ≡ catalog_published
      → input.next_state ≡ voting_open
      → (c : RankedChoiceConfiguration) → row.ranked_choice ≡ some c
      → is_after now c.deadline ≡ true

check-Allowed :
    (now : Time) (offerings : ℕ) (row : Session) (input : SessionTransitionInput)
    (first plan : SessionTransitionPlan)
    → plan_session_transition row.state input.next_state offerings row.draft_assignments_stale
      ≡ planned first
    → check_ranked_choice now row input.next_state first ≡ ok plan
    → Allowed now offerings row input plan
unfolding plan_session_transition is_legal_session_transition is_backward_session_transition
    check_ranked_choice
check-Allowed now offerings row input first plan p c = record {
  legal = ground arith;
  is_backward = ground arith;
  marks = λ e. (ground arith, ground arith);
  is_marked = λ e f. ground arith;
  catalog = λ e f. ground arith;
  fresh = λ e f. ground arith;
  configuration = λ e. configured e row.ranked_choice refl;
  deadline = λ e f k g. ground arith;
}
  where
    configured :
        input.next_state ≡ voting_open
        → (o : Option RankedChoiceConfiguration) → row.ranked_choice ≡ o
        → (c : RankedChoiceConfiguration) × (row.ranked_choice ≡ some c)
    configured e none f = absurd (ground arith)
    configured e (some c) f = (c, f)

-- A vote that reopens has a deadline of its own, later than now.
abbrev pub new_deadline : Session → SessionTransitionInput → Option RankedChoiceConfiguration
new_deadline row input =
    if is_reopening row input.next_state
    then elim input.voting_deadline [
      | none ↦ row.ranked_choice
      | some t ↦ with_deadline t row.ranked_choice
    ]
    else row.ranked_choice

-- The session after a move: another state, stale if it was or the plan marks it, and perhaps a new
-- deadline; the identifier, the name and the revision stay.
abbrev moved_row : Session → SessionTransitionInput → SessionTransitionPlan → Session
moved_row row input plan = record row {
  state = input.next_state;
  draft_assignments_stale = row.draft_assignments_stale || plan.mark_draft_assignments_stale;
  ranked_choice = new_deadline row input;
}

-- A move that was applied: the session takes the next state, the move is logged with its trimmed
-- reason, and every other row stays, the draft and the rows beside it.
pub record Moved (now : Time) (input : SessionTransitionInput) (before after : Db)
    (result : SessionTransitionResult) : Type 0 where
  pub row : Session
  pub of_row : before.session ≡ some row
  pub plan : SessionTransitionPlan
  pub allowed : Allowed now (length before.offerings) row input plan
  pub has_reason : plan.backward ≡ true → is_blank input.reason ≡ false
  pub future : is_reopening row input.next_state ≡ true → is_after now input.voting_deadline ≡ true
  pub returned : result.session ≡ moved_row row input plan
  pub same_rest :
      after ≡ record before { session = some result.session; audit_log = after.audit_log }
  pub logged :
      entries after ≡ stored (transition_entry result.session input.reason) ∷ entries before

pub plan-Allowed :
    (now : Time) (row : Session) (input : SessionTransitionInput) (s s' : TxState)
    (plan : SessionTransitionPlan)
    → session_transition_plan now row input s ≡ ok (plan, s')
    → (s' ≡ s) × Allowed now (length s.db.offerings) row input plan
unfolding session_transition_plan count_offerings
plan-Allowed now row input s s' plan h =
    lift_rule
      (plan_result (
        plan_session_transition row.state input.next_state (length s.db.offerings)
          row.draft_assignments_stale))
      s _ h
      λ first e1 k1. go (check_ranked_choice now row input.next_state first) refl k1 (
        plan-ok
          (plan_session_transition row.state input.next_state (length s.db.offerings)
            row.draft_assignments_stale)
          e1)
  where
    plan-ok :
        {first : SessionTransitionPlan} (r : PlanResult)
        → plan_result r ≡ ok first
        → r ≡ planned first
    plan-ok r e = ground arith

    go :
        {first : SessionTransitionPlan} (r : Result SessionTransitionPlan)
        → check_ranked_choice now row input.next_state first ≡ r
        → lift r s ≡ ok (plan, s')
        → plan_session_transition row.state input.next_state
            (length s.db.offerings)
            row.draft_assignments_stale
          ≡ planned first
        → (s' ≡ s) × Allowed now (length s.db.offerings) row input plan
    go {first} (ok q) e k p =
        let (same, at) = pure_inj k in
        (at, check-Allowed now (length s.db.offerings) row input first plan p (rw same e))
    go (err x) e k p = absurd (ground arith)

pub reopened-eq :
    (now : Time) (row current : Session) (input : SessionTransitionInput) (s s' : TxState)
    → s.db.session ≡ some row
    → reopened now row input s ≡ ok (current, s')
    → (s'.db.session ≡ some current)
      × (current ≡ record row { ranked_choice = new_deadline row input })
      × (is_reopening row input.next_state ≡ true → is_after now input.voting_deadline ≡ true)
      × (s'.db ≡ record (s.db) { session = s'.db.session })
unfolding reopened update_session_ranked_choice_deadline
reopened-eq now row current input s s' of_row h = ground arith

pub lifecycle-eq :
    (state : SessionState) (stale : Bool) (current updated : Session) (s s' : TxState)
    → s.db.session ≡ some current
    → update_session_lifecycle state stale s ≡ ok (updated, s')
    → (s'.db.session ≡ some updated)
      × (updated ≡ record current { state = state; draft_assignments_stale = stale })
      × (s'.db ≡ record (s.db) { session = s'.db.session })
unfolding update_session_lifecycle
lifecycle-eq state stale current updated s s' of_current h = ground arith
