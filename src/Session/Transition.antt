-- ===== src/Session/Transition.antt =====
-- `TransitionSession`, `sessionTransitionPlan` and `loadSessionTransitionDates` of
-- backend/internal/program/session_lifecycle.go. The clock is an argument, read once in a call, and no
-- other transaction runs between the preview of a call and its change.
use miniclass.Base.{
  ltb, Bool, true, false, not, ◌&&◌, ◌||◌, List, [], ◌∷◌, ◌++◌, Option, none, some, if◌then◌else◌,
  Time,
}
use miniclass.Base.Text.{Text, is_blank}
use miniclass.Session.{
  Session, SessionState, catalog_published, voting_open, voting_closed, eq_state,
}
use miniclass.Session.Lifecycle.{
  WarningCode, ranked_choice_reopened, SessionTransitionPlan, PlanError, PlanResult, planned,
  refused, plan_session_transition,
}
use miniclass.Store.Rows.{Actor, Entry, session_state_transition, Db}
use miniclass.Store.Tx.{
  Error, ranked_choice_not_configured, voting_deadline_invalid, voting_deadline_required,
  transition_reason_required, Result, ok, err, Tx, pure, ◌>>=◌, ◌>>◌, guard, lift, record_audit,
  in_tenant, in_tenant_read,
}
use miniclass.Store.Queries.{
  get_session, get_session_for_update, count_offerings, update_session_lifecycle,
  update_session_ranked_choice_deadline,
}

pub record SessionTransitionInput : Type 0 where
  pub next_state : SessionState
  pub confirm : Bool
  pub reason : Text
  pub voting_deadline : Option Time

pub record SessionTransitionResult : Type 0 where
  pub session : Session
  pub meeting_dates : List Time
  pub from_state : SessionState
  pub to_state : SessionState
  pub requires_confirmation : Bool
  pub applied : Bool
  pub warnings : List WarningCode

abbrev plan_error : PlanError → Error
plan_error PlanError.transition_invalid = Error.transition_invalid
plan_error PlanError.transition_gate = Error.transition_gate

abbrev pub plan_result : PlanResult → Result SessionTransitionPlan
plan_result (planned plan) = ok plan
plan_result (refused e) = err (plan_error e)

-- `Deadline == nil || !Deadline.After(now)` refuses.
abbrev pub is_after : Time → Option Time → Bool
is_after now none = false
is_after now (some t) = ltb now t

abbrev is_opening : Session → SessionState → Bool
is_opening current next = eq_state current.state catalog_published && eq_state next voting_open

abbrev pub is_reopening : Session → SessionState → Bool
is_reopening current next = eq_state current.state voting_closed && eq_state next voting_open

-- The ranked-choice conditions that follow the plan.
unfoldable pub check_ranked_choice :
    Time → Session → SessionState → SessionTransitionPlan → Result SessionTransitionPlan
check_ranked_choice now current next plan = elim current.ranked_choice [
  | none ↦
      if is_opening current next
      then err ranked_choice_not_configured
      else if is_reopening current next
      then err ranked_choice_not_configured
      else ok plan
  | some c ↦
      if is_opening current next && not (is_after now c.deadline)
      then err voting_deadline_invalid
      else if is_reopening current next
      then ok (record plan { warnings = plan.warnings ++ ranked_choice_reopened ∷ [] })
      else ok plan
]

unfoldable pub session_transition_plan :
    Time → Session → SessionTransitionInput → Tx SessionTransitionPlan
unfolding check_ranked_choice
session_transition_plan now current input = do
  offering_count ← count_offerings
  plan ← lift (
      plan_result (
        plan_session_transition current.state input.next_state offering_count
          current.draft_assignments_stale))
  lift (check_ranked_choice now current input.next_state plan)

unfoldable pub load_session_transition_dates : Tx (List Time)
load_session_transition_dates s = ok (s.db.meeting_dates, s)

-- The preview: a forward move is to be applied, and a backward one reports what it would do.
pub data Preview : Type 0 where
  apply_forward : Preview
  shown : SessionTransitionResult → Preview

unfoldable pub preview_body : Time → SessionTransitionInput → Tx Preview
unfolding session_transition_plan load_session_transition_dates
preview_body now input = do
  current ← get_session
  plan ← session_transition_plan now current input
  dates ← load_session_transition_dates
  pure (
      if not plan.backward
      then apply_forward
      else shown (record {
        session = current;
        meeting_dates = dates;
        from_state = plan.from_state;
        to_state = plan.to_state;
        requires_confirmation = true;
        applied = false;
        warnings = plan.warnings;
      }))

-- A vote that reopens takes a new deadline, in the future.
unfoldable pub reopened : Time → Session → SessionTransitionInput → Tx Session
reopened now current input =
    if is_reopening current input.next_state
    then elim input.voting_deadline [
      | none ↦ λ s. err voting_deadline_required
      | some t ↦
          if not (ltb now t)
          then (λ s. err voting_deadline_invalid)
          else update_session_ranked_choice_deadline t
    ]
    else pure current

abbrev pub transition_entry : Session → Text → Entry
transition_entry updated reason = record {
  action = session_state_transition;
  object_id = some updated.id;
  reason = reason;
}

unfoldable pub transition_body : Time → SessionTransitionInput → Tx SessionTransitionResult
unfolding session_transition_plan reopened load_session_transition_dates
transition_body now input = do
  locked ← get_session_for_update
  plan ← session_transition_plan now locked input
  guard (not (plan.backward && is_blank input.reason)) transition_reason_required
  current ← reopened now locked input
  updated ←
      update_session_lifecycle input.next_state
        (current.draft_assignments_stale || plan.mark_draft_assignments_stale)
  dates ← load_session_transition_dates
  record_audit (transition_entry updated input.reason)
  pure (record {
    session = updated;
    meeting_dates = dates;
    from_state = plan.from_state;
    to_state = plan.to_state;
    requires_confirmation = false;
    applied = true;
    warnings = plan.warnings;
  })

abbrev pub after_preview :
    Result Preview → Result SessionTransitionResult × Db → Db → Result SessionTransitionResult × Db
after_preview (err e) change db = (err e, db)
after_preview (ok (shown result)) change db = (ok result, db)
after_preview (ok apply_forward) change db = change

unfoldable pub transition_session :
    Actor → Time → SessionTransitionInput → Db → Result SessionTransitionResult × Db
unfolding preview_body transition_body
transition_session actor now input db =
    let change = in_tenant actor (transition_body now input) db in
    if input.confirm
    then change
    else after_preview (in_tenant_read (preview_body now input) db) change db
