-- ===== src/Session/Tests.antt =====
-- Runs of the transitions on the sample session.
use miniclass.Base.{◌<◌, ◌≡◌, refl, ◌↔◌, ◌⊎◌, true, false, [], ◌∷◌, none, ltb}
use miniclass.Session.{assigning, published, voting_closed, voting_open, catalog_published}
use miniclass.Session.Lifecycle.{
  SessionTransitionPlan, plan_session_transition, backward_transition, stale_draft,
}
use miniclass.Session.Graph.{
  stage, OnDiagram, warns_stale_draft, is_planned, plan_session_transition-accepts,
  plan_session_transition-plan,
}
use miniclass.Session.Transition.{
  SessionTransitionInput, SessionTransitionResult, transition_session,
}
use miniclass.Session.Moves.{Moved}
use miniclass.Session.Outcome.{Previewed, transition_session-outcome}
use miniclass.Store.Tx.{ok, in_tenant_read}
use miniclass.Store.Queries.{get_session, count_offerings}
use miniclass.Samples.{db_in, organizer, session_in, value}

plan_session_transition-accepts_example :
    (is_planned (plan_session_transition catalog_published voting_open 2 false) ≡ true) ↔ (
      OnDiagram catalog_published voting_open
      × (catalog_published ≡ catalog_published → voting_open ≡ voting_open → 0 < 2)
      × (catalog_published ≡ assigning → voting_open ≡ published → false ≡ false))
plan_session_transition-accepts_example =
    plan_session_transition-accepts catalog_published voting_open 2 false

abbrev back_plan : SessionTransitionPlan
back_plan = record {
  from_state = assigning;
  to_state = voting_closed;
  backward = true;
  mark_draft_assignments_stale = true;
  warnings = backward_transition ∷ stale_draft ∷ [];
}

plan_session_transition-plan_example :
    (back_plan.from_state ≡ assigning)
    × (back_plan.to_state ≡ voting_closed)
    × (back_plan.backward ≡ ltb (stage voting_closed) (stage assigning))
    × ((back_plan.mark_draft_assignments_stale ≡ true) ↔ (
        (back_plan.backward ≡ true)
        × ((assigning ≡ assigning) ⊎ ((assigning ≡ published) ⊎ (false ≡ true)))))
    × (warns_stale_draft back_plan ≡ back_plan.mark_draft_assignments_stale)
unfolding plan_session_transition
plan_session_transition-plan_example =
    plan_session_transition-plan assigning voting_closed 2 false back_plan refl

abbrev back : SessionTransitionInput
back = record {
  next_state = voting_closed;
  confirm = true;
  reason = 111 ∷ [];
  voting_deadline = none;
}

abbrev unconfirmed : SessionTransitionInput
unconfirmed = record back { confirm = false }

abbrev untouched : SessionTransitionResult
untouched = record {
  session = session_in assigning;
  meeting_dates = [];
  from_state = assigning;
  to_state = assigning;
  requires_confirmation = false;
  applied = false;
  warnings = [];
}

abbrev shown_result : SessionTransitionResult
shown_result = value untouched (transition_session organizer 50 unconfirmed (db_in assigning)).0

shown_ok : (transition_session organizer 50 unconfirmed (db_in assigning)).0 ≡ ok shown_result
unfolding transition_session in_tenant_read get_session count_offerings plan_session_transition
shown_ok = refl

transition_session-outcome_example :
    (Moved 50 unconfirmed
        (db_in assigning)
        (transition_session organizer 50 unconfirmed (db_in assigning)).1
        shown_result
      × (shown_result.applied ≡ true))
    ⊎ (Previewed 50 unconfirmed (db_in assigning) shown_result
        × ((transition_session organizer 50 unconfirmed (db_in assigning)).1 ≡ db_in assigning))
transition_session-outcome_example =
    transition_session-outcome organizer 50 unconfirmed (db_in assigning) shown_result shown_ok
