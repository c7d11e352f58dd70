-- ===== src/Session/Lifecycle.antt =====
-- `LegalSessionTransitions` to `PlanSessionTransition` of
-- backend/internal/program/session_lifecycle.go.
use miniclass.Base.{
  ℕ, ◌==◌, Bool, true, false, not, ◌&&◌, ◌||◌, List, [], ◌∷◌, ◌++◌, any, if◌then◌else◌,
}
use miniclass.Session.{
  SessionState, planning, catalog_published, voting_open, voting_closed, assigning, published,
  complete, unrecognized, eq_state,
}

-- A warning by its code; the text of its message and summary follows from the code.
pub data WarningCode : Type 0 where
  backward_transition stale_draft published_links_invalidated ranked_choice_reopened : WarningCode

pub record SessionTransitionPlan : Type 0 where
  pub from_state : SessionState
  pub to_state : SessionState
  pub backward : Bool
  pub mark_draft_assignments_stale : Bool
  pub warnings : List WarningCode

pub data PlanError : Type 0 where
  transition_invalid transition_gate : PlanError

pub data PlanResult : Type 0 where
  planned : SessionTransitionPlan → PlanResult
  refused : PlanError → PlanResult

unfoldable pub legal_session_transitions : SessionState → List SessionState
legal_session_transitions planning = catalog_published ∷ []
legal_session_transitions catalog_published = voting_open ∷ assigning ∷ []
legal_session_transitions voting_open = voting_closed ∷ []
legal_session_transitions voting_closed = assigning ∷ voting_open ∷ []
legal_session_transitions assigning = published ∷ voting_closed ∷ []
legal_session_transitions published = complete ∷ assigning ∷ []
legal_session_transitions complete = []
legal_session_transitions unrecognized = []

unfoldable pub is_legal_session_transition : SessionState → SessionState → Bool
unfolding legal_session_transitions
is_legal_session_transition from to = any (λ s. eq_state s to) (legal_session_transitions from)

unfoldable pub is_backward_session_transition : SessionState → SessionState → Bool
is_backward_session_transition from to =
    (eq_state from voting_closed && eq_state to voting_open)
    || ((eq_state from assigning && eq_state to voting_closed)
        || (eq_state from published && eq_state to assigning))

-- The warnings of a backward move, in the order in which they are appended.
abbrev stale_marked : SessionState → Bool → Bool
stale_marked from stale = eq_state from assigning || (eq_state from published || stale)

abbrev backward_warnings : SessionState → Bool → List WarningCode
backward_warnings from stale =
    backward_transition ∷ (if stale_marked from stale then stale_draft ∷ [] else [])
    ++ (if eq_state from published then published_links_invalidated ∷ [] else [])

unfoldable pub plan_session_transition : SessionState → SessionState → ℕ → Bool → PlanResult
unfolding is_legal_session_transition is_backward_session_transition
plan_session_transition from to offering_count stale =
    if not (is_legal_session_transition from to)
    then refused transition_invalid
    else if eq_state from catalog_published && (eq_state to voting_open && offering_count == 0)
    then refused transition_gate
    else if eq_state from assigning && (eq_state to published && stale)
    then refused transition_gate
    else if not (is_backward_session_transition from to)
    then planned (record {
      from_state = from;
      to_state = to;
      backward = false;
      mark_draft_assignments_stale = false;
      warnings = [];
    })
    else planned (record {
      from_state = from;
      to_state = to;
      backward = true;
      mark_draft_assignments_stale = stale_marked from stale;
      warnings = backward_warnings from stale;
    })
