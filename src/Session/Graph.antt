-- ===== src/Session/Graph.antt =====
-- What holds of the transition graph and of the planner, for every pair of states.
use miniclass.Base.{ℕ, suc, ◌<◌, ◌≤◌, ◌≡◌, ◌↔◌, ◌⊎◌, Bool, true, false, any, arith, ltb}
use miniclass.Session.{
  SessionState, planning, catalog_published, voting_open, voting_closed, assigning, published,
  complete, unrecognized,
}
use miniclass.Session.Lifecycle.{
  WarningCode, stale_draft, SessionTransitionPlan, PlanResult, planned, refused,
  is_legal_session_transition, legal_session_transitions, is_backward_session_transition,
  plan_session_transition,
}

-- The stage of a state in the life of a session, an independent reading of the diagram.
abbrev pub stage : SessionState → ℕ
stage planning = 0
stage catalog_published = 1
stage voting_open = 2
stage voting_closed = 3
stage assigning = 4
stage published = 5
stage complete = 6
stage unrecognized = 7

abbrev is_stale_draft : WarningCode → Bool
is_stale_draft stale_draft = true
is_stale_draft _ = false

abbrev pub is_planned : PlanResult → Bool
is_planned (planned _) = true
is_planned (refused _) = false

-- The diagram of the lifecycle, an independent reading of it by stages: one stage on, or from a
-- published catalog straight to the draft where there is no ranked choice, or one stage back to
-- reopen the vote, the closed vote or the draft.
abbrev pub OnDiagram : SessionState → SessionState → Type 0
OnDiagram from to =
    ((stage to ≡ suc (stage from)) × (stage to ≤ 6))
    ⊎ (((from ≡ catalog_published) × (to ≡ assigning))
        ⊎ ((stage from ≡ suc (stage to)) × (3 ≤ stage from) × (stage from ≤ 5)))

is_legal-OnDiagram :
    (from to : SessionState) → is_legal_session_transition from to ≡ true → OnDiagram from to
unfolding is_legal_session_transition legal_session_transitions
is_legal-OnDiagram from to h = ground arith

OnDiagram-is_legal :
    (from to : SessionState) → OnDiagram from to → is_legal_session_transition from to ≡ true
unfolding is_legal_session_transition legal_session_transitions
OnDiagram-is_legal from to h = ground arith

-- The planner accepts a move exactly when the diagram has it, read by stages, the catalog is not
-- empty on opening the vote, and the draft is not stale on publishing.
pub plan_session_transition-accepts :
    (from to : SessionState) (offering_count : ℕ) (stale : Bool)
    → (is_planned (plan_session_transition from to offering_count stale) ≡ true) ↔ (
        OnDiagram from to
        × (from ≡ catalog_published → to ≡ voting_open → 0 < offering_count)
        × (from ≡ assigning → to ≡ published → stale ≡ false))
unfolding plan_session_transition
plan_session_transition-accepts from to offering_count stale = (
  λ e. (is_legal-OnDiagram from to (ground arith), λ f g. ground arith, λ f g. ground arith),
  λ h. ground (arith, OnDiagram-is_legal from to h.0),
)

-- The plan says that the draft becomes stale.
abbrev pub warns_stale_draft : SessionTransitionPlan → Bool
warns_stale_draft plan = any is_stale_draft plan.warnings

-- A plan that the planner accepts.
module _ (from to : SessionState) (offering_count : ℕ) (stale : Bool) (plan : SessionTransitionPlan)
    (accepted : plan_session_transition from to offering_count stale ≡ planned plan) where
  -- A plan names the two states, is backward exactly when the stage falls, marks the draft stale
  -- exactly on a backward move from assigning or published or with a draft that is already stale, and
  -- warns of a stale draft exactly when it marks one.
  pub plan_session_transition-plan :
      (plan.from_state ≡ from)
      × (plan.to_state ≡ to)
      × (plan.backward ≡ ltb (stage to) (stage from))
      × ((plan.mark_draft_assignments_stale ≡ true)
          ↔ ((plan.backward ≡ true) × ((from ≡ assigning) ⊎ ((from ≡ published) ⊎ (stale ≡ true)))))
      × (warns_stale_draft plan ≡ plan.mark_draft_assignments_stale)
  unfolding plan_session_transition is_legal_session_transition legal_session_transitions
      is_backward_session_transition
  plan_session_transition-plan = ground arith
