-- ===== src/Session.antt =====
-- The lifecycle of a session: the states of backend/internal/data/session.go and the pure part of
-- backend/internal/program/session_lifecycle.go.
pub mod Lifecycle
pub mod Graph
pub mod Transition
pub mod Moves
pub mod Outcome
mod Tests
use miniclass.Base.{
  ℕ, zero, ◌==◌, Bool, true, false, not, ◌&&◌, ◌||◌, List, [], ◌∷◌, ◌++◌, Option, if◌then◌else◌,
  Time, Xid,
}
use miniclass.Base.Int.{ℤ}

-- `SessionState` is a text in the source; `unrecognized` is every other text.
pub data SessionState : Type 0 where
  planning catalog_published voting_open voting_closed assigning published complete : SessionState
  unrecognized : SessionState

abbrev ordinal : SessionState → ℕ
ordinal planning = 0
ordinal catalog_published = 1
ordinal voting_open = 2
ordinal voting_closed = 3
ordinal assigning = 4
ordinal published = 5
ordinal complete = 6
ordinal unrecognized = 7

abbrev pub eq_state : SessionState → SessionState → Bool
eq_state a b = ordinal a == ordinal b

pub record RankedChoiceConfiguration : Type 0 where
  pub rank_depth : ℤ
  pub deadline : Option Time

-- The columns of a session that the modelled operations read or write.
pub record Session : Type 0 where
  pub id : Xid
  pub name : ℕ
  pub state : SessionState
  pub draft_assignments_stale : Bool
  pub draft_revision : ℕ
  pub ranked_choice : Option RankedChoiceConfiguration
