-- ===== src/Store/Queries.antt =====
-- The queries on sessions and on the draft: backend/internal/data/session.go,
-- backend/internal/data/assignment_editing.go and the statements under backend/sql/queries that they
-- run.
use miniclass.Base.{
  ℕ, suc, ◌==◌, Bool, not, List, [], ◌∷◌, ◌++◌, Option, none, some, length, keep, if◌then◌else◌,
  Xid, Time,
}
use miniclass.Base.Text.{Text, is_blank, trim_space}
use miniclass.Session.{Session, SessionState, RankedChoiceConfiguration}
use miniclass.Store.Rows.{Assignment, Rule}
use miniclass.Store.Tx.{
  Error, no_rows, override_fields_required, draft_revision_conflict, Result, ok, err, Tx, found,
}

unfoldable pub get_session : Tx Session
get_session s = found s.db.session no_rows s

-- `for update` orders the transactions on a session; each one here runs alone.
unfoldable pub get_session_for_update : Tx Session
unfolding get_session
get_session_for_update = get_session

unfoldable pub count_offerings : Tx ℕ
count_offerings s = ok (length s.db.offerings, s)

-- An `update … returning`: changes the row, or finds none.
abbrev pub update_row : (Session → Session) → Tx Session
update_row f s = elim s.db.session [
  | none ↦ err no_rows
  | some row ↦ ok (f row, record s { db = record (s.db) { session = some (f row) } })
]

unfoldable pub update_session_lifecycle : SessionState → Bool → Tx Session
update_session_lifecycle state stale =
    update_row (λ row. record row { state = state; draft_assignments_stale = stale })

abbrev pub with_deadline :
    Time → Option RankedChoiceConfiguration → Option RankedChoiceConfiguration
with_deadline t none = none
with_deadline t (some c) = some (record c { deadline = some t })

-- The column is written always; `session` reads it only where ranked choice is enabled.
unfoldable pub update_session_ranked_choice_deadline : Time → Tx Session
update_session_ranked_choice_deadline t =
    update_row (λ row. record row { ranked_choice = with_deadline t row.ranked_choice })

-- `update sessions set draft_revision = draft_revision + 1 … and draft_revision = $5`
unfoldable pub advance_draft_revision : ℕ → Tx ℕ
advance_draft_revision expected s = elim s.db.session [
  | none ↦ err no_rows
  | some row ↦
      if row.draft_revision == expected
      then ok (
        suc row.draft_revision,
        record s {
          db = record (s.db) {
            session = some (record row { draft_revision = suc row.draft_revision });
          };
        },
      )
      else err no_rows
]

-- `if errors.Is(err, pgx.ErrNoRows) { return ErrDraftRevisionConflict }`
abbrev pub conflict_error : Error → Error
conflict_error no_rows = draft_revision_conflict
conflict_error e = e

abbrev pub conflict_result : {A : Type 0} → Result A → Result A
conflict_result (ok a) = ok a
conflict_result (err e) = err (conflict_error e)

unfoldable pub advance_or_conflict : ℕ → Tx ℕ
unfolding advance_draft_revision
advance_or_conflict expected s = conflict_result (advance_draft_revision expected s)

unfoldable pub list_assignments : Tx (List Assignment)
list_assignments s = ok (s.db.assignments, s)

abbrev pub set_pinned : Xid → Bool → List Assignment → List Assignment
set_pinned id pinned [] = []
set_pinned id pinned (row ∷ rows) =
    let rest = set_pinned id pinned rows in
    (if row.id == id then record row { pinned = pinned } else row) ∷ rest

unfoldable pub update_assignment_pin : Assignment → Bool → Tx Assignment
update_assignment_pin row pinned s = ok (
  record row { pinned = pinned },
  record s { db = record (s.db) { assignments = set_pinned row.id pinned s.db.assignments } },
)

unfoldable pub delete_assignment_overrides : Assignment → Tx (Unit {0})
delete_assignment_overrides row s = ok (
  tt,
  record s {
    db = record (s.db) { overrides = keep (λ o. not (o.assignment_id == row.id)) s.db.overrides };
  },
)

-- The rule is one of the program's words, never blank.
unfoldable pub create_assignment_override : Xid → Rule → Text → Text → Tx (Unit {0})
unfolding is_blank trim_space
create_assignment_override assignment_id rule reason recorded_by s =
    if is_blank recorded_by
    then err override_fields_required
    else ok (
      tt,
      record s {
        db = record (s.db) {
          overrides =
              s.db.overrides
              ++ record {
                assignment_id = assignment_id;
                rule = rule;
                reason = trim_space reason;
                recorded_by = trim_space recorded_by;
              }
                ∷ [];
        };
      },
    )
