-- ===== src/Assignment/Revision.antt =====
-- The draft revision: what makes two editors of one draft notice each other.
use miniclass.Base.{ℕ, ◌==◌, ◌≡◌, ◌≢◌, Bool, true, false, not, [], ◌∷◌, some, Xid, arith}
use miniclass.Session.{Session}
use miniclass.Store.Rows.{Assignment, Actor, Db}
use miniclass.Store.Tx.{
  Error, draft_revision_conflict, Result, err, TxState, begin_tx, in_tenant, validate_actor, Tx,
}
use miniclass.Store.Queries.{
  advance_or_conflict, advance_draft_revision, get_session_for_update, get_session,
}
use miniclass.Assignment.Operations.{
  AssignmentOperationInput, AssignmentOperationResult, Change, moves, swap, change_assignments,
  change_assignments_body, move_assignment, swap_assignments, remove_assignments, remove_body,
  remove_assignment, remove_unpinned_assignments, set_pin_body, set_assignment_pin,
}

-- The five operations of the editor.
pub data ManualOperation : Type 0 where
  move : Xid → Xid → ManualOperation
  exchange : Xid → Xid → ManualOperation
  remove : Xid → ManualOperation
  remove_unpinned : ManualOperation
  set_pin : Xid → Bool → ManualOperation

unfoldable pub run_manual :
    Actor → AssignmentOperationInput → ManualOperation → Db → Result AssignmentOperationResult × Db
unfolding move_assignment swap_assignments remove_assignment remove_unpinned_assignments
    set_assignment_pin
run_manual actor input (move student offering) = move_assignment actor input student offering
run_manual actor input (exchange first second) = swap_assignments actor input first second
run_manual actor input (remove student) = remove_assignment actor input student
run_manual actor input remove_unpinned = remove_unpinned_assignments actor input
run_manual actor input (set_pin student pinned) = set_assignment_pin actor input student pinned

-- An exchange needs two students.
abbrev pub is_proper : ManualOperation → Bool
is_proper (exchange first second) = not (first == second)
is_proper _ = true

in_tenant-err :
    {A : Type 0} (actor : Actor) (fn : Tx A) (db : Db) (e : Error)
    → validate_actor actor ≡ true
    → fn (begin_tx db actor false) ≡ err e
    → in_tenant actor fn db ≡ (err e, db)
unfolding in_tenant
in_tenant-err actor fn db e valid h = rw (valid, h)

==-stale : (a b : ℕ) → a ≢ b → (a == b) ≡ false
==-stale a b h = ground arith

not-true : (b : Bool) → not b ≡ true → b ≡ false
not-true b h = ground arith

advance-stale :
    (expected : ℕ) (s : TxState) (row : Session)
    → s.db.session ≡ some row
    → row.draft_revision ≢ expected
    → advance_or_conflict expected s ≡ err draft_revision_conflict
unfolding advance_or_conflict advance_draft_revision
advance-stale expected s row found stale = ground arith

-- The callbacks, each on a session at another revision.
module _ (input : AssignmentOperationInput) (s : TxState) (row : Session)
    (found : s.db.session ≡ some row) (stale : row.draft_revision ≢ input.expected_revision) where
  change_body-stale :
      (change : Change) → change_assignments_body input change s ≡ err draft_revision_conflict
  unfolding change_assignments_body
  change_body-stale change = rw (advance-stale input.expected_revision s row found stale)

  remove_body-stale : (p : Assignment → Bool) → remove_body input p s ≡ err draft_revision_conflict
  unfolding remove_body get_session_for_update get_session
  remove_body-stale p = rw (found, ==-stale row.draft_revision input.expected_revision stale)

  pin_body-stale : (x : Xid) (b : Bool) → set_pin_body input x b s ≡ err draft_revision_conflict
  unfolding set_pin_body
  pin_body-stale x b = rw (advance-stale input.expected_revision s row found stale)

-- An operation that expects another revision than the session's is refused as a conflict, and
-- changes nothing, for every operation of the editor.
pub run_manual-conflict :
    (actor : Actor) (input : AssignmentOperationInput) (op : ManualOperation) (db : Db)
    (row : Session)
    → validate_actor actor ≡ true
    → is_proper op ≡ true
    → db.session ≡ some row
    → row.draft_revision ≢ input.expected_revision
    → run_manual actor input op db ≡ (err draft_revision_conflict, db)
unfolding run_manual move_assignment swap_assignments remove_assignment remove_unpinned_assignments
    set_assignment_pin change_assignments remove_assignments
run_manual-conflict actor input (move x o) db row valid proper found stale =
    in_tenant-err actor _ db _ valid
      (change_body-stale input (begin_tx db actor false) row found stale (moves ((x, o) ∷ [])))
run_manual-conflict actor input (exchange x y) db row valid proper found stale =
    rw (not-true (x == y) proper) (
      in_tenant-err actor _ db _ valid
        (change_body-stale input (begin_tx db actor false) row found stale (swap x y)))
run_manual-conflict actor input (remove x) db row valid proper found stale =
    in_tenant-err actor _ db _ valid
      (remove_body-stale input (begin_tx db actor false) row found stale (λ r. r.student_id == x))
run_manual-conflict actor input remove_unpinned db row valid proper found stale =
    in_tenant-err actor _ db _ valid
      (remove_body-stale input (begin_tx db actor false) row found stale (λ r. not r.pinned))
run_manual-conflict actor input (set_pin x b) db row valid proper found stale =
    in_tenant-err actor _ db _ valid
      (pin_body-stale input (begin_tx db actor false) row found stale x b)
