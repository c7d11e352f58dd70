-- ===== src/Assignment/Runs.antt =====
-- What a successful manual operation went through: the inversion of the callbacks of
-- `Assignment.Operations`.
use miniclass.Base.{ℕ, suc, ◌≡◌, refl, true, ◌||◌, List, Option, none, some, arith}
use miniclass.Session.{Session}
use miniclass.Store.Rows.{Assignment}
use miniclass.Store.Tx.{hard_rule_violation, ok, TxState, record_audit}
use miniclass.Store.Steps.{bind_rule, lift_rule, guard_rule, pure_inj}
use miniclass.Store.Queries.{advance_or_conflict, list_assignments}
use miniclass.Store.Replace.{replace_draft_assignments}
use miniclass.Assignment.Inputs.{assignment_map, assignment_inputs}
use miniclass.Assignment.Rules.{Move, Violation, evaluate_manual_assignments}
use miniclass.Assignment.Operations.{
  AssignmentOperationInput, AssignmentOperationResult, Change, resolve, apply_moves, no_violation,
  manual_entry, effective_high_rank_max, write_overrides, change_assignments_body,
}

-- The state after the revision of the session went up.
abbrev pub bumped : TxState → Session → TxState
bumped s row = record s {
  db = record (s.db) { session = some (record row { draft_revision = suc row.draft_revision }) };
}

-- An advance finds the session at the expected revision and adds one.
pub advance-eq-ok :
    (expected revision : ℕ) (s s' : TxState)
    → advance_or_conflict expected s ≡ ok (revision, s')
    → (row : Session) × (s.db.session ≡ some row)
      × (row.draft_revision ≡ expected)
      × (revision ≡ suc expected)
      × (s' ≡ bumped s row)
unfolding advance_or_conflict
advance-eq-ok expected revision s s' h = go s.db.session refl
  where
    go :
        (o : Option Session)
        → s.db.session ≡ o
        → (row : Session) × (s.db.session ≡ some row)
          × (row.draft_revision ≡ expected)
          × (revision ≡ suc expected)
          × (s' ≡ bumped s row)
    go none e = absurd (ground arith)
    go (some row) e = (row, e, ground arith, ground arith, ground arith)

-- A successful `changeAssignments`, step by step.
pub record ChangeRun (input : AssignmentOperationInput) (change : Change) (s : TxState)
    (result : AssignmentOperationResult) (s' : TxState) : Type 0 where
  pub row : Session
  pub found : s.db.session ≡ some row
  pub current : row.draft_revision ≡ input.expected_revision
  pub advanced : TxState
  pub advances : advanced ≡ bumped s row
  pub l : List Move
  pub resolved : resolve change advanced.db.assignments ≡ ok l
  pub violations : List Violation
  pub evaluated :
      evaluate_manual_assignments advanced.db
        (apply_moves l (assignment_map advanced.db.assignments))
        l
      ≡ ok violations
  pub confirmed : (no_violation violations || input.confirm_violations) ≡ true
  pub updated : List Assignment
  pub replaced : TxState
  pub replaces :
      replace_draft_assignments
        (assignment_inputs
          (apply_moves l (assignment_map advanced.db.assignments))
          advanced.db.answers
          (effective_high_rank_max advanced.db))
        advanced
      ≡ ok (updated, replaced)
  pub overridden : TxState
  pub overrides : write_overrides l violations input.reason updated replaced ≡ ok (tt, overridden)
  pub last : TxState
  pub recorded : record_audit (manual_entry none input.reason) overridden ≡ ok (tt, last)
  pub returned :
      result ≡ record { assignments = updated; draft_revision = suc input.expected_revision }
  pub ends : s' ≡ last

pub change_body-ChangeRun :
    (input : AssignmentOperationInput) (change : Change) (s : TxState)
    (result : AssignmentOperationResult) (s' : TxState)
    → change_assignments_body input change s ≡ ok (result, s')
    → ChangeRun input change s result s'
unfolding change_assignments_body list_assignments
change_body-ChangeRun input change s result s' h =
    bind_rule (advance_or_conflict input.expected_revision s) _ h λ revision s1 e1 k1.
      lift_rule (resolve change s1.db.assignments) s1 _ k1 λ l e2 k2.
        lift_rule
          (evaluate_manual_assignments s1.db (apply_moves l (assignment_map s1.db.assignments)) l)
          s1 _ k2
          λ vs e3 k3.
            guard_rule (no_violation vs || input.confirm_violations) (hard_rule_violation vs) s1 _
              k3
              λ e4 k4.
                bind_rule
                  (replace_draft_assignments
                    (assignment_inputs (apply_moves l (assignment_map s1.db.assignments))
                      s1.db.answers (effective_high_rank_max s1.db))
                    s1)
                  _ k4
                  λ updated s5 e5 k5.
                    bind_rule (write_overrides l vs input.reason updated s5) _ k5 λ _ s6 e6 k6.
                      bind_rule (record_audit (manual_entry none input.reason) s6) _ k6
                        λ _ s7 e7 k7.
                          let (row, found, current, _, at) =
                            advance-eq-ok input.expected_revision revision s s1 e1 in
                          let (same, at7) = pure_inj k7 in
                          record {
                            row = row;
                            found = found;
                            current = current;
                            advanced = s1;
                            advances = at;
                            l = l;
                            resolved = e2;
                            violations = vs;
                            evaluated = e3;
                            confirmed = e4;
                            updated = updated;
                            replaced = s5;
                            replaces = e5;
                            overridden = s6;
                            overrides = e6;
                            last = s7;
                            recorded = e7;
                            returned = same;
                            ends = at7;
                          }
