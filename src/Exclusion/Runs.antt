-- ===== src/Exclusion/Runs.antt =====
-- What a successful addition or removal of an exclusion did, statement by statement.
use miniclass.Base.{
  ℕ, suc, ◌==◌, ◌≡◌, true, false, List, [], ◌∷◌, ◌++◌, some, any, keep, Xid, arith,
}
use miniclass.Base.Sort.{insert_sorted}
use miniclass.Session.{Session}
use miniclass.Store.Rows.{AssignmentExclusion, Db}
use miniclass.Store.Tx.{ok, TxState, stored, record_audit}
use miniclass.Store.Steps.{bind_rule, pure_inj}
use miniclass.Store.Audit.{record_audit-eq, record_audit-frame, entries}
use miniclass.Store.Queries.{advance_or_conflict, list_assignments}
use miniclass.Store.Editing.{excludes, exclusion_less, create_assignment_exclusion}
use miniclass.Assignment.Operations.{AssignmentOperationInput}
use miniclass.Assignment.Runs.{advance-eq-ok}
use miniclass.Exclusion.{
  AssignmentExclusionResult, conflicts_with, exclusion_entry, add_new, assignment_exclusion_result,
  validate_assignment_exclusion_scope,
}

-- An exclusion was added: the rows before, the row that is new, and what else moved.
pub record Added (input : AssignmentOperationInput) (student offering : Xid)
    (result : AssignmentExclusionResult) (before after : Db) : Type 0 where
  pub row : Session
  pub found : before.session ≡ some row
  pub current : row.draft_revision ≡ input.expected_revision
  pub session : after.session ≡ some (record row { draft_revision = suc row.draft_revision })
  pub created : AssignmentExclusion
  pub of_pair :
      created ≡ record { id = before.next_id; student_id = student; offering_id = offering }
  pub was_new : any (excludes student offering) before.exclusions ≡ false
  pub member : any (λ m. m.student_id == student) before.memberships ≡ true
  pub offered : any (λ o. o.id == offering) before.offerings ≡ true
  pub table : after.exclusions ≡ insert_sorted exclusion_less created before.exclusions
  pub listed : result.exclusions ≡ before.exclusions ++ created ∷ []
  pub conflicts :
      result.conflicting_assignments ≡ keep (conflicts_with student offering) before.assignments
  pub same_assignments : after.assignments ≡ before.assignments
  pub same_overrides : after.overrides ≡ before.overrides
  pub logged : entries after ≡ stored (exclusion_entry created input) ∷ entries before
  pub revision : result.draft_revision ≡ suc input.expected_revision

create-eq :
    (student offering : Xid) (s : TxState) (created : AssignmentExclusion) (s' : TxState)
    → create_assignment_exclusion student offering s ≡ ok (created, s')
    → (any (excludes student offering) s.db.exclusions ≡ false)
      × (created ≡ record { id = s.db.next_id; student_id = student; offering_id = offering })
      × (s' ≡ record s {
        db = record (s.db) {
          exclusions = insert_sorted exclusion_less created s.db.exclusions;
          next_id = suc s.db.next_id;
        };
      })
unfolding create_assignment_exclusion
create-eq student offering s created s' h = ground arith

validate-eq :
    (student offering : Xid) (s s' : TxState)
    → validate_assignment_exclusion_scope student offering s ≡ ok (tt, s')
    → (any (λ m. m.student_id == student) s.db.memberships ≡ true)
      × (any (λ o. o.id == offering) s.db.offerings ≡ true)
      × (s' ≡ s)
unfolding validate_assignment_exclusion_scope
validate-eq student offering s s' h = ground arith

result-eq :
    (exclusions : List AssignmentExclusion) (revision : ℕ) (student offering : Xid) (s : TxState)
    (result : AssignmentExclusionResult) (s' : TxState)
    → assignment_exclusion_result exclusions revision student offering s ≡ ok (result, s')
    → (result ≡ record {
      exclusions = exclusions;
      conflicting_assignments = keep (conflicts_with student offering) s.db.assignments;
      draft_revision = revision;
    })
      × (s' ≡ s)
unfolding assignment_exclusion_result list_assignments
result-eq exclusions revision student offering s result s' h = (cc, cc)

pub add_new-Added :
    (input : AssignmentOperationInput) (student offering : Xid) (s : TxState)
    (result : AssignmentExclusionResult) (s' : TxState)
    → add_new input student offering s.db.exclusions s ≡ ok (result, s')
    → Added input student offering result s.db s'.db
unfolding add_new
add_new-Added input student offering s result s' h =
    bind_rule (advance_or_conflict input.expected_revision s) _ h λ revision s1 e1 k1.
      bind_rule (validate_assignment_exclusion_scope student offering s1) _ k1 λ _ s2 e2 k2.
        bind_rule (create_assignment_exclusion student offering s2) _ k2 λ created s3 e3 k3.
          bind_rule
            (assignment_exclusion_result (s.db.exclusions ++ created ∷ [])
              (suc input.expected_revision) student offering s3)
            _ k3
            λ r s4 e4 k4.
              bind_rule (record_audit (exclusion_entry created input) s4) _ k4 λ _ s5 e5 k5.
                let (row, found, current, next, at1) =
                  advance-eq-ok input.expected_revision revision s s1 e1 in
                let (member, offered, at2) = validate-eq student offering s1 s2 e2 in
                let (fresh, made, at3) = create-eq student offering s2 created s3 e3 in
                let (answer, at4) = result-eq _ _ student offering s3 r s4 e4 in
                let (_, _, log) = record_audit-eq (exclusion_entry created input) s4 e5 in
                let frame = record_audit-frame (exclusion_entry created input) s4 e5 in
                let (same, at5) = pure_inj {a = r} {b = result} {s = s5} {s' = s'} k5 in
                record {
                  row = row;
                  found = found;
                  current = current;
                  session = rw (at5, frame, at4, at3, at2, at1);
                  created = created;
                  of_pair = rw (made, at2, at1);
                  was_new = rw (at2, at1) at fresh;
                  member = rw at1 at member;
                  offered = rw at1 at offered;
                  table = rw (at5, frame, at4, at3, at2, at1);
                  listed = rw (same, answer);
                  conflicts = rw (same, answer, at3, at2, at1);
                  same_assignments = rw (at5, frame, at4, at3, at2, at1);
                  same_overrides = rw (at5, frame, at4, at3, at2, at1);
                  logged = rw (at5, log, at4, at3, at2, at1);
                  revision = rw (same, answer);
                }
