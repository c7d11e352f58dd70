-- ===== src/Assignment/Removal.antt =====
-- What a removal leaves in the draft.
use mathlib.Core.Option
use miniclass.Base.{
  ◌==◌, ◌≡◌, ◌≢◌, refl, sym, ap, ◌∙◌, subst, Bool, false, not, List, [], ◌∷◌, Option, none, some,
  if◌then◌else◌, Xid, arith, Bool-cases, inl, inr, any, keep, All, eq_of_==,
}
use miniclass.Base.Int.{ℤ}
use miniclass.Base.Keyed.{keep-IsSorted, IsSorted}
use miniclass.Store.Rows.{Assignment, CreateAssignmentInput, Actor, Db, unset}
use miniclass.Store.Tx.{ok, TxState, begin_tx, record_audit, no_audit_required}
use miniclass.Store.Steps.{bind_rule, found_rule, guard_rule, pure_inj}
use miniclass.Store.Atomic.{in_tenant_commits}
use miniclass.Store.Replace.{student, assignment_of, replace_draft_assignments}
use miniclass.Store.Placements.{replace-Replaced, content, get-above_none}
use miniclass.Store.Queries.{
  advance_or_conflict, get_session_for_update, get_session, list_assignments,
}
use miniclass.Store.Audit.{record_audit-eq}
use miniclass.Assignment.Inputs.{assignment_map, assignment_inputs, assignment_input}
use miniclass.Assignment.Operations.{
  AssignmentOperationInput, AssignmentOperationResult, remove_assignments, remove_body,
  remove_matching, remove_none, manual_entry,
}
use miniclass.Assignment.Frames.{map-assignment_of, written-IsSorted, written-lookup, map-IsSorted}
use miniclass.Assignment.Placement.{IsDraft, placement_of, recorded-lookup}

-- The placement of a row that a test keeps.
abbrev pub kept_placement : (Assignment → Bool) → Option Assignment → Option CreateAssignmentInput
kept_placement p none = none
kept_placement p (some row) = if p row then some (content row) else none

All-keep :
    (q : Assignment → Type 0) (p : Assignment → Bool) (rows : List Assignment)
    → All q rows
    → All q (keep p rows)
All-keep q p [] h = h
All-keep q p (row ∷ rows) h = elim (Bool-cases (p row)) [
  | inl e ↦ rw e (h.0, All-keep q p rows h.1)
  | inr e ↦ rw e (All-keep q p rows h.1)
]

keep-lookup :
    (p : Assignment → Bool) (k : Xid) (rows : List Assignment)
    → IsSorted student rows
    → Option.map content (assignment_of k (keep p rows)) ≡ kept_placement p (assignment_of k rows)
keep-lookup p k [] h = refl
keep-lookup p k (row ∷ rows) h = elim (Bool-cases (row.student_id == k)) [
  | inl e ↦ elim (Bool-cases (p row)) [
    | inl kept ↦ rw (kept, e, kept)
    | inr gone ↦
        rw (gone, e, gone)
          (keep-lookup p k rows h.1
            ∙ ap (kept_placement p) (get-above_none k rows row h (eq_of_== _ _ e)))
  ]
  | inr e ↦ elim (Bool-cases (p row)) [
    | inl kept ↦ rw (kept, e) (keep-lookup p k rows h.1)
    | inr gone ↦ rw (gone, e) (keep-lookup p k rows h.1)
  ]
]

none-kept :
    (p : Assignment → Bool) (k : Xid) (rows : List Assignment)
    → any p rows ≡ false
    → kept_placement (λ row. not (p row)) (assignment_of k rows)
      ≡ Option.map content (assignment_of k rows)
none-kept p k [] h = refl
none-kept p k (row ∷ rows) h = ground (arith, none-kept p k rows)

matching-lookup :
    (input : AssignmentOperationInput) (p : Assignment → Bool) (k : Xid) (s s' : TxState)
    (result : AssignmentOperationResult)
    → IsDraft s.db
    → remove_matching input (keep p s.db.assignments) s ≡ ok (result, s')
    → placement_of s'.db k ≡ kept_placement p (assignment_of k s.db.assignments)
unfolding remove_matching
matching-lookup input p k s s' result d h =
    bind_rule (advance_or_conflict input.expected_revision s) _ h λ revision s1 e1 k1.
      bind_rule
        (replace_draft_assignments
          (assignment_inputs (assignment_map (keep p s.db.assignments)) [] (ℤ.pos 0)) s1)
        _ k1
        λ updated s2 e2 k2.
          bind_rule (record_audit (manual_entry (some input.session_id) input.reason) s2) _ k2
            λ _ s3 e3 k3.
              let rows = keep p s.db.assignments in
              let sorted = keep-IsSorted student p s.db.assignments d.sorted in
              let r = replace-Replaced _ s1 e2 in
              let (_, same, _) = record_audit-eq _ s2 e3 in
              let at3 = (pure_inj k3).1 in
              ap (Option.map content) (
                ap (λ u. assignment_of k u.db.assignments) at3
                ∙ (ap (assignment_of k) same
                    ∙ r.placed k (
                        written-IsSorted [] (ℤ.pos 0) updated (assignment_map rows) r.written
                          (map-IsSorted rows))))
              ∙ (written-lookup [] (ℤ.pos 0) updated (assignment_map rows) r.written k
                  ∙ (ap (Option.map (assignment_input [] (ℤ.pos 0)))
                        (map-assignment_of k rows sorted)
                      ∙ (recorded-lookup [] (ℤ.pos 0) k rows (
                            All-keep (λ row. row.realized_quality ≢ unset) p s.db.assignments
                              d.recorded)
                          ∙ keep-lookup p k s.db.assignments d.sorted)))

remove_body-lookup :
    (input : AssignmentOperationInput) (p : Assignment → Bool) (k : Xid) (s s' : TxState)
    (result : AssignmentOperationResult)
    → IsDraft s.db
    → remove_body input p s ≡ ok (result, s')
    → placement_of s'.db k ≡ kept_placement (λ row. not (p row)) (assignment_of k s.db.assignments)
unfolding remove_body get_session_for_update get_session list_assignments remove_none
    no_audit_required
remove_body-lookup input p k s s' result d h = found_rule s.db.session _ s _ h λ row found k1.
    guard_rule (row.draft_revision == input.expected_revision) _ s _ k1 λ current k2.
      elim (Bool-cases (any p s.db.assignments)) [
        | inl e ↦ matching-lookup input (λ row. not (p row)) k s s' result d (rw e at k2)
        | inr e ↦
            ap (λ u. placement_of u.db k) (pure_inj (rw e at k2)).1
            ∙ sym (none-kept p k s.db.assignments e)
      ]

-- A removal that succeeds takes away the placements that match its test, and no other: every other
-- student keeps offering, origin, run, pin and quality.
pub remove_assignments-keeps :
    (actor : Actor) (input : AssignmentOperationInput) (p : Assignment → Bool) (k : Xid) (db : Db)
    (d : IsDraft db) (result : AssignmentOperationResult)
    → (remove_assignments actor input p db).0 ≡ ok result
    → placement_of (remove_assignments actor input p db).1 k
      ≡ kept_placement (λ row. not (p row)) (assignment_of k db.assignments)
unfolding remove_assignments
remove_assignments-keeps actor input p k db d result h =
    let (s, ran, ends, _, _) = in_tenant_commits actor (remove_body input p) db result h in
    subst
      (λ after.
        placement_of after k ≡ kept_placement (λ row. not (p row)) (assignment_of k db.assignments))
      (sym ends) (remove_body-lookup input p k (begin_tx db actor false) s result d ran)
