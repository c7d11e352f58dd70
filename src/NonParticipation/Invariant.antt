-- ===== src/NonParticipation/Invariant.antt =====
-- Nobody is placed in a session and absent from it (SPEC section 16.2).
use miniclass.Base.{
  ◌==◌, ◌≡◌, ap, ◌∙◌, false, not, List, [], ◌∷◌, keep, contains, map, All, All-keep, Bool-cases,
  inl, inr, ltb,
}
use miniclass.Base.Keyed.{put}
use miniclass.Store.Rows.{
  Assignment, CreateAssignmentInput, SessionNonParticipation, Entry, Db, absent,
}
use miniclass.Store.Tx.{ok, TxState, record_audit}
use miniclass.Store.Steps.{bind_rule, pure_inj}
use miniclass.Store.Audit.{record_audit-frame}
use miniclass.Store.Replace.{
  student, changed, write_input, write_inputs, delete_replaced, replace_draft_assignments,
}
use miniclass.Store.Placements.{write_input-Wrote}

abbrev pub TakesPart : List SessionNonParticipation → Assignment → Type 0
TakesPart rows a =
    contains a.student_id (map (λ (n : SessionNonParticipation). n.student_id) rows) ≡ false

-- Everybody who is placed takes part.
abbrev pub NobodyAbsentPlaced : Db → Type 0
NobodyAbsentPlaced db = All (TakesPart db.non_participations) db.assignments

put-All {κ} :
    (P : Assignment → Type κ) (a : Assignment) (l : List Assignment)
    → P a
    → All P l
    → All P (put student a l)
unfolding put
put-All P a [] ha h = (ha, tt)
put-All P a (x ∷ l) ha h = elim (Bool-cases (x.student_id == a.student_id)) [
  | inl e ↦ rw e (ha, h.1)
  | inr e ↦ elim (Bool-cases (ltb a.student_id x.student_id)) [
    | inl t ↦ rw (e, t) (ha, h)
    | inr f ↦ rw (e, f) (h.0, put-All P a l ha h.1)
  ]
]

-- The trigger on the placements keeps it.
write_input-NobodyAbsentPlaced :
    (input : CreateAssignmentInput) (s : TxState) (row : Assignment) (s' : TxState)
    → write_input input s ≡ ok (row, s')
    → NobodyAbsentPlaced s.db
    → NobodyAbsentPlaced s'.db
write_input-NobodyAbsentPlaced input s row s' h before =
    let w = write_input-Wrote input s h in
    let own : TakesPart s.db.non_participations row =
      ap (λ i. contains i.student_id (absent s.db)) w.written ∙ w.admitted in
    rw (w.same_absent, w.table)
      (put-All (TakesPart s.db.non_participations) row
        (keep (λ a. not (changed input a)) s.db.assignments) own
        (All-keep (TakesPart s.db.non_participations) (λ a. not (changed input a)) s.db.assignments
          before))

write_inputs-NobodyAbsentPlaced :
    (inputs : List CreateAssignmentInput) (s : TxState) (rows : List Assignment) (s' : TxState)
    → write_inputs inputs s ≡ ok (rows, s')
    → NobodyAbsentPlaced s.db
    → NobodyAbsentPlaced s'.db
unfolding write_inputs
write_inputs-NobodyAbsentPlaced [] s rows s' h before = rw (pure_inj h).1 before
write_inputs-NobodyAbsentPlaced (input ∷ inputs) s rows s' h before =
    bind_rule (write_input input s) _ h λ row s1 e1 k1.
      bind_rule (write_inputs inputs s1) _ k1 λ rest s2 e2 k2. rw (pure_inj k2).1 (
        write_inputs-NobodyAbsentPlaced inputs s1 rest s2 e2
          (write_input-NobodyAbsentPlaced input s row s1 e1 before))

pub replace-NobodyAbsentPlaced :
    (inputs : List CreateAssignmentInput) (s : TxState) (rows : List Assignment) (s' : TxState)
    → replace_draft_assignments inputs s ≡ ok (rows, s')
    → NobodyAbsentPlaced s.db
    → NobodyAbsentPlaced s'.db
unfolding replace_draft_assignments delete_replaced
replace-NobodyAbsentPlaced inputs s rows s' h before =
    bind_rule (write_inputs inputs s) _ h λ written s1 e1 k1. rw (pure_inj k1).1 (
      All-keep (TakesPart s1.db.non_participations) _ s1.db.assignments
        (write_inputs-NobodyAbsentPlaced inputs s written s1 e1 before))

-- Recording an entry keeps it.
pub record-NobodyAbsentPlaced :
    (e : Entry) (s : TxState) (s' : TxState)
    → record_audit e s ≡ ok (tt, s')
    → NobodyAbsentPlaced s.db
    → NobodyAbsentPlaced s'.db
record-NobodyAbsentPlaced e s s' h before = rw (record_audit-frame e s h) before
