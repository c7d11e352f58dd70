-- ===== src/Assignment/Frames.antt =====
-- What the steps of a manual operation leave alone, and lookups in the map of a draft.
use mathlib.Core.Option
use miniclass.Base.{◌≡◌, refl, sym, ap, ◌∙◌, List, [], ◌∷◌, none, some, Xid, arith, map}
use miniclass.Base.Int.{ℤ}
use miniclass.Base.Text.{Text}
use miniclass.Base.Keyed.{get, put, get-put, IsSorted, put-IsSorted, get-map, IsSorted-map}
use miniclass.Store.Rows.{Assignment, Rule, SessionResultAnswer, CreateAssignmentInput}
use miniclass.Store.Tx.{ok, TxState}
use miniclass.Store.Steps.{bind_rule, pure_inj}
use miniclass.Store.Queries.{create_assignment_override}
use miniclass.Store.Replace.{student, assignment_of}
use miniclass.Store.Placements.{content, get-above_none}
use miniclass.Assignment.Inputs.{
  assignment_map_from, assignment_map, assignment_input, assignment_inputs,
}
use miniclass.Assignment.Rules.{Move, Violation}
use miniclass.Assignment.Operations.{write_rules, write_overrides, apply_moves, place_row}

-- The session, the draft, the log and the actor are the same.
pub record SameDraft (s s' : TxState) : Type 0 where
  pub same_session : s'.db.session ≡ s.db.session
  pub same_assignments : s'.db.assignments ≡ s.db.assignments
  pub same_log : s'.db.audit_log ≡ s.db.audit_log
  pub same_actor : s'.actor ≡ s.actor
  pub same_absent : s'.db.non_participations ≡ s.db.non_participations

SameDraft-refl : (s : TxState) → SameDraft s s
SameDraft-refl s = record {
  same_session = refl;
  same_assignments = refl;
  same_log = refl;
  same_actor = refl;
  same_absent = refl;
}

SameDraft-trans : {s t u : TxState} → SameDraft s t → SameDraft t u → SameDraft s u
SameDraft-trans a b = record {
  same_session = b.same_session ∙ a.same_session;
  same_assignments = b.same_assignments ∙ a.same_assignments;
  same_log = b.same_log ∙ a.same_log;
  same_actor = b.same_actor ∙ a.same_actor;
  same_absent = b.same_absent ∙ a.same_absent;
}

create_override-SameDraft :
    (id : Xid) (rule : Rule) (reason recorder : Text) (s : TxState) {s' : TxState}
    → create_assignment_override id rule reason recorder s ≡ ok (tt, s')
    → SameDraft s s'
unfolding create_assignment_override
create_override-SameDraft id rule reason recorder s h = ground arith

write_rules-SameDraft :
    (id : Xid) (reason : Text) (rules : List Rule) (s : TxState) {s' : TxState}
    → write_rules id reason rules s ≡ ok (tt, s')
    → SameDraft s s'
unfolding write_rules
write_rules-SameDraft id reason [] s h = rw (pure_inj h).1 (SameDraft-refl s)
write_rules-SameDraft id reason (rule ∷ rules) s h =
    bind_rule (create_assignment_override id rule reason s.actor.label s) _ h λ _ s1 e1 k1.
      SameDraft-trans (create_override-SameDraft id rule reason s.actor.label s e1)
        (write_rules-SameDraft id reason rules s1 k1)

pub write_overrides-SameDraft :
    (l : List Move) (vs : List Violation) (reason : Text) (rows : List Assignment) (s : TxState)
    {s' : TxState}
    → write_overrides l vs reason rows s ≡ ok (tt, s')
    → SameDraft s s'
unfolding write_overrides
write_overrides-SameDraft l vs reason [] s h = rw (pure_inj h).1 (SameDraft-refl s)
write_overrides-SameDraft l vs reason (row ∷ rows) s h =
    bind_rule (write_rules row.id reason _ s) _ h λ _ s1 e1 k1.
      SameDraft-trans (write_rules-SameDraft row.id reason _ s e1)
        (write_overrides-SameDraft l vs reason rows s1 k1)

-- A lookup in the map made of a sorted table.
map_from-assignment_of :
    (k : Xid) (acc rows : List Assignment)
    → IsSorted student rows
    → assignment_of k (assignment_map_from acc rows)
      ≡ elim (assignment_of k rows) [ some row ↦ some row | none ↦ assignment_of k acc ]
unfolding assignment_map_from
map_from-assignment_of k acc [] h = refl
map_from-assignment_of k acc (row ∷ rows) h =
    map_from-assignment_of k (put student row acc) rows h.1
    ∙ ground (arith, get-put student k row acc, get-above_none k rows row h)

pub map-assignment_of :
    (k : Xid) (rows : List Assignment)
    → IsSorted student rows
    → assignment_of k (assignment_map rows) ≡ assignment_of k rows
unfolding assignment_map
map-assignment_of k rows h = ground (arith, map_from-assignment_of k [] rows h)

map_from-IsSorted :
    (acc rows : List Assignment)
    → IsSorted student acc
    → IsSorted student (assignment_map_from acc rows)
unfolding assignment_map_from
map_from-IsSorted acc [] h = h
map_from-IsSorted acc (row ∷ rows) h =
    map_from-IsSorted (put student row acc) rows (put-IsSorted student row acc h)

pub map-IsSorted : (rows : List Assignment) → IsSorted student (assignment_map rows)
unfolding assignment_map
map-IsSorted rows = map_from-IsSorted [] rows tt

pub apply_moves-IsSorted :
    (l : List Move) (rows : List Assignment)
    → IsSorted student rows
    → IsSorted student (apply_moves l rows)
unfolding apply_moves
apply_moves-IsSorted [] rows h = h
apply_moves-IsSorted ((s, o) ∷ l) rows h =
    apply_moves-IsSorted l _ (put-IsSorted student (place_row (assignment_of s rows) (s, o)) rows h)

abbrev pub target : CreateAssignmentInput → Xid
target input = input.student_id

-- Rows that were written from the inputs of a sorted map are sorted, and hold the same placements.
module _ (answers : List SessionResultAnswer) (bound : ℤ) (rows final : List Assignment)
    (written : map content rows ≡ assignment_inputs final answers bound) where
  pub written-IsSorted : IsSorted student final → IsSorted student rows
  unfolding assignment_inputs
  written-IsSorted h =
      rw (IsSorted-map target content rows) at
        (rw (← written) at (rw (← IsSorted-map target (assignment_input answers bound) final) at h))

  pub written-lookup :
      (k : Xid)
      → Option.map content (assignment_of k rows)
        ≡ Option.map (assignment_input answers bound) (assignment_of k final)
  unfolding assignment_inputs
  written-lookup k =
      sym (get-map target content k rows)
      ∙ (ap (get target k) written ∙ get-map target (assignment_input answers bound) k final)
