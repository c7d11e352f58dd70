-- ===== src/NonParticipation/Kept.antt =====
-- Every operation on absences and on the draft keeps the placed and the absent apart.
use miniclass.Base.{
  ◌==◌, ◌≡◌, refl, ap, ◌∙◌, Bool, false, not, ◌||◌, List, [], ◌∷◌, Option, any, keep, contains, map,
  find_first, Xid, arith, All,
}
use miniclass.Base.Sort.{insert_sorted}
use miniclass.Base.Text.{Text, trim_space}
use miniclass.Store.Rows.{Actor, Assignment, SessionNonParticipation, Db}
use miniclass.Store.Tx.{ok, TxState, record_audit, begin_tx}
use miniclass.Store.Steps.{bind_rule, found_rule, guard_rule, pure_inj}
use miniclass.Store.Atomic.{in_tenant_invariant}
use miniclass.Store.Queries.{get_session}
use miniclass.Store.Editing.{
  absence_less, set_reason, create_session_non_participation, get_session_non_participation,
  update_session_non_participation, delete_session_non_participation,
}
use miniclass.NonParticipation.{
  absence_entry, ensure_program_member, create_body, update_body, delete_body,
  create_session_absence, update_session_absence, delete_session_absence, given_reason,
  is_unchanged, removed_reason,
}
use miniclass.NonParticipation.Invariant.{TakesPart, NobodyAbsentPlaced, record-NobodyAbsentPlaced}

contains-insert :
    (k : Xid) (n : SessionNonParticipation) (l : List SessionNonParticipation)
    → contains k
        (map (λ (m : SessionNonParticipation). m.student_id) (insert_sorted absence_less n l))
      ≡ ((k == n.student_id) || contains k (map (λ (m : SessionNonParticipation). m.student_id) l))
unfolding insert_sorted
contains-insert k n [] = refl
contains-insert k n (m ∷ l) = ground (arith, contains-insert k n l)

insert-TakesPart :
    (n : SessionNonParticipation) (l : List SessionNonParticipation) (rows : List Assignment)
    → any (λ a. a.student_id == n.student_id) rows ≡ false
    → All (TakesPart l) rows
    → All (TakesPart (insert_sorted absence_less n l)) rows
insert-TakesPart n l [] h before = tt
insert-TakesPart n l (a ∷ rows) h before = (
  ground (arith, contains-insert a.student_id n l),
  insert-TakesPart n l rows (ground arith) before.1,
)

create-eq :
    (student : Xid) (reason : Text) (s : TxState) (n : SessionNonParticipation) (s' : TxState)
    → create_session_non_participation student reason s ≡ ok (n, s')
    → (any (λ a. a.student_id == n.student_id) s.db.assignments ≡ false)
      × (s'.db.assignments ≡ s.db.assignments)
      × (s'.db.non_participations ≡ insert_sorted absence_less n s.db.non_participations)
unfolding create_session_non_participation
create-eq student reason s n s' h = ground arith

create-NobodyAbsentPlaced :
    (student : Xid) (reason : Text) (s : TxState) (n : SessionNonParticipation) (s' : TxState)
    → create_session_non_participation student reason s ≡ ok (n, s')
    → NobodyAbsentPlaced s.db
    → NobodyAbsentPlaced s'.db
create-NobodyAbsentPlaced student reason s n s' h before =
    let (unplaced, rows, table) = create-eq student reason s n s' h in
    rw (rows, table) (insert-TakesPart n s.db.non_participations s.db.assignments unplaced before)

set_reason-students :
    (id : Xid) (reason : Text) (l : List SessionNonParticipation)
    → map (λ (m : SessionNonParticipation). m.student_id) (set_reason id reason l)
      ≡ map (λ (m : SessionNonParticipation). m.student_id) l
set_reason-students id reason [] = refl
set_reason-students id reason (n ∷ l) = ground (arith, set_reason-students id reason l)

keep-TakesPart :
    (p : SessionNonParticipation → Bool) (l : List SessionNonParticipation) (a : Assignment)
    → TakesPart l a
    → TakesPart (keep p l) a
keep-TakesPart p [] a h = h
keep-TakesPart p (n ∷ l) a h = ground (arith, keep-TakesPart p l a)

TakesPart-students :
    (l l' : List SessionNonParticipation) (rows : List Assignment)
    → map (λ (m : SessionNonParticipation). m.student_id) l'
      ≡ map (λ (m : SessionNonParticipation). m.student_id) l
    → All (TakesPart l) rows
    → All (TakesPart l') rows
TakesPart-students l l' [] e h = tt
TakesPart-students l l' (a ∷ rows) e h =
    (ap (contains a.student_id) e ∙ h.0, TakesPart-students l l' rows e h.1)

keep-All :
    (p : SessionNonParticipation → Bool) (l : List SessionNonParticipation) (rows : List Assignment)
    → All (TakesPart l) rows
    → All (TakesPart (keep p l)) rows
keep-All p l [] h = tt
keep-All p l (a ∷ rows) h = (keep-TakesPart p l a h.0, keep-All p l rows h.1)

update-eq :
    (id : Xid) (reason : Text) (s : TxState) (n : SessionNonParticipation) (s' : TxState)
    → update_session_non_participation id reason s ≡ ok (n, s')
    → (s'.db.assignments ≡ s.db.assignments)
      × (s'.db.non_participations ≡ set_reason id (trim_space reason) s.db.non_participations)
unfolding update_session_non_participation
update-eq id reason s n s' h = ground arith

member-eq :
    (student : Xid) (s s' : TxState) → ensure_program_member student s ≡ ok (tt, s') → s' ≡ s
unfolding ensure_program_member
member-eq student s s' h = ground arith

module _ (actor : Actor) (db : Db) (before : NobodyAbsentPlaced db) where
  -- A student becomes absent only where they are not placed.
  pub create_session_absence-NobodyAbsentPlaced :
      (student : Xid) (reason : Text)
      → NobodyAbsentPlaced (create_session_absence actor student reason db).1
  unfolding create_session_absence create_body get_session
  create_session_absence-NobodyAbsentPlaced student reason =
      in_tenant_invariant NobodyAbsentPlaced actor (create_body student reason) db before λ n s h.
        found_rule db.session _ (begin_tx db actor false) _ h λ row found k1.
          bind_rule (ensure_program_member student (begin_tx db actor false)) _ k1 λ _ s1 e1 k2.
            bind_rule (create_session_non_participation student reason s1) _ k2 λ created s2 e2 k3.
              bind_rule (record_audit (absence_entry created.id created.reason) s2) _ k3
                λ _ s3 e3 k4. rw (pure_inj k4).1 (
                  record-NobodyAbsentPlaced (absence_entry created.id created.reason) s2 s3 e3 (
                    create-NobodyAbsentPlaced student reason s1 created s2 e2
                      (rw (member-eq student (begin_tx db actor false) s1 e1) before)))

  pub update_session_absence-NobodyAbsentPlaced :
      (id : Xid) (reason : Option Text)
      → NobodyAbsentPlaced (update_session_absence actor id reason db).1
  unfolding update_session_absence update_body get_session_non_participation
  update_session_absence-NobodyAbsentPlaced id reason =
      in_tenant_invariant NobodyAbsentPlaced actor (update_body id reason) db before λ n s h.
        found_rule (find_first (λ n. n.id == id) db.non_participations) _ (begin_tx db actor false)
          _ h
          λ current hit k1.
            guard_rule (not (is_unchanged reason current)) _ (begin_tx db actor false) _ k1
              λ changed k2.
                bind_rule
                  (update_session_non_participation id (given_reason reason)
                    (begin_tx db actor false))
                  _ k2
                  λ updated s1 e1 k3.
                    bind_rule (record_audit (absence_entry id updated.reason) s1) _ k3 λ _ s2 e2 k4.
                      let (rows, table) =
                        update-eq id (given_reason reason) (begin_tx db actor false) updated s1
                          e1 in
                      rw (pure_inj k4).1 (
                        record-NobodyAbsentPlaced (absence_entry id updated.reason) s1 s2 e2 (
                          rw (rows, table)
                            (TakesPart-students db.non_participations
                              (set_reason id (trim_space (given_reason reason))
                                db.non_participations)
                              db.assignments
                              (set_reason-students id (trim_space (given_reason reason))
                                db.non_participations)
                              before)))

  pub delete_session_absence-NobodyAbsentPlaced :
      (id : Xid) → NobodyAbsentPlaced (delete_session_absence actor id db).1
  unfolding delete_session_absence delete_body get_session_non_participation
      delete_session_non_participation
  delete_session_absence-NobodyAbsentPlaced id =
      in_tenant_invariant NobodyAbsentPlaced actor (delete_body id) db before λ n s h.
        found_rule (find_first (λ n. n.id == id) db.non_participations) _ (begin_tx db actor false)
          _ h
          λ current hit k1.
            guard_rule (any (λ n. n.id == id) db.non_participations) _ (deleted id) _ k1 λ there k2.
              record-NobodyAbsentPlaced (absence_entry id removed_reason) (deleted id) s k2
                (keep-All (λ n. not (n.id == id)) db.non_participations db.assignments before)
    where
      deleted : Xid → TxState
      deleted id = record (begin_tx db actor false) {
        db = record db { non_participations = keep (λ n. not (n.id == id)) db.non_participations };
      }
