-- ===== src/Exclusion/Undo.antt =====
-- An exclusion that is added and then removed.
use miniclass.Base.{
  ℕ, suc, ◌<◌, ◌==◌, ◌≡◌, refl, sym, ap, ◌∙◌, Bool, true, false, not, ◌&&◌, List, [], ◌∷◌, Option,
  some, any, keep, find_first, Xid, arith, All, Bool-cases, inl, inr, ◌⊎◌,
}
use miniclass.Base.Sort.{insert_sorted}
use miniclass.Base.Text.{trim_space}
use miniclass.Session.{Session}
use miniclass.Store.Rows.{Actor, Assignment, AssignmentExclusion, Entry, exclusion, Db}
use miniclass.Store.Tx.{
  ok, TxState, begin_tx, and_then, record_audit, stored, in_tenant, validate_actor, commit, found,
  no_rows, ◌>>=◌,
}
use miniclass.Store.Queries.{get_session, list_assignments, advance_or_conflict}
use miniclass.Store.Editing.{
  excludes, exclusion_less, list_assignment_exclusions, delete_assignment_exclusion,
  delete_assignment_override_rule, same_rule,
}
use miniclass.Assignment.Operations.{AssignmentOperationInput}
use miniclass.Assignment.Runs.{bumped}
use miniclass.Exclusion.{
  AssignmentExclusionResult, conflicts_with, exclusion_entry, remove_if, remove_found, remove_body,
  delete_exclusion_overrides, add_assignment_exclusion, remove_assignment_exclusion,
}
use miniclass.Exclusion.Runs.{Added}
use miniclass.Exclusion.Effects.{Present, add_assignment_exclusion-outcome}

-- Every exclusion was created before the identifier that comes next.
abbrev pub IsNumbered : Db → Type 0
IsNumbered db = All (λ e. e.id < db.next_id) db.exclusions

abbrev has_id : Xid → AssignmentExclusion → Bool
has_id id e = e.id == id

module _ (n : Xid) (created : AssignmentExclusion) (own : created.id ≡ n) where
  keep-insert_sorted :
      (l : List AssignmentExclusion)
      → All (λ e. e.id < n) l
      → keep (λ e. not (e.id == n)) (insert_sorted exclusion_less created l) ≡ l
  unfolding insert_sorted
  keep-insert_sorted [] h = ground arith
  keep-insert_sorted (x ∷ l) h = ground (arith, keep-insert_sorted l, keep_old l h.1)
    where
      keep_old :
          (l : List AssignmentExclusion) → All (λ e. e.id < n) l → keep (λ e. not (e.id == n)) l ≡ l
      keep_old [] h = refl
      keep_old (x ∷ l) h = ground (arith, keep_old l h.1)

  find_first-insert_sorted :
      (l : List AssignmentExclusion)
      → All (λ e. e.id < n) l
      → find_first (λ e. e.id == n) (insert_sorted exclusion_less created l) ≡ some created
  unfolding insert_sorted
  find_first-insert_sorted [] h = ground arith
  find_first-insert_sorted (x ∷ l) h = ground (arith, find_first-insert_sorted l h.1)

-- The loop over the overrides runs to its end and leaves the exclusions alone.
record Cleared (s s' : TxState) : Type 0 where
  same_exclusions : s'.db.exclusions ≡ s.db.exclusions
  same_mode : s'.read_only ≡ s.read_only

abbrev without_rule : Assignment → TxState → TxState
without_rule row s = record s {
  db = record (s.db) {
    overrides =
        keep (λ o. not ((o.assignment_id == row.id) && same_rule o.rule exclusion)) s.db.overrides;
  };
}

overrides_total :
    (target : AssignmentExclusion) (rows : List Assignment) (s : TxState)
    → (s' : TxState) × (delete_exclusion_overrides target rows s ≡ ok (tt, s')) × Cleared s s'
unfolding delete_exclusion_overrides delete_assignment_override_rule
overrides_total target [] s = (s, refl, record { same_exclusions = refl; same_mode = refl })
overrides_total target (a ∷ rows) s =
    elim (Bool-cases (conflicts_with target.student_id target.offering_id a)) [
      | inr e ↦ let (s', ran, c) = overrides_total target rows s in (s', rw e ran, c)
      | inl e ↦
          let (s', ran, c) = overrides_total target rows (without_rule a s) in
          (s', rw e ran, record { same_exclusions = c.same_exclusions; same_mode = c.same_mode })
    ]

advance-ok :
    (expected : ℕ) (s : TxState) (row : Session)
    → s.db.session ≡ some row
    → row.draft_revision ≡ expected
    → advance_or_conflict expected s ≡ ok (suc row.draft_revision, bumped s row)
unfolding advance_or_conflict
advance-ok expected s row found current = ground arith

record_audit-ok :
    (e : Entry) (s : TxState)
    → s.read_only ≡ false
    → (s' : TxState) × (record_audit e s ≡ ok (tt, s'))
      × (s'.db.exclusions ≡ s.db.exclusions)
      × (s'.audit_recorded ≡ true)
unfolding record_audit
record_audit-ok e s h = (
  record s {
    db = record (s.db) {
      audit_log =
          record { actor_label = trim_space s.actor.label; entry = stored e } ∷ s.db.audit_log;
    };
    audit_recorded = true;
  },
  rw h,
  refl,
  refl,
)

-- The removal of an exclusion that is there ends well at the current revision.
record Removed (target : AssignmentExclusion) (s : TxState) (result : AssignmentExclusionResult)
    (s' : TxState) : Type 0 where
  table : s'.db.exclusions ≡ keep (λ e. not (e.id == target.id)) s.db.exclusions
  listed : result.exclusions ≡ keep (λ e. not (e.id == target.id)) s.db.exclusions
  recorded : s'.audit_recorded ≡ true

remove_found-total :
    (input : AssignmentOperationInput) (target : AssignmentExclusion) (s : TxState) (row : Session)
    → s.db.session ≡ some row
    → row.draft_revision ≡ input.expected_revision
    → s.read_only ≡ false
    → (result : AssignmentExclusionResult) × (s' : TxState) × (remove_found input target
          s.db.exclusions s
        ≡ ok (result, s'))
      × Removed target s result s'
unfolding remove_found delete_assignment_exclusion list_assignments
remove_found-total input target s row found current mode =
    let (s1, cleared_ran, cleared) = overrides_total target s.db.assignments (deleted s) in
    let (s2, recorded_ran, same, mark) =
      record_audit-ok (exclusion_entry target input) s1 (cleared.same_mode ∙ mode) in
    (
      record {
        exclusions = keep (λ e. not (e.id == target.id)) s.db.exclusions;
        conflicting_assignments = [];
        draft_revision = suc input.expected_revision;
      },
      s2,
      rw (advance-ok input.expected_revision s row found current, cleared_ran, recorded_ran),
      record { table = same ∙ cleared.same_exclusions; listed = refl; recorded = mark },
    )
  where
    deleted : TxState → TxState
    deleted t = record (bumped t row) {
      db = record ((bumped t row).db) {
        exclusions = keep (λ e. not (e.id == target.id)) t.db.exclusions;
      };
    }

remove_body-found :
    (input : AssignmentOperationInput) (id : Xid) (s : TxState) (row : Session)
    (target : AssignmentExclusion)
    → s.db.session ≡ some row
    → find_first (λ e. e.id == id) s.db.exclusions ≡ some target
    → remove_body input id s ≡ remove_found input target s.db.exclusions s
unfolding remove_body get_session list_assignment_exclusions
remove_body-found input id s row target at hit =
    ap
      (λ (o : Option Session). and_then (found o no_rows s) (λ session.
        list_assignment_exclusions >>= (λ exclusions.
          remove_if input session.draft_revision exclusions
            (find_first (λ e. e.id == id) exclusions))))
      at
    ∙ ap (λ o. remove_if input row.draft_revision s.db.exclusions o s) hit

commit_ok :
    {A : Type 0} (before : Db) (a : A) (s : TxState)
    → s.audit_recorded ≡ true
    → commit before (ok (a, s)) ≡ (ok a, s.db)
commit_ok before a s h = ground arith

-- A new exclusion can be taken back: right after it was added, its removal under the new revision
-- succeeds for every valid actor, and leaves the exclusions as they were before.
pub remove_assignment_exclusion-add :
    (actor remover : Actor) (input : AssignmentOperationInput) (student offering : Xid) (db : Db)
    (result : AssignmentExclusionResult)
    → IsNumbered db
    → any (excludes student offering) db.exclusions ≡ false
    → validate_actor remover ≡ true
    → (add_assignment_exclusion actor input student offering db).0 ≡ ok result
    → let undone =
        remove_assignment_exclusion remover
          (record input { expected_revision = result.draft_revision })
          db.next_id
          (add_assignment_exclusion actor input student offering db).1 in
      (undone.1.exclusions ≡ db.exclusions)
      × ((last : AssignmentExclusionResult) × (undone.0 ≡ ok last)
          × (last.exclusions ≡ db.exclusions))
unfolding remove_assignment_exclusion in_tenant
remove_assignment_exclusion-add actor remover input student offering db result numbered fresh valid
      h =
    go (add_assignment_exclusion-outcome actor input student offering db result h)
  where
    after : Db
    after = (add_assignment_exclusion actor input student offering db).1

    again : AssignmentOperationInput
    again = record input { expected_revision = result.draft_revision }

    go :
        Added input student offering result db after ⊎ Present student offering result db after
        → ((in_tenant remover (remove_body again db.next_id) after).1.exclusions ≡ db.exclusions)
          × ((last : AssignmentExclusionResult) × ((in_tenant remover
                  (remove_body again db.next_id)
                  after).0
                ≡ ok last)
              × (last.exclusions ≡ db.exclusions))
    go (inr p) = absurd (ground (arith, p.there))
    go (inl a) =
        let own : a.created.id ≡ db.next_id = ap (λ e. e.id) a.of_pair in
        let hit : find_first (λ e. e.id == db.next_id) after.exclusions ≡ some a.created =
          ap (find_first (λ e. e.id == db.next_id)) a.table
          ∙ find_first-insert_sorted db.next_id a.created own db.exclusions numbered in
        let row : Session = record (a.row) { draft_revision = suc a.row.draft_revision } in
        let (last, s, ran, removed) =
          remove_found-total again a.created (begin_tx after remover false) row a.session
            (ap suc a.current ∙ sym a.revision) refl in
        let whole =
          remove_body-found again db.next_id (begin_tx after remover false) row a.created a.session
            hit
          ∙ ran in
        let left : keep (λ e. not (e.id == a.created.id)) after.exclusions ≡ db.exclusions =
          ap (λ n. keep (λ e. not (e.id == n)) after.exclusions) own
          ∙ ap (keep (λ e. not (e.id == db.next_id))) a.table
          ∙ keep-insert_sorted db.next_id a.created own db.exclusions numbered in
        let done : in_tenant remover (remove_body again db.next_id) after ≡ (ok last, s.db) =
          rw (valid, whole) (commit_ok after last s removed.recorded) in
        (
          ap (λ r. r.1.exclusions) done ∙ removed.table ∙ left,
          (last, ap (λ r. r.0) done, removed.listed ∙ left),
        )
