-- ===== src/Exclusion/Effects.antt =====
-- What adding an exclusion does, and what it forbids from then on.
use miniclass.Base.{
  ℕ, ◌==◌, ◌≡◌, ◌≢◌, refl, sym, ap, ◌∙◌, subst, Bool, true, false, ◌||◌, List, [], ◌∷◌, Option,
  none, some, any, keep, find_first, Xid, arith, inl, inr, ◌⊎◌, eq_of_==, All, In, All-In, ==_refl,
}
use miniclass.Base.Sort.{insert_sorted}
use miniclass.Store.Rows.{Actor, AssignmentExclusion, Offering, Db}
use miniclass.Store.Tx.{Result, ok, TxState, begin_tx, no_audit_required}
use miniclass.Store.Steps.{found_rule, pure_inj}
use miniclass.Store.Atomic.{in_tenant_commits}
use miniclass.Store.Queries.{get_session, list_assignments}
use miniclass.Store.Editing.{excludes, exclusion_less, list_assignment_exclusions}
use miniclass.Assignment.Placement.{IsDraft}
use miniclass.Assignment.Rules.{Move, is_excluded, offering_of}
use miniclass.Assignment.Operations.{
  AssignmentOperationInput, AssignmentOperationResult, Change, resolve, change_assignments,
}
use miniclass.Assignment.Safety.{RespectsRules, change_assignments-RespectsRules}
use miniclass.Exclusion.{
  AssignmentExclusionResult, conflicts_with, add_unless, add_body, add_assignment_exclusion,
  assignment_exclusion_result,
}
use miniclass.Exclusion.Runs.{Added, add_new-Added}

-- The exclusion was there, and nothing happened.
pub record Present (student offering : Xid) (result : AssignmentExclusionResult) (before after : Db)
    : Type 0 where
  pub there : any (excludes student offering) before.exclusions ≡ true
  pub unchanged : after ≡ before
  pub listed : result.exclusions ≡ before.exclusions
  pub conflicts :
      result.conflicting_assignments ≡ keep (conflicts_with student offering) before.assignments

find_first-any :
    (p : AssignmentExclusion → Bool) (l : List AssignmentExclusion) (e : AssignmentExclusion)
    → find_first p l ≡ some e
    → any p l ≡ true
find_first-any p [] e h = cc
find_first-any p (x ∷ l) e h = ground (arith, find_first-any p l e)

any-insert_sorted :
    (p : AssignmentExclusion → Bool) (less : AssignmentExclusion → AssignmentExclusion → Bool)
    (x : AssignmentExclusion) (l : List AssignmentExclusion)
    → any p (insert_sorted less x l) ≡ (p x || any p l)
unfolding insert_sorted
any-insert_sorted p less x [] = refl
any-insert_sorted p less x (y ∷ l) = ground (arith, any-insert_sorted p less x l)

body-outcome :
    (input : AssignmentOperationInput) (student offering : Xid) (s : TxState)
    (result : AssignmentExclusionResult) (s' : TxState)
    → add_body input student offering s ≡ ok (result, s')
    → Added input student offering result s.db s'.db ⊎ Present student offering result s.db s'.db
unfolding add_body get_session list_assignment_exclusions no_audit_required
    assignment_exclusion_result list_assignments
body-outcome input student offering s result s' h = found_rule s.db.session _ s _ h λ row found k1.
    branch row.draft_revision (find_first (excludes student offering) s.db.exclusions) refl k1
  where
    branch :
        (revision : ℕ) (o : Option AssignmentExclusion)
        → find_first (excludes student offering) s.db.exclusions ≡ o
        → add_unless input student offering revision s.db.exclusions o s ≡ ok (result, s')
        → Added input student offering result s.db s'.db
          ⊎ Present student offering result s.db s'.db
    branch revision none e k = inl (add_new-Added input student offering s result s' k)
    branch revision (some x) e k =
        let (same, at) = pure_inj k in
        inr (record {
          there = find_first-any _ s.db.exclusions x e;
          unchanged = ap (λ t. t.db) at;
          listed = ap (λ r. r.exclusions) same;
          conflicts = ap (λ r. r.conflicting_assignments) same;
        })

-- An addition that succeeds adds the exclusion, or found it.
pub add_assignment_exclusion-outcome :
    (actor : Actor) (input : AssignmentOperationInput) (student offering : Xid) (db : Db)
    (result : AssignmentExclusionResult)
    → (add_assignment_exclusion actor input student offering db).0 ≡ ok result
    → Added input student offering result db
        (add_assignment_exclusion actor input student offering db).1
      ⊎ Present student offering result db
          (add_assignment_exclusion actor input student offering db).1
unfolding add_assignment_exclusion
add_assignment_exclusion-outcome actor input student offering db result h =
    let (s, ran, ends, _, _) =
      in_tenant_commits actor (add_body input student offering) db result h in
    subst
      (λ after.
        Added input student offering result db after ⊎ Present student offering result db after)
      (sym ends) (body-outcome input student offering (begin_tx db actor false) result s ran)

-- Authoring a rule never moves a student: an addition that succeeds leaves every placement and every
-- override as it was, names exactly the placements that the rule now forbids, and has the exclusion in
-- the table.
pub add_assignment_exclusion-moves_nobody :
    (actor : Actor) (input : AssignmentOperationInput) (student offering : Xid) (db : Db)
    (result : AssignmentExclusionResult)
    → (add_assignment_exclusion actor input student offering db).0 ≡ ok result
    → ((add_assignment_exclusion actor input student offering db).1.assignments ≡ db.assignments)
      × ((add_assignment_exclusion actor input student offering db).1.overrides ≡ db.overrides)
      × (result.conflicting_assignments ≡ keep (conflicts_with student offering) db.assignments)
      × (is_excluded (add_assignment_exclusion actor input student offering db).1 student offering
          ≡ true)
add_assignment_exclusion-moves_nobody actor input student offering db result h =
    go (add_assignment_exclusion-outcome actor input student offering db result h)
  where
    after : Db
    after = (add_assignment_exclusion actor input student offering db).1

    go :
        Added input student offering result db after ⊎ Present student offering result db after
        → (after.assignments ≡ db.assignments)
          × (after.overrides ≡ db.overrides)
          × (result.conflicting_assignments ≡ keep (conflicts_with student offering) db.assignments)
          × (any (excludes student offering) after.exclusions ≡ true)
    go (inr p) = (
      ap (λ d. d.assignments) p.unchanged,
      ap (λ d. d.overrides) p.unchanged,
      p.conflicts,
      ap (λ d. any (excludes student offering) d.exclusions) p.unchanged ∙ p.there,
    )
    go (inl a) =
        let own : excludes student offering a.created ≡ true =
          rw a.of_pair (ground (arith, ==_refl student, ==_refl offering)) in
        (
          a.same_assignments,
          a.same_overrides,
          a.conflicts,
          ap (any (excludes student offering)) a.table
              ∙ any-insert_sorted (excludes student offering) exclusion_less a.created db.exclusions
              ∙ ap (λ b. b || any (excludes student offering) db.exclusions) own,
        )

result_inj : {A : Type 0} {a b : A} → ◌≡◌ {A = Result A} (ok a) (ok b) → a ≡ b
result_inj h = cc

find_first-id :
    (db : Db) (o : Xid) (target : Offering) → offering_of db o ≡ some target → target.id ≡ o
find_first-id db o target h = go db.offerings h
  where
    go : (l : List Offering) → find_first (λ x. x.id == o) l ≡ some target → target.id ≡ o
    go [] e = cc
    go (x ∷ l) e = ground (arith, go l, eq_of_== x.id o)

-- Every pair that is excluded stays so.
abbrev KeepsExclusions : Db → Db → Type 0
KeepsExclusions before after =
    (student offering : Xid)
    → is_excluded before student offering ≡ true
    → is_excluded after student offering ≡ true

-- No unconfirmed change puts a student into an offering that is excluded for them.
excluded-refuses :
    (mover : Actor) (request : AssignmentOperationInput) (change : Change) (db : Db) (l : List Move)
    (student offering : Xid) (moved : AssignmentOperationResult)
    → IsDraft db
    → is_excluded db student offering ≡ true
    → resolve change db.assignments ≡ ok l
    → In (student, offering) l
    → request.confirm_violations ≡ false
    → (change_assignments mover request change db).0 ≢ ok moved
excluded-refuses mover request change db l student offering moved d excluded resolved inside
      unconfirmed success =
    let (l', resolved', rules) =
      change_assignments-RespectsRules mover request change db d moved unconfirmed success in
    let same : l' ≡ l = result_inj (sym resolved' ∙ resolved) in
    let after = (change_assignments mover request change db).1.assignments in
    let rule =
      All-In (RespectsRules db after) (student, offering) l
        (subst (All (RespectsRules db after)) same rules) inside in
    let own = find_first-id db offering rule.target rule.of_target in
    let allowed = rw own at rule.not_excluded in cc

-- Once an exclusion is added, and while the exclusions that there are then are kept, no placement or
-- exchange that would put the student into the offering succeeds on a well-formed draft unless its
-- violations are confirmed, however the rows changed since.
pub add_assignment_exclusion-forbids :
    (actor : Actor) (input : AssignmentOperationInput) (student offering : Xid) (db : Db)
    (result : AssignmentExclusionResult)
    → (add_assignment_exclusion actor input student offering db).0 ≡ ok result
    → (later : Db)
    → KeepsExclusions (add_assignment_exclusion actor input student offering db).1 later
    → IsDraft later
    → (mover : Actor) (request : AssignmentOperationInput) (change : Change) (l : List Move)
    → resolve change later.assignments ≡ ok l
    → In (student, offering) l
    → request.confirm_violations ≡ false
    → (moved : AssignmentOperationResult)
    → (change_assignments mover request change later).0 ≢ ok moved
add_assignment_exclusion-forbids actor input student offering db result h later keeps draft mover
      request change l resolved inside unconfirmed moved =
    let (_, _, _, excluded) =
      add_assignment_exclusion-moves_nobody actor input student offering db result h in
    excluded-refuses mover request change later l student offering moved draft
      (keeps student offering excluded) resolved inside unconfirmed
