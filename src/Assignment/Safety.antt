-- ===== src/Assignment/Safety.antt =====
-- The hard rules: what a placement that nobody had to confirm respects.
use miniclass.Base.{
  ◌≤◌, ◌≡◌, refl, sym, ap, ◌∙◌, subst, Bool, true, false, ◌||◌, List, [], ◌∷◌, Option, none, some,
  Xid, arith, All, contains,
}
use miniclass.Session.{Session}
use miniclass.Store.Rows.{absent, Assignment, Actor, Db, Offering, ProgramMembership}
use miniclass.Store.Tx.{Result, ok, err, TxState, begin_tx}
use miniclass.Store.Atomic.{in_tenant_commits}
use miniclass.Store.Placements.{replace-Replaced}
use miniclass.Assignment.Inputs.{assignment_map}
use miniclass.Assignment.Rules.{
  Move, Violation, placed_in, member_of, offering_of, is_excluded, grade, violations_of,
  evaluate_move, evaluate_manual_assignments,
}
use miniclass.Assignment.Operations.{
  AssignmentOperationInput, AssignmentOperationResult, Change, apply_moves, change_assignments,
  change_assignments_body, resolve, no_violation,
}
use miniclass.Assignment.Runs.{ChangeRun, change_body-ChangeRun, bumped}
use miniclass.Assignment.Placement.{IsDraft}
use miniclass.Assignment.Table.{written-placed_in, table-updated}

-- The student takes part, the offering is of the session, is not excluded for the student, is open to
-- the student's grade, and has room for all who are placed in it.
pub record RespectsRules (db : Db) (rows : List Assignment) (mv : Move) : Type 0 where
  pub member : ProgramMembership
  pub of_member : member_of db mv.0 ≡ some member
  pub takes_part : contains mv.0 (absent db) ≡ false
  pub target : Offering
  pub of_target : offering_of db mv.1 ≡ some target
  pub has_room : placed_in target.id rows ≤ target.capacity
  pub level : Xid
  pub of_level : member.grade_level_id ≡ some level
  pub not_below : grade db target.min_grade_level_id ≤ grade db level
  pub not_above : grade db level ≤ grade db target.max_grade_level_id
  pub not_excluded : is_excluded db mv.0 target.id ≡ false

no_rule-RespectsRules :
    (db : Db) (rows : List Assignment) (mv : Move) (m : ProgramMembership) (o : Offering)
    → member_of db mv.0 ≡ some m
    → contains mv.0 (absent db) ≡ false
    → offering_of db mv.1 ≡ some o
    → violations_of db rows mv.0 m o ≡ []
    → RespectsRules db rows mv
unfolding violations_of
no_rule-RespectsRules db rows mv m o of_m part of_o h = go m.grade_level_id refl
  where
    go : (g : Option Xid) → m.grade_level_id ≡ g → RespectsRules db rows mv
    go none e = absurd (ground arith)
    go (some g) e = record {
      member = m;
      of_member = of_m;
      takes_part = part;
      target = o;
      of_target = of_o;
      has_room = ground arith;
      level = g;
      of_level = e;
      not_below = ground arith;
      not_above = ground arith;
      not_excluded = ground arith;
    }

evaluate_move-RespectsRules :
    (db : Db) (rows : List Assignment) (mv : Move)
    → evaluate_move db rows mv ≡ ok []
    → RespectsRules db rows mv
unfolding evaluate_move
evaluate_move-RespectsRules db rows mv h =
    go (member_of db mv.0) refl (contains mv.0 (absent db)) refl (offering_of db mv.1) refl
  where
    go :
        (m : Option ProgramMembership)
        → member_of db mv.0 ≡ m
        → (b : Bool) → contains mv.0 (absent db) ≡ b
        → (o : Option Offering) → offering_of db mv.1 ≡ o
        → RespectsRules db rows mv
    go none e b f o g = absurd (ground arith)
    go (some m) e true f o g = absurd (ground arith)
    go (some m) e false f none g = absurd (ground arith)
    go (some m) e false f (some o) g = no_rule-RespectsRules db rows mv m o e f g (ground arith)

-- No violation of a list of moves is none of each.
evaluate-each :
    (db : Db) (rows : List Assignment) (l : List Move)
    → evaluate_manual_assignments db rows l ≡ ok []
    → All (RespectsRules db rows) l
unfolding evaluate_manual_assignments
evaluate-each db rows [] h = tt
evaluate-each db rows (mv ∷ l) h =
    go (evaluate_move db rows mv) refl (evaluate_manual_assignments db rows l) refl
      (evaluate-each db rows l)
  where
    go :
        (r : Result (List Violation))
        → evaluate_move db rows mv ≡ r
        → (q : Result (List Violation)) → evaluate_manual_assignments db rows l ≡ q
        → (evaluate_manual_assignments db rows l ≡ ok [] → All (RespectsRules db rows) l)
        → RespectsRules db rows mv × All (RespectsRules db rows) l
    go (err e) f q g rest = absurd (ground arith)
    go (ok vs) f (err e) g rest = absurd (ground arith)
    go (ok []) f (ok []) g rest = (evaluate_move-RespectsRules db rows mv f, rest g)
    go (ok []) f (ok (w ∷ ws)) g rest = absurd (ground arith)
    go (ok (v ∷ vs)) f (ok ws) g rest = absurd (ground arith)

-- The rules read neither the session nor more of the rows than how many are in an offering.
carry :
    (s : TxState) (row : Session) (rows rows' : List Assignment)
    → ((o : Xid) → placed_in o rows' ≡ placed_in o rows)
    → (l : List Move) → All (RespectsRules (bumped s row).db rows) l
    → All (RespectsRules s.db rows') l
carry s row rows rows' e [] h = tt
carry s row rows rows' e (mv ∷ l) h =
    let r = h.0 in
    (
      record {
        member = r.member;
        of_member = r.of_member;
        takes_part = r.takes_part;
        target = r.target;
        of_target = r.of_target;
        has_room = rw (e r.target.id) r.has_room;
        level = r.level;
        of_level = r.of_level;
        not_below = r.not_below;
        not_above = r.not_above;
        not_excluded = r.not_excluded;
      },
      carry s row rows rows' e l h.1,
    )

no_violation-nil : (vs : List Violation) → (no_violation vs || false) ≡ true → vs ≡ []
no_violation-nil [] h = refl
no_violation-nil (v ∷ vs) h = absurd (ground arith)

run-RespectsRules :
    (input : AssignmentOperationInput) (change : Change) (s s' : TxState)
    (result : AssignmentOperationResult) (d : IsDraft s.db)
    → input.confirm_violations ≡ false
    → (run : ChangeRun input change s result s')
    → (resolve change s.db.assignments ≡ ok run.l)
      × All (RespectsRules s.db s'.db.assignments) run.l
run-RespectsRules input change s s' result d unconfirmed run =
    let none_found =
      no_violation-nil run.violations
        (subst (λ b. (no_violation run.violations || b) ≡ true) unconfirmed run.confirmed) in
    let final = apply_moves run.l (assignment_map run.advanced.db.assignments) in
    let same : (o : Xid) → placed_in o s'.db.assignments ≡ placed_in o final = λ o.
      ap (placed_in o) (table-updated d run)
      ∙ written-placed_in _ _ o run.updated final
          (replace-Replaced _ run.advanced run.replaces).written in
    (
      ap (λ u. resolve change u.db.assignments) (sym run.advances) ∙ run.resolved,
      carry s run.row final s'.db.assignments same run.l (
          subst (λ u. All (RespectsRules u.db final) run.l) run.advances
            (evaluate-each run.advanced.db final run.l (run.evaluated ∙ ap ok none_found))),
    )

-- A placement or an exchange that succeeds without confirmed violations places every student that it
-- moves by the hard rules: the student takes part, and the offering belongs to the session, is open to
-- the student's grade, is not excluded for the student, and afterwards holds no more students than its
-- capacity.
pub change_assignments-RespectsRules :
    (actor : Actor) (input : AssignmentOperationInput) (change : Change) (db : Db) (d : IsDraft db)
    (result : AssignmentOperationResult)
    → input.confirm_violations ≡ false
    → (change_assignments actor input change db).0 ≡ ok result
    → (l : List Move) × (resolve change db.assignments ≡ ok l)
      × All (RespectsRules db (change_assignments actor input change db).1.assignments) l
unfolding change_assignments
change_assignments-RespectsRules actor input change db d result unconfirmed h =
    let (s, ran, ends, _, _) =
      in_tenant_commits actor (change_assignments_body input change) db result h in
    let run = change_body-ChangeRun input change (begin_tx db actor false) result s ran in
    let (resolved, rules) =
      run-RespectsRules input change (begin_tx db actor false) s result d unconfirmed run in
    (
      run.l,
      resolved,
      subst (λ after. All (RespectsRules db after.assignments) run.l) (sym ends) rules,
    )
