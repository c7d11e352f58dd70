-- ===== src/Assignment/Moves.antt =====
-- What a move, an exchange and a removal do to the placements of every student.
use miniclass.Base.{
  ◌==◌, ◌≡◌, refl, sym, ap, ◌∙◌, subst, Bool, true, false, List, [], ◌∷◌, Option, none, some,
  if◌then◌else◌, Xid, arith,
}
use miniclass.Store.Rows.{Assignment, Actor, Db}
use miniclass.Store.Tx.{
  Error, students_must_differ, Result, ok, err, TxState, begin_tx, in_tenant, Tx,
}
use miniclass.Store.Atomic.{in_tenant_commits}
use miniclass.Store.Replace.{assignment_of}
use miniclass.Assignment.Inputs.{assignment_map}
use miniclass.Assignment.Operations.{
  AssignmentOperationInput, AssignmentOperationResult, moves, swap, change_assignments,
  change_assignments_body, move_assignment, swap_assignments, resolve,
}
use miniclass.Assignment.Rules.{Move}
use miniclass.Assignment.Runs.{ChangeRun, change_body-ChangeRun}
use miniclass.Assignment.Frames.{map-assignment_of}
use miniclass.Assignment.Placement.{IsDraft, placement_of, placed, single-lookup, double-lookup}

err-ok : {A : Type 0} {e : Error} {a : A} → ◌≡◌ {A = Result A} (err e) (ok a) → ⊥
err-ok h = cc

-- A move that succeeds puts the student in the offering, by hand and pinned, with the quality that
-- the student's answer gives, and leaves every other student where they were.
pub move_assignment-places :
    (actor : Actor) (input : AssignmentOperationInput) (x o k : Xid) (db : Db) (d : IsDraft db)
    (result : AssignmentOperationResult)
    → (move_assignment actor input x o db).0 ≡ ok result
    → placement_of (move_assignment actor input x o db).1 k ≡ placed db x o (placement_of db) k
unfolding move_assignment change_assignments resolve
move_assignment-places actor input x o k db d result h =
    let body = change_assignments_body input (moves ((x, o) ∷ [])) in
    let (s, ran, ends, _, _) = in_tenant_commits actor body db result h in
    let run =
      change_body-ChangeRun input (moves ((x, o) ∷ [])) (begin_tx db actor false) result s ran in
    subst (λ after. placement_of after k ≡ placed db x o (placement_of db) k) (sym ends)
      (single-lookup d run x o k (moves-eq run.resolved))
  where
    moves-eq : {l l' : List Move} → ◌≡◌ {A = Result (List Move)} (ok l) (ok l') → l' ≡ l
    moves-eq e = cc

resolve_swap-eq :
    (x y : Xid) (rows : List Assignment) (l : List Move)
    → resolve (swap x y) rows ≡ ok l
    → (a : Assignment) × (b : Assignment) × (assignment_of x (assignment_map rows) ≡ some a)
      × (assignment_of y (assignment_map rows) ≡ some b)
      × (l ≡ (x, b.offering_id) ∷ (y, a.offering_id) ∷ [])
unfolding resolve
resolve_swap-eq x y rows l h =
    go (assignment_of x (assignment_map rows)) (assignment_of y (assignment_map rows)) refl refl
  where
    go :
        (p q : Option Assignment)
        → assignment_of x (assignment_map rows) ≡ p
        → assignment_of y (assignment_map rows) ≡ q
        → (a : Assignment) × (b : Assignment) × (assignment_of x (assignment_map rows) ≡ some a)
          × (assignment_of y (assignment_map rows) ≡ some b)
          × (l ≡ (x, b.offering_id) ∷ (y, a.offering_id) ∷ [])
    go (some a) (some b) e f = (a, b, e, f, ground arith)
    go none q e f = absurd (ground arith)
    go (some a) none e f = absurd (ground arith)

-- Both students were placed, and each now has the offering of the other.
pub record Exchanged (before after : Db) (x y : Xid) : Type 0 where
  pub first : Assignment
  pub second : Assignment
  pub of_first : assignment_of x before.assignments ≡ some first
  pub of_second : assignment_of y before.assignments ≡ some second
  pub after_exchange :
      (k : Xid)
      → placement_of after k
        ≡ placed before y first.offering_id
            (placed before x second.offering_id (placement_of before))
            k

swap_run-Exchanged :
    (input : AssignmentOperationInput) (x y : Xid) (s s' : TxState) (d : IsDraft s.db)
    (result : AssignmentOperationResult)
    → ChangeRun input (swap x y) s result s'
    → Exchanged s.db s'.db x y
swap_run-Exchanged input x y s s' d result run =
    let (a, b, at_x, at_y, l) =
      resolve_swap-eq x y s.db.assignments run.l
        (ap (λ u. resolve (swap x y) u.db.assignments) (sym run.advances) ∙ run.resolved) in
    record {
      first = a;
      second = b;
      of_first = sym (map-assignment_of x s.db.assignments d.sorted) ∙ at_x;
      of_second = sym (map-assignment_of y s.db.assignments d.sorted) ∙ at_y;
      after_exchange = λ k. double-lookup d run x b.offering_id y a.offering_id k l;
    }

abbrev exchange_body : AssignmentOperationInput → Xid → Xid → Tx AssignmentOperationResult
exchange_body input x y = change_assignments_body input (swap x y)

-- An exchange that succeeds had two placed students; each takes the offering of the other, by hand
-- and pinned, and every other student stays.
pub swap_assignments-Exchanged :
    (actor : Actor) (input : AssignmentOperationInput) (x y : Xid) (db : Db) (d : IsDraft db)
    (result : AssignmentOperationResult)
    → (swap_assignments actor input x y db).0 ≡ ok result
    → Exchanged db (swap_assignments actor input x y db).1 x y
unfolding swap_assignments change_assignments
swap_assignments-Exchanged actor input x y db d result h = go (x == y) h
  where
    go :
        (same : Bool)
        → (if same
            then (err students_must_differ, db)
            else in_tenant actor (exchange_body input x y) db).0
          ≡ ok result
        → Exchanged db
            (if same
              then (err students_must_differ, db)
              else in_tenant actor (exchange_body input x y) db).1
            x
            y
    go true e = absurd (err-ok e)
    go false e =
        let (s, ran, ends, _, _) = in_tenant_commits actor (exchange_body input x y) db result e in
        subst (λ after. Exchanged db after x y) (sym ends)
          (swap_run-Exchanged input x y _ s d result
            (change_body-ChangeRun input (swap x y) _ result s ran))
