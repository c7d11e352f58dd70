-- ===== src/Exclusion/Tests.antt =====
-- Exclusions in the sample session.
use miniclass.Base.{[], ◌∷◌, inl, ◌≡◌, ◌≢◌, refl, true, [], keep, arith}
use miniclass.Session.{SessionState}
use miniclass.Store.Rows.{Db}
use miniclass.Store.Tx.{
  ok, err, draft_revision_conflict, offering_not_found, in_tenant, validate_actor,
}
use miniclass.Samples.{db_in, organizer, request, value}
use miniclass.Assignment.Placement.{IsDraft}
use miniclass.Assignment.Rules.{is_excluded}
use miniclass.Assignment.Operations.{AssignmentOperationResult, moves, resolve, change_assignments}
use miniclass.Exclusion.{
  AssignmentExclusionResult, conflicts_with, add_assignment_exclusion, remove_assignment_exclusion,
}
use miniclass.Exclusion.Effects.{
  add_assignment_exclusion-moves_nobody, add_assignment_exclusion-forbids,
}
use miniclass.Exclusion.Undo.{remove_assignment_exclusion-add}

abbrev db : Db
db = db_in SessionState.assigning

abbrev nothing : AssignmentExclusionResult
nothing = record { exclusions = []; conflicting_assignments = []; draft_revision = 0 }

abbrev added : AssignmentExclusionResult
added = value nothing (add_assignment_exclusion organizer request 11 21 db).0

added_ok : (add_assignment_exclusion organizer request 11 21 db).0 ≡ ok added
unfolding add_assignment_exclusion in_tenant
added_ok = refl

added_conflict : added.conflicting_assignments ≡ keep (conflicts_with 11 21) db.assignments
unfolding add_assignment_exclusion in_tenant
added_conflict = refl

unknown_offering : (add_assignment_exclusion organizer request 11 29 db).0 ≡ err offering_not_found
unfolding add_assignment_exclusion in_tenant
unknown_offering = refl

outdated :
    (add_assignment_exclusion organizer (record request { expected_revision = 4 }) 11 21 db).0
    ≡ err draft_revision_conflict
unfolding add_assignment_exclusion in_tenant
outdated = refl

add_assignment_exclusion-moves_nobody_example :
    ((add_assignment_exclusion organizer request 11 21 db).1.assignments ≡ db.assignments)
    × ((add_assignment_exclusion organizer request 11 21 db).1.overrides ≡ db.overrides)
    × (added.conflicting_assignments ≡ keep (conflicts_with 11 21) db.assignments)
    × (is_excluded (add_assignment_exclusion organizer request 11 21 db).1 11 21 ≡ true)
add_assignment_exclusion-moves_nobody_example =
    add_assignment_exclusion-moves_nobody organizer request 11 21 db added added_ok

abbrev no_move : AssignmentOperationResult
no_move = record { assignments = []; draft_revision = 0 }

db-IsDraft : IsDraft db
db-IsDraft = record { sorted = ((omega arith, tt), (tt, tt)); recorded = (λ e. cc, (λ e. cc, tt)) }

excluded_ok :
    (add_assignment_exclusion organizer request 11 22 db).0
    ≡ ok (value nothing (add_assignment_exclusion organizer request 11 22 db).0)
unfolding add_assignment_exclusion in_tenant
excluded_ok = refl

abbrev later : Db
later = (add_assignment_exclusion organizer request 11 22 db).1

later-IsDraft : IsDraft later
unfolding add_assignment_exclusion in_tenant
later-IsDraft = record {
  sorted = ((omega arith, tt), (tt, tt));
  recorded = (λ e. cc, (λ e. cc, tt));
}

add_assignment_exclusion-forbids_example :
    (change_assignments organizer
      (record request { expected_revision = 6 })
      (moves ((11, 22) ∷ []))
      later).0
    ≢ ok no_move
unfolding resolve
add_assignment_exclusion-forbids_example =
    add_assignment_exclusion-forbids organizer request 11 22 db
      (value nothing (add_assignment_exclusion organizer request 11 22 db).0) excluded_ok later
      (λ s o e. e) later-IsDraft organizer (record request { expected_revision = 6 })
      (moves ((11, 22) ∷ [])) ((11, 22) ∷ []) refl (inl refl) refl no_move

remove_assignment_exclusion-add_example :
    ((remove_assignment_exclusion organizer
        (record request { expected_revision = added.draft_revision })
        60
        (add_assignment_exclusion organizer request 11 21 db).1).1.exclusions
      ≡ db.exclusions)
    × ((last : AssignmentExclusionResult) × ((remove_assignment_exclusion organizer
            (record request { expected_revision = added.draft_revision })
            60
            (add_assignment_exclusion organizer request 11 21 db).1).0
          ≡ ok last)
        × (last.exclusions ≡ db.exclusions))
unfolding validate_actor
remove_assignment_exclusion-add_example =
    remove_assignment_exclusion-add organizer organizer request 11 21 db added (omega arith) refl
      refl added_ok
