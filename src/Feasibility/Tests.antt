-- ===== src/Feasibility/Tests.antt =====
-- A catalog of one offering for the sample session: too small, and closed to the second grade.
use miniclass.Base.{arith, ◌≡◌, refl, true, not, List, [], ◌∷◌, some, inl, inr, any, map}
use miniclass.Session.{SessionState}
use miniclass.Store.Rows.{Assignment, ProgramMembership, Db}
use miniclass.Store.Tx.{ok, in_tenant_read}
use miniclass.Samples.{db_in, offering, placement}
use miniclass.Assignment.Rules.{outside_window}
use miniclass.NonParticipation.{participating}
use miniclass.Feasibility.{
  capacity_short, grade_gap, unmatched_offering, CatalogFeasibilityWarning, CatalogFeasibility,
}
use miniclass.Feasibility.Evaluate.{
  live_snapshot, evaluate_catalog_feasibility, get_catalog_feasibility,
}
use miniclass.Feasibility.Capacity.{some_unplaced, get_catalog_feasibility-capacity_short}
use miniclass.Feasibility.Window.{lists_gap, get_catalog_feasibility-outside_window}

abbrev small : Db
small = record (db_in SessionState.assigning) { offerings = offering 22 2 31 31 ∷ [] }

abbrev members : List ProgramMembership
members = participating small.non_participations small.memberships

abbrev advice : CatalogFeasibility
advice = evaluate_catalog_feasibility (live_snapshot small [] members)

found : get_catalog_feasibility [] small ≡ ok advice
unfolding get_catalog_feasibility in_tenant_read
found = refl

warned :
    map (λ (w : CatalogFeasibilityWarning). w.id) advice.warnings
    ≡ capacity_short ∷ grade_gap ∷ unmatched_offering ∷ []
unfolding evaluate_catalog_feasibility
warned = refl

counted : map (λ (w : CatalogFeasibilityWarning). w.shortfall) advice.warnings ≡ 1 ∷ 0 ∷ 0 ∷ []
unfolding evaluate_catalog_feasibility
counted = refl

abbrev full_draft : List Assignment
full_draft = placement 51 11 22 ∷ placement 52 12 22 ∷ []

get_catalog_feasibility-capacity_short_example : some_unplaced full_draft members ≡ true
unfolding evaluate_catalog_feasibility
get_catalog_feasibility-capacity_short_example =
    get_catalog_feasibility-capacity_short [] small advice found refl refl full_draft
      (refl, (refl, tt)) (refl, tt)

abbrev second_grader : ProgramMembership
second_grader = record { student_id = 13; grade_level_id = some 32 }

get_catalog_feasibility-outside_window_example :
    lists_gap 32 advice
    ≡ not (any (λ o. not (outside_window small second_grader o)) small.offerings)
get_catalog_feasibility-outside_window_example =
    get_catalog_feasibility-outside_window [] small advice found ((refl, refl), tt) second_grader 32
      (inr (inr (inl refl))) refl refl (omega arith)
