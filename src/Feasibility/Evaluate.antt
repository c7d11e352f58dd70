-- ===== src/Feasibility/Evaluate.antt =====
-- `EvaluateCatalogFeasibility` and `GetCatalogFeasibility`.
use miniclass.Base.{
  ℕ, ◌-◌, ltb, Bool, true, false, not, ◌&&◌, List, [], ◌∷◌, ◌++◌, Option, none, some, map, length,
  Xid,
}
use miniclass.Store.Rows.{GradeLevel, ProgramMembership, Db}
use miniclass.Store.Tx.{Result, pure, ◌>>=◌, get_db, in_tenant_read}
use miniclass.Store.Queries.{get_session}
use miniclass.Store.Editing.{list_session_non_participations}
use miniclass.NonParticipation.{participating}
use miniclass.Feasibility.{
  WarningId, Severity, CatalogParticipant, InterestArea, CatalogFeasibilitySnapshot,
  CatalogFeasibilityWarning, CatalogFeasibility, total, minimum_of, last_level, capacity_short,
  grade_gap, minimum_viability, area_gap, unmatched_offering, warning, info,
}
use miniclass.Feasibility.Gaps.{
  uncovered_grades, uncovered_areas, all_offering_ids, unmatched_offering_ids,
}

abbrev pub empty_warning : WarningId → Severity → ℕ → CatalogFeasibilityWarning
empty_warning id severity participants = record {
  id = id;
  severity = severity;
  participant_count = participants;
  total_capacity = 0;
  total_minimum_viable_enrollment = 0;
  shortfall = 0;
  affected_grades = [];
  affected_areas = [];
  offering_ids = [];
}

abbrev pub warn_if : Bool → CatalogFeasibilityWarning → List CatalogFeasibilityWarning
warn_if true w = w ∷ []
warn_if false w = []

unfoldable pub evaluate_catalog_feasibility : CatalogFeasibilitySnapshot → CatalogFeasibility
unfolding uncovered_grades uncovered_areas unmatched_offering_ids all_offering_ids
evaluate_catalog_feasibility snapshot =
    let participants = length snapshot.participants in
    let capacity = total (λ o. o.capacity) snapshot.offerings in
    let minimum = total minimum_of snapshot.offerings in
    let grade_gaps = uncovered_grades snapshot in
    let area_gaps = uncovered_areas snapshot in
    let unmatched = unmatched_offering_ids snapshot.offerings in
    record {
      participant_count = participants;
      warnings =
          warn_if (ltb capacity participants)
            (record (empty_warning capacity_short warning participants) {
              total_capacity = capacity;
              shortfall = participants - capacity;
              offering_ids = all_offering_ids snapshot.offerings;
            })
          ++ (warn_if (ltb 0 (length grade_gaps))
                (record (empty_warning grade_gap warning participants) {
                  affected_grades = grade_gaps;
                })
              ++ (warn_if (ltb participants minimum)
                    (record (empty_warning minimum_viability warning participants) {
                      total_minimum_viable_enrollment = minimum;
                      shortfall = minimum - participants;
                      offering_ids = all_offering_ids snapshot.offerings;
                    })
                  ++ (warn_if (ltb 0 (length area_gaps))
                        (record (empty_warning area_gap info participants) {
                          affected_areas = area_gaps;
                        })
                      ++ warn_if (not snapshot.has_ranked_choices && ltb 0 (length unmatched))
                          (record (empty_warning unmatched_offering warning participants) {
                            offering_ids = unmatched;
                          }))));
    }

abbrev pub unknown_participant : Xid → CatalogParticipant
unknown_participant student = record {
  student_id = student;
  grade_level_id = 0;
  grade_label = [];
  grade_ordinal = 0;
  known_grade = false;
}

abbrev pub graded_participant : Xid → Option GradeLevel → CatalogParticipant
graded_participant student none = unknown_participant student
graded_participant student (some g) = record {
  student_id = student;
  grade_level_id = g.id;
  grade_label = g.label;
  grade_ordinal = g.ordinal;
  known_grade = true;
}

abbrev pub level_of : List GradeLevel → Option Xid → Option GradeLevel
level_of grades none = none
level_of grades (some id) = last_level none id grades

abbrev pub catalog_participant : List GradeLevel → ProgramMembership → CatalogParticipant
catalog_participant grades m = graded_participant m.student_id (level_of grades m.grade_level_id)

abbrev pub live_snapshot :
    Db → List InterestArea → List ProgramMembership → CatalogFeasibilitySnapshot
live_snapshot db areas members = record {
  participants = map (catalog_participant db.grade_levels) members;
  grades = db.grade_levels;
  offerings = db.offerings;
  interest_areas = areas;
  area_demand = [];
  has_ranked_choices = false;
}

unfoldable pub get_catalog_feasibility : List InterestArea → Db → Result CatalogFeasibility
unfolding get_session list_session_non_participations evaluate_catalog_feasibility
get_catalog_feasibility areas = in_tenant_read do
  session ← get_session
  db ← get_db
  rows ← list_session_non_participations
  pure (evaluate_catalog_feasibility (live_snapshot db areas (participating rows db.memberships)))
