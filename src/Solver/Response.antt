-- ===== src/Solver/Response.antt =====
-- The response of backend/internal/solvercontract/contract.go and its `Canonicalize`.
use miniclass.Base.{
  ℕ, ◌==◌, ltb, Bool, true, false, not, ◌&&◌, ◌||◌, List, [], ◌∷◌, Option, none, some, contains,
  map, if◌then◌else◌, Xid,
}
use miniclass.Base.Int.{ℤ, pos, ltb_ℤ}
use miniclass.Base.Sort.{sort_slice}
use miniclass.Store.Rows.{Quality, unset, SolverStatus, no_status}
use miniclass.Store.Tx.{response_invalid, Result, ok, err}

pub data DiagnosticScope : Type 0 where
  global_conflict offering_obstacle other_scope : DiagnosticScope

pub record SolverAssignment : Type 0 where
  pub participant_id : Xid
  pub offering_id : Xid
  pub realized_quality : Quality

pub record ConflictDiagnostic : Type 0 where
  pub code : Xid
  pub scope : DiagnosticScope
  pub participant_ids : List Xid
  pub offering_ids : List Xid
  pub required_capacity : Option ℤ
  pub available_capacity : Option ℤ

pub record Response : Type 0 where
  pub version : ℕ
  pub seed : ℤ
  pub status : SolverStatus
  pub assignments : List SolverAssignment
  pub conflict_diagnostics : List ConflictDiagnostic

-- A text outside the vocabulary of qualities is `unset` here.
unfoldable pub valid_quality : Quality → Bool
valid_quality unset = false
valid_quality _ = true

unfoldable pub valid_assignments : List Xid → List SolverAssignment → Bool
unfolding valid_quality
valid_assignments seen [] = true
valid_assignments seen (a ∷ l) =
    not (a.participant_id == 0 || (a.offering_id == 0 || not (valid_quality a.realized_quality)))
    && (not (contains a.participant_id seen) && valid_assignments (a.participant_id ∷ seen) l)

unfoldable pub valid_diagnostic_scope : DiagnosticScope → Bool
valid_diagnostic_scope other_scope = false
valid_diagnostic_scope _ = true

-- The two capacities come together and are not negative.
abbrev valid_capacities : Option ℤ → Option ℤ → Bool
valid_capacities none none = true
valid_capacities (some r) (some a) = not (ltb_ℤ r (pos 0) || ltb_ℤ a (pos 0))
valid_capacities none (some _) = false
valid_capacities (some _) none = false

unfoldable pub valid_diagnostics : List ConflictDiagnostic → Bool
unfolding valid_diagnostic_scope
valid_diagnostics [] = true
valid_diagnostics (d ∷ ds) =
    not (d.code == 0)
    && (valid_diagnostic_scope d.scope
        && (valid_capacities d.required_capacity d.available_capacity && valid_diagnostics ds))

abbrev is_no_status : SolverStatus → Bool
is_no_status no_status = true
is_no_status _ = false

abbrev scope_order : DiagnosticScope → ℕ
scope_order global_conflict = 0
scope_order offering_obstacle = 1
scope_order other_scope = 2

abbrev diagnostic_less : ConflictDiagnostic → ConflictDiagnostic → Bool
diagnostic_less a b =
    if not (scope_order a.scope == scope_order b.scope)
    then ltb (scope_order a.scope) (scope_order b.scope)
    else ltb a.code b.code

abbrev sorted_diagnostic : ConflictDiagnostic → ConflictDiagnostic
sorted_diagnostic d = record d {
  participant_ids = sort_slice ltb d.participant_ids;
  offering_ids = sort_slice ltb d.offering_ids;
}

-- `Response.Canonicalize`: the response in order, which the caller's slices are left in.
unfoldable pub canonicalize_response : Response → Result Response
unfolding valid_assignments valid_diagnostics
canonicalize_response r =
    if r.version == 1
      && (not (is_no_status r.status)
          && (valid_assignments [] r.assignments && valid_diagnostics r.conflict_diagnostics))
    then ok (record r {
      assignments =
          sort_slice
            (λ (a : SolverAssignment) (b : SolverAssignment). ltb a.participant_id b.participant_id)
            r.assignments;
      conflict_diagnostics =
          sort_slice diagnostic_less (map sorted_diagnostic r.conflict_diagnostics);
    })
    else err response_invalid
