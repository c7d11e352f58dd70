-- ===== src/Authorization/Tests.antt =====
-- Requests to a small deployment.
use miniclass.Base.{◌≡◌, ◌⊎◌, ℕ, refl, true, false, ◌&&◌, Option, none, some}
use miniclass.Base.Text.{Text, codes, eq_text}
use miniclass.Authorization.{
  manage_roster, coordinator, owner, Principal, account, requires_mfa, has_role_capability,
  matrix_cells,
}
use miniclass.Authorization.Matrix.{allows, matrix_cells-allows}
use miniclass.Authorization.Access.{
  Operation, Services, resolved, granted_as, granted_public, denied, FailureCode, mfa_required,
  authentication_required, capability_required, capability_of, declared_capability, access,
}
use miniclass.Authorization.Safety.{Reason, access-Reason}
use miniclass.Authorization.Administrative.{Administrative, access-Administrative}

abbrev operation : Text → Operation
operation capability = record {
  metadata_capability = some capability;
  extension_capability = none;
  metadata_allows_unresolved = none;
  extension_allows_unresolved = none;
}

abbrev session_of : Text → Option Principal
session_of bearer = elim (eq_text bearer (codes "opaque")) [
  | true ↦ some (account coordinator true)
  | false ↦ none
]

abbrev deployment : Services
deployment = record {
  verifier = some (λ token. some (codes "subject"));
  resolver = some (λ subject. resolved owner);
  sessions = some session_of;
}

abbrev roster : Operation
roster = operation (codes "manage_roster")

session_granted :
    access deployment (some roster) (codes "Bearer opaque") ≡ granted_as (account coordinator true)
unfolding access
session_granted = refl

token_needs_mfa : access deployment (some roster) (codes "bearer a.b.c") ≡ denied 403 mfa_required
unfolding access
token_needs_mfa = refl

no_header : access deployment (some roster) (codes "") ≡ denied 401 authentication_required
unfolding access
no_header = refl

padded_public : access deployment (some (operation (codes " public "))) (codes "") ≡ granted_public
unfolding access
padded_public = refl

coordinator_deletes :
    access deployment (some (operation (codes "delete_personal_data"))) (codes "Bearer opaque")
    ≡ denied 403 capability_required
unfolding access
coordinator_deletes = refl

access-Reason_example :
    ((capability : Text) × (declared_capability roster ≡ some capability)
      × Reason deployment roster
          (codes "Bearer opaque")
          capability
          (access deployment (some roster) (codes "Bearer opaque")))
    ⊎ ((status : ℕ) × (code : FailureCode) × (access deployment
            (some roster)
            (codes "Bearer opaque")
          ≡ denied status code))
access-Reason_example = access-Reason deployment roster (codes "Bearer opaque")

access-Administrative_example :
    Administrative deployment roster
      (codes "Bearer opaque")
      (codes "manage_roster")
      (access deployment (some roster) (codes "Bearer opaque"))
unfolding capability_of requires_mfa
access-Administrative_example =
    access-Administrative deployment roster (codes "Bearer opaque") (codes "manage_roster") refl
      refl refl

matrix_cells-allows_example :
    allows coordinator manage_roster matrix_cells
    ≡ (requires_mfa manage_roster && has_role_capability coordinator manage_roster)
matrix_cells-allows_example = matrix_cells-allows coordinator manage_roster
