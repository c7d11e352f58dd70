-- ===== src/Authorization/Matrix.antt =====
-- The published matrix and the checks by which the middleware decides.
use miniclass.Base.{ℕ, ◌==◌, ◌≡◌, refl, Bool, ◌&&◌, List, any}
use miniclass.Authorization.{
  Capability, manage_administrators, delete_personal_data, manage_school_year, manage_roster,
  manage_catalog, manage_assignments, manage_publishing, read_audit_log, guardian_access,
  session_authenticated, authenticated, public, other_capability, OrganizationRole, owner,
  administrator, coordinator, other_role, MatrixCell, matrix_cells, has_role_capability,
  requires_mfa,
}

abbrev capability_number : Capability → ℕ
capability_number manage_administrators = 0
capability_number delete_personal_data = 1
capability_number manage_school_year = 2
capability_number manage_roster = 3
capability_number manage_catalog = 4
capability_number manage_assignments = 5
capability_number manage_publishing = 6
capability_number read_audit_log = 7
capability_number guardian_access = 8
capability_number session_authenticated = 9
capability_number authenticated = 10
capability_number public = 11
capability_number other_capability = 12

abbrev role_number : OrganizationRole → ℕ
role_number owner = 0
role_number administrator = 1
role_number coordinator = 2
role_number other_role = 3

-- Some cell allows the role the capability.
abbrev pub allows : OrganizationRole → Capability → List MatrixCell → Bool
allows role capability cells =
    any
      (λ cell.
        cell.allowed
        && (role_number cell.role == role_number role
            && capability_number cell.capability == capability_number capability))
      cells

-- The matrix allows a role exactly the capabilities that need a second factor and that the role has;
-- so no role holds an administrative capability outside the matrix, and none in it goes without the
-- second factor.
pub matrix_cells-allows :
    (role : OrganizationRole) (capability : Capability)
    → allows role capability matrix_cells
      ≡ (requires_mfa capability && has_role_capability role capability)
unfolding matrix_cells requires_mfa has_role_capability
matrix_cells-allows owner manage_administrators = refl
matrix_cells-allows owner _ = refl
matrix_cells-allows administrator manage_administrators = refl
matrix_cells-allows administrator _ = refl
matrix_cells-allows coordinator manage_administrators = refl
matrix_cells-allows coordinator _ = refl
matrix_cells-allows other_role manage_administrators = refl
matrix_cells-allows other_role _ = refl
