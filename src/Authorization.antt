-- ===== src/Authorization.antt =====
-- Who may do what: backend/internal/auth/capabilities.go.
--
-- Texts outside the closed vocabularies of roles and capabilities are one constructor each. A Go map
-- from roles to sets of capabilities is a function by clauses.
pub mod Matrix
pub mod Access
pub mod Safety
pub mod Administrative
pub mod Tests
use miniclass.Base.{Bool, true, false, ◌||◌, List, [], ◌∷◌, ◌++◌, map, if◌then◌else◌}

pub data Capability : Type 0 where
  manage_administrators delete_personal_data manage_school_year manage_roster : Capability
  manage_catalog manage_assignments manage_publishing read_audit_log : Capability
  guardian_access session_authenticated authenticated public other_capability : Capability

pub data OrganizationRole : Type 0 where
  owner administrator coordinator other_role : OrganizationRole

-- `roleCapabilities[role][capability]`: a missing entry is false.
unfoldable pub role_capabilities : OrganizationRole → Capability → Bool
role_capabilities owner manage_administrators = true
role_capabilities owner delete_personal_data = true
role_capabilities owner manage_school_year = true
role_capabilities owner manage_roster = true
role_capabilities owner manage_catalog = true
role_capabilities owner manage_assignments = true
role_capabilities owner manage_publishing = true
role_capabilities owner read_audit_log = true
role_capabilities administrator manage_school_year = true
role_capabilities administrator manage_roster = true
role_capabilities administrator manage_catalog = true
role_capabilities administrator manage_assignments = true
role_capabilities administrator manage_publishing = true
role_capabilities administrator read_audit_log = true
role_capabilities coordinator manage_roster = true
role_capabilities coordinator manage_catalog = true
role_capabilities coordinator manage_assignments = true
role_capabilities _ _ = false

unfoldable pub matrix_capabilities : List Capability
matrix_capabilities =
    manage_administrators ∷ delete_personal_data ∷ manage_school_year ∷ manage_roster
    ∷ manage_catalog ∷ manage_assignments ∷ manage_publishing ∷ read_audit_log ∷ []

unfoldable pub matrix_roles : List OrganizationRole
matrix_roles = owner ∷ administrator ∷ coordinator ∷ []

abbrev pub is_known_role : OrganizationRole → Bool
is_known_role other_role = false
is_known_role _ = true

unfoldable pub has_role_capability : OrganizationRole → Capability → Bool
unfolding role_capabilities
has_role_capability role public = false
has_role_capability role authenticated = is_known_role role
has_role_capability role capability = role_capabilities role capability

unfoldable pub requires_mfa : Capability → Bool
requires_mfa manage_administrators = true
requires_mfa delete_personal_data = true
requires_mfa manage_school_year = true
requires_mfa manage_roster = true
requires_mfa manage_catalog = true
requires_mfa manage_assignments = true
requires_mfa manage_publishing = true
requires_mfa read_audit_log = true
requires_mfa _ = false

-- The principals, with the fields that decide.
pub data Principal : Type 0 where
  account : OrganizationRole → Bool → Principal
  guardian : Principal

abbrev is_guardian_capability : Capability → Bool
is_guardian_capability guardian_access = true
is_guardian_capability session_authenticated = true
is_guardian_capability _ = false

-- `AccountPrincipal.HasCapability` and `GuardianPrincipal.HasCapability`
unfoldable pub has_capability : Principal → Capability → Bool
unfolding has_role_capability
has_capability (account role mfa) session_authenticated = true
has_capability (account role mfa) capability = has_role_capability role capability
has_capability guardian capability = is_guardian_capability capability

pub record MatrixCell : Type 0 where
  pub role : OrganizationRole
  pub capability : Capability
  pub allowed : Bool

abbrev pub cells_of : OrganizationRole → List Capability → List MatrixCell
cells_of role [] = []
cells_of role (capability ∷ capabilities) =
    record { role = role; capability = capability; allowed = has_role_capability role capability }
    ∷ cells_of role capabilities

abbrev pub cells_from : List OrganizationRole → List MatrixCell
cells_from [] = []
cells_from (role ∷ roles) = cells_of role matrix_capabilities ++ cells_from roles

unfoldable pub matrix_cells : List MatrixCell
unfolding matrix_capabilities matrix_roles has_role_capability
matrix_cells = cells_from matrix_roles
