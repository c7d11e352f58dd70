-- ===== src/Authorization/Access.antt =====
-- The middleware before every operation: `MiddlewareWithSessions` of
-- backend/internal/auth/middleware.go, with `bearerFromHeader`.
--
-- The verifier of tokens, the accounts and the application sessions are parameters: other packages
-- implement these interfaces. A write of a failure is the answer that it writes.
use miniclass.Base.{
  ℕ, ◌==◌, Bool, false, not, ◌&&◌, ◌||◌, List, [], ◌∷◌, Option, none, some, any, is_some,
  if◌then◌else◌,
}
use miniclass.Base.Text.{Text, codes, eq_text, equal_fold_ascii, fields, is_blank, trim_space}
use miniclass.Authorization.{
  Capability, manage_administrators, delete_personal_data, manage_school_year, manage_roster,
  manage_catalog, manage_assignments, manage_publishing, read_audit_log, guardian_access,
  session_authenticated, authenticated, public, other_capability, OrganizationRole, Principal,
  account, requires_mfa, has_capability,
}

-- The text of a capability.
unfoldable pub capability_of : Text → Capability
capability_of s =
    if eq_text s (codes "manage_administrators")
    then manage_administrators
    else if eq_text s (codes "delete_personal_data")
    then delete_personal_data
    else if eq_text s (codes "manage_school_year")
    then manage_school_year
    else if eq_text s (codes "manage_roster")
    then manage_roster
    else if eq_text s (codes "manage_catalog")
    then manage_catalog
    else if eq_text s (codes "manage_assignments")
    then manage_assignments
    else if eq_text s (codes "manage_publishing")
    then manage_publishing
    else if eq_text s (codes "read_audit_log")
    then read_audit_log
    else if eq_text s (codes "guardian_access")
    then guardian_access
    else if eq_text s (codes "session_authenticated")
    then session_authenticated
    else if eq_text s (codes "authenticated")
    then authenticated
    else if eq_text s (codes "public")
    then public
    else other_capability

-- The two entries of an operation, each in its metadata and its extensions; none where the value is
-- missing or of another type.
pub record Operation : Type 0 where
  pub metadata_capability : Option Text
  pub extension_capability : Option Text
  pub metadata_allows_unresolved : Option Bool
  pub extension_allows_unresolved : Option Bool

-- What `ResolveAccount` returns: the role of the one membership, or an error.
pub data Resolution : Type 0 where
  resolved : OrganizationRole → Resolution
  no_organization multiple_organizations resolution_failed : Resolution

-- The dependencies; `none` is a nil interface. A verifier gives the subject of a token.
pub record Services : Type 0 where
  pub verifier : Option (Text → Option Text)
  pub resolver : Option (Text → Resolution)
  pub sessions : Option (Text → Option Principal)

pub data FailureCode : Type 0 where
  authentication_required invalid_token auth_unavailable : FailureCode
  no_organization_membership multiple_memberships capability_required : FailureCode
  missing_capability mfa_required : FailureCode

-- The next handler with a principal, with an identity only or with neither, or a failure.
pub data Access : Type 0 where
  granted_public : Access
  granted_as : Principal → Access
  granted_identity : Text → Access
  denied : ℕ → FailureCode → Access

abbrev pub first_of {ℓ} : {A : Type ℓ} → Option A → Option A → Option A
first_of (some a) b = some a
first_of none b = b

abbrev pub declared_capability : Operation → Option Text
declared_capability op = first_of op.metadata_capability op.extension_capability

abbrev pub is_true : Option Bool → Bool
is_true (some b) = b
is_true none = false

abbrev pub allows_unresolved : Operation → Bool
allows_unresolved op =
    is_true op.metadata_allows_unresolved || is_true op.extension_allows_unresolved

abbrev pub bearer_parts : List Text → Option Text
bearer_parts (scheme ∷ token ∷ []) =
    if not (equal_fold_ascii scheme (codes "bearer")) || is_blank token then none else some token
bearer_parts _ = none

unfoldable pub bearer_from_header : Text → Option Text
unfolding fields is_blank
bearer_from_header value = bearer_parts (fields value)

abbrev pub is_jwt : Text → Bool
is_jwt bearer = any (λ c. c == b'.') bearer

-- A capability for the principal that the middleware found.
unfoldable pub require : Text → Principal → Access
unfolding capability_of has_capability
require capability p =
    if has_capability p (capability_of capability)
    then granted_as p
    else denied 403 capability_required

-- The opaque session of the bearer, if sessions are configured and the bearer is no JWT.
abbrev pub resolve_session : Option (Text → Option Principal) → Option Text → Option Principal
resolve_session none bearer = none
resolve_session (some sessions) none = none
resolve_session (some sessions) (some bearer) = if is_jwt bearer then none else sessions bearer

-- The provider path, once the account is known. A fresh account principal has no MFA proof.
unfoldable pub access_account : Services → Operation → Text → Text → Resolution → Access
unfolding require requires_mfa
access_account env op capability subject resolution_failed = denied 500 auth_unavailable
access_account env op capability subject multiple_organizations = denied 409 multiple_memberships
access_account env op capability subject no_organization =
    if allows_unresolved op then granted_identity subject else denied 403 no_organization_membership
access_account env op capability subject (resolved role) =
    if is_some env.sessions && requires_mfa (capability_of capability)
    then denied 403 mfa_required
    else require capability (account role false)

abbrev pub verified_subject : (Text → Option Text) → Option Text → Option (Option Text)
verified_subject verify none = none
verified_subject verify (some bearer) = some (verify bearer)

abbrev pub access_identity :
    Services → Operation → Text → (Text → Resolution) → Option (Option Text) → Access
access_identity env op capability resolve none = denied 401 authentication_required
access_identity env op capability resolve (some none) = denied 401 invalid_token
access_identity env op capability resolve (some (some subject)) =
    access_account env op capability subject (resolve subject)

unfoldable pub access_provider :
    Services
    → Operation
    → Text
    → Option Text
    → Option (Text → Option Text)
    → Option (Text → Resolution)
    → Access
unfolding access_account
access_provider env op capability bearer (some verify) (some resolve) =
    access_identity env op capability resolve (verified_subject verify bearer)
access_provider env op capability bearer _ none = denied 500 auth_unavailable
access_provider env op capability bearer none _ = denied 500 auth_unavailable

abbrev pub access_session : Services → Operation → Text → Option Text → Option Principal → Access
access_session env op capability bearer (some p) = require capability p
access_session env op capability bearer none =
    access_provider env op capability bearer env.verifier env.resolver

unfoldable pub access_declared : Services → Operation → Text → Option Text → Access
unfolding require access_provider is_blank trim_space
access_declared env op capability bearer =
    if is_blank (trim_space capability)
    then denied 500 missing_capability
    else if eq_text (trim_space capability) (codes "public")
    then granted_public
    else access_session env op capability bearer (resolve_session env.sessions bearer)

abbrev pub access_operation : Services → Operation → Text → Option Text → Access
access_operation env op header none = denied 500 missing_capability
access_operation env op header (some capability) =
    access_declared env op capability (bearer_from_header header)

unfoldable pub access : Services → Option Operation → Text → Access
unfolding access_declared bearer_from_header
access env none header = denied 500 auth_unavailable
access env (some op) header = access_operation env op header (declared_capability op)
