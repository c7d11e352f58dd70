-- ===== src/Authorization/Safety.antt =====
-- Nobody gets past the middleware without a reason.
use miniclass.Base.{
  false, ◌≡◌, refl, true, false, ◌&&◌, Option, none, some, is_some, Bool-cases, inl, inr, ◌⊎◌, ℕ,
}
use miniclass.Base.Text.{Text, codes, eq_text, is_blank, trim_space}
use miniclass.Authorization.{OrganizationRole, Principal, account, requires_mfa, has_capability}
use miniclass.Authorization.Access.{
  capability_of, Operation, Resolution, resolved, no_organization, multiple_organizations,
  resolution_failed, Services, Access, granted_public, granted_as, granted_identity, denied,
  declared_capability, allows_unresolved, bearer_from_header, resolve_session, require,
  verified_subject, access_account, access_identity, access_provider, access_session,
  access_declared, access_operation, access, FailureCode, missing_capability,
}

-- The token of the request is verified for the subject.
pub record Verified (env : Services) (header subject : Text) (resolution : Resolution)
    : Type 0 where
  pub bearer : Text
  pub has_bearer : bearer_from_header header ≡ some bearer
  pub verify : Text → Option Text
  pub verifier : env.verifier ≡ some verify
  pub verified : verify bearer ≡ some subject
  pub accounts : Text → Resolution
  pub resolver : env.resolver ≡ some accounts
  pub resolves : accounts subject ≡ resolution

-- The principal is the account of a verified token, where no proof of a second factor is due.
pub record FromAccount (env : Services) (capability header : Text) (p : Principal) : Type 0 where
  pub subject : Text
  pub role : OrganizationRole
  pub verified : Verified env header subject (resolved role)
  pub of_role : p ≡ account role false
  pub no_mfa : (is_some env.sessions && requires_mfa (capability_of capability)) ≡ false

-- The principal holds the capability that the operation declares, and is the owner of the session
-- that the request carries or of the verified account.
pub record Authorized (env : Services) (capability header : Text) (p : Principal) : Type 0 where
  pub holds : has_capability p (capability_of capability) ≡ true
  pub source :
      (resolve_session env.sessions (bearer_from_header header) ≡ some p)
      ⊎ FromAccount env capability header p

-- The reason for each answer.
abbrev pub Reason : Services → Operation → Text → Text → Access → Type 0
Reason env op header capability granted_public =
    eq_text (trim_space capability) (codes "public") ≡ true
Reason env op header capability (granted_as p) = Authorized env capability header p
Reason env op header capability (granted_identity subject) =
    (allows_unresolved op ≡ true) × Verified env header subject no_organization
Reason env op header capability (denied status code) = Unit

module _ (env : Services) (op : Operation) (header capability : Text) where
  require-Reason :
      (p : Principal)
      → (resolve_session env.sessions (bearer_from_header header) ≡ some p)
        ⊎ FromAccount env capability header p
      → Reason env op header capability (require capability p)
  unfolding require
  require-Reason p source = elim (Bool-cases (has_capability p (capability_of capability))) [
    | inl e ↦ rw e (record { holds = e; source = source })
    | inr e ↦ rw e tt
  ]

  access_account-Reason :
      (subject : Text) (resolution : Resolution)
      → Verified env header subject resolution
      → Reason env op header capability (access_account env op capability subject resolution)
  unfolding access_account
  access_account-Reason subject resolution_failed v = tt
  access_account-Reason subject multiple_organizations v = tt
  access_account-Reason subject no_organization v = elim (Bool-cases (allows_unresolved op)) [
    | inl e ↦ rw e (e, v)
    | inr e ↦ rw e tt
  ]
  access_account-Reason subject (resolved role) v =
      elim (Bool-cases (is_some env.sessions && requires_mfa (capability_of capability))) [
        | inl e ↦ rw e tt
        | inr e ↦ rw e (
            require-Reason (account role false) (
              inr (record {
                subject = subject;
                role = role;
                verified = v;
                of_role = refl;
                no_mfa = e;
              })))
      ]

  access_provider-Reason :
      (verifier : Option (Text → Option Text)) (resolver : Option (Text → Resolution))
      → env.verifier ≡ verifier
      → env.resolver ≡ resolver
      → Reason env op header capability
          (access_provider env op capability (bearer_from_header header) verifier resolver)
  unfolding access_provider
  access_provider-Reason (some verify) (some accounts) ev er =
      identity (bearer_from_header header) refl
    where
      verified :
          (bearer : Text)
          → bearer_from_header header ≡ some bearer
          → (o : Option Text) → verify bearer ≡ o
          → Reason env op header capability (access_identity env op capability accounts (some o))
      verified bearer eb none e = tt
      verified bearer eb (some subject) e =
          access_account-Reason subject (accounts subject) (record {
            bearer = bearer;
            has_bearer = eb;
            verify = verify;
            verifier = ev;
            verified = e;
            accounts = accounts;
            resolver = er;
            resolves = refl;
          })

      identity :
          (b : Option Text)
          → bearer_from_header header ≡ b
          → Reason env op header capability
              (access_identity env op capability accounts (verified_subject verify b))
      identity none e = tt
      identity (some bearer) e = verified bearer e (verify bearer) refl
  access_provider-Reason none none ev er = tt
  access_provider-Reason (some verify) none ev er = tt
  access_provider-Reason none (some accounts) ev er = tt

  access_session-Reason :
      (o : Option Principal)
      → resolve_session env.sessions (bearer_from_header header) ≡ o
      → Reason env op header capability
          (access_session env op capability (bearer_from_header header) o)
  access_session-Reason (some p) e = require-Reason p (inl e)
  access_session-Reason none e = access_provider-Reason env.verifier env.resolver refl refl

  pub access_declared-Reason :
      Reason env op header capability
        (access_declared env op capability (bearer_from_header header))
  unfolding access_declared
  access_declared-Reason = elim (Bool-cases (is_blank (trim_space capability))) [
    | inl e ↦ rw e tt
    | inr e ↦ elim (Bool-cases (eq_text (trim_space capability) (codes "public"))) [
      | inl t ↦ rw (e, t) t
      | inr f ↦
          rw (e, f)
            (access_session-Reason (resolve_session env.sessions (bearer_from_header header)) refl)
    ]
  ]

-- A request gets to the handler of an operation only for a reason: the operation declares itself
-- public; or a principal holds the capability that it declares, and is the owner of the session that
-- the request carries or the account of a verified token, which does not count for administrative
-- capabilities where sessions are configured; or the operation allows accounts without an
-- organization, and a verified token has such an account.
pub access-Reason :
    (env : Services) (op : Operation) (header : Text)
    → ((capability : Text) × (declared_capability op ≡ some capability)
        × Reason env op header capability (access env (some op) header))
      ⊎ ((status : ℕ) × (code : FailureCode) × (access env (some op) header ≡ denied status code))
unfolding access
access-Reason env op header = go (declared_capability op) refl
  where
    go :
        (o : Option Text)
        → declared_capability op ≡ o
        → ((capability : Text) × (declared_capability op ≡ some capability)
            × Reason env op header capability (access_operation env op header o))
          ⊎ ((status : ℕ) × (code : FailureCode) × (access_operation env op header o
                ≡ denied status code))
    go none e = inr (500, missing_capability, refl)
    go (some capability) e = inl (capability, e, access_declared-Reason env op header capability)
