-- ===== src/Authorization/Administrative.antt =====
-- Who gets to an administrative operation where sessions are configured.
use miniclass.Base.{
  false, any, map, All, List, [], ◌∷◌, ◌≡◌, refl, true, false, some, is_some, arith, Bool-cases,
  inl, inr,
}
use miniclass.Base.Text.{Text, codes, eq_text, eq_of_eq_text, trim_space}
use miniclass.Authorization.{requires_mfa, has_capability}
use miniclass.Authorization.Access.{
  capability_of, Operation, no_organization, Services, Access, granted_public, granted_as,
  granted_identity, denied, declared_capability, allows_unresolved, bearer_from_header,
  resolve_session, access_declared, access,
}
use miniclass.Authorization.Safety.{Verified, Reason, access_declared-Reason}

-- Who an administrative operation lets in where sessions are configured: the owner of the application
-- session that the request carries, who holds the capability; or, where the operation admits accounts
-- without an organization, a verified token that has such an account.
abbrev pub Administrative : Services → Operation → Text → Text → Access → Type 0
Administrative env op header capability granted_public = ⊥
Administrative env op header capability (granted_as p) =
    (resolve_session env.sessions (bearer_from_header header) ≡ some p)
    × (has_capability p (capability_of capability) ≡ true)
Administrative env op header capability (granted_identity subject) =
    (allows_unresolved op ≡ true) × Verified env header subject no_organization
Administrative env op header capability (denied status code) = Unit

-- The names of the capabilities that need a second factor; none is public.
abbrev administrative_names : List Text
administrative_names = map codes (
    "manage_administrators" ∷ "delete_personal_data" ∷ "manage_school_year" ∷ "manage_roster"
    ∷ "manage_catalog" ∷ "manage_assignments" ∷ "manage_publishing" ∷ "read_audit_log" ∷ [])

capability_of-administrative :
    (capability : Text)
    → requires_mfa (capability_of capability) ≡ true
    → any (eq_text capability) administrative_names ≡ true
unfolding capability_of requires_mfa
capability_of-administrative capability h = ground arith

named-not_public :
    (capability : Text) (names : List Text)
    → any (eq_text capability) names ≡ true
    → All (λ name. eq_text (trim_space name) (codes "public") ≡ false) names
    → eq_text (trim_space capability) (codes "public") ≡ false
named-not_public capability [] h all = absurd (ground arith)
named-not_public capability (name ∷ names) h all = elim (Bool-cases (eq_text capability name)) [
  | inl e ↦ rw (eq_of_eq_text capability name e) (all.0)
  | inr e ↦ named-not_public capability names (ground arith) all.1
]

administrative-not_public :
    (capability : Text)
    → requires_mfa (capability_of capability) ≡ true
    → eq_text (trim_space capability) (codes "public") ≡ false
unfolding trim_space
administrative-not_public capability mfa =
    named-not_public capability administrative_names (capability_of-administrative capability mfa)
      (refl, (refl, (refl, (refl, (refl, (refl, (refl, (refl, tt))))))))

Reason-Administrative :
    (env : Services) (op : Operation) (header capability : Text) (a : Access)
    → is_some env.sessions ≡ true
    → requires_mfa (capability_of capability) ≡ true
    → Reason env op header capability a
    → Administrative env op header capability a
Reason-Administrative env op header capability granted_public configured mfa r =
    absurd (cc (r, administrative-not_public capability mfa))
Reason-Administrative env op header capability (granted_as p) configured mfa r = elim r.source [
  | inl session ↦ (session, r.holds)
  | inr fresh ↦ absurd (ground (arith, fresh.no_mfa))
]
Reason-Administrative env op header capability (granted_identity subject) configured mfa r = r
Reason-Administrative env op header capability (denied status code) configured mfa r = tt

-- Where sessions are configured, an operation with an administrative capability lets in the owner of
-- the application session that the request carries, who holds the capability, or, where the operation
-- admits accounts without an organization, a verified token that has such an account, and nobody else.
pub access-Administrative :
    (env : Services) (op : Operation) (header capability : Text)
    → is_some env.sessions ≡ true
    → declared_capability op ≡ some capability
    → requires_mfa (capability_of capability) ≡ true
    → Administrative env op header capability (access env (some op) header)
unfolding access
access-Administrative env op header capability configured declared mfa = rw declared (
    Reason-Administrative env op header capability
      (access_declared env op capability (bearer_from_header header)) configured mfa
      (access_declared-Reason env op header capability))
