-- ===== src/Limiter/Keys.antt =====
-- Which requests share a bucket.
use miniclass.Base.{
  ℕ, ◌==◌, ◌≡◌, ◌∙◌, sym, ap, refl, Bool, true, false, ◌&&◌, [], ◌∷◌, ◌++◌, any, Option, none, some,
  arith, Bool-cases, eq_of_==, inl, inr,
}
use miniclass.Base.Text.{Text, codes, eq_text, has_prefix}
use miniclass.RealIp.{Netip, without_zone, parse_remote_addr}
use miniclass.Limiter.Middleware.{
  Request, address_text, guardian_onboarding_client_address, guardian_onboarding_rate_limit_key,
  is_guardian_onboarding_rate_limited_route,
}

abbrev pub has_slash : Text → Bool
has_slash s = any (λ c. c == b'/') s

parts_unique :
    (s t p q : Text)
    → has_slash s ≡ false
    → has_slash t ≡ false
    → (s ++ (b':' ∷ b'/' ∷ p)) ≡ (t ++ (b':' ∷ b'/' ∷ q))
    → (s ≡ t) × (p ≡ q)
parts_unique [] [] p q hs ht e = (refl, cc)
parts_unique [] (c ∷ []) p q hs ht e = ground arith
parts_unique [] (c ∷ d ∷ t) p q hs ht e = ground arith
parts_unique (c ∷ []) [] p q hs ht e = ground arith
parts_unique (c ∷ d ∷ s) [] p q hs ht e = ground arith
parts_unique (c ∷ s) (d ∷ t) p q hs ht e = ground (arith, parts_unique s t p q)

never : (b : Bool) → (b && false) ≡ true → ⊥
never b h = ground arith

-- A path that is limited begins with a slash.
limited_path-cons :
    (r : Request) (c : ℕ) (p : Text)
    → r.path ≡ c ∷ p
    → is_guardian_onboarding_rate_limited_route r ≡ true
    → r.path ≡ b'/' ∷ p
unfolding is_guardian_onboarding_rate_limited_route has_prefix
limited_path-cons r c p e h =
    let h' = rw e at h in
    elim (Bool-cases (c == b'/')) [
      | inl slash ↦ e ∙ ap (λ d. d ∷ p) (eq_of_== c b'/' slash)
      | inr other ↦
          let refused : (eq_text r.method (codes "POST") && false) ≡ true = rw other at h' in
          absurd (never (eq_text r.method (codes "POST")) refused)
    ]

limited_path-nil : (r : Request) → r.path ≡ [] → is_guardian_onboarding_rate_limited_route r ≡ false
unfolding is_guardian_onboarding_rate_limited_route has_prefix
limited_path-nil r e = rw e (ground arith)

module _ (net : Netip)
    -- `addr.Unmap()` adds no zone, and `addr.String()` of an address without a zone writes digits,
    -- letters, dots and colons.
    (unmap_zone : (a : net.Addr) → net.has_zone a ≡ false → net.has_zone (net.unmap a) ≡ false)
    (string_slash : (a : net.Addr)
      → net.has_zone a ≡ false
      → has_slash (net.string a) ≡ false) where
  -- An address that is kept has no zone.
  without_zone-slash :
      (o : Option net.Addr) → has_slash (address_text net (without_zone net o)) ≡ false
  without_zone-slash none = refl
  without_zone-slash (some a) = elim (Bool-cases (net.has_zone a)) [
    | inl zone ↦ rw zone refl
    | inr plain ↦ rw plain (string_slash (net.unmap a) (unmap_zone a plain))
  ]

  parse_remote_addr-slash :
      (remote : Text) → has_slash (address_text net (parse_remote_addr net remote)) ≡ false
  unfolding parse_remote_addr
  parse_remote_addr-slash remote = without_zone-slash _

  same_parts :
      (q r : Request) (p p' : Text)
      → q.path ≡ p
      → r.path ≡ p'
      → is_guardian_onboarding_rate_limited_route q ≡ true
      → is_guardian_onboarding_rate_limited_route r ≡ true
      → guardian_onboarding_rate_limit_key net q ≡ guardian_onboarding_rate_limit_key net r
      → (guardian_onboarding_client_address net q ≡ guardian_onboarding_client_address net r)
        × (p ≡ p')
  unfolding guardian_onboarding_rate_limit_key
  same_parts q r [] p' e e' hq hr k = absurd (cc (limited_path-nil q e))
  same_parts q r (c ∷ p) [] e e' hq hr k = absurd (cc (limited_path-nil r e'))
  same_parts q r (c ∷ p) (d ∷ p') e e' hq hr k =
      let eq = limited_path-cons q c p e hq in
      let er = limited_path-cons r d p' e' hr in
      let slash_q = parse_remote_addr-slash q.remote_addr in
      let slash_r = parse_remote_addr-slash r.remote_addr in
      let joined : (guardian_onboarding_client_address net q ++ (b':' ∷ b'/' ∷ p))
          ≡ (guardian_onboarding_client_address net r ++ (b':' ∷ b'/' ∷ p')) =
        ap (λ t. guardian_onboarding_client_address net q ++ (b':' ∷ t)) (sym eq)
        ∙ k
        ∙ ap (λ t. guardian_onboarding_client_address net r ++ (b':' ∷ t)) er in
      let parts =
        parts_unique (guardian_onboarding_client_address net q)
          (guardian_onboarding_client_address net r) p p' slash_q slash_r joined in
      (parts.0, sym e ∙ eq ∙ ap (λ t. b'/' ∷ t) parts.1 ∙ sym er ∙ e')

  -- Two limited requests share a bucket only if they come from the same client address and ask for
  -- the same path, where no address without a zone is printed with a slash.
  pub guardian_onboarding_rate_limit_key_unique :
      (q r : Request)
      → is_guardian_onboarding_rate_limited_route q ≡ true
      → is_guardian_onboarding_rate_limited_route r ≡ true
      → guardian_onboarding_rate_limit_key net q ≡ guardian_onboarding_rate_limit_key net r
      → (guardian_onboarding_client_address net q ≡ guardian_onboarding_client_address net r)
        × (q.path ≡ r.path)
  guardian_onboarding_rate_limit_key_unique q r = same_parts q r q.path r.path refl refl
