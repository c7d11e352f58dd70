-- ===== src/Limiter/Wait.antt =====
-- A refused client that waits is served.
use mathlib.Core.List.{Permᴰ}
use miniclass.Base.{
  ℕ, ◌+◌, ◌-◌, ◌*◌, ◌/◌, ◌≤◌, ◌<◌, ◌≡◌, ◌∙◌, refl, leb, Bool, false, List, [], ◌∷◌, Option, none,
  some, length, All, ◌⊎◌, arith, Bool-cases, Option-cases, inl, inr, Time,
}
use miniclass.Base.Text.{Text, eq_text}
use miniclass.RealIp.{Netip}
use miniclass.Limiter.{
  Settings, Bucket, Limiter, second, lookup, is_live, clean_up, cleanup_due, evict_expired,
  refilled, spend, opened, room_for, retry_after, verdict, allow,
}
use miniclass.Limiter.Middleware.{
  Request, passed, too_many_requests, answer, guardian_onboarding_rate_limit_key,
  is_guardian_onboarding_rate_limited_route, middleware, serve_all, counts,
}
use miniclass.Limiter.Buckets.{HasUniqueKeys, kept, lookup-keep, lookup-evict_oldest}
use miniclass.Limiter.Bounds.{IsPositive, IsBounded, IsValid, clean_up-IsValid}
use miniclass.Limiter.Credit.{credit, credit-eq, credit-none, credit-full, mul_mono}
use miniclass.Limiter.Calls.{allow-credit, credit-allow_own, lookup-allow, own}
use miniclass.Limiter.Quota.{middleware-IsValid}

ceiling : (w p : ℕ) → 0 < p → w ≤ (w + p - 1) / p * p
ceiling w p h = grind arith

-- A bucket that stays or goes.
abbrev pub StaysOrGoes : Option Bucket → Option Bucket → Type 0
StaysOrGoes before now = (now ≡ before) ⊎ (now ≡ none)

StaysOrGoes-trans : (a b c : Option Bucket) → StaysOrGoes a b → StaysOrGoes b c → StaysOrGoes a c
StaysOrGoes-trans a b c h (inr e) = inr e
StaysOrGoes-trans a b c (inl e) (inl e') = inl (e' ∙ e)
StaysOrGoes-trans a b c (inr e) (inl e') = inr (e' ∙ e)

kept-StaysOrGoes : (p : Bucket → Bool) (o : Option Bucket) → StaysOrGoes o (kept p o)
kept-StaysOrGoes p none = inl refl
kept-StaysOrGoes p (some b) = elim (Bool-cases (p b)) [
  | inl t ↦ rw t (inl refl)
  | inr f ↦ rw f (inr refl)
]

module _ (range : List Bucket → List Bucket) (st : Settings) where
  lookup-clean_up :
      (k : Text) (now : Time) (l : Limiter)
      → HasUniqueKeys l.buckets
      → StaysOrGoes (lookup k l.buckets) (lookup k (clean_up st now l).buckets)
  unfolding clean_up evict_expired
  lookup-clean_up k now l unique = elim (Bool-cases (cleanup_due st now l.last_cleanup)) [
    | inr early ↦ rw early (inl refl)
    | inl due ↦
        rw (due, lookup-keep (is_live st now) k l.buckets unique)
          (kept-StaysOrGoes (is_live st now) (lookup k l.buckets))
  ]

  lookup-room_for :
      (k key : Text) (bs : List Bucket)
      → HasUniqueKeys bs
      → StaysOrGoes (lookup k bs) (lookup k (room_for range st key bs))
  unfolding room_for
  lookup-room_for k key bs unique = elim (Option-cases (lookup key bs)) [
    | inr (b, e) ↦ rw (e, room_for) (inl refl)
    | inl e ↦ elim (Bool-cases (leb st.bucket_limit (length bs))) [
      | inl t ↦ rw (e, t, room_for) (lookup-evict_oldest range k bs unique)
      | inr f ↦ rw (e, f, room_for) (inl refl)
    ]
  ]

  credit-StaysOrGoes :
      (k : Text) (t : Time) (before now : List Bucket)
      → All (IsBounded st) before
      → StaysOrGoes (lookup k before) (lookup k now)
      → credit st k t before ≤ credit st k t now
  credit-StaysOrGoes k t before now bounded (inr e) =
      omega (arith, credit-none st k t now e, credit-full st k t before bounded)
  credit-StaysOrGoes k t before now bounded (inl e) =
      let same : credit st k t now ≡ credit st k t before = credit-eq st k t now before e in
      omega (arith, same)

  -- No call on another key lowers the credit of a key.
  credit-allow_more :
      (k : Text) (t now : Time) (key : Text) (l : Limiter)
      → eq_text key k ≡ false
      → IsValid st l
      → credit st k t l.buckets ≤ credit st k t (allow range st now key l).1.buckets
  credit-allow_more k t now key l e v =
      let c = (clean_up st now l).buckets in
      credit-StaysOrGoes k t l.buckets (allow range st now key l).1.buckets v.bounded (
        StaysOrGoes-trans (lookup k l.buckets) (lookup k c)
          (lookup k (allow range st now key l).1.buckets) (lookup-clean_up k now l v.unique)
          (rw (lookup-allow range st now key l k, e)
            (lookup-room_for k key c (clean_up-IsValid st now l v).unique)))

  -- After the waiting time that a refusal names, the bucket holds a token.
  waited :
      IsPositive st
      → (now t : Time) (b : Bucket) → now + retry_after st ≤ t
      → b.seen_at ≡ now
      → st.refill_window ≤ (refilled st t b).tokens
  unfolding refilled retry_after
  waited positive now t b h seen =
      let period = st.refill * second in
      let q = (st.refill_window + period - 1) / period in
      let enough = ceiling st.refill_window period (omega (arith, positive.refill)) in
      let long : q * second ≤ t - b.seen_at = omega (arith, h, seen) in
      let product : q * second * st.refill ≤ (t - b.seen_at) * st.refill =
        mul_mono (q * second) (t - b.seen_at) st.refill long in
      let same : q * second * st.refill ≡ q * period = grind arith in
      let room : 1 * st.refill_window ≤ st.burst * st.refill_window =
        mul_mono 1 st.burst st.refill_window (omega (arith, positive.burst)) in
      ground (arith, positive.refill_window, enough, product, same, room)

  -- The header names at least the waiting time.
  header_covers :
      (b : Bucket) (seconds : ℕ)
      → answer (verdict st b) ≡ too_many_requests seconds
      → retry_after st ≤ seconds * second
  unfolding verdict retry_after
  header_covers b seconds h = ground arith

  seen_at-own : (now : Time) (key : Text) (l : Limiter) → (own range st now key l).seen_at ≡ now
  unfolding spend refilled
  seen_at-own now key l = ground arith

  -- The bucket of a call, once its waiting time is over.
  credit-allow_waited :
      IsPositive st
      → (now t : Time) (key : Text) (l : Limiter) → now + retry_after st ≤ t
      → st.refill_window ≤ credit st key t (allow range st now key l).1.buckets
  credit-allow_waited positive now t key l h =
      rw (credit-allow_own range st now key l t)
        (waited positive now t (own range st now key l) h (seen_at-own now key l))

module _ (net : Netip) (range : List Bucket → List Bucket) (st : Settings)
    (ranges : (bs : List Bucket) → Permᴰ (range bs) bs) (positive : IsPositive st) where
  -- Requests that do not count against the key.
  abbrev pub Others : Text → List (Time × Request) → Type 0
  Others key [] = Unit
  Others key ((now, r) ∷ rs) = (counts net range st key r ≡ false) × Others key rs

  credit-middleware_more :
      (k : Text) (t now : Time) (r : Request) (l : Limiter)
      → counts net range st k r ≡ false
      → IsValid st l
      → credit st k t l.buckets ≤ credit st k t (middleware net range st now r l).1.buckets
  unfolding middleware
  credit-middleware_more k t now r l h v =
      elim (Bool-cases (is_guardian_onboarding_rate_limited_route r)) [
        | inr other ↦ rw other (omega arith)
        | inl limited ↦ rw limited (
            credit-allow_more range st k t now (guardian_onboarding_rate_limit_key net r) l
              (rw limited at h) v)
      ]

  serve_all-more :
      (k : Text) (t : Time) (rs : List (Time × Request)) (l : Limiter)
      → Others k rs
      → IsValid st l
      → (credit st k t l.buckets ≤ credit st k t (serve_all net range st rs l).buckets)
        × IsValid st (serve_all net range st rs l)
  unfolding serve_all
  serve_all-more k t [] l h v = (omega arith, v)
  serve_all-more k t ((now, r) ∷ rs) l h v =
      let next = middleware-IsValid net range st ranges positive now r l v in
      let rest = serve_all-more k t rs (middleware net range st now r l).1 h.1 next in
      (omega (arith, rest.0, credit-middleware_more k t now r l h.0 v), rest.1)

  served :
      (t : Time) (r : Request) (l : Limiter)
      → IsValid st l
      → st.refill_window ≤ credit st (guardian_onboarding_rate_limit_key net r) t l.buckets
      → (middleware net range st t r l).0 ≡ passed
  unfolding middleware
  served t r l v h =
      let key = guardian_onboarding_rate_limit_key net r in
      let swept =
        credit-StaysOrGoes range st key t l.buckets (clean_up st t l).buckets v.bounded
          (lookup-clean_up range st key t l v.unique) in
      ground (arith, allow-credit range st t key l)

  first_waited :
      (now t : Time) (r : Request) (l : Limiter) (seconds : ℕ)
      → (middleware net range st now r l).0 ≡ too_many_requests seconds
      → now + seconds * second ≤ t
      → st.refill_window
        ≤ credit st
            (guardian_onboarding_rate_limit_key net r)
            t
            (middleware net range st now r l).1.buckets
  unfolding middleware allow
  first_waited now t r l seconds refused h =
      elim (Bool-cases (is_guardian_onboarding_rate_limited_route r)) [
        | inr other ↦ let e : passed ≡ too_many_requests seconds = rw other at refused in cc
        | inl limited ↦
            let key = guardian_onboarding_rate_limit_key net r in
            let covers =
              header_covers range st
                (refilled st now (opened st now key (clean_up st now l).buckets)) seconds
                (rw limited at refused) in
            rw limited (credit-allow_waited range st positive now t key l (omega (arith, covers)))
      ]

  -- A refused client that comes back after the seconds of the `Retry-After` header is let through,
  -- whatever the limiter did for other clients and routes in between.
  pub middleware-waited :
      (now t : Time) (r : Request) (rs : List (Time × Request)) (l : Limiter) (seconds : ℕ)
      → IsValid st l
      → (middleware net range st now r l).0 ≡ too_many_requests seconds
      → Others (guardian_onboarding_rate_limit_key net r) rs
      → now + seconds * second ≤ t
      → (middleware net range st t r
          (serve_all net range st rs (middleware net range st now r l).1)).0
        ≡ passed
  middleware-waited now t r rs l seconds v refused others h =
      let key = guardian_onboarding_rate_limit_key net r in
      let after = middleware-IsValid net range st ranges positive now r l v in
      let between = serve_all-more key t rs (middleware net range st now r l).1 others after in
      served t r (serve_all net range st rs (middleware net range st now r l).1) between.1
        (omega (arith, between.0, first_waited now t r l seconds refused h))
