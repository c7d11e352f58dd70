-- ===== src/Limiter/Quota.antt =====
-- How many requests the limiter lets through in a given time.
use mathlib.Core.List.{Permᴰ}
use miniclass.Base.{
  ℕ, suc, ◌+◌, ◌-◌, ◌*◌, ◌≤◌, ◌<◌, ◌≡◌, ◌∙◌, sym, ap, subst, refl, false, ◌&&◌, List, [], ◌∷◌, ◌++◌,
  length, arith, if◌then◌else◌, Bool-cases, inl, inr, Time,
}
use miniclass.Base.Text.{Text, eq_text, eq_of_eq_text}
use miniclass.RealIp.{Netip}
use miniclass.Limiter.{Settings, Bucket, Verdict, Limiter, is_empty, full, allow}
use miniclass.Limiter.Middleware.{
  Request, is_passed, answer, guardian_onboarding_client_address,
  guardian_onboarding_rate_limit_key, is_guardian_onboarding_rate_limited_route, middleware,
  let_through, counts,
}
use miniclass.Limiter.Bounds.{IsPositive, IsValid, allow-IsValid}
use miniclass.Limiter.Credit.{credit, credit-full, credit_later, clean_up-credit}
use miniclass.Limiter.Calls.{credit-allow_spent, credit-allow_other, length-clean_up}

-- The requests come one after the other, from `start` to `end`.
abbrev pub InOrder : Time → Time → List (Time × Request) → Type 0
InOrder start end [] = start ≤ end
InOrder start end ((now, r) ∷ rs) = (start ≤ now) × InOrder now end rs

distribute : (b c r : ℕ) → (b + c) * r ≡ b * r + c * r
distribute b c r = grind arith

InOrder-le : (start end : Time) (rs : List (Time × Request)) → InOrder start end rs → start ≤ end
InOrder-le start end [] h = h
InOrder-le start end ((now, r) ∷ rs) h = omega (arith, h.0, InOrder-le now end rs h.1)

times_join :
    (start now end r : ℕ)
    → start ≤ now
    → now ≤ end
    → (now - start) * r + (end - now) * r ≡ (end - start) * r
times_join start now end r h h' =
    let joined : (now - start) + (end - now) ≡ end - start = omega arith in
    let distributed : ((now - start) + (end - now)) * r ≡ (now - start) * r + (end - now) * r =
      distribute (now - start) (end - now) r in
    sym distributed ∙ ap (λ t. t * r) joined

is_empty-append : (s t : Text) (c : ℕ) → is_empty (s ++ (c ∷ t)) ≡ false
is_empty-append [] t c = refl
is_empty-append (d ∷ s) t c = refl

charge_passed :
    (st : Settings) (v : Verdict)
    → (if is_passed (answer v) then st.refill_window else 0)
      ≡ (if v.allowed then st.refill_window else 0)
charge_passed st v = ground arith

pub is_empty-key :
    (net : Netip) (r : Request) → is_empty (guardian_onboarding_rate_limit_key net r) ≡ false
unfolding guardian_onboarding_rate_limit_key
is_empty-key net r = is_empty-append (guardian_onboarding_client_address net r) r.path b':'

module _ (net : Netip) (range : List Bucket → List Bucket) (st : Settings)
    (ranges : (bs : List Bucket) → Permᴰ (range bs) bs) (positive : IsPositive st) where
  pub middleware-IsValid :
      (now : Time) (r : Request) (l : Limiter)
      → IsValid st l
      → IsValid st (middleware net range st now r l).1
  unfolding middleware
  middleware-IsValid now r l v = elim (Bool-cases (is_guardian_onboarding_rate_limited_route r)) [
    | inl limited ↦ rw limited (
        allow-IsValid range st ranges positive now (guardian_onboarding_rate_limit_key net r) l
          (is_empty-key net r) v)
    | inr other ↦ rw other v
  ]

  -- What a request that counts against the key is charged.
  abbrev charge : Text → Time → Request → Limiter → ℕ
  charge key now r l =
      if counts net range st key r && is_passed (middleware net range st now r l).0
      then st.refill_window
      else 0

  -- The table has room before every request of the run.
  abbrev HasRoom : List (Time × Request) → Limiter → Type 0
  HasRoom [] l = Unit
  HasRoom ((now, r) ∷ rs) l =
      (length l.buckets < st.bucket_limit) × HasRoom rs (middleware net range st now r l).1

  module _ (covers : full st ≤ st.bucket_ttl * st.refill) where
    charge-credit :
        (key : Text) (now : Time) (r : Request) (l : Limiter)
        → IsValid st l
        → length l.buckets < st.bucket_limit
        → charge key now r l + credit st key now (middleware net range st now r l).1.buckets
          ≤ credit st key now l.buckets
    unfolding middleware
    charge-credit key now r l v room =
        let own = guardian_onboarding_rate_limit_key net r in
        let swept = clean_up-credit st covers positive.bucket_ttl key now l v.unique in
        let own_left = (allow range st now own l).1.buckets in
        let own_charge =
          if is_passed (answer (allow range st now own l).0) then st.refill_window else 0 in
        let spent : own_charge + credit st own now own_left ≤ credit st own now l.buckets = omega (
          arith,
          credit-allow_spent range st now own l,
          clean_up-credit st covers positive.bucket_ttl own now l v.unique,
          charge_passed st (allow range st now own l).0,
        ) in
        elim (Bool-cases (is_guardian_onboarding_rate_limited_route r)) [
          | inr other ↦ rw other (omega arith)
          | inl limited ↦ elim (Bool-cases (eq_text own key)) [
            | inl e ↦
                let same = eq_of_eq_text own key e in
                rw (limited, e)
                  (subst (λ k. own_charge + credit st k now own_left ≤ credit st k now l.buckets)
                    same spent)
            | inr e ↦ ground (
              arith,
              limited,
              swept,
              credit-allow_other range st now own l key now e,
              length-clean_up st now l,
            )
          ]
        ]

    let_through_bounds :
        (key : Text) (start end : Time) (rs : List (Time × Request)) (l : Limiter)
        → IsValid st l
        → InOrder start end rs
        → HasRoom rs l
        → let_through net range st key rs l * st.refill_window
          ≤ credit st key start l.buckets + (end - start) * st.refill
    unfolding let_through
    let_through_bounds key start end [] l v order room = omega arith
    let_through_bounds key start end ((now, r) ∷ rs) l v order room =
        let later = (middleware net range st now r l).1 in
        let rest =
          let_through_bounds key now end rs later (middleware-IsValid now r l v) order.1 room.1 in
        let charged = charge-credit key now r l v room.0 in
        let earlier = credit_later st key start now l.buckets v.bounded order.0 in
        let whole = times_join start now end st.refill order.0 (InOrder-le now end rs order.1) in
        elim (Bool-cases
          (counts net range st key r && is_passed (middleware net range st now r l).0)) [
            | inl one ↦
                let one_charged = rw one at charged in
                let count : suc (let_through net range st key rs later) * st.refill_window
                    ≡ st.refill_window + let_through net range st key rs later * st.refill_window =
                  grind arith in
                rw one (omega (arith, rest, one_charged, earlier, whole, count))
            | inr nothing ↦
                let none_charged = rw nothing at charged in
                rw nothing (omega (arith, rest, none_charged, earlier, whole))
          ]

    -- In exact fractions, while the table has room before every request, for requests whose times do
    -- not go back, and where an expired bucket would have been full again: the requests of one client
    -- on one route that are let through between two times are at most the burst and what the refill
    -- adds in between.
    pub let_through-within :
        (key : Text) (start end : Time) (rs : List (Time × Request)) (l : Limiter)
        → IsValid st l
        → InOrder start end rs
        → HasRoom rs l
        → let_through net range st key rs l * st.refill_window
          ≤ st.burst * st.refill_window + (end - start) * st.refill
    let_through-within key start end rs l v order room = omega (
      arith,
      let_through_bounds key start end rs l v order room,
      credit-full st key start l.buckets v.bounded,
    )
