-- ===== src/Limiter/Tests.antt =====
-- A limiter of one request a second, and a client that asks twice.
use mathlib.Core.List.{Permᴰ}
use mathlib.Core.List.Permᴰ
use miniclass.Base.{ℕ, ◌≡◌, ◌≤◌, ◌+◌, ◌-◌, ◌*◌, refl, false, List, [], ◌∷◌, arith, Time}
use miniclass.Base.Int.{pos, negsuc}
use miniclass.Base.Text.{codes}
use miniclass.RealIp.{Netip}
use miniclass.Samples.{digits}
use miniclass.Limiter.{
  Settings, default_settings, with_defaults, Bucket, Limiter, new_limiter, second, allow,
}
use miniclass.Limiter.Middleware.{
  Request, passed, too_many_requests, middleware, serve_all, let_through,
  guardian_onboarding_client_address, guardian_onboarding_rate_limit_key,
  is_guardian_onboarding_rate_limited_route,
}
use miniclass.Limiter.Bounds.{IsPositive, IsValid, new_limiter-IsValid, allow-IsValid}
use miniclass.Limiter.Quota.{middleware-IsValid, let_through-within}
use miniclass.Limiter.Keys.{has_slash, guardian_onboarding_rate_limit_key_unique}
use miniclass.Limiter.Wait.{middleware-waited}

abbrev one_a_second : Settings
one_a_second = record {
  burst = 1;
  refill = 1;
  refill_window = second;
  bucket_limit = 8;
  bucket_ttl = second;
}

one_a_second-IsPositive : IsPositive one_a_second
one_a_second-IsPositive = omega arith

in_order : List Bucket → List Bucket
in_order bs = bs

in_order_ranges : (bs : List Bucket) → Permᴰ (in_order bs) bs
unfolding in_order
in_order_ranges bs = Permᴰ.refl bs

abbrev begin : Request
begin = record {
  method = codes "POST";
  path = codes "/api/guardian/onboarding/begin";
  remote_addr = codes "1";
}

abbrev invited : Request
invited = record begin { path = codes "/api/guardian/onboarding/spring/begin" }

abbrev other_page : Request
other_page = record begin { path = codes "/api/session" }

abbrev asked_once : Limiter
asked_once = (middleware digits in_order one_a_second 5 begin new_limiter).1

asked_once-IsValid : IsValid one_a_second asked_once
asked_once-IsValid =
    middleware-IsValid digits in_order one_a_second in_order_ranges one_a_second-IsPositive 5 begin
      new_limiter (new_limiter-IsValid one_a_second)

first_passes : (middleware digits in_order one_a_second 5 begin new_limiter).0 ≡ passed
unfolding middleware in_order
first_passes = refl

second_waits : (middleware digits in_order one_a_second 6 begin asked_once).0 ≡ too_many_requests 1
unfolding middleware in_order
second_waits = refl

unlimited : (middleware digits in_order one_a_second 6 other_page asked_once).0 ≡ passed
unfolding middleware in_order
unlimited = refl

negative_settings :
    with_defaults (record {
      burst = negsuc 3;
      refill = pos 0;
      refill_window = pos 0;
      bucket_limit = pos 0;
      bucket_ttl = pos 0;
    })
    ≡ default_settings
unfolding with_defaults
negative_settings = refl

allow-IsValid_example :
    IsValid one_a_second (allow in_order one_a_second 7 (codes "1:/begin") asked_once).1
allow-IsValid_example =
    allow-IsValid in_order one_a_second in_order_ranges one_a_second-IsPositive 7 (codes "1:/begin")
      asked_once refl asked_once-IsValid

abbrev two_calls : List (Time × Request)
two_calls = (6, begin) ∷ (2_000_000_006, begin) ∷ []

let_through-within_example :
    let_through digits in_order one_a_second
        (guardian_onboarding_rate_limit_key digits begin)
        two_calls
        new_limiter
      * second
    ≤ 1 * second + (3_000_000_000 - 5) * 1
unfolding middleware
let_through-within_example =
    let_through-within digits in_order one_a_second in_order_ranges one_a_second-IsPositive
      (omega arith) (guardian_onboarding_rate_limit_key digits begin) 5 3_000_000_000 two_calls
      new_limiter (new_limiter-IsValid one_a_second) (omega arith) (omega arith)

middleware-waited_example :
    (middleware digits in_order one_a_second 1_000_000_006 begin (
      serve_all digits in_order one_a_second
        ((7, invited) ∷ [])
        (middleware digits in_order one_a_second 6 begin asked_once).1)).0
    ≡ passed
unfolding guardian_onboarding_rate_limit_key is_guardian_onboarding_rate_limited_route
middleware-waited_example =
    middleware-waited digits in_order one_a_second in_order_ranges one_a_second-IsPositive 6
      1_000_000_006 begin ((7, invited) ∷ []) asked_once 1 asked_once-IsValid second_waits
      (refl, tt) (omega arith)

abbrev begin_elsewhere : Request
begin_elsewhere = record begin { remote_addr = codes "2" }

-- All addresses of this network are printed alike.
abbrev decimal : Netip
decimal = record digits { string = λ a. codes "1" }

decimal-unmap : (a : ℕ) → decimal.has_zone a ≡ false → decimal.has_zone (decimal.unmap a) ≡ false
decimal-unmap a h = h

decimal-string : (a : ℕ) → decimal.has_zone a ≡ false → has_slash (codes "1") ≡ false
decimal-string a h = refl

guardian_onboarding_rate_limit_key_unique_example :
    (guardian_onboarding_client_address decimal begin
      ≡ guardian_onboarding_client_address decimal begin_elsewhere)
    × (begin.path ≡ begin_elsewhere.path)
unfolding is_guardian_onboarding_rate_limited_route guardian_onboarding_rate_limit_key
guardian_onboarding_rate_limit_key_unique_example =
    guardian_onboarding_rate_limit_key_unique decimal decimal-unmap decimal-string begin
      begin_elsewhere refl refl refl
