-- ===== src/Limiter/Middleware.antt =====
-- The middleware around the limiter: which requests it counts, for whom, and what it answers.
use miniclass.Base.{
  ℕ, suc, ◌/◌, leb, Bool, true, false, ◌&&◌, ◌||◌, List, [], ◌∷◌, ◌++◌, Option, none, some,
  if◌then◌else◌, Time,
}
use miniclass.Base.Text.{Text, codes, eq_text, has_prefix, has_suffix}
use miniclass.RealIp.{Netip, parse_remote_addr}
use miniclass.Limiter.{Settings, Bucket, Verdict, Limiter, second, allow}

-- The parts of an `http.Request` that the middleware reads.
pub record Request : Type 0 where
  pub method : Text
  pub path : Text
  pub remote_addr : Text

abbrev pub api_base_path : Text
api_base_path = codes "/api"

unfoldable pub is_guardian_onboarding_rate_limited_route : Request → Bool
unfolding has_suffix has_prefix
is_guardian_onboarding_rate_limited_route r =
    eq_text r.method (codes "POST")
    && (eq_text r.path (api_base_path ++ codes "/guardian/onboarding/begin")
        || (eq_text r.path (api_base_path ++ codes "/guardian/onboarding/invitation/redeem")
            || (eq_text r.path (api_base_path ++ codes "/guardian/onboarding/otp/request")
                || (has_prefix r.path (api_base_path ++ codes "/guardian/onboarding/")
                    && has_suffix r.path (codes "/begin")))))

-- What the client gets: the next handler's answer, or 429 with a `Retry-After` in seconds.
pub data Served : Type 0 where
  passed : Served
  too_many_requests : ℕ → Served

abbrev pub is_passed : Served → Bool
is_passed passed = true
is_passed (too_many_requests _) = false

module _ (net : Netip) where
  abbrev pub address_text : Option net.Addr → Text
  address_text (some addr) = net.string addr
  address_text none = codes "unknown"

  unfoldable pub guardian_onboarding_client_address : Request → Text
  unfolding parse_remote_addr
  guardian_onboarding_client_address r = address_text (parse_remote_addr net r.remote_addr)

  unfoldable pub guardian_onboarding_rate_limit_key : Request → Text
  unfolding guardian_onboarding_client_address
  guardian_onboarding_rate_limit_key r = guardian_onboarding_client_address r ++ (b':' ∷ r.path)

abbrev pub answer : Verdict → Served
answer v =
    let seconds = v.retry_after / second in
    if v.allowed then passed else too_many_requests (if leb 1 seconds then seconds else 1)

module _ (net : Netip) (range : List Bucket → List Bucket) (st : Settings) where
  unfoldable pub middleware : Time → Request → Limiter → Served × Limiter
  unfolding is_guardian_onboarding_rate_limited_route guardian_onboarding_rate_limit_key allow
  middleware now r l =
      let limited = allow range st now (guardian_onboarding_rate_limit_key net r) l in
      if is_guardian_onboarding_rate_limited_route r
      then (answer limited.0, limited.1)
      else (passed, l)

  -- The requests that one process handles, in the order in which they hold the mutex.
  unfoldable pub serve_all : List (Time × Request) → Limiter → Limiter
  unfolding middleware
  serve_all [] l = l
  serve_all ((now, r) ∷ rs) l = serve_all rs (middleware now r l).1

  abbrev pub counts : Text → Request → Bool
  counts key r =
      is_guardian_onboarding_rate_limited_route r
      && eq_text (guardian_onboarding_rate_limit_key net r) key

  -- How many of them that count against the key are let through.
  unfoldable pub let_through : Text → List (Time × Request) → Limiter → ℕ
  unfolding middleware
  let_through key [] l = 0
  let_through key ((now, r) ∷ rs) l =
      let rest = let_through key rs (middleware now r l).1 in
      if counts key r && is_passed (middleware now r l).0 then suc rest else rest
