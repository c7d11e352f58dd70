-- ===== src/Limiter.antt =====
-- The token buckets before the guardian onboarding routes:
-- backend/internal/api/onboarding_rate_limit.go.
--
-- A `float64` of tokens is an exact fraction here: its numerator over the refill window in
-- nanoseconds, so that one token is `refill_window` and a nanosecond adds `refill`. Differences of
-- times stop at 0; the code compares them only with positive bounds. A Go map is a list of buckets,
-- and the order in which the runtime ranges over it is the parameter `range`.
pub mod Buckets
pub mod Middleware
pub mod Bounds
pub mod Credit
pub mod Calls
pub mod Quota
pub mod Wait
pub mod Keys
pub mod Tests
use miniclass.Base.{
  ℕ, ◌+◌, ◌-◌, ◌*◌, ◌/◌, ltb, leb, Bool, true, false, not, ◌||◌, List, [], ◌∷◌, Option, none, some,
  length, keep, if◌then◌else◌, Time,
}
use miniclass.Base.Int.{ℤ, pos, pos_part, leb_ℤ}
use miniclass.Base.Text.{Text, eq_text}

-- `time.Second`
abbrev pub second : Time
second = 1_000_000_000

-- What a caller asks for; the fields are signed.
pub record GivenSettings : Type 0 where
  pub burst : ℤ
  pub refill : ℤ
  pub refill_window : ℤ
  pub bucket_limit : ℤ
  pub bucket_ttl : ℤ

pub record Settings : Type 0 where
  pub burst : ℕ
  pub refill : ℕ
  pub refill_window : Time
  pub bucket_limit : ℕ
  pub bucket_ttl : Time

abbrev pub default_settings : Settings
default_settings = record {
  burst = 20;
  refill = 20;
  refill_window = 60 * second;
  bucket_limit = 10_000;
  bucket_ttl = 600 * second;
}

abbrev pub or_default : ℤ → ℕ → ℕ
or_default given default = if leb_ℤ given (pos 0) then default else pos_part given

unfoldable pub with_defaults : GivenSettings → Settings
with_defaults s = record {
  burst = or_default s.burst default_settings.burst;
  refill = or_default s.refill default_settings.refill;
  refill_window = or_default s.refill_window default_settings.refill_window;
  bucket_limit = or_default s.bucket_limit default_settings.bucket_limit;
  bucket_ttl = or_default s.bucket_ttl default_settings.bucket_ttl;
}

-- A bucket with its key in the map.
pub record Bucket : Type 0 where
  pub key : Text
  pub tokens : ℕ
  pub seen_at : Time

pub record Limiter : Type 0 where
  pub buckets : List Bucket
  pub last_cleanup : Option Time

abbrev pub new_limiter : Limiter
new_limiter = record { buckets = []; last_cleanup = none }

-- `bucket, found := l.buckets[key]`
abbrev pub lookup : Text → List Bucket → Option Bucket
lookup k [] = none
lookup k (b ∷ bs) = let rest = lookup k bs in if eq_text b.key k then some b else rest

-- `l.buckets[key] = bucket`
abbrev pub store : Bucket → List Bucket → List Bucket
store a [] = a ∷ []
store a (b ∷ bs) = let rest = b ∷ store a bs in if eq_text b.key a.key then a ∷ bs else rest

-- `delete(l.buckets, key)`
abbrev pub delete : Text → List Bucket → List Bucket
delete k bs = keep (λ b. not (eq_text b.key k)) bs

abbrev pub is_empty : Text → Bool
is_empty [] = true
is_empty (_ ∷ _) = false

-- The loop of `evictOldest`, which takes an empty key for "none yet".
unfoldable pub oldest_key : Text → Time → List Bucket → Text
oldest_key key oldest [] = key
oldest_key key oldest (b ∷ bs) =
    let take = is_empty key || ltb b.seen_at oldest in
    oldest_key (if take then b.key else key) (if take then b.seen_at else oldest) bs

-- The answer of `allow`.
pub record Verdict : Type 0 where
  pub allowed : Bool
  pub retry_after : Time

module _ (st : Settings) where
  -- A full bucket.
  abbrev pub full : ℕ
  full = st.burst * st.refill_window

  abbrev pub is_live : Time → Bucket → Bool
  is_live now b = not (leb st.bucket_ttl (now - b.seen_at))

  unfoldable pub evict_expired : Time → List Bucket → List Bucket
  evict_expired now bs = keep (is_live now) bs

  abbrev pub cleanup_due : Time → Option Time → Bool
  cleanup_due now none = true
  cleanup_due now (some t) = leb st.refill_window (now - t)

  unfoldable pub clean_up : Time → Limiter → Limiter
  unfolding evict_expired
  clean_up now l =
      if cleanup_due now l.last_cleanup
      then record { buckets = evict_expired now l.buckets; last_cleanup = some now }
      else l

  -- The bucket of the key; a new one is full.
  abbrev pub opened : Time → Text → List Bucket → Bucket
  opened now key bs = elim (lookup key bs) [
    | some b ↦ b
    | none ↦ record { key = key; tokens = full; seen_at = now }
  ]

  -- `elapsed > 0` is a refill up to the burst.
  unfoldable pub refilled : Time → Bucket → Bucket
  refilled now b =
      let more = b.tokens + (now - b.seen_at) * st.refill in
      let topped = if leb full more then full else more in
      record b { tokens = if ltb 0 (now - b.seen_at) then topped else b.tokens; seen_at = now }

  -- `math.Ceil(window.Seconds() / refill)` seconds.
  unfoldable pub retry_after : Time
  retry_after = let period = st.refill * second in (st.refill_window + period - 1) / period * second

  abbrev pub has_token : Bucket → Bool
  has_token b = leb st.refill_window b.tokens

  unfoldable pub spend : Bucket → Bucket
  spend b = if has_token b then record b { tokens = b.tokens - st.refill_window } else b

  unfoldable pub verdict : Bucket → Verdict
  unfolding retry_after
  verdict b =
      if has_token b
      then record { allowed = true; retry_after = 0 }
      else record { allowed = false; retry_after = retry_after }

module _ (range : List Bucket → List Bucket) where
  unfoldable pub evict_oldest : List Bucket → List Bucket
  unfolding oldest_key
  evict_oldest bs = let k = oldest_key [] 0 (range bs) in if is_empty k then bs else delete k bs

  module _ (st : Settings) where
    -- A new key makes room first.
    unfoldable pub room_for : Text → List Bucket → List Bucket
    unfolding evict_oldest
    room_for key bs = elim (lookup key bs) [
      | some _ ↦ bs
      | none ↦ if leb st.bucket_limit (length bs) then evict_oldest bs else bs
    ]

    unfoldable pub allow : Time → Text → Limiter → Verdict × Limiter
    unfolding clean_up refilled spend verdict room_for
    allow now key l =
        let cleaned = clean_up st now l in
        let bucket = refilled st now (opened st now key cleaned.buckets) in
        (
          verdict st bucket,
          record cleaned { buckets = store (spend st bucket) (room_for key cleaned.buckets) },
        )
