-- ===== src/Limiter/Calls.antt =====
-- What one call of `allow` does to the credit of its own key and of the others.
use miniclass.Base.{
  suc, ◌+◌, ◌≤◌, ◌<◌, ◌≡◌, ◌∙◌, ap, leb, false, not, List, [], some, length, arith, if◌then◌else◌,
  Time,
}
use miniclass.Base.Text.{Text, eq_text, eq_text_refl}
use miniclass.Limiter.{
  Settings, Bucket, Limiter, lookup, clean_up, evict_expired, is_live, refilled, spend, verdict,
  opened, evict_oldest, room_for, allow, oldest_key,
}
use miniclass.Limiter.Buckets.{lookup-store, length-store, length-keep}
use miniclass.Limiter.Bounds.{key-opened, key-spend}
use miniclass.Limiter.Credit.{credit, credit-some}

pub length-clean_up :
    (st : Settings) (now : Time) (l : Limiter)
    → length (clean_up st now l).buckets ≤ length l.buckets
unfolding clean_up evict_expired
length-clean_up st now l = ground (arith, length-keep (is_live st now) l.buckets)

module _ (range : List Bucket → List Bucket) (st : Settings) where
  -- The decision is taken on the credit after the cleanup.
  pub allow-credit :
      (now : Time) (key : Text) (l : Limiter)
      → (allow range st now key l).0.allowed
        ≡ leb st.refill_window (credit st key now (clean_up st now l).buckets)
  unfolding allow credit verdict
  allow-credit now key l = ground arith

  pub room_for-free :
      (key : Text) (bs : List Bucket) → length bs < st.bucket_limit → room_for range st key bs ≡ bs
  unfolding room_for
  room_for-free key bs h = ground arith

  module _ (now : Time) (key : Text) (l : Limiter) where
    abbrev pub own : Bucket
    own = spend st (refilled st now (opened st now key (clean_up st now l).buckets))

    key-own : own.key ≡ key
    key-own =
        key-spend st now (opened st now key (clean_up st now l).buckets)
        ∙ key-opened st now key (clean_up st now l).buckets

    abbrev pub left : Limiter
    left = (allow range st now key l).1

    pub lookup-allow :
        (k : Text)
        → lookup k left.buckets ≡ (
            if eq_text key k
            then some own
            else lookup k (room_for range st key (clean_up st now l).buckets))
    unfolding allow
    lookup-allow k =
        lookup-store k own (room_for range st key (clean_up st now l).buckets)
        ∙ ap
            (λ j.
              if eq_text j k
              then some own
              else lookup k (room_for range st key (clean_up st now l).buckets))
            key-own

    -- The key's own bucket, looked at later.
    pub credit-allow_own : (t : Time) → credit st key t left.buckets ≡ (refilled st t own).tokens
    credit-allow_own t =
        credit-some st key t left.buckets own (lookup-allow key ∙ rw (eq_text_refl key))

    pub credit-allow_spent :
        credit st key now left.buckets
          + (if (allow range st now key l).0.allowed then st.refill_window else 0)
        ≡ credit st key now (clean_up st now l).buckets
    unfolding credit refilled spend
    credit-allow_spent = ground (arith, credit-allow_own now, allow-credit now key l)

    -- Another key keeps its credit where the table has room.
    pub credit-allow_other :
        (k : Text) (t : Time)
        → eq_text key k ≡ false
        → length (clean_up st now l).buckets < st.bucket_limit
        → credit st k t left.buckets ≡ credit st k t (clean_up st now l).buckets
    unfolding credit
    credit-allow_other k t e room =
        let same : lookup k left.buckets ≡ lookup k (clean_up st now l).buckets =
          lookup-allow k ∙ rw (e, room_for-free key (clean_up st now l).buckets room) in
        rw (same, opened)

    length-room_for :
        length (room_for range st key (clean_up st now l).buckets)
        ≤ length (clean_up st now l).buckets
    unfolding room_for evict_oldest
    length-room_for = ground (
      arith,
      length-keep (λ b. not (eq_text b.key (oldest_key [] 0 (range (clean_up st now l).buckets))))
          (clean_up st now l).buckets,
    )

    pub length-allow : length left.buckets ≤ suc (length l.buckets)
    unfolding allow
    length-allow = ground (
      arith,
      length-store own (room_for range st key (clean_up st now l).buckets),
      length-room_for,
      length-clean_up st now l,
    )
