-- ===== src/Limiter/Credit.antt =====
-- The tokens that a request would find, as the view of a bucket that forgets when it was last
-- touched and whether it is stored at all.
use miniclass.Base.{
  ℕ, ◌+◌, ◌-◌, ◌*◌, ◌≤◌, ◌<◌, ◌≡◌, ◌∙◌, sym, ap, ◌⊎◌, false, List, none, some, keep, All, arith,
  Bool-cases, Option-cases, inl, inr, Time,
}
use miniclass.Base.Text.{Text}
use miniclass.Limiter.{
  Settings, Bucket, Limiter, lookup, full, is_live, evict_expired, clean_up, cleanup_due, refilled,
  opened,
}
use miniclass.Limiter.Buckets.{HasUniqueKeys, kept, lookup-keep, All-lookup}
use miniclass.Limiter.Bounds.{IsBounded, opened-IsBounded}

pub mul_mono : (a m r : ℕ) → a ≤ m → a * r ≤ m * r
mul_mono a m r h = grind arith

times_split : (a b c r : ℕ) → a ≤ b + c → a * r ≤ b * r + c * r
times_split a b c r h =
    let distributed : (b + c) * r ≡ b * r + c * r = grind arith in
    omega (arith, mul_mono a (b + c) r h, distributed)

module _ (st : Settings) where
  unfoldable pub credit : Text → Time → List Bucket → ℕ
  unfolding refilled
  credit key t bs = (refilled st t (opened st t key bs)).tokens

  pub credit-full :
      (key : Text) (t : Time) (bs : List Bucket) → All (IsBounded st) bs → credit key t bs ≤ full st
  unfolding credit
  credit-full key t bs h = ground (arith, opened-IsBounded st t key bs h)

  pub credit-none :
      (key : Text) (t : Time) (bs : List Bucket) → lookup key bs ≡ none → credit key t bs ≡ full st
  unfolding credit
  credit-none key t bs e = rw (e, opened) (ground arith)

  pub credit-some :
      (key : Text) (t : Time) (bs : List Bucket) (b : Bucket)
      → lookup key bs ≡ some b
      → credit key t bs ≡ (refilled st t b).tokens
  unfolding credit
  credit-some key t bs b e = rw (e, opened)

  refilled_later :
      (t t' : Time) (b : Bucket)
      → IsBounded st b
      → t ≤ t'
      → (refilled st t' b).tokens ≤ (refilled st t b).tokens + (t' - t) * st.refill
  unfolding refilled
  refilled_later t t' b h le =
      ground (arith, times_split (t' - b.seen_at) (t - b.seen_at) (t' - t) st.refill (omega arith))

  pub credit-eq :
      (key : Text) (t : Time) (bs cs : List Bucket)
      → lookup key bs ≡ lookup key cs
      → credit key t bs ≡ credit key t cs
  unfolding credit
  credit-eq key t bs cs e = rw (e, opened)

  -- What a bucket holds depends on when it is looked at only by the refill.
  pub credit_later :
      (key : Text) (t t' : Time) (bs : List Bucket)
      → All (IsBounded st) bs
      → t ≤ t'
      → credit key t' bs ≤ credit key t bs + (t' - t) * st.refill
  credit_later key t t' bs h le = elim (Option-cases (lookup key bs)) [
    | inl e ↦ omega (arith, credit-none key t bs e, credit-none key t' bs e)
    | inr (b, e) ↦ omega (
      arith,
      credit-some key t bs b e,
      credit-some key t' bs b e,
      refilled_later t t' b (All-lookup (IsBounded st) key bs b e h) le,
    )
  ]

  -- A bucket that expired is full again.
  refilled_expired :
      (now : Time) (b : Bucket)
      → full st ≤ st.bucket_ttl * st.refill
      → 0 < st.bucket_ttl
      → is_live st now b ≡ false
      → (refilled st now b).tokens ≡ full st
  unfolding refilled
  refilled_expired now b covers positive h =
      let long : st.bucket_ttl ≤ now - b.seen_at = ground arith in
      ground (arith, mul_mono st.bucket_ttl (now - b.seen_at) st.refill long)

  -- A cleanup takes away only what a waiting time would refill anyway.
  pub clean_up-credit :
      full st ≤ st.bucket_ttl * st.refill
      → 0 < st.bucket_ttl
      → (key : Text) (now : Time) (l : Limiter) → HasUniqueKeys l.buckets
      → credit key now (clean_up st now l).buckets ≡ credit key now l.buckets
  unfolding clean_up evict_expired
  clean_up-credit covers positive key now l unique =
      elim (Bool-cases (cleanup_due st now l.last_cleanup)) [
        | inr early ↦ rw early
        | inl due ↦ rw due (swept (Option-cases (lookup key l.buckets)))
      ]
    where
      after :
          lookup key (keep (is_live st now) l.buckets)
          ≡ kept (is_live st now) (lookup key l.buckets)
      after = lookup-keep (is_live st now) key l.buckets unique

      swept :
          (lookup key l.buckets ≡ none) ⊎ ((b : Bucket) × (lookup key l.buckets ≡ some b))
          → credit key now (keep (is_live st now) l.buckets) ≡ credit key now l.buckets
      swept (inl e) =
          credit-none key now (keep (is_live st now) l.buckets)
            (after ∙ ap (kept (is_live st now)) e)
          ∙ sym (credit-none key now l.buckets e)
      swept (inr (b, e)) = elim (Bool-cases (is_live st now b)) [
        | inl live ↦
            credit-some key now (keep (is_live st now) l.buckets) b
              (after ∙ ap (kept (is_live st now)) e ∙ rw live)
            ∙ sym (credit-some key now l.buckets b e)
        | inr expired ↦
            credit-none key now (keep (is_live st now) l.buckets)
              (after ∙ ap (kept (is_live st now)) e ∙ rw expired)
            ∙ sym
                (credit-some key now l.buckets b e ∙ refilled_expired now b covers positive expired)
      ]
