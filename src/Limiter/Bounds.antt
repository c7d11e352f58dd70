-- ===== src/Limiter/Bounds.antt =====
-- What every call of `allow` keeps, and the settings it needs.
use mathlib.Core.List.{Permᴰ}
use miniclass.Base.{
  ◌≤◌, ◌<◌, ◌≡◌, ◌∙◌, leb, false, List, some, length, All, All-keep, arith, Bool-cases,
  Option-cases, inl, inr, Time,
}
use miniclass.Base.Text.{Text}
use miniclass.Limiter.{
  GivenSettings, Settings, with_defaults, Bucket, Limiter, new_limiter, lookup, store, is_empty,
  full, is_live, evict_expired, clean_up, cleanup_due, refilled, spend, opened, evict_oldest,
  room_for, allow,
}
use miniclass.Limiter.Buckets.{
  HasUniqueKeys, IsNamed, store-HasUniqueKeys, length-store, keep-HasUniqueKeys, length-keep,
  All-store, All-lookup, key-lookup, length-evict_oldest, All-evict_oldest,
  evict_oldest-HasUniqueKeys,
}

pub record IsPositive (st : Settings) : Type 0 where
  pub burst : 0 < st.burst
  pub refill : 0 < st.refill
  pub refill_window : 0 < st.refill_window
  pub bucket_limit : 0 < st.bucket_limit
  pub bucket_ttl : 0 < st.bucket_ttl

-- Whatever a caller asks for, the limiter works with positive settings.
pub with_defaults-IsPositive : (given : GivenSettings) → IsPositive (with_defaults given)
unfolding with_defaults
with_defaults-IsPositive given = ground arith

module _ (st : Settings) where
  abbrev pub IsBounded : Bucket → Type 0
  IsBounded b = b.tokens ≤ full st

  pub record IsValid (l : Limiter) : Type 0 where
    pub unique : HasUniqueKeys l.buckets
    pub room : length l.buckets ≤ st.bucket_limit
    pub named : All IsNamed l.buckets
    pub bounded : All IsBounded l.buckets

  pub new_limiter-IsValid : IsValid new_limiter
  new_limiter-IsValid = record { unique = tt; room = omega arith; named = tt; bounded = tt }

  pub clean_up-IsValid : (now : Time) (l : Limiter) → IsValid l → IsValid (clean_up st now l)
  unfolding clean_up evict_expired
  clean_up-IsValid now l v = elim (Bool-cases (cleanup_due st now l.last_cleanup)) [
    | inl due ↦ rw due (record {
      unique = keep-HasUniqueKeys (is_live st now) l.buckets v.unique;
      room = omega (arith, length-keep (is_live st now) l.buckets, v.room);
      named = All-keep IsNamed (is_live st now) l.buckets v.named;
      bounded = All-keep IsBounded (is_live st now) l.buckets v.bounded;
    })
    | inr early ↦ rw early v
  ]

  pub spend-IsBounded :
      (now : Time) (b : Bucket) → IsBounded b → IsBounded (spend st (refilled st now b))
  unfolding spend refilled
  spend-IsBounded now b h = ground arith

  pub key-spend : (now : Time) (b : Bucket) → (spend st (refilled st now b)).key ≡ b.key
  unfolding spend refilled
  key-spend now b = ground arith

  pub key-opened : (now : Time) (key : Text) (bs : List Bucket) → (opened st now key bs).key ≡ key
  key-opened now key bs = elim (Option-cases (lookup key bs)) [
    | inl e ↦ rw (e, opened)
    | inr (b, e) ↦ rw (e, opened) (key-lookup key bs b e)
  ]

  pub opened-IsBounded :
      (now : Time) (key : Text) (bs : List Bucket)
      → All IsBounded bs
      → IsBounded (opened st now key bs)
  opened-IsBounded now key bs h = elim (Option-cases (lookup key bs)) [
    | inl e ↦ rw (e, opened) (omega arith)
    | inr (b, e) ↦ rw (e, opened) (All-lookup IsBounded key bs b e h)
  ]

module _ (range : List Bucket → List Bucket) (st : Settings) where
  room_for-All {κ} :
      (P : Bucket → Type κ) (key : Text) (bs : List Bucket)
      → All P bs
      → All P (room_for range st key bs)
  unfolding room_for
  room_for-All P key bs h = elim (Option-cases (lookup key bs)) [
    | inr (b, e) ↦ rw (e, room_for) h
    | inl e ↦ elim (Bool-cases (leb st.bucket_limit (length bs))) [
      | inl t ↦ rw (e, t, room_for) (All-evict_oldest P range bs h)
      | inr f ↦ rw (e, f, room_for) h
    ]
  ]

  pub room_for-HasUniqueKeys :
      (key : Text) (bs : List Bucket) → HasUniqueKeys bs → HasUniqueKeys (room_for range st key bs)
  unfolding room_for
  room_for-HasUniqueKeys key bs h = elim (Option-cases (lookup key bs)) [
    | inr (b, e) ↦ rw (e, room_for) h
    | inl e ↦ elim (Bool-cases (leb st.bucket_limit (length bs))) [
      | inl t ↦ rw (e, t, room_for) (evict_oldest-HasUniqueKeys range bs h)
      | inr f ↦ rw (e, f, room_for) h
    ]
  ]

  -- A bucket of the key fits into the room that was made for it.
  length-store-room_for :
      (ranges : (bs : List Bucket) → Permᴰ (range bs) bs)
      → 0 < st.bucket_limit
      → (key : Text) (a : Bucket) (bs : List Bucket) → a.key ≡ key
      → All IsNamed bs
      → length bs ≤ st.bucket_limit
      → length (store a (room_for range st key bs)) ≤ st.bucket_limit
  unfolding room_for
  length-store-room_for ranges positive key a bs k named room =
      elim (Option-cases (lookup key bs)) [
        | inr (b, e) ↦
            let own : lookup a.key bs ≡ some b = rw k e in
            rw (e, room_for) (rw (length-store a bs, own) room)
        | inl e ↦ elim (Bool-cases (leb st.bucket_limit (length bs))) [
          | inl t ↦
              rw (e, t, room_for)
                (ground (
                  arith,
                  length-store a (evict_oldest range bs),
                  length-evict_oldest range ranges bs named,
                ))
          | inr f ↦ rw (e, f, room_for) (ground (arith, length-store a bs))
        ]
      ]

  -- Every call keeps the table well-formed: one bucket for a key, no more buckets than the limit
  -- and no more tokens in one than the burst, in whatever order the runtime ranges over the map.
  pub allow-IsValid :
      (ranges : (bs : List Bucket) → Permᴰ (range bs) bs)
      → IsPositive st
      → (now : Time) (key : Text) (l : Limiter) → is_empty key ≡ false
      → IsValid st l
      → IsValid st (allow range st now key l).1
  unfolding allow
  allow-IsValid ranges positive now key l named v = record {
    unique =
        store-HasUniqueKeys bucket (room_for range st key cs)
          (room_for-HasUniqueKeys key cs c.unique);
    room = length-store-room_for ranges positive.bucket_limit key bucket cs own c.named c.room;
    named =
        All-store IsNamed bucket (room_for range st key cs) (rw own named)
          (room_for-All IsNamed key cs c.named);
    bounded =
        All-store (IsBounded st) bucket (room_for range st key cs)
          (spend-IsBounded st now (opened st now key cs) (opened-IsBounded st now key cs c.bounded))
          (room_for-All (IsBounded st) key cs c.bounded);
  }
    where
      c : IsValid st (clean_up st now l)
      c = clean_up-IsValid st now l v

      cs : List Bucket
      cs = (clean_up st now l).buckets

      bucket : Bucket
      bucket = spend st (refilled st now (opened st now key cs))

      own : bucket.key ≡ key
      own = key-spend st now (opened st now key cs) ∙ key-opened st now key cs
