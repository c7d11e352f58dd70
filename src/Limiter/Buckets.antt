-- ===== src/Limiter/Buckets.antt =====
-- Laws of the map of buckets.
use mathlib.Core.List.{Permᴰ}
use miniclass.Base.{
  suc, ◌≤◌, ◌<◌, ◌≡◌, refl, Bool, true, false, not, List, [], ◌∷◌, Option, none, some, length, keep,
  All, All-keep, any, if◌then◌else◌, arith, Bool-cases, inl, inr, Time, ◌⊎◌, ap, sym, subst, ◌∙◌,
  ◌||◌, ltb,
}
use miniclass.Base.Text.{Text, eq_text, eq_text_refl, eq_of_eq_text}
use miniclass.Limiter.{Bucket, lookup, store, delete, is_empty, oldest_key, evict_oldest}

-- No two buckets share a key.
abbrev pub HasUniqueKeys : List Bucket → Type 0
HasUniqueKeys [] = Unit
HasUniqueKeys (b ∷ bs) = (lookup b.key bs ≡ none) × HasUniqueKeys bs

pub lookup-store :
    (k : Text) (a : Bucket) (bs : List Bucket)
    → lookup k (store a bs) ≡ (if eq_text a.key k then some a else lookup k bs)
lookup-store k a [] = refl
lookup-store k a (b ∷ bs) = elim (Bool-cases (eq_text b.key a.key)) [
  | inl e ↦ ground (arith, eq_of_eq_text b.key a.key)
  | inr e ↦ elim (Bool-cases (eq_text b.key k)) [
    | inl hit ↦
        ground
          (arith, lookup-store k a bs, eq_of_eq_text b.key k, eq_of_eq_text a.key k, eq_text_refl k)
    | inr miss ↦ ground (arith, lookup-store k a bs)
  ]
]

pub store-HasUniqueKeys :
    (a : Bucket) (bs : List Bucket) → HasUniqueKeys bs → HasUniqueKeys (store a bs)
store-HasUniqueKeys a [] h = (refl, tt)
store-HasUniqueKeys a (b ∷ bs) h = elim (Bool-cases (eq_text b.key a.key)) [
  | inl e ↦ ground (arith, eq_of_eq_text b.key a.key)
  | inr e ↦ ground (
    arith,
    lookup-store b.key a bs,
    store-HasUniqueKeys a bs,
    eq_of_eq_text a.key b.key,
    eq_text_refl b.key,
  )
]

pub length-store :
    (a : Bucket) (bs : List Bucket)
    → length (store a bs) ≡ elim (lookup a.key bs) [ none ↦ suc (length bs) | some _ ↦ length bs ]
length-store a [] = refl
length-store a (b ∷ bs) = ground (arith, length-store a bs)

abbrev pub kept : (Bucket → Bool) → Option Bucket → Option Bucket
kept p none = none
kept p (some b) = if p b then some b else none

pub lookup-keep :
    (p : Bucket → Bool) (k : Text) (bs : List Bucket)
    → HasUniqueKeys bs
    → lookup k (keep p bs) ≡ kept p (lookup k bs)
lookup-keep p k [] h = refl
lookup-keep p k (b ∷ bs) h = elim (Bool-cases (eq_text b.key k)) [
  | inl e ↦ ground (arith, lookup-keep p k bs, eq_of_eq_text b.key k)
  | inr e ↦ ground (arith, lookup-keep p k bs)
]

pub keep-HasUniqueKeys :
    (p : Bucket → Bool) (bs : List Bucket) → HasUniqueKeys bs → HasUniqueKeys (keep p bs)
keep-HasUniqueKeys p [] h = tt
keep-HasUniqueKeys p (b ∷ bs) h = ground (arith, keep-HasUniqueKeys p bs, lookup-keep p b.key bs)

pub length-keep : (p : Bucket → Bool) (bs : List Bucket) → length (keep p bs) ≤ length bs
length-keep p [] = omega arith
length-keep p (b ∷ bs) = ground (arith, length-keep p bs)

pub All-store {κ} :
    (P : Bucket → Type κ) (a : Bucket) (bs : List Bucket) → P a → All P bs → All P (store a bs)
All-store P a [] ha h = (ha, tt)
All-store P a (b ∷ bs) ha h = elim (Bool-cases (eq_text b.key a.key)) [
  | inl e ↦ rw e (ha, h.1)
  | inr e ↦ rw e (h.0, All-store P a bs ha h.1)
]

pub All-lookup {κ} :
    (P : Bucket → Type κ) (k : Text) (bs : List Bucket) (b : Bucket)
    → lookup k bs ≡ some b
    → All P bs
    → P b
All-lookup P k [] b e h = cc
All-lookup P k (a ∷ bs) b e h = elim (Bool-cases (eq_text a.key k)) [
  | inl t ↦ let same : some a ≡ some b = rw t at e in let same' : a ≡ b = cc in rw (← same') h.0
  | inr f ↦ All-lookup P k bs b (rw f at e) h.1
]

pub key-lookup : (k : Text) (bs : List Bucket) (b : Bucket) → lookup k bs ≡ some b → b.key ≡ k
key-lookup k [] b e = cc
key-lookup k (a ∷ bs) b e = ground (arith, key-lookup k bs b, eq_of_eq_text a.key k)

abbrev pub has_key : Text → List Bucket → Bool
has_key k bs = any (λ b. eq_text b.key k) bs

pub any-Perm : (p : Bucket → Bool) (xs ys : List Bucket) → Permᴰ xs ys → any p xs ≡ any p ys
any-Perm p _ _ Permᴰ.nil = refl
any-Perm p _ _ (Permᴰ.cons {l₁} {l₂} e r) = ground (arith, ap p e, any-Perm p l₁ l₂ r)
any-Perm p _ _ (Permᴰ.swap e e') = ground (arith, ap p e, ap p e')
any-Perm p _ _ (Permᴰ.trans {l₁} {l₂} {l₃} r r') = any-Perm p l₁ l₂ r ∙ any-Perm p l₂ l₃ r'

pub length-delete :
    (k : Text) (bs : List Bucket) → has_key k bs ≡ true → length (delete k bs) < length bs
length-delete k [] h = cc
length-delete k (b ∷ bs) h =
    ground (arith, length-delete k bs, length-keep (λ c. not (eq_text c.key k)) bs)

-- The scan ends at the key that it starts with or at one of the list.
oldest_key-has_key :
    (key : Text) (oldest : Time) (bs : List Bucket)
    → (oldest_key key oldest bs ≡ key) ⊎ (has_key (oldest_key key oldest bs) bs ≡ true)
unfolding oldest_key
oldest_key-has_key key oldest [] = inl refl
oldest_key-has_key key oldest (b ∷ bs) = elim (Bool-cases (is_empty key || ltb b.seen_at oldest)) [
  | inl e ↦ moved (rw (e, oldest_key)) (taken (oldest_key-has_key b.key b.seen_at bs))
  | inr e ↦ moved (rw (e, oldest_key)) (passed (oldest_key-has_key key oldest bs))
]
  where
    moved :
        {j : Text}
        → oldest_key key oldest (b ∷ bs) ≡ j
        → (j ≡ key) ⊎ (has_key j (b ∷ bs) ≡ true)
        → (oldest_key key oldest (b ∷ bs) ≡ key)
          ⊎ (has_key (oldest_key key oldest (b ∷ bs)) (b ∷ bs) ≡ true)
    moved step h = subst (λ k. (k ≡ key) ⊎ (has_key k (b ∷ bs) ≡ true)) (sym step) h

    taken :
        (oldest_key b.key b.seen_at bs ≡ b.key)
          ⊎ (has_key (oldest_key b.key b.seen_at bs) bs ≡ true)
        → (oldest_key b.key b.seen_at bs ≡ key)
          ⊎ (has_key (oldest_key b.key b.seen_at bs) (b ∷ bs) ≡ true)
    taken (inl e) = inr (rw e (ground (arith, eq_text_refl b.key)))
    taken (inr e) = inr (ground arith)

    passed :
        (oldest_key key oldest bs ≡ key) ⊎ (has_key (oldest_key key oldest bs) bs ≡ true)
        → (oldest_key key oldest bs ≡ key) ⊎ (has_key (oldest_key key oldest bs) (b ∷ bs) ≡ true)
    passed (inl e) = inl e
    passed (inr e) = inr (ground arith)

abbrev pub IsNamed : Bucket → Type 0
IsNamed b = is_empty b.key ≡ false

has_key-named :
    (k : Text) (bs : List Bucket) → All IsNamed bs → has_key k bs ≡ true → is_empty k ≡ false
has_key-named k [] h e = cc
has_key-named k (b ∷ bs) h e = elim (Bool-cases (eq_text b.key k)) [
  | inl t ↦ rw (← (eq_of_eq_text b.key k t)) h.0
  | inr f ↦ has_key-named k bs h.1 (rw f at e)
]

oldest_key-first :
    (b : Bucket) (bs : List Bucket) → has_key (oldest_key [] 0 (b ∷ bs)) (b ∷ bs) ≡ true
unfolding oldest_key
oldest_key-first b bs = go (oldest_key-has_key b.key b.seen_at bs)
  where
    go :
        (oldest_key b.key b.seen_at bs ≡ b.key)
          ⊎ (has_key (oldest_key b.key b.seen_at bs) bs ≡ true)
        → has_key (oldest_key b.key b.seen_at bs) (b ∷ bs) ≡ true
    go (inl e) = ground (arith, eq_text_refl b.key)
    go (inr e) = ground arith

-- A range over a map that is not empty ends at a key of it.
oldest_key-range :
    (range bs : List Bucket)
    → Permᴰ range bs
    → 0 < length bs
    → has_key (oldest_key [] 0 range) bs ≡ true
oldest_key-range [] [] r h = absurd (omega arith)
oldest_key-range [] (b ∷ bs) r h = cc (any-Perm (λ _. true) [] (b ∷ bs) r)
oldest_key-range (c ∷ cs) bs r h =
    let k = oldest_key [] 0 (c ∷ cs) in
    sym (any-Perm (λ b. eq_text b.key k) (c ∷ cs) bs r) ∙ oldest_key-first c cs

module _ (range : List Bucket → List Bucket)
    (ranges : (bs : List Bucket) → Permᴰ (range bs) bs) where
  -- Room is made by taking buckets away, and at least one.
  pub length-evict_oldest :
      (bs : List Bucket)
      → All IsNamed bs
      → 0 < length bs
      → length (evict_oldest range bs) < length bs
  unfolding evict_oldest
  length-evict_oldest bs named h =
      let k = oldest_key [] 0 (range bs) in
      let inside : has_key k bs ≡ true = oldest_key-range (range bs) bs (ranges bs) h in
      rw (has_key-named k bs named inside) (length-delete k bs inside)

pub All-evict_oldest {κ} :
    (P : Bucket → Type κ) (range : List Bucket → List Bucket) (bs : List Bucket)
    → All P bs
    → All P (evict_oldest range bs)
unfolding evict_oldest
All-evict_oldest P range bs h = elim (Bool-cases (is_empty (oldest_key [] 0 (range bs)))) [
  | inl e ↦ rw e h
  | inr e ↦ rw e (All-keep P _ bs h)
]

pub evict_oldest-HasUniqueKeys :
    (range : List Bucket → List Bucket) (bs : List Bucket)
    → HasUniqueKeys bs
    → HasUniqueKeys (evict_oldest range bs)
unfolding evict_oldest
evict_oldest-HasUniqueKeys range bs h = elim (Bool-cases (is_empty (oldest_key [] 0 (range bs)))) [
  | inl e ↦ rw e h
  | inr e ↦ rw e (keep-HasUniqueKeys _ bs h)
]

-- An eviction keeps a bucket as it is or takes it away.
pub lookup-evict_oldest :
    (range : List Bucket → List Bucket) (k : Text) (bs : List Bucket)
    → HasUniqueKeys bs
    → (lookup k (evict_oldest range bs) ≡ lookup k bs) ⊎ (lookup k (evict_oldest range bs) ≡ none)
unfolding evict_oldest
lookup-evict_oldest range k bs h = elim (Bool-cases (is_empty (oldest_key [] 0 (range bs)))) [
  | inl e ↦ rw e (inl refl)
  | inr e ↦
      rw (e, lookup-keep (λ b. not (eq_text b.key (oldest_key [] 0 (range bs)))) k bs h)
        (either (lookup k bs))
]
  where
    either :
        (o : Option Bucket)
        → (kept (λ b. not (eq_text b.key (oldest_key [] 0 (range bs)))) o ≡ o)
          ⊎ (kept (λ b. not (eq_text b.key (oldest_key [] 0 (range bs)))) o ≡ none)
    either none = inl refl
    either (some b) = elim (Bool-cases (eq_text b.key (oldest_key [] 0 (range bs)))) [
      | inl t ↦ rw t (inr refl)
      | inr f ↦ rw f (inl refl)
    ]
