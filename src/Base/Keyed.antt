-- ===== src/Base/Keyed.antt =====
-- Maps from identifiers to rows that hold their key, as lists in the order of the keys. The order is
-- the one in which the queries return rows, and in which the services sort the keys of a Go map.
pub mod Ext
use mathlib.Core.Option
use Prim.Native.Nat.{ℕ, ◌<◌}
use mathlib.Core.Path.{◌≡◌, refl, subst}
use mathlib.Core.Logic.{inl, inr}
use mathlib.Core.Bool.{Bool, true, false, not}
use mathlib.Core.Option.{Option, none, some}
use mathlib.Core.List.{List, [], ◌∷◌, map}
use native.Mathlib.Omega.{arith}
use miniclass.Base.Tests.{◌==◌, ltb, if◌then◌else◌, eq_of_==, Bool-cases}
use miniclass.Base.Lists.{keep, contains, All}

module _ {A : Type 0} (key : A → ℕ) where
  abbrev pub get : ℕ → List A → Option A
  get k [] = none
  get k (x ∷ xs) = let rest = get k xs in if key x == k then some x else rest

  -- Replaces the row with the key, or inserts one in its place.
  unfoldable pub put : A → List A → List A
  put a [] = a ∷ []
  put a (x ∷ xs) =
      let rest = x ∷ put a xs in
      if key x == key a then a ∷ xs else if ltb (key a) (key x) then a ∷ x ∷ xs else rest

  pub get-put :
      (k : ℕ) (a : A) (l : List A) → get k (put a l) ≡ (if key a == k then some a else get k l)
  unfolding put
  get-put k a [] = refl
  get-put k a (x ∷ xs) = ground (arith, get-put k a xs)

  -- Rows with other keys do not matter to a lookup.
  pub get-keep_other :
      (k : ℕ) (p : A → Bool) (l : List A)
      → ((x : A) → key x ≡ k → p x ≡ true)
      → get k (keep p l) ≡ get k l
  get-keep_other k p [] h = refl
  get-keep_other k p (x ∷ xs) h = elim (Bool-cases (key x == k)) [
    | inl e ↦ rw (h x (eq_of_== (key x) k e), e)
    | inr e ↦ elim (Bool-cases (p x)) [
      | inl kept ↦ rw (kept, e) (get-keep_other k p xs h)
      | inr dropped ↦ rw (dropped, e) (get-keep_other k p xs h)
    ]
  ]

  pub get-keep_hit :
      (k : ℕ) (p : A → Bool) (l : List A) (a : A)
      → get k l ≡ some a
      → p a ≡ true
      → get k (keep p l) ≡ some a
  get-keep_hit k p [] a e h = cc
  get-keep_hit k p (x ∷ xs) a e h = ground (arith, get-keep_hit k p xs a)

  -- A deletion by a test on the key.
  pub get-keep-key :
      (k : ℕ) (q : ℕ → Bool) (l : List A)
      → get k (keep (λ x. q (key x)) l) ≡ (if q k then get k l else none)
  get-keep-key k q [] = ground arith
  get-keep-key k q (x ∷ xs) = ground (arith, get-keep-key k q xs)

  -- The keys increase strictly, so that no two rows share one.
  abbrev pub IsSorted : List A → Type 0
  IsSorted [] = Unit
  IsSorted (x ∷ xs) = All (λ y. key x < key y) xs × IsSorted xs

  put-above :
      (n : ℕ) (a : A) (l : List A)
      → n < key a
      → All (λ y. n < key y) l
      → All (λ y. n < key y) (put a l)
  unfolding put
  put-above n a [] h hs = (h, tt)
  put-above n a (x ∷ xs) h hs = ground (arith, put-above n a xs)

  All-below : (m n : ℕ) (l : List A) → m < n → All (λ y. n < key y) l → All (λ y. m < key y) l
  All-below m n [] h hs = tt
  All-below m n (x ∷ xs) h hs = (omega arith, All-below m n xs h hs.1)

  pub put-IsSorted : (a : A) (l : List A) → IsSorted l → IsSorted (put a l)
  unfolding put
  put-IsSorted a [] h = (tt, tt)
  put-IsSorted a (x ∷ xs) h = elim (Bool-cases (key x == key a)) [
    | inl e ↦ rw e (subst (λ n. All (λ y. n < key y) xs) (eq_of_== (key x) (key a) e) h.0, h.1)
    | inr ne ↦ elim (Bool-cases (ltb (key a) (key x))) [
      | inl lt ↦
          let below : key a < key x = ground arith in
          rw (ne, lt) ((below, All-below (key a) (key x) xs below h.0), h)
      | inr ge ↦
          let above : key x < key a = ground arith in
          rw (ne, ge) (put-above (key x) a xs above h.0, put-IsSorted a xs h.1)
    ]
  ]

  keep-above :
      (n : ℕ) (p : A → Bool) (l : List A) → All (λ y. n < key y) l → All (λ y. n < key y) (keep p l)
  keep-above n p [] h = tt
  keep-above n p (x ∷ xs) h = ground (arith, keep-above n p xs)

  pub keep-IsSorted : (p : A → Bool) (l : List A) → IsSorted l → IsSorted (keep p l)
  keep-IsSorted p [] h = tt
  keep-IsSorted p (x ∷ xs) h = ground (arith, keep-IsSorted p xs, keep-above (key x) p xs)

-- A map over the rows that keeps their keys.
module _ {A B : Type 0} (key : B → ℕ) (f : A → B) where
  pub get-map : (k : ℕ) (l : List A) → get key k (map f l) ≡ Option.map f (get (λ x. key (f x)) k l)
  get-map k [] = refl
  get-map k (x ∷ xs) = ground (arith, get-map k xs)

  All-map : (n : ℕ) (l : List A) → All (λ y. n < key y) (map f l) ≡ All (λ x. n < key (f x)) l
  All-map n [] = refl
  All-map n (x ∷ xs) = rw (All-map n xs)

  pub IsSorted-map : (l : List A) → IsSorted key (map f l) ≡ IsSorted (λ x. key (f x)) l
  IsSorted-map [] = refl
  IsSorted-map (x ∷ xs) = rw (All-map (key (f x)) xs, IsSorted-map xs)
