-- ===== src/Base/Counting.antt =====
-- Lists of keys as sets: how many keys differ, and how often one occurs.
use miniclass.Base.{
  ℕ, suc, ◌≤◌, ◌==◌, ◌≡◌, refl, sym, ap, ◌∙◌, ltb, Bool, true, false, not, ◌&&◌, List, [], ◌∷◌,
  contains, map, length, if◌then◌else◌, keep, count_if, arith, Bool-cases, inl, inr, eq_of_==,
  ==_refl,
}
use miniclass.Base.Sort.{insert_sorted, sort_slice}

-- The number of keys of a map that is filled from a list: equal keys count once.
unfoldable pub distinct : List ℕ → ℕ
distinct [] = 0
distinct (x ∷ xs) = let rest = distinct xs in if contains x xs then rest else suc rest

abbrev pub no_duplicates : List ℕ → Bool
no_duplicates [] = true
no_duplicates (x ∷ xs) = not (contains x xs) && no_duplicates xs

abbrev other : ℕ → ℕ → Bool
other x y = not (y == x)

contains-keep-other :
    (x y : ℕ) (ys : List ℕ) → (x == y) ≡ false → contains y (keep (other x) ys) ≡ contains y ys
contains-keep-other x y [] h = refl
contains-keep-other x y (z ∷ ys) h = ground (arith, contains-keep-other x y ys)

keep-absent : (x : ℕ) (ys : List ℕ) → contains x ys ≡ false → keep (other x) ys ≡ ys
keep-absent x [] h = refl
keep-absent x (y ∷ ys) h = ground (arith, keep-absent x ys)

distinct-keep :
    (x : ℕ) (ys : List ℕ) → contains x ys ≡ true → distinct ys ≡ suc (distinct (keep (other x) ys))
unfolding distinct
distinct-keep x [] h = absurd (ground arith)
distinct-keep x (y ∷ ys) h = elim (Bool-cases (y == x)) [
  | inl e ↦
      let same = eq_of_== y x e in
      elim (Bool-cases (contains x ys)) [
        | inl later ↦ rw (e, same, later) (distinct-keep x ys later)
        | inr last ↦ rw (e, same, last) (ap (λ l. suc (distinct l)) (sym (keep-absent x ys last)))
      ]
  | inr e ↦ ground (arith, distinct-keep x ys, contains-keep-other x y ys)
]

-- A list without duplicates is no longer than the set that holds it.
pub length-distinct :
    (xs ys : List ℕ)
    → no_duplicates xs ≡ true
    → ((x : ℕ) → contains x xs ≡ true → contains x ys ≡ true)
    → length xs ≤ distinct ys
length-distinct [] ys h sub = omega arith
length-distinct (x ∷ xs) ys h sub =
    let inside = sub x (ground (arith, ==_refl x)) in
    let rest : length xs ≤ distinct (keep (other x) ys) =
      length-distinct xs (keep (other x) ys) (ground arith)
        (λ y e. ground (arith, contains-keep-other x y ys, sub y)) in
    ground (arith, distinct-keep x ys)

pub distinct-no_duplicates : (xs : List ℕ) → no_duplicates xs ≡ true → distinct xs ≡ length xs
unfolding distinct
distinct-no_duplicates [] h = refl
distinct-no_duplicates (x ∷ xs) h = ground (arith, distinct-no_duplicates xs)

-- How often the elements of a list have a key.
module _ {A : Type 0} (f : A → ℕ) where
  abbrev pub times : ℕ → List A → ℕ
  times id l = count_if (λ a. f a == id) l

  contains-times : (id : ℕ) (l : List A) → contains id (map f l) ≡ ltb 0 (times id l)
  contains-times id [] = ground arith
  contains-times id (a ∷ l) = ground (arith, contains-times id l)

  pub length-map : (l : List A) → length (map f l) ≡ length l
  length-map [] = refl
  length-map (a ∷ l) = ap suc (length-map l)

  times-no_duplicates : (id : ℕ) (l : List A) → no_duplicates (map f l) ≡ true → times id l ≤ 1
  times-no_duplicates id [] h = omega arith
  times-no_duplicates id (a ∷ l) h = ground (arith, times-no_duplicates id l, contains-times id l)

  -- As many elements as there are keys, with distinct keys among them: every key occurs once.
  pub times-one :
      (l : List A) (keys : List ℕ)
      → no_duplicates (map f l) ≡ true
      → ((x : ℕ) → contains x (map f l) ≡ true → contains x keys ≡ true)
      → length l ≡ distinct keys
      → (id : ℕ) → times id l ≡ (if contains id keys then 1 else 0)
  times-one l keys unique sub total id =
      let once = times-no_duplicates id l unique in
      elim (Bool-cases (contains id keys)) [
        | inl inside ↦ elim (Bool-cases (contains id (map f l))) [
          | inl there ↦ ground (arith, contains-times id l)
          | inr absent ↦
              let more =
                length-distinct (id ∷ map f l) keys (ground arith) (λ x e. ground (arith, sub x)) in
              absurd (ground (arith, length-map l))
        ]
        | inr outside ↦ ground (arith, contains-times id l, sub id)
      ]

  pub times-contains :
      (l m : List A) (id : ℕ)
      → times id l ≡ times id m
      → contains id (map f l) ≡ contains id (map f m)
  times-contains l m id e = contains-times id l ∙ (ap (ltb 0) e ∙ sym (contains-times id m))

-- Sorting counts the same.
module _ {A : Type 0} (less : A → A → Bool) (p : A → Bool) where
  count_if-insert : (x : A) (l : List A) → count_if p (insert_sorted less x l) ≡ count_if p (x ∷ l)
  unfolding insert_sorted
  count_if-insert x [] = refl
  count_if-insert x (y ∷ l) = ground (arith, count_if-insert x l)

  pub count_if-sort : (l : List A) → count_if p (sort_slice less l) ≡ count_if p l
  unfolding sort_slice
  count_if-sort [] = refl
  count_if-sort (x ∷ l) = count_if-insert x (sort_slice less l) ∙ ground (arith, count_if-sort l)

module _ {A : Type 0} (less : A → A → Bool) where
  length-insert : (x : A) (l : List A) → length (insert_sorted less x l) ≡ suc (length l)
  unfolding insert_sorted
  length-insert x [] = refl
  length-insert x (y ∷ l) = ground (arith, length-insert x l)

  pub length-sort : (l : List A) → length (sort_slice less l) ≡ length l
  unfolding sort_slice
  length-sort [] = refl
  length-sort (x ∷ l) = length-insert x (sort_slice less l) ∙ ap suc (length-sort l)
