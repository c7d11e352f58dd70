-- ===== src/Base/Keyed/Ext.antt =====
-- Two maps with the same lookups are the same list.
use miniclass.Base.{
  ℕ, ◌<◌, ◌==◌, ◌≡◌, refl, sym, ap, ◌∙◌, subst, List, [], ◌∷◌, none, some, arith, All, ==_refl,
  eq_of_==, Bool-cases, ltb, inl, inr,
}
use miniclass.Base.Keyed.{get, IsSorted}

module _ {A : Type 0} (key : A → ℕ) where
  get-hit : (x : A) (l : List A) → get key (key x) (x ∷ l) ≡ some x
  get-hit x l = rw (==_refl (key x))

  pub get-below : (k : ℕ) (l : List A) → All (λ y. k < key y) l → get key k l ≡ none
  get-below k [] h = refl
  get-below k (x ∷ l) h = ground (arith, get-below k l)

  All-below : (m n : ℕ) (l : List A) → m < n → All (λ y. n < key y) l → All (λ y. m < key y) l
  All-below m n [] h hs = tt
  All-below m n (x ∷ l) h hs = (omega arith, All-below m n l h hs.1)

  some-none : {x : A} → some x ≡ none → ⊥
  some-none h = cc

  -- The same first row, or a lookup that tells the lists apart.
  heads :
      (x y : A) (l m : List A)
      → IsSorted key (x ∷ l)
      → IsSorted key (y ∷ m)
      → ((k : ℕ) → get key k (x ∷ l) ≡ get key k (y ∷ m))
      → x ≡ y
  heads x y l m hl hm h = elim (Bool-cases (ltb (key x) (key y))) [
    | inl lt ↦
        let below : key x < key y = ground arith in
        absurd (
          some-none (
            sym (get-hit x l)
            ∙ (h (key x)
                ∙ get-below (key x) (y ∷ m) (below, All-below (key x) (key y) m below hm.0))))
    | inr ge ↦ elim (Bool-cases (ltb (key y) (key x))) [
      | inl lt ↦
          let below : key y < key x = ground arith in
          absurd (
            some-none (
              sym (get-hit y m)
              ∙ (sym (h (key y))
                  ∙ get-below (key y) (x ∷ l) (below, All-below (key y) (key x) l below hl.0))))
      | inr eq ↦
          let same : key x ≡ key y = ground arith in
          some-inj (sym (get-hit x l) ∙ (h (key x) ∙ rw (same, ==_refl (key y))))
    ]
  ]
    where
      some-inj : {a b : A} → some a ≡ some b → a ≡ b
      some-inj e = cc

  tails :
      (x : A) (l m : List A)
      → IsSorted key (x ∷ l)
      → IsSorted key (x ∷ m)
      → ((k : ℕ) → get key k (x ∷ l) ≡ get key k (x ∷ m))
      → (k : ℕ) → get key k l ≡ get key k m
  tails x l m hl hm h k = elim (Bool-cases (key x == k)) [
    | inl e ↦
        let same = eq_of_== (key x) k e in
        rw (← same) (get-below (key x) l hl.0 ∙ sym (get-below (key x) m hm.0))
    | inr e ↦ ground (arith, h k)
  ]

  pub get_ext :
      (l m : List A)
      → IsSorted key l
      → IsSorted key m
      → ((k : ℕ) → get key k l ≡ get key k m)
      → l ≡ m
  get_ext [] [] hl hm h = refl
  get_ext [] (y ∷ m) hl hm h = absurd (some-none (sym (get-hit y m) ∙ sym (h (key y))))
  get_ext (x ∷ l) [] hl hm h = absurd (some-none (sym (get-hit x l) ∙ h (key x)))
  get_ext (x ∷ l) (y ∷ m) hl hm h =
      let same = heads x y l m hl hm h in
      let h' : (k : ℕ) → get key k (x ∷ l) ≡ get key k (x ∷ m) =
        λ k. h k ∙ ap (λ z. get key k (z ∷ m)) (sym same) in
      let hm' : IsSorted key (x ∷ m) = subst (λ z. IsSorted key (z ∷ m)) (sym same) hm in
      rw same (ap (λ r. y ∷ r) (get_ext l m hl.1 hm.1 (tails x l m hl hm' h')))
