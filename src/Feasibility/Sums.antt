-- ===== src/Feasibility/Sums.antt =====
-- How many students the offerings of a draft hold together.
use miniclass.Base.{
  ℕ, ◌+◌, ◌≤◌, ◌==◌, ◌≡◌, refl, Bool, true, false, List, [], ◌∷◌, any, length, count_if, All, arith,
}
use miniclass.Base.Counting.{distinct}
use miniclass.Store.Rows.{Assignment, Offering}
use miniclass.Assignment.Rules.{placed_in, over_capacity}
use miniclass.Feasibility.{total}

any-count_if : {A : Type 0} (p : A → Bool) (l : List A) → any p l ≡ true → 1 ≤ count_if p l
any-count_if p [] h = absurd (ground arith)
any-count_if p (a ∷ l) h = ground (arith, any-count_if p l)

pub distinct_within : (l : List ℕ) → distinct l ≤ length l
unfolding distinct
distinct_within [] = omega arith
distinct_within (x ∷ l) = ground (arith, distinct_within l)

abbrev holds : List Assignment → Offering → ℕ
holds rows o = placed_in o.id rows

total-holds :
    (r : Assignment) (rows : List Assignment) (offerings : List Offering)
    → total (holds (r ∷ rows)) offerings
      ≡ total (holds rows) offerings + count_if (λ o. r.offering_id == o.id) offerings
total-holds r rows [] = refl
total-holds r rows (o ∷ offerings) = ground (arith, total-holds r rows offerings)

abbrev pub IsOffered : List Offering → Assignment → Type 0
IsOffered offerings r = any (λ o. r.offering_id == o.id) offerings ≡ true

length-total :
    (rows : List Assignment) (offerings : List Offering)
    → All (IsOffered offerings) rows
    → length rows ≤ total (holds rows) offerings
length-total [] offerings h = omega arith
length-total (r ∷ rows) offerings h =
    let rest = length-total rows offerings h.1 in
    let one = any-count_if (λ o. r.offering_id == o.id) offerings h.0 in
    let step = total-holds r rows offerings in omega arith

total-capacity :
    (rows : List Assignment) (offerings : List Offering)
    → All (λ o. over_capacity rows o ≡ false) offerings
    → total (holds rows) offerings ≤ total (λ o. o.capacity) offerings
total-capacity rows [] h = omega arith
total-capacity rows (o ∷ offerings) h =
    let rest = total-capacity rows offerings h.1 in let here = h.0 in ground arith

-- A draft within the capacities has no more rows than there are places.
pub length-capacity :
    (rows : List Assignment) (offerings : List Offering)
    → All (IsOffered offerings) rows
    → All (λ o. over_capacity rows o ≡ false) offerings
    → length rows ≤ total (λ o. o.capacity) offerings
length-capacity rows offerings offered within =
    let a = length-total rows offerings offered in
    let b = total-capacity rows offerings within in omega arith
