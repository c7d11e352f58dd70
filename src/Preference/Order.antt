-- ===== src/Preference/Order.antt =====
-- What the order of preferences means: backend/internal/program/offering_preference.go.
use miniclass.Base.{ℕ, ◌≤◌, ◌≡◌, true, false, none, some, arith}
use miniclass.Base.Int.{ℤ, pos, ltb_ℤ}
use miniclass.Store.Rows.{
  Quality, unset, top, high, acceptable, neutral, unwanted, RankedChoiceAnswer, SessionResultAnswer,
}
use miniclass.Preference.Offering.{
  SortKey, less, derive_offering_preference, answered_preference, ranked_quality, preference_of,
  unknown_offering_preference,
}

-- `less` is a strict order: it is transitive, and never holds both ways.
pub less-strict :
    (a b c : SortKey)
    → less a b ≡ true
    → less b c ≡ true
    → (less a c ≡ true) × (less b a ≡ false) × (less c b ≡ false) × (less a a ≡ false)
unfolding less
less-strict a b c e f = (ground arith, ground arith, ground arith, ground arith)

-- The qualities from the best on.
abbrev pub quality_order : Quality → ℕ
quality_order top = 0
quality_order high = 1
quality_order acceptable = 2
quality_order neutral = 3
quality_order unwanted = 4
quality_order unset = 5

abbrev pub ranked_at : SessionResultAnswer → ℤ → SessionResultAnswer
ranked_at a r = record a { answer = RankedChoiceAnswer.ranked; rank = some r }

-- Of two ranked offerings the one ranked first sorts first, and is never of lesser quality.
pub derive_offering_preference-ranked :
    (a b : SessionResultAnswer) (r q bound : ℤ)
    → ltb_ℤ r (pos 1) ≡ false
    → ltb_ℤ r q ≡ true
    → let first = derive_offering_preference true (some (ranked_at a r)) none false bound in
      let second = derive_offering_preference true (some (ranked_at b q)) none false bound in
      (less first.sort_key second.sort_key ≡ true)
      × (quality_order first.potential_quality ≤ quality_order second.potential_quality)
unfolding derive_offering_preference answered_preference unknown_offering_preference preference_of
    ranked_quality less
derive_offering_preference-ranked a b r q bound h e = (ground arith, ground arith)
