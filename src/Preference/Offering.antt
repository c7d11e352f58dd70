-- ===== src/Preference/Offering.antt =====
-- backend/internal/program/offering_preference.go: what a student would realize in an offering.
use miniclass.Base.{
  ℕ, ◌==◌, ltb, Bool, true, false, not, ◌&&◌, ◌||◌, Option, none, some, if◌then◌else◌,
}
use miniclass.Base.Int.{ℤ, pos, eq_ℤ, leb_ℤ, ltb_ℤ}
use miniclass.Store.Rows.{
  Quality, top, high, acceptable, neutral, unwanted, RankedChoiceAnswer, SessionResultAnswer,
}

-- `other_rating` is every text outside the vocabulary.
pub data InterestProfileRating : Type 0 where
  very_interested interested not_interested unrated other_rating : InterestProfileRating

pub data Category : Type 0 where
  rank topic_very_interested ranked_interested topic_interested topic_not_interested : Category
  ranked_not_interested unknown : Category

-- The `iota` of `offeringPreferenceOrderRank` and the others.
unfoldable pub category_order : Category → ℕ
category_order rank = 0
category_order topic_very_interested = 1
category_order ranked_interested = 2
category_order topic_interested = 3
category_order topic_not_interested = 4
category_order ranked_not_interested = 5
category_order unknown = 6

pub record SortKey : Type 0 where
  pub category : ℕ
  pub rank : ℤ

unfoldable pub less : SortKey → SortKey → Bool
less key other =
    if not (key.category == other.category)
    then ltb key.category other.category
    else ltb_ℤ key.rank other.rank

pub record OfferingPreference : Type 0 where
  pub category : Category
  pub potential_quality : Quality
  pub rank : ℤ
  pub sort_key : SortKey
  pub topic_rating_hint : Option InterestProfileRating

unfoldable pub preference_of : Category → Quality → ℤ → OfferingPreference
unfolding category_order
preference_of category quality r = record {
  category = category;
  potential_quality = quality;
  rank = r;
  sort_key = record { category = category_order category; rank = r };
  topic_rating_hint = none;
}

unfoldable pub unknown_offering_preference : OfferingPreference
unfolding preference_of
unknown_offering_preference = preference_of unknown neutral (pos 0)

unfoldable pub is_interest_rating : Option InterestProfileRating → Bool
is_interest_rating (some InterestProfileRating.very_interested) = true
is_interest_rating (some InterestProfileRating.interested) = true
is_interest_rating (some InterestProfileRating.not_interested) = true
is_interest_rating _ = false

unfoldable pub ranked_quality : ℤ → ℤ → Quality
ranked_quality r high_rank_max =
    if eq_ℤ r (pos 1) then top else if leb_ℤ r high_rank_max then high else acceptable

-- The branch of a submitter who left the offering blank.
unfoldable pub blank_preference : Option InterestProfileRating → Bool → OfferingPreference
unfolding unknown_offering_preference is_interest_rating
blank_preference rating has_area =
    if has_area && is_interest_rating rating
    then record unknown_offering_preference { topic_rating_hint = rating }
    else unknown_offering_preference

-- The `switch` on the answer of a submitter.
unfoldable pub answered_preference :
    RankedChoiceAnswer → Option ℤ → Option InterestProfileRating → Bool → ℤ → OfferingPreference
unfolding blank_preference ranked_quality preference_of unknown_offering_preference
answered_preference RankedChoiceAnswer.no_response r rating has_area high_rank_max =
    blank_preference rating has_area
answered_preference RankedChoiceAnswer.ranked none rating has_area high_rank_max =
    unknown_offering_preference
answered_preference RankedChoiceAnswer.ranked (some r) rating has_area high_rank_max =
    if ltb_ℤ r (pos 1)
    then unknown_offering_preference
    else preference_of rank (ranked_quality r high_rank_max) r
answered_preference RankedChoiceAnswer.interested r rating has_area high_rank_max =
    preference_of ranked_interested acceptable (pos 0)
answered_preference RankedChoiceAnswer.not_interested r rating has_area high_rank_max =
    preference_of ranked_not_interested unwanted (pos 0)
answered_preference RankedChoiceAnswer.other_answer r rating has_area high_rank_max =
    unknown_offering_preference

-- The `switch` on the interest rating, for a student without a submission.
unfoldable pub rated_preference : Option InterestProfileRating → OfferingPreference
unfolding preference_of unknown_offering_preference
rated_preference (some InterestProfileRating.very_interested) =
    preference_of topic_very_interested high (pos 0)
rated_preference (some InterestProfileRating.interested) =
    preference_of topic_interested acceptable (pos 0)
rated_preference (some InterestProfileRating.not_interested) =
    preference_of topic_not_interested unwanted (pos 0)
rated_preference _ = unknown_offering_preference

unfoldable pub derive_offering_preference :
    Bool → Option SessionResultAnswer → Option InterestProfileRating → Bool → ℤ → OfferingPreference
unfolding answered_preference rated_preference
derive_offering_preference true none rating has_area high_rank_max =
    blank_preference rating has_area
derive_offering_preference true (some a) rating has_area high_rank_max =
    answered_preference a.answer a.rank rating has_area high_rank_max
derive_offering_preference false answer rating has_area high_rank_max =
    if not has_area || not (is_interest_rating rating)
    then unknown_offering_preference
    else rated_preference rating
