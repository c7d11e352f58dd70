-- ===== src/Preference/Tests.antt =====
-- A submission for the two offerings of the sample session.
use miniclass.Base.{
  ℕ, ◌+◌, ◌≤◌, ◌≡◌, refl, true, false, not, ◌&&◌, List, [], ◌∷◌, none, some, contains, keep, map,
  length, if◌then◌else◌, All,
}
use miniclass.Base.Int.{pos}
use miniclass.Base.Counting.{distinct, times}
use miniclass.Session.{SessionState}
use miniclass.Store.Rows.{Offering, RankedChoiceAnswer, SessionResultAnswer, Db}
use miniclass.Preference.Offering.{SortKey, less, derive_offering_preference}
use miniclass.Preference.Order.{quality_order, ranked_at, derive_offering_preference-ranked}
use miniclass.Preference.Responses.{
  RankedChoiceResponseInput, offering_ids, grade_eligible_offerings,
  complete_hidden_ranked_choice_responses, validate_ranked_choice_response_set_with_depth,
}
use miniclass.Preference.Complete.{answered, IsRanked, validate_complete, validate_within}
use miniclass.Preference.Eligibility.{
  complete_hidden-times, grade_eligible_offerings-inside, grade_eligible_offerings-window,
}
use miniclass.Assignment.Rules.{outside_window}
use miniclass.Samples.{db_in, offering}

abbrev catalog : List Offering
catalog = offering 21 1 31 32 ∷ offering 22 2 31 31 ∷ []

abbrev submission : List RankedChoiceResponseInput
submission =
    record { offering_id = 22; answer = RankedChoiceAnswer.ranked; rank = some (pos 1) }
    ∷ record { offering_id = 21; answer = RankedChoiceAnswer.no_response; rank = none }
    ∷ []

valid : validate_ranked_choice_response_set_with_depth submission catalog (pos 3) ≡ none
unfolding validate_ranked_choice_response_set_with_depth distinct
valid = refl

validate_complete_example :
    times answered 21 submission ≡ (if contains 21 (offering_ids catalog) then 1 else 0)
validate_complete_example = validate_complete submission catalog (pos 3) valid 21

validate_within_example : All (IsRanked (pos 3) (length catalog)) submission
validate_within_example = validate_within submission catalog (pos 3) valid

abbrev eligible : List Offering
eligible = offering 21 1 31 32 ∷ []

abbrev partial : List RankedChoiceResponseInput
partial = record { offering_id = 21; answer = RankedChoiceAnswer.interested; rank = none } ∷ []

complete_hidden-times_example :
    times answered 22 (complete_hidden_ranked_choice_responses partial catalog eligible)
    ≡ times answered 22 partial
      + (if contains 22 (offering_ids catalog)
            && (not (contains 22 (offering_ids eligible))
                && not (contains 22 (map answered partial)))
          then 1
          else 0)
complete_hidden-times_example = complete_hidden-times partial catalog eligible refl 22

abbrev db : Db
db = db_in SessionState.voting_open

grade_eligible_offerings-inside_example :
    All
      (λ o. outside_window db (record { student_id = 13; grade_level_id = some 32 }) o ≡ false)
      (grade_eligible_offerings (some 32) db.grade_levels catalog)
grade_eligible_offerings-inside_example =
    grade_eligible_offerings-inside db (record { student_id = 13; grade_level_id = some 32 })
      catalog

grade_eligible_offerings-window_example :
    grade_eligible_offerings (some 32) db.grade_levels catalog
    ≡ keep
        (λ o. not (outside_window db (record { student_id = 13; grade_level_id = some 32 }) o))
        catalog
grade_eligible_offerings-window_example =
    grade_eligible_offerings-window db (record { student_id = 13; grade_level_id = some 32 }) 32
      catalog refl refl ((refl, refl), ((refl, refl), tt))

abbrev key : ℕ → ℕ → SortKey
key category rank = record { category = category; rank = pos rank }

abbrev answer : SessionResultAnswer
answer = record {
  student_id = 11;
  offering_id = 22;
  answer = RankedChoiceAnswer.ranked;
  rank = some (pos 1);
}

derive_offering_preference-ranked_example :
    let first =
      derive_offering_preference true (some (ranked_at answer (pos 1))) none false (pos 3) in
    let second =
      derive_offering_preference true (some (ranked_at answer (pos 4))) none false (pos 3) in
    (less first.sort_key second.sort_key ≡ true)
    × (quality_order first.potential_quality ≤ quality_order second.potential_quality)
derive_offering_preference-ranked_example =
    derive_offering_preference-ranked answer answer (pos 1) (pos 4) (pos 3) refl refl
