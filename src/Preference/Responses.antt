-- ===== src/Preference/Responses.antt =====
-- The checks on a ranked-choice submission: `ValidateRankedChoiceResponseSetWithDepth` of
-- backend/internal/preference/service.go and backend/internal/preference/grade_eligibility.go.
use miniclass.Base.{
  ℕ, ◌==◌, leb, Bool, true, false, not, ◌&&◌, ◌||◌, List, [], ◌∷◌, ◌++◌, Option, none, some,
  contains, map, length, keep, is_some, if◌then◌else◌, Xid,
}
use miniclass.Base.Int.{ℤ, pos, ltb_ℤ, eq_ℤ}
use miniclass.Base.Counting.{distinct}
use miniclass.Store.Rows.{Offering, GradeLevel, RankedChoiceAnswer}

pub record RankedChoiceResponseInput : Type 0 where
  pub offering_id : Xid
  pub answer : RankedChoiceAnswer
  pub rank : Option ℤ

-- The two errors that the refusals wrap.
pub data ResponseError : Type 0 where
  ranked_choice_not_complete ranked_choice_invalid : ResponseError

abbrev pub offering_ids : List Offering → List Xid
offering_ids offerings = map (λ (o : Offering). o.id) offerings

-- `maxRank`: the configured depth, or the number of offerings if that is less.
abbrev pub max_rank : ℤ → ℕ → ℤ
max_rank depth offerings = if ltb_ℤ (pos offerings) depth then pos offerings else depth

abbrev pub contains_rank : ℤ → List ℤ → Bool
contains_rank r [] = false
contains_rank r (x ∷ xs) = eq_ℤ r x || contains_rank r xs

-- The ranks seen after a response, or nothing if it is refused.
unfoldable pub next_ranks : ℤ → RankedChoiceAnswer → Option ℤ → List ℤ → Option (List ℤ)
next_ranks bound RankedChoiceAnswer.ranked none ranks = none
next_ranks bound RankedChoiceAnswer.ranked (some r) ranks =
    if ltb_ℤ r (pos 1)
    then none
    else if ltb_ℤ bound r
    then none
    else if contains_rank r ranks
    then none
    else some (r ∷ ranks)
next_ranks bound RankedChoiceAnswer.interested rank ranks =
    if is_some rank then none else some ranks
next_ranks bound RankedChoiceAnswer.not_interested rank ranks =
    if is_some rank then none else some ranks
next_ranks bound RankedChoiceAnswer.no_response rank ranks =
    if is_some rank then none else some ranks
next_ranks bound RankedChoiceAnswer.other_answer rank ranks = none

-- The loop over the responses, with `known`, `seen` and `seenRanks`.
unfoldable pub valid_responses :
    ℤ → List Xid → List Xid → List ℤ → List RankedChoiceResponseInput → Bool
unfolding next_ranks
valid_responses bound known seen ranks [] = true
valid_responses bound known seen ranks (r ∷ rs) =
    contains r.offering_id known
    && (not (contains r.offering_id seen) && elim (next_ranks bound r.answer r.rank ranks) [
      | none ↦ false
      | some ranks' ↦ valid_responses bound known (r.offering_id ∷ seen) ranks' rs
    ])

abbrev is_nil : List Offering → Bool
is_nil [] = true
is_nil (_ ∷ _) = false

unfoldable pub validate_ranked_choice_response_set_with_depth :
    List RankedChoiceResponseInput → List Offering → ℤ → Option ResponseError
unfolding valid_responses
validate_ranked_choice_response_set_with_depth responses offerings rank_depth =
    if is_nil offerings
    then some ranked_choice_not_complete
    else if not (length responses == length offerings)
    then some ranked_choice_not_complete
    else if ltb_ℤ rank_depth (pos 1)
    then some ranked_choice_invalid
    else if not (
        valid_responses (max_rank rank_depth (length offerings)) (offering_ids offerings) [] []
          responses)
    then some ranked_choice_invalid
    else if not (
        distinct (map (λ (r : RankedChoiceResponseInput). r.offering_id) responses)
        == distinct (offering_ids offerings))
    then some ranked_choice_not_complete
    else none

unfoldable pub validate_ranked_choice_response_set :
    List RankedChoiceResponseInput → List Offering → Option ResponseError
unfolding validate_ranked_choice_response_set_with_depth
validate_ranked_choice_response_set responses offerings =
    validate_ranked_choice_response_set_with_depth responses offerings (pos (length offerings))

-- `ordinals[id]`: the last level with the identifier.
unfoldable pub ordinal_from : Option ℕ → Xid → List GradeLevel → Option ℕ
ordinal_from found id [] = found
ordinal_from found id (g ∷ grades) =
    ordinal_from (if g.id == id then some g.ordinal else found) id grades

abbrev pub in_window : ℕ → Option ℕ → Option ℕ → Bool
in_window student (some min) (some max) = leb min student && leb student max
in_window student none _ = false
in_window student (some min) none = false

unfoldable pub is_eligible : Option Xid → List GradeLevel → Offering → Bool
unfolding ordinal_from
is_eligible none grades o = false
is_eligible (some grade) grades o = elim (ordinal_from none grade grades) [
  | none ↦ false
  | some student ↦
      in_window student (ordinal_from none o.min_grade_level_id grades)
        (ordinal_from none o.max_grade_level_id grades)
]

unfoldable pub grade_eligible_offerings :
    Option Xid → List GradeLevel → List Offering → List Offering
unfolding is_eligible
grade_eligible_offerings student grades offerings = keep (is_eligible student grades) offerings

abbrev pub no_response_to : Offering → RankedChoiceResponseInput
no_response_to o = record {
  offering_id = o.id;
  answer = RankedChoiceAnswer.no_response;
  rank = none;
}

abbrev pub is_hidden : List Xid → List Xid → Offering → Bool
is_hidden visible answered o = not (contains o.id visible) && not (contains o.id answered)

unfoldable pub complete_hidden_ranked_choice_responses :
    List RankedChoiceResponseInput → List Offering → List Offering → List RankedChoiceResponseInput
complete_hidden_ranked_choice_responses responses offerings eligible =
    responses
    ++ map no_response_to (
        keep
          (is_hidden (offering_ids eligible)
            (map (λ (r : RankedChoiceResponseInput). r.offering_id) responses))
          offerings)
