-- ===== src/Preference/Complete.antt =====
-- A submission that is accepted answers the whole catalog.
use miniclass.Base.{
  ℕ, ◌≡◌, refl, sym, ◌∙◌, true, false, List, [], ◌∷◌, Option, none, some, contains, map, length,
  if◌then◌else◌, Xid, All, arith, ==_refl,
}
use miniclass.Base.Int.{ℤ, pos, ltb_ℤ, ◌≤ℤ◌}
use miniclass.Base.Counting.{
  no_duplicates, distinct, times, times-one, distinct-no_duplicates, length-map,
}
use miniclass.Store.Rows.{Offering, RankedChoiceAnswer}
use miniclass.Preference.Responses.{
  RankedChoiceResponseInput, offering_ids, max_rank, next_ranks, valid_responses,
  validate_ranked_choice_response_set_with_depth,
}

abbrev pub answered : RankedChoiceResponseInput → Xid
answered r = r.offering_id

valid-step :
    (bound : ℤ) (known seen : List Xid) (ranks : List ℤ) (r : RankedChoiceResponseInput)
    (l : List RankedChoiceResponseInput)
    → valid_responses bound known seen ranks (r ∷ l) ≡ true
    → (next : List ℤ) × (next_ranks bound r.answer r.rank ranks ≡ some next)
      × (contains r.offering_id known ≡ true)
      × (contains r.offering_id seen ≡ false)
      × (valid_responses bound known (r.offering_id ∷ seen) next l ≡ true)
unfolding valid_responses
valid-step bound known seen ranks r l h = go (next_ranks bound r.answer r.rank ranks) refl
  where
    go :
        (o : Option (List ℤ))
        → next_ranks bound r.answer r.rank ranks ≡ o
        → (next : List ℤ) × (next_ranks bound r.answer r.rank ranks ≡ some next)
          × (contains r.offering_id known ≡ true)
          × (contains r.offering_id seen ≡ false)
          × (valid_responses bound known (r.offering_id ∷ seen) next l ≡ true)
    go none f = absurd (ground arith)
    go (some next) f = (next, f, ground arith, ground arith, ground arith)

valid_responses-unseen :
    (bound : ℤ) (known seen : List Xid) (ranks : List ℤ) (l : List RankedChoiceResponseInput)
    (id : Xid)
    → valid_responses bound known seen ranks l ≡ true
    → contains id seen ≡ true
    → contains id (map answered l) ≡ false
valid_responses-unseen bound known seen ranks [] id h e = refl
valid_responses-unseen bound known seen ranks (r ∷ l) id h e =
    let (next, _, _, fresh, rest) = valid-step bound known seen ranks r l h in
    let tail = valid_responses-unseen bound known (r.offering_id ∷ seen) next l id rest in
    ground (arith, fresh, tail)

valid_responses-no_duplicates :
    (bound : ℤ) (known seen : List Xid) (ranks : List ℤ) (l : List RankedChoiceResponseInput)
    → valid_responses bound known seen ranks l ≡ true
    → no_duplicates (map answered l) ≡ true
valid_responses-no_duplicates bound known seen ranks [] h = refl
valid_responses-no_duplicates bound known seen ranks (r ∷ l) h =
    let (next, _, _, fresh, rest) = valid-step bound known seen ranks r l h in
    let tail = valid_responses-no_duplicates bound known (r.offering_id ∷ seen) next l rest in
    let unseen =
      valid_responses-unseen bound known (r.offering_id ∷ seen) next l r.offering_id rest
        (ground (arith, ==_refl r.offering_id)) in
    ground (arith, tail, unseen)

valid_responses-known :
    (bound : ℤ) (known seen : List Xid) (ranks : List ℤ) (l : List RankedChoiceResponseInput)
    (id : Xid)
    → valid_responses bound known seen ranks l ≡ true
    → contains id (map answered l) ≡ true
    → contains id known ≡ true
valid_responses-known bound known seen ranks [] id h e = absurd (ground arith)
valid_responses-known bound known seen ranks (r ∷ l) id h e =
    let (next, _, there, _, rest) = valid-step bound known seen ranks r l h in
    let tail = valid_responses-known bound known (r.offering_id ∷ seen) next l id rest in
    ground (arith, there, tail)

-- A submission that passes the checks answers every offering of the session exactly once, and
-- nothing else, whatever its order and its depth.
pub validate_complete :
    (responses : List RankedChoiceResponseInput) (offerings : List Offering) (depth : ℤ)
    → validate_ranked_choice_response_set_with_depth responses offerings depth ≡ none
    → (id : Xid)
    → times answered id responses ≡ (if contains id (offering_ids offerings) then 1 else 0)
unfolding validate_ranked_choice_response_set_with_depth
validate_complete responses offerings depth h =
    let known = offering_ids offerings in
    let bound = max_rank depth (length offerings) in
    let valid : valid_responses bound known [] [] responses ≡ true = ground arith in
    let total : distinct (map answered responses) ≡ distinct known = ground arith in
    let unique = valid_responses-no_duplicates bound known [] [] responses valid in
    times-one answered responses known unique
      (λ x. valid_responses-known bound known [] [] responses x valid)
      (sym (length-map answered responses)
        ∙ (sym (distinct-no_duplicates (map answered responses) unique) ∙ total))

-- The rank of an accepted response.
abbrev IsRankedWithin : ℤ → RankedChoiceResponseInput → Type 0
IsRankedWithin bound r =
    r.answer ≡ RankedChoiceAnswer.ranked
    → (k : ℤ) × (r.rank ≡ some k) × (ltb_ℤ k (pos 1) ≡ false) × (ltb_ℤ bound k ≡ false)

next_ranks-within :
    (bound : ℤ) (r : RankedChoiceResponseInput) (ranks next : List ℤ)
    → next_ranks bound r.answer r.rank ranks ≡ some next
    → IsRankedWithin bound r
unfolding next_ranks
next_ranks-within bound r ranks next h e = go r.rank refl
  where
    go :
        (o : Option ℤ)
        → r.rank ≡ o
        → (k : ℤ) × (r.rank ≡ some k) × (ltb_ℤ k (pos 1) ≡ false) × (ltb_ℤ bound k ≡ false)
    go none f = absurd (ground arith)
    go (some k) f = (k, f, ground arith, ground arith)

valid_responses-within :
    (bound : ℤ) (known seen : List Xid) (ranks : List ℤ) (l : List RankedChoiceResponseInput)
    → valid_responses bound known seen ranks l ≡ true
    → All (IsRankedWithin bound) l
valid_responses-within bound known seen ranks [] h = tt
valid_responses-within bound known seen ranks (r ∷ l) h =
    let (next, at, _, _, rest) = valid-step bound known seen ranks r l h in
    (
      next_ranks-within bound r ranks next at,
      valid_responses-within bound known (r.offering_id ∷ seen) next l rest,
    )

-- The rank of an accepted response against the depth and the catalog.
abbrev pub IsRanked : ℤ → ℕ → RankedChoiceResponseInput → Type 0
IsRanked depth offerings r =
    r.answer ≡ RankedChoiceAnswer.ranked
    → (k : ℤ) × (r.rank ≡ some k) × (pos 1 ≤ℤ k) × (k ≤ℤ depth) × (k ≤ℤ pos offerings)

IsRankedWithin-IsRanked :
    (depth : ℤ) (offerings : ℕ) (l : List RankedChoiceResponseInput)
    → All (IsRankedWithin (max_rank depth offerings)) l
    → All (IsRanked depth offerings) l
IsRankedWithin-IsRanked depth offerings [] h = tt
IsRankedWithin-IsRanked depth offerings (r ∷ l) h = (
  λ e. (let (k, at, low, high) = h.0 e in (k, at, ground arith, ground arith, ground arith)),
  IsRankedWithin-IsRanked depth offerings l h.1,
)

-- Every ranked answer of a submission that passes the checks has a rank from 1 to the configured
-- depth, and to no more than the number of offerings.
pub validate_within :
    (responses : List RankedChoiceResponseInput) (offerings : List Offering) (depth : ℤ)
    → validate_ranked_choice_response_set_with_depth responses offerings depth ≡ none
    → All (IsRanked depth (length offerings)) responses
unfolding validate_ranked_choice_response_set_with_depth
validate_within responses offerings depth h =
    IsRankedWithin-IsRanked depth (length offerings) responses (
      valid_responses-within (max_rank depth (length offerings)) (offering_ids offerings) [] []
        responses (ground arith))
