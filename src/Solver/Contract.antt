-- ===== src/Solver/Contract.antt =====
-- The request of backend/internal/solvercontract/contract.go and its `Canonicalize`. All its refusals
-- are one error here. `sort.Slice` is an insertion sort; the keys that it sorts by are unique, or
-- equal only on equal elements.
use miniclass.Base.{
  ℕ, ◌==◌, ltb, Bool, true, false, not, ◌&&◌, ◌||◌, List, [], ◌∷◌, Option, none, some, contains,
  map, if◌then◌else◌, Xid,
}
use miniclass.Base.Int.{ℤ, pos, ltb_ℤ, leb_ℤ, eq_ℤ}
use miniclass.Base.Sort.{sort_slice}
use miniclass.Store.Tx.{request_invalid, Result, ok, err}

-- Texts outside the vocabulary are `other_response` and so on.
pub data ChoiceResponse : Type 0 where
  ranked interested not_interested other_response : ChoiceResponse

pub data Rating : Type 0 where
  very_interested interested not_interested other_rating : Rating

pub data ExceptionRule : Type 0 where
  capacity exclusion grade other_rule : ExceptionRule

pub record RankedChoice : Type 0 where
  pub offering_id : Xid
  pub response : ChoiceResponse
  pub rank : ℤ

pub record InterestRating : Type 0 where
  pub interest_area_id : Xid
  pub rating : Rating

pub record Participant : Type 0 where
  pub id : Xid
  pub grade_ordinal : ℤ
  pub ranked_choices : Option (List RankedChoice)
  pub interest_profile : List InterestRating

pub record SolverOffering : Type 0 where
  pub id : Xid
  pub capacity : ℤ
  pub min_grade_ordinal : ℤ
  pub max_grade_ordinal : ℤ
  pub interest_area_id : Option Xid

pub record Placement : Type 0 where
  pub participant_id : Xid
  pub offering_id : Xid

pub record AuthorizedPinnedException : Type 0 where
  pub participant_id : Xid
  pub offering_id : Xid
  pub rule : ExceptionRule

-- The version is 1 for `v1`; of the time limit only its sign is read.
pub record Request : Type 0 where
  pub version : ℕ
  pub seed : ℤ
  pub max_deterministic_time : ℤ
  pub high_rank_max : ℤ
  pub participants : List Participant
  pub offerings : List SolverOffering
  pub pins : List Placement
  pub exclusions : List Placement
  pub authorized_exceptions : List AuthorizedPinnedException
  pub prior_placements : List Placement

abbrev is_empty : Xid → Bool
is_empty id = id == 0

abbrev is_empty_area : Option Xid → Bool
is_empty_area none = false
is_empty_area (some id) = is_empty id

-- One turn of the loop over the offerings; `seen` is `offeringIDs`.
unfoldable pub valid_offerings : List Xid → List SolverOffering → Bool
valid_offerings seen [] = true
valid_offerings seen (o ∷ os) =
    not (
      is_empty o.id
      || (ltb_ℤ o.capacity (pos 0)
          || (leb_ℤ o.min_grade_ordinal (pos 0) || ltb_ℤ o.max_grade_ordinal o.min_grade_ordinal)))
    && (not (contains o.id seen)
        && (not (is_empty_area o.interest_area_id) && valid_offerings (o.id ∷ seen) os))

abbrev is_rating : Rating → Bool
is_rating Rating.other_rating = false
is_rating _ = true

unfoldable pub valid_profile : List Xid → List InterestRating → Bool
valid_profile seen [] = true
valid_profile seen (r ∷ rs) =
    not (is_empty r.interest_area_id)
    && (not (contains r.interest_area_id seen)
        && (is_rating r.rating && valid_profile (r.interest_area_id ∷ seen) rs))

abbrev contains_rank : ℤ → List ℤ → Bool
contains_rank r [] = false
contains_rank r (x ∷ xs) = eq_ℤ r x || contains_rank r xs

-- The ranks seen after a choice, or nothing if the choice is refused.
abbrev next_ranks : RankedChoice → List ℤ → Option (List ℤ)
next_ranks c ranks = elim c.response [
  | ChoiceResponse.ranked ↦
      if leb_ℤ c.rank (pos 0) || contains_rank c.rank ranks then none else some (c.rank ∷ ranks)
  | ChoiceResponse.interested ↦ if eq_ℤ c.rank (pos 0) then some ranks else none
  | ChoiceResponse.not_interested ↦ if eq_ℤ c.rank (pos 0) then some ranks else none
  | ChoiceResponse.other_response ↦ none
]

unfoldable pub valid_choices : List Xid → List Xid → List ℤ → List RankedChoice → Bool
valid_choices offerings seen ranks [] = true
valid_choices offerings seen ranks (c ∷ cs) =
    not (is_empty c.offering_id)
    && (contains c.offering_id offerings
        && (not (contains c.offering_id seen) && elim (next_ranks c ranks) [
          | none ↦ false
          | some ranks' ↦ valid_choices offerings (c.offering_id ∷ seen) ranks' cs
        ]))

unfoldable pub valid_ranked_choices : List Xid → Option (List RankedChoice) → Bool
unfolding valid_choices
valid_ranked_choices offerings none = true
valid_ranked_choices offerings (some cs) = valid_choices offerings [] [] cs

unfoldable pub valid_participants : List Xid → List Xid → List Participant → Bool
unfolding valid_profile valid_ranked_choices
valid_participants offerings seen [] = true
valid_participants offerings seen (p ∷ ps) =
    not (is_empty p.id)
    && (not (contains p.id seen)
        && (not (leb_ℤ p.grade_ordinal (pos 0))
            && (valid_profile [] p.interest_profile
                && (valid_ranked_choices offerings p.ranked_choices
                    && valid_participants offerings (p.id ∷ seen) ps))))

unfoldable pub valid_placements : List Placement → Bool
valid_placements [] = true
valid_placements (p ∷ ps) =
    not (is_empty p.participant_id || is_empty p.offering_id) && valid_placements ps

abbrev is_rule : ExceptionRule → Bool
is_rule ExceptionRule.other_rule = false
is_rule _ = true

unfoldable pub valid_exceptions : List AuthorizedPinnedException → Bool
valid_exceptions [] = true
valid_exceptions (e ∷ es) =
    not (is_empty e.participant_id || is_empty e.offering_id)
    && (is_rule e.rule && valid_exceptions es)

abbrev is_nil : {A : Type 0} → List A → Bool
is_nil [] = true
is_nil (_ ∷ _) = false

unfoldable pub valid_request : Request → Bool
unfolding valid_offerings valid_participants valid_placements valid_exceptions
valid_request r =
    r.version == 1
    && (not (leb_ℤ r.max_deterministic_time (pos 0))
        && (not (ltb_ℤ r.high_rank_max (pos 2))
            && (not (is_nil r.offerings)
                && (valid_offerings [] r.offerings
                    && (valid_participants (map (λ (o : SolverOffering). o.id) r.offerings) []
                          r.participants
                        && (valid_placements r.pins
                            && (valid_placements r.exclusions
                                && (valid_placements r.prior_placements
                                    && valid_exceptions r.authorized_exceptions))))))))

abbrev pub placement_less : Placement → Placement → Bool
placement_less a b =
    if a.participant_id == b.participant_id
    then ltb a.offering_id b.offering_id
    else ltb a.participant_id b.participant_id

-- The rules in the order of their texts.
abbrev rule_order : ExceptionRule → ℕ
rule_order ExceptionRule.capacity = 0
rule_order ExceptionRule.exclusion = 1
rule_order ExceptionRule.grade = 2
rule_order ExceptionRule.other_rule = 3

abbrev exception_less : AuthorizedPinnedException → AuthorizedPinnedException → Bool
exception_less a b =
    if not (a.participant_id == b.participant_id)
    then ltb a.participant_id b.participant_id
    else if not (a.offering_id == b.offering_id)
    then ltb a.offering_id b.offering_id
    else ltb (rule_order a.rule) (rule_order b.rule)

unfoldable pub sorted_participant : Participant → Participant
sorted_participant p = record p {
  interest_profile =
      sort_slice (λ a b. ltb a.interest_area_id b.interest_area_id) p.interest_profile;
  ranked_choices = elim p.ranked_choices [
    | none ↦ none
    | some cs ↦
        some
          (sort_slice (λ (a : RankedChoice) (b : RankedChoice). ltb a.offering_id b.offering_id) cs)
  ];
}

-- `Request.Canonicalize`: the request in order, which the caller's slices are left in.
unfoldable pub canonicalize : Request → Result Request
unfolding valid_request sorted_participant
canonicalize r =
    if valid_request r
    then ok (record r {
      offerings =
          sort_slice (λ (a : SolverOffering) (b : SolverOffering). ltb a.id b.id) r.offerings;
      participants =
          sort_slice (λ (a : Participant) (b : Participant). ltb a.id b.id)
            (map sorted_participant r.participants);
      pins = sort_slice placement_less r.pins;
      exclusions = sort_slice placement_less r.exclusions;
      prior_placements = sort_slice placement_less r.prior_placements;
      authorized_exceptions = sort_slice exception_less r.authorized_exceptions;
    })
    else err request_invalid
