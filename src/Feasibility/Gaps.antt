-- ===== src/Feasibility/Gaps.antt =====
-- The grades and the areas that no offering covers, and the lists of offerings.
use miniclass.Base.{
  ℕ, suc, ◌+◌, ◌==◌, ltb, leb, Bool, false, not, ◌&&◌, ◌||◌, List, [], ◌∷◌, Option, none, some, any,
  keep, map, if◌then◌else◌, is_none, Xid,
}
use miniclass.Base.Int.{pos, pos_part, ltb_ℤ}
use miniclass.Base.Text.{Text}
use miniclass.Base.Keyed.{get, put}
use miniclass.Base.Sort.{sort_slice}
use miniclass.Store.Rows.{GradeLevel, Offering}
use miniclass.Feasibility.{
  CatalogParticipant, InterestArea, CatalogAreaDemand, CatalogFeasibilitySnapshot, CatalogGradeGap,
  CatalogAreaGap, last_level,
}

abbrev pub ordinal_of : Option GradeLevel → Option ℕ
ordinal_of none = none
ordinal_of (some g) = some g.ordinal

abbrev pub last_ordinal : Option ℕ → Xid → List CatalogParticipant → Option ℕ
last_ordinal found id [] = found
last_ordinal found id (p ∷ participants) =
    last_ordinal (if p.known_grade && p.grade_level_id == id then some p.grade_ordinal else found)
      id participants

abbrev pub both : Option ℕ → Option ℕ → Option (ℕ × ℕ)
both none max = none
both (some min) none = none
both (some min) (some max) = some (min, max)

-- The participants are asked when the levels lack one of the two.
unfoldable pub offering_grade_ordinals : CatalogFeasibilitySnapshot → Offering → Option (ℕ × ℕ)
offering_grade_ordinals snapshot o =
    let min = ordinal_of (last_level none o.min_grade_level_id snapshot.grades) in
    let max = ordinal_of (last_level none o.max_grade_level_id snapshot.grades) in
    if is_none min || is_none max
    then both (last_ordinal min o.min_grade_level_id snapshot.participants)
        (last_ordinal max o.max_grade_level_id snapshot.participants)
    else both min max

abbrev pub in_window : Xid → Option (ℕ × ℕ) → CatalogParticipant → Bool
in_window id none p = false
in_window id (some (min, max)) p =
    p.grade_level_id == id && (leb min p.grade_ordinal && leb p.grade_ordinal max)

-- The inner loops of `uncoveredGrades`.
unfoldable pub is_admitted : CatalogFeasibilitySnapshot → Xid → Bool
unfolding offering_grade_ordinals
is_admitted snapshot id =
    any (λ o. any (in_window id (offering_grade_ordinals snapshot o)) snapshot.participants)
      snapshot.offerings

abbrev pub count_of : Option CatalogGradeGap → ℕ
count_of none = 0
count_of (some gap) = gap.participant_count

abbrev pub gap_id : CatalogGradeGap → Xid
gap_id gap = gap.id

abbrev pub counted_gap : CatalogParticipant → List CatalogGradeGap → CatalogGradeGap
counted_gap p gaps = record {
  id = p.grade_level_id;
  label = p.grade_label;
  participant_count = suc (count_of (get gap_id p.grade_level_id gaps));
}

-- The first loop: the maps `counts` and `grades` together.
abbrev pub known_grades : List CatalogGradeGap → List CatalogParticipant → List CatalogGradeGap
known_grades gaps [] = gaps
known_grades gaps (p ∷ participants) =
    known_grades (if p.known_grade then put gap_id (counted_gap p gaps) gaps else gaps) participants

unfoldable pub uncovered_grades : CatalogFeasibilitySnapshot → List CatalogGradeGap
unfolding is_admitted put sort_slice
uncovered_grades snapshot =
    sort_slice (λ a b. ltb (gap_id a) (gap_id b))
      (keep (λ gap. not (is_admitted snapshot (gap_id gap)))
        (known_grades [] snapshot.participants))

-- `areaLabels[id]`
abbrev pub area_label : Option Text → Xid → List InterestArea → Option Text
area_label found id [] = found
area_label found id (a ∷ areas) = area_label (if a.id == id then some a.label else found) id areas

abbrev pub area_id : CatalogAreaGap → Xid
area_id gap = gap.id

abbrev pub area_count : Option CatalogAreaGap → ℕ
area_count none = 0
area_count (some gap) = gap.high_rating_count

abbrev pub add_demand : CatalogAreaDemand → Option Text → List CatalogAreaGap → List CatalogAreaGap
add_demand d none gaps = gaps
add_demand d (some label) gaps =
    let gap : CatalogAreaGap = record {
      id = d.interest_area_id;
      label = label;
      high_rating_count =
          area_count (get area_id d.interest_area_id gaps) + pos_part d.high_rating_count;
    } in
    if ltb_ℤ (pos 0) d.high_rating_count then put area_id gap gaps else gaps

abbrev pub demanded_areas :
    List InterestArea → List CatalogAreaGap → List CatalogAreaDemand → List CatalogAreaGap
demanded_areas areas gaps [] = gaps
demanded_areas areas gaps (d ∷ demand) =
    demanded_areas areas (add_demand d (area_label none d.interest_area_id areas) gaps) demand

abbrev pub is_in_area : Xid → Offering → Bool
is_in_area id o = elim o.interest_area_id [ none ↦ false | some area ↦ area == id ]

unfoldable pub uncovered_areas : CatalogFeasibilitySnapshot → List CatalogAreaGap
unfolding put sort_slice
uncovered_areas snapshot =
    sort_slice (λ a b. ltb (area_id a) (area_id b))
      (keep (λ gap. not (any (is_in_area (area_id gap)) snapshot.offerings))
        (demanded_areas snapshot.interest_areas [] snapshot.area_demand))

unfoldable pub all_offering_ids : List Offering → List Xid
unfolding sort_slice
all_offering_ids offerings = sort_slice ltb (map (λ (o : Offering). o.id) offerings)

unfoldable pub unmatched_offering_ids : List Offering → List Xid
unfolding all_offering_ids
unmatched_offering_ids offerings =
    all_offering_ids (keep (λ o. is_none o.interest_area_id) offerings)
