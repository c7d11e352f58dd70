-- ===== src/Feasibility/Capacity.antt =====
-- What the warning about capacity means for a draft.
use miniclass.Base.{
  suc, ◌<◌, ◌==◌, ◌≡◌, refl, sym, ap, ◌∙◌, ltb, Bool, true, false, not, ◌||◌, List, [], ◌∷◌, ◌++◌,
  any, keep, contains, map, length, All, inl, inr, Bool-cases, Xid, arith, eq_of_==,
}
use miniclass.Base.Counting.{no_duplicates, length-distinct, length-map}
use miniclass.Store.Rows.{absent, Assignment, GradeLevel, ProgramMembership, Db}
use miniclass.Store.Tx.{ok, in_tenant_read}
use miniclass.Store.Queries.{get_session}
use miniclass.Store.Editing.{list_session_non_participations}
use miniclass.Assignment.Rules.{over_capacity}
use miniclass.NonParticipation.{participating}
use miniclass.Feasibility.{
  capacity_short, CatalogFeasibilitySnapshot, CatalogFeasibilityWarning, CatalogFeasibility,
  InterestArea, total,
}
use miniclass.Feasibility.Evaluate.{
  catalog_participant, live_snapshot, evaluate_catalog_feasibility, get_catalog_feasibility,
}
use miniclass.Feasibility.Sums.{IsOffered, distinct_within, length-capacity}

abbrev pub is_capacity_short : CatalogFeasibilityWarning → Bool
is_capacity_short w = elim w.id [ capacity_short ↦ true | _ ↦ false ]

abbrev pub warns_capacity_short : CatalogFeasibility → Bool
warns_capacity_short f = any is_capacity_short f.warnings

pub any-append : {A : Type 0} (p : A → Bool) (l m : List A) → any p (l ++ m) ≡ (any p l || any p m)
any-append p [] m = refl
any-append p (a ∷ l) m = ground (arith, any-append p l m)

evaluate-warns_capacity_short :
    (s : CatalogFeasibilitySnapshot)
    → warns_capacity_short (evaluate_catalog_feasibility s)
      ≡ ltb (total (λ o. o.capacity) s.offerings) (length s.participants)
unfolding evaluate_catalog_feasibility
evaluate-warns_capacity_short s = ground (arith, any-append is_capacity_short)

pub live-eq :
    (areas : List InterestArea) (db : Db) (f : CatalogFeasibility)
    → get_catalog_feasibility areas db ≡ ok f
    → f
      ≡ evaluate_catalog_feasibility
          (live_snapshot db areas (participating db.non_participations db.memberships))
unfolding get_catalog_feasibility in_tenant_read get_session list_session_non_participations
live-eq areas db f h = ground arith

length-participants :
    (grades : List GradeLevel) (members : List ProgramMembership)
    → length (map (catalog_participant grades) members) ≡ length members
length-participants grades [] = refl
length-participants grades (m ∷ members) = ap suc (length-participants grades members)

abbrev pub is_placed : List Assignment → Xid → Bool
is_placed rows student = contains student (map (λ (r : Assignment). r.student_id) rows)

abbrev pub some_unplaced : List Assignment → List ProgramMembership → Bool
some_unplaced rows members = any (λ m. not (is_placed rows m.student_id)) members

all_placed :
    (rows : List Assignment) (members : List ProgramMembership)
    → some_unplaced rows members ≡ false
    → (x : Xid) → contains x (map (λ (m : ProgramMembership). m.student_id) members) ≡ true
    → contains x (map (λ (r : Assignment). r.student_id) rows) ≡ true
all_placed rows [] h x e = absurd (ground arith)
all_placed rows (m ∷ members) h x e = elim (Bool-cases (x == m.student_id)) [
  | inl same ↦ rw (eq_of_== x m.student_id same) (ground arith)
  | inr other ↦ all_placed rows members (ground arith) x (ground arith)
]

contains-participating :
    (q : Xid → Bool) (x : Xid) (members : List ProgramMembership)
    → contains x (map (λ (m : ProgramMembership). m.student_id) members) ≡ false
    → contains x
        (map (λ (m : ProgramMembership). m.student_id) (keep (λ m. q m.student_id) members))
      ≡ false
contains-participating q x [] h = refl
contains-participating q x (m ∷ members) h = ground (arith, contains-participating q x members)

no_duplicates-participating :
    (q : Xid → Bool) (members : List ProgramMembership)
    → no_duplicates (map (λ (m : ProgramMembership). m.student_id) members) ≡ true
    → no_duplicates
        (map (λ (m : ProgramMembership). m.student_id) (keep (λ m. q m.student_id) members))
      ≡ true
no_duplicates-participating q [] h = refl
no_duplicates-participating q (m ∷ members) h =
    ground
      (arith, no_duplicates-participating q members, contains-participating q m.student_id members)

short_total :
    (areas : List InterestArea) (db : Db) (f : CatalogFeasibility)
    → get_catalog_feasibility areas db ≡ ok f
    → warns_capacity_short f ≡ true
    → total (λ o. o.capacity) db.offerings
      < length (participating db.non_participations db.memberships)
short_total areas db f h short =
    let members = participating db.non_participations db.memberships in
    let e =
      sym (evaluate-warns_capacity_short (live_snapshot db areas members))
      ∙ (ap warns_capacity_short (sym (live-eq areas db f h)) ∙ short) in
    let same = length-participants db.grade_levels members in ground arith

-- Where the service warns that the catalog is short of places, and the members are distinct, no
-- draft with offerings of the session that keeps within every capacity places all who take part.
pub get_catalog_feasibility-capacity_short :
    (areas : List InterestArea) (db : Db) (f : CatalogFeasibility)
    → get_catalog_feasibility areas db ≡ ok f
    → warns_capacity_short f ≡ true
    → no_duplicates (map (λ (m : ProgramMembership). m.student_id) db.memberships) ≡ true
    → (rows : List Assignment) → All (IsOffered db.offerings) rows
    → All (λ o. over_capacity rows o ≡ false) db.offerings
    → some_unplaced rows (participating db.non_participations db.memberships) ≡ true
get_catalog_feasibility-capacity_short areas db f h short unique rows offered within =
    let members = participating db.non_participations db.memberships in
    let more : total (λ o. o.capacity) db.offerings < length members =
      short_total areas db f h short in
    elim (Bool-cases (some_unplaced rows members)) [
      | inl some ↦ some
      | inr none ↦
          let students = map (λ (m : ProgramMembership). m.student_id) members in
          let a =
            length-distinct students (map (λ (r : Assignment). r.student_id) rows)
              (no_duplicates-participating (λ k. not (contains k (absent db))) db.memberships
                unique)
              (all_placed rows members none) in
          let b = distinct_within (map (λ (r : Assignment). r.student_id) rows) in
          let c = length-map (λ (r : Assignment). r.student_id) rows in
          let d = length-map (λ (m : ProgramMembership). m.student_id) members in
          let e = length-capacity rows db.offerings offered within in absurd (omega arith)
    ]
