-- ===== src/Feasibility/Levels.antt =====
-- The level of a participant, as the advice and as the manual editor find it.
use miniclass.Base.{
  ℕ, ◌==◌, ◌≡◌, refl, sym, ap, ◌∙◌, ◌⊎◌, inl, inr, Bool, true, false, ◌&&◌, List, [], ◌∷◌, Option,
  none, some, any, map, All, In, Bool-cases, Xid, if◌then◌else◌, arith, eq_of_==, ==_refl,
}
use miniclass.Store.Rows.{GradeLevel, Offering, ProgramMembership}
use miniclass.Assignment.Rules.{grade_from}
use miniclass.Feasibility.{CatalogParticipant, last_level}
use miniclass.Feasibility.Evaluate.{catalog_participant}

abbrev pub has_level : List GradeLevel → Xid → Bool
has_level grades id = any (λ g. g.id == id) grades

abbrev pub HasWindow : List GradeLevel → Offering → Type 0
HasWindow grades o =
    has_level grades o.min_grade_level_id ≡ true × has_level grades o.max_grade_level_id ≡ true

-- The last level of the catalog is the one whose ordinal the editor reads.
grade_from-absent :
    (n : ℕ) (id : Xid) (grades : List GradeLevel)
    → has_level grades id ≡ false
    → grade_from n id grades ≡ n
unfolding grade_from
grade_from-absent n id [] h = refl
grade_from-absent n id (g ∷ grades) h = ground (arith, grade_from-absent n id grades)

last_level-absent :
    (found : Option GradeLevel) (id : Xid) (grades : List GradeLevel)
    → has_level grades id ≡ false
    → last_level found id grades ≡ found
last_level-absent found id [] h = refl
last_level-absent found id (g ∷ grades) h = ground (arith, last_level-absent found id grades)

-- The level found has the identifier, and its ordinal is the one that the editor reads.
pub last_level-grade_from :
    (found : Option GradeLevel) (n : ℕ) (id : Xid) (grades : List GradeLevel)
    → has_level grades id ≡ true
    → (l : GradeLevel) × ((last_level found id grades ≡ some l)
        × (l.id ≡ id)
        × (l.ordinal ≡ grade_from n id grades))
unfolding grade_from
last_level-grade_from found n id [] h = absurd (ground arith)
last_level-grade_from found n id (g ∷ grades) h = elim (Bool-cases (has_level grades id)) [
  | inl later ↦
      last_level-grade_from (if g.id == id then some g else found)
        (if g.id == id then g.ordinal else n) id grades later
  | inr absent ↦
      let here : (g.id == id) ≡ true = ground arith in
      (
        g,
        (
          last_level-absent (if g.id == id then some g else found) id grades absent ∙ ground arith,
          eq_of_== g.id id here,
          sym (
              grade_from-absent (if g.id == id then g.ordinal else n) id grades absent
              ∙ ground arith),
        ),
      )
]

-- Students of unknown grade have no level, the others the ordinal that the editor reads.
abbrev pub IsLive : List GradeLevel → CatalogParticipant → Type 0
IsLive grades p = (p.grade_level_id ≡ 0) ⊎ (p.grade_ordinal ≡ grade_from 0 p.grade_level_id grades)

catalog_participant-level :
    (grades : List GradeLevel) (m : ProgramMembership) (g : Xid)
    → m.grade_level_id ≡ some g
    → has_level grades g ≡ true
    → (catalog_participant grades m).known_grade ≡ true
      × (catalog_participant grades m).grade_level_id ≡ g
      × (catalog_participant grades m).grade_ordinal ≡ grade_from 0 g grades
catalog_participant-level grades m g h there =
    let (l, (found, same, ordinal)) = last_level-grade_from none 0 g grades there in
    rw (h, found) (refl, same, ordinal)

catalog_participant-IsLive :
    (grades : List GradeLevel) (m : ProgramMembership)
    → IsLive grades (catalog_participant grades m)
catalog_participant-IsLive grades m = of_grade m.grade_level_id refl
  where
    of_grade :
        (g : Option Xid) → m.grade_level_id ≡ g → IsLive grades (catalog_participant grades m)
    of_grade none h = rw h (inl refl)
    of_grade (some g) h = elim (Bool-cases (has_level grades g)) [
      | inl there ↦
          let (known, same, ordinal) = catalog_participant-level grades m g h there in
          inr (ordinal ∙ sym (ap (λ k. grade_from 0 k grades) same))
      | inr absent ↦ rw (h, last_level-absent none g grades absent) (inl refl)
    ]

pub participants-IsLive :
    (grades : List GradeLevel) (members : List ProgramMembership)
    → All (IsLive grades) (map (catalog_participant grades) members)
participants-IsLive grades [] = tt
participants-IsLive grades (m ∷ members) =
    (catalog_participant-IsLive grades m, participants-IsLive grades members)

abbrev pub has_grade : Xid → CatalogParticipant → Bool
has_grade g p = p.known_grade && p.grade_level_id == g

abbrev pub has_id : Xid → CatalogParticipant → Bool
has_id g p = p.grade_level_id == g

-- The grade of a participant is known and theirs.
pub participant-has_grade :
    (grades : List GradeLevel) (members : List ProgramMembership) (m : ProgramMembership) (g : Xid)
    → In m members
    → m.grade_level_id ≡ some g
    → has_level grades g ≡ true
    → any (has_grade g) (map (catalog_participant grades) members) ≡ true
participant-has_grade grades [] m g i h there = absurd i
participant-has_grade grades (k ∷ members) m g (inl e) h there =
    let (known, same, ordinal) =
      catalog_participant-level grades k g
        (ap (λ (x : ProgramMembership). x.grade_level_id) (sym e) ∙ h) there in
    rw (known, same, ==_refl g) refl
participant-has_grade grades (k ∷ members) m g (inr i) h there =
    let rest = participant-has_grade grades members m g i h there in rw rest (ground arith)

pub any-has_id :
    (g : Xid) (l : List CatalogParticipant) → any (has_grade g) l ≡ true → any (has_id g) l ≡ true
any-has_id g [] h = h
any-has_id g (p ∷ l) h = ground (arith, any-has_id g l)
