-- ===== src/NonParticipation/Projection.antt =====
-- The participants that the service lists, and those that the manual editor accepts.
use miniclass.Base.{
  ◌==◌, ◌≡◌, refl, sym, ap, ◌∙◌, ◌↔◌, Bool, true, false, not, ◌&&◌, List, [], ◌∷◌, none, some, any,
  keep, contains, find_first, Xid, arith, eq_of_==,
}
use miniclass.Store.Rows.{absent, Assignment, ProgramMembership, Db}
use miniclass.Store.Tx.{student_not_participating, ok, err, in_tenant_read}
use miniclass.Store.Queries.{get_session}
use miniclass.Store.Editing.{list_session_non_participations}
use miniclass.Assignment.Rules.{member_of, evaluate_move}
use miniclass.NonParticipation.{participating, list_participating_memberships}

abbrev pub is_listed : Xid → List ProgramMembership → Bool
is_listed student l = any (λ m. m.student_id == student) l

is_listed-keep :
    (student : Xid) (q : Xid → Bool) (l : List ProgramMembership)
    → is_listed student (keep (λ m. q m.student_id) l) ≡ (q student && is_listed student l)
is_listed-keep student q [] = ground arith
is_listed-keep student q (m ∷ l) =
    ground (arith, is_listed-keep student q l, eq_of_== m.student_id student)

is_listed-member :
    (student : Xid) (db : Db)
    → is_listed student db.memberships
      ≡ elim (member_of db student) [ none ↦ false | some _ ↦ true ]
is_listed-member student db = go db.memberships
  where
    go :
        (l : List ProgramMembership)
        → is_listed student l
          ≡ elim (find_first (λ m. m.student_id == student) l) [ none ↦ false | some _ ↦ true ]
    go [] = refl
    go (m ∷ l) = ground (arith, go l)

listed-eq :
    (db : Db) (l : List ProgramMembership)
    → list_participating_memberships db ≡ ok l
    → l ≡ participating db.non_participations db.memberships
unfolding list_participating_memberships in_tenant_read get_session list_session_non_participations
listed-eq db l h = ground arith

refused :
    (db : Db) (rows : List Assignment) (student target : Xid)
    → evaluate_move db rows (student, target) ≡ err student_not_participating
    → (not (contains student (absent db)) && is_listed student db.memberships) ≡ false
unfolding evaluate_move
refused db rows student target h = ground (arith, is_listed-member student db)

refuses :
    (db : Db) (rows : List Assignment) (student target : Xid)
    → (not (contains student (absent db)) && is_listed student db.memberships) ≡ false
    → evaluate_move db rows (student, target) ≡ err student_not_participating
unfolding evaluate_move
refuses db rows student target h = ground (arith, is_listed-member student db)

-- The manual editor refuses a student as not participating exactly if the service does not list the
-- student among the participating members of the session.
pub list_participating_memberships-evaluate_move :
    (db : Db) (rows : List Assignment) (student target : Xid) (l : List ProgramMembership)
    → list_participating_memberships db ≡ ok l
    → (evaluate_move db rows (student, target) ≡ err student_not_participating)
      ↔ (is_listed student l ≡ false)
list_participating_memberships-evaluate_move db rows student target l h =
    let same : is_listed student l
        ≡ (not (contains student (absent db)) && is_listed student db.memberships) =
      ap (is_listed student) (listed-eq db l h)
      ∙ is_listed-keep student (λ k. not (contains k (absent db))) db.memberships in
    (
      λ e. same ∙ refused db rows student target e,
      λ e. refuses db rows student target (sym same ∙ e),
    )
