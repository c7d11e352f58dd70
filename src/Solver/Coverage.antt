-- ===== src/Solver/Coverage.antt =====
-- A response that is accepted places everyone: the counting argument behind
-- `validateSuccessfulResponse` of backend/internal/solver/service.go.
use miniclass.Base.{
  ◌≡◌, refl, sym, ◌∙◌, true, false, List, [], ◌∷◌, contains, map, length, if◌then◌else◌, Xid, arith,
  ==_refl,
}
use miniclass.Base.Counting.{no_duplicates, distinct, times, times-one, times-contains}
use miniclass.Solver.Response.{SolverAssignment, valid_assignments}
use miniclass.Solver.Start.{known_assignments}

abbrev pub participant : SolverAssignment → Xid
participant a = a.participant_id

abbrev ids_of : List SolverAssignment → List Xid
ids_of l = map participant l

valid_assignments-unseen :
    (seen : List Xid) (l : List SolverAssignment) (id : Xid)
    → valid_assignments seen l ≡ true
    → contains id seen ≡ true
    → contains id (ids_of l) ≡ false
unfolding valid_assignments
valid_assignments-unseen seen [] id h e = refl
valid_assignments-unseen seen (a ∷ l) id h e =
    ground (arith, valid_assignments-unseen (a.participant_id ∷ seen) l id)

valid_assignments-no_duplicates :
    (seen : List Xid) (l : List SolverAssignment)
    → valid_assignments seen l ≡ true
    → no_duplicates (ids_of l) ≡ true
unfolding valid_assignments
valid_assignments-no_duplicates seen [] h = refl
valid_assignments-no_duplicates seen (a ∷ l) h = ground (
  arith,
  valid_assignments-no_duplicates (a.participant_id ∷ seen) l,
  valid_assignments-unseen (a.participant_id ∷ seen) l a.participant_id,
  ==_refl a.participant_id,
)

known-contains :
    (participants offerings : List Xid) (l : List SolverAssignment) (id : Xid)
    → known_assignments participants offerings l ≡ true
    → contains id (ids_of l) ≡ true
    → contains id participants ≡ true
unfolding known_assignments
known-contains participants offerings [] id h e = absurd (ground arith)
known-contains participants offerings (a ∷ l) id h e =
    ground (arith, known-contains participants offerings l id)

-- Distinct participants, all known, as many as there are: each is assigned once.
pub assigned-one :
    (raw l : List SolverAssignment) (participants offerings : List Xid)
    → ((id : Xid) → times participant id l ≡ times participant id raw)
    → length l ≡ length raw
    → valid_assignments [] raw ≡ true
    → length l ≡ distinct participants
    → known_assignments participants offerings l ≡ true
    → (id : Xid) → times participant id l ≡ (if contains id participants then 1 else 0)
assigned-one raw l participants offerings same len valid total known id =
    same id
    ∙ times-one participant raw participants (valid_assignments-no_duplicates [] raw valid)
        (λ x e.
          known-contains participants offerings l x known
            (times-contains participant l raw x (same x) ∙ e))
        (sym len ∙ total) id
