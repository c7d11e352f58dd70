-- ===== src/Store/Tx.antt =====
-- `Tx`, `InTenant`, `InTenantRead`, `Record` and `NoAuditRequired` of backend/internal/data/data.go,
-- with `Actor.Validate` of backend/internal/audit/audit.go.
--
-- A transaction is a function on the rows and on the two audit marks of `Tx`; one that fails has no
-- state, so that nothing can be read from it but its error. Opening, committing and losing the
-- connection, which can fail too, belong to the database driver and are left out.
use miniclass.Base.{
  Bool, true, false, not, ◌&&◌, List, [], ◌∷◌, Option, none, some, if◌then◌else◌, Xid,
}
use miniclass.Base.Text.{is_blank, trim_space}
use miniclass.Store.Rows.{Actor, ActorType, user, system, invalid_type, Entry, Rule, Db}

-- The errors that the services return by a sentinel, and the others by what refuses.
pub data Error : Type 0 where
  actor_invalid audit_required no_rows read_only_transaction : Error
  constraint_violated : Error
  transition_invalid transition_gate transition_reason_required session_read_only : Error
  ranked_choice_not_configured voting_deadline_required voting_deadline_invalid : Error
  hard_rule_violation : List (Xid × Rule) → Error
  draft_revision_conflict students_must_differ both_students_assigned : Error
  student_not_participating offering_not_found assignment_not_found override_fields_required : Error
  not_program_member reason_required no_changes non_participation_not_found : Error
  solver_failed response_invalid request_invalid fingerprint_mismatch : Error

pub data Result (A : Type 0) : Type 0 where
  ok : A → Result A
  err : Error → Result A

pub record TxState : Type 0 where
  pub db : Db
  pub actor : Actor
  pub read_only : Bool
  pub audit_recorded : Bool
  pub no_audit_reason : Bool

abbrev pub Tx : Type 0 → Type 0
Tx A = TxState → Result (A × TxState)

module _ {A : Type 0} where
  abbrev pub pure : A → Tx A
  pure a s = ok (a, s)

  abbrev pub throw : Error → Tx A
  throw e s = err e

module _ {A B : Type 0} where
  abbrev pub and_then : Result (A × TxState) → (A → Tx B) → Result (B × TxState)
  and_then (ok (a, s)) f = f a s
  and_then (err e) f = err e

  infixl 5 ◌>>=◌ ◌>>◌
  abbrev pub ◌>>=◌ : Tx A → (A → Tx B) → Tx B
  ◌>>=◌ m f s = and_then (m s) f

  abbrev pub ◌>>◌ : Tx A → Tx B → Tx B
  ◌>>◌ m n s = and_then (m s) (λ _. n)

abbrev pub guard : Bool → Error → Tx (Unit {0})
guard true e s = ok (tt, s)
guard false e s = err e

abbrev pub get_db : Tx Db
get_db s = ok (s.db, s)

abbrev pub put_db : Db → Tx (Unit {0})
put_db db s = ok (tt, record s { db = db })

-- A value that a query finds, or `pgx.ErrNoRows`.
abbrev pub found : {A : Type 0} → Option A → Error → Tx A
found none e s = err e
found (some a) e s = ok (a, s)

-- A value computed from what was read, or the error that stops the callback.
abbrev pub lift : {A : Type 0} → Result A → Tx A
lift (ok a) s = ok (a, s)
lift (err e) s = err e

abbrev pub is_user : ActorType → Bool
is_user user = true
is_user _ = false

abbrev pub is_actor_type : ActorType → Bool
is_actor_type invalid_type = false
is_actor_type _ = true

unfoldable pub validate_actor : Actor → Bool
unfolding is_blank
validate_actor a =
    is_actor_type a.type
    && (not (is_blank a.label)
        && elim a.user_id [ some _ ↦ is_user a.type | none ↦ not (is_user a.type) ])

-- The row that `CreateAuditLog` gets: the reason is trimmed, and a blank one is the empty text, which
-- stands for null.
abbrev pub stored : Entry → Entry
stored entry = record entry { reason = trim_space entry.reason }

-- `Entry.Validate` passes: the entries of the services have a fixed action, object type and
-- encoded summary, and none sets a request id.
unfoldable pub record_audit : Entry → Tx (Unit {0})
unfolding trim_space
record_audit entry s =
    if s.read_only
    then err read_only_transaction
    else ok (
      tt,
      record s {
        db = record (s.db) {
          audit_log =
              record { actor_label = trim_space s.actor.label; entry = stored entry }
              ∷ s.db.audit_log;
        };
        audit_recorded = true;
      },
    )

-- Called with a non-blank literal only.
unfoldable pub no_audit_required : Tx (Unit {0})
no_audit_required s = ok (tt, record s { no_audit_reason = true })

abbrev pub begin_tx : Db → Actor → Bool → TxState
begin_tx db actor read_only = record {
  db = db;
  actor = actor;
  read_only = read_only;
  audit_recorded = false;
  no_audit_reason = false;
}

abbrev pub nobody : Actor
nobody = record { type = system; user_id = none; label = [] }

module _ {A : Type 0} where
  -- The end of a read-write transaction: the audit check, then the commit.
  abbrev pub commit : Db → Result (A × TxState) → Result A × Db
  commit before (err e) = (err e, before)
  commit before (ok (a, s)) =
      if not s.audit_recorded && not s.no_audit_reason
      then (err audit_required, before)
      else (ok a, s.db)

  unfoldable pub in_tenant : Actor → Tx A → Db → Result A × Db
  unfolding validate_actor
  in_tenant actor fn db =
      if validate_actor actor
      then commit db (fn (begin_tx db actor false))
      else (err actor_invalid, db)

  -- A read-only transaction leaves the rows alone, whatever its callback does.
  abbrev pub result_of : Result (A × TxState) → Result A
  result_of (ok (a, s)) = ok a
  result_of (err e) = err e

  unfoldable pub in_tenant_read : Tx A → Db → Result A
  in_tenant_read fn db = result_of (fn (begin_tx db nobody true))
