-- ===== src/Store/Tests.antt =====
-- Transactions that fail and that commit.
use miniclass.Base.{ℕ, ◌≡◌, refl, ◌||◌, true, false}
use miniclass.Session.{SessionState}
use miniclass.Store.Rows.{Db}
use miniclass.Store.Tx.{
  ok, Tx, TxState, pure, ◌>>◌, begin_tx, validate_actor, in_tenant, no_audit_required,
}
use miniclass.Store.Atomic.{in_tenant_commits}
use miniclass.Store.Queries.{advance_or_conflict}
use miniclass.Samples.{db_in, organizer}

abbrev db : Db
db = db_in SessionState.assigning

abbrev committing : Tx ℕ
committing = advance_or_conflict 5 >> (no_audit_required >> pure 3)

in_tenant_commits_example :
    (s : TxState) × (committing (begin_tx db organizer false) ≡ ok (3, s))
    × ((in_tenant organizer committing db).1 ≡ s.db)
    × (validate_actor organizer ≡ true)
    × ((s.audit_recorded || s.no_audit_reason) ≡ true)
unfolding in_tenant advance_or_conflict no_audit_required
in_tenant_commits_example = in_tenant_commits organizer committing db 3 refl
