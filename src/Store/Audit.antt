-- ===== src/Store/Audit.antt =====
-- What recording an entry does: `Record` of backend/internal/data/data.go.
use miniclass.Base.{◌≡◌, List, ◌∷◌, arith, map}
use miniclass.Store.Rows.{Entry, AuditRow, Db}
use miniclass.Store.Tx.{ok, TxState, stored, record_audit}

-- The entries of the log, without the label of the actor.
abbrev pub entries : Db → List Entry
entries db = map (λ (a : AuditRow). a.entry) db.audit_log

-- An entry goes on top of the log, and the rows stay.
pub record_audit-eq :
    (entry : Entry) (s : TxState) {s' : TxState}
    → record_audit entry s ≡ ok (tt, s')
    → (s'.db.session ≡ s.db.session)
      × (s'.db.assignments ≡ s.db.assignments)
      × (entries s'.db ≡ stored entry ∷ entries s.db)
unfolding record_audit
record_audit-eq entry s h = ground arith

pub record_audit-solve_runs :
    (entry : Entry) (s : TxState) {s' : TxState}
    → record_audit entry s ≡ ok (tt, s')
    → s'.db.solve_runs ≡ s.db.solve_runs
unfolding record_audit
record_audit-solve_runs entry s h = ground arith

-- Nothing but the log changes.
pub record_audit-frame :
    (entry : Entry) (s : TxState) {s' : TxState}
    → record_audit entry s ≡ ok (tt, s')
    → s'.db ≡ record (s.db) { audit_log = s'.db.audit_log }
unfolding record_audit
record_audit-frame entry s h = ground arith
