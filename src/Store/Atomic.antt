-- ===== src/Store/Atomic.antt =====
-- What `InTenant` (backend/internal/data/data.go) promises of every callback.
use miniclass.Base.{◌≡◌, refl, inl, inr, true, false, not, ◌&&◌, ◌||◌, arith, Bool-cases}
use miniclass.Store.Rows.{Actor, Db}
use miniclass.Store.Tx.{Result, ok, err, Tx, TxState, begin_tx, validate_actor, in_tenant, commit}

module _ {A : Type 0} (actor : Actor) (fn : Tx A) (db : Db) where
  -- A transaction that commits ran its callback to the end, under an actor that can be recorded, and
  -- the callback recorded an audit entry or declared that none is due; the rows are the callback's.
  pub in_tenant_commits :
      (a : A)
      → (in_tenant actor fn db).0 ≡ ok a
      → (s : TxState) × (fn (begin_tx db actor false) ≡ ok (a, s))
        × ((in_tenant actor fn db).1 ≡ s.db)
        × (validate_actor actor ≡ true)
        × ((s.audit_recorded || s.no_audit_reason) ≡ true)
  unfolding in_tenant
  in_tenant_commits a h = elim (Bool-cases (validate_actor actor)) [
    | inl valid ↦ go (fn (begin_tx db actor false)) refl valid
    | inr invalid ↦ absurd (ground arith)
  ]
    where
      go :
          (r : Result (A × TxState))
          → fn (begin_tx db actor false) ≡ r
          → validate_actor actor ≡ true
          → (s : TxState) × (fn (begin_tx db actor false) ≡ ok (a, s))
            × ((in_tenant actor fn db).1 ≡ s.db)
            × (validate_actor actor ≡ true)
            × ((s.audit_recorded || s.no_audit_reason) ≡ true)
      go (ok (b, s)) e valid = (s, ground arith, ground arith, valid, ground arith)
      go (err x) e valid = absurd (ground arith)

-- What every successful callback establishes holds after the transaction, whatever it returns.
pub in_tenant_invariant {κ} :
    {A : Type 0} (P : Db → Type κ) (actor : Actor) (fn : Tx A) (db : Db)
    → P db
    → ((a : A) (s : TxState) → fn (begin_tx db actor false) ≡ ok (a, s) → P s.db)
    → P (in_tenant actor fn db).1
unfolding in_tenant
in_tenant_invariant {A} P actor fn db before keeps = elim (Bool-cases (validate_actor actor)) [
  | inr invalid ↦ rw invalid before
  | inl valid ↦ rw valid (ended (fn (begin_tx db actor false)) refl)
]
  where
    ended : (r : Result (A × TxState)) → fn (begin_tx db actor false) ≡ r → P (commit db r).1
    ended (err e) ran = before
    ended (ok (a, s)) ran = elim (Bool-cases (not s.audit_recorded && not s.no_audit_reason)) [
      | inl missing ↦ rw missing before
      | inr recorded ↦ rw recorded (keeps a s ran)
    ]
