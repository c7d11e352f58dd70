-- ===== src/Store/Steps.antt =====
-- Rules that take a successful callback apart, one statement at a time: what follows from the rest
-- of the callback follows from the whole.
use miniclass.Base.{◌≡◌, refl, Bool, true, false, Option, none, some}
use miniclass.Store.Tx.{Error, Result, ok, err, Tx, TxState, and_then, guard, lift, found}

module _ {κ} {A B : Type 0} {x : B × TxState} {Q : Type κ} where
  pub bind_rule :
      (r : Result (A × TxState)) (f : A → Tx B)
      → and_then r f ≡ ok x
      → ((a : A) (s : TxState) → r ≡ ok (a, s) → f a s ≡ ok x → Q)
      → Q
  bind_rule (ok (a, s)) f h q = q a s refl h
  bind_rule (err e) f h q = cc

  pub lift_rule :
      (r : Result A) (s : TxState) (f : A → Tx B)
      → and_then (lift r s) f ≡ ok x
      → ((a : A) → r ≡ ok a → f a s ≡ ok x → Q)
      → Q
  lift_rule (ok a) s f h q = q a refl h
  lift_rule (err e) s f h q = cc

  pub found_rule :
      (o : Option A) (e : Error) (s : TxState) (f : A → Tx B)
      → and_then (found o e s) f ≡ ok x
      → ((a : A) → o ≡ some a → f a s ≡ ok x → Q)
      → Q
  found_rule (some a) e s f h q = q a refl h
  found_rule none e s f h q = cc

module _ {κ} {B : Type 0} {x : B × TxState} {Q : Type κ} where
  pub guard_rule :
      (b : Bool) (e : Error) (s : TxState) (f : Unit {0} → Tx B)
      → and_then (guard b e s) f ≡ ok x
      → (b ≡ true → f tt s ≡ ok x → Q)
      → Q
  guard_rule true e s f h q = q refl h
  guard_rule false e s f h q = cc

-- The values of two successes that are equal.
pub pure_inj :
    {A : Type 0} {a b : A} {s s' : TxState}
    → ◌≡◌ {A = Result (A × TxState)} (ok (a, s)) (ok (b, s'))
    → (b ≡ a) × (s' ≡ s)
pure_inj h = (cc, cc)
