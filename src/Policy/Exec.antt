-- ===== src/Policy/Exec.antt =====
-- Functions with an `error` result that read and change a state. What was changed before an error
-- stays changed.
use normgate.Prelude.{Bool, true, false}
use normgate.Policy.{Error, Try, ok, err, panic}

abbrev pub Exec : Type 0 → Type 0 → Type 0
Exec S A = S → Try A × S

module _ {S : Type 0} where
  abbrev pub continue : {A B : Type 0} → Try A → (A → Exec S B) → Exec S B
  continue (ok a) f s = f a s
  continue (err e) f s = (err e, s)
  continue panic f s = (panic, s)

  infixl 5 ◌>>=◌ ◌>>◌
  abbrev pub ◌>>=◌ : {A B : Type 0} → Exec S A → (A → Exec S B) → Exec S B
  ◌>>=◌ run f s = let (r, s') = run s in continue r f s'

  abbrev pub ◌>>◌ : {B : Type 0} → Exec S (Unit {0}) → Exec S B → Exec S B
  run >> rest = run >>= λ _. rest

  abbrev pub lift : {A : Type 0} → Try A → Exec S A
  lift r s = (r, s)

  -- An error return unless the test holds.
  abbrev pub unless : Bool → Error → Exec S (Unit {0})
  unless true e s = (ok tt, s)
  unless false e s = (err e, s)
