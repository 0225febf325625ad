-- ===== src/Base/Exec.antt =====
-- Methods on `&mut self` that may fail: what was written before the error stays written.

use fx_rs.Base.{Result, ok, err}

abbrev pub Exec : Type 0 → Type 0 → Type 0 → Type 0
Exec E S A = S → Result E A × S

module _ {E S A : Type 0} where
  abbrev pub pure : A → Exec E S A
  pure a s = (ok a, s)

  abbrev pub lift : Result E A → Exec E S A
  lift r s = (r, s)

abbrev pub get : {E S : Type 0} → Exec E S S
get s = (ok s, s)

abbrev pub put : {E S : Type 0} → S → Exec E S (Unit {0})
put s' s = (ok tt, s')

module _ {E S A B : Type 0} where
  abbrev pub continue : Result E A → (A → Exec E S B) → Exec E S B
  continue (ok a) f s = f a s
  continue (err e) f s = (err e, s)

  infixl 10 ◌>>=◌ ◌>>◌
  abbrev pub ◌>>=◌ : Exec E S A → (A → Exec E S B) → Exec E S B
  ◌>>=◌ m f s = let (r, s') = m s in continue r f s'

  abbrev pub ◌>>◌ : Exec E S A → Exec E S B → Exec E S B
  ◌>>◌ m k = m >>= λ _. k
