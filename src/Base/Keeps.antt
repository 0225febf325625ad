-- ===== src/Base/Keeps.antt =====
-- Invariants of methods, one rule for each way to build a method.
use fx_rs.Base.{Bool, true, false, Result, ok, err, if◌then◌else◌}
use fx_rs.Base.Exec.{Exec, pure, lift, continue, ◌>>=◌}

-- `m` keeps `P`, whether it succeeds or fails.
pub record Keeps {E S A : Type 0} (P : S → Type 0) (m : Exec E S A) : Type 0 where
  pub from : (s : S) → P s → P (m s).1

module _ {E S A : Type 0} {P : S → Type 0} where
  pub Keeps-pure : (a : A) → Keeps {E = E} P (pure a)
  Keeps-pure a = record { from = λ s h. h }

  pub Keeps-lift : (r : Result E A) → Keeps P (lift r)
  Keeps-lift r = record { from = λ s h. h }

  pub Keeps-if :
      (b : Bool) (m n : Exec E S A) → Keeps P m → Keeps P n → Keeps P (if b then m else n)
  Keeps-if true m n km kn = km
  Keeps-if false m n km kn = kn

module _ {E S A B : Type 0} {P : S → Type 0} where
  continue-Keeps :
      (r : Result E A) (f : A → Exec E S B) (s : S)
      → ((a : A) → Keeps P (f a))
      → P s
      → P (continue r f s).1
  continue-Keeps (ok a) f s kf h = (kf a).from s h
  continue-Keeps (err e) f s kf h = h

  pub Keeps-bind :
      (m : Exec E S A) (f : A → Exec E S B)
      → Keeps P m
      → ((a : A) → Keeps P (f a))
      → Keeps P (m >>= f)
  Keeps-bind m f km kf = record { from = λ s h. continue-Keeps (m s).0 f (m s).1 kf (km.from s h) }
