-- ===== src/Base/Yields.antt =====
-- What methods yield, one rule for each way to build a method.
use fx_rs.Base.{Bool, true, false, Result, ok, err, if◌then◌else◌}
use fx_rs.Base.Exec.{Exec, pure, continue, ◌>>=◌}

-- A result whose error has `R` and whose value has `Q`.
abbrev pub Meets : {E A : Type 0} → (E → Type 0) → (A → Type 0) → Result E A → Type 0
Meets R Q (ok a) = Q a
Meets R Q (err e) = R e

-- Every value.
abbrev pub Any : {A : Type 0} → A → Type 0
Any a = Unit {0}

-- From every state, `m` fails with an error of `R` or yields a value of `Q`.
pub record Yields {E S A : Type 0} (R : E → Type 0) (Q : A → Type 0) (m : Exec E S A) : Type 0 where
  pub from : (s : S) → Meets R Q (m s).0

module _ {E S A : Type 0} {R : E → Type 0} {Q : A → Type 0} where
  pub Yields-pure : (a : A) → Q a → Yields {S = S} R Q (pure a)
  Yields-pure a h = record { from = λ s. h }

  pub Yields-if :
      (b : Bool) (m n : Exec E S A) → Yields R Q m → Yields R Q n → Yields R Q (if b then m else n)
  Yields-if true m n hm hn = hm
  Yields-if false m n hm hn = hn

module _ {E S A B : Type 0} {R : E → Type 0} {Q : A → Type 0} {T : B → Type 0} where
  continue-Meets :
      (r : Result E A) (f : A → Exec E S B) (s : S)
      → Meets R Q r
      → ((a : A) → Q a → Yields R T (f a))
      → Meets R T (continue r f s).0
  continue-Meets (ok a) f s h hf = (hf a h).from s
  continue-Meets (err e) f s h hf = h

  pub Yields-bind :
      (m : Exec E S A) (f : A → Exec E S B)
      → Yields R Q m
      → ((a : A) → Q a → Yields R T (f a))
      → Yields R T (m >>= f)
  Yields-bind m f hm hf = record { from = λ s. continue-Meets (m s).0 f (m s).1 (hm.from s) hf }

Meets-weaken :
    {E A : Type 0} (R : E → Type 0) (Q T : A → Type 0) (r : Result E A)
    → Meets R Q r
    → ((a : A) → Q a → T a)
    → Meets R T r
Meets-weaken R Q T (ok a) h w = w a h
Meets-weaken R Q T (err e) h w = h

module _ {E S A : Type 0} {R : E → Type 0} {Q T : A → Type 0} where
  pub Yields-weaken : (m : Exec E S A) → Yields R Q m → ((a : A) → Q a → T a) → Yields R T m
  Yields-weaken m h w = record { from = λ s. Meets-weaken R Q T (m s).0 (h.from s) w }

Meets-relax :
    {E A : Type 0} (R T : E → Type 0) (Q : A → Type 0) (r : Result E A)
    → Meets R Q r
    → ((e : E) → T e)
    → Meets T Q r
Meets-relax R T Q (ok a) h w = h
Meets-relax R T Q (err e) h w = w e

module _ {E S A : Type 0} {R T : E → Type 0} {Q : A → Type 0} where
  pub Yields-relax : (m : Exec E S A) → Yields R Q m → ((e : E) → T e) → Yields T Q m
  Yields-relax m h w = record { from = λ s. Meets-relax R T Q (m s).0 (h.from s) w }
