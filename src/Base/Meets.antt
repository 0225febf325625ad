-- ===== src/Base/Meets.antt =====
-- What results meet, one rule for each way to build a result.
use fx_rs.Base.{Result, ok, err, ◌>>=◌}
use fx_rs.Base.Yields.{Any, Meets}

pub Meets-Any : {E A : Type 0} (r : Result E A) → Meets Any Any r
Meets-Any (ok a) = tt
Meets-Any (err e) = tt

pub Meets-bind :
    {E A B : Type 0} (R : E → Type 0) (Q : A → Type 0) (T : B → Type 0) (r : Result E A)
    (f : A → Result E B)
    → Meets R Q r
    → ((a : A) → Q a → Meets R T (f a))
    → Meets R T (r >>= f)
Meets-bind R Q T (ok a) f h hf = hf a h
Meets-bind R Q T (err e) f h hf = h
