-- ===== src/Base/Slices.antt =====
-- Parts of lists, cut out by `take` and `drop`.
use Prim.Native.Nat.{ℕ, zero, suc, ◌+◌, ◌-◌, ◌≤◌}
use mathlib.Core.Path.{◌≡◌, refl, ap, ◌∙◌, subst}
use mathlib.Core.List.{List, [], ◌∷◌, ◌++◌}
use mathlib.Core.Option.{some}
use native.Mathlib.Numerals.{unary_clauses}
use native.Mathlib.Omega.{arith}
use fx_rs.Base.Lists.{length, take, drop, get_elem?}

module _ {ℓ} {A : Type ℓ} where
  -- `xs[from..to]`, in range.
  abbrev pub part : List A → ℕ → ℕ → List A
  part xs from to = take (to - from) (drop from xs)

  pub append_assoc : (xs ys zs : List A) → (xs ++ ys) ++ zs ≡ xs ++ (ys ++ zs)
  append_assoc [] ys zs = refl
  append_assoc (x ∷ xs) ys zs = ap (x ∷◌) (append_assoc xs ys zs)

  pub append_nil : (xs : List A) → xs ++ [] ≡ xs
  append_nil [] = refl
  append_nil (x ∷ xs) = ap (x ∷◌) (append_nil xs)

  pub take_all : (n : ℕ) (xs : List A) → n ≡ length xs → take n xs ≡ xs
  take_all zero [] h = refl
  take_all (suc n) [] h = refl
  take_all zero (x ∷ xs) h = ground arith
  take_all (suc n) (x ∷ xs) h = ap (x ∷◌) (take_all n xs (omega arith))

  take-+ : (m n : ℕ) (xs : List A) → take (m + n) xs ≡ take m xs ++ take n (drop m xs)
  take-+ zero n xs = let e : 0 + n ≡ n = omega arith in ap (λ k. take k xs) e
  take-+ (suc m) zero [] = simp unary_clauses refl
  take-+ (suc m) (suc n) [] = simp unary_clauses refl
  take-+ (suc m) n (x ∷ xs) =
      let e : suc (m + n) ≡ suc m + n = omega arith in
      subst (λ k. take k (x ∷ xs) ≡ x ∷ (take m xs ++ take n (drop m xs))) e
        (ap (x ∷◌) (take-+ m n xs))

  drop-drop : (m n : ℕ) (xs : List A) → drop m (drop n xs) ≡ drop (n + m) xs
  drop-drop m zero xs = let e : m ≡ 0 + m = omega arith in ap (λ k. drop k xs) e
  drop-drop zero (suc n) [] = simp unary_clauses refl
  drop-drop (suc m) (suc n) [] = simp unary_clauses refl
  drop-drop m (suc n) (x ∷ xs) =
      let e : suc (n + m) ≡ suc n + m = omega arith in
      subst (λ k. drop m (drop n xs) ≡ drop k (x ∷ xs)) e (drop-drop m n xs)

  -- Two parts that meet.
  pub part-join :
      (xs : List A) (from mid to : ℕ)
      → from ≤ mid
      → mid ≤ to
      → part xs from to ≡ part xs from mid ++ part xs mid to
  part-join xs from mid to h1 h2 =
      let e : to - from ≡ (mid - from) + (to - mid) = omega arith in
      let f : from + (mid - from) ≡ mid = omega arith in
      ap (λ k. take k (drop from xs)) e
      ∙ take-+ (mid - from) (to - mid) (drop from xs)
      ∙ ap (λ ys. part xs from mid ++ take (to - mid) ys)
          (drop-drop (mid - from) from xs ∙ ap (λ k. drop k xs) f)

  pub part-nil : (xs : List A) (i : ℕ) → part xs i i ≡ []
  part-nil xs i = let e : i - i ≡ 0 = omega arith in ap (λ k. take k (drop i xs)) e

  take-drop-one :
      (xs : List A) (i : ℕ) (x : A) → get_elem? xs i ≡ some x → take 1 (drop i xs) ≡ x ∷ []
  take-drop-one [] i x h = ground arith
  take-drop-one (y ∷ xs) zero x h = ground arith
  take-drop-one (y ∷ xs) (suc i) x h = take-drop-one xs i x h

  pub part-one :
      (xs : List A) (i : ℕ) (x : A) → get_elem? xs i ≡ some x → part xs i (suc i) ≡ x ∷ []
  part-one xs i x h =
      let e : suc i - i ≡ 1 = omega arith in ap (λ k. take k (drop i xs)) e ∙ take-drop-one xs i x h
