-- ===== src/Monitor/Pattern/Bits.antt =====
-- Bits of a set of positions, and the tokens of a pattern by their index.
use fx_rs.Base.{
  ℕ, zero, suc, ◌<◌, ◌≤◌, ◌≡◌, refl, ap, true, false, ◌&&◌, ◌||◌, List, [], ◌∷◌, some, arith, ltb,
  ◌==◌, get_or, get_elem?, set, length, drop, length-set, replicate,
}
use fx_rs.Monitor.Pattern.{Positions, set_bit, bit_is_set}

pub get_or-set :
    (s : Positions) (i j : ℕ)
    → get_or (set s i true) j false ≡ ((i == j && ltb i (length s)) || get_or s j false)
get_or-set [] i j = ground arith
get_or-set (b ∷ s) zero zero = ground arith
get_or-set (b ∷ s) zero (suc j) = ground arith
get_or-set (b ∷ s) (suc i) zero = ground arith
get_or-set (b ∷ s) (suc i) (suc j) = ground (arith, get_or-set s i j)

-- A bit after a bit was set.
pub bit-set_bit :
    (s : Positions) (i j : ℕ)
    → bit_is_set (set_bit s i) j ≡ ((i == j && ltb i (length s)) || bit_is_set s j)
unfolding bit_is_set set_bit
bit-set_bit s i j = get_or-set s i j

pub length-set_bit : (s : Positions) (i : ℕ) → length (set_bit s i) ≡ length s
unfolding set_bit
length-set_bit s i = length-set s i true

pub bit-none : (n j : ℕ) → bit_is_set (replicate n false) j ≡ false
unfolding bit_is_set
bit-none zero j = refl
bit-none (suc n) zero = refl
bit-none (suc n) (suc j) = bit-none n j

pub drop-get : (p : List ℕ) (k : ℕ) {t : ℕ} {q : List ℕ} → drop k p ≡ t ∷ q → get_elem? p k ≡ some t
drop-get [] zero h = cc
drop-get [] (suc k) h = cc
drop-get (x ∷ p) zero h = ground arith
drop-get (x ∷ p) (suc k) h = drop-get p k h

pub drop-suc : (p : List ℕ) (k : ℕ) {t : ℕ} {q : List ℕ} → drop k p ≡ t ∷ q → drop (suc k) p ≡ q
drop-suc [] zero h = cc
drop-suc [] (suc k) h = cc
drop-suc (x ∷ p) zero h = ground arith
drop-suc (x ∷ p) (suc k) h = drop-suc p k h

pub get-drop : (p : List ℕ) (k : ℕ) {t : ℕ} → get_elem? p k ≡ some t → drop k p ≡ t ∷ drop (suc k) p
get-drop [] k h = cc
get-drop (x ∷ p) zero h = ground arith
get-drop (x ∷ p) (suc k) h = get-drop p k h

pub get-lt : (p : List ℕ) (k : ℕ) {t : ℕ} → get_elem? p k ≡ some t → k < length p
get-lt [] k h = cc
get-lt (x ∷ p) zero h = omega arith
get-lt (x ∷ p) (suc k) h = omega (arith, get-lt p k h)

pub drop-nil : (p : List ℕ) (k : ℕ) → k ≤ length p → drop k p ≡ [] → k ≡ length p
drop-nil [] zero h e = refl
drop-nil [] (suc k) h e = absurd (omega arith)
drop-nil (x ∷ p) zero h e = cc
drop-nil (x ∷ p) (suc k) h e = ap suc (drop-nil p k (omega arith) e)

pub drop_all : (p : List ℕ) → drop (length p) p ≡ []
drop_all [] = refl
drop_all (x ∷ p) = drop_all p
