-- ===== src/Monitor/Pattern/Closure.antt =====
-- What `epsilon_closure` adds: the position behind each `*` that stands at a set position.
use fx_rs.Base.{
  ℕ, zero, suc, ◌+◌, ◌<◌, ◌≤◌, ◌≡◌, refl, true, ◌&&◌, ◌||◌, List, [], ◌∷◌, ◌⊎◌, inl, inr, some,
  arith, ltb, ◌==◌, if◌then◌else◌, get_elem?, length,
}
use fx_rs.Monitor.Pattern.{Positions, set_bit, bit_is_set, is_star, close_from}
use fx_rs.Monitor.Pattern.Bits.{bit-set_bit, length-set_bit}

-- The step of the loop at one token.
abbrev close_token : ℕ → ℕ → Positions → Positions
close_token index token s = if is_star token && bit_is_set s index then set_bit s (suc index) else s

length-close_token : (i t : ℕ) (s : Positions) → length (close_token i t s) ≡ length s
length-close_token i t s = ground (arith, length-set_bit s (suc i))

bit-close_token :
    (i t : ℕ) (s : Positions) (j : ℕ)
    → bit_is_set (close_token i t s) j
      ≡ ((is_star t && bit_is_set s i && suc i == j && ltb (suc i) (length s)) || bit_is_set s j)
bit-close_token i t s j = ground (arith, bit-set_bit s (suc i) j)

pub length-close_from : (i : ℕ) (q : List ℕ) (s : Positions) → length (close_from i q s) ≡ length s
unfolding close_from
length-close_from i [] s = refl
length-close_from i (t ∷ q) s =
    omega (arith, length-close_from (suc i) q (close_token i t s), length-close_token i t s)

pub close_from_mono :
    (i : ℕ) (q : List ℕ) (s : Positions) (j : ℕ)
    → bit_is_set s j ≡ true
    → bit_is_set (close_from i q s) j ≡ true
unfolding close_from
close_from_mono i [] s j h = h
close_from_mono i (t ∷ q) s j h =
    close_from_mono (suc i) q (close_token i t s) j (rw bit-close_token (ground arith))

-- The loop from `i` leaves the positions up to `i` as they are.
close_from-below :
    (i : ℕ) (q : List ℕ) (s : Positions) (j : ℕ)
    → j ≤ i
    → bit_is_set (close_from i q s) j ≡ bit_is_set s j
unfolding close_from
close_from-below i [] s j h = refl
close_from-below i (t ∷ q) s j h =
    ground (arith, close_from-below (suc i) q (close_token i t s) j, bit-close_token i t s j)

-- The result is closed under the stars of the pattern.
pub close_from-closed :
    (i n : ℕ) (q : List ℕ) (s : Positions) (k : ℕ) {t : ℕ}
    → k ≡ i + n
    → i + length q < length s
    → get_elem? q n ≡ some t
    → is_star t ≡ true
    → bit_is_set (close_from i q s) k ≡ true
    → bit_is_set (close_from i q s) (suc k) ≡ true
unfolding close_from
close_from-closed i n [] s k e b g st h = cc
close_from-closed i zero (t ∷ q) s k e b g st h =
    close_from_mono (suc i) q (close_token i t s) (suc k) (
      rw bit-close_token
        (ground (arith, close_from-below (suc i) q (close_token i t s) k, bit-close_token i t s k)))
close_from-closed i (suc n) (t ∷ q) s k e b g st h =
    close_from-closed (suc i) n q (close_token i t s) k (omega arith)
      (omega (arith, length-close_token i t s)) g st h

-- A position of the result with a star before it, that is set too.
abbrev pub Behind : ℕ → List ℕ → Positions → ℕ → Type 0
Behind i q r j =
    (k n t : ℕ) × (j ≡ suc k)
    × (k ≡ i + n)
    × (get_elem? q n ≡ some t)
    × (is_star t ≡ true)
    × (bit_is_set r k ≡ true)

close_token_sound :
    (i t : ℕ) (s : Positions) (j : ℕ)
    → bit_is_set (close_token i t s) j ≡ true
    → (bit_is_set s j ≡ true) ⊎ ((j ≡ suc i) × (is_star t ≡ true) × (bit_is_set s i ≡ true))
close_token_sound i t s j h = ground (arith, bit-close_token i t s j)

-- Each position of the result was there, or stands behind a star of the result.
pub close_from_sound :
    (i : ℕ) (q : List ℕ) (s : Positions) (j : ℕ)
    → bit_is_set (close_from i q s) j ≡ true
    → (bit_is_set s j ≡ true) ⊎ Behind i q (close_from i q s) j
unfolding close_from
close_from_sound i [] s j h = inl h
close_from_sound i (t ∷ q) s j h = elim (close_from_sound (suc i) q (close_token i t s) j h) [
  | inl old ↦ elim (close_token_sound i t s j old) [
    | inl older ↦ inl older
    | inr (e, st, at) ↦ inr (i, 0, t, e, omega arith, refl, st, close_from_mono i (t ∷ q) s i at)
  ]
  | inr (k, n, u, e, f, g, st, at) ↦ inr (k, suc n, u, e, omega arith, g, st, at)
]
