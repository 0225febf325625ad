-- ===== src/Monitor/Pattern/Advance.antt =====
-- What one byte makes of a set of positions.
use fx_rs.Base.{
  ℕ, zero, suc, ◌+◌, ◌<◌, ◌≡◌, refl, Bool, true, ◌&&◌, ◌||◌, List, [], ◌∷◌, ◌⊎◌, inl, inr, some,
  arith, ◌==◌, if◌then◌else◌, get_elem?, length,
}
use fx_rs.Monitor.Pattern.{
  Positions, bit_is_set, is_star, accepts_byte, advance_token, advance_from,
}
use fx_rs.Monitor.Pattern.Bits.{bit-set_bit, length-set_bit}

-- The token at a position lets a byte pass to the position `j`.
abbrev pub passes : Bool → ℕ → ℕ → ℕ → ℕ → Bool
passes w b i t j = if w && is_star t then i == j else accepts_byte w t b && suc i == j

bit-advance_token :
    (w : Bool) (b i t : ℕ) (s next : Positions) (j : ℕ)
    → suc i < length next
    → bit_is_set (advance_token w b i t s next) j
      ≡ ((bit_is_set s i && passes w b i t j) || bit_is_set next j)
unfolding advance_token
bit-advance_token w b i t s next j h =
    ground (arith, bit-set_bit next i j, bit-set_bit next (suc i) j)

length-advance_token :
    (w : Bool) (b i t : ℕ) (s next : Positions)
    → length (advance_token w b i t s next) ≡ length next
unfolding advance_token
length-advance_token w b i t s next =
    ground (arith, length-set_bit next i, length-set_bit next (suc i))

pub length-advance_from :
    (w : Bool) (b i : ℕ) (q : List ℕ) (s next : Positions)
    → length (advance_from w b i q s next) ≡ length next
unfolding advance_from
length-advance_from w b i [] s next = refl
length-advance_from w b i (t ∷ q) s next = omega (
  arith,
  length-advance_from w b (suc i) q s (advance_token w b i t s next),
  length-advance_token w b i t s next,
)

pub advance_from_mono :
    (w : Bool) (b i : ℕ) (q : List ℕ) (s next : Positions) (j : ℕ)
    → i + length q < length next
    → bit_is_set next j ≡ true
    → bit_is_set (advance_from w b i q s next) j ≡ true
unfolding advance_from
advance_from_mono w b i [] s next j l h = h
advance_from_mono w b i (t ∷ q) s next j l h =
    advance_from_mono w b (suc i) q s (advance_token w b i t s next) j
      (omega (arith, length-advance_token w b i t s next))
      (ground (arith, bit-advance_token w b i t s next j))

-- A set position moves on to each position to which its token lets the byte pass.
pub advance_from_complete :
    (w : Bool) (b i n : ℕ) (q : List ℕ) (s next : Positions) (k j : ℕ) {u : ℕ}
    → k ≡ i + n
    → i + length q < length next
    → get_elem? q n ≡ some u
    → bit_is_set s k ≡ true
    → passes w b k u j ≡ true
    → bit_is_set (advance_from w b i q s next) j ≡ true
unfolding advance_from
advance_from_complete w b i n [] s next k j e l g h p = cc
advance_from_complete w b i zero (t ∷ q) s next k j {u} e l g h p =
    advance_from_mono w b (suc i) q s (advance_token w b i t s next) j
      (omega (arith, length-advance_token w b i t s next))
      (ground (arith, bit-advance_token w b i t s next j))
advance_from_complete w b i (suc n) (t ∷ q) s next k j e l g h p =
    advance_from_complete w b (suc i) n q s (advance_token w b i t s next) k j (omega arith)
      (omega (arith, length-advance_token w b i t s next)) g h p

-- A set position whose token lets the byte pass to `j`.
abbrev pub Before : Bool → ℕ → ℕ → List ℕ → Positions → ℕ → Type 0
Before w b i q s j =
    (k n t : ℕ) × (k ≡ i + n)
    × (get_elem? q n ≡ some t)
    × (bit_is_set s k ≡ true)
    × (passes w b k t j ≡ true)

advance_token_sound :
    (w : Bool) (b i t : ℕ) (s next : Positions) (j : ℕ)
    → suc i < length next
    → bit_is_set (advance_token w b i t s next) j ≡ true
    → (bit_is_set next j ≡ true) ⊎ ((bit_is_set s i ≡ true) × (passes w b i t j ≡ true))
advance_token_sound w b i t s next j l h = ground (arith, bit-advance_token w b i t s next j)

pub advance_from_sound :
    (w : Bool) (b i : ℕ) (q : List ℕ) (s next : Positions) (j : ℕ)
    → i + length q < length next
    → bit_is_set (advance_from w b i q s next) j ≡ true
    → (bit_is_set next j ≡ true) ⊎ Before w b i q s j
unfolding advance_from
advance_from_sound w b i [] s next j l h = inl h
advance_from_sound w b i (t ∷ q) s next j l h =
    elim (advance_from_sound w b (suc i) q s (advance_token w b i t s next) j
      (omega (arith, length-advance_token w b i t s next)) h) [
        | inl old ↦ elim (advance_token_sound w b i t s next j (omega arith) old) [
          | inl older ↦ inl older
          | inr (at, p) ↦ inr (i, 0, t, omega arith, refl, at, p)
        ]
        | inr (k, n, u, e, g, at, p) ↦ inr (k, suc n, u, omega arith, g, at, p)
      ]
