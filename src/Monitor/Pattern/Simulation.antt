-- ===== src/Monitor/Pattern/Simulation.antt =====
-- The set of positions after a byte, against the patterns that are left at its members.
use fx_rs.Base.{
  ℕ, zero, suc, ◌<◌, ◌≤◌, ◌≡◌, sym, ◌∙◌, Bool, true, false, ◌&&◌, List, [], ◌∷◌, ◌⊎◌, inl, inr,
  some, arith, ◌==◌, get_elem?, length, drop, Bool-cases,
}
use mathlib.Core.Path.{subst}
use native.Mathlib.Nat.{zero-add}
use fx_rs.Monitor.Pattern.{
  Positions, set_bit, bit_is_set, is_star, accepts_byte, close_from, epsilon_closure, advance_from,
  feed_byte, no_positions, pattern_bits,
}
use fx_rs.Monitor.Pattern.Bits.{
  bit-set_bit, length-set_bit, bit-none, drop-get, drop-suc, get-drop, get-lt, drop-nil,
}
use fx_rs.Monitor.Pattern.Closure.{
  length-close_from, close_from_mono, close_from-closed, close_from_sound,
}
use fx_rs.Monitor.Pattern.Advance.{
  passes, length-advance_from, advance_from_mono, advance_from_complete, advance_from_sound,
}

-- The pattern matches exactly this text: `*` any bytes and `?` one byte, if they are wildcards.
pub data Matches (w : Bool) : List ℕ → List ℕ → Type 0 where
  done : Matches w [] []
  skip : {t : ℕ} {p s : List ℕ} → (w && is_star t) ≡ true → Matches w p s → Matches w (t ∷ p) s
  more :
      {t b : ℕ} {p s : List ℕ}
      → (w && is_star t) ≡ true
      → Matches w (t ∷ p) s
      → Matches w (t ∷ p) (b ∷ s)
  one :
      {t b : ℕ} {p s : List ℕ}
      → (w && is_star t) ≡ false
      → accepts_byte w t b ≡ true
      → Matches w p s
      → Matches w (t ∷ p) (b ∷ s)

-- The closure property that the source's loops keep.
pub record IsClosed (w : Bool) (p : List ℕ) (s : Positions) : Type 0 where
  pub size : length s ≡ pattern_bits
  pub closed :
      (k t : ℕ)
      → get_elem? p k ≡ some t
      → (w && is_star t) ≡ true
      → bit_is_set s k ≡ true
      → bit_is_set s (suc k) ≡ true

pub epsilon_closure-IsClosed :
    (w : Bool) (p : List ℕ) (s : Positions)
    → length p < pattern_bits
    → length s ≡ pattern_bits
    → IsClosed w p (epsilon_closure p w s)
unfolding epsilon_closure
epsilon_closure-IsClosed false p s fits l = record { size = l; closed = λ k t g st h. cc }
epsilon_closure-IsClosed true p s fits l = record {
  size = length-close_from 0 p s ∙ l;
  closed = λ k t g st h. close_from-closed 0 k p s k (omega arith) (omega arith) g st h;
}

pub epsilon_closure_mono :
    (w : Bool) (p : List ℕ) (s : Positions) (j : ℕ)
    → bit_is_set s j ≡ true
    → bit_is_set (epsilon_closure p w s) j ≡ true
unfolding epsilon_closure
epsilon_closure_mono false p s j h = h
epsilon_closure_mono true p s j h = close_from_mono 0 p s j h

-- A text that a pattern behind a star matches is matched from the star on.
skip_back :
    (p : List ℕ) (k : ℕ) {t : ℕ} {x : List ℕ}
    → get_elem? p k ≡ some t
    → is_star t ≡ true
    → Matches true (drop (suc k) p) x
    → Matches true (drop k p) x
skip_back p k {x = x} g st m =
    subst (λ q. Matches true q x) (sym (get-drop p k g)) (Matches.skip st m)

-- What is left to match at a position of the closure is matched from a position before it.
close_from-Matches :
    (p : List ℕ) (s : Positions) (j : ℕ) (x : List ℕ)
    → bit_is_set (close_from 0 p s) j ≡ true
    → Matches true (drop j p) x
    → (k : ℕ) × (bit_is_set s k ≡ true) × Matches true (drop k p) x
close_from-Matches p s zero x h m = elim (close_from_sound 0 p s zero h) [
  | inl old ↦ (zero, old, m)
  | inr (k, n, t, e, f, g, st, at) ↦ absurd (omega arith)
]
close_from-Matches p s (suc j) x h m = elim (close_from_sound 0 p s (suc j) h) [
  | inl old ↦ (suc j, old, m)
  | inr (k, n, t, e, f, g, st, at) ↦
      let ek : k ≡ j = omega arith in
      let en : n ≡ j = omega arith in
      close_from-Matches p s j x (subst (λ i. bit_is_set (close_from 0 p s) i ≡ true) ek at)
        (skip_back p j (subst (λ i. get_elem? p i ≡ some t) en g) st m)
]

pub epsilon_closure-Matches :
    (w : Bool) (p : List ℕ) (s : Positions) (j : ℕ) (x : List ℕ)
    → bit_is_set (epsilon_closure p w s) j ≡ true
    → Matches w (drop j p) x
    → (k : ℕ) × (bit_is_set s k ≡ true) × Matches w (drop k p) x
unfolding epsilon_closure
epsilon_closure-Matches false p s j x h m = (j, h, m)
epsilon_closure-Matches true p s j x h m = close_from-Matches p s j x h m

-- The set with which the source begins each byte.
abbrev start : Positions
start = set_bit no_positions 0

start_size : length start ≡ pattern_bits
start_size = length-set_bit no_positions 0

start_bit : (j : ℕ) → bit_is_set start j ≡ (0 == j)
start_bit j = ground (arith, bit-set_bit no_positions 0 j, bit-none pattern_bits j)

start_only : (j : ℕ) → bit_is_set start j ≡ true → j ≡ 0
start_only j h = ground (arith, start_bit j)

advanced_size :
    (w : Bool) (b : ℕ) (p : List ℕ) (s : Positions)
    → length (advance_from w b 0 p s start) ≡ pattern_bits
advanced_size w b p s = length-advance_from w b 0 p s start ∙ start_size

pub feed_byte-IsClosed :
    (w : Bool) (p : List ℕ) (s : Positions) (b : ℕ)
    → length p < pattern_bits
    → IsClosed w p (feed_byte p w s b)
unfolding feed_byte
feed_byte-IsClosed w p s b fits =
    epsilon_closure-IsClosed w p (advance_from w b 0 p s start) fits (advanced_size w b p s)

-- The search can begin anew behind each byte.
pub feed_byte-start :
    (w : Bool) (p : List ℕ) (s : Positions) (b : ℕ)
    → length p < pattern_bits
    → bit_is_set (feed_byte p w s b) 0 ≡ true
unfolding feed_byte
feed_byte-start w p s b fits =
    epsilon_closure_mono w p (advance_from w b 0 p s start) 0
      (advance_from_mono w b 0 p s start 0 (omega (arith, start_size)) (start_bit 0))

step_to :
    (w : Bool) (p : List ℕ) (s : Positions) (b k j : ℕ) {t : ℕ}
    → length p < pattern_bits
    → get_elem? p k ≡ some t
    → bit_is_set s k ≡ true
    → passes w b k t j ≡ true
    → bit_is_set (feed_byte p w s b) j ≡ true
unfolding feed_byte
step_to w p s b k j fits g at h =
    epsilon_closure_mono w p (advance_from w b 0 p s start) j
      (advance_from_complete w b 0 k p s start k j (omega arith) (omega (arith, start_size)) g at h)

-- A text that can be matched from a position is matched, behind its first byte, from one after it.
pub feed_byte_complete :
    (w : Bool) (p : List ℕ) (s : Positions) (b : ℕ) (x : List ℕ) (k : ℕ) (q : List ℕ)
    → length p < pattern_bits
    → IsClosed w p s
    → drop k p ≡ q
    → bit_is_set s k ≡ true
    → Matches w q (b ∷ x)
    → (j : ℕ) × (j ≤ length p) × (bit_is_set (feed_byte p w s b) j ≡ true) × Matches w (drop j p) x
feed_byte_complete w p s b x k q fits c e at (Matches.skip {t} {p = r} h m) =
    feed_byte_complete w p s b x (suc k) r fits c (drop-suc p k e)
      (c.closed k t (drop-get p k e) h at) m
feed_byte_complete w p s b x k q fits c e at (Matches.more {t} h m) = (
  k,
  omega (arith, get-lt p k (drop-get p k e)),
  step_to w p s b k k fits (drop-get p k e) at (ground arith),
  subst (λ r. Matches w r x) (sym e) m,
)
feed_byte_complete w p s b x k q fits c e at (Matches.one {t} h a m) = (
  suc k,
  get-lt p k (drop-get p k e),
  step_to w p s b k (suc k) fits (drop-get p k e) at (ground arith),
  subst (λ r. Matches w r x) (sym (drop-suc p k e)) m,
)

-- A closed set reaches the end of the pattern where what is left matches the empty text.
pub IsClosed-end :
    (w : Bool) (p : List ℕ) (s : Positions) (k : ℕ) (q : List ℕ)
    → IsClosed w p s
    → k ≤ length p
    → drop k p ≡ q
    → bit_is_set s k ≡ true
    → Matches w q []
    → bit_is_set s (length p) ≡ true
IsClosed-end w p s k q c l e at Matches.done =
    subst (λ n. bit_is_set s n ≡ true) (drop-nil p k l e) at
IsClosed-end w p s k q c l e at (Matches.skip {t} {p = r} h m) =
    IsClosed-end w p s (suc k) r c (get-lt p k (drop-get p k e)) (drop-suc p k e)
      (c.closed k t (drop-get p k e) h at) m

before_step :
    (w : Bool) (p : List ℕ) (b i k t : ℕ) (x : List ℕ)
    → get_elem? p i ≡ some t
    → passes w b i t k ≡ true
    → Matches w (drop k p) x
    → Matches w (drop i p) (b ∷ x)
before_step w p b i k t x g h m = elim (Bool-cases (w && is_star t)) [
  | inl star ↦
      let here : Matches w (drop i p) x =
        subst (λ n. Matches w (drop n p) x) {y = i} (ground arith) m in
      subst (λ q. Matches w q (b ∷ x)) (sym (get-drop p i g))
        (Matches.more star (subst (λ q. Matches w q x) (get-drop p i g) here))
  | inr plain ↦
      subst (λ q. Matches w q (b ∷ x)) (sym (get-drop p i g))
        (Matches.one plain (ground arith)
          (subst (λ n. Matches w (drop n p) x) {y = suc i} (ground arith) m))
]

-- What is left to match at a position after a byte was left, with the byte, at one before it, or is
-- the whole pattern.
pub feed_byte_sound :
    (w : Bool) (p : List ℕ) (s : Positions) (b : ℕ) (x : List ℕ) (j : ℕ)
    → length p < pattern_bits
    → bit_is_set (feed_byte p w s b) j ≡ true
    → Matches w (drop j p) x
    → ((k : ℕ) × (bit_is_set s k ≡ true) × Matches w (drop k p) (b ∷ x)) ⊎ Matches w p x
unfolding feed_byte
feed_byte_sound w p s b x j fits h m =
    let (k, at, n) = epsilon_closure-Matches w p (advance_from w b 0 p s start) j x h m in
    elim (advance_from_sound w b 0 p s start k (omega (arith, start_size)) at) [
      | inl new ↦ inr (subst (λ i. Matches w (drop i p) x) {y = zero} (start_only k new) n)
      | inr (i, l, t, e, g, from, h) ↦
          inl (i, from, before_step w p b i k t x (rw e (rw zero-add g)) h n)
    ]
