-- ===== src/Monitor/Pattern/Stream.antt =====
-- Output may be fed in pieces: the stored set of positions carries the search across them.
use native.Mathlib.Nat.{zero-add}
use fx_rs.Base.{
  ℕ, zero, suc, ◌+◌, ◌<◌, ◌≤◌, ◌≡◌, refl, ap, sym, Bool, true, false, ◌&&◌, List, [], ◌∷◌, ◌++◌,
  some, ok, arith, if◌then◌else◌, length, get_or, set, get_elem?, Bool-cases, is_nil, inl, inr,
}
use fx_rs.Monitor.Config.{maximum_pattern_bytes}
use fx_rs.Monitor.Pattern.{
  Positions, set_bit, bit_is_set, is_star, close_from, epsilon_closure, feed_byte, feed_bytes,
  prime, pattern_feed, pattern_bits,
}
use fx_rs.Monitor.Pattern.Simulation.{IsClosed, feed_byte-IsClosed, feed_byte-start}
use fx_rs.Monitor.Pattern.Search.{prime-IsClosed, prime-start}

set_same : (s : Positions) (i : ℕ) → get_or s i false ≡ true → set s i true ≡ s
set_same [] i h = refl
set_same (b ∷ s) zero h = ap (λ c. c ∷ s) (sym h)
set_same (b ∷ s) (suc i) h = ap (λ r. b ∷ r) (set_same s i h)

set_bit_same : (s : Positions) (i : ℕ) → bit_is_set s i ≡ true → set_bit s i ≡ s
unfolding set_bit bit_is_set
set_bit_same s i h = set_same s i h

close_token_same :
    (s : Positions) (i t : ℕ)
    → (is_star t ≡ true → bit_is_set s i ≡ true → bit_is_set s (suc i) ≡ true)
    → (if is_star t && bit_is_set s i then set_bit s (suc i) else s) ≡ s
close_token_same s i t h = elim (Bool-cases (is_star t && bit_is_set s i)) [
  | inl both ↦ rw both (set_bit_same s (suc i) (h (ground arith) (ground arith)))
  | inr other ↦ rw other
]

close_from_same :
    (i : ℕ) (q : List ℕ) (s : Positions)
    → ((n k t : ℕ)
        → k ≡ i + n
        → get_elem? q n ≡ some t
        → is_star t ≡ true
        → bit_is_set s k ≡ true
        → bit_is_set s (suc k) ≡ true)
    → close_from i q s ≡ s
unfolding close_from
close_from_same i [] s h = refl
close_from_same i (t ∷ q) s h =
    rw (close_token_same s i t (λ st at. h 0 i t (omega arith) refl st at))
      (close_from_same (suc i) q s (λ n k u e g st at. h (suc n) k u (omega arith) g st at))

prime_same :
    (w : Bool) (p : List ℕ) (s : Positions)
    → IsClosed w p s
    → bit_is_set s 0 ≡ true
    → prime p w s ≡ s
unfolding prime epsilon_closure
prime_same false p s c h = set_bit_same s 0 h
prime_same true p s c h =
    rw (set_bit_same s 0 h)
      (close_from_same 0 p s (λ n k t e g st at. c.closed k t (rw e (rw zero-add g)) st at))

record IsPrimed (w : Bool) (p : List ℕ) (s : Positions) : Type 0 where
  is_closed : IsClosed w p s
  starts : bit_is_set s 0 ≡ true

feed_bytes-IsPrimed :
    (w : Bool) (p : List ℕ) (s : Positions) (x : List ℕ)
    → length p < pattern_bits
    → IsPrimed w p s
    → IsPrimed w p (feed_bytes p w s x).1
unfolding feed_bytes
feed_bytes-IsPrimed w p s [] fits h = h
feed_bytes-IsPrimed w p s (b ∷ x) fits h =
    elim (Bool-cases (bit_is_set (feed_byte p w s b) (length p))) [
      | inl at ↦ rw at next
      | inr more ↦ rw more (feed_bytes-IsPrimed w p (feed_byte p w s b) x fits next)
    ]
  where
    next : IsPrimed w p (feed_byte p w s b)
    next = record {
      is_closed = feed_byte-IsClosed w p s b fits;
      starts = feed_byte-start w p s b fits;
    }

feed_bytes-append :
    (w : Bool) (p : List ℕ) (s : Positions) (x y : List ℕ)
    → (feed_bytes p w s x).0 ≡ false
    → feed_bytes p w s (x ++ y) ≡ feed_bytes p w (feed_bytes p w s x).1 y
unfolding feed_bytes
feed_bytes-append w p s [] y h = refl
feed_bytes-append w p s (b ∷ x) y h =
    elim (Bool-cases (bit_is_set (feed_byte p w s b) (length p))) [
      | inl at ↦ ground arith
      | inr more ↦ rw more (feed_bytes-append w p (feed_byte p w s b) x y (ground arith))
    ]

pattern_feed-eq :
    (w : Bool) (p : List ℕ) (s : Positions) (x : List ℕ)
    → is_nil p ≡ false
    → length p ≤ maximum_pattern_bytes
    → pattern_feed p w s x
      ≡ (ok (feed_bytes p w (prime p w s) x).0, (feed_bytes p w (prime p w s) x).1)
unfolding pattern_feed
pattern_feed-eq w p s x n l = ground arith

-- A pattern of 1 to 256 bytes that was not found in one piece of output, from any stored set of
-- positions of the full size, answers on the next piece, from the set then stored, as it does on
-- the two pieces in one; the sets that are stored agree too.
pub pattern_feed-append :
    (w : Bool) (p : List ℕ) (s : Positions) (x y : List ℕ)
    → is_nil p ≡ false
    → length p ≤ maximum_pattern_bytes
    → length s ≡ pattern_bits
    → (pattern_feed p w s x).0 ≡ ok false
    → pattern_feed p w s (x ++ y) ≡ pattern_feed p w (pattern_feed p w s x).1 y
pattern_feed-append w p s x y n l z h =
    let first = feed_bytes p w (prime p w s) x in
    let unfound : first.0 ≡ false = cc (pattern_feed-eq w p s x n l) in
    let primed =
      feed_bytes-IsPrimed w p (prime p w s) x (omega arith) (record {
        is_closed = prime-IsClosed w p s (omega arith) z;
        starts = prime-start w p s z;
      }) in
    cc (
      pattern_feed-eq w p s (x ++ y) n l,
      feed_bytes-append w p (prime p w s) x y unfound,
      pattern_feed-eq w p s x n l,
      pattern_feed-eq w p first.1 y n l,
      prime_same w p first.1 primed.is_closed primed.starts,
    )
