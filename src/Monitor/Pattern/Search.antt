-- ===== src/Monitor/Pattern/Search.antt =====
-- The matcher finds exactly the texts that contain a match of the pattern, and may be fed in pieces.
use mathlib.Core.Path.{subst}
use fx_rs.Base.{
  ℕ, zero, ◌<◌, ◌≤◌, ◌≡◌, refl, sym, ap, ◌∙◌, ◌↔◌, Bool, true, false, List, [], ◌∷◌, ◌++◌, ◌⊎◌, inl,
  inr, ok, arith, length, drop, Bool-cases, is_nil,
}
use fx_rs.Monitor.Config.{maximum_pattern_bytes}
use fx_rs.Monitor.Pattern.{
  Positions, set_bit, bit_is_set, feed_byte, feed_bytes, prime, pattern_feed, pattern_matches,
  no_positions, pattern_bits,
}
use fx_rs.Monitor.Pattern.Bits.{bit-set_bit, length-set_bit, bit-none, drop_all}
use fx_rs.Monitor.Pattern.Simulation.{
  Matches, IsClosed, epsilon_closure-IsClosed, epsilon_closure_mono, epsilon_closure-Matches,
  feed_byte-IsClosed, feed_byte-start, feed_byte_complete, feed_byte_sound, IsClosed-end,
}

-- The pattern matches a beginning of the text.
abbrev Ahead : Bool → List ℕ → List ℕ → Type 0
Ahead w q x = (mid post : List ℕ) × (x ≡ mid ++ post) × Matches w q mid

-- The text contains a match of the pattern.
abbrev pub Contains : Bool → List ℕ → List ℕ → Type 0
Contains w p x = (before mid after : List ℕ) × (x ≡ before ++ (mid ++ after)) × Matches w p mid

-- What can still be matched from a set of positions.
abbrev Open : Bool → List ℕ → Positions → List ℕ → Type 0
Open w p s x = ((k : ℕ) × (bit_is_set s k ≡ true) × Ahead w (drop k p) x) ⊎ Contains w p x

Open-feed_byte :
    (w : Bool) (p : List ℕ) (s : Positions) (b : ℕ) (x : List ℕ)
    → length p < pattern_bits
    → Open w p (feed_byte p w s b) x
    → Open w p s (b ∷ x)
Open-feed_byte w p s b x fits (inl (j, at, (mid, post, e, m))) =
    elim (feed_byte_sound w p s b mid j fits at m) [
      | inl (k, from, m') ↦ inl (k, from, (b ∷ mid, post, ap (λ y. b ∷ y) e, m'))
      | inr m' ↦ inr (b ∷ [], mid, post, ap (λ y. b ∷ y) e, m')
    ]
Open-feed_byte w p s b x fits (inr (before, mid, after, e, m)) =
    inr (b ∷ before, mid, after, ap (λ y. b ∷ y) e, m)

Open-end :
    (w : Bool) (p : List ℕ) (s : Positions) (x : List ℕ)
    → bit_is_set s (length p) ≡ true
    → Open w p s x
Open-end w p s x h =
    inl (length p, h, ([], x, refl, subst (λ q. Matches w q []) (sym (drop_all p)) Matches.done))

feed_bytes_sound :
    (w : Bool) (p : List ℕ) (s : Positions) (x : List ℕ)
    → length p < pattern_bits
    → (feed_bytes p w s x).0 ≡ true
    → Open w p s x
unfolding feed_bytes
feed_bytes_sound w p s [] fits h = Open-end w p s [] h
feed_bytes_sound w p s (b ∷ x) fits h =
    Open-feed_byte w p s b x fits (elim (Bool-cases (bit_is_set (feed_byte p w s b) (length p))) [
      | inl at ↦ Open-end w p (feed_byte p w s b) x at
      | inr more ↦ feed_bytes_sound w p (feed_byte p w s b) x fits (ground arith)
    ])

feed_bytes-at_end :
    (w : Bool) (p : List ℕ) (s : Positions) (b : ℕ) (x : List ℕ)
    → bit_is_set (feed_byte p w s b) (length p) ≡ true
    → (feed_bytes p w s (b ∷ x)).0 ≡ true
unfolding feed_bytes
feed_bytes-at_end w p s b x h = ground arith

feed_bytes-go_on :
    (w : Bool) (p : List ℕ) (s : Positions) (b : ℕ) (x : List ℕ)
    → (feed_bytes p w (feed_byte p w s b) x).0 ≡ true
    → (feed_bytes p w s (b ∷ x)).0 ≡ true
unfolding feed_bytes
feed_bytes-go_on w p s b x h = ground arith

-- From a set position, with at least one byte to match.
feed_bytes-match :
    (w : Bool) (p : List ℕ) (s : Positions) (b : ℕ) (mid post : List ℕ) (k : ℕ)
    → length p < pattern_bits
    → IsClosed w p s
    → bit_is_set s k ≡ true
    → Matches w (drop k p) (b ∷ mid)
    → (feed_bytes p w s (b ∷ (mid ++ post))).0 ≡ true
feed_bytes-match w p s b [] post k fits c at m =
    let (j, l, to, m') = feed_byte_complete w p s b [] k (drop k p) fits c refl at m in
    feed_bytes-at_end w p s b post (
      IsClosed-end w p (feed_byte p w s b) j (drop j p) (feed_byte-IsClosed w p s b fits) l refl to
        m')
feed_bytes-match w p s b (d ∷ mid) post k fits c at m =
    let (j, l, to, m') = feed_byte_complete w p s b (d ∷ mid) k (drop k p) fits c refl at m in
    feed_bytes-go_on w p s b (d ∷ (mid ++ post)) (
      feed_bytes-match w p (feed_byte p w s b) d mid post j fits (feed_byte-IsClosed w p s b fits)
        to m')

feed_bytes_complete :
    (w : Bool) (p : List ℕ) (s : Positions) (before mid after : List ℕ)
    → length p < pattern_bits
    → IsClosed w p s
    → bit_is_set s 0 ≡ true
    → Matches w p mid
    → (feed_bytes p w s (before ++ (mid ++ after))).0 ≡ true
feed_bytes_complete w p s (b ∷ before) mid after fits c at m =
    feed_bytes-go_on w p s b (before ++ (mid ++ after)) (
      feed_bytes_complete w p (feed_byte p w s b) before mid after fits
        (feed_byte-IsClosed w p s b fits) (feed_byte-start w p s b fits) m)
feed_bytes_complete w p s [] (b ∷ mid) after fits c at m =
    feed_bytes-match w p s b mid after 0 fits c at m
feed_bytes_complete w p s [] [] (b ∷ after) fits c at m = feed_bytes-at_end w p s b after (
    IsClosed-end w p (feed_byte p w s b) 0 p (feed_byte-IsClosed w p s b fits) (omega arith) refl
      (feed_byte-start w p s b fits) m)
feed_bytes_complete w p s [] [] [] fits c at m =
    unfold feed_bytes in IsClosed-end w p s 0 p c (omega arith) refl at m

prime_size : (s : Positions) → length s ≡ pattern_bits → length (set_bit s 0) ≡ pattern_bits
prime_size s l = length-set_bit s 0 ∙ l

pub prime-IsClosed :
    (w : Bool) (p : List ℕ) (s : Positions)
    → length p < pattern_bits
    → length s ≡ pattern_bits
    → IsClosed w p (prime p w s)
unfolding prime
prime-IsClosed w p s fits l = epsilon_closure-IsClosed w p (set_bit s 0) fits (prime_size s l)

pub prime-start :
    (w : Bool) (p : List ℕ) (s : Positions)
    → length s ≡ pattern_bits
    → bit_is_set (prime p w s) 0 ≡ true
unfolding prime
prime-start w p s l = epsilon_closure_mono w p (set_bit s 0) 0 (ground (arith, bit-set_bit s 0 0))

first_only : (k : ℕ) → bit_is_set (set_bit no_positions 0) k ≡ true → k ≡ 0
first_only k h = ground (arith, bit-set_bit no_positions 0 k, bit-none pattern_bits k)

-- What can be matched from the first set of positions is matched from the start of the pattern.
Open-prime : (w : Bool) (p x : List ℕ) → Open w p (prime p w no_positions) x → Contains w p x
unfolding prime
Open-prime w p x (inr found) = found
Open-prime w p x (inl (j, at, (mid, post, e, m))) =
    let (k, from, m') = epsilon_closure-Matches w p (set_bit no_positions 0) j mid at m in
    ([], mid, post, e, subst (λ i. Matches w (drop i p) mid) {y = zero} (first_only k from) m')

pattern_matches-ok :
    (w : Bool) (p x : List ℕ)
    → is_nil p ≡ false
    → length p ≤ maximum_pattern_bytes
    → pattern_matches p w x ≡ ok (feed_bytes p w (prime p w no_positions) x).0
unfolding pattern_matches pattern_feed
pattern_matches-ok w p x n l = ground arith

-- On a pattern of 1 to 256 bytes the matcher succeeds, whatever the text, and its answer is `true`
-- exactly when the text contains a match of the pattern: in a wildcard pattern `*` stands for any
-- bytes and `?` for one byte, and each other byte for itself.
pub pattern_matches-Contains :
    (w : Bool) (p x : List ℕ)
    → is_nil p ≡ false
    → length p ≤ maximum_pattern_bytes
    → (b : Bool) × (pattern_matches p w x ≡ ok b) × ((b ≡ true) ↔ Contains w p x)
pattern_matches-Contains w p x n l = (
  (feed_bytes p w (prime p w no_positions) x).0,
  pattern_matches-ok w p x n l,
  (
    λ h. Open-prime w p x (feed_bytes_sound w p (prime p w no_positions) x (omega arith) h),
    λ found. contains_found found,
  ),
)
  where
    contains_found : Contains w p x → (feed_bytes p w (prime p w no_positions) x).0 ≡ true
    contains_found (before, mid, after, e, m) = rw e (
        feed_bytes_complete w p (prime p w no_positions) before mid after (omega arith)
          (prime-IsClosed w p no_positions (omega arith) refl) (prime-start w p no_positions refl)
          m)
