-- ===== src/Monitor/Pattern.antt =====
-- The streaming glob matcher of a monitor (crates/fx-process/src/monitor.rs, lines 18, 598 to 634
-- and 693 to 710): a set of pattern positions that is advanced byte by byte. The five 64-bit words
-- of the set are the list of their bits, where bit `b` of word `w` has the index `64 * w + b`.
mod Bits
mod Closure
mod Advance
mod Simulation
pub mod Search
pub mod Stream
use fx_rs.Base.{
  ℕ, zero, suc, ◌+◌, ◌*◌, ◌/◌, Bool, true, false, ◌&&◌, ◌||◌, List, [], ◌∷◌, Result, ok, err, ltb,
  ◌==◌, if◌then◌else◌, get_or, set, replicate, length, is_nil,
}
use fx_rs.Monitor.Config.{MonitorError, invalid_pattern, maximum_pattern_bytes}

abbrev pub pattern_words : ℕ
pattern_words = (maximum_pattern_bytes + 1 + 63) / 64

abbrev pub pattern_bits : ℕ
pattern_bits = 64 * pattern_words

abbrev pub Positions : Type 0
Positions = List Bool

abbrev pub no_positions : Positions
no_positions = replicate pattern_bits false

unfoldable pub set_bit : Positions → ℕ → Positions
set_bit states index = set states index true

unfoldable pub bit_is_set : Positions → ℕ → Bool
bit_is_set states index = get_or states index false

abbrev pub is_star : ℕ → Bool
is_star token = token == b'*'

abbrev pub accepts_byte : Bool → ℕ → ℕ → Bool
accepts_byte wildcard token byte = token == byte || (wildcard && token == b'?')

unfoldable pub close_from : ℕ → List ℕ → Positions → Positions
unfolding set_bit bit_is_set
close_from index [] states = states
close_from index (token ∷ rest) states =
    close_from (suc index) rest
      (if is_star token && bit_is_set states index then set_bit states (suc index) else states)

unfoldable pub epsilon_closure : List ℕ → Bool → Positions → Positions
unfolding close_from
epsilon_closure pattern wildcard states = if wildcard then close_from 0 pattern states else states

-- The body of the loop over the pattern, at one token.
unfoldable pub advance_token : Bool → ℕ → ℕ → ℕ → Positions → Positions → Positions
unfolding set_bit bit_is_set
advance_token wildcard byte index token states next =
    if bit_is_set states index
    then if wildcard && is_star token
      then set_bit next index
      else if accepts_byte wildcard token byte
      then set_bit next (suc index)
      else next
    else next

unfoldable pub advance_from : Bool → ℕ → ℕ → List ℕ → Positions → Positions → Positions
unfolding advance_token
advance_from wildcard byte index [] states next = next
advance_from wildcard byte index (token ∷ rest) states next =
    advance_from wildcard byte (suc index) rest states
      (advance_token wildcard byte index token states next)

-- The body of the loop over the bytes.
unfoldable pub feed_byte : List ℕ → Bool → Positions → ℕ → Positions
feed_byte pattern wildcard states byte =
    epsilon_closure pattern wildcard
      (advance_from wildcard byte 0 pattern states (set_bit no_positions 0))

unfoldable pub feed_bytes : List ℕ → Bool → Positions → List ℕ → Bool × Positions
feed_bytes pattern wildcard states [] = (bit_is_set states (length pattern), states)
feed_bytes pattern wildcard states (byte ∷ bytes) =
    let next = feed_byte pattern wildcard states byte in
    let rest = feed_bytes pattern wildcard next bytes in
    if bit_is_set next (length pattern) then (true, next) else rest

-- The positions with which the loop over the bytes begins.
unfoldable pub prime : List ℕ → Bool → Positions → Positions
prime pattern wildcard states = epsilon_closure pattern wildcard (set_bit states 0)

unfoldable pub pattern_feed :
    List ℕ → Bool → Positions → List ℕ → Result MonitorError Bool × Positions
unfolding is_nil
pattern_feed pattern wildcard states bytes =
    if is_nil pattern || ltb maximum_pattern_bytes (length pattern)
    then (err invalid_pattern, states)
    else (let (accepted, after) =
          feed_bytes pattern wildcard (prime pattern wildcard states) bytes in
        (ok accepted, after))

unfoldable pub pattern_matches : List ℕ → Bool → List ℕ → Result MonitorError Bool
pattern_matches pattern wildcard bytes = (pattern_feed pattern wildcard no_positions bytes).0
