-- ===== src/Monitor/Clock/Grid.antt =====
-- Deadlines advance on a grid, without drift.
use native.Mathlib.Nat.{div-add-mod, mod-lt}
use fx_rs.Base.{
  ℕ, max, ◌⊎◌, ◌+◌, ◌*◌, ◌/◌, ◌-◌, ◌≤◌, ◌<◌, ◌≡◌, false, ok, arith, ltb, if◌then◌else◌,
}
use fx_rs.Base.Int.{pos, i64_max}
use fx_rs.Monitor.Clock.{advance_deadline}

-- The number of intervals that the source adds, times the interval.
abbrev ahead : ℕ → ℕ → ℕ
ahead elapsed interval = (elapsed / interval + 1) * interval

ahead_bounds : (e i : ℕ) → 0 < i → (e < ahead e i) × (ahead e i ≤ e + i)
ahead_bounds e i h = grind (arith, div-add-mod e i, mod-lt e h)

div-le : (e i : ℕ) → 2 ≤ i → e / i + e / i ≤ e
div-le e i h = grind (arith, div-add-mod e i)

abbrev grid : ℕ → ℕ → ℕ → ℕ
grid current interval now =
    if ltb now current then current else current + ahead (now - current) interval

advance_deadline-grid_lem :
    (c i t : ℕ)
    → 2 ≤ i
    → t + i ≤ i64_max
    → c ≤ i64_max
    → advance_deadline (pos c) i (pos t) ≡ ok (pos (grid c i t))
unfolding advance_deadline
advance_deadline-grid_lem c i t h k l = ground (arith, ahead_bounds (t - c) i, div-le (t - c) i)

abbrev steps : ℕ → ℕ → ℕ → ℕ
steps current interval now = if ltb now current then 0 else (now - current) / interval + 1

-- From a deadline `c` at the time `t`, neither negative, and an interval of at least 2 ms with
-- `t + i` in range, the next deadline exists. It lies after `t` and a whole number of intervals
-- after `c`, and at most one interval after `t` or at `c`; if `c` was not due, it is `c`.
pub advance_deadline-grid :
    (c i t : ℕ)
    → 2 ≤ i
    → t + i ≤ i64_max
    → c ≤ i64_max
    → (r k : ℕ) × (advance_deadline (pos c) i (pos t) ≡ ok (pos r))
      × (t < r)
      × (r ≡ c + k * i)
      × (r ≤ max c (t + i))
      × ((ltb t c ≡ false) ⊎ (r ≡ c))
advance_deadline-grid c i t h p q = (
  grid c i t,
  steps c i t,
  advance_deadline-grid_lem c i t h p q,
  ground (arith, ahead_bounds (t - c) i),
  ground arith,
  ground (arith, ahead_bounds (t - c) i),
  ground arith,
)
