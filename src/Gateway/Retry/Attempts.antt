-- ===== src/Gateway/Retry/Attempts.antt =====
-- The attempts of a request (crates/fx-core/src/gateway.rs, lines 132 to 174).
use fx_rs.Base.{
  ℕ, zero, suc, ◌≤◌, ◌≡◌, refl, Bool, true, false, ◌++◌, if◌then◌else◌, Result, ok, err, arith,
}
use fx_rs.Gateway.Types.{GatewayRequest, GatewayResponse, GatewayError}
use fx_rs.Gateway.Retry.{Answer, Gateway, is_unsent, complete_from}

is_unsent-eq :
    (r : Result GatewayError GatewayResponse)
    → is_unsent r ≡ true
    → r ≡ err GatewayError.definitely_unsent
is_unsent-eq (err GatewayError.definitely_unsent) h = refl
is_unsent-eq (ok a) h = ground arith
is_unsent-eq (err GatewayError.cancelled) h = ground arith
is_unsent-eq (err GatewayError.authentication) h = ground arith
is_unsent-eq (err GatewayError.possibly_sent) h = ground arith
is_unsent-eq (err (GatewayError.rejected s)) h = ground arith
is_unsent-eq (err (GatewayError.invalid_response s)) h = ground arith
is_unsent-eq (err (GatewayError.unavailable s)) h = ground arith

-- `n` attempts one after the other, from a world on: each but the last one was not sent, and the
-- answer has the result of the last one and the events of all.
pub data Attempts {W V : Type 0} (inner : Gateway W V) (request : GatewayRequest V)
    : ℕ → W → Answer W → Type 0 where
  last : (w : W) → Attempts inner request 1 w (inner request w)
  again :
      (n : ℕ) (w : W) (answer : Answer W)
      → (inner request w).1 ≡ err GatewayError.definitely_unsent
      → Attempts inner request n (inner request w).2 answer
      → Attempts inner request (suc n) w ((inner request w).0 ++ answer.0, answer.1, answer.2)

-- What `complete_from` promises of an answer, with `left` retries.
abbrev pub Tried : {W V : Type 0} → Gateway W V → GatewayRequest V → ℕ → W → Answer W → Type 0
Tried inner request left w answer =
    (n : ℕ) × Attempts inner request n w answer
    × (1 ≤ n)
    × (n ≤ suc left)
    × (n ≤ left → is_unsent answer.1 ≡ false)

-- A request is tried at least once and at most once more for each retry. Every attempt but the last
-- failed before it was sent, so that nothing that may have been delivered is sent again; and where
-- a retry is left over, the last attempt did not fail so.
pub complete_from-Tried :
    {W V : Type 0} (inner : Gateway W V) (request : GatewayRequest V) (left : ℕ) (w : W)
    → Tried inner request left w (complete_from inner request left w)
unfolding complete_from
complete_from-Tried inner request zero w =
    (1, Attempts.last w, omega arith, omega arith, λ h. absurd (omega arith))
complete_from-Tried {W} inner request (suc left) w =
    either (is_unsent (inner request w).1) refl
      (complete_from-Tried inner request left (inner request w).2)
  where
    rest : Answer W
    rest = complete_from inner request left (inner request w).2

    either :
        (b : Bool)
        → is_unsent (inner request w).1 ≡ b
        → Tried inner request left (inner request w).2 rest
        → let answer : Answer W =
            (if b
              then ((inner request w).0 ++ rest.0, rest.1, rest.2)
              else ((inner request w).0, (inner request w).1, (inner request w).2)) in
          Tried inner request (suc left) w answer
    either true e (n, attempts, low, high, sent) = (
      suc n,
      Attempts.again n w rest (is_unsent-eq (inner request w).1 e) attempts,
      omega arith,
      omega arith,
      λ h. sent (omega arith),
    )
    either false e tried = (1, Attempts.last w, omega arith, omega arith, λ h. e)
