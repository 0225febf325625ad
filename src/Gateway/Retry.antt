-- ===== src/Gateway/Retry.antt =====
-- `SafeRetryGateway` (crates/fx-core/src/gateway.rs, lines 136 to 174). A gateway is a function of the
-- request and of the world, which it changes; it emits events on the way.
pub mod Attempts
use fx_rs.Base.{
  ℕ, zero, suc, ◌+◌, Bool, true, false, List, [], ◌∷◌, ◌++◌, ltb, if◌then◌else◌, Result, ok, err,
}
use fx_rs.Gateway.Types.{GatewayRequest, GatewayResponse, GatewayError, GatewayEvent}

-- One `complete`: the events, the result and the world behind it.
abbrev pub Answer : Type 0 → Type 0
Answer W = List GatewayEvent × Result GatewayError GatewayResponse × W

abbrev pub Gateway : Type 0 → Type 0 → Type 0
Gateway W V = GatewayRequest V → W → Answer W

abbrev pub max_unsent_retries_default : ℕ
max_unsent_retries_default = 1

abbrev pub is_unsent : Result GatewayError GatewayResponse → Bool
is_unsent (err GatewayError.definitely_unsent) = true
is_unsent _ = false

module _ {W V : Type 0} (inner : Gateway W V) (request : GatewayRequest V) where
  -- The loop with `left` retries left.
  unfoldable pub complete_from : ℕ → W → Answer W
  complete_from zero w = inner request w
  complete_from (suc left) w =
      let (events, result, w') = inner request w in
      let (events', result', w'') = complete_from left w' in
      if is_unsent result then (events ++ events', result', w'') else (events, result, w')
