-- ===== src/Monitor/Create/Valid.antt =====
-- A monitor that was created passes its own integrity check.
use fx_rs.Base.{ℕ, ◌<◌, ◌≡◌, false, Option, Text, ok, arith, is_some_and}
use fx_rs.Base.Int.{ℤ, ◌<ℤ◌, leb_ℤ}
use fx_rs.Monitor.Config.{
  MonitorDefinition, MonitorLifetime, validate_definition, validate_lifetime,
}
use fx_rs.Monitor.Clock.{deadline}
use fx_rs.Monitor.State.{Monitor}
use fx_rs.Monitor.Create.{new, validate, optional_deadline, lifetime_ms}

-- A deadline lies the whole duration ahead.
deadline-lt : (now_ms : ℤ) (d : ℕ) {at : ℤ} → deadline now_ms d ≡ ok at → 0 < d → now_ms <ℤ at
unfolding deadline
deadline-lt now_ms d h p = ground arith

lifetime-later :
    (now_ms : ℤ) (l : MonitorLifetime) (at : Option ℤ)
    → validate_lifetime l ≡ ok tt
    → optional_deadline now_ms (lifetime_ms l) ≡ ok at
    → is_some_and at (λ t. leb_ℤ t now_ms) ≡ false
unfolding optional_deadline validate_lifetime deadline
lifetime-later now_ms l at v h = ground arith

valid_lifetime :
    (d : MonitorDefinition) → validate_definition d ≡ ok tt → validate_lifetime d.lifetime ≡ ok tt
unfolding validate_definition
valid_lifetime d h = ground arith

pub new-validate :
    (monitor_id : Text) (d : MonitorDefinition) (now_ms : ℤ) {m : Monitor}
    → new monitor_id d now_ms ≡ ok m
    → validate m ≡ ok tt
unfolding new validate
new-validate monitor_id d now_ms {m} h =
    ground
      (arith, valid_lifetime d, lifetime-later now_ms d.lifetime m.runtime.lifetime_deadline_ms)
