-- ===== src/CircuitBreaker/Probes.antt =====
-- How many probes are admitted around HALF_OPEN.
use rpc_framework.Prelude.{ℕ, ◌-◌, ◌≤◌, ◌<◌, ◌≡◌, true, false, arith}
use rpc_framework.CircuitBreaker.{CircuitBreaker, open_, half_open_timeout, allow_request}

-- Two probes are admitted: when the timeout of an open breaker has passed, the request that turns it
-- to HALF_OPEN is admitted, and so is the next one, and a third one is refused, where the probe
-- timeout has not passed since `opened_at` at the times of the second and the third.
pub two_probes :
    (b : CircuitBreaker) (t₁ t₂ t₃ : ℕ)
    → b.state ≡ open_
    → b.open_timeout ≤ t₁ - b.opened_at
    → t₂ - b.opened_at < half_open_timeout
    → t₃ - b.opened_at < half_open_timeout
    → ((allow_request b t₁).0 ≡ true)
      × ((allow_request (allow_request b t₁).1 t₂).0 ≡ true)
      × ((allow_request (allow_request (allow_request b t₁).1 t₂).1 t₃).0 ≡ false)
unfolding allow_request
two_probes b t₁ t₂ t₃ h late early₂ early₃ = ground arith
