-- ===== src/Examples/Breakers.antt =====
-- A breaker with a threshold of two failures and a timeout of ten seconds.
use rpc_framework.Prelude.{◌<◌, ◌≡◌, refl, true, false, arith}
use rpc_framework.CircuitBreaker.{CircuitBreaker, open_, second, new, allow_request}
use rpc_framework.CircuitBreaker.Probes.{two_probes}

abbrev an_open : CircuitBreaker
an_open = record {
  state = open_;
  failure_count = 2;
  failure_threshold = 2;
  open_timeout = second;
  opened_at = 0;
  half_open_requests = 0;
}

new-counts : (new 2 10).failure_count < (new 2 10).failure_threshold
unfolding new
new-counts = omega arith

two_probes_example :
    ((allow_request an_open second).0 ≡ true)
    × ((allow_request (allow_request an_open second).1 second).0 ≡ true)
    × ((allow_request (allow_request (allow_request an_open second).1 second).1 second).0 ≡ false)
two_probes_example =
    two_probes an_open second second second refl (omega arith) (omega arith) (omega arith)
