-- ===== src/CircuitBreaker/Invariant.antt =====
-- The counters of the breaker.
use rpc_framework.Prelude.{ℕ, ◌≤◌, ◌<◌, ◌≡◌, List, [], ◌∷◌, arith}
use rpc_framework.CircuitBreaker.{
  CircuitBreaker, State, closed, Event, request, success, failure, new, allow_request_seen,
  record_success_seen, step, run,
}

-- In CLOSED there is a failure to spare, and there never is more than one claimed probe.
pub record IsValid (b : CircuitBreaker) : Type 0 where
  pub spare : b.state ≡ closed → b.failure_count < b.failure_threshold
  pub counted : b.failure_count ≤ b.failure_threshold
  pub one_probe : b.half_open_requests ≤ 1

new-IsValid : (threshold timeout : ℕ) → 0 < threshold → IsValid (new threshold timeout)
unfolding new
new-IsValid threshold timeout h = ground arith

step-IsValid :
    (b : CircuitBreaker) (e : Event) → 0 < b.failure_threshold → IsValid b → IsValid (step b e)
unfolding step
step-IsValid b (request now) pos v = ground arith
step-IsValid b success pos v = ground arith
step-IsValid b (failure now) pos v = ground arith

threshold-step :
    (b : CircuitBreaker) (e : Event) → (step b e).failure_threshold ≡ b.failure_threshold
unfolding step
threshold-step b (request now) = ground arith
threshold-step b success = ground arith
threshold-step b (failure now) = ground arith

run-keeps :
    (b : CircuitBreaker) (es : List Event)
    → 0 < b.failure_threshold
    → IsValid b
    → IsValid (run b es)
unfolding run
run-keeps b [] pos v = v
run-keeps b (e ∷ es) pos v =
    run-keeps (step b e) es (omega (arith, threshold-step b e)) (step-IsValid b e pos v)

-- After any calls on a new breaker with a positive threshold, made one after another: while it is
-- CLOSED it has counted fewer failures than the threshold, it never has counted more, and at most
-- one probe is claimed.
pub run-IsValid :
    (threshold timeout : ℕ) (es : List Event)
    → 0 < threshold
    → IsValid (run (new threshold timeout) es)
run-IsValid threshold timeout es pos =
    run-keeps (new threshold timeout) es (unfold new in pos) (new-IsValid threshold timeout pos)

-- Also where the state that a request or a success has loaded is out of date, the claimed probes
-- stay at one, and neither of the two counts a failure.
pub stale-one_probe :
    (seen : State) (b : CircuitBreaker) (now : ℕ)
    → b.half_open_requests ≤ 1
    → ((allow_request_seen seen b now).1.half_open_requests ≤ 1)
      × ((record_success_seen seen b).half_open_requests ≤ 1)
      × ((allow_request_seen seen b now).1.failure_count ≡ b.failure_count)
unfolding allow_request_seen record_success_seen
stale-one_probe seen b now h = ground arith
