-- ===== src/CircuitBreaker.antt =====
-- src/circuit_breaker: the three-state breaker. Times are nanoseconds of the steady clock, handed to
-- each call. A call first loads the state and then acts; the value that it loaded is the argument
-- `seen` of the `…_seen` functions, so that it may be out of date when the call acts. The counts
-- are `int`s far below 2 ^ 31 (`IsValid` bounds them), so they are plain numbers.
pub mod Invariant
pub mod Behaviour
pub mod Probes
use rpc_framework.Prelude.{
  ℕ, ◌+◌, ◌-◌, ◌*◌, ◌≡◌, Bool, true, false, ltb, leb, ◌==◌, if◌then◌else◌, List, [], ◌∷◌,
}

pub data State : Type 0 where
  closed open_ half_open : State

pub record CircuitBreaker : Type 0 where
  pub state : State
  pub failure_count : ℕ
  pub failure_threshold : ℕ
  pub open_timeout : ℕ
  pub opened_at : ℕ
  pub half_open_requests : ℕ

abbrev pub second : ℕ
second = 1_000_000_000

-- `halfOpenTimeout_{5000}` milliseconds.
abbrev pub half_open_timeout : ℕ
half_open_timeout = 5 * second

unfoldable pub new : ℕ → ℕ → CircuitBreaker
new threshold timeout_sec = record {
  state = closed;
  failure_count = 0;
  failure_threshold = threshold;
  open_timeout = timeout_sec * second;
  opened_at = 0;
  half_open_requests = 0;
}

unfoldable pub transition_to_open : CircuitBreaker → ℕ → CircuitBreaker
transition_to_open b now = record b { opened_at = now; state = open_ }

unfoldable pub transition_to_half_open : CircuitBreaker → CircuitBreaker
transition_to_half_open b = record b { half_open_requests = 0; state = half_open }

unfoldable pub transition_to_closed : CircuitBreaker → CircuitBreaker
transition_to_closed b = record b { state = closed; failure_count = 0; half_open_requests = 0 }

-- `compare_exchange_strong(0, 1)` on the count of probes.
unfoldable pub claim_probe : CircuitBreaker → Bool × CircuitBreaker
claim_probe b =
    if b.half_open_requests == 0 then (true, record b { half_open_requests = 1 }) else (false, b)

-- The branch for a load of OPEN: the state is loaded again under the lock.
unfoldable pub allow_open : State → CircuitBreaker → ℕ → Bool × CircuitBreaker
unfolding claim_probe transition_to_half_open
allow_open closed b now = (true, b)
allow_open half_open b now = claim_probe b
allow_open open_ b now =
    if leb b.open_timeout (now - b.opened_at) then (true, transition_to_half_open b) else (false, b)

-- The branch for a load of HALF_OPEN: a probe that is out for too long is given up.
unfoldable pub allow_half_open : CircuitBreaker → ℕ → Bool × CircuitBreaker
unfolding claim_probe
allow_half_open b now = claim_probe (
    if leb half_open_timeout (now - b.opened_at)
    then record b { half_open_requests = 0; opened_at = now }
    else b)

unfoldable pub allow_request_seen : State → CircuitBreaker → ℕ → Bool × CircuitBreaker
unfolding allow_open allow_half_open
allow_request_seen closed b now = (true, b)
allow_request_seen open_ b now = allow_open b.state b now
allow_request_seen half_open b now = allow_half_open b now

unfoldable pub allow_request : CircuitBreaker → ℕ → Bool × CircuitBreaker
unfolding allow_request_seen
allow_request b now = allow_request_seen b.state b now

unfoldable pub record_success_seen : State → CircuitBreaker → CircuitBreaker
unfolding transition_to_closed
record_success_seen closed b = record b { failure_count = 0 }
record_success_seen half_open b = transition_to_closed b
record_success_seen open_ b = b

unfoldable pub record_success : CircuitBreaker → CircuitBreaker
unfolding record_success_seen
record_success b = record_success_seen b.state b

unfoldable pub record_failure_seen : State → CircuitBreaker → ℕ → CircuitBreaker
unfolding transition_to_open
record_failure_seen closed b now =
    let c = record b { failure_count = b.failure_count + 1 } in
    if leb b.failure_threshold (b.failure_count + 1) then transition_to_open c now else c
record_failure_seen half_open b now = transition_to_open b now
record_failure_seen open_ b now = b

unfoldable pub record_failure : CircuitBreaker → ℕ → CircuitBreaker
unfolding record_failure_seen
record_failure b now = record_failure_seen b.state b now

-- The calls of one user after another.
pub data Event : Type 0 where
  request : ℕ → Event
  success : Event
  failure : ℕ → Event

unfoldable pub step : CircuitBreaker → Event → CircuitBreaker
unfolding allow_request record_success record_failure
step b (request now) = (allow_request b now).1
step b success = record_success b
step b (failure now) = record_failure b now

unfoldable pub run : CircuitBreaker → List Event → CircuitBreaker
run b [] = b
run b (e ∷ es) = run (step b e) es
