-- ===== src/CircuitBreaker/Behaviour.antt =====
-- When the breaker opens, what it refuses while it is open, and how it comes back.
use rpc_framework.Prelude.{
  ℕ, ◌+◌, ◌-◌, ◌≤◌, ◌<◌, ◌≡◌, ◌⊎◌, ◌↔◌, inl, inr, true, false, List, [], ◌∷◌, arith,
}
use rpc_framework.CircuitBreaker.{
  CircuitBreaker, closed, open_, half_open, half_open_timeout, allow_request, record_success,
  record_failure, Event, failure, run, step,
}

-- Failures one after another, at the given times.
unfoldable pub failures : List ℕ → List Event
failures [] = []
failures (t ∷ ts) = failure t ∷ failures ts

unfoldable pub count_of : List ℕ → ℕ
count_of [] = 0
count_of (t ∷ ts) = count_of ts + 1

record_failure-open :
    (b : CircuitBreaker) (t : ℕ) → b.state ≡ open_ → (record_failure b t).state ≡ open_
unfolding record_failure
record_failure-open b t h = ground arith

open_stays :
    (b : CircuitBreaker) (ts : List ℕ) → b.state ≡ open_ → (run b (failures ts)).state ≡ open_
unfolding run step failures
open_stays b [] h = h
open_stays b (t ∷ ts) h = open_stays (record_failure b t) ts (record_failure-open b t h)

-- What one failure does to a closed breaker.
Opens : CircuitBreaker → CircuitBreaker → Type 0
Opens b b' =
    ((b.failure_count + 1 < b.failure_threshold)
      × (b'.state ≡ closed)
      × (b'.failure_count ≡ b.failure_count + 1)
      × (b'.failure_threshold ≡ b.failure_threshold))
    ⊎ ((b.failure_threshold ≤ b.failure_count + 1) × (b'.state ≡ open_))

record_failure-Opens :
    (b : CircuitBreaker) (t : ℕ) → b.state ≡ closed → Opens b (record_failure b t)
unfolding record_failure Opens
record_failure-Opens b t h = ground arith

-- A closed breaker that has counted fewer failures than its threshold is open after failures in a
-- row exactly when they reach the threshold together with the counted ones.
pub open-iff-threshold :
    (b : CircuitBreaker) (ts : List ℕ)
    → b.state ≡ closed
    → b.failure_count < b.failure_threshold
    → ((run b (failures ts)).state ≡ open_) ↔ (b.failure_threshold ≤ b.failure_count + count_of ts)
unfolding run step failures count_of Opens
open-iff-threshold b [] h less = ground arith
open-iff-threshold b (t ∷ ts) h less = elim (record_failure-Opens b t h) [
  | inl (below, shut, count, same) ↦
      let ih = open-iff-threshold (record_failure b t) ts shut (omega arith) in
      (λ o. omega (arith, ih.0 o), λ r. ih.1 (omega arith))
  | inr (reached, opened) ↦ (λ o. omega arith, λ r. open_stays (record_failure b t) ts opened)
]

-- While a breaker is open and its timeout has not passed, a request is refused and nothing changes.
pub open-refuses :
    (b : CircuitBreaker) (now : ℕ)
    → b.state ≡ open_
    → now - b.opened_at < b.open_timeout
    → allow_request b now ≡ (false, b)
unfolding allow_request
open-refuses b now h early = ground arith

-- The answer to a probe decides: from HALF_OPEN a success closes the breaker with its counts at
-- zero, and a failure opens it anew at the failure's time.
pub probe-decides :
    (b : CircuitBreaker) (now : ℕ)
    → b.state ≡ half_open
    → (record_success b ≡ record b { state = closed; failure_count = 0; half_open_requests = 0 })
      × (record_failure b now ≡ record b { state = open_; opened_at = now })
unfolding record_success record_failure
probe-decides b now h = ground arith

-- No breaker refuses for ever: whatever its state, a request is admitted once both timeouts have
-- passed since `opened_at`.
pub allow_request_of_late :
    (b : CircuitBreaker) (now : ℕ)
    → b.open_timeout ≤ now - b.opened_at
    → half_open_timeout ≤ now - b.opened_at
    → (allow_request b now).0 ≡ true
unfolding allow_request
allow_request_of_late b now h1 h2 = ground arith
