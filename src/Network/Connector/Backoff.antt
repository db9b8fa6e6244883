-- ===== src/Network/Connector/Backoff.antt =====
-- The connector's sockets, its retries and their delays.
use rpc_framework.Prelude.{
  ℕ, zero, suc, ◌*◌, ◌^◌, ◌≤◌, ◌<◌, ◌≡◌, ◌≢◌, ap, ◌∙◌, inl, inr, true, false, List, [], ◌∷◌, arith,
  min, leb, Bool-cases, ◌+◌, subst,
}
use rpc_framework.Network.Connector.{
  Connector, ConnectorState, disconnected, connecting, connected, max_retry_delay, init_retry_delay,
  new_connector, retry, retry_closed, ConnectResult, transient, connect, start_in_loop, restart,
  stop_in_loop, handle_write, handle_error, timer_expires, Event, wants, starts, restarts, stops,
  writable, fails, expires, step, run,
}

-- While it connects the connector owns one socket, which it watches; else it owns none.
pub record IsValid (c : Connector) : Type 0 where
  pub owns_one : c.state ≡ connecting → (c.open_fds ≡ 1) × (c.watching ≡ true)
  pub owns_none : c.state ≢ connecting → (c.open_fds ≡ 0) × (c.watching ≡ false)
  pub not_short : init_retry_delay ≤ c.retry_delay
  pub not_long : c.retry_delay ≤ max_retry_delay

-- `start` asserts that nothing is under way, and its owner restarts it after a connection only.
abbrev pub Allowed : Connector → Event → Type 0
Allowed c (starts r) = c.state ≡ disconnected
Allowed c (restarts r) = c.state ≢ connecting
Allowed c _ = Unit {0}

unfoldable pub AllAllowed : Connector → List Event → Type 0
AllAllowed c [] = Unit {0}
AllAllowed c (e ∷ es) = Allowed c e × AllAllowed (step c e) es

step-IsValid : (c : Connector) (e : Event) → Allowed c e → IsValid c → IsValid (step c e)
unfolding step start_in_loop restart stop_in_loop handle_write handle_error timer_expires connect
    retry retry_closed
step-IsValid c (wants b) ok v = ground arith
step-IsValid c (starts r) ok v = ground arith
step-IsValid c (restarts r) ok v = ground arith
step-IsValid c stops ok v = ground arith
step-IsValid c (writable e) ok v = ground arith
step-IsValid c fails ok v = ground arith
step-IsValid c (expires r) ok v = ground arith

run-keeps : (c : Connector) (es : List Event) → AllAllowed c es → IsValid c → IsValid (run c es)
unfolding run AllAllowed
run-keeps c [] ok v = v
run-keeps c (e ∷ es) ok v = run-keeps (step c e) es ok.1 (step-IsValid c e ok.0 v)

-- Any events on a new connector, where it is started only while disconnected and restarted only
-- while not connecting: it owns one socket, watched, while it connects, and else none, and its delay stays between
-- 500 and 30000 milliseconds.
pub run-owns_one : (es : List Event) → AllAllowed new_connector es → IsValid (run new_connector es)
run-owns_one es ok = run-keeps new_connector es ok (ground arith)

abbrev is_connecting : ConnectorState → ℕ
is_connecting disconnected = 0
is_connecting connecting = 1
is_connecting connected = 0

-- A start or a restart while the connector still connects.
abbrev pub overlap : Connector → Event → ℕ
overlap c (starts r) = is_connecting c.state
overlap c (restarts r) = is_connecting c.state
overlap c _ = 0

pub overlaps : Connector → List Event → ℕ
overlaps c [] = 0
overlaps c (e ∷ es) = overlap c e + overlaps (step c e) es

-- One socket while it connects, beyond the sockets that overlapping starts may have left open.
pub record IsBounded (left_open : ℕ) (c : Connector) : Type 0 where
  pub few : c.open_fds ≤ is_connecting c.state + left_open
  pub has_one : c.state ≡ connecting → (1 ≤ c.open_fds) × (c.watching ≡ true)
  pub not_short : init_retry_delay ≤ c.retry_delay
  pub not_long : c.retry_delay ≤ max_retry_delay

step-IsBounded :
    (n : ℕ) (c : Connector) (e : Event) → IsBounded n c → IsBounded (overlap c e + n) (step c e)
unfolding step start_in_loop restart stop_in_loop handle_write handle_error timer_expires connect
    retry retry_closed
step-IsBounded n c (wants b) v = ground arith
step-IsBounded n c (starts r) v = ground arith
step-IsBounded n c (restarts r) v = ground arith
step-IsBounded n c stops v = ground arith
step-IsBounded n c (writable e) v = ground arith
step-IsBounded n c fails v = ground arith
step-IsBounded n c (expires r) v = ground arith

run-keeps_bound :
    (n : ℕ) (c : Connector) (es : List Event)
    → IsBounded n c
    → IsBounded (overlaps c es + n) (run c es)
unfolding run overlaps
run-keeps_bound n c [] v = subst (λ k. IsBounded k c) (omega arith) v
run-keeps_bound n c (e ∷ es) v =
    subst (λ k. IsBounded k (run (step c e) es)) (omega arith)
      (run-keeps_bound (overlap c e + n) (step c e) es (step-IsBounded n c e v))

-- Any events on a new connector: while it connects it owns a socket, which it watches. It owns no
-- other, and none while it does not connect, but for at most one for each start or restart that came
-- while it was connecting. Its delay stays between 500 and 30000 milliseconds.
pub run-IsBounded : (es : List Event) → IsBounded (overlaps new_connector es) (run new_connector es)
run-IsBounded es =
    subst (λ k. IsBounded k (run new_connector es)) (omega arith)
      (run-keeps_bound 0 new_connector es (ground arith))

-- Attempts that fail one after another, each in the timer of the one before.
unfoldable pub failing : ℕ → Connector → Connector
failing zero c = c
failing (suc n) c = failing n (timer_expires c transient)

failing-step :
    (c : Connector)
    → c.state ≡ disconnected
    → c.connect_ ≡ true
    → let d = timer_expires c transient in
      (d.state ≡ disconnected)
      × (d.connect_ ≡ true)
      × (d.retry_delay ≡ min (c.retry_delay * 2) max_retry_delay)
      × (1 ≤ d.timers)
      × (c.timers ≤ d.timers)
unfolding timer_expires start_in_loop connect retry retry_closed
failing-step c s w = ground arith

scale_min :
    (r p : ℕ)
    → min (min (r * 2) max_retry_delay * suc p) max_retry_delay
      ≡ min (r * (2 * suc p)) max_retry_delay
scale_min r p = elim (Bool-cases (leb (r * 2) max_retry_delay)) [
  | inl h ↦
      let e : min (r * 2) max_retry_delay ≡ r * 2 = ground arith in
      rw e (ap (λ (x : ℕ). min x max_retry_delay) (omega arith))
  | inr h ↦
      let e : min (r * 2) max_retry_delay ≡ max_retry_delay = ground arith in
      let le : max_retry_delay < r * 2 = ground arith in rw e (omega arith)
]

pow-pos : (n : ℕ) → 1 ≤ 2 ^ n
pow-pos zero = omega arith
pow-pos (suc n) = omega (arith, pow-pos n)

scale_pow :
    (r n : ℕ)
    → min (min (r * 2) max_retry_delay * 2 ^ n) max_retry_delay
      ≡ min (r * (2 * 2 ^ n)) max_retry_delay
scale_pow r n = with_pred (2 ^ n) (pow-pos n)
  where
    with_pred :
        (q : ℕ)
        → 1 ≤ q
        → min (min (r * 2) max_retry_delay * q) max_retry_delay ≡ min (r * (2 * q)) max_retry_delay
    with_pred zero h = omega arith
    with_pred (suc q) h = scale_min r q

-- A connector that is wanted and disconnected, with a delay of at most 30000 ms: after `n` failed attempts it is still both, and
-- after at least one a retry is scheduled; its delay has doubled each time up to 30000 ms.
pub failing-backs_off :
    (n : ℕ) (c : Connector)
    → c.state ≡ disconnected
    → c.connect_ ≡ true
    → c.retry_delay ≤ max_retry_delay
    → let d = failing n c in
      (d.state ≡ disconnected)
      × (d.connect_ ≡ true)
      × (d.retry_delay ≡ min (c.retry_delay * 2 ^ n) max_retry_delay)
      × (1 ≤ n → 1 ≤ d.timers)
      × (c.timers ≤ d.timers)
unfolding failing
failing-backs_off zero c s w le = (s, w, omega arith, λ h. omega arith, omega arith)
failing-backs_off (suc n) c s w le =
    let (s₁, w₁, d₁, t₁, k₁) = failing-step c s w in
    let (s₂, w₂, d₂, t₂, k₂) =
      failing-backs_off n (timer_expires c transient) s₁ w₁ (omega arith) in
    (
      s₂,
      w₂,
      d₂
          ∙ ap (λ (x : ℕ). min (x * 2 ^ n) max_retry_delay) d₁
          ∙ scale_pow c.retry_delay n
          ∙ ap (λ (x : ℕ). min (c.retry_delay * x) max_retry_delay) (omega arith),
      λ _. omega arith,
      omega arith,
    )

-- A stopped connector opens no socket: neither a start nor the timer of an old retry changes
-- its state or its sockets, and a connect that then succeeds is handed to nobody.
pub stopped-rests :
    (c : Connector) (r : ConnectResult)
    → c.connect_ ≡ false
    → (start_in_loop c r ≡ c)
      × ((timer_expires c r).state ≡ c.state)
      × ((timer_expires c r).open_fds ≡ c.open_fds)
      × ((handle_write c 0).handed ≡ c.handed)
      × ((stop_in_loop c).state ≢ connecting)
unfolding start_in_loop timer_expires handle_write stop_in_loop
stopped-rests c r off = ground arith
