-- ===== src/Network/EventLoop/Sleeping.antt =====
-- How long a loop sleeps.
use rpc_framework.Prelude.{ℕ, ◌-◌, ◌*◌, ◌≤◌, List, [], ◌∷◌, Option, none, some, arith, leb, if-elim}
use rpc_framework.Network.EventLoop.{
  TimerTask, new_loop, millisecond, max_epoll_wait, next_timer_timeout_ms, bounded, wait_ms, Action,
  Event, run,
}
use rpc_framework.Network.EventLoop.Rounds.{All}
use rpc_framework.Network.EventLoop.Due.{AllFrom, Sorted, run-Sorted}

-- A sleep of so many milliseconds from now on ends before the timer is due.
abbrev pub EndsBefore : ℕ → ℕ → TimerTask → Type 0
EndsBefore wait now t = wait * millisecond ≤ t.next_run - now

all_from :
    (wait now time : ℕ) (timers : List TimerTask)
    → wait * millisecond ≤ time - now
    → AllFrom time timers
    → All (EndsBefore wait now) timers
all_from wait now time [] le from = tt
all_from wait now time (t ∷ timers) le from =
    (omega (arith, from.0), all_from wait now time timers le from.1)

-- What `getNextTimerTimeoutMs` promises: it is at most so long up to the next timer, and at most ten
-- seconds.
abbrev pub InTime : List TimerTask → ℕ → ℕ → Type 0
InTime [] now wait = wait ≤ max_epoll_wait
InTime (t ∷ timers) now wait = EndsBefore wait now t × (wait ≤ max_epoll_wait)

timeout-InTime :
    (timers : List TimerTask) (now : ℕ) → InTime timers now (next_timer_timeout_ms timers now)
unfolding next_timer_timeout_ms
timeout-InTime [] now = omega arith
timeout-InTime (t ∷ timers) now =
    if-elim (InTime (t ∷ timers) now) (leb t.next_run now) (λ _. (omega arith, omega arith))
      (λ _. (omega arith, omega arith))

bounded-le : (max_wait : Option ℕ) (wait : ℕ) → bounded max_wait wait ≤ wait
bounded-le none wait = omega arith
bounded-le (some m) wait = omega arith

InTime-All :
    (timers : List TimerTask) (now wait less : ℕ)
    → Sorted timers
    → InTime timers now wait
    → less ≤ wait
    → All (EndsBefore less now) timers × (less ≤ max_epoll_wait)
InTime-All [] now wait less s t le = (tt, omega (arith, t))
InTime-All (t ∷ timers) now wait less s (before, most) le =
    let ends : EndsBefore less now t = omega (arith, before) in
    ((ends, all_from less now t.next_run timers ends s.0), omega arith)

-- Whatever has happened to a loop that was new, a round of it does not sleep past the time of any of
-- its timers, and never for more than ten seconds, whatever the bound that the caller gives.
pub wait_ms-in_time :
    (acts : ℕ → List Action) (es : List Event) (now : ℕ) (max_wait : Option ℕ)
    → let l = run acts new_loop es in
      All (EndsBefore (wait_ms l now max_wait) now) l.timers
      × (wait_ms l now max_wait ≤ max_epoll_wait)
unfolding wait_ms
wait_ms-in_time acts es now max_wait =
    let l = run acts new_loop es in
    let wait = next_timer_timeout_ms l.timers now in
    InTime-All l.timers now wait (bounded max_wait wait) (run-Sorted acts es)
      (timeout-InTime l.timers now) (bounded-le max_wait wait)
