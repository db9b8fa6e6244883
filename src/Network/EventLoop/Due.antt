-- ===== src/Network/EventLoop/Due.antt =====
-- The timers in the order of their times, and those that a round runs.
use rpc_framework.Prelude.{
  ℕ, ◌≤◌, ◌<◌, ◌≡◌, refl, Bool, not, ◌&&◌, List, [], ◌∷◌, Option, none, some, arith, ltb, leb, ◌==◌,
  if◌then◌else◌, nat_eq, if-elim,
}
use rpc_framework.Prelude.Table.{erase}
use rpc_framework.Network.EventLoop.{
  TimerTask, EventLoop, new_loop, push, Action, runs_after, runs_every, cancels, posts, quits, act,
  run_after, run_every, cancel_timer, set_cell, queue_in_loop, is_cancelled, collect, Collected,
  with_task, Event, run,
}
use rpc_framework.Network.EventLoop.Rounds.{All, Rule, Kept, run_ind}

abbrev pub AllFrom : ℕ → List TimerTask → Type 0
AllFrom time [] = Unit {0}
AllFrom time (t ∷ timers) = (time ≤ t.next_run) × AllFrom time timers

abbrev pub Sorted : List TimerTask → Type 0
Sorted [] = Unit {0}
Sorted (t ∷ timers) = AllFrom t.next_run timers × Sorted timers

AllFrom-le : (a b : ℕ) (timers : List TimerTask) → a ≤ b → AllFrom b timers → AllFrom a timers
AllFrom-le a b [] le from = tt
AllFrom-le a b (t ∷ timers) le from = (omega (arith, from.0), AllFrom-le a b timers le from.1)

push-AllFrom :
    (time : ℕ) (t : TimerTask) (timers : List TimerTask)
    → time ≤ t.next_run
    → AllFrom time timers
    → AllFrom time (push t timers)
unfolding push
push-AllFrom time t [] le from = (le, tt)
push-AllFrom time t (x ∷ timers) le from =
    if-elim (AllFrom time) (ltb t.next_run x.next_run) (λ _. (le, from))
      (λ _. (from.0, push-AllFrom time t timers le from.1))

push-Sorted : (t : TimerTask) (timers : List TimerTask) → Sorted timers → Sorted (push t timers)
unfolding push
push-Sorted t [] s = (tt, tt)
push-Sorted t (x ∷ timers) s =
    if-elim Sorted (ltb t.next_run x.next_run)
      (λ h. ((ground arith, AllFrom-le t.next_run x.next_run timers (ground arith) s.0), s))
      (λ h. (push-AllFrom x.next_run t timers (ground arith) s.0, push-Sorted t timers s.1))

abbrev pub keep_if : (TimerTask → Bool) → List TimerTask → List TimerTask
keep_if p [] = []
keep_if p (t ∷ timers) = let rest = keep_if p timers in if p t then t ∷ rest else rest

-- The timers that a round runs, and those that it leaves.
abbrev pub is_due : ℕ → List (ℕ × Bool) → TimerTask → Bool
is_due now cells t = leb t.next_run now && not (is_cancelled cells t)

abbrev pub is_later : ℕ → TimerTask → Bool
is_later now t = ltb now t.next_run

none_due :
    (now : ℕ) (cells : List (ℕ × Bool)) (timers : List TimerTask) (time : ℕ)
    → now < time
    → AllFrom time timers
    → (keep_if (is_due now cells) timers ≡ []) × (keep_if (is_later now) timers ≡ timers)
none_due now cells [] time lt from = (refl, refl)
none_due now cells (t ∷ timers) time lt from =
    ground (arith, none_due now cells timers time lt from.1)

-- Collecting divides the timers into those that are due and not cancelled and those that are not due.
abbrev pub Divides : ℕ → List (ℕ × Bool) → List TimerTask → Collected → Type 0
Divides now cells timers (expired, flags, left) =
    (expired ≡ keep_if (is_due now cells) timers) × (left ≡ keep_if (is_later now) timers)

collect-Divides :
    (now : ℕ) (cells : List (ℕ × Bool)) (flags : List (ℕ × ℕ)) (timers : List TimerTask)
    → Sorted timers
    → Divides now cells timers (collect now cells flags timers)
unfolding collect
collect-Divides now cells flags [] s = (refl, refl)
collect-Divides now cells flags (t ∷ timers) s = ground (
  arith,
  collect-Divides now cells flags timers s.1,
  collect-Divides now cells (erase t.id flags) timers s.1,
  none_due now cells timers t.next_run,
)

abbrev Left : Collected → Type 0
Left (expired, flags, left) = Sorted left

with_task-Left : (t : TimerTask) (c : Collected) → Left c → Left (with_task t c)
with_task-Left t (expired, flags, left) h = h

collect-Left :
    (now : ℕ) (cells : List (ℕ × Bool)) (flags : List (ℕ × ℕ)) (timers : List TimerTask)
    → Sorted timers
    → Left (collect now cells flags timers)
unfolding collect
collect-Left now cells flags [] s = tt
collect-Left now cells flags (t ∷ timers) s =
    let rest = collect-Left now cells flags timers s.1 in
    let erased = collect-Left now cells (erase t.id flags) timers s.1 in
    if-elim Left (leb t.next_run now)
      (λ _.
        if-elim Left (is_cancelled cells t) (λ _. erased)
          (λ _.
            with_task-Left t
              (if t.interval == 0
                then collect now cells (erase t.id flags) timers
                else collect now cells flags timers)
              (if-elim Left (t.interval == 0) (λ _. erased) (λ _. rest))))
      (λ _. s)

set_cell-timers : (l : EventLoop) (o : Option ℕ) → (set_cell l o).timers ≡ l.timers
set_cell-timers l none = refl
set_cell-timers l (some cell) = refl

act-Sorted : (l : EventLoop) (now : ℕ) (a : Action) → Sorted l.timers → Sorted (act l now a).timers
unfolding run_after run_every cancel_timer queue_in_loop
act-Sorted l now (runs_after delay cb) s = push-Sorted _ l.timers s
act-Sorted l now (runs_every interval cb) s = push-Sorted _ l.timers s
act-Sorted l now (cancels id) s = rw set_cell-timers s
act-Sorted l now (posts f) s = s
act-Sorted l now quits s = s

Sorted-rule : Rule (λ l. Sorted l.timers) (λ t. Unit {0})
Sorted-rule = record {
  acts = act-Sorted;
  collects = λ l now s.
      kept l (collect now l.cells l.timer_flags l.timers)
        (collect-Left now l.cells l.timer_flags l.timers s);
  fires = λ l t j s. s;
  renews = λ l t j s.
      if-elim (λ (m : EventLoop). Sorted m.timers) (ltb 0 t.interval)
        (λ _. push-Sorted _ l.timers s) (λ _. s);
  swaps = λ l s. s;
  performs = λ l f s. s;
}
  where
    each : (timers : List TimerTask) → All (λ t. Unit {0}) timers
    each [] = tt
    each (t ∷ timers) = (tt, each timers)

    kept :
        (l : EventLoop) (c : Collected) → Left c → Kept (λ m. Sorted m.timers) (λ t. Unit {0}) l c
    kept l (expired, flags, left) s = (s, each expired)

-- The timers of a new loop are in the order of their times, whatever happens to it.
pub run-Sorted : (acts : ℕ → List Action) (es : List Event) → Sorted (run acts new_loop es).timers
run-Sorted acts es = run_ind Sorted-rule acts new_loop es tt

-- Whatever has happened to a loop that was new, a round takes exactly the timers that are due and
-- not cancelled, the earlier one first, and leaves exactly those that are not due.
pub run-Divides :
    (acts : ℕ → List Action) (es : List Event) (now : ℕ)
    → let l = run acts new_loop es in
      Sorted l.timers × Divides now l.cells l.timers (collect now l.cells l.timer_flags l.timers)
run-Divides acts es now =
    let l = run acts new_loop es in
    let s = run-Sorted acts es in (s, collect-Divides now l.cells l.timer_flags l.timers s)
