-- ===== src/Network/EventLoop.antt =====
-- src/network/event_loop.cc: the timers and the posted functors of an event loop, and one round of it.
-- Times are nanoseconds of the steady clock, and a duration that the caller gives in seconds is its
-- nanoseconds, 0 where it is negative. A functor or a timer's callback is known by a number, and
-- does what `acts` says with the loop that runs it; `fired` and `performed` are the timers and the functors
-- that have run, the latest first, and `posted` are the functors that were ever given to `queueInLoop`, in their order. The heap of the timers is a list in the order of `next_run`;
-- which of two timers of the same time runs first is left open by the heap, here the older one. A `shared_ptr<bool>` is
-- a cell with an address. A lock is held for one step. There are fewer than 2 ^ 64 timers.
pub mod Rounds
pub mod Due
pub mod Cancelling
pub mod Functors
pub mod Sleeping
pub mod Quitting
use rpc_framework.Prelude.{
  ℕ, suc, ◌+◌, ◌-◌, ◌*◌, ◌/◌, Bool, true, false, List, [], ◌∷◌, ◌++◌, Option, none, some, ltb, leb,
  ◌==◌, if◌then◌else◌, min, nat_eq,
}
use rpc_framework.Prelude.Table.{lookup, insert, erase}

pub record TimerTask : Type 0 where
  pub id : ℕ
  pub next_run : ℕ
  pub interval : ℕ
  pub callback : ℕ
  pub cancelled : ℕ

pub record EventLoop : Type 0 where
  pub timers : List TimerTask
  pub next_timer_id : ℕ
  pub timer_flags : List (ℕ × ℕ)
  pub cells : List (ℕ × Bool)
  pub pending_functors : List ℕ
  pub quit : Bool
  pub fired : List ℕ
  pub performed : List ℕ
  pub posted : List ℕ

abbrev pub new_loop : EventLoop
new_loop = record {
  timers = [];
  next_timer_id = 1;
  timer_flags = [];
  cells = [];
  pending_functors = [];
  quit = false;
  fired = [];
  performed = [];
  posted = [];
}

abbrev pub millisecond : ℕ
millisecond = 1_000_000

abbrev pub max_epoll_wait : ℕ
max_epoll_wait = 10000

-- `duration_cast<milliseconds>` rounds down.
abbrev pub whole_ms : ℕ → ℕ
whole_ms duration = duration / millisecond * millisecond

-- `timers_.push`.
unfoldable pub push : TimerTask → List TimerTask → List TimerTask
push t [] = t ∷ []
push t (x ∷ timers) =
    let rest = push t timers in if ltb t.next_run x.next_run then t ∷ (x ∷ timers) else x ∷ rest

-- A new timer, with its flag in a new cell.
abbrev pub add_timer : EventLoop → ℕ → ℕ → ℕ → EventLoop
add_timer l next_run interval cb =
    let id = l.next_timer_id in
    record l {
      next_timer_id = suc id;
      cells = insert id false l.cells;
      timer_flags = insert id id l.timer_flags;
      timers =
          push
            (record {
              id = id;
              next_run = next_run;
              interval = interval;
              callback = cb;
              cancelled = id;
            })
            l.timers;
    }

unfoldable pub run_after : EventLoop → ℕ → ℕ → ℕ → EventLoop
run_after l now delay cb = add_timer l (now + whole_ms delay) 0 cb

unfoldable pub run_every : EventLoop → ℕ → ℕ → ℕ → EventLoop
run_every l now interval cb =
    let d = whole_ms (if interval == 0 then millisecond else interval) in add_timer l (now + d) d cb

abbrev pub set_cell : EventLoop → Option ℕ → EventLoop
set_cell l none = l
set_cell l (some cell) = record l { cells = insert cell true l.cells }

unfoldable pub cancel_timer : EventLoop → ℕ → EventLoop
cancel_timer l id = set_cell l (lookup id l.timer_flags)

unfoldable pub queue_in_loop : EventLoop → ℕ → EventLoop
queue_in_loop l f = record l { pending_functors = l.pending_functors ++ (f ∷ []) }

-- What a callback does with the loop.
pub data Action : Type 0 where
  runs_after : ℕ → ℕ → Action
  runs_every : ℕ → ℕ → Action
  cancels : ℕ → Action
  posts : ℕ → Action
  quits : Action

abbrev pub act : EventLoop → ℕ → Action → EventLoop
act l now (runs_after delay cb) = run_after l now delay cb
act l now (runs_every interval cb) = run_every l now interval cb
act l now (cancels id) = cancel_timer l id
act l now (posts f) = queue_in_loop (record l { posted = l.posted ++ (f ∷ []) }) f
act l now quits = record l { quit = true }

unfoldable pub act_all : EventLoop → ℕ → List Action → EventLoop
act_all l now [] = l
act_all l now (a ∷ more) = act_all (act l now a) now more

abbrev pub is_set : Option Bool → Bool
is_set none = false
is_set (some b) = b

abbrev pub is_cancelled : List (ℕ × Bool) → TimerTask → Bool
is_cancelled cells t = is_set (lookup t.cancelled cells)

-- The expired tasks, with the flags and the timers that are left.
abbrev pub Collected : Type 0
Collected = List TimerTask × List (ℕ × ℕ) × List TimerTask

abbrev pub with_task : TimerTask → Collected → Collected
with_task t (expired, flags, left) = (t ∷ expired, flags, left)

-- The loop under the lock, which takes the top of the heap while it is due.
unfoldable pub collect : ℕ → List (ℕ × Bool) → List (ℕ × ℕ) → List TimerTask → Collected
collect now cells flags [] = ([], flags, [])
collect now cells flags (t ∷ timers) =
    let rest = collect now cells flags timers in
    let erased = collect now cells (erase t.id flags) timers in
    if leb t.next_run now
    then if is_cancelled cells t
      then erased
      else with_task t (if t.interval == 0 then erased else rest)
    else ([], flags, t ∷ timers)

abbrev pub renewed : EventLoop → TimerTask → EventLoop
renewed l t =
    if ltb 0 t.interval
    then record l { timers = push (record t { next_run = t.next_run + t.interval }) l.timers }
    else l

module _ (acts : ℕ → List Action) (now : ℕ) where
  -- A callback runs, and a periodic task goes back to the heap.
  unfoldable pub run_task : EventLoop → TimerTask → EventLoop
  run_task l t = renewed (act_all (record l { fired = t.id ∷ l.fired }) now (acts t.callback)) t

  unfoldable pub run_tasks : EventLoop → List TimerTask → EventLoop
  run_tasks l [] = l
  run_tasks l (t ∷ tasks) = run_tasks (run_task l t) tasks

  abbrev pub process_collected : EventLoop → Collected → EventLoop
  process_collected l (expired, flags, left) =
      run_tasks (record l { timer_flags = flags; timers = left }) expired

  -- The tasks are collected at `seen`, and their callbacks run at `now`.
  unfoldable pub process_timers : EventLoop → ℕ → EventLoop
  process_timers l seen = process_collected l (collect seen l.cells l.timer_flags l.timers)

  unfoldable pub perform_all : EventLoop → List ℕ → EventLoop
  perform_all l [] = l
  perform_all l (f ∷ functors) =
      perform_all (act_all (record l { performed = f ∷ l.performed }) now (acts f)) functors

  -- The functors are swapped out first.
  unfoldable pub do_pending_functors : EventLoop → EventLoop
  do_pending_functors l = perform_all (record l { pending_functors = [] }) l.pending_functors

-- The milliseconds up to the top of the heap, rounded down.
unfoldable pub next_timer_timeout_ms : List TimerTask → ℕ → ℕ
next_timer_timeout_ms [] now = max_epoll_wait
next_timer_timeout_ms (t ∷ timers) now =
    if leb t.next_run now then 0 else min ((t.next_run - now) / millisecond) max_epoll_wait

-- How long `loopOnce` waits; a bound that is negative is none.
abbrev pub bounded : Option ℕ → ℕ → ℕ
bounded none timeout = timeout
bounded (some max_wait) timeout = min max_wait timeout

unfoldable pub wait_ms : EventLoop → ℕ → Option ℕ → ℕ
wait_ms l now max_wait = bounded max_wait (next_timer_timeout_ms l.timers now)

-- What happens to a loop: the channels' handlers and other threads use it, and a round of it processes the
-- timers and then the functors.
pub data Event : Type 0 where
  uses : ℕ → Action → Event
  round : ℕ → ℕ → ℕ → Event

module _ (acts : ℕ → List Action) where
  abbrev pub step : EventLoop → Event → EventLoop
  step l (uses now a) = act l now a
  step l (round seen now later) = do_pending_functors acts later (process_timers acts now l seen)

  unfoldable pub run : EventLoop → List Event → EventLoop
  run l [] = l
  run l (e ∷ es) = run (step l e) es

  -- The loop of `loop`, for the given events: whether it has returned, and the loop. The flag is
  -- tested before each round.
  unfoldable pub spin : EventLoop → List Event → Bool × EventLoop
  spin l [] = (false, l)
  spin l (uses now a ∷ es) = spin (act l now a) es
  spin l (round seen now later ∷ es) =
      let rest = spin (step l (round seen now later)) es in if l.quit then (true, l) else rest

  unfoldable pub loop : EventLoop → List Event → Bool × EventLoop
  loop l es = spin (record l { quit = false }) es
