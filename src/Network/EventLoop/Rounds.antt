-- ===== src/Network/EventLoop/Rounds.antt =====
-- A rule for invariants of an event loop: what to show of an invariant, so that all that happens to a loop
-- keeps it.
use rpc_framework.Prelude.{ℕ, List, [], ◌∷◌}
use rpc_framework.Network.EventLoop.{
  TimerTask, EventLoop, Action, act, act_all, collect, Collected, renewed, run_task, run_tasks,
  process_collected, process_timers, perform_all, do_pending_functors, Event, uses, round, step,
  run,
}

abbrev pub All : (TimerTask → Type 0) → List TimerTask → Type 0
All P [] = Unit {0}
All P (t ∷ timers) = P t × All P timers

-- The collected timers have `J`, which they keep while they run.
abbrev pub Kept : (EventLoop → Type 0) → (TimerTask → Type 0) → EventLoop → Collected → Type 0
Kept I J l (expired, flags, left) =
    I (record l { timer_flags = flags; timers = left }) × All J expired

pub record Rule (I : EventLoop → Type 0) (J : TimerTask → Type 0) : Type 0 where
  pub acts : (l : EventLoop) (now : ℕ) (a : Action) → I l → I (act l now a)
  pub collects :
      (l : EventLoop) (now : ℕ) → I l → Kept I J l (collect now l.cells l.timer_flags l.timers)
  pub fires : (l : EventLoop) (t : TimerTask) → J t → I l → I (record l { fired = t.id ∷ l.fired })
  pub renews : (l : EventLoop) (t : TimerTask) → J t → I l → I (renewed l t)
  pub swaps : (l : EventLoop) → I l → I (record l { pending_functors = [] })
  pub performs : (l : EventLoop) (f : ℕ) → I l → I (record l { performed = f ∷ l.performed })

module _ {I : EventLoop → Type 0} {J : TimerTask → Type 0} (rule : Rule I J)
    (acts : ℕ → List Action) where
  act_all_ind : (l : EventLoop) (now : ℕ) (more : List Action) → I l → I (act_all l now more)
  unfolding act_all
  act_all_ind l now [] i = i
  act_all_ind l now (a ∷ more) i = act_all_ind (act l now a) now more (rule.acts l now a i)

  run_tasks_ind :
      (l : EventLoop) (now : ℕ) (tasks : List TimerTask)
      → All J tasks
      → I l
      → I (run_tasks acts now l tasks)
  unfolding run_tasks run_task
  run_tasks_ind l now [] j i = i
  run_tasks_ind l now (t ∷ tasks) j i = run_tasks_ind (run_task acts now l t) now tasks j.1 (
      rule.renews (act_all (record l { fired = t.id ∷ l.fired }) now (acts t.callback)) t j.0 (
        act_all_ind (record l { fired = t.id ∷ l.fired }) now (acts t.callback)
          (rule.fires l t j.0 i)))

  process_timers_ind : (l : EventLoop) (seen now : ℕ) → I l → I (process_timers acts now l seen)
  unfolding process_timers
  process_timers_ind l seen now i =
      by_collected (collect seen l.cells l.timer_flags l.timers) (rule.collects l seen i)
    where
      by_collected : (c : Collected) → Kept I J l c → I (process_collected acts now l c)
      by_collected (expired, flags, left) k =
          run_tasks_ind (record l { timer_flags = flags; timers = left }) now expired k.1 k.0

  perform_all_ind :
      (l : EventLoop) (now : ℕ) (functors : List ℕ) → I l → I (perform_all acts now l functors)
  unfolding perform_all
  perform_all_ind l now [] i = i
  perform_all_ind l now (f ∷ functors) i =
      perform_all_ind (act_all (record l { performed = f ∷ l.performed }) now (acts f)) now functors
        (act_all_ind (record l { performed = f ∷ l.performed }) now (acts f) (rule.performs l f i))

  pub step_ind : (l : EventLoop) (e : Event) → I l → I (step acts l e)
  unfolding do_pending_functors
  step_ind l (uses now a) i = rule.acts l now a i
  step_ind l (round seen now later) i =
      let p = process_timers acts now l seen in
      perform_all_ind (record p { pending_functors = [] }) later p.pending_functors
        (rule.swaps p (process_timers_ind l seen now i))

  pub run_ind : (l : EventLoop) (es : List Event) → I l → I (run acts l es)
  unfolding run
  run_ind l [] i = i
  run_ind l (e ∷ es) i = run_ind (step acts l e) es (step_ind l e i)
