-- ===== src/Network/EventLoop/Functors.antt =====
-- The order in which posted functors run.
use rpc_framework.Prelude.{
  ℕ, ◌≡◌, refl, sym, ap, ◌∙◌, List, [], ◌∷◌, ◌++◌, Option, none, some, ltb, if-elim, nat_eq,
}
use mathlib.Core.List.{append-nil, append_assoc}
use rpc_framework.Prelude.Table.{lookup}
use rpc_framework.Network.EventLoop.{
  TimerTask, EventLoop, Action, runs_after, runs_every, cancels, posts, quits, act, act_all,
  run_after, run_every, cancel_timer, set_cell, queue_in_loop, collect, Collected, renewed,
  run_task, run_tasks, process_collected, process_timers, perform_all, do_pending_functors, Event,
  uses, round, step, run,
}

-- A log, which has the latest first, before what follows it.
abbrev pub onto : List ℕ → List ℕ → List ℕ
onto [] done = done
onto (f ∷ log) done = onto log (f ∷ done)

-- The functors in the order in which they were posted, those that have run and those that wait.
abbrev pub in_order : EventLoop → List ℕ
in_order l = onto l.performed l.pending_functors

-- From one loop to the next the order stays, and exactly the functors that were posted in between
-- come after it.
abbrev pub Extends : EventLoop → EventLoop → Type 0
Extends l l' = (new : List ℕ) × (in_order l' ≡ in_order l ++ new) × (l'.posted ≡ l.posted ++ new)

-- The functors that have run are the same, and new ones wait after those that did.
abbrev pub Waits : EventLoop → EventLoop → Type 0
Waits l l' =
    (l'.performed ≡ l.performed)
    × ((new : List ℕ) × (l'.pending_functors ≡ l.pending_functors ++ new)
        × (l'.posted ≡ l.posted ++ new))

Waits-refl : (l : EventLoop) → Waits l l
Waits-refl l = (refl, ([], sym (append-nil l.pending_functors), sym (append-nil l.posted)))

Waits-trans : (l l' l'' : EventLoop) → Waits l l' → Waits l' l'' → Waits l l''
Waits-trans l l' l'' (same, (xs, e, f)) (same', (ys, e', f')) = (
  same' ∙ same,
  (
    xs ++ ys,
    e' ∙ ap (λ (p : List ℕ). p ++ ys) e ∙ append_assoc l.pending_functors xs ys,
    f' ∙ ap (λ (p : List ℕ). p ++ ys) f ∙ append_assoc l.posted xs ys,
  ),
)

act-Waits : (l : EventLoop) (now : ℕ) (a : Action) → Waits l (act l now a)
unfolding run_after run_every cancel_timer queue_in_loop
act-Waits l now (runs_after delay cb) = Waits-refl l
act-Waits l now (runs_every interval cb) = Waits-refl l
act-Waits l now (cancels id) = by_cell (lookup id l.timer_flags)
  where
    by_cell : (o : Option ℕ) → Waits l (set_cell l o)
    by_cell none = Waits-refl l
    by_cell (some cell) = Waits-refl l
act-Waits l now (posts f) = (refl, (f ∷ [], refl, refl))
act-Waits l now quits = Waits-refl l

act_all-Waits : (l : EventLoop) (now : ℕ) (more : List Action) → Waits l (act_all l now more)
unfolding act_all
act_all-Waits l now [] = Waits-refl l
act_all-Waits l now (a ∷ more) =
    Waits-trans l (act l now a) (act_all (act l now a) now more) (act-Waits l now a)
      (act_all-Waits (act l now a) now more)

renewed-Waits : (l l' : EventLoop) (t : TimerTask) → Waits l l' → Waits l (renewed l' t)
renewed-Waits l l' t w = if-elim (Waits l) (ltb 0 t.interval) (λ _. w) (λ _. w)

module _ (acts : ℕ → List Action) (now : ℕ) where
  run_tasks-Waits : (l : EventLoop) (tasks : List TimerTask) → Waits l (run_tasks acts now l tasks)
  unfolding run_tasks run_task
  run_tasks-Waits l [] = Waits-refl l
  run_tasks-Waits l (t ∷ tasks) =
      let l' = record l { fired = t.id ∷ l.fired } in
      Waits-trans l (run_task acts now l t) (run_tasks acts now (run_task acts now l t) tasks)
        (renewed-Waits l (act_all l' now (acts t.callback)) t
          (act_all-Waits l' now (acts t.callback)))
        (run_tasks-Waits (run_task acts now l t) tasks)

  process_timers-Waits : (l : EventLoop) (seen : ℕ) → Waits l (process_timers acts now l seen)
  unfolding process_timers
  process_timers-Waits l seen = by_collected (collect seen l.cells l.timer_flags l.timers)
    where
      by_collected : (c : Collected) → Waits l (process_collected acts now l c)
      by_collected (expired, flags, left) =
          run_tasks-Waits (record l { timer_flags = flags; timers = left }) expired

  -- The functors that run are those that were swapped out, and what they post waits.
  perform_all-Waits :
      (l : EventLoop) (functors : List ℕ)
      → Waits (record l { performed = onto functors l.performed }) (perform_all acts now l functors)
  unfolding perform_all
  perform_all-Waits l [] = Waits-refl l
  perform_all-Waits l (f ∷ functors) =
      let l' = record l { performed = f ∷ l.performed } in
      let m = act_all l' now (acts f) in
      let (same, grows) = act_all-Waits l' now (acts f) in
      Waits-trans (record l { performed = onto functors (f ∷ l.performed) })
        (record m { performed = onto functors m.performed }) (perform_all acts now m functors)
        (ap (onto functors) same, grows) (perform_all-Waits m functors)

  -- A round of functors runs exactly those that waited, in their order and each once; what they post
  -- meanwhile waits for the next round.
  pub do_pending_functors-drains :
      (l : EventLoop)
      → (do_pending_functors acts now l).performed ≡ onto l.pending_functors l.performed
  unfolding do_pending_functors
  do_pending_functors-drains l =
      (perform_all-Waits (record l { pending_functors = [] }) l.pending_functors).0

onto-append : (log xs ys : List ℕ) → onto log (xs ++ ys) ≡ onto log xs ++ ys
onto-append [] xs ys = refl
onto-append (f ∷ log) xs ys = onto-append log (f ∷ xs) ys

onto-onto : (xs log rest : List ℕ) → onto (onto xs log) rest ≡ onto log (xs ++ rest)
onto-onto [] log rest = refl
onto-onto (x ∷ xs) log rest = onto-onto xs (x ∷ log) rest

Waits-Extends : (l l' : EventLoop) → Waits l l' → Extends l l'
Waits-Extends l l' (same, (new, grows, given)) = (
  new,
  ap (λ (log : List ℕ). onto log l'.pending_functors) same
      ∙ ap (onto l.performed) grows
      ∙ onto-append l.performed l.pending_functors new,
  given,
)

Extends-trans : (l l' l'' : EventLoop) → Extends l l' → Extends l' l'' → Extends l l''
Extends-trans l l' l'' (xs, e, f) (ys, e', f') = (
  xs ++ ys,
  e' ∙ ap (λ (p : List ℕ). p ++ ys) e ∙ append_assoc (in_order l) xs ys,
  f' ∙ ap (λ (p : List ℕ). p ++ ys) f ∙ append_assoc l.posted xs ys,
)

module _ (acts : ℕ → List Action) where
  do_pending_functors-Extends :
      (now : ℕ) (l : EventLoop) → Extends l (do_pending_functors acts now l)
  unfolding do_pending_functors
  do_pending_functors-Extends now l =
      let (ran, (new, waits, given)) =
        perform_all-Waits acts now (record l { pending_functors = [] }) l.pending_functors in
      (
        new,
        ap (λ (log : List ℕ). onto log (do_pending_functors acts now l).pending_functors) ran
            ∙ ap (onto (onto l.pending_functors l.performed)) waits
            ∙ onto-onto l.pending_functors l.performed new
            ∙ onto-append l.performed l.pending_functors new,
        given,
      )

  step-Extends : (l : EventLoop) (e : Event) → Extends l (step acts l e)
  step-Extends l (uses now a) = Waits-Extends l (act l now a) (act-Waits l now a)
  step-Extends l (round seen now later) =
      let p = process_timers acts now l seen in
      Extends-trans l p (do_pending_functors acts later p)
        (Waits-Extends l p (process_timers-Waits acts now l seen))
        (do_pending_functors-Extends later p)

  -- First in, first out, over any events, posts from other threads, from timers and from functors
  -- among them: the functors that have run, in their order, and after them those that wait, get
  -- exactly the functors that are posted meanwhile, at the end and in the order of the posts. So
  -- none is lost, runs more often than it was posted or overtakes another.
  pub run-Extends : (l : EventLoop) (es : List Event) → Extends l (run acts l es)
  unfolding run
  run-Extends l [] = ([], sym (append-nil (in_order l)), sym (append-nil l.posted))
  run-Extends l (e ∷ es) =
      Extends-trans l (step acts l e) (run acts (step acts l e) es) (step-Extends l e)
        (run-Extends (step acts l e) es)
