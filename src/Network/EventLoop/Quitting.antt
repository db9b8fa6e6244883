-- ===== src/Network/EventLoop/Quitting.antt =====
-- When `loop` returns.
use rpc_framework.Prelude.{
  ℕ, ◌≡◌, refl, ◌∙◌, Bool, true, false, List, [], ◌∷◌, ◌++◌, Option, none, some, if-elim,
  if◌then◌else◌, nat_eq,
}
use rpc_framework.Prelude.Table.{lookup}
use rpc_framework.Network.EventLoop.{
  EventLoop, Action, runs_after, runs_every, cancels, posts, quits, act, run_after, run_every,
  cancel_timer, set_cell, queue_in_loop, run, collect, process_timers, run_tasks, perform_all,
  do_pending_functors, Event, uses, round, step, spin, loop,
}

-- Rounds in which nothing happens.
pub idle : List (ℕ × ℕ × ℕ) → List Event
idle [] = []
idle ((seen, now, later) ∷ times) = round seen now later ∷ idle times

-- Nothing is to be done.
abbrev pub IsIdle : EventLoop → Type 0
IsIdle l = (l.timers ≡ []) × (l.pending_functors ≡ [])

-- What other threads and the handlers do between two rounds.
pub all_uses : List (ℕ × Action) → List Event
all_uses [] = []
all_uses ((now, a) ∷ used) = uses now a ∷ all_uses used

act-keeps : (l : EventLoop) (now : ℕ) (a : Action) → l.quit ≡ true → (act l now a).quit ≡ true
unfolding run_after run_every cancel_timer queue_in_loop
act-keeps l now (runs_after delay cb) set = set
act-keeps l now (runs_every interval cb) set = set
act-keeps l now (cancels id) set = by_cell (lookup id l.timer_flags)
  where
    by_cell : (o : Option ℕ) → (set_cell l o).quit ≡ true
    by_cell none = set
    by_cell (some cell) = set
act-keeps l now (posts f) set = set
act-keeps l now quits set = refl

module _ (acts : ℕ → List Action) where
  round-IsIdle :
      (l : EventLoop) (seen now later : ℕ)
      → IsIdle l
      → let l' = step acts l (round seen now later) in IsIdle l' × (l'.quit ≡ l.quit)
  unfolding process_timers collect run_tasks do_pending_functors perform_all
  round-IsIdle l seen now later (bare, free) = rw (bare, free) ((refl, refl), refl)

  spin-idle :
      (l : EventLoop) (times : List (ℕ × ℕ × ℕ))
      → IsIdle l
      → l.quit ≡ false
      → (spin acts l (idle times)).0 ≡ false
  unfolding spin idle
  spin-idle l [] free runs = refl
  spin-idle l ((seen, now, later) ∷ times) free runs =
      let l' = step acts l (round seen now later) in
      let (free', same) = round-IsIdle l seen now later free in
      if-elim (λ (p : Bool × EventLoop). p.0 ≡ false) l.quit
        (λ quit. let no : ⊥ = cc in elim no [ ]) (λ _. spin-idle l' times free' (same ∙ runs))

  -- When a loop that was given these events returns at its next test of the flag.
  abbrev pub returned_by : Bool × EventLoop → List Event → Bool × EventLoop
  returned_by (true, l) es = (true, l)
  returned_by (false, l) es = (true, run acts l es)

  tested :
      (b : Bool) (l : EventLoop) (x y : Bool × EventLoop) (es : List Event)
      → x ≡ returned_by y es
      → (if b then (true, l) else x) ≡ returned_by (if b then (true, l) else y) es
  tested true l x y es e = refl
  tested false l x y es e = e

  spin-set :
      (l : EventLoop) (used : List (ℕ × Action)) (seen now later : ℕ) (rest : List Event)
      → l.quit ≡ true
      → spin acts l (all_uses used ++ (round seen now later ∷ rest))
        ≡ (true, run acts l (all_uses used))
  unfolding spin run all_uses
  spin-set l [] seen now later rest set = rw set refl
  spin-set l ((at, a) ∷ used) seen now later rest set =
      spin-set (act l at a) used seen now later rest (act-keeps l at a set)

  spin-quits :
      (l : EventLoop) (es : List Event) (time : ℕ) (used : List (ℕ × Action)) (seen now later : ℕ)
      (rest : List Event)
      → spin acts l (es ++ (uses time quits ∷ (all_uses used ++ (round seen now later ∷ rest))))
        ≡ returned_by (spin acts l es) (uses time quits ∷ all_uses used)
  unfolding spin run
  spin-quits l [] time used seen now later rest =
      spin-set (act l time quits) used seen now later rest refl
  spin-quits l (uses at a ∷ es) time used seen now later rest =
      spin-quits (act l at a) es time used seen now later rest
  spin-quits l (round x y z ∷ es) time used seen now later rest =
      tested l.quit l _ (spin acts (step acts l (round x y z)) es) (uses time quits ∷ all_uses used)
        (spin-quits (step acts l (round x y z)) es time used seen now later rest)

  -- A loop that runs, whatever has happened to it, returns at its first test of the flag after a
  -- `quit`, unless it has returned before: what others do up to that test is done, and neither that
  -- round nor anything after it. But a `quit` that comes before `loop` starts is lost: the loop goes
  -- on as without it, and if it has no timer and no functor, it has not returned after any number
  -- of rounds.
  pub loop-quits :
      (l : EventLoop) (es : List Event) (time : ℕ) (used : List (ℕ × Action)) (seen now later : ℕ)
      (rest : List Event) (times : List (ℕ × ℕ × ℕ))
      → (loop acts l (es ++ (uses time quits ∷ (all_uses used ++ (round seen now later ∷ rest))))
          ≡ returned_by (loop acts l es) (uses time quits ∷ all_uses used))
        × (loop acts (act l time quits) es ≡ loop acts l es)
        × (let bare = record l { timers = []; pending_functors = [] } in
            (loop acts (act bare time quits) (idle times)).0 ≡ false)
  unfolding loop
  loop-quits l es time used seen now later rest times = (
    spin-quits (record l { quit = false }) es time used seen now later rest,
    refl,
    spin-idle (record l { timers = []; pending_functors = []; quit = false }) times (refl, refl)
        refl,
  )
