-- ===== src/Network/EventLoop/Cancelling.antt =====
-- What becomes of a timer that is cancelled.
use rpc_framework.Prelude.{
  ℕ, ◌+◌, ◌<◌, ◌≡◌, refl, Bool, true, false, List, [], ◌∷◌, Option, none, some, arith, ltb, leb,
  ◌==◌, if◌then◌else◌, nat_eq, if-elim, Bool-cases, inl, inr, ==_iff, ap, ◌∙◌, sym, subst,
}
use rpc_framework.Prelude.Table.{lookup, erase, lookup-insert, lookup-erase}
use rpc_framework.Network.EventLoop.{
  TimerTask, EventLoop, new_loop, push, Action, runs_after, runs_every, cancels, posts, quits, act,
  add_timer, run_after, run_every, cancel_timer, set_cell, queue_in_loop, is_cancelled, is_set,
  collect, Collected, with_task, renewed, Event, run,
}
use rpc_framework.Network.EventLoop.Rounds.{All, Rule, Kept, run_ind}

-- How often a timer has run.
unfoldable pub count_fired : ℕ → List ℕ → ℕ
count_fired id [] = 0
count_fired id (i ∷ fired) = (if i == id then 1 else 0) + count_fired id fired

push-All :
    (P : TimerTask → Type 0) (t : TimerTask) (timers : List TimerTask)
    → P t
    → All P timers
    → All P (push t timers)
unfolding push
push-All P t [] p all = (p, tt)
push-All P t (x ∷ timers) p all =
    if-elim (All P) (ltb t.next_run x.next_run) (λ _. (p, all))
      (λ _. (all.0, push-All P t timers p all.1))

-- The flag of a timer is in the cell of its number.
abbrev pub Own : TimerTask → Type 0
Own t = t.cancelled ≡ t.id

abbrev pub FlagsOwn : ℕ → List (ℕ × ℕ) → Type 0
FlagsOwn next flags = (id cell : ℕ) → lookup id flags ≡ some cell → (cell ≡ id) × (id < next)

abbrev pub IsValid : EventLoop → Type 0
IsValid l = All Own l.timers × FlagsOwn l.next_timer_id l.timer_flags

add_timer-IsValid :
    (l : EventLoop) (next_run interval cb : ℕ)
    → IsValid l
    → IsValid (add_timer l next_run interval cb)
add_timer-IsValid l next_run interval cb (tasks, flags) = (
  push-All Own _ l.timers refl tasks,
  λ id cell e.
      ground (arith, lookup-insert l.next_timer_id id l.next_timer_id l.timer_flags, flags id cell),
)

set_cell-IsValid : (l : EventLoop) (o : Option ℕ) → IsValid l → IsValid (set_cell l o)
set_cell-IsValid l none v = v
set_cell-IsValid l (some cell) v = v

act-IsValid : (l : EventLoop) (now : ℕ) (a : Action) → IsValid l → IsValid (act l now a)
unfolding run_after run_every cancel_timer queue_in_loop
act-IsValid l now (runs_after delay cb) v = add_timer-IsValid l _ _ cb v
act-IsValid l now (runs_every interval cb) v = add_timer-IsValid l _ _ cb v
act-IsValid l now (cancels id) v = set_cell-IsValid l (lookup id l.timer_flags) v
act-IsValid l now (posts f) v = v
act-IsValid l now quits v = v

-- What is collected and what is left, with a predicate of each.
abbrev Parts : (TimerTask → Type 0) → (TimerTask → Type 0) → ℕ → Collected → Type 0
Parts J P next (expired, flags, left) = All J expired × FlagsOwn next flags × All P left

with_task-Parts :
    (J P : TimerTask → Type 0) (next : ℕ) (t : TimerTask) (c : Collected)
    → J t
    → Parts J P next c
    → Parts J P next (with_task t c)
with_task-Parts J P next t (expired, flags, left) j (e, f, k) = ((j, e), f, k)

erase-FlagsOwn :
    (next i : ℕ) (flags : List (ℕ × ℕ)) → FlagsOwn next flags → FlagsOwn next (erase i flags)
erase-FlagsOwn next i flags f id cell e = ground (arith, lookup-erase i id flags, f id cell)

collect-Parts :
    (J P : TimerTask → Type 0) (next now : ℕ) (cells : List (ℕ × Bool)) (flags : List (ℕ × ℕ))
    (timers : List TimerTask)
    → ((t : TimerTask) → P t → is_cancelled cells t ≡ false → J t)
    → FlagsOwn next flags
    → All P timers
    → Parts J P next (collect now cells flags timers)
unfolding collect
collect-Parts J P next now cells flags [] live f all = (tt, f, tt)
collect-Parts J P next now cells flags (t ∷ timers) live f all =
    let rest = collect-Parts J P next now cells flags timers live f all.1 in
    let erased =
      collect-Parts J P next now cells (erase t.id flags) timers live
        (erase-FlagsOwn next t.id flags f) all.1 in
    if-elim (Parts J P next) (leb t.next_run now)
      (λ _.
        if-elim (Parts J P next) (is_cancelled cells t) (λ _. erased)
          (λ h.
            with_task-Parts J P next t
              (if t.interval == 0
                then collect now cells (erase t.id flags) timers
                else collect now cells flags timers)
              (live t all.0 h)
              (if-elim (Parts J P next) (t.interval == 0) (λ _. erased) (λ _. rest))))
      (λ _. (tt, f, all))

renewed-All :
    (P : TimerTask → Type 0) (l : EventLoop) (t : TimerTask)
    → P (record t { next_run = t.next_run + t.interval })
    → All P l.timers
    → All P (renewed l t).timers
renewed-All P l t p all =
    if-elim (λ (m : EventLoop). All P m.timers) (ltb 0 t.interval)
      (λ _. push-All P _ l.timers p all) (λ _. all)

new_loop-IsValid : IsValid new_loop
unfolding lookup
new_loop-IsValid = (tt, λ id cell e. let no : ⊥ = cc in elim no [ ])

IsValid-rule : Rule IsValid Own
IsValid-rule = record {
  acts = act-IsValid;
  collects = λ l now v. kept l (collect now l.cells l.timer_flags l.timers) (
      collect-Parts Own Own l.next_timer_id now l.cells l.timer_flags l.timers (λ t own h. own) v.1
        v.0);
  fires = λ l t j v. v;
  renews = λ l t j v.
      if-elim IsValid (ltb 0 t.interval) (λ _. (push-All Own _ l.timers j v.0, v.1)) (λ _. v);
  swaps = λ l v. v;
  performs = λ l f v. v;
}
  where
    kept : (l : EventLoop) (c : Collected) → Parts Own Own l.next_timer_id c → Kept IsValid Own l c
    kept l (expired, flags, left) (e, f, k) = ((k, f), e)

module _ (id n : ℕ) where
  -- The timer is cancelled, and has run so often.
  abbrev pub Stopped : EventLoop → Type 0
  Stopped l =
      IsValid l
      × (id < l.next_timer_id)
      × (lookup id l.cells ≡ some true)
      × (count_fired id l.fired ≡ n)

  abbrev pub Other : TimerTask → Type 0
  Other t = Own t × ((t.id == id) ≡ false)

  add_timer-Stopped :
      (l : EventLoop) (next_run interval cb : ℕ)
      → Stopped l
      → Stopped (add_timer l next_run interval cb)
  add_timer-Stopped l next_run interval cb (v, less, set, count) = (
    add_timer-IsValid l next_run interval cb v,
    omega arith,
    ground (arith, lookup-insert l.next_timer_id id false l.cells),
    count,
  )

  set_cell-Stopped : (l : EventLoop) (o : Option ℕ) → Stopped l → Stopped (set_cell l o)
  set_cell-Stopped l none s = s
  set_cell-Stopped l (some cell) (v, less, set, count) =
      (v, less, ground (arith, lookup-insert cell id true l.cells), count)

  act-Stopped : (l : EventLoop) (now : ℕ) (a : Action) → Stopped l → Stopped (act l now a)
  unfolding run_after run_every cancel_timer queue_in_loop
  act-Stopped l now (runs_after delay cb) s = add_timer-Stopped l _ _ cb s
  act-Stopped l now (runs_every interval cb) s = add_timer-Stopped l _ _ cb s
  act-Stopped l now (cancels i) s = set_cell-Stopped l (lookup i l.timer_flags) s
  act-Stopped l now (posts f) s = s
  act-Stopped l now quits s = s

  other-of_live :
      (t : TimerTask) (cells : List (ℕ × Bool))
      → Own t
      → lookup id cells ≡ some true
      → is_cancelled cells t ≡ false
      → (t.id == id) ≡ false
  other-of_live t cells own set h = elim (Bool-cases (t.id == id)) [
    | inl same ↦
        let e : is_cancelled cells t ≡ true =
          ap is_set (ap (λ (i : ℕ). lookup i cells) (own ∙ (==_iff t.id id).0 same) ∙ set) in
        let no : ⊥ = cc in elim no [ ]
    | inr other ↦ other
  ]

  Stopped-rule : Rule Stopped Other
  unfolding count_fired
  Stopped-rule = record {
    acts = act-Stopped;
    collects = λ l now (v, less, set, count).
        kept l (less, set, count) (collect now l.cells l.timer_flags l.timers)
          (collect-Parts Other Own l.next_timer_id now l.cells l.timer_flags l.timers
            (λ t own h. (own, other-of_live t l.cells own set h)) v.1 v.0);
    fires = λ l t j (v, less, set, count). (v, less, set, ground arith);
    renews = λ l t j (v, less, set, count).
        if-elim Stopped (ltb 0 t.interval)
          (λ _. ((push-All Own _ l.timers j.0 v.0, v.1), less, set, count))
          (λ _. (v, less, set, count));
    swaps = λ l s. s;
    performs = λ l f s. s;
  }
    where
      kept :
          (l : EventLoop)
          → (id < l.next_timer_id) × (lookup id l.cells ≡ some true) × (count_fired id l.fired ≡ n)
          → (c : Collected) → Parts Other Own l.next_timer_id c
          → Kept Stopped Other l c
      kept l (less, set, count) (expired, flags, left) (e, f, k) = (((k, f), less, set, count), e)

-- A timer that is tracked when it is cancelled, between two rounds of a loop that was new and has had
-- any events, does not run again, whatever happens to the loop after it: it has run as often as
-- before.
pub cancel_timer-stops :
    (acts : ℕ → List Action) (es more : List Event) (id cell : ℕ)
    → lookup id (run acts new_loop es).timer_flags ≡ some cell
    → count_fired id (run acts (cancel_timer (run acts new_loop es) id) more).fired
      ≡ count_fired id (run acts new_loop es).fired
unfolding cancel_timer
cancel_timer-stops acts es more id cell tracked =
    let l = run acts new_loop es in
    let v = run_ind IsValid-rule acts new_loop es new_loop-IsValid in
    let (own, less) = v.1 id cell tracked in
    (run_ind (Stopped-rule id (count_fired id l.fired)) acts (cancel_timer l id) more
      (stopped l v cell own less tracked)).3
  where
    stopped :
        (l : EventLoop)
        → IsValid l
        → (c : ℕ) → c ≡ id
        → id < l.next_timer_id
        → lookup id l.timer_flags ≡ some c
        → Stopped id (count_fired id l.fired) (cancel_timer l id)
    stopped l v c own less tracked =
        subst (λ o. Stopped id (count_fired id l.fired) (set_cell l o)) (sym tracked)
          (v, less, ground (arith, lookup-insert c id true l.cells), refl)
