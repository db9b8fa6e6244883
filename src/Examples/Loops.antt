-- ===== src/Examples/Loops.antt =====
-- An event loop with a timer that is cancelled, a channel and a dispatch.
use rpc_framework.Prelude.{
  Bool, Option, subst, some-eq-some, ℕ, ◌≤◌, ◌≡◌, refl, true, false, List, [], ◌∷◌, ◌++◌, none,
  some, arith, nat_eq, ◌==◌, if◌then◌else◌,
}
use rpc_framework.Prelude.Table.{lookup, insert, erase, lookup-insert, lookup-erase}
use rpc_framework.Network.Connection.{TcpConnection, new_connection, connected, wrote, sends}
use rpc_framework.Network.EventLoop.{
  new_loop, Action, runs_after, runs_every, posts, quits, act, run_after, cancel_timer, collect,
  wait_ms, Event, uses, round, run, loop, max_epoll_wait,
}
use rpc_framework.Network.EventLoop.Rounds.{All}
use rpc_framework.Network.EventLoop.Due.{Sorted, Divides, run-Divides}
use rpc_framework.Network.EventLoop.Cancelling.{count_fired, cancel_timer-stops}
use rpc_framework.Network.EventLoop.Functors.{Extends, run-Extends}
use rpc_framework.Network.EventLoop.Sleeping.{EndsBefore, wait_ms-in_time}
use rpc_framework.Network.EventLoop.Quitting.{all_uses, idle, returned_by, loop-quits}
use rpc_framework.Network.Channel.{Interest, Epoll, new_channel, update_channel, Revents}
use rpc_framework.Network.Channel.Registration.{
  Op, enables_reading, enables_writing, disables_all, known, run-Agrees,
}
use rpc_framework.Network.Channel.Registration as Registration
use rpc_framework.Network.Channel.Dispatch.{Calls}
use rpc_framework.Network.Buffer.{retrieve_all, delivered}

-- Callback 1 posts the functor 2, which runs nothing.
abbrev some_acts : ℕ → List Action
some_acts n = if n == 1 then posts 2 ∷ [] else []

abbrev some_events : List Event
some_events =
    uses 0 (runs_after 5_000_000 1)
    ∷ uses 0 (runs_every 2_000_000 7)
    ∷ uses 1 (posts 3)
    ∷ round 2_500_000 2_600_000 2_700_000
    ∷ []

run-Divides_example :
    let l = run some_acts new_loop some_events in
    Sorted l.timers
    × Divides 6_000_000 l.cells l.timers (collect 6_000_000 l.cells l.timer_flags l.timers)
run-Divides_example = run-Divides some_acts some_events 6_000_000

wait_ms-in_time_example :
    let l = run some_acts new_loop some_events in
    All (EndsBefore (wait_ms l 3_000_000 (some 50)) 3_000_000) l.timers
    × (wait_ms l 3_000_000 (some 50) ≤ max_epoll_wait)
wait_ms-in_time_example = wait_ms-in_time some_acts some_events 3_000_000 (some 50)

run-Extends_example : Extends new_loop (run some_acts new_loop some_events)
run-Extends_example = run-Extends some_acts new_loop some_events

abbrev two_timers : List Event
two_timers = uses 0 (runs_after 5_000_000 1) ∷ uses 0 (runs_after 6_000_000 1) ∷ []

tracked : lookup 1 (run some_acts new_loop two_timers).timer_flags ≡ some 1
unfolding run run_after insert lookup
tracked = refl

cancel_timer-stops_example :
    count_fired 1
      (run some_acts (cancel_timer (run some_acts new_loop two_timers) 1) some_events).fired
    ≡ count_fired 1 (run some_acts new_loop two_timers).fired
cancel_timer-stops_example = cancel_timer-stops some_acts two_timers some_events 1 1 tracked

loop-quits_example :
    (loop some_acts new_loop (
        some_events
        ++ (uses 9 quits ∷ (all_uses ((9, posts 4) ∷ []) ++ (round 10 10 10 ∷ some_events))))
      ≡ returned_by some_acts
          (loop some_acts new_loop some_events)
          (uses 9 quits ∷ all_uses ((9, posts 4) ∷ [])))
    × (loop some_acts (act new_loop 9 quits) some_events ≡ loop some_acts new_loop some_events)
    × ((loop some_acts (act new_loop 9 quits) (idle ((1, 2, 3) ∷ (4, 5, 6) ∷ []))).0 ≡ false)
loop-quits_example =
    loop-quits some_acts new_loop some_events 9 ((9, posts 4) ∷ []) 10 10 10 some_events
      ((1, 2, 3) ∷ (4, 5, 6) ∷ [])

pub entered : (s : List (ℕ × Interest)) (fd : ℕ) (i : Interest) → lookup fd (insert fd i s) ≡ some i
entered s fd i = ground (arith, lookup-insert fd fd i s)

pub erased : (s : List (ℕ × Interest)) (fd : ℕ) → lookup fd (erase fd s) ≡ none
erased s fd = ground (arith, lookup-erase fd fd s)

abbrev is_there : Option Interest → Bool
is_there none = false
is_there (some i) = true

abbrev has : ℕ → List (ℕ × Interest) → Bool
has fd s = is_there (lookup fd s)

added :
    (b : Bool) (s s' : List (ℕ × Interest)) (fd : ℕ) (i : Interest)
    → (if b then none else some (insert fd i s)) ≡ some s'
    → lookup fd s' ≡ some i
added true s s' fd i e = cc
added false s s' fd i e = subst (λ t. lookup fd t ≡ some i) (some-eq-some e) (entered s fd i)

modified :
    (b : Bool) (s s' : List (ℕ × Interest)) (fd : ℕ) (i : Interest)
    → (if b then some (insert fd i s) else none) ≡ some s'
    → lookup fd s' ≡ some i
modified true s s' fd i e = subst (λ t. lookup fd t ≡ some i) (some-eq-some e) (entered s fd i)
modified false s s' fd i e = cc

deleted :
    (b : Bool) (s s' : List (ℕ × Interest)) (fd : ℕ)
    → (if b then some (erase fd s) else none) ≡ some s'
    → lookup fd s' ≡ none
deleted true s s' fd e = subst (λ t. lookup fd t ≡ none) (some-eq-some e) (erased s fd)
deleted false s s' fd e = cc

-- An epoll whose interests are a table. An addition of what is there fails, and the others where
-- nothing is.
abbrev table_epoll : Epoll (List (ℕ × Interest))
table_epoll = record {
  interest = λ s fd. lookup fd s;
  add = λ s fd i. if has fd s then none else some (insert fd i s);
  modify = λ s fd i. if has fd s then some (insert fd i s) else none;
  delete = λ s fd. if has fd s then some (erase fd s) else none;
  add_enters = λ s s' fd i e. added (has fd s) s s' fd i e;
  modify_sets = λ s s' fd i e. modified (has fd s) s s' fd i e;
  delete_removes = λ s s' fd e. deleted (has fd s) s s' fd e;
}

abbrev other_watched : List (ℕ × Interest)
other_watched = (7, record { read = true; write = false }) ∷ []

abbrev some_ops : List Op
some_ops = enables_reading ∷ enables_writing ∷ disables_all ∷ []

nothing_watched : lookup 6 other_watched ≡ none
unfolding lookup
nothing_watched = refl

all_succeed : Registration.AllSucceed table_epoll (new_channel 6, other_watched) some_ops
unfolding Registration.AllSucceed update_channel new_channel lookup insert erase
all_succeed = (refl, (refl, (refl, tt)))

run-Agrees_example :
    let (c, s) = Registration.run table_epoll (new_channel 6, other_watched) some_ops in
    (c.fd ≡ 6) × (table_epoll.interest s 6 ≡ known c.index c.events)
run-Agrees_example = run-Agrees table_epoll 6 other_watched some_ops nothing_watched all_succeed

abbrev some_calls : Calls
some_calls = record {
  reads = λ n. delivered (5 ∷ []) ∷ [];
  writes = λ n. wrote 1;
  so_error = λ n. 0;
  callback = some retrieve_all;
  does = λ n. sends (7 ∷ 8 ∷ []) (wrote 1) 0 ∷ [];
}

abbrev a_connection : TcpConnection
a_connection = record new_connection { state = connected; reading = true }

abbrev half_close : Revents
half_close = record { err = false; hup = false; rdhup = true; in_ = true; pri = false; out = true }
