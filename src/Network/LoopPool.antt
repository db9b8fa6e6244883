-- ===== src/Network/LoopPool.antt =====
-- src/network/event_loop_thread_pool.cc: the choice of an event loop for a connection. The loops of the
-- threads are known by their index; `none` is the base loop. Starting the threads is not modelled.
pub mod Rounds
use rpc_framework.Prelude.{
  ℕ, zero, suc, ◌+◌, ◌%◌, Bool, Option, none, some, leb, ◌==◌, if◌then◌else◌,
}

pub record LoopPool : Type 0 where
  pub loops : ℕ
  pub next : ℕ

unfoldable pub get_next_loop : LoopPool → Option ℕ × LoopPool
get_next_loop p =
    if p.loops == 0
    then (none, p)
    else (some p.next, record p { next = if leb p.loops (p.next + 1) then 0 else p.next + 1 })

unfoldable pub get_loop_for_hash : LoopPool → ℕ → Option ℕ
get_loop_for_hash p hash_code = if p.loops == 0 then none else some (hash_code % p.loops)
