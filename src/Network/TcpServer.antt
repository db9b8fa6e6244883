-- ===== src/Network/TcpServer.antt =====
-- src/network/tcp_server.cc: the table of the connections of a server. A connection is known by its
-- number, which its name is made of; `closings` are the removals that are posted to the
-- base loop, and `destroyed` are the connections whose `connectDestroyed` is posted to their loops, the
-- latest first. There are fewer than 2 ^ 31 connections.
pub mod Removal
use rpc_framework.Prelude.{
  ℕ, suc, Bool, true, false, List, [], ◌∷◌, ◌++◌, Option, none, some, ◌-◌, ◌*◌, ◌/◌, leb,
  if◌then◌else◌, ◌==◌, nat_eq,
}
use rpc_framework.Prelude.Table.{lookup, insert, erase}
use rpc_framework.Network.LoopPool.{LoopPool, get_next_loop}

-- A connection in the table: its loop, and the time of its last activity in milliseconds.
pub record Entry : Type 0 where
  pub loop : Option ℕ
  pub last_active : ℕ

pub record TcpServer : Type 0 where
  pub pool : LoopPool
  pub next_conn_id : ℕ
  pub connections : List (ℕ × Entry)
  pub idle_timeout : ℕ
  pub closings : List ℕ
  pub destroyed : List ℕ

-- `threads`: the loops of the pool; `idle_timeout`: seconds, 0 where it is not positive.
abbrev pub new_server : ℕ → ℕ → TcpServer
new_server threads idle_timeout = record {
  pool = record { loops = threads; next = 0 };
  next_conn_id = 1;
  connections = [];
  idle_timeout = idle_timeout;
  closings = [];
  destroyed = [];
}

abbrev pub register : TcpServer → ℕ → Option ℕ × LoopPool → TcpServer
register s now (loop, pool) = record s {
  pool = pool;
  next_conn_id = suc s.next_conn_id;
  connections = insert s.next_conn_id (record { loop = loop; last_active = now }) s.connections;
}

unfoldable pub new_connection : TcpServer → ℕ → TcpServer
new_connection s now = register s now (get_next_loop s.pool)

-- The close callback of a connection, in its own loop.
unfoldable pub remove_connection : TcpServer → ℕ → TcpServer
remove_connection s id = record s { closings = id ∷ s.closings }

abbrev pub drop_first : ℕ → List ℕ → List ℕ
drop_first id [] = []
drop_first id (i ∷ ids) = if i == id then ids else i ∷ drop_first id ids

abbrev pub erased_from : Option Entry → TcpServer → ℕ → TcpServer
erased_from none s id = s
erased_from (some e) s id = record s {
  connections = erase id s.connections;
  destroyed = id ∷ s.destroyed;
}

-- A posted removal runs; a second one of the same connection finds nothing.
unfoldable pub remove_connection_in_loop : TcpServer → ℕ → TcpServer
remove_connection_in_loop s id =
    erased_from (lookup id s.connections) (record s { closings = drop_first id s.closings }) id

abbrev pub all_ids : List (ℕ × Entry) → List ℕ → List ℕ
all_ids [] done = done
all_ids ((id, e) ∷ m) done = all_ids m (id ∷ done)

-- The destructor; the removals that are still posted are not run after it.
unfoldable pub destroy : TcpServer → TcpServer
destroy s = record s { connections = []; destroyed = all_ids s.connections s.destroyed }

-- `checkIdleTimeout`, with `idle_timeout` in seconds and the times in milliseconds.
unfoldable pub is_idle : ℕ → ℕ → ℕ → Bool
is_idle idle_timeout last_active now =
    if idle_timeout == 0 then false else leb idle_timeout ((now - last_active) / 1000)

-- The connections that a round of the idle timer closes.
unfoldable pub idle_connections : ℕ → ℕ → List (ℕ × Entry) → List ℕ
idle_connections idle_timeout now [] = []
idle_connections idle_timeout now ((id, e) ∷ m) =
    let rest = idle_connections idle_timeout now m in
    if is_idle idle_timeout e.last_active now then id ∷ rest else rest

-- `updateActiveTime`, when a connection reads or writes.
abbrev pub touch_from : Option Entry → TcpServer → ℕ → ℕ → TcpServer
touch_from none s id now = s
touch_from (some e) s id now = record s {
  connections = insert id (record e { last_active = now }) s.connections;
}

unfoldable pub touch : TcpServer → ℕ → ℕ → TcpServer
touch s id now = touch_from (lookup id s.connections) s id now

-- What happens to a server.
pub data Event : Type 0 where
  accepts : ℕ → Event
  closes : ℕ → Event
  removes : ℕ → Event
  touches : ℕ → ℕ → Event

abbrev pub step : TcpServer → Event → TcpServer
step s (accepts now) = new_connection s now
step s (closes id) = remove_connection s id
step s (removes id) = remove_connection_in_loop s id
step s (touches id now) = touch s id now

unfoldable pub run : TcpServer → List Event → TcpServer
run s [] = s
run s (e ∷ es) = run (step s e) es
