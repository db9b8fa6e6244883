-- ===== src/Network/TcpServer/Removal.antt =====
-- How the accepted connections of a server are destroyed.
use rpc_framework.Prelude.{
  ℕ, ◌+◌, ◌≤◌, ◌≡◌, refl, List, [], ◌∷◌, Option, none, some, arith, ◌==◌, ltb, leb, ◌&&◌,
  if◌then◌else◌, nat_eq,
}
use rpc_framework.Prelude.Table.{
  lookup, lookup-insert, lookup-erase, Unique, insert-Unique, erase-Unique,
}
use rpc_framework.Network.LoopPool.{LoopPool, get_next_loop}
use rpc_framework.Network.TcpServer.{
  Entry, TcpServer, new_server, register, new_connection, remove_connection, erased_from,
  remove_connection_in_loop, all_ids, destroy, drop_first, Event, accepts, touch, touch_from,
  touches, closes, removes, step, run,
}

pub count_id : ℕ → List ℕ → ℕ
count_id id [] = 0
count_id id (i ∷ ids) = (if i == id then 1 else 0) + count_id id ids

abbrev pub one_if : Option Entry → ℕ
one_if none = 0
one_if (some e) = 1

-- 1 for a number that was given out.
abbrev pub given : ℕ → TcpServer → ℕ
given id s = if leb 1 id && ltb id s.next_conn_id then 1 else 0

-- Each number that was given out is in the table or was destroyed, once.
pub record IsValid (s : TcpServer) : Type 0 where
  pub unique : Unique s.connections
  pub positive : 1 ≤ s.next_conn_id
  pub balanced : (id : ℕ) → count_id id s.destroyed + one_if (lookup id s.connections) ≡ given id s

new_connection-IsValid : (s : TcpServer) (now : ℕ) → IsValid s → IsValid (new_connection s now)
unfolding new_connection
new_connection-IsValid s now v = at (get_next_loop s.pool)
  where
    at : (p : Option ℕ × LoopPool) → IsValid (register s now p)
    at (loop, pool) =
        let e : Entry = record { loop = loop; last_active = now } in
        record {
          unique = insert-Unique s.next_conn_id e s.connections v.unique;
          positive = omega arith;
          balanced = λ id.
              ground
                (arith, lookup-insert s.next_conn_id id e s.connections, v.balanced id, v.positive);
        }

remove_connection_in_loop-IsValid :
    (s : TcpServer) (id : ℕ) → IsValid s → IsValid (remove_connection_in_loop s id)
unfolding remove_connection_in_loop
remove_connection_in_loop-IsValid s id v = by_entry (lookup id s.connections) refl
  where
    by_entry :
        (o : Option Entry)
        → lookup id s.connections ≡ o
        → IsValid (erased_from o (record s { closings = drop_first id s.closings }) id)
    by_entry none at = record { unique = v.unique; positive = v.positive; balanced = v.balanced }
    by_entry (some e) at = record {
      unique = erase-Unique id s.connections v.unique;
      positive = v.positive;
      balanced =
          λ i. unfold count_id in ground (arith, lookup-erase id i s.connections, v.balanced i);
    }

touch-IsValid : (s : TcpServer) (id now : ℕ) → IsValid s → IsValid (touch s id now)
unfolding touch
touch-IsValid s id now v = by_entry (lookup id s.connections) refl
  where
    by_entry : (o : Option Entry) → lookup id s.connections ≡ o → IsValid (touch_from o s id now)
    by_entry none at = v
    by_entry (some e) at =
        let e' : Entry = record e { last_active = now } in
        record {
          unique = insert-Unique id e' s.connections v.unique;
          positive = v.positive;
          balanced = λ i. ground (arith, lookup-insert id i e' s.connections, v.balanced i, at);
        }

step-IsValid : (s : TcpServer) (e : Event) → IsValid s → IsValid (step s e)
unfolding remove_connection
step-IsValid s (accepts now) v = new_connection-IsValid s now v
step-IsValid s (closes id) v = record {
  unique = v.unique;
  positive = v.positive;
  balanced = v.balanced;
}
step-IsValid s (removes id) v = remove_connection_in_loop-IsValid s id v
step-IsValid s (touches id now) v = touch-IsValid s id now v

run-IsValid : (s : TcpServer) (es : List Event) → IsValid s → IsValid (run s es)
unfolding run
run-IsValid s [] v = v
run-IsValid s (e ∷ es) v = run-IsValid (step s e) es (step-IsValid s e v)

count_id-all_ids :
    (id : ℕ) (m : List (ℕ × Entry)) (done : List ℕ)
    → Unique m
    → count_id id (all_ids m done) ≡ count_id id done + one_if (lookup id m)
unfolding count_id lookup
count_id-all_ids id [] done u = omega arith
count_id-all_ids id ((i, e) ∷ m) done u = ground (arith, count_id-all_ids id m (i ∷ done) u.1)

-- Whatever a new server accepts, and however often the close callbacks of its connections are
-- called: when it has ended, `connectDestroyed` is posted for each connection that it accepted
-- exactly once, and for no other.
pub destroy-once :
    (threads idle_timeout : ℕ) (es : List Event) (id : ℕ)
    → let s = run (new_server threads idle_timeout) es in
      count_id id (destroy s).destroyed ≡ given id s
unfolding destroy
destroy-once threads idle_timeout es id =
    let s = run (new_server threads idle_timeout) es in
    let v = run-IsValid (new_server threads idle_timeout) es (start threads idle_timeout) in
    omega (arith, count_id-all_ids id s.connections s.destroyed v.unique, v.balanced id)
  where
    start : (threads idle_timeout : ℕ) → IsValid (new_server threads idle_timeout)
    start threads idle_timeout = record {
      unique = tt;
      positive = omega arith;
      balanced = λ i. unfold count_id in unfold lookup in ground arith;
    }
