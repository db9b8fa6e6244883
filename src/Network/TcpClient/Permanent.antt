-- ===== src/Network/TcpClient/Permanent.antt =====
-- A client that was disconnected for good.
use rpc_framework.Prelude.{
  ℕ, ◌≡◌, refl, true, false, not, ◌&&◌, List, [], ◌∷◌, Option, none, some, arith, ◌==◌, nat_eq,
  if-elim,
}
use rpc_framework.Prelude.Table.{lookup, insert}
use rpc_framework.Network.Connector as Connecting
use rpc_framework.Network.Connector.{
  Connector, ConnectResult, wants, starts, restarts, writable, fails, expires, connect,
  start_in_loop, stop_in_loop, handle_write, handle_error, retry, retry_closed, timer_expires,
}
use rpc_framework.Network.Connection as Conn
use rpc_framework.Network.Connection.{TcpConnection, disconnects}
use rpc_framework.Network.TcpClient.{
  TcpClient, connector_step, removed, remove_from, remove_connection, step_of, connection_step,
  stop, shut_down, disconnect, disconnect_permanently, Event, connects, stops, in_connector,
  in_connection, shuts, ends, ensures, sets_retry, step, run,
}

-- What may happen to a connector that nobody asks to connect.
abbrev pub Unasked : Connecting.Event → Type 0
Unasked (wants b) = b ≡ false
Unasked (starts r) = Unit {0}
Unasked (restarts r) = ⊥
Unasked Connecting.stops = Unit {0}
Unasked (writable so_error) = Unit {0}
Unasked fails = Unit {0}
Unasked (expires r) = Unit {0}

-- Nobody asks the client to connect again.
abbrev pub IsPassive : Event → Type 0
IsPassive connects = ⊥
IsPassive stops = Unit {0}
IsPassive (in_connector e) = Unasked e
IsPassive (in_connection i e r) = Unit {0}
IsPassive (shuts r) = Unit {0}
IsPassive (ends r) = Unit {0}
IsPassive (ensures r) = ⊥
IsPassive (sets_retry on) = Unit {0}

abbrev pub AllPassive : List Event → Type 0
AllPassive [] = Unit {0}
AllPassive (e ∷ es) = IsPassive e × AllPassive es

-- A connector that is not wanted hands nothing over.
unwanted :
    (k : Connector) (e : Connecting.Event)
    → k.connect_ ≡ false
    → Unasked e
    → ((Connecting.step k e).connect_ ≡ false) × ((Connecting.step k e).handed ≡ k.handed)
unfolding Connecting.step start_in_loop stop_in_loop handle_write handle_error timer_expires retry
    retry_closed
unwanted k (wants b) off u = (u, refl)
unwanted k (starts r) off u = ground arith
unwanted k (restarts r) off u = elim u [ ]
unwanted k Connecting.stops off u = ground arith
unwanted k (writable so_error) off u = ground arith
unwanted k fails off u = ground arith
unwanted k (expires r) off u = ground arith

-- The client is disconnected for good, after so many connections.
abbrev pub IsEnded : ℕ → TcpClient → Type 0
IsEnded m c = (c.disconnecting ≡ true) × (c.connector.connect_ ≡ false) × (c.made ≡ m)

connector_step-IsEnded :
    (m : ℕ) (c : TcpClient) (e : Connecting.Event)
    → Unasked e
    → IsEnded m c
    → IsEnded m (connector_step c e)
unfolding connector_step
connector_step-IsEnded m c e u (gone, off, same) =
    let k = Connecting.step c.connector e in
    let (off', handed) = unwanted c.connector e off u in
    if-elim (IsEnded m) (k.handed == c.connector.handed) (λ _. (gone, off', same))
      (λ other. let no : ⊥ = ground arith in elim no [ ])

removed-IsEnded :
    (m : ℕ) (c : TcpClient) (r : ConnectResult) → IsEnded m c → IsEnded m (removed c r)
removed-IsEnded m c r (gone, off, same) =
    if-elim (IsEnded m) (c.retry_on_disconnect && not c.disconnecting)
      (λ retries. let no : ⊥ = ground arith in elim no [ ]) (λ _. (gone, off, same))

remove_from-IsEnded :
    (m : ℕ) (o : Option ℕ) (c : TcpClient) (i : ℕ) (r : ConnectResult)
    → IsEnded m c
    → IsEnded m (remove_from o c i r)
remove_from-IsEnded m none c i r h = h
remove_from-IsEnded m (some j) c i r h =
    if-elim (IsEnded m) (j == i) (λ _. removed-IsEnded m c r h) (λ _. h)

connection_step-IsEnded :
    (m : ℕ) (c : TcpClient) (i : ℕ) (e : Conn.Event) (r : ConnectResult)
    → IsEnded m c
    → IsEnded m (connection_step c i e r)
unfolding connection_step remove_connection
connection_step-IsEnded m c i e r h = by_entry (lookup i c.conns)
  where
    by_entry : (o : Option TcpConnection) → IsEnded m (step_of o c i e r)
    by_entry none = h
    by_entry (some t) =
        let t' = Conn.step t e in
        if-elim (IsEnded m) (t'.closed == t.closed) (λ _. h)
          (λ _. remove_from-IsEnded m c.connection (record c { conns = insert i t' c.conns }) i r h)

shut_down-IsEnded :
    (m : ℕ) (o : Option ℕ) (c : TcpClient) (r : ConnectResult)
    → IsEnded m c
    → IsEnded m (shut_down o c r)
shut_down-IsEnded m none c r h = h
shut_down-IsEnded m (some i) c r h = connection_step-IsEnded m c i disconnects r h

disconnect_permanently-IsEnded :
    (c : TcpClient) (r : ConnectResult) → IsEnded c.made (disconnect_permanently c r)
unfolding disconnect_permanently stop connector_step Connecting.step
disconnect_permanently-IsEnded c r =
    let k = record c.connector { connect_ = false } in
    let s = record c { disconnecting = true; connector = k } in
    if-elim (λ (x : TcpClient). IsEnded c.made (shut_down x.connection x r))
      (c.connector.handed == c.connector.handed)
      (λ _. shut_down-IsEnded c.made c.connection s r (refl, refl, refl))
      (λ other. let no : ⊥ = ground arith in elim no [ ])

step-IsEnded :
    (m : ℕ) (c : TcpClient) (e : Event) → IsPassive e → IsEnded m c → IsEnded m (step c e)
unfolding stop disconnect disconnect_permanently
step-IsEnded m c connects p h = elim p [ ]
step-IsEnded m c stops p h = connector_step-IsEnded m c (wants false) refl h
step-IsEnded m c (in_connector e) p h = connector_step-IsEnded m c e p h
step-IsEnded m c (in_connection i e r) p h = connection_step-IsEnded m c i e r h
step-IsEnded m c (shuts r) p h = shut_down-IsEnded m c.connection c r h
step-IsEnded m c (ends r) p h =
    let d = record c { disconnecting = true } in
    let s = connector_step d (wants false) in
    shut_down-IsEnded m s.connection s r
      (connector_step-IsEnded m d (wants false) refl (refl, h.1, h.2))
step-IsEnded m c (ensures r) p h = elim p [ ]
step-IsEnded m c (sets_retry on) p h = h

run-IsEnded :
    (m : ℕ) (c : TcpClient) (es : List Event) → AllPassive es → IsEnded m c → IsEnded m (run c es)
unfolding run
run-IsEnded m c [] p h = h
run-IsEnded m c (e ∷ es) p h = run-IsEnded m (step c e) es p.1 (step-IsEnded m c e p.0 h)

-- Once a client is disconnected for good, at any point of an attempt, it makes no connection unless it is asked to
-- connect again: neither a pending retry nor a connect that succeeds late nor the close of its
-- connection makes one, also if reconnecting is switched on.
pub disconnect_permanently-ends :
    (c : TcpClient) (r : ConnectResult) (es : List Event)
    → AllPassive es
    → (run (disconnect_permanently c r) es).made ≡ c.made
disconnect_permanently-ends c r es p =
    (run-IsEnded c.made (disconnect_permanently c r) es p (disconnect_permanently-IsEnded c r)).2
