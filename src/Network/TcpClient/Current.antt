-- ===== src/Network/TcpClient/Current.antt =====
-- The connection that a client gives out.
use rpc_framework.Prelude.{
  ℕ, ◌≡◌, refl, true, false, not, ◌&&◌, List, [], ◌∷◌, Option, none, some, arith, ◌==◌, nat_eq,
  if-elim, Bool-cases, inl, inr, sym, ap, ◌∙◌, subst, ==_iff, some-eq-some,
}
use rpc_framework.Prelude.Table.{lookup, insert, lookup-insert}
use rpc_framework.Network.Connector as Connecting
use rpc_framework.Network.Connector.{Connector, ConnectResult, wants}
use rpc_framework.Network.Connection as Conn
use rpc_framework.Network.Connection.{
  TcpConnection, new_connection, connect_established, disconnects,
}
use rpc_framework.Network.TcpClient.{
  TcpClient, new_client, new_connection_on, connector_step, removed, remove_from, remove_connection,
  step_of, connection_step, connect, stop, shut_down, disconnect, disconnect_permanently, is_up,
  current, is_connecting, ensure_connected, Event, connects, stops, in_connector, in_connection,
  shuts, ends, ensures, sets_retry, step, run,
}

abbrev pub OpenAt : List (ℕ × TcpConnection) → ℕ → Type 0
OpenAt conns i = (t : TcpConnection) × (lookup i conns ≡ some t) × (t.closed ≡ 0)

-- The connection is there, and its close callback has not been called.
abbrev pub IsOpen : Option ℕ → List (ℕ × TcpConnection) → Type 0
IsOpen none conns = Unit {0}
IsOpen (some i) conns = OpenAt conns i

abbrev pub IsValid : TcpClient → Type 0
IsValid c = IsOpen c.connection c.conns

new_connection_on-IsValid : (c : TcpClient) → IsValid (new_connection_on c)
unfolding connect_established
new_connection_on-IsValid c = (
  connect_established new_connection,
  ground (arith, lookup-insert c.made c.made (connect_established new_connection) c.conns),
  refl,
)

connector_step-IsValid :
    (c : TcpClient) (e : Connecting.Event) → IsValid c → IsValid (connector_step c e)
unfolding connector_step
connector_step-IsValid c e v =
    let k = Connecting.step c.connector e in
    if-elim IsValid (k.handed == c.connector.handed) (λ _. v)
      (λ _. new_connection_on-IsValid (record c { connector = k }))

removed-IsValid : (c : TcpClient) (r : ConnectResult) → IsValid (removed c r)
removed-IsValid c r =
    if-elim IsValid (c.retry_on_disconnect && not c.disconnecting) (λ _. tt) (λ _. tt)

-- Another connection than the one that was entered is as it was.
open_beside :
    (conns : List (ℕ × TcpConnection)) (i j : ℕ) (t' : TcpConnection)
    → (j == i) ≡ false
    → OpenAt conns j
    → OpenAt (insert i t' conns) j
open_beside conns i j t' other (t, at, fresh) =
    (t, ground (arith, lookup-insert i j t' conns), fresh)

-- The connection whose close callback is not called stays open.
kept :
    (o : Option ℕ) (conns : List (ℕ × TcpConnection)) (i : ℕ) (t t' : TcpConnection)
    → lookup i conns ≡ some t
    → t'.closed ≡ t.closed
    → IsOpen o conns
    → IsOpen o (insert i t' conns)
kept none conns i t t' at same v = tt
kept (some j) conns i t t' at same (u, there, fresh) = elim (Bool-cases (j == i)) [
  | inl here ↦ (
    t',
    ground (arith, lookup-insert i j t' conns),
    let e : some u ≡ some t =
          sym there ∙ ap (λ (x : ℕ). lookup x conns) ((==_iff j i).0 here) ∙ at in
        same ∙ ap (λ (x : TcpConnection). x.closed) (sym (some-eq-some e)) ∙ fresh,
  )
  | inr other ↦ open_beside conns i j t' other (u, there, fresh)
]

remove_from-IsValid :
    (o : Option ℕ) (c : TcpClient) (i : ℕ) (t' : TcpConnection) (r : ConnectResult)
    → c.connection ≡ o
    → IsOpen o c.conns
    → IsValid (remove_from o (record c { conns = insert i t' c.conns }) i r)
remove_from-IsValid none c i t' r e v =
    subst (λ (o : Option ℕ). IsOpen o (insert i t' c.conns)) (sym e) tt
remove_from-IsValid (some j) c i t' r e v =
    if-elim IsValid (j == i) (λ _. removed-IsValid (record c { conns = insert i t' c.conns }) r)
      (λ other.
        subst (λ (o : Option ℕ). IsOpen o (insert i t' c.conns)) (sym e)
          (open_beside c.conns i j t' other v))

connection_step-IsValid :
    (c : TcpClient) (i : ℕ) (e : Conn.Event) (r : ConnectResult)
    → IsValid c
    → IsValid (connection_step c i e r)
unfolding connection_step remove_connection
connection_step-IsValid c i e r v = by_entry (lookup i c.conns) refl
  where
    by_entry : (o : Option TcpConnection) → lookup i c.conns ≡ o → IsValid (step_of o c i e r)
    by_entry none at = v
    by_entry (some t) at =
        let t' = Conn.step t e in
        if-elim IsValid (t'.closed == t.closed)
          (λ same. kept c.connection c.conns i t t' at ((==_iff t'.closed t.closed).0 same) v)
          (λ _. remove_from-IsValid c.connection c i t' r refl v)

shut_down-IsValid :
    (o : Option ℕ) (c : TcpClient) (r : ConnectResult) → IsValid c → IsValid (shut_down o c r)
shut_down-IsValid none c r v = v
shut_down-IsValid (some i) c r v = connection_step-IsValid c i disconnects r v

ensure_connected-IsValid :
    (c : TcpClient) (r : ConnectResult) → IsValid c → IsValid (ensure_connected c r)
unfolding ensure_connected
ensure_connected-IsValid c r v =
    if-elim IsValid (is_up (current c.connection c.conns)) (λ _. v)
      (λ _. if-elim IsValid (is_connecting c.connector.state) (λ _. v) (λ _. v))

step-IsValid : (c : TcpClient) (e : Event) → IsValid c → IsValid (step c e)
unfolding connect stop disconnect disconnect_permanently
step-IsValid c connects v = connector_step-IsValid c (wants true) v
step-IsValid c stops v = connector_step-IsValid c (wants false) v
step-IsValid c (in_connector e) v = connector_step-IsValid c e v
step-IsValid c (in_connection i e r) v = connection_step-IsValid c i e r v
step-IsValid c (shuts r) v = shut_down-IsValid c.connection c r v
step-IsValid c (ends r) v =
    let s = connector_step (record c { disconnecting = true }) (wants false) in
    shut_down-IsValid s.connection s r
      (connector_step-IsValid (record c { disconnecting = true }) (wants false) v)
step-IsValid c (ensures r) v = ensure_connected-IsValid c r v
step-IsValid c (sets_retry on) v = v

run_from-IsValid : (c : TcpClient) (es : List Event) → IsValid c → IsValid (run c es)
unfolding run
run_from-IsValid c [] v = v
run_from-IsValid c (e ∷ es) v = run_from-IsValid (step c e) es (step-IsValid c e v)

-- Over any events on a new client, reconnects and late close callbacks of replaced connections among
-- them: where the client has a connection, it is one whose close callback has not been called.
pub run-IsOpen : (es : List Event) → let c = run new_client es in IsOpen c.connection c.conns
run-IsOpen es = run_from-IsValid new_client es tt
