-- ===== src/Network/TcpClient.antt =====
-- src/network/tcp_client.cc: a client that owns a connector and the connection that it handed over last.
-- The connections are known by the order in which they were made, and `made` is how many. What
-- `connector_->start()` and `stop()` post to the loop is a step of its own, and so is what a connection
-- posts. The client lives as long as its connections do.
pub mod Current
pub mod Permanent
use rpc_framework.Prelude.{
  ℕ, suc, Bool, true, false, not, ◌&&◌, List, [], ◌∷◌, Option, none, some, ◌==◌, if◌then◌else◌,
  nat_eq,
}
use rpc_framework.Prelude.Table.{lookup, insert}
use rpc_framework.Network.Connector as Connecting
use rpc_framework.Network.Connector.{
  Connector, new_connector, ConnectResult, ConnectorState, connecting, restart, wants,
}
use rpc_framework.Network.Connection as Conn
use rpc_framework.Network.Connection.{
  TcpConnection, new_connection, connect_established, connect_destroyed, is_connected, disconnects,
}

pub record TcpClient : Type 0 where
  pub connector : Connector
  pub conns : List (ℕ × TcpConnection)
  pub made : ℕ
  pub connection : Option ℕ
  pub retry_on_disconnect : Bool
  pub disconnecting : Bool

abbrev pub new_client : TcpClient
new_client = record {
  connector = new_connector;
  conns = [];
  made = 0;
  connection = none;
  retry_on_disconnect = true;
  disconnecting = false;
}

-- `newConnection`, for the socket that the connector hands over.
abbrev pub new_connection_on : TcpClient → TcpClient
new_connection_on c = record c {
  conns = insert c.made (connect_established new_connection) c.conns;
  made = suc c.made;
  connection = some c.made;
}

-- A step of the connector, which may hand a socket over.
unfoldable pub connector_step : TcpClient → Connecting.Event → TcpClient
connector_step c e =
    let k = Connecting.step c.connector e in
    if k.handed == c.connector.handed
    then record c { connector = k }
    else new_connection_on (record c { connector = k })

-- `r` is how the attempt of a restart goes.
abbrev pub removed : TcpClient → ConnectResult → TcpClient
removed c r =
    if c.retry_on_disconnect && not c.disconnecting
    then record c { connection = none; connector = restart c.connector r }
    else record c { connection = none }

abbrev pub remove_from : Option ℕ → TcpClient → ℕ → ConnectResult → TcpClient
remove_from none c i r = c
remove_from (some j) c i r = if j == i then removed c r else c

-- The close callback of a connection; one that was replaced is ignored.
unfoldable pub remove_connection : TcpClient → ℕ → ConnectResult → TcpClient
remove_connection c i r = remove_from c.connection c i r

abbrev pub step_of : Option TcpConnection → TcpClient → ℕ → Conn.Event → ConnectResult → TcpClient
step_of none c i e r = c
step_of (some t) c i e r =
    let t' = Conn.step t e in
    let c' = record c { conns = insert i t' c.conns } in
    if t'.closed == t.closed then c' else remove_connection c' i r

-- A step of a connection, and its close callback if it is called.
unfoldable pub connection_step : TcpClient → ℕ → Conn.Event → ConnectResult → TcpClient
connection_step c i e r = step_of (lookup i c.conns) c i e r

unfoldable pub connect : TcpClient → TcpClient
connect c = connector_step c (wants true)

unfoldable pub stop : TcpClient → TcpClient
stop c = connector_step c (wants false)

-- `conn->shutdown()` if there is a connection.
abbrev pub shut_down : Option ℕ → TcpClient → ConnectResult → TcpClient
shut_down none c r = c
shut_down (some i) c r = connection_step c i disconnects r

unfoldable pub disconnect : TcpClient → ConnectResult → TcpClient
disconnect c r = shut_down c.connection c r

unfoldable pub disconnect_permanently : TcpClient → ConnectResult → TcpClient
disconnect_permanently c r =
    let s = stop (record c { disconnecting = true }) in shut_down s.connection s r

abbrev pub is_up : Option TcpConnection → Bool
is_up none = false
is_up (some t) = is_connected t.state

abbrev pub current : Option ℕ → List (ℕ × TcpConnection) → Option TcpConnection
current none conns = none
current (some i) conns = lookup i conns

abbrev pub is_connecting : ConnectorState → Bool
is_connecting connecting = true
is_connecting Connecting.disconnected = false
is_connecting Connecting.connected = false

-- The functor that `ensureConnected` posts.
unfoldable pub ensure_connected : TcpClient → ConnectResult → TcpClient
ensure_connected c r =
    if is_up (current c.connection c.conns)
    then c
    else if is_connecting c.connector.state
    then c
    else record c { connector = restart c.connector r }

-- What happens to a client; the answers of the system calls come with it.
pub data Event : Type 0 where
  connects : Event
  stops : Event
  in_connector : Connecting.Event → Event
  in_connection : ℕ → Conn.Event → ConnectResult → Event
  shuts : ConnectResult → Event
  ends : ConnectResult → Event
  ensures : ConnectResult → Event
  sets_retry : Bool → Event

abbrev pub step : TcpClient → Event → TcpClient
step c connects = connect c
step c stops = stop c
step c (in_connector e) = connector_step c e
step c (in_connection i e r) = connection_step c i e r
step c (shuts r) = disconnect c r
step c (ends r) = disconnect_permanently c r
step c (ensures r) = ensure_connected c r
step c (sets_retry on) = record c { retry_on_disconnect = on }

unfoldable pub run : TcpClient → List Event → TcpClient
run c [] = c
run c (e ∷ es) = run (step c e) es
