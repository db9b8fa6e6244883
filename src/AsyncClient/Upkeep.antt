-- ===== src/AsyncClient/Upkeep.antt =====
-- src/client/rpc_async_client.cc: whether the client is connected, and its heartbeat.
use rpc_framework.Prelude.{
  ℕ, ◌&&◌, Bool, true, false, List, [], ◌∷◌, Option, none, some, if◌then◌else◌,
}
use rpc_framework.Codec.Message.{Heartbeat}
use rpc_framework.Codec.Encode.{encode_heartbeat}
use rpc_framework.AsyncClient.{RpcAsyncClient, Endpoint}
use rpc_framework.AsyncClient.Calls.{Net, timeout_loop}

abbrev pub is_up : Option Bool → Bool → Bool
is_up none rest = rest
is_up (some true) rest = true
is_up (some false) rest = rest

abbrev pub any_connected : Net → List Endpoint → Bool
any_connected net [] = false
any_connected net (e ∷ es) = is_up (net e.tcp_client) (any_connected net es)

module _ {R : Type 0} where
  abbrev pub is_connected_by : Net → RpcAsyncClient R → List Endpoint → Bool
  is_connected_by net c [] = c.connected
  is_connected_by net c (e ∷ es) = any_connected net (e ∷ es)

  unfoldable pub is_connected : Net → RpcAsyncClient R → Bool
  is_connected net c = is_connected_by net c c.endpoints

  abbrev pub start_heartbeat_on : RpcAsyncClient R → Option ℕ → RpcAsyncClient R
  start_heartbeat_on c none = c
  start_heartbeat_on c (some l) =
      if c.heartbeat_running
      then c
      else record c { heartbeat_running = true; heartbeat_loop = some l }

  -- The timer that it starts keeps the `tcp_client` of now.
  unfoldable pub start_heartbeat : RpcAsyncClient R → RpcAsyncClient R
  start_heartbeat c = start_heartbeat_on c (timeout_loop c.loop c.endpoints)

  -- With the loop whose `cancelTimer` is called.
  unfoldable pub stop_heartbeat : RpcAsyncClient R → RpcAsyncClient R × Option ℕ
  stop_heartbeat c =
      let off = record c { heartbeat_running = false } in
      if c.heartbeat_running
      then (record off { heartbeat_loop = none }, c.heartbeat_loop)
      else (off, none)

  abbrev pub beat_on : RpcAsyncClient R → Heartbeat → ℕ → Option Bool → RpcAsyncClient R
  beat_on c hb t none = c
  beat_on c hb t (some up) =
      if c.connected && up then record c { sent = (t, encode_heartbeat hb 0) ∷ c.sent } else c

  -- The heartbeat's timer, with the TcpClient that it keeps.
  unfoldable pub beat : RpcAsyncClient R → Net → Option ℕ → Heartbeat → RpcAsyncClient R
  beat c net none hb = c
  beat c net (some t) hb = beat_on c hb t (net t)
