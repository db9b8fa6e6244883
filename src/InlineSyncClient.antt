-- ===== src/InlineSyncClient.antt =====
-- src/client/inline_sync_client.cc: the client that drives the event loop in the caller's thread while it
-- waits for one response. A round of the loop is the time at which its wait is computed and what
-- the callbacks get in it. There are fewer than 2 ^ 64 calls, so numbers are not reused.
pub mod Outcome
use rpc_framework.Prelude.{
  ℕ, suc, ◌+◌, ◌-◌, ◌*◌, Bool, true, false, not, ◌&&◌, List, [], ◌∷◌, Option, none, some, ◌==◌,
  if◌then◌else◌,
}
use rpc_framework.Network.Buffer.{Bytes}
use rpc_framework.Codec.Message.{
  RpcRequest, RpcResponse, MsgType, request, response, heartbeat, DecodedPacket, Protobuf,
}
use rpc_framework.Codec.Encode.{encode_request}
use rpc_framework.PipelineClient.{ms_until, millisecond, request_timeout}

pub record InlineSyncClient : Type 0 where
  pub valid : Bool
  pub next_id : ℕ
  pub pending_id : ℕ
  pub done : Bool
  pub result : RpcResponse
  pub connect_done : Bool
  pub connect_ok : Bool

abbrev pub error_response : Bytes → RpcResponse
error_response why = record { success = false; payload = []; error_msg = why }

abbrev pub cleared : RpcResponse
cleared = error_response []

abbrev pub new_client : InlineSyncClient
new_client = record {
  valid = true;
  next_id = 1;
  pending_id = 0;
  done = false;
  result = cleared;
  connect_done = false;
  connect_ok = false;
}

-- "connection closed"
abbrev pub connection_closed : Bytes
connection_closed =
    99 ∷ 111 ∷ 110 ∷ 110 ∷ 101 ∷ 99 ∷ 116 ∷ 105 ∷ 111 ∷ 110 ∷ 32 ∷ 99 ∷ 108 ∷ 111 ∷ 115 ∷ 101 ∷ 100
    ∷ []

-- "not connected"
abbrev pub not_connected : Bytes
not_connected = 110 ∷ 111 ∷ 116 ∷ 32 ∷ 99 ∷ 111 ∷ 110 ∷ 110 ∷ 101 ∷ 99 ∷ 116 ∷ 101 ∷ 100 ∷ []

-- "encode failed"
abbrev pub encode_failed : Bytes
encode_failed = 101 ∷ 110 ∷ 99 ∷ 111 ∷ 100 ∷ 101 ∷ 32 ∷ 102 ∷ 97 ∷ 105 ∷ 108 ∷ 101 ∷ 100 ∷ []

-- What a round of the loop brings: the connection went up or down, or a packet was decoded.
pub data Happening : Type 0 where
  connection : Bool → Happening
  packet : DecodedPacket → Happening

abbrev pub finish : InlineSyncClient → RpcResponse → InlineSyncClient
finish c resp = record c { result = resp; done = true }

unfoldable pub on_connection : InlineSyncClient → Bool → InlineSyncClient
on_connection c up =
    let d = record c { connect_done = true; connect_ok = up } in
    if not up && (not (c.pending_id == 0) && not c.done)
    then finish d (error_response connection_closed)
    else d

abbrev pub on_packet_as : MsgType → InlineSyncClient → DecodedPacket → InlineSyncClient
on_packet_as request c p = c
on_packet_as heartbeat c p = c
on_packet_as response c p =
    if p.req_id == c.pending_id && not c.done then finish c p.rpc_response else c

-- The body of the loop of `onMessage`.
unfoldable pub on_packet : InlineSyncClient → DecodedPacket → InlineSyncClient
on_packet c p = on_packet_as p.msg_type c p

abbrev pub happen : InlineSyncClient → Happening → InlineSyncClient
happen c (connection up) = on_connection c up
happen c (packet p) = on_packet c p

unfoldable pub loop_once : InlineSyncClient → List Happening → InlineSyncClient
loop_once c [] = c
loop_once c (h ∷ hs) = loop_once (happen c h) hs

abbrev pub Round : Type 0
Round = ℕ × List Happening

-- The loop of `connect`.
unfoldable pub await_connection :
    ℕ → InlineSyncClient → List Round → Option (Bool × InlineSyncClient)
await_connection deadline c [] = if c.connect_done then some (c.connect_ok, c) else none
await_connection deadline c ((now, hs) ∷ rounds) =
    let rest = await_connection deadline (loop_once c hs) rounds in
    if c.connect_done
    then some (c.connect_ok, c)
    else if ms_until deadline now == 0
    then some (c.connect_ok, c)
    else rest

-- `start` is the time at which the deadline is computed; `none` is a wait that goes on.
unfoldable pub connect : InlineSyncClient → ℕ → ℕ → List Round → Option (Bool × InlineSyncClient)
connect c timeout_ms start rounds =
    if not c.valid
    then some (false, c)
    else await_connection (start + timeout_ms * millisecond)
        (record c { connect_done = false; connect_ok = false }) rounds

abbrev pub Returned : Type 0
Returned = Option (RpcResponse × InlineSyncClient)

abbrev pub leave : InlineSyncClient → RpcResponse → Returned
leave c resp = some (resp, record c { pending_id = 0 })

-- The loop of `call`.
unfoldable pub await : ℕ → InlineSyncClient → List Round → Returned
await deadline c [] = if c.done then leave (record c { result = cleared }) c.result else none
await deadline c ((now, hs) ∷ rounds) =
    let rest = await deadline (loop_once c hs) rounds in
    if c.done
    then leave (record c { result = cleared }) c.result
    else if ms_until deadline now == 0
    then leave c (error_response request_timeout)
    else rest

abbrev pub begin_call : InlineSyncClient → InlineSyncClient
begin_call c = record c {
  pending_id = c.next_id;
  next_id = suc c.next_id;
  done = false;
  result = cleared;
}

abbrev pub send_and_await : ℕ → InlineSyncClient → Bytes → List Round → Returned × List Bytes
send_and_await deadline c [] rounds = (leave c (error_response encode_failed), [])
send_and_await deadline c (b ∷ bytes) rounds = (await deadline c rounds, (b ∷ bytes) ∷ [])

module _ (proto : Protobuf) where
  -- With what is sent. `up`: there is a connection, and it is connected.
  unfoldable pub call :
      InlineSyncClient
      → Bool
      → Bytes
      → Bytes
      → RpcRequest
      → ℕ
      → ℕ
      → List Round
      → Returned × List Bytes
  call c false service method req timeout_ms start rounds =
      (some (error_response not_connected, c), [])
  call c true service method req timeout_ms start rounds =
      send_and_await (start + timeout_ms * millisecond) (begin_call c)
        (encode_request proto req c.next_id service method) rounds
