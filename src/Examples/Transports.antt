-- ===== src/Examples/Transports.antt =====
-- A client and a server of the transport, and a call that is driven by its caller.
use rpc_framework.Prelude.{◌+◌, ◌*◌, ◌≡◌, inl, refl, true, false, List, [], ◌∷◌, some, arith}
use rpc_framework.Network.Buffer.{Bytes}
use rpc_framework.Network.Connector.{in_progress, transient, writable, expires, starts}
use rpc_framework.Network.Connection.{closes}
use rpc_framework.Network.TcpClient.{
  TcpClient, new_client, disconnect_permanently, Event, connects, in_connector, in_connection,
  sets_retry, run,
}
use rpc_framework.Network.TcpClient.Permanent.{disconnect_permanently-ends}
use rpc_framework.Network.TcpServer as Server
use rpc_framework.Network.TcpServer.{new_server, destroy}
use rpc_framework.Network.TcpServer.Removal.{count_id, given, destroy-once}
use rpc_framework.Codec.Message.{RpcResponse}
use rpc_framework.Codec.Words.{big_endian, encode_u16, encode_u32, encode_u64}
use rpc_framework.Codec.Encode.{
  encode_request, encode_request_body, append_string, fixed_header, pack, pack_body,
}
use rpc_framework.InlineSyncClient as Inline
use rpc_framework.InlineSyncClient.{InlineSyncClient, Round, connection, packet, call}
use rpc_framework.InlineSyncClient.Outcome.{outcome, response_of, call-outcome, call-returns}
use rpc_framework.PipelineClient.{millisecond}
use rpc_framework.Server.{empty_packet}
use rpc_framework.Examples.{toy}
use rpc_framework.Examples.Packets.{a_request, request_bytes}

abbrev connected_client : TcpClient
connected_client =
    run new_client (connects ∷ in_connector (starts in_progress) ∷ in_connector (writable 0) ∷ [])

abbrev late_events : List Event
late_events =
    sets_retry true
    ∷ in_connection 0 closes in_progress
    ∷ in_connector (expires in_progress)
    ∷ in_connector (writable 0)
    ∷ []

disconnect_permanently-ends_example :
    (run (disconnect_permanently connected_client transient) late_events).made
    ≡ connected_client.made
disconnect_permanently-ends_example =
    disconnect_permanently-ends connected_client transient late_events (tt, (tt, (tt, (tt, tt))))

abbrev server_events : List Server.Event
server_events =
    Server.accepts 0
    ∷ Server.accepts 5
    ∷ Server.closes 1
    ∷ Server.closes 1
    ∷ Server.removes 1
    ∷ Server.removes 1
    ∷ []

destroy-once_example :
    let s = Server.run (new_server 2 60) server_events in
    count_id 1 (destroy s).destroyed ≡ given 1 s
destroy-once_example = destroy-once 2 60 server_events 1

-- A response to another call, and then the end of the connection.
abbrev some_rounds : List Round
some_rounds = (1, packet empty_packet ∷ []) ∷ (2, connection false ∷ []) ∷ []

call-returns_example :
    (resp : RpcResponse) × (response_of
        (call toy Inline.new_client true (65 ∷ []) (66 ∷ []) a_request 0 0 some_rounds).0
      ≡ some resp)
call-returns_example =
    call-returns toy Inline.new_client true (65 ∷ []) (66 ∷ []) a_request 0 0 some_rounds
      (omega arith) (inl (omega arith))

abbrev busy_client : InlineSyncClient
busy_client = record Inline.new_client { next_id = 9 }

abbrev after_first : Bytes → Bytes
after_first [] = []
after_first (b ∷ bytes) = bytes

abbrev packet_rest : Bytes
packet_rest = after_first request_bytes

encoded_call : encode_request toy a_request 9 (65 ∷ []) (66 ∷ []) ≡ 82 ∷ packet_rest
unfolding encode_request encode_request_body append_string encode_u16 encode_u32 encode_u64 pack
    pack_body fixed_header big_endian
encoded_call = refl

call-outcome_example :
    let r = call toy busy_client true (65 ∷ []) (66 ∷ []) a_request 1000 0 some_rounds in
    (response_of r.0 ≡ outcome (0 + 1000 * millisecond) 9 some_rounds)
    × (r.1 ≡ (82 ∷ packet_rest) ∷ [])
call-outcome_example =
    call-outcome toy busy_client (65 ∷ []) (66 ∷ []) a_request 1000 0 some_rounds 82 packet_rest
      (omega arith) encoded_call
