-- ===== src/Examples/Calls.antt =====
-- A server with one service, and a call of it.
use rpc_framework.Prelude.{
  ℕ, ◌≡◌, refl, sym, ap, ◌∙◌, true, [], ◌∷◌, some, arith, length, nat_eq, list_eq,
}
use mathlib.Core.List.{append-nil}
use rpc_framework.Prelude.Table.{lookup}
use rpc_framework.Network.Buffer.{Bytes, new}
use rpc_framework.Network.Buffer.Contents.{contents}
use rpc_framework.Codec.Words.{big_endian, encode_u32, encode_u64}
use rpc_framework.Codec.Message.{RpcRequest, RpcResponse, success}
use rpc_framework.Codec.Encode.{
  encode_response, encode_response_body, fixed_header, pack, pack_body,
}
use rpc_framework.Server.{Outcome, returned, RpcService, RpcServer, on_message, call_method}
use rpc_framework.Server.Loop.{Ends, on_message-Ends}
use rpc_framework.Server.Answers.{
  Call, reply, reply_packet, all_packets, Answered, on_message-Answered,
}
use rpc_framework.Examples.{toy, loaded, loaded-IsValid, contents-loaded}
use rpc_framework.Examples.Packets.{a_request, a_body, request_bytes, encoded_request, request_size}

abbrev echo : RpcRequest → RpcResponse → Outcome
echo req resp = returned (record resp { success = true; payload = req.payload })

abbrev echo_service : RpcService
echo_service = record { service_name = 65 ∷ []; methods = (66 ∷ [], echo) ∷ [] }

abbrev pub echo_server : RpcServer
echo_server = record { services = (65 ∷ [], echo_service) ∷ [] }

abbrev a_call : Call
a_call = record { id = 9; service = 65 ∷ []; method = 66 ∷ []; req = a_request }

abbrev pub noon : ℕ → ℕ
noon n = 12

on_message-Ends_example :
    Ends
      (contents (loaded request_bytes))
      (on_message toy 1 echo_server noon (loaded request_bytes))
on_message-Ends_example =
    on_message-Ends toy echo_server noon 1 (loaded request_bytes) (loaded-IsValid request_bytes)
      (omega (arith, ap length (contents-loaded request_bytes), request_size))

one_packet : contents (loaded request_bytes) ≡ all_packets toy (a_call ∷ [])
unfolding all_packets
one_packet = contents-loaded request_bytes ∙ sym (append-nil request_bytes)

on_message-Answered_example :
    Answered toy echo_server noon
      (a_call ∷ [])
      (on_message toy 1 echo_server noon (loaded request_bytes))
on_message-Answered_example =
    on_message-Answered toy echo_server noon (a_call ∷ []) 1 (loaded request_bytes)
      (loaded-IsValid request_bytes) one_packet
      (omega (arith, ap length (contents-loaded request_bytes), request_size))
      ((omega arith, (a_body, encoded_request)), tt) (omega arith)

abbrev reply_body : Bytes
reply_body = 0 ∷ 0 ∷ 0 ∷ 0 ∷ 3 ∷ 1 ∷ 7 ∷ 8 ∷ []

encoded_reply : encode_response_body toy (reply echo_server a_call) success ≡ some reply_body
unfolding encode_response_body encode_u32 big_endian reply lookup call_method
encoded_reply = refl

reply_size : length (reply_packet toy echo_server a_call) ≡ 30
unfolding encode_response encode_response_body encode_u32 encode_u64 big_endian pack pack_body
    fixed_header reply lookup call_method
reply_size = refl

new-empty : contents new ≡ []
unfolding new
new-empty = refl
