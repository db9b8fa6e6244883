-- ===== src/Examples/Packets.antt =====
-- The round trips of the codec, at a small request, response and heartbeat.
use rpc_framework.Prelude.{◌≡◌, refl, sym, ap, ◌∙◌, true, [], ◌∷◌, some, arith, length}
use mathlib.Core.List.{append-nil}
use rpc_framework.Network.Buffer.{Bytes}
use rpc_framework.Codec.Words.{big_endian, encode_u16, encode_u32, encode_u64}
use rpc_framework.Codec.Message.{RpcRequest, RpcResponse, Heartbeat, request, response, success}
use rpc_framework.Codec.Encode.{
  encode_request, encode_request_body, encode_response, encode_response_body, encode_heartbeat,
  encode_heartbeat_body, append_string, append_pairs, fixed_header, pack, pack_body,
}
use rpc_framework.Codec.Decode.{decode}
use rpc_framework.Codec.Roundtrip.Packet.{Leaves}
use rpc_framework.Codec.Roundtrip.Request.{decode-encode_request}
use rpc_framework.Codec.Roundtrip.Response.{decode-encode_response}
use rpc_framework.Codec.Verdicts.Consumption.{Consumes, decode-Consumes}
use rpc_framework.Server.{empty_packet}
use rpc_framework.Examples.{toy, loaded, loaded-IsValid, contents-loaded}

abbrev pub a_request : RpcRequest
a_request = record { payload = 7 ∷ 8 ∷ []; metadata = [] }

abbrev pub a_body : Bytes
a_body = 0 ∷ 1 ∷ 65 ∷ 0 ∷ 1 ∷ 66 ∷ 0 ∷ 0 ∷ 0 ∷ 2 ∷ 7 ∷ 8 ∷ []

abbrev pub request_bytes : Bytes
request_bytes = encode_request toy a_request 9 (65 ∷ []) (66 ∷ [])

pub encoded_request : encode_request_body toy a_request (65 ∷ []) (66 ∷ []) ≡ some a_body
unfolding encode_request_body append_string encode_u16 encode_u32 big_endian
encoded_request = refl

pub request_size : length request_bytes ≡ 34
unfolding encode_request encode_request_body append_string encode_u16 encode_u32 encode_u64 pack
    pack_body fixed_header big_endian
request_size = refl

decode-encode_request_example :
    let (ok, buf', p') = decode toy (loaded request_bytes) empty_packet in
    (ok ≡ true)
    × Leaves buf' []
    × (p' ≡ record empty_packet {
      msg_type = request;
      req_id = 9;
      rpc_request = a_request;
      service_name = 65 ∷ [];
      method_name = 66 ∷ [];
    })
decode-encode_request_example =
    decode-encode_request toy a_request (65 ∷ []) (66 ∷ []) (loaded request_bytes) empty_packet 9
      a_body [] (loaded-IsValid request_bytes) (omega arith) encoded_request
      (contents-loaded request_bytes ∙ sym (append-nil request_bytes))
      (omega (arith, ap length (contents-loaded request_bytes), request_size))

decode-Consumes_example :
    Consumes (loaded request_bytes) (decode toy (loaded request_bytes) empty_packet)
decode-Consumes_example =
    decode-Consumes (loaded request_bytes) (loaded-IsValid request_bytes) toy empty_packet

abbrev a_response : RpcResponse
a_response = record { success = true; payload = 5 ∷ []; error_msg = [] }

abbrev response_bytes : Bytes
response_bytes = encode_response toy a_response 9 success

encoded_response :
    encode_response_body toy a_response success ≡ some (0 ∷ 0 ∷ 0 ∷ 0 ∷ 2 ∷ 1 ∷ 5 ∷ [])
unfolding encode_response_body encode_u32 big_endian
encoded_response = refl

response_size : length response_bytes ≡ 29
unfolding encode_response encode_response_body encode_u32 encode_u64 pack pack_body fixed_header
    big_endian
response_size = refl

decode-encode_response_example :
    let (ok, buf', p') = decode toy (loaded response_bytes) empty_packet in
    (ok ≡ true)
    × Leaves buf' []
    × (p' ≡ record empty_packet {
      msg_type = response;
      req_id = 9;
      rpc_response = a_response;
      network_status = success;
    })
decode-encode_response_example =
    decode-encode_response toy a_response success (loaded response_bytes) empty_packet 9
      (0 ∷ 0 ∷ 0 ∷ 0 ∷ 2 ∷ 1 ∷ 5 ∷ []) [] (loaded-IsValid response_bytes) (omega arith) refl
      encoded_response (contents-loaded response_bytes ∙ sym (append-nil response_bytes))
      (omega (arith, ap length (contents-loaded response_bytes), response_size))

abbrev a_heartbeat : Heartbeat
a_heartbeat = record {
  service_name = 65 ∷ [];
  node_id = 66 ∷ [];
  timestamp = 3;
  extra = (1 ∷ [], 2 ∷ []) ∷ [];
}

abbrev heartbeat_bytes : Bytes
heartbeat_bytes = encode_heartbeat a_heartbeat 9

abbrev heartbeat_body : Bytes
heartbeat_body =
    0 ∷ 1 ∷ 65 ∷ 0 ∷ 1 ∷ 66 ∷ 0 ∷ 0 ∷ 0 ∷ 0 ∷ 0 ∷ 0 ∷ 0 ∷ 3 ∷ 0 ∷ 1 ∷ 0 ∷ 1 ∷ 1 ∷ 0 ∷ 1 ∷ 2 ∷ []

encoded_heartbeat : encode_heartbeat_body a_heartbeat ≡ some heartbeat_body
unfolding encode_heartbeat_body append_string append_pairs encode_u16 encode_u64 big_endian
encoded_heartbeat = refl

heartbeat_size : length heartbeat_bytes ≡ 44
unfolding encode_heartbeat encode_heartbeat_body append_string append_pairs encode_u16 encode_u32
    encode_u64 pack pack_body fixed_header big_endian
heartbeat_size = refl
