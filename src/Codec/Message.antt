-- ===== src/Codec/Message.antt =====
-- proto/rpc_service.proto and src/codec/rpc_codec.h: the messages and the decoded packet.
-- A `map<string, string>` is an association list. The serialiser that protobuf generates is a
-- parameter, with the laws that a request comes back from its own serialisation, and a response whose
-- error text is valid UTF-8. The metadata of a request are UTF-8 texts, as protobuf asks of whoever
-- fills them in.
use rpc_framework.Prelude.{ℕ, ◌≡◌, Bool, true, List, Option, some}
use rpc_framework.Network.Buffer.{Bytes}

pub record RpcRequest : Type 0 where
  pub payload : Bytes
  pub metadata : List (Bytes × Bytes)

pub record RpcResponse : Type 0 where
  pub success : Bool
  pub payload : Bytes
  pub error_msg : Bytes

-- The timestamp is the bit pattern of the `int64`.
pub record Heartbeat : Type 0 where
  pub service_name : Bytes
  pub node_id : Bytes
  pub timestamp : ℕ
  pub extra : List (Bytes × Bytes)

pub data MsgType : Type 0 where
  request response heartbeat : MsgType

abbrev pub msg_type_code : MsgType → ℕ
msg_type_code request = 0
msg_type_code response = 1
msg_type_code heartbeat = 2

pub data Status : Type 0 where
  success failed timeout : Status

abbrev pub status_code : Status → ℕ
status_code success = 0
status_code failed = 1
status_code timeout = 2

pub record DecodedPacket : Type 0 where
  pub msg_type : MsgType
  pub req_id : ℕ
  pub rpc_request : RpcRequest
  pub rpc_response : RpcResponse
  pub heartbeat : Heartbeat
  pub service_name : Bytes
  pub method_name : Bytes
  pub network_status : Status

-- `SerializeToString` may fail. `ParseFromString` returns whether it succeeded, and leaves the
-- message, which it clears first, as far as it could be read. `is_utf8` is the check of a text, which
-- the parser makes; the serialiser only logs that a text fails it.
pub record Protobuf : Type 0 where
  pub serialize_request : RpcRequest → Option Bytes
  pub parse_request : Bytes → Bool × RpcRequest
  pub serialize_response : RpcResponse → Option Bytes
  pub parse_response : Bytes → Bool × RpcResponse
  pub request_returns :
      (r : RpcRequest) (p : Bytes) → serialize_request r ≡ some p → parse_request p ≡ (true, r)
  pub is_utf8 : Bytes → Bool
  pub response_returns :
      (r : RpcResponse) (p : Bytes)
      → is_utf8 r.error_msg ≡ true
      → serialize_response r ≡ some p
      → parse_response p ≡ (true, r)
