-- ===== src/Codec/Encode.antt =====
-- src/codec/rpc_codec.cc: from a message to the bytes of its packet.
pub mod Inversion
use rpc_framework.Prelude.{
  ℕ, ◌+◌, ◌≤◌, ◌<◌, ◌≡◌, Bool, List, [], ◌∷◌, ◌++◌, Option, none, some, ltb, if◌then◌else◌, length,
}
use rpc_framework.Network.Buffer.{Bytes}
use rpc_framework.Codec.Crc.{crc32}
use rpc_framework.Codec.Words.{encode_u16, encode_u32, encode_u64}
use rpc_framework.Codec.Message.{
  RpcRequest, RpcResponse, Heartbeat, MsgType, msg_type_code, Status, status_code, Protobuf,
  request, response, heartbeat,
}

abbrev pub magic : ℕ
magic = 0x5250_4346

abbrev pub version : ℕ
version = 1

abbrev pub fixed_header_size : ℕ
fixed_header_size = 18

abbrev pub checksum_size : ℕ
checksum_size = 4

abbrev pub max_body_len : ℕ
max_body_len = 10485760

abbrev pub max_scan_bytes : ℕ
max_scan_bytes = 1024

abbrev pub max_buffer_size : ℕ
max_buffer_size = 10485760

infixl 5 ◌>>=◌
abbrev pub ◌>>=◌ {ℓ κ} : {A : Type ℓ} {B : Type κ} → Option A → (A → Option B) → Option B
none >>= f = none
some a >>= f = f a

-- `none`: the string is too long for its two length bytes, and nothing is appended.
unfoldable pub append_string : Bytes → Bytes → Option Bytes
append_string out str =
    if ltb 65535 (length str) then none else some (out ++ (encode_u16 (length str) ++ str))

-- `return ""` on a failed step.
abbrev pub or_empty : Option Bytes → Bytes
or_empty none = []
or_empty (some body) = body

-- `struct FixedHeader` as it lies in memory, packed to one byte.
unfoldable pub fixed_header : MsgType → ℕ → ℕ → Bytes
fixed_header msg_type body_len req_id =
    encode_u32 magic
    ++ (version ∷ (msg_type_code msg_type ∷ (encode_u32 body_len ++ encode_u64 req_id)))

unfoldable pub pack : MsgType → ℕ → Bytes → Bytes
pack msg_type req_id body =
    let packet = fixed_header msg_type (length body) req_id ++ body in
    packet ++ encode_u32 (crc32 packet)

-- `if (body.empty()) return "";`
unfoldable pub pack_body : MsgType → ℕ → Bytes → Bytes
pack_body msg_type req_id [] = []
pack_body msg_type req_id (b ∷ body) = pack msg_type req_id (b ∷ body)

unfoldable pub append_pairs : Bytes → List (Bytes × Bytes) → Option Bytes
append_pairs out [] = some out
append_pairs out ((key, value) ∷ rest) = do
  out₁ ← append_string out key
  out₂ ← append_string out₁ value
  append_pairs out₂ rest

unfoldable pub encode_heartbeat_body : Heartbeat → Option Bytes
encode_heartbeat_body hb = do
  out₁ ← append_string [] hb.service_name
  out₂ ← append_string out₁ hb.node_id
  append_pairs (out₂ ++ (encode_u64 hb.timestamp ++ encode_u16 (length hb.extra))) hb.extra

unfoldable pub encode_heartbeat : Heartbeat → ℕ → Bytes
encode_heartbeat hb req_id = pack_body heartbeat req_id (or_empty (encode_heartbeat_body hb))

module _ (proto : Protobuf) where
  unfoldable pub encode_request_body : RpcRequest → Bytes → Bytes → Option Bytes
  encode_request_body req service_name method_name = do
    out₁ ← append_string [] service_name
    out₂ ← append_string out₁ method_name
    payload ← proto.serialize_request req
    some (out₂ ++ (encode_u32 (length payload) ++ payload))

  unfoldable pub encode_response_body : RpcResponse → Status → Option Bytes
  encode_response_body resp status = do
    payload ← proto.serialize_response resp
    some (status_code status ∷ (encode_u32 (length payload) ++ payload))

  unfoldable pub encode_request : RpcRequest → ℕ → Bytes → Bytes → Bytes
  encode_request req req_id service_name method_name =
      pack_body request req_id (or_empty (encode_request_body req service_name method_name))

  unfoldable pub encode_response : RpcResponse → ℕ → Status → Bytes
  encode_response resp req_id status =
      pack_body response req_id (or_empty (encode_response_body resp status))
