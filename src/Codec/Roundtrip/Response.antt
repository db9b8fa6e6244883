-- ===== src/Codec/Roundtrip/Response.antt =====
-- `encodeResponse` and then `decode`.
use rpc_framework.Prelude.{
  ℕ, ◌+◌, ◌^◌, ◌≤◌, ◌<◌, ◌≡◌, refl, sym, ap, ◌∙◌, true, [], ◌∷◌, ◌++◌, Option, some, arith, ==_refl,
  length, length-append,
}
use mathlib.Core.List.{append-nil}
use rpc_framework.Network.Buffer.{Buffer, Bytes}
use rpc_framework.Network.Buffer.Contents.{IsValid, contents}
use rpc_framework.Codec.Words.{big_endian, encode_u32}
use rpc_framework.Codec.Message.{
  RpcResponse, response, Status, success, failed, timeout, status_code, DecodedPacket, Protobuf,
}
use rpc_framework.Codec.Encode.{
  encode_response_body, encode_response, pack_body, pack, or_empty, max_buffer_size,
}
use rpc_framework.Codec.Encode.Inversion.{>>=-eq-some}
use rpc_framework.Codec.Cursor.Steps.{
  Left, Left-start, read_word_lem, Left-word, read_bytes_lem, Left-drop, Left-nil,
}
use rpc_framework.Codec.Decode.{decode, decode_response_body, run_body, status_of}
use rpc_framework.Codec.Roundtrip.Packet.{Leaves, length-body-le, decode-packed_ok, beyond}

status_byte : (st : Status) → big_endian 1 (status_code st) ≡ status_code st ∷ []
unfolding big_endian
status_byte success = refl
status_byte failed = refl
status_byte timeout = refl

pub status_of-status_code : (st : Status) → status_of (status_code st) ≡ st
unfolding status_of
status_of-status_code success = refl
status_of-status_code failed = refl
status_of-status_code timeout = refl

status_code-lt : (st : Status) → status_code st < 256 ^ 1
status_code-lt success = omega arith
status_code-lt failed = omega arith
status_code-lt timeout = omega arith

module _ (proto : Protobuf) (resp : RpcResponse) (st : Status) where
  abbrev fields : Bytes → Bytes
  fields payload = status_code st ∷ (encode_u32 (length payload) ++ payload)

  decode_response_body-fields :
      (payload rest : Bytes) (p : DecodedPacket)
      → length payload < 2 ^ 32
      → proto.is_utf8 resp.error_msg ≡ true
      → proto.serialize_response resp ≡ some payload
      → run_body (decode_response_body proto (fields payload ++ rest) (length (fields payload))) p
        ≡ (true, record p { rpc_response = resp; network_status = st })
  unfolding decode_response_body encode_u32
  decode_response_body-fields payload rest p hp text e =
      let src : Bytes = fields payload ++ rest in
      let n : ℕ = length (fields payload) in
      let l₀ : Left src n 0
          (big_endian 1 (status_code st) ++ (encode_u32 (length payload) ++ payload)) =
        rw (status_byte st) (Left-start (fields payload) rest) in
      let l₁ = Left-word src n 0 1 (status_code st) _ l₀ in
      let l₂ : Left src n (0 + 1 + 4) (payload ++ []) =
        rw append-nil (Left-word src n (0 + 1) 4 (length payload) payload l₁) in
      let l₃ = Left-drop src n (0 + 1 + 4) (length payload) payload [] refl l₂ in
      rw (
        read_word_lem src n 0 1 (status_code st) p _ (status_code-lt st) l₀,
        read_word_lem src n (0 + 1) 4 (length payload) p payload hp l₁,
        read_bytes_lem src n (0 + 1 + 4) (length payload) p payload [] refl l₂,
        Left-nil src n (0 + 1 + 4 + length payload) l₃,
        ==_refl n,
        proto.response_returns resp payload text e,
        status_of-status_code st,
      )

  -- A valid buffer that begins with the packet of a response whose error text is valid UTF-8, encoded
  -- without an error, with a 64-bit request number, and that holds at most the buffer limit: `decode` returns true, fills
  -- in the response, its number and its network status and leaves the packet's other fields, and
  -- consumes exactly the packet.
  pub decode-encode_response :
      (buf : Buffer) (p : DecodedPacket) (id : ℕ) (body rest : Bytes)
      → IsValid buf
      → id < 2 ^ 64
      → proto.is_utf8 resp.error_msg ≡ true
      → encode_response_body proto resp st ≡ some body
      → contents buf ≡ encode_response proto resp id st ++ rest
      → length (contents buf) ≤ max_buffer_size
      → let (ok, buf', p') = decode proto buf p in
        (ok ≡ true)
        × Leaves buf' rest
        × (p' ≡ record p {
          msg_type = response;
          req_id = id;
          rpc_response = resp;
          network_status = st;
        })
  unfolding encode_response encode_response_body
  decode-encode_response buf p id body rest v small text encoded looks room =
      let (payload, serialized, made) = >>=-eq-some (proto.serialize_response resp) _ encoded in
      let packed : contents buf ≡ pack response id (fields payload) ++ rest =
        looks
        ∙ ap (λ (o : Option Bytes). pack_body response id (or_empty o) ++ rest) (encoded ∙ sym made)
        ∙ unfold pack_body in refl in
      decode-packed_ok proto response id (fields payload) rest buf p
        (record p { rpc_response = resp; network_status = st }) v small packed room
        (decode_response_body-fields payload (beyond proto response id (fields payload) rest buf) p
          (omega (
            arith,
            length-append (encode_u32 (length payload)) payload,
            length-body-le response id (fields payload) rest buf v packed room,
          ))
          text serialized)
