-- ===== src/Codec/Roundtrip/Request.antt =====
-- `encodeRequest` and then `decode`.
use rpc_framework.Prelude.{
  ℕ, ◌+◌, ◌^◌, ◌≤◌, ◌<◌, ◌≡◌, refl, sym, ap, ◌∙◌, true, [], ◌++◌, Option, some, some-eq-some, arith,
  ==_refl, length, length-append,
}
use mathlib.Core.List.{append_assoc, append-nil}
use rpc_framework.Network.Buffer.{Buffer, Bytes}
use rpc_framework.Network.Buffer.Contents.{IsValid, contents}
use rpc_framework.Codec.Words.{big_endian, encode_u16, encode_u32}
use rpc_framework.Codec.Message.{RpcRequest, request, DecodedPacket, Protobuf}
use rpc_framework.Codec.Encode.{
  append_string, encode_request_body, encode_request, pack_body, pack, or_empty, max_buffer_size,
}
use rpc_framework.Codec.Encode.Inversion.{>>=-eq-some, append_string-eq-some}
use rpc_framework.Codec.Cursor.Steps.{
  Left, Left-start, read_string_lem, Left-string, read_word_lem, Left-word, read_bytes_lem,
  Left-drop, Left-nil,
}
use rpc_framework.Codec.Decode.{decode, decode_request_body, run_body}
use rpc_framework.Codec.Roundtrip.Packet.{Leaves, length-body-le, decode-packed_ok, beyond}

module _ (proto : Protobuf) (req : RpcRequest) (service method : Bytes) where
  -- The fields of the body from left to right.
  abbrev fields : Bytes → Bytes
  fields payload =
      encode_u16 (length service)
      ++ (service
          ++ (encode_u16 (length method) ++ (method ++ (encode_u32 (length payload) ++ payload))))

  record Body (body : Bytes) : Type 0 where
    service_fits : length service ≤ 65535
    method_fits : length method ≤ 65535
    payload : Bytes
    serialized : proto.serialize_request req ≡ some payload
    layout : body ≡ fields payload

  nested :
      (o₁ o₂ payload : Bytes)
      → o₁ ≡ [] ++ (encode_u16 (length service) ++ service)
      → o₂ ≡ o₁ ++ (encode_u16 (length method) ++ method)
      → o₂ ++ (encode_u32 (length payload) ++ payload) ≡ fields payload
  nested o₁ o₂ payload e₁ e₂ = rw (e₂, e₁) (simp append_assoc)

  encode_request_body-Body :
      (body : Bytes) → encode_request_body proto req service method ≡ some body → Body body
  unfolding encode_request_body
  encode_request_body-Body body h =
      let (o₁, e₁, h₁) = >>=-eq-some (append_string [] service) _ h in
      let (o₂, e₂, h₂) = >>=-eq-some (append_string o₁ method) _ h₁ in
      let (payload, e₃, h₃) = >>=-eq-some (proto.serialize_request req) _ h₂ in
      let (s₁, q₁) = append_string-eq-some [] service e₁ in
      let (s₂, q₂) = append_string-eq-some o₁ method e₂ in
      record {
        service_fits = s₁;
        method_fits = s₂;
        payload = payload;
        serialized = e₃;
        layout = sym (some-eq-some h₃) ∙ nested o₁ o₂ payload q₁ q₂;
      }

  -- The body is not empty, so it is packed.
  pack_body-fields :
      (id : ℕ) (payload : Bytes)
      → pack_body request id (fields payload) ≡ pack request id (fields payload)
  unfolding pack_body encode_u16 big_endian
  pack_body-fields id payload = refl

  decode_request_body-fields :
      (payload rest : Bytes) (p : DecodedPacket)
      → length service ≤ 65535
      → length method ≤ 65535
      → length payload < 2 ^ 32
      → proto.serialize_request req ≡ some payload
      → run_body (decode_request_body proto (fields payload ++ rest) (length (fields payload))) p
        ≡ (true, record p { service_name = service; method_name = method; rpc_request = req })
  unfolding decode_request_body encode_u32
  decode_request_body-fields payload rest p hs hm hp e =
      let src : Bytes = fields payload ++ rest in
      let n : ℕ = length (fields payload) in
      let n₁ : ℕ = 0 + 2 + length service in
      let n₂ : ℕ = n₁ + 2 + length method in
      let l₀ = Left-start (fields payload) rest in
      let l₁ = Left-string src n 0 service _ l₀ in
      let l₂ = Left-string src n n₁ method _ l₁ in
      let l₃ : Left src n (n₂ + 4) (payload ++ []) =
        rw append-nil (Left-word src n n₂ 4 (length payload) payload l₂) in
      let l₄ = Left-drop src n (n₂ + 4) (length payload) payload [] refl l₃ in
      let p₁ = record p { service_name = service } in
      let p₂ = record p₁ { method_name = method } in
      rw (
        read_string_lem src n 0 p service _ hs l₀,
        read_string_lem src n n₁ p₁ method _ hm l₁,
        read_word_lem src n n₂ 4 (length payload) p₂ payload hp l₂,
        read_bytes_lem src n (n₂ + 4) (length payload) p₂ payload [] refl l₃,
        Left-nil src n (n₂ + 4 + length payload) l₄,
        ==_refl n,
        proto.request_returns req payload e,
      )

  length-payload-le : (payload : Bytes) → length payload ≤ length (fields payload)
  length-payload-le payload =
      let tail = encode_u32 (length payload) ++ payload in
      omega (
        arith,
        length-append (encode_u16 (length service))
            (service ++ (encode_u16 (length method) ++ (method ++ tail))),
        length-append service (encode_u16 (length method) ++ (method ++ tail)),
        length-append (encode_u16 (length method)) (method ++ tail),
        length-append method tail,
        length-append (encode_u32 (length payload)) payload,
      )

  -- A valid buffer that begins with the packet of a request, encoded without an error, with a
  -- 64-bit request number, and that holds at most the buffer limit: `decode` returns true, fills
  -- in the request, its number, its service and its method and leaves the packet's other fields,
  -- and consumes exactly the packet, so that the bytes behind it are what is readable.
  pub decode-encode_request :
      (buf : Buffer) (p : DecodedPacket) (id : ℕ) (body rest : Bytes)
      → IsValid buf
      → id < 2 ^ 64
      → encode_request_body proto req service method ≡ some body
      → contents buf ≡ encode_request proto req id service method ++ rest
      → length (contents buf) ≤ max_buffer_size
      → let (ok, buf', p') = decode proto buf p in
        (ok ≡ true)
        × Leaves buf' rest
        × (p' ≡ record p {
          msg_type = request;
          req_id = id;
          rpc_request = req;
          service_name = service;
          method_name = method;
        })
  unfolding encode_request
  decode-encode_request buf p id body rest v small encoded looks room =
      let b = encode_request_body-Body body encoded in
      let packed : contents buf ≡ pack request id (fields b.payload) ++ rest =
        looks
        ∙ ap (λ (o : Option Bytes). pack_body request id (or_empty o) ++ rest)
            (encoded ∙ ap some b.layout)
        ∙ ap (λ (xs : Bytes). xs ++ rest) (pack_body-fields id b.payload) in
      decode-packed_ok proto request id (fields b.payload) rest buf p
        (record p { service_name = service; method_name = method; rpc_request = req }) v small
        packed room
        (decode_request_body-fields b.payload (beyond proto request id (fields b.payload) rest buf)
          p b.service_fits b.method_fits
          (omega (
            arith,
            length-payload-le b.payload,
            length-body-le request id (fields b.payload) rest buf v packed room,
          ))
          b.serialized)
