-- ===== src/Server/EndToEnd.antt =====
-- One call from the client's request to the response that the client decodes.
use rpc_framework.Prelude.{ℕ, ◌≤◌, ◌≡◌, sym, ap, ◌∙◌, true, [], ◌∷◌, ◌++◌, some, arith, length}
use mathlib.Core.List.{append-nil}
use rpc_framework.Network.Buffer.{Buffer, Bytes, append}
use rpc_framework.Network.Buffer.Contents.{IsValid, contents, contents-append, append-IsValid}
use rpc_framework.Codec.Message.{response, DecodedPacket, Protobuf}
use rpc_framework.Codec.Encode.{encode_response_body, max_buffer_size}
use rpc_framework.Codec.Decode.{decode}
use rpc_framework.Codec.Roundtrip.Response.{decode-encode_response}
use rpc_framework.Server.{RpcServer, on_message, status_for}
use rpc_framework.Server.Answers.{
  Call, reply, call_packet, all_packets, reply_packet, all_replies, Encodable, on_message-Answered,
}

module _ (proto : Protobuf) (server : RpcServer) (time : ℕ → ℕ) where
  -- A call whose request and reply are encoded without an error, the reply's error text valid UTF-8, under a 64-bit number, their
  -- packets within the buffer limit: a server whose buffer holds just the request sends one packet,
  -- and a client that had an empty buffer decodes from it a response with the call's number,
  -- the registered services' reply and the status that tells whether it succeeded.
  pub call_returns :
      (call : Call) (buf client : Buffer) (p : DecodedPacket) (body : Bytes)
      → IsValid buf
      → IsValid client
      → contents buf ≡ call_packet proto call
      → contents client ≡ []
      → Encodable proto call
      → proto.is_utf8 (reply server call).error_msg ≡ true
      → encode_response_body proto (reply server call) (status_for (reply server call).success)
        ≡ some body
      → length (contents buf) ≤ max_buffer_size
      → length (reply_packet proto server call) ≤ max_buffer_size
      → let packet = reply_packet proto server call in
        let d = decode proto (append client packet) p in
        ((left : Buffer) × (on_message proto 1 server time buf ≡ some (packet ∷ [], left)))
        × (d.0 ≡ true)
        × (contents d.1 ≡ [])
        × (d.2.msg_type ≡ response)
        × (d.2.req_id ≡ call.id)
        × (d.2.rpc_response ≡ reply server call)
        × (d.2.network_status ≡ status_for (reply server call).success)
  unfolding all_replies all_packets
  call_returns call buf client p body v w holds empty ok text encoded small small' =
      let packet = reply_packet proto server call in
      let (left, sent, drained, valid) =
        on_message-Answered proto server time (call ∷ []) 1 buf v
          (holds ∙ sym (append-nil (call_packet proto call))) small (ok, tt) (omega arith) in
      let arrives : contents (append client packet) ≡ packet =
        contents-append client packet w ∙ ap (λ (xs : Bytes). xs ++ packet) empty in
      let (success, remains, filled) =
        decode-encode_response proto (reply server call) (status_for (reply server call).success)
          (append client packet) p call.id body [] (append-IsValid client packet w) ok.0 text
          encoded (arrives ∙ sym (append-nil packet)) (omega (arith, ap length arrives)) in
      (
        (left, sent),
        success,
        remains.0,
        ap (λ (q : DecodedPacket). q.msg_type) filled,
        ap (λ (q : DecodedPacket). q.req_id) filled,
        ap (λ (q : DecodedPacket). q.rpc_response) filled,
        ap (λ (q : DecodedPacket). q.network_status) filled,
      )
