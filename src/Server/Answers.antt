-- ===== src/Server/Answers.antt =====
-- What the server answers.
use rpc_framework.Prelude.{
  ℕ, zero, suc, ◌^◌, ◌≤◌, ◌<◌, ◌≡◌, refl, ap, ◌∙◌, true, false, List, [], ◌∷◌, ◌++◌, Option, none,
  some, arith, length, length-append, nat_eq, list_eq,
}
use rpc_framework.Prelude.Table.{lookup}
use rpc_framework.Network.Buffer.{Buffer, Bytes}
use rpc_framework.Network.Buffer.Contents.{IsValid, contents, length-contents}
use rpc_framework.Codec.Message.{RpcRequest, RpcResponse, request, DecodedPacket, Protobuf}
use rpc_framework.Codec.Encode.{
  encode_request, encode_response, encode_request_body, max_buffer_size,
}
use rpc_framework.Codec.Decode.{decode, Decoded}
use rpc_framework.Codec.Roundtrip.Request.{decode-encode_request}
use rpc_framework.Codec.Verdicts.Refusal.{decode_short}
use rpc_framework.Server.{
  RpcService, RpcServer, Handled, answer, respond, status_for, sends_before, rounds, on_message,
  empty_packet,
}

-- A call as the client sends it.
pub record Call : Type 0 where
  pub id : ℕ
  pub service : Bytes
  pub method : Bytes
  pub req : RpcRequest

-- What `decode` leaves in the packet.
abbrev pub decoded : DecodedPacket → Call → DecodedPacket
decoded p call = record p {
  msg_type = request;
  req_id = call.id;
  rpc_request = call.req;
  service_name = call.service;
  method_name = call.method;
}

-- The response that the server's services give.
unfoldable pub reply : RpcServer → Call → RpcResponse
reply server call = respond (lookup call.service server.services) (decoded empty_packet call)

module _ (proto : Protobuf) where
  abbrev pub call_packet : Call → Bytes
  call_packet call = encode_request proto call.req call.id call.service call.method

  unfoldable pub all_packets : List Call → Bytes
  all_packets [] = []
  all_packets (call ∷ calls) = call_packet call ++ all_packets calls

  -- The response packet of a call: its number, its response, and SUCCESS or FAILED.
  abbrev pub reply_packet : RpcServer → Call → Bytes
  reply_packet server call =
      encode_response proto (reply server call) call.id (status_for (reply server call).success)

  unfoldable pub all_replies : RpcServer → List Call → List Bytes
  all_replies server [] = []
  all_replies server (call ∷ calls) = reply_packet server call ∷ all_replies server calls

  -- The call is encoded without an error, under a 64-bit number.
  abbrev pub Encodable : Call → Type 0
  Encodable call =
      (call.id < 2 ^ 64)
      × ((body : Bytes) × (encode_request_body proto call.req call.service call.method ≡ some body))

  abbrev pub AllEncodable : List Call → Type 0
  AllEncodable [] = Unit {0}
  AllEncodable (call ∷ calls) = Encodable call × AllEncodable calls

  module _ (server : RpcServer) (time : ℕ → ℕ) where
    answer-decoded :
        (now : ℕ) (p : DecodedPacket) (call : Call)
        → answer proto server now (decoded p call) ≡ reply_packet server call ∷ []
    unfolding answer reply
    answer-decoded now p call = by_service (lookup call.service server.services) refl
      where
        by_service :
            (o : Option RpcService)
            → lookup call.service server.services ≡ o
            → answer proto server now (decoded p call) ≡ reply_packet server call ∷ []
        by_service none e = rw e refl
        by_service (some service) e = rw e refl

    -- The buffer is read to its end, and the calls are answered.
    abbrev pub Answered : List Call → Option Handled → Type 0
    Answered calls r =
        (left : Buffer) × (r ≡ some (all_replies server calls, left))
        × (contents left ≡ [])
        × IsValid left

    answers_next :
        (calls : List Call) (n : ℕ) (call : Call) (p : DecodedPacket) (d : Decoded)
        → d.0 ≡ true
        → d.2 ≡ decoded p call
        → Answered calls (rounds proto n server time (decode proto d.1 d.2))
        → Answered (call ∷ calls) (rounds proto (suc n) server time d)
    unfolding rounds all_replies
    answers_next calls n call p (false, b, q) ok e ih = cc
    answers_next calls n call p (true, b, q) ok e (left, done, empty, valid) = (
      left,
      ap (sends_before (answer proto server (time n) q)) done
          ∙ ap (λ (sent : List Bytes). some (sent ++ all_replies server calls, left))
              (ap (answer proto server (time n)) e ∙ answer-decoded (time n) p call),
      empty,
      valid,
    )

    rounds-Answered :
        (calls : List Call) (n : ℕ) (buf : Buffer) (p : DecodedPacket)
        → IsValid buf
        → contents buf ≡ all_packets calls
        → length (contents buf) ≤ max_buffer_size
        → AllEncodable calls
        → length calls ≤ n
        → Answered calls (rounds proto n server time (decode proto buf p))
    unfolding rounds all_packets all_replies
    rounds-Answered [] n buf p v holds small ok fuel =
        rw (decode_short proto buf v p (omega (arith, ap length holds, length-contents buf v)))
          (buf, refl, holds, v)
    rounds-Answered (call ∷ calls) zero buf p v holds small ok fuel =
        let no : ⊥ = omega arith in elim no [ ]
    rounds-Answered (call ∷ calls) (suc n) buf p v holds small ok fuel =
        let (success, left, packet) =
          decode-encode_request proto call.req call.service call.method buf p call.id ok.0.1.0
            (all_packets calls) v ok.0.0 ok.0.1.1 holds small in
        let ih =
          rounds-Answered calls n (decode proto buf p).1 (decode proto buf p).2 left.1 left.0
            (omega (
              arith,
              ap length left.0,
              ap length holds,
              length-append (call_packet call) (all_packets calls),
            ))
            ok.1 (omega arith) in
        answers_next calls n call p (decode proto buf p) success packet ih

    -- The calls that wait in the buffer, each encoded without an error and together within the
    -- buffer limit, are answered in order: `onMessage` sends for each one packet, the response of the registered
    -- services under the call's number, and nothing else, and reads the buffer to its end. As
    -- many rounds as calls are enough.
    pub on_message-Answered :
        (calls : List Call) (n : ℕ) (buf : Buffer)
        → IsValid buf
        → contents buf ≡ all_packets calls
        → length (contents buf) ≤ max_buffer_size
        → AllEncodable calls
        → length calls ≤ n
        → Answered calls (on_message proto n server time buf)
    unfolding on_message
    on_message-Answered calls n buf v holds small ok fuel =
        rounds-Answered calls n buf empty_packet v holds small ok fuel
