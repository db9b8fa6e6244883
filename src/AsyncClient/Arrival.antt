-- ===== src/AsyncClient/Arrival.antt =====
-- A call of src/client/rpc_async_client.cc, through the server, until its caller has the response.
use rpc_framework.Prelude.{
  ℕ, ◌^◌, ◌≤◌, ◌<◌, ◌≡◌, refl, sym, ap, ◌∙◌, true, false, List, [], ◌∷◌, none, some, arith, nat_eq,
  list_eq, length,
}
use mathlib.Core.List.{append-nil}
use rpc_framework.Prelude.Table.{lookup, insert, erase, lookup-insert, lookup-erase}
use rpc_framework.Network.Buffer.{Buffer, Bytes}
use rpc_framework.Network.Buffer.Contents.{IsValid, contents, length-contents}
use rpc_framework.Codec.Message.{RpcResponse, Status, response, DecodedPacket, Protobuf}
use rpc_framework.Codec.Encode.{encode_response, encode_response_body, max_buffer_size}
use rpc_framework.Codec.Decode.{decode, Decoded}
use rpc_framework.Codec.Roundtrip.Request.{decode-encode_request}
use rpc_framework.Codec.Roundtrip.Response.{decode-encode_response}
use rpc_framework.Codec.Verdicts.Consumption.{decode-Consumes}
use rpc_framework.Codec.Verdicts.Refusal.{decode_short}
use rpc_framework.Server.{RpcServer, status_for, empty_packet}
use rpc_framework.Server as Serving
use rpc_framework.Server.Answers.{reply, call_packet, reply_packet, Encodable, on_message-Answered}
use rpc_framework.Server.Answers as Answers
use rpc_framework.AsyncClient.{
  RpcAsyncClient, with_breaker, heard, settle, settle_promise, handle_response,
}
use rpc_framework.AsyncClient.Calls.{
  Net, Call, set_trace_id, on_packet, on_packet_as, resume, resume_with, rounds, on_message,
  async_call,
}
use rpc_framework.AsyncClient.Exchange.{IsDirect, next_packet, after_call, async_call-after}

lookup-first :
    (who : ℕ) (resp : RpcResponse) (ready : List (ℕ × RpcResponse))
    → lookup who ((who, resp) ∷ ready) ≡ some resp
unfolding lookup
lookup-first who resp ready = ground arith

lookup-inserted : (k who : ℕ) (m : List (ℕ × ℕ)) → lookup k (insert k who m) ≡ some who
lookup-inserted k who m = ground (arith, lookup-insert k k who m)

pub lookup-erased : (j k : ℕ) (m : List (ℕ × ℕ)) → j ≡ k → lookup k (erase j m) ≡ none
lookup-erased j k m same = ground (arith, lookup-erase j k m)

module _ (proto : Protobuf) where
  request-nonempty :
      (call : Answers.Call) (buf : Buffer) (packet : Bytes)
      → IsValid buf
      → Encodable proto call
      → contents buf ≡ call_packet proto call
      → length (contents buf) ≤ max_buffer_size
      → packet ≡ call_packet proto call
      → (b : ℕ) × (rest : Bytes) × (packet ≡ b ∷ rest)
  request-nonempty call buf (b ∷ rest) v ok holds room e = (b, rest, refl)
  request-nonempty call buf [] v ok holds room e =
      let (success, remains, filled) =
        decode-encode_request proto call.req call.service call.method buf empty_packet call.id
          ok.1.0 [] v ok.0 ok.1.1 (holds ∙ sym (append-nil (call_packet proto call))) room in
      let takes = decode-Consumes buf v proto empty_packet in
      let no : ⊥ = omega (arith, takes.progress success, ap length holds, ap length e) in
      elim no [ ]

module _ {R : Type 0} where
  -- The client when the promise of a packet's number is set.
  abbrev pub woken_by : RpcAsyncClient R → DecodedPacket → ℕ → RpcAsyncClient R
  woken_by c p who = record (with_breaker c (heard c p.network_status)) {
    promises = erase p.req_id c.promises;
    ready = (who, p.rpc_response) ∷ c.ready;
  }

  pub handle_response-wakes :
      (c : RpcAsyncClient R) (p : DecodedPacket) (who : ℕ)
      → lookup p.req_id c.promises ≡ some who
      → handle_response c p ≡ woken_by c p who
  unfolding handle_response settle
  handle_response-wakes c p who waits =
      ap (settle_promise (with_breaker c (heard c p.network_status)) p.req_id p.rpc_response) waits

  pub on_packet-response :
      (c : RpcAsyncClient R) (p : DecodedPacket)
      → p.msg_type ≡ response
      → on_packet c p ≡ handle_response c p
  unfolding on_packet
  on_packet-response c p is_one = ap (λ t. on_packet_as t c p) is_one

  resume-first :
      (c : RpcAsyncClient R) (p : DecodedPacket) (who : ℕ)
      → (resume (woken_by c p who) who).delivered
        ≡ record { caller = who; resp = p.rpc_response } ∷ c.delivered
  unfolding resume
  resume-first c p who =
      ap (λ o. (resume_with (woken_by c p who) who o).delivered)
        (lookup-first who p.rpc_response c.ready)

  module _ (proto : Protobuf) where
    rounds-one :
        (c : RpcAsyncClient R) (d : Decoded)
        → d.0 ≡ true
        → IsValid d.1
        → contents d.1 ≡ []
        → d.2.msg_type ≡ response
        → rounds proto 1 c d ≡ some (handle_response c d.2, d.1)
    unfolding rounds
    rounds-one c (false, b, p) ok v empty is_one = cc
    rounds-one c (true, b, p) ok v empty is_one =
        ap (rounds proto 0 (on_packet c p))
          (decode_short proto b v p (omega (arith, ap length empty, length-contents b v)))
        ∙ ap (λ x. some (x, b)) (on_packet-response c p is_one)

    -- The response packet arrives.
    arrives-wakes :
        (c : RpcAsyncClient R) (buf : Buffer) (id who : ℕ) (resp : RpcResponse) (st : Status)
        (body : Bytes)
        → IsValid buf
        → id < 2 ^ 64
        → proto.is_utf8 resp.error_msg ≡ true
        → encode_response_body proto resp st ≡ some body
        → contents buf ≡ encode_response proto resp id st
        → length (contents buf) ≤ max_buffer_size
        → lookup id c.promises ≡ some who
        → (p : DecodedPacket) × (left : Buffer) × (on_message proto 1 c buf
            ≡ some (woken_by c p who, left))
          × (contents left ≡ [])
          × (p.req_id ≡ id)
          × (p.rpc_response ≡ resp)
    unfolding on_message
    arrives-wakes c buf id who resp st body v small text encoded holds room waits =
        let d = decode proto buf empty_packet in
        let (success, remains, filled) =
          decode-encode_response proto resp st buf empty_packet id body [] v small text encoded
            (holds ∙ sym (append-nil (encode_response proto resp id st))) room in
        let numbered = ap (λ (q : DecodedPacket). q.req_id) filled in
        (
          d.2,
          d.1,
          rounds-one c d success remains.1 remains.0 (ap (λ (q : DecodedPacket). q.msg_type) filled)
              ∙ ap (λ x. some (x, d.1))
                  (handle_response-wakes c d.2 who
                    (ap (λ i. lookup i c.promises) numbered ∙ waits)),
          remains.0,
          numbered,
          ap (λ (q : DecodedPacket). q.rpc_response) filled,
        )

    -- The call as the server sees it.
    abbrev pub as_sent : RpcAsyncClient R → Call → Answers.Call
    as_sent c call = record {
      id = c.next_req_id;
      service = call.service;
      method = call.method;
      req = set_trace_id c.next_req_id call.stamp call.req;
    }

    -- A client with a connection of its own, no interceptor and no endpoint of a registry calls a
    -- service whose request and reply are encoded without an error, the reply's error text valid
    -- UTF-8, under a 64-bit number, their packets within the buffer limit. The connection is up, and the
    -- client gives it one packet, the call's; the server, whose buffer holds just
    -- that packet, sends one packet back; the client, whose buffer holds just that one, reads it to the
    -- end and takes the call out of its table, and the thread that waits gives its caller
    -- the registered services' reply, as the only new answer.
    pub async_call-answered :
        (server : RpcServer) (time : ℕ → ℕ) (c : RpcAsyncClient R) (net : Net) (t : ℕ) (call : Call)
        (buf buf' : Buffer) (body : Bytes)
        → IsDirect c net t
        → IsValid buf
        → contents buf ≡ next_packet proto c call
        → length (contents buf) ≤ max_buffer_size
        → Encodable proto (as_sent c call)
        → proto.is_utf8 (reply server (as_sent c call)).error_msg ≡ true
        → encode_response_body proto
            (reply server (as_sent c call))
            (status_for (reply server (as_sent c call)).success)
          ≡ some body
        → IsValid buf'
        → contents buf' ≡ reply_packet proto server (as_sent c call)
        → length (contents buf') ≤ max_buffer_size
        → let c' = async_call proto c net call in
          let packet = reply_packet proto server (as_sent c call) in
          (c'.sent ≡ (t, next_packet proto c call) ∷ c.sent)
          × ((left : Buffer) × (Serving.on_message proto 1 server time buf
                ≡ some (packet ∷ [], left)))
          × ((c'' : RpcAsyncClient R) × (left : Buffer) × (on_message proto 1 c' buf'
                ≡ some (c'', left))
              × (contents left ≡ [])
              × (lookup c.next_req_id c''.promises ≡ none)
              × ((resume c'' call.caller).delivered
                  ≡ record { caller = call.caller; resp = reply server (as_sent c call) }
                    ∷ c.delivered))
    unfolding Answers.all_replies Answers.all_packets
    async_call-answered server time c net t call buf buf' body direct v holds room ok text encoded
          v' holds' room' =
        let sent_call = as_sent c call in
        let id = c.next_req_id in
        let resp = reply server sent_call in
        let (b, rest, made) =
          request-nonempty proto sent_call buf (next_packet proto c call) v ok holds room refl in
        let (timers, after) = async_call-after proto c net t b call rest direct made in
        let (left, sent, drained, valid) =
          on_message-Answered proto server time (sent_call ∷ []) 1 buf v
            (holds ∙ sym (append-nil (call_packet proto sent_call))) room (ok, tt) (omega arith) in
        let c₁ = after_call proto c call t timers in
        let waits : lookup id c₁.promises ≡ some call.caller =
          lookup-inserted id call.caller c.promises in
        let (p, left', returns, empty, numbered, replied) =
          arrives-wakes c₁ buf' id call.caller resp (status_for resp.success) body v' ok.0 text
            encoded holds' room' waits in
        (
          ap (λ (x : RpcAsyncClient R). x.sent) after,
          (left, sent),
          (
            woken_by c₁ p call.caller,
            left',
            ap (λ x. on_message proto 1 x buf') after ∙ returns,
            empty,
            lookup-erased p.req_id id c₁.promises numbered,
            resume-first c₁ p call.caller
                ∙ ap (λ r. record { caller = call.caller; resp = r } ∷ c.delivered) replied,
          ),
        )
