-- ===== src/Examples/Exchanges.antt =====
-- A call of an asynchronous client with a connection of its own, answered by the echo server; its
-- serialiser knows the metadata of the first call only.
use rpc_framework.Prelude.{
  ℕ, ◌≡◌, refl, ap, Bool, true, List, [], ◌∷◌, Option, none, some, if◌then◌else◌, arith, length,
  drop, nat_eq, list_eq, Eq,
}
use rpc_framework.Prelude.Table.{lookup, insert}
use rpc_framework.Network.Buffer.{Buffer, Bytes}
use rpc_framework.Network.Buffer.Contents.{contents, IsValid as IsBufferValid}
use rpc_framework.Codec.Words.{big_endian, encode_u16, encode_u32, encode_u64}
use rpc_framework.Codec.Message.{RpcRequest, success, Protobuf}
use rpc_framework.Codec.Encode.{
  encode_request, encode_request_body, encode_response, encode_response_body, append_string,
  fixed_header, pack, pack_body,
}
use rpc_framework.Interceptor.{trace_id}
use rpc_framework.Server.{on_message, call_method}
use rpc_framework.Server.Answers.{reply, reply_packet}
use rpc_framework.AsyncClient.{RpcAsyncClient}
use rpc_framework.AsyncClient.Calls.{async_call, resume}
use rpc_framework.AsyncClient.Calls as Calls
use rpc_framework.AsyncClient.Accounting.{IsValid, Adds}
use rpc_framework.AsyncClient.Answering.{async_call-Adds}
use rpc_framework.AsyncClient.Exchange.{IsDirect, next_packet}
use rpc_framework.AsyncClient.Arrival.{as_sent, async_call-answered}
use rpc_framework.AsyncClient.Messages.{on_message-Adds}
use rpc_framework.Examples.{toy, loaded, loaded-IsValid, contents-loaded}
use rpc_framework.Examples.Async.{a_client, a_client-IsValid, a_call, up}
use rpc_framework.Examples.Calls.{echo_server, noon}

abbrev mark : Bytes
mark = 49 ∷ 45 ∷ []

abbrev bytes_eq : Eq Bytes
bytes_eq = list_eq

abbrev marked : List (Bytes × Bytes) → Bytes → Option Bytes
marked [] payload = none
marked ((k, v) ∷ []) payload =
    if bytes_eq.beq k trace_id then (if bytes_eq.beq v mark then some payload else none) else none
marked (m ∷ (n ∷ metadata)) payload = none

abbrev unmarked : Bytes → Bool × RpcRequest
unmarked payload = (true, record { payload = payload; metadata = (trace_id, mark) ∷ [] })

marked_returns :
    (metadata : List (Bytes × Bytes)) (payload p : Bytes)
    → marked metadata payload ≡ some p
    → unmarked p ≡ (true, record { payload = payload; metadata = metadata })
marked_returns [] payload p h = cc
marked_returns ((k, v) ∷ []) payload p h =
    ground (arith, bytes_eq.beq_iff k trace_id, bytes_eq.beq_iff v mark)
marked_returns (m ∷ (n ∷ metadata)) payload p h = cc

abbrev stamped : Protobuf
stamped = record {
  serialize_request = λ r. marked r.metadata r.payload;
  parse_request = unmarked;
  serialize_response = toy.serialize_response;
  parse_response = toy.parse_response;
  request_returns = λ r p h. marked_returns r.metadata r.payload p h;
  is_utf8 = toy.is_utf8;
  response_returns = toy.response_returns;
}

abbrev direct : RpcAsyncClient (Unit {0})
direct = record a_client { tcp_client = some 3; loop = some 4 }

direct-IsDirect : IsDirect direct up 3
direct-IsDirect = record {
  allowed = refl;
  no_chain = refl;
  goes_on = refl;
  no_endpoints = refl;
  own = refl;
  there = refl;
}

abbrev sent_body : Bytes
sent_body = 0 ∷ 1 ∷ 65 ∷ 0 ∷ 1 ∷ 66 ∷ 0 ∷ 0 ∷ 0 ∷ 2 ∷ 7 ∷ 8 ∷ []

encoded_call :
    let sent = as_sent stamped direct (a_call 8) in
    encode_request_body stamped sent.req sent.service sent.method ≡ some sent_body
unfolding encode_request_body append_string encode_u16 encode_u32 big_endian insert
encoded_call = refl

call_size : length (next_packet stamped direct (a_call 8)) ≡ 34
unfolding encode_request encode_request_body append_string encode_u16 encode_u32 encode_u64 pack
    pack_body fixed_header big_endian insert
call_size = refl

abbrev answer : Bytes
answer = reply_packet stamped echo_server (as_sent stamped direct (a_call 8))

abbrev answer_body : Bytes
answer_body = 0 ∷ 0 ∷ 0 ∷ 0 ∷ 3 ∷ 1 ∷ 7 ∷ 8 ∷ []

encoded_answer :
    encode_response_body stamped (reply echo_server (as_sent stamped direct (a_call 8))) success
    ≡ some answer_body
unfolding encode_response_body encode_u32 big_endian reply lookup call_method insert
encoded_answer = refl

answer_size : length answer ≡ 30
unfolding encode_response encode_response_body encode_u32 encode_u64 big_endian pack pack_body
    fixed_header reply lookup call_method insert
answer_size = refl

async_call-answered_example :
    let c' = async_call stamped direct up (a_call 8) in
    (c'.sent ≡ (3, next_packet stamped direct (a_call 8)) ∷ [])
    × ((left : Buffer) × (on_message stamped 1 echo_server noon
            (loaded (next_packet stamped direct (a_call 8)))
          ≡ some (answer ∷ [], left)))
    × ((c'' : RpcAsyncClient (Unit {0})) × (left : Buffer) × (Calls.on_message stamped 1 c'
            (loaded answer)
          ≡ some (c'', left))
        × (contents left ≡ [])
        × (lookup 1 c''.promises ≡ none)
        × ((resume c'' 8).delivered
            ≡ record { caller = 8; resp = reply echo_server (as_sent stamped direct (a_call 8)) }
              ∷ []))
unfolding reply lookup call_method
async_call-answered_example =
    async_call-answered stamped echo_server noon direct up 3 (a_call 8)
      (loaded (next_packet stamped direct (a_call 8))) (loaded answer) answer_body direct-IsDirect
      (loaded-IsValid (next_packet stamped direct (a_call 8)))
      (contents-loaded (next_packet stamped direct (a_call 8)))
      (omega
        (arith, ap length (contents-loaded (next_packet stamped direct (a_call 8))), call_size))
      (omega arith, (sent_body, encoded_call)) refl encoded_answer (loaded-IsValid answer)
      (contents-loaded answer) (omega (arith, ap length (contents-loaded answer), answer_size))

abbrev waiting : RpcAsyncClient (Unit {0})
waiting = async_call stamped direct up (a_call 8)

waiting-IsValid : IsValid waiting
waiting-IsValid = (async_call-Adds stamped 8 direct up (a_call 8) a_client-IsValid).0

on_message-Adds_example :
    (c' : RpcAsyncClient (Unit {0})) × (left : Buffer) × (taken : ℕ) × (Calls.on_message stamped 1
        waiting
        (loaded answer)
      ≡ some (c', left))
    × Adds 8 0 waiting c'
    × IsBufferValid left
    × (contents left ≡ drop taken (contents (loaded answer)))
on_message-Adds_example =
    on_message-Adds stamped 1 8 waiting (loaded answer) (loaded-IsValid answer) waiting-IsValid
      (omega (arith, ap length (contents-loaded answer), answer_size))
