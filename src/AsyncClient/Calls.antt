-- ===== src/AsyncClient/Calls.antt =====
-- src/client/rpc_async_client.cc: the calls, and what arrives for them. `net` is what the
-- TcpClients answer at the time of the step: none where there is no connection, and else whether
-- it is up. A timeout of 0 stands for one that is not positive.
use rpc_framework.Prelude.{
  ℕ, zero, suc, Bool, true, false, List, [], ◌∷◌, ◌++◌, Option, none, some, if◌then◌else◌, ◌==◌,
  nat_eq, list_eq,
}
use rpc_framework.Prelude.Table.{lookup, insert}
use rpc_framework.Network.Buffer.{Buffer, Bytes}
use rpc_framework.Codec.Message.{
  RpcRequest, RpcResponse, MsgType, request, response, heartbeat, DecodedPacket, Protobuf,
}
use rpc_framework.Codec.Encode.{encode_request}
use rpc_framework.Codec.Decode.{decode, Decoded}
use rpc_framework.ConsistentHash.{decimal_onto}
use rpc_framework.Interceptor.{
  Interceptor, blocked_response, pre_all, reversed_onto, post_in_turn, trace_id,
}
use rpc_framework.Server.{empty_packet}
use rpc_framework.AsyncClient.{
  World, RpcAsyncClient, Endpoint, error_response, deliver, handle_timeout, handle_response,
}
use rpc_framework.AsyncClient.Choice.{get_tcp_client}

abbrev pub Net : Type 0
Net = ℕ → Option Bool

-- "TcpClient already owned by another RpcAsyncClient"
abbrev pub invalid_reason : Bytes
invalid_reason =
    84 ∷ 99 ∷ 112 ∷ 67 ∷ 108 ∷ 105 ∷ 101 ∷ 110 ∷ 116 ∷ 32 ∷ 97 ∷ 108 ∷ 114 ∷ 101 ∷ 97 ∷ 100 ∷ 121
    ∷ 32 ∷ 111 ∷ 119 ∷ 110 ∷ 101 ∷ 100 ∷ 32 ∷ 98 ∷ 121 ∷ 32 ∷ 97 ∷ 110 ∷ 111 ∷ 116 ∷ 104 ∷ 101 ∷ 114
    ∷ 32 ∷ 82 ∷ 112 ∷ 99 ∷ 65 ∷ 115 ∷ 121 ∷ 110 ∷ 99 ∷ 67 ∷ 108 ∷ 105 ∷ 101 ∷ 110 ∷ 116 ∷ []

-- The parameters of a call: who calls, what, for how many milliseconds, and the text of the clock and
-- the thread in a trace identifier.
pub record Call : Type 0 where
  pub caller : ℕ
  pub service : Bytes
  pub method : Bytes
  pub req : RpcRequest
  pub timeout_ms : ℕ
  pub stamp : Bytes

abbrev pub hash_key : Call → Bytes
hash_key call = call.service ++ (47 ∷ call.method)

-- The number has at most twenty digits.
abbrev pub made_trace_id : ℕ → Bytes → Bytes
made_trace_id id stamp = decimal_onto 20 id [] ++ (45 ∷ stamp)

abbrev pub set_trace_id : ℕ → Bytes → RpcRequest → RpcRequest
set_trace_id id stamp req = record req {
  metadata = insert trace_id (made_trace_id id stamp) req.metadata;
}

abbrev pub timeout_loop : Option ℕ → List Endpoint → Option ℕ
timeout_loop l [] = l
timeout_loop l (e ∷ es) = some e.loop

-- A timer of a loop runs out: the first one for a request in that loop.
abbrev pub take_timer : ℕ → ℕ → List (ℕ × ℕ) → List (ℕ × ℕ)
take_timer l id [] = []
take_timer l id ((k, i) ∷ timers) =
    let rest = take_timer l id timers in
    if k == l then (if i == id then timers else (k, i) ∷ rest) else (k, i) ∷ rest

unfoldable pub has_timer : ℕ → ℕ → List (ℕ × ℕ) → Bool
has_timer l id [] = false
has_timer l id ((k, i) ∷ timers) =
    let rest = has_timer l id timers in if k == l then (if i == id then true else rest) else rest

-- The first thread of a caller is taken out.
unfoldable pub drop_first : ℕ → List (ℕ × RpcResponse) → List (ℕ × RpcResponse)
drop_first who [] = []
drop_first who ((w, resp) ∷ ready) =
    let rest = drop_first who ready in if w == who then ready else (w, resp) ∷ rest

module _ {R : Type 0} where
  -- A connection that is down drops the message, and the timeout of the call tells its caller.
  abbrev pub write_to : RpcAsyncClient R → ℕ → Bytes → ℕ → Option Bool → RpcAsyncClient R
  write_to c id packet t none = handle_timeout c id
  write_to c id packet t (some up) = if up then record c { sent = (t, packet) ∷ c.sent } else c

  abbrev pub send_via : RpcAsyncClient R → Net → ℕ → Bytes → Option ℕ → RpcAsyncClient R
  send_via c net id packet none = handle_timeout c id
  send_via c net id packet (some t) = write_to c id packet t (net t)

  abbrev pub send_chosen : Option ℕ × RpcAsyncClient R → Net → ℕ → Bytes → RpcAsyncClient R
  send_chosen (t, c) net id packet =
      if c.disconnecting then handle_timeout c id else send_via c net id packet t

  unfoldable pub send_request : RpcAsyncClient R → Net → ℕ → Bytes → Bytes → RpcAsyncClient R
  send_request c net id packet key = send_chosen (get_tcp_client c key) net id packet

  abbrev pub submit : RpcAsyncClient R → Net → ℕ → Bytes → Bytes → RpcAsyncClient R
  submit c net id [] key = handle_timeout c id
  submit c net id (b ∷ packet) key = send_request c net id (b ∷ packet) key

  abbrev pub run_after : RpcAsyncClient R → ℕ → ℕ → Option ℕ → RpcAsyncClient R
  run_after c timeout_ms id none = c
  run_after c timeout_ms id (some l) =
      if timeout_ms == 0 then c else record c { timers = (l, id) ∷ c.timers }

  unfoldable pub schedule : RpcAsyncClient R → ℕ → ℕ → RpcAsyncClient R
  schedule c timeout_ms id = run_after c timeout_ms id (timeout_loop c.loop c.endpoints)

  abbrev pub traced : List (Interceptor (World R)) → ℕ → Call → Call
  traced [] id call = record call { req = set_trace_id id call.stamp call.req }
  traced (i ∷ chain) id call = call

  abbrev pub number_taken : RpcAsyncClient R → RpcAsyncClient R
  number_taken c = record c { next_req_id = suc c.next_req_id }

  abbrev pub wait_on_promise : RpcAsyncClient R → ℕ → ℕ → RpcAsyncClient R
  wait_on_promise c id who = record c { promises = insert id who c.promises }

  abbrev pub wait_on_callback : RpcAsyncClient R → ℕ → ℕ → RpcAsyncClient R
  wait_on_callback c id who = record c { callbacks = insert id who c.callbacks }

  -- Only a timer that is there can fire.
  unfoldable pub timer_fires : RpcAsyncClient R → ℕ → ℕ → RpcAsyncClient R
  timer_fires c l id =
      if has_timer l id c.timers
      then handle_timeout (record c { timers = take_timer l id c.timers }) id
      else c

  -- A thread whose promise is set runs on, through the rest of the chain; then its caller has
  -- the response.
  abbrev pub resume_with : RpcAsyncClient R → ℕ → Option RpcResponse → RpcAsyncClient R
  resume_with c who none = c
  resume_with c who (some resp) =
      deliver
        (record c {
          ready = drop_first who c.ready;
          world = post_in_turn (reversed_onto c.chain []) c.world resp;
        })
        who resp

  unfoldable pub resume : RpcAsyncClient R → ℕ → RpcAsyncClient R
  resume c who = resume_with c who (lookup who c.ready)

  abbrev pub on_packet_as : MsgType → RpcAsyncClient R → DecodedPacket → RpcAsyncClient R
  on_packet_as request c packet = c
  on_packet_as heartbeat c packet = c
  on_packet_as response c packet = handle_response c packet

  unfoldable pub on_packet : RpcAsyncClient R → DecodedPacket → RpcAsyncClient R
  on_packet c packet = on_packet_as packet.msg_type c packet

  module _ (proto : Protobuf) where
    -- Up to the wait for the promise.
    unfoldable pub do_call : RpcAsyncClient R → Net → ℕ → Call → RpcAsyncClient R
    do_call c net id call =
        let t = traced c.chain id call in
        submit (schedule (wait_on_promise c id call.caller) call.timeout_ms id) net id
          (encode_request proto t.req id call.service call.method) (hash_key call)

    abbrev pub call_after :
        RpcAsyncClient R → Net → ℕ → Call → Bool × RpcRequest × World R → RpcAsyncClient R
    call_after c net id call (false, req, w) =
        deliver (record c { world = w }) call.caller blocked_response
    call_after c net id call (true, req, w) =
        do_call (record c { world = w }) net id (record call { req = req })

    -- Through the chain, which is around `doCall`; without one it is called at once.
    abbrev pub call_chained :
        List (Interceptor (World R)) → RpcAsyncClient R → Net → ℕ → Call → RpcAsyncClient R
    call_chained [] c net id call = do_call c net id call
    call_chained (i ∷ chain) c net id call =
        call_after c net id call (pre_all (i ∷ chain) c.world call.req)

    unfoldable pub async_call : RpcAsyncClient R → Net → Call → RpcAsyncClient R
    async_call c net call =
        if c.invalid
        then deliver c call.caller (error_response invalid_reason)
        else call_chained c.chain (number_taken c) net c.next_req_id call

    abbrev pub callback_chained :
        List (Interceptor (World R)) → RpcAsyncClient R → Net → ℕ → Call → RpcAsyncClient R
    callback_chained [] c net id call =
        submit (schedule (wait_on_callback c id call.caller) call.timeout_ms id) net id
          (encode_request proto call.req id call.service call.method) (hash_key call)
    callback_chained (i ∷ chain) c net id call =
        call_after c net id call (pre_all (i ∷ chain) c.world call.req)

    -- The overload with a callback, which is called with the result of the chain if there is one.
    unfoldable pub async_call_back : RpcAsyncClient R → Net → Call → RpcAsyncClient R
    async_call_back c net call =
        if c.invalid
        then deliver c call.caller (error_response invalid_reason)
        else callback_chained c.chain (number_taken c) net c.next_req_id call

    -- The loop of `onMessage` for at most the given count of rounds.
    unfoldable pub rounds : ℕ → RpcAsyncClient R → Decoded → Option (RpcAsyncClient R × Buffer)
    rounds n c (false, buf, packet) = some (c, buf)
    rounds zero c (true, buf, packet) = none
    rounds (suc n) c (true, buf, packet) = rounds n (on_packet c packet) (decode proto buf packet)

    unfoldable pub on_message : ℕ → RpcAsyncClient R → Buffer → Option (RpcAsyncClient R × Buffer)
    on_message n c buf = rounds n c (decode proto buf empty_packet)
