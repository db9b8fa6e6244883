-- ===== src/AsyncClient/Answering.antt =====
-- What a new call adds to the calls that are answered or wait.
use rpc_framework.Prelude.{ℕ, Bool, true, false, List, [], ◌∷◌, ◌==◌, if-elim}
use rpc_framework.Codec.Message.{RpcRequest, Protobuf}
use rpc_framework.Codec.Encode.{encode_request}
use rpc_framework.Interceptor.{Interceptor, blocked_response, pre_all}
use rpc_framework.AsyncClient.{World, RpcAsyncClient, error_response}
use rpc_framework.AsyncClient.Calls.{
  Net, Call, invalid_reason, submit, schedule, traced, hash_key, number_taken, wait_on_promise,
  wait_on_callback, do_call, call_after, call_chained, async_call, callback_chained,
  async_call_back,
}
use rpc_framework.AsyncClient.Tally.{one_if}
use rpc_framework.AsyncClient.Accounting.{
  deliver-Adds, number_taken-IsValid, IsValid, Adds, Adds-trans, submit-Adds, schedule-Adds,
  wait_on_promise-Adds, wait_on_callback-Adds,
}

module _ {R : Type 0} where
  module _ (proto : Protobuf) where
    do_call-Adds :
        (who : ℕ) (c : RpcAsyncClient R) (net : Net) (call : Call)
        → IsValid c
        → Adds who
            (one_if (call.caller == who))
            c
            (do_call proto (number_taken c) net c.next_req_id call)
    unfolding do_call
    do_call-Adds who c net call v =
        let id = c.next_req_id in
        let w = wait_on_promise (number_taken c) id call.caller in
        let s = schedule w call.timeout_ms id in
        let p = encode_request proto (traced c.chain id call).req id call.service call.method in
        Adds-trans who (one_if (call.caller == who)) c s (submit s net id p (hash_key call))
          (schedule-Adds who (one_if (call.caller == who)) c w call.timeout_ms id
            (wait_on_promise-Adds who call.caller c v))
          (submit-Adds who s net id p (hash_key call))

    call_after-Adds :
        (who : ℕ) (c : RpcAsyncClient R) (net : Net) (call : Call) (a : Bool × RpcRequest × World R)
        → IsValid c
        → Adds who
            (one_if (call.caller == who))
            c
            (call_after proto (number_taken c) net c.next_req_id call a)
    call_after-Adds who c net call (false, req, w) v =
        deliver-Adds who call.caller (record (number_taken c) { world = w }) blocked_response
          (number_taken-IsValid c v)
    call_after-Adds who c net call (true, req, w) v =
        do_call-Adds who (record c { world = w }) net (record call { req = req }) v

    pub async_call-Adds :
        (who : ℕ) (c : RpcAsyncClient R) (net : Net) (call : Call)
        → IsValid c
        → Adds who (one_if (call.caller == who)) c (async_call proto c net call)
    unfolding async_call
    async_call-Adds who c net call v =
        if-elim (Adds who (one_if (call.caller == who)) c) c.invalid
          (λ _. deliver-Adds who call.caller c (error_response invalid_reason) v)
          (λ _. chained c.chain)
      where
        chained :
            (chain : List (Interceptor (World R)))
            → Adds who
                (one_if (call.caller == who))
                c
                (call_chained proto chain (number_taken c) net c.next_req_id call)
        chained [] = do_call-Adds who c net call v
        chained (i ∷ chain) =
            call_after-Adds who c net call (pre_all (i ∷ chain) c.world call.req) v

    pub async_call_back-Adds :
        (who : ℕ) (c : RpcAsyncClient R) (net : Net) (call : Call)
        → IsValid c
        → Adds who (one_if (call.caller == who)) c (async_call_back proto c net call)
    unfolding async_call_back
    async_call_back-Adds who c net call v =
        if-elim (Adds who (one_if (call.caller == who)) c) c.invalid
          (λ _. deliver-Adds who call.caller c (error_response invalid_reason) v)
          (λ _. chained c.chain)
      where
        chained :
            (chain : List (Interceptor (World R)))
            → Adds who
                (one_if (call.caller == who))
                c
                (callback_chained proto chain (number_taken c) net c.next_req_id call)
        chained [] =
            let id = c.next_req_id in
            let w = wait_on_callback (number_taken c) id call.caller in
            let s = schedule w call.timeout_ms id in
            let p = encode_request proto call.req id call.service call.method in
            Adds-trans who (one_if (call.caller == who)) c s (submit s net id p (hash_key call))
              (schedule-Adds who (one_if (call.caller == who)) c w call.timeout_ms id
                (wait_on_callback-Adds who call.caller c v))
              (submit-Adds who s net id p (hash_key call))
        chained (i ∷ chain) =
            call_after-Adds who c net call (pre_all (i ∷ chain) c.world call.req) v
