-- ===== src/AsyncClient/Exchange.antt =====
-- A call of `asyncCall` of src/client/rpc_async_client.cc up to the packet that it writes.
use rpc_framework.Prelude.{
  true, ℕ, ◌≡◌, refl, sym, ap, ◌∙◌, false, List, [], ◌∷◌, Option, none, some, ◌==◌, if-elim, nat_eq,
  list_eq,
}
use rpc_framework.Network.Buffer.{Bytes}
use rpc_framework.Codec.Message.{Protobuf}
use rpc_framework.Codec.Encode.{encode_request}
use rpc_framework.AsyncClient.{RpcAsyncClient}
use rpc_framework.AsyncClient.Choice.{get_tcp_client}
use rpc_framework.AsyncClient.Calls.{
  Net, Call, send_request, submit, run_after, schedule, timeout_loop, hash_key, async_call, do_call,
  traced, set_trace_id, number_taken, wait_on_promise,
}

module _ {R : Type 0} where
  -- The client writes over its own connection, which the network has.
  pub record IsDirect (c : RpcAsyncClient R) (net : Net) (t : ℕ) : Type 0 where
    pub allowed : c.invalid ≡ false
    pub no_chain : c.chain ≡ []
    pub goes_on : c.disconnecting ≡ false
    pub no_endpoints : c.endpoints ≡ []
    pub own : c.tcp_client ≡ some t
    pub there : net t ≡ some true

  submit-written :
      (c : RpcAsyncClient R) (net : Net) (t id b : ℕ) (packet key : Bytes)
      → c.disconnecting ≡ false
      → c.endpoints ≡ []
      → c.tcp_client ≡ some t
      → net t ≡ some true
      → submit c net id (b ∷ packet) key ≡ record c { sent = (t, b ∷ packet) ∷ c.sent }
  unfolding send_request get_tcp_client
  submit-written c net t id b packet key on none_there own there = rw (none_there, own, on, there)

  schedule-keeps :
      (c : RpcAsyncClient R) (ms id : ℕ)
      → (timers : List (ℕ × ℕ)) × (schedule c ms id ≡ record c { timers = timers })
  unfolding schedule
  schedule-keeps c ms id = at (timeout_loop c.loop c.endpoints)
    where
      at :
          (l : Option ℕ)
          → (timers : List (ℕ × ℕ)) × (run_after c ms id l ≡ record c { timers = timers })
      at none = (c.timers, refl)
      at (some l) =
          if-elim
            (λ (d : RpcAsyncClient R). (timers : List (ℕ × ℕ)) × (d ≡ record c { timers = timers }))
            (ms == 0) (λ _. (c.timers, refl)) (λ _. ((l, id) ∷ c.timers, refl))

  module _ (proto : Protobuf) where
    -- The packet of the next call.
    abbrev pub next_packet : RpcAsyncClient R → Call → Bytes
    next_packet c call =
        encode_request proto (set_trace_id c.next_req_id call.stamp call.req) c.next_req_id
          call.service call.method

    do_call-unchained :
        (c : RpcAsyncClient R) (net : Net) (id : ℕ) (call : Call)
        → c.chain ≡ []
        → do_call proto c net id call
          ≡ submit
              (schedule (wait_on_promise c id call.caller) call.timeout_ms id)
              net
              id
              (encode_request proto
                (set_trace_id id call.stamp call.req)
                id
                call.service
                call.method)
              (hash_key call)
    unfolding do_call
    do_call-unchained c net id call none_there =
        ap
          (λ chain.
            submit (schedule (wait_on_promise c id call.caller) call.timeout_ms id) net id
              (encode_request proto (traced chain id call).req id call.service call.method)
              (hash_key call))
          none_there

    async_call-unchained :
        (c : RpcAsyncClient R) (net : Net) (call : Call)
        → c.invalid ≡ false
        → c.chain ≡ []
        → async_call proto c net call ≡ do_call proto (number_taken c) net c.next_req_id call
    unfolding async_call
    async_call-unchained c net call allowed none_there = rw (allowed, none_there) refl

    -- What a call leaves of the client.
    abbrev pub after_call : RpcAsyncClient R → Call → ℕ → List (ℕ × ℕ) → RpcAsyncClient R
    after_call c call t timers =
        record (wait_on_promise (number_taken c) c.next_req_id call.caller) {
          timers = timers;
          sent = (t, next_packet c call) ∷ c.sent;
        }

    pub async_call-after :
        (c : RpcAsyncClient R) (net : Net) (t b : ℕ) (call : Call) (packet : Bytes)
        → IsDirect c net t
        → next_packet c call ≡ b ∷ packet
        → (timers : List (ℕ × ℕ)) × (async_call proto c net call ≡ after_call c call t timers)
    async_call-after c net t b call packet d made =
        let id = c.next_req_id in
        let c₁ = wait_on_promise (number_taken c) id call.caller in
        let (timers, kept) = schedule-keeps c₁ call.timeout_ms id in
        let c₂ = record c₁ { timers = timers } in
        (
          timers,
          async_call-unchained c net call d.allowed d.no_chain
              ∙ do_call-unchained (number_taken c) net id call d.no_chain
              ∙ ap (λ x. submit x net id (next_packet c call) (hash_key call)) kept
              ∙ ap (λ bytes. submit c₂ net id bytes (hash_key call)) made
              ∙ submit-written c₂ net t id b packet (hash_key call) d.goes_on d.no_endpoints d.own
                  d.there
              ∙ ap (λ bytes. record c₂ { sent = (t, bytes) ∷ c.sent }) (sym made),
        )
