-- ===== src/AsyncClient.antt =====
-- src/client/rpc_async_client.cc: the client whose calls are answered from the threads of its event
-- loops. A caller, the thread that waits for a promise or the one that gave a callback, is known
-- by a number, and so are a TcpClient and an event loop. `promises` and `callbacks` are the two
-- tables of the calls that wait, `ready` are the threads that have their promise set and have not run
-- on, and `delivered` and `sent` say what the callers got and what was written to which TcpClient, the
-- latest first. `timers` are the timeouts that wait in a loop, with their loops. Each lock is held for one step.
-- Callbacks are not empty, and do not call the client again. There are fewer than 2 ^ 64 requests.
pub mod Choice
pub mod Calls
pub mod Connecting
pub mod Upkeep
pub mod Tally
pub mod Accounting
pub mod Answering
pub mod Steps
pub mod Settling
pub mod Awaited
pub mod Late
pub mod Affinity
pub mod Messages
pub mod Exchange
pub mod Arrival
use rpc_framework.Prelude.{
  ℕ, suc, Bool, true, false, List, [], ◌∷◌, Option, none, some, nat_eq, if◌then◌else◌,
}
use rpc_framework.Prelude.Table.{lookup, erase}
use rpc_framework.Network.Buffer.{Bytes}
use rpc_framework.Codec.Message.{
  RpcRequest, RpcResponse, Status, success, failed, timeout, DecodedPacket,
}
use rpc_framework.CircuitBreaker.{CircuitBreaker, record_success, record_failure}
use rpc_framework.ConsistentHash.{ConsistentHash}
use rpc_framework.Interceptor.{Interceptor, add_interceptor, breaker_pre}

-- What the interceptors of a chain share: the breaker, the time, and what the user's own keep.
pub record World (R : Type 0) : Type 0 where
  pub breaker : Option CircuitBreaker
  pub now : ℕ
  pub rest : R

pub data LbPolicy : Type 0 where
  rr consistent_hash : LbPolicy

-- The TcpClient of an endpoint is there as long as the endpoint is.
pub record Endpoint : Type 0 where
  pub host : Bytes
  pub port : ℕ
  pub tcp_client : ℕ
  pub loop : ℕ

pub record Completion : Type 0 where
  pub caller : ℕ
  pub resp : RpcResponse

pub record RpcAsyncClient (R : Type 0) : Type 0 where
  pub registered : Bool
  pub service_name : Bytes
  pub endpoints : List Endpoint
  pub rr_index : ℕ
  pub lb_policy : LbPolicy
  pub ring : Option ConsistentHash
  pub loop : Option ℕ
  pub loop_thread : Option ℕ
  pub owns_loop_thread : Bool
  pub owns_client : Bool
  pub borrowed_transport : Bool
  pub invalid : Bool
  pub tcp_client : Option ℕ
  pub connected : Bool
  pub disconnecting : Bool
  pub destroyed : Bool
  pub next_req_id : ℕ
  pub promises : List (ℕ × ℕ)
  pub callbacks : List (ℕ × ℕ)
  pub heartbeat_running : Bool
  pub heartbeat_loop : Option ℕ
  pub chain : List (Interceptor (World R))
  pub world : World R
  pub timers : List (ℕ × ℕ)
  pub ready : List (ℕ × RpcResponse)
  pub delivered : List Completion
  pub sent : List (ℕ × Bytes)

abbrev pub error_response : Bytes → RpcResponse
error_response why = record { success = false; payload = []; error_msg = why }

abbrev pub request_timeout : Bytes
request_timeout =
    114 ∷ 101 ∷ 113 ∷ 117 ∷ 101 ∷ 115 ∷ 116 ∷ 32 ∷ 116 ∷ 105 ∷ 109 ∷ 101 ∷ 111 ∷ 117 ∷ 116 ∷ []

abbrev pub is_success : Status → Bool
is_success success = true
is_success failed = false
is_success timeout = false

abbrev pub succeed : Option CircuitBreaker → Option CircuitBreaker
succeed none = none
succeed (some b) = some (record_success b)

abbrev pub fail : ℕ → Option CircuitBreaker → Option CircuitBreaker
fail now none = none
fail now (some b) = some (record_failure b now)

module _ {R : Type 0} where
  abbrev pub start : World R → RpcAsyncClient R
  start w = record {
    registered = false;
    service_name = [];
    endpoints = [];
    rr_index = 0;
    lb_policy = rr;
    ring = none;
    loop = none;
    loop_thread = none;
    owns_loop_thread = true;
    owns_client = false;
    borrowed_transport = false;
    invalid = false;
    tcp_client = none;
    connected = false;
    disconnecting = false;
    destroyed = false;
    next_req_id = 1;
    promises = [];
    callbacks = [];
    heartbeat_running = false;
    heartbeat_loop = none;
    chain = [];
    world = w;
    timers = [];
    ready = [];
    delivered = [];
    sent = [];
  }

  -- The constructor with a registry.
  abbrev pub start_registered : World R → Bytes → RpcAsyncClient R
  start_registered w service = record (start w) { registered = true; service_name = service }

  abbrev pub with_breaker : RpcAsyncClient R → Option CircuitBreaker → RpcAsyncClient R
  with_breaker c b = record c { world = record c.world { breaker = b } }

  abbrev pub deliver : RpcAsyncClient R → ℕ → RpcResponse → RpcAsyncClient R
  deliver c who resp = record c { delivered = record { caller = who; resp = resp } ∷ c.delivered }

  abbrev pub settle_callback : RpcAsyncClient R → ℕ → RpcResponse → Option ℕ → RpcAsyncClient R
  settle_callback c id resp none = c
  settle_callback c id resp (some who) =
      deliver (record c { callbacks = erase id c.callbacks }) who resp

  abbrev pub settle_promise : RpcAsyncClient R → ℕ → RpcResponse → Option ℕ → RpcAsyncClient R
  settle_promise c id resp none = settle_callback c id resp (lookup id c.callbacks)
  settle_promise c id resp (some who) = record c {
    promises = erase id c.promises;
    ready = (who, resp) ∷ c.ready;
  }

  -- Under the lock: the promise of the request is set, or else its callback is called.
  unfoldable pub settle : RpcAsyncClient R → ℕ → RpcResponse → RpcAsyncClient R
  settle c id resp = settle_promise c id resp (lookup id c.promises)

  unfoldable pub handle_timeout : RpcAsyncClient R → ℕ → RpcAsyncClient R
  handle_timeout c id =
      if c.destroyed
      then c
      else settle (with_breaker c (fail c.world.now c.world.breaker)) id
          (error_response request_timeout)

  -- The breaker hears of failures of the network only.
  abbrev pub heard : RpcAsyncClient R → Status → Option CircuitBreaker
  heard c status =
      if is_success status then succeed c.world.breaker else fail c.world.now c.world.breaker

  unfoldable pub handle_response : RpcAsyncClient R → DecodedPacket → RpcAsyncClient R
  handle_response c packet =
      settle (with_breaker c (heard c packet.network_status)) packet.req_id packet.rpc_response

  abbrev pub breaker_interceptor : Interceptor (World R)
  breaker_interceptor = record {
    pre_handle =
        λ w req. let (ok, b) = breaker_pre w.breaker w.now in (ok, req, record w { breaker = b });
    post_handle = λ w resp. w;
  }

  abbrev pub set_circuit_breaker : RpcAsyncClient R → CircuitBreaker → RpcAsyncClient R
  set_circuit_breaker c b = record (with_breaker c (some b)) {
    chain = add_interceptor c.chain breaker_interceptor;
  }

  -- The interceptor of a limiter is an argument.
  abbrev pub set_rate_limiter : RpcAsyncClient R → Interceptor (World R) → RpcAsyncClient R
  set_rate_limiter c limiter = record c { chain = add_interceptor c.chain limiter }
