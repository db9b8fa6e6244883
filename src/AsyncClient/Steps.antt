-- ===== src/AsyncClient/Steps.antt =====
-- The client over any events.
use rpc_framework.Prelude.{
  ℕ, suc, ◌+◌, Bool, not, ◌&&◌, List, [], ◌∷◌, Option, none, some, arith, ◌==◌, if-elim,
}
use rpc_framework.Codec.Message.{Heartbeat, DecodedPacket, Protobuf}
use rpc_framework.CircuitBreaker.{CircuitBreaker}
use rpc_framework.Interceptor.{Interceptor}
use rpc_framework.AsyncClient.{
  World, RpcAsyncClient, LbPolicy, rr, consistent_hash, set_circuit_breaker, set_rate_limiter,
}
use rpc_framework.AsyncClient.Choice.{set_lb_policy}
use rpc_framework.AsyncClient.Calls.{
  Net, Call, timeout_loop, has_timer, timer_fires, resume, on_packet, async_call, async_call_back,
}
use rpc_framework.AsyncClient.Upkeep.{
  start_heartbeat, start_heartbeat_on, stop_heartbeat, beat, beat_on,
}
use rpc_framework.AsyncClient.Connecting.{
  Attempt, is_yes, is_empty, add_endpoint, connect_all, connected_if_any, connect_via_registry,
  connect_direct, connect, disconnect,
}
use rpc_framework.AsyncClient.Tally.{one_if}
use rpc_framework.AsyncClient.Accounting.{
  IsValid, Adds, handle_timeout-Adds, on_packet-Adds, resume-Adds,
}
use rpc_framework.AsyncClient.Answering.{async_call-Adds, async_call_back-Adds}

-- What the callers, the threads, the loops and the network do to a client.
pub data Event (R : Type 0) : Type 0 where
  clock : ℕ → Event R
  calls : Net → Call → Event R
  calls_back : Net → Call → Event R
  receives : DecodedPacket → Event R
  fires : ℕ → ℕ → Event R
  resumes : ℕ → Event R
  connects : List Attempt → Attempt → Event R
  hears : Bool → Event R
  disconnects : Event R
  sets_policy : LbPolicy → ℕ → Event R
  sets_breaker : CircuitBreaker → Event R
  adds_interceptor : Interceptor (World R) → Event R
  starts_heartbeat : Event R
  stops_heartbeat : Event R
  beats : Net → Option ℕ → Heartbeat → Event R

module _ {R : Type 0} where
  abbrev pub called : ℕ → Event R → ℕ
  called who (calls net call) = one_if (call.caller == who)
  called who (calls_back net call) = one_if (call.caller == who)
  called who e = 0

  unfoldable pub all_called : ℕ → List (Event R) → ℕ
  all_called who [] = 0
  all_called who (e ∷ es) = called who e + all_called who es

  connect_all-Adds :
      (who : ℕ) (c₀ c : RpcAsyncClient R) (nodes : List Attempt) (n : ℕ)
      → Adds who 0 c₀ c
      → Adds who 0 c₀ (connect_all c nodes n).0
  unfolding connect_all
  connect_all-Adds who c₀ c [] n a = a
  connect_all-Adds who c₀ c (x ∷ nodes) n a =
      if-elim (λ (p : RpcAsyncClient R × ℕ). Adds who 0 c₀ p.0) (x.valid_ip && is_yes x.answered)
        (λ _. connect_all-Adds who c₀ (add_endpoint c x) nodes (suc n) a)
        (λ _. connect_all-Adds who c₀ c nodes n a)

  connected_if_any-Adds :
      (who : ℕ) (c c' : RpcAsyncClient R) (n : ℕ)
      → Adds who 0 c c'
      → Adds who 0 c (connected_if_any (c', n)).1
  connected_if_any-Adds who c c' n a =
      if-elim (λ (p : Bool × RpcAsyncClient R). Adds who 0 c p.1) (n == 0) (λ _. a) (λ _. a)

  connect-Adds :
      (who : ℕ) (c : RpcAsyncClient R) (nodes : List Attempt) (here : Attempt)
      → IsValid c
      → Adds who 0 c (connect c nodes here).1
  unfolding connect connect_direct connect_via_registry
  connect-Adds who c nodes here v =
      if-elim Kept c.invalid (λ _. same)
        (λ _.
          if-elim Kept (not c.owns_loop_thread) (λ _. same)
            (λ _.
              if-elim Kept (c.registered && not (is_empty c.service_name)) (λ _. via nodes)
                (λ _.
                  if-elim Kept (not here.valid_ip) (λ _. same)
                    (λ _.
                      if-elim Kept (is_yes here.answered && here.still_up) (λ _. same)
                        (λ _. same)))))
    where
      Kept : Bool × RpcAsyncClient R → Type 0
      Kept p = Adds who 0 c p.1

      same : Adds who 0 c c
      same = (v, omega arith)

      via : (nodes : List Attempt) → Adds who 0 c (connect_via_registry c nodes).1
      via [] = same
      via (x ∷ nodes) =
          connected_if_any-Adds who c (connect_all c (x ∷ nodes) 0).0
            (connect_all c (x ∷ nodes) 0).1 (connect_all-Adds who c c (x ∷ nodes) 0 same)

  module _ (proto : Protobuf) where
    abbrev pub step : RpcAsyncClient R → Event R → RpcAsyncClient R
    step c (clock now) = record c { world = record c.world { now = now } }
    step c (calls net call) = async_call proto c net call
    step c (calls_back net call) = async_call_back proto c net call
    step c (receives packet) = on_packet c packet
    step c (fires l id) = timer_fires c l id
    step c (resumes who) = resume c who
    step c (connects nodes here) = (connect c nodes here).1
    step c (hears up) = record c { connected = up }
    step c disconnects = disconnect c
    step c (sets_policy p virtual_nodes) = set_lb_policy c p virtual_nodes
    step c (sets_breaker b) = set_circuit_breaker c b
    step c (adds_interceptor i) = set_rate_limiter c i
    step c starts_heartbeat = start_heartbeat c
    step c stops_heartbeat = (stop_heartbeat c).0
    step c (beats net t hb) = beat c net t hb

    unfoldable pub run : RpcAsyncClient R → List (Event R) → RpcAsyncClient R
    run c [] = c
    run c (e ∷ es) = run (step c e) es

    heartbeat-Adds : (who : ℕ) (c : RpcAsyncClient R) → IsValid c → Adds who 0 c (start_heartbeat c)
    unfolding start_heartbeat
    heartbeat-Adds who c v = on (timeout_loop c.loop c.endpoints)
      where
        on : (l : Option ℕ) → Adds who 0 c (start_heartbeat_on c l)
        on none = (v, omega arith)
        on (some l) =
            if-elim (Adds who 0 c) c.heartbeat_running (λ _. (v, omega arith))
              (λ _. (v, omega arith))

    beat-Adds :
        (who : ℕ) (c : RpcAsyncClient R) (net : Net) (t : Option ℕ) (hb : Heartbeat)
        → IsValid c
        → Adds who 0 c (beat c net t hb)
    unfolding beat
    beat-Adds who c net none hb v = (v, omega arith)
    beat-Adds who c net (some t) hb v = on (net t)
      where
        on : (o : Option Bool) → Adds who 0 c (beat_on c hb t o)
        on none = (v, omega arith)
        on (some up) =
            if-elim (Adds who 0 c) (c.connected && up) (λ _. (v, omega arith))
              (λ _. (v, omega arith))

    stop-Adds : (who : ℕ) (c : RpcAsyncClient R) → IsValid c → Adds who 0 c (stop_heartbeat c).0
    unfolding stop_heartbeat
    stop-Adds who c v =
        if-elim (λ (p : RpcAsyncClient R × Option ℕ). Adds who 0 c p.0) c.heartbeat_running
          (λ _. (v, omega arith)) (λ _. (v, omega arith))

    step-Adds :
        (who : ℕ) (c : RpcAsyncClient R) (e : Event R)
        → IsValid c
        → Adds who (called who e) c (step c e)
    step-Adds who c (clock now) v = (v, omega arith)
    step-Adds who c (calls net call) v = async_call-Adds proto who c net call v
    step-Adds who c (calls_back net call) v = async_call_back-Adds proto who c net call v
    step-Adds who c (receives packet) v = on_packet-Adds who c packet v
    step-Adds who c (fires l id) v =
        unfold timer_fires in
        if-elim (Adds who 0 c) (has_timer l id c.timers) (λ _. handle_timeout-Adds who _ id v)
          (λ _. (v, omega arith))
    step-Adds who c (resumes w) v = resume-Adds who c w v
    step-Adds who c (connects nodes here) v = connect-Adds who c nodes here v
    step-Adds who c (hears up) v = (v, omega arith)
    step-Adds who c disconnects v = unfold disconnect in (v, omega arith)
    step-Adds who c (sets_policy rr n) v = unfold set_lb_policy in (v, omega arith)
    step-Adds who c (sets_policy consistent_hash n) v = unfold set_lb_policy in (v, omega arith)
    step-Adds who c (sets_breaker b) v = (v, omega arith)
    step-Adds who c (adds_interceptor i) v = (v, omega arith)
    step-Adds who c starts_heartbeat v = heartbeat-Adds who c v
    step-Adds who c stops_heartbeat v = stop-Adds who c v
    step-Adds who c (beats net t hb) v = beat-Adds who c net t hb v

    -- Over any events, calls and answers interleaved with connects, timeouts and disconnects, for
    -- each caller: its answers, its threads that are woken and its waiting calls grow together by the
    -- count of its calls. The client stays valid.
    pub run-Adds :
        (who : ℕ) (c : RpcAsyncClient R) (es : List (Event R))
        → IsValid c
        → Adds who (all_called who es) c (run c es)
    unfolding run all_called
    run-Adds who c [] v = (v, omega arith)
    run-Adds who c (e ∷ es) v =
        let a = step-Adds who c e v in
        let b = run-Adds who (step c e) es a.0 in (b.0, omega (arith, a.1, b.1))
