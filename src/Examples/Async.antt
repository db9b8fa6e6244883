-- ===== src/Examples/Async.antt =====
-- An asynchronous client with one endpoint and a breaker, over a few events.
use rpc_framework.Prelude.{
  ℕ, ◌+◌, ◌≤◌, ◌≡◌, ◌↔◌, refl, true, List, [], ◌∷◌, some, length, arith, nat_eq,
}
use rpc_framework.Prelude.Table.{lookup, erase}
use rpc_framework.CircuitBreaker.{CircuitBreaker, closed, open_, second}
use rpc_framework.AsyncClient.{World, RpcAsyncClient, Endpoint, consistent_hash, start}
use rpc_framework.AsyncClient.Choice.{set_lb_policy}
use rpc_framework.AsyncClient.Calls.{Net, Call, has_timer}
use rpc_framework.AsyncClient.Connecting.{Attempt, connect_all, connect_via_registry, destroy}
use rpc_framework.AsyncClient.Accounting.{tally, IsValid, Adds}
use rpc_framework.AsyncClient.Steps.{
  Event, calls, calls_back, receives, fires, resumes, connects, disconnects, all_called, run,
  run-Adds,
}
use rpc_framework.AsyncClient.Settling.{Settled, destroy-settles}
use rpc_framework.AsyncClient.Late.{timeouts, Unheard, late-opens}
use rpc_framework.AsyncClient.Awaited.{ids_of, AllAnswered}
use rpc_framework.AsyncClient.Messages.{received}
use rpc_framework.Codec.Message.{DecodedPacket, response}
use rpc_framework.AsyncClient.Affinity.{Affine, set_lb_policy-Affine}
use rpc_framework.Server.{empty_packet}
use rpc_framework.Examples.{toy}
use rpc_framework.Examples.Packets.{a_request}

abbrev a_breaker : CircuitBreaker
a_breaker = record {
  state = closed;
  failure_count = 0;
  failure_threshold = 2;
  open_timeout = second;
  opened_at = 0;
  half_open_requests = 0;
}

abbrev pub a_world : World (Unit {0})
a_world = record { breaker = some a_breaker; now = 5; rest = tt }

abbrev pub a_client : RpcAsyncClient (Unit {0})
a_client = start a_world

pub a_client-IsValid : IsValid a_client
unfolding lookup
a_client-IsValid = record {
  promises_unique = tt;
  callbacks_unique = tt;
  promises_fresh = λ i le. refl;
  callbacks_fresh = λ i le. refl;
}

abbrev pub up : Net
up t = some true

abbrev pub a_call : ℕ → Call
a_call who = record {
  caller = who;
  service = 65 ∷ [];
  method = 66 ∷ [];
  req = a_request;
  timeout_ms = 100;
  stamp = [];
}

abbrev an_attempt : Attempt
an_attempt = record {
  host = 49 ∷ [];
  port = 80;
  valid_ip = true;
  answered = some true;
  still_up = true;
  tcp_client = 3;
  loop = 4;
}

abbrev some_events : List (Event (Unit {0}))
some_events =
    connects [] an_attempt
    ∷ calls up (a_call 8)
    ∷ calls_back up (a_call 9)
    ∷ receives empty_packet
    ∷ fires 4 1
    ∷ resumes 8
    ∷ disconnects
    ∷ []

run-Adds_example : Adds 8 (all_called 8 some_events) a_client (run toy a_client some_events)
run-Adds_example = run-Adds toy 8 a_client some_events a_client-IsValid

destroy-settles_example :
    Settled 9 (tally 9 a_client + all_called 9 some_events) (destroy (run toy a_client some_events))
destroy-settles_example = destroy-settles toy 9 a_client some_events a_client-IsValid

-- Two calls wait, each with its timer in the loop 4, and both are answered.
abbrev waiting_two : RpcAsyncClient (Unit {0})
waiting_two = record a_client {
  next_req_id = 3;
  promises = (1, 8) ∷ (2, 9) ∷ [];
  timers = (4, 1) ∷ (4, 2) ∷ [];
}

abbrev answer_to : ℕ → DecodedPacket
answer_to id = record empty_packet { msg_type = response; req_id = id }

abbrev two_answers : List DecodedPacket
two_answers = answer_to 1 ∷ answer_to 2 ∷ []

late-opens_example :
    let c' = run toy waiting_two (received two_answers) in
    let c'' = run toy c' (timeouts 4 (ids_of two_answers)) in
    AllAnswered c'.promises c'.callbacks (ids_of two_answers)
    × (c'.world.breaker ≡ some a_breaker)
    × (c'.timers ≡ waiting_two.timers)
    × Unheard toy c' c''
    × ((b' : CircuitBreaker) × (c''.world.breaker ≡ some b')
        × ((b'.state ≡ open_) ↔ (2 ≤ length (ids_of two_answers))))
unfolding lookup erase has_timer ids_of
late-opens_example =
    late-opens toy waiting_two 4 two_answers a_breaker refl refl refl refl (omega arith)
      (refl, refl, (8, refl), refl, (refl, refl, (9, refl), refl, tt)) (refl, (refl, tt))

abbrev an_endpoint : Endpoint
an_endpoint = record { host = 49 ∷ []; port = 80; tcp_client = 3; loop = 4 }

abbrev hashing : RpcAsyncClient (Unit {0})
hashing = (connect_via_registry (set_lb_policy a_client consistent_hash 2) (an_attempt ∷ [])).1

one_endpoint : hashing.endpoints ≡ an_endpoint ∷ []
unfolding connect_via_registry connect_all set_lb_policy
one_endpoint = refl

set_lb_policy-Affine_example : Affine hashing (7 ∷ 8 ∷ [])
set_lb_policy-Affine_example =
    set_lb_policy-Affine a_client 2 (an_attempt ∷ []) an_endpoint [] 7 (8 ∷ []) (omega arith)
      one_endpoint
