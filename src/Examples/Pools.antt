-- ===== src/Examples/Pools.antt =====
-- A pool with a claimed, a broken and a healthy connection, and a chain of two interceptors.
use rpc_framework.Prelude.{ℕ, ◌+◌, ◌≡◌, refl, true, false, List, [], ◌∷◌, none, some, arith}
use rpc_framework.Codec.Message.{RpcRequest, RpcResponse}
use rpc_framework.Pool.{Client, EndpointPool, acquire, search}
use rpc_framework.Pool.Acquire.{Free, Healthy, acquire-finds}
use rpc_framework.Interceptor.{Interceptor, execute}
use rpc_framework.Interceptor.Onion.{answered, onion, execute-onion}
use rpc_framework.Examples.Packets.{a_request}

abbrev a_client : Client
a_client = record { owner = none; connected = true; reconnects = 0 }

abbrev a_pool : EndpointPool
a_pool = record {
  clients =
      record a_client { owner = some 7 } ∷ record a_client { connected = false } ∷ a_client ∷ [];
  next_index = 0;
}

handed_out : (acquire a_pool).0 ≡ some 2
unfolding acquire search
handed_out = refl

acquire-finds_example :
    (i : ℕ) × ((acquire a_pool).0 ≡ some i)
    × Free a_pool.clients i
    × (a_client.connected ≡ true → Healthy a_pool.clients i)
acquire-finds_example = acquire-finds a_pool 2 a_client (omega arith) refl refl

-- An interceptor that writes its number down, before and after.
abbrev noting : ℕ → Interceptor (List ℕ)
noting n = record { pre_handle = λ s req. (true, req, n ∷ s); post_handle = λ s resp. (10 + n) ∷ s }

abbrev answering : List ℕ → RpcRequest → RpcResponse × List ℕ
answering s req = (record { success = true; payload = req.payload; error_msg = [] }, 0 ∷ s)

execute-onion_example :
    execute (noting 1 ∷ noting 2 ∷ []) [] a_request answering
    ≡ answered (onion (noting 1 ∷ noting 2 ∷ []) answering [] a_request)
execute-onion_example = execute-onion (noting 1 ∷ noting 2 ∷ []) [] a_request answering
