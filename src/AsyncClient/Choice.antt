-- ===== src/AsyncClient/Choice.antt =====
-- src/client/rpc_async_client.cc: which TcpClient a request is sent through.
use rpc_framework.Prelude.{
  ℕ, zero, suc, ◌+◌, ◌%◌, ◌^◌, Bool, List, [], ◌∷◌, ◌++◌, Option, none, some, if◌then◌else◌, length,
  list_eq, nat_eq,
}
use rpc_framework.Network.Buffer.{Bytes}
use rpc_framework.ConsistentHash.{ConsistentHash, decimal_onto, add_node, get_node, default_hash}
use rpc_framework.AsyncClient.{RpcAsyncClient, Endpoint, LbPolicy, rr, consistent_hash}

-- `host + ":" + std::to_string(port)`.
unfoldable pub endpoint_name : Bytes → ℕ → Bytes
endpoint_name host port = host ++ (58 ∷ decimal_onto 10 port [])

abbrev pub name : Endpoint → Bytes
name e = endpoint_name e.host e.port

abbrev pub same_name : Bytes → Bytes → Bool
same_name = (list_eq {A = ℕ}).beq

-- The TcpClient of the first endpoint with a name.
unfoldable pub find_endpoint : List Endpoint → Bytes → Option ℕ
find_endpoint [] node = none
find_endpoint (e ∷ es) node =
    let rest = find_endpoint es node in if same_name (name e) node then some e.tcp_client else rest

abbrev pub client_at : List Endpoint → ℕ → Option ℕ
client_at [] i = none
client_at (e ∷ es) zero = some e.tcp_client
client_at (e ∷ es) (suc i) = client_at es i

unfoldable pub add_all : List Endpoint → ConsistentHash → ConsistentHash
add_all [] h = h
add_all (e ∷ es) h = add_all es (add_node default_hash h (name e))

-- The search on the ring, under its three conditions.
unfoldable pub picked : LbPolicy → Option ConsistentHash → Bytes → List Endpoint → Option ℕ
picked rr ring key es = none
picked consistent_hash none key es = none
picked consistent_hash (some h) [] es = none
picked consistent_hash (some h) (k ∷ key) es = find_endpoint es (get_node default_hash h (k ∷ key))

module _ {R : Type 0} where
  abbrev pub take_turn : RpcAsyncClient R → Option ℕ → Option ℕ × RpcAsyncClient R
  take_turn c (some t) = (some t, c)
  take_turn c none = (
    client_at c.endpoints (c.rr_index % length c.endpoints),
    record c { rr_index = (c.rr_index + 1) % 2 ^ 64 },
  )

  abbrev pub choose : RpcAsyncClient R → List Endpoint → Bytes → Option ℕ × RpcAsyncClient R
  choose c [] key = (c.tcp_client, c)
  choose c (e ∷ es) key = take_turn c (picked c.lb_policy c.ring key (e ∷ es))

  unfoldable pub get_tcp_client : RpcAsyncClient R → Bytes → Option ℕ × RpcAsyncClient R
  get_tcp_client c key = choose c c.endpoints key

  unfoldable pub set_lb_policy : RpcAsyncClient R → LbPolicy → ℕ → RpcAsyncClient R
  set_lb_policy c rr virtual_nodes = record c { lb_policy = rr; ring = none }
  set_lb_policy c consistent_hash virtual_nodes = record c {
    lb_policy = consistent_hash;
    ring = some (
        add_all c.endpoints
          (record { virtual_nodes = virtual_nodes; ring = []; node_hashes = [] }));
  }
