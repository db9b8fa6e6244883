-- ===== src/Examples/Registries.antt =====
-- A registry and a hash ring with two nodes.
use rpc_framework.Prelude.{
  ℕ, ◌≡◌, ◌⊎◌, refl, true, List, [], ◌∷◌, none, some, arith, length, nat_eq, list_eq,
}
use rpc_framework.Prelude.Table.{lookup}
use rpc_framework.Network.Buffer.{Bytes}
use rpc_framework.Registry.{RegistryNode, MemoryRegistry, new_registry}
use rpc_framework.Registry.Nodes.{find}
use rpc_framework.Registry.Entries.{Op, registers, deregisters, beats, cleans, run, run_spec}
use rpc_framework.Registry.Refinement.{run-refines-map}
use rpc_framework.ConsistentHash.{
  ConsistentHash, owner, lower_bound, get_node, add_node, remove_node,
}
use rpc_framework.ConsistentHash.Ring
use rpc_framework.ConsistentHash.Ring.{adds, Successor, IsOwn, run-Successor}
use rpc_framework.ConsistentHash.Movement.{remove_node-keeps, add_node-moves_to_it}

abbrev a_node : RegistryNode
a_node = record {
  service_name = 65 ∷ [];
  node_id = 66 ∷ [];
  host = [];
  port = 80;
  register_time = 0;
  last_heartbeat = 0;
}

abbrev some_calls : List Op
some_calls =
    registers a_node 5
    ∷ beats (65 ∷ []) (66 ∷ []) 7
    ∷ cleans 40 30
    ∷ deregisters (65 ∷ []) (66 ∷ [])
    ∷ []

run-refines-map_example :
    let (oks, r) = run new_registry some_calls in
    let (answers, f) = run_spec (λ s i. none) some_calls in
    (oks ≡ answers) × ((s i : Bytes) → find r s i ≡ f s i)
run-refines-map_example = run-refines-map some_calls

abbrev watched_registry : MemoryRegistry
watched_registry = record new_registry { watched = true }

abbrev two_nodes : ConsistentHash
two_nodes = record {
  virtual_nodes = 1;
  ring = (5, 65 ∷ []) ∷ (9, 66 ∷ []) ∷ [];
  node_hashes = (65 ∷ [], 5 ∷ []) ∷ (66 ∷ [], 9 ∷ []) ∷ [];
}

abbrev by_length : Bytes → ℕ
by_length = length

its_owner : owner (by_length (1 ∷ 1 ∷ [])) two_nodes.ring ≡ some (5, 65 ∷ [])
unfolding owner lower_bound
its_owner = refl

run-Successor_example :
    let h =
      Ring.run by_length
        (record { virtual_nodes = 2; ring = []; node_hashes = [] })
        (adds (65 ∷ []) ∷ []) in
    Successor 3 h.ring (owner 3 h.ring) × IsOwn by_length 2 (owner 3 h.ring)
run-Successor_example = run-Successor by_length 2 (adds (65 ∷ []) ∷ []) 3

remove_node-keeps_example :
    get_node by_length (remove_node two_nodes (66 ∷ [])) (1 ∷ 1 ∷ [])
    ≡ get_node by_length two_nodes (1 ∷ 1 ∷ [])
unfolding lookup
remove_node-keeps_example =
    remove_node-keeps by_length two_nodes (66 ∷ []) (1 ∷ 1 ∷ []) (5, 65 ∷ []) its_owner
      (omega arith, tt)

add_node-moves_to_it_example :
    (get_node by_length (add_node by_length two_nodes (67 ∷ [])) (1 ∷ 1 ∷ [])
      ≡ get_node by_length two_nodes (1 ∷ 1 ∷ []))
    ⊎ (get_node by_length (add_node by_length two_nodes (67 ∷ [])) (1 ∷ 1 ∷ []) ≡ 67 ∷ [])
unfolding lookup
add_node-moves_to_it_example =
    add_node-moves_to_it by_length two_nodes (67 ∷ []) (1 ∷ 1 ∷ []) (5, 65 ∷ []) its_owner tt
