-- ===== src/Registry/Entries.antt =====
-- The specification of the registry: a partial map from a service and a node to the node's entry, and
-- sequences of calls on either.
use rpc_framework.Prelude.{
  ℕ, ◌≡◌, Bool, true, false, ◌&&◌, List, [], ◌∷◌, Option, none, some, if◌then◌else◌, nat_eq,
  list_eq,
}
use rpc_framework.Prelude.Table.{unless, Unique}
use rpc_framework.Network.Buffer.{Bytes}
use rpc_framework.Registry.{
  RegistryNode, MemoryRegistry, Outcome, Notification, stamped, register_service,
  deregister_service, heartbeat, cleanup_expired_nodes, expired,
}
use rpc_framework.Registry.Nodes.{find, same, nodes}

pub data Op : Type 0 where
  registers : RegistryNode → ℕ → Op
  deregisters : Bytes → Bytes → Op
  beats : Bytes → Bytes → ℕ → Op
  cleans : ℕ → ℕ → Op

abbrev pub answer_of : Outcome → Bool × MemoryRegistry
answer_of (ok, r, notes) = (ok, r)

abbrev pub cleaned : MemoryRegistry × List Notification → Bool × MemoryRegistry
cleaned (r, notes) = (true, r)

unfoldable pub apply : MemoryRegistry → Op → Bool × MemoryRegistry
apply r (registers node now) = answer_of (register_service r node now)
apply r (deregisters s i) = answer_of (deregister_service r s i)
apply r (beats s i now) = answer_of (heartbeat r s i now)
apply r (cleans now timeout) = cleaned (cleanup_expired_nodes r now timeout)

unfoldable pub run : MemoryRegistry → List Op → List Bool × MemoryRegistry
run r [] = ([], r)
run r (op ∷ ops) = let (ok, r') = apply r op in let (oks, r'') = run r' ops in (ok ∷ oks, r'')

abbrev pub Entries : Type 0
Entries = Bytes → Bytes → Option RegistryNode

abbrev pub is_there : Option RegistryNode → Bool
is_there none = false
is_there (some node) = true

abbrev pub beaten : ℕ → Option RegistryNode → Option RegistryNode
beaten now none = none
beaten now (some node) = some (record node { last_heartbeat = now })

-- The entry of one pair of names is replaced.
abbrev pub at : Bytes → Bytes → Option RegistryNode → Entries → Entries
at s i o f t j = if same s t && same i j then o else f t j

unfoldable pub apply_spec : Entries → Op → Bool × Entries
apply_spec f (registers node now) =
    (true, at node.service_name node.node_id (some (stamped node now)) f)
apply_spec f (deregisters s i) = (is_there (f s i), at s i none f)
apply_spec f (beats s i now) = (is_there (f s i), at s i (beaten now (f s i)) f)
apply_spec f (cleans now timeout) = (true, λ t j. unless (expired now timeout) (f t j))

unfoldable pub run_spec : Entries → List Op → List Bool × Entries
run_spec f [] = ([], f)
run_spec f (op ∷ ops) =
    let (ok, f') = apply_spec f op in let (oks, f'') = run_spec f' ops in (ok ∷ oks, f'')

-- Each service has one table, and each node has one entry in it.
abbrev pub IsValid : MemoryRegistry → Type 0
IsValid r = Unique r.services × ((s : Bytes) → Unique (nodes r.services s))

-- The registry holds the entries.
abbrev pub Holds : MemoryRegistry → Entries → Type 0
Holds r f = (s i : Bytes) → find r s i ≡ f s i
