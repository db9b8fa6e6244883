-- ===== src/Registry.antt =====
-- src/discovery/memory_registry.cc: the registry of services in memory, a table of tables. Each call
-- holds the mutex while it reads and writes the tables, so calls follow one another. A call
-- returns what it returns, the registry, and the notifications that it makes after the lock is released.
-- `now` is the second that the steady clock shows at the call.
pub mod Nodes
pub mod Entries
pub mod Tables
pub mod Refinement
pub mod Watching
use rpc_framework.Prelude.{
  ℕ, ◌+◌, ◌-◌, ◌%◌, ◌^◌, Bool, true, false, List, [], ◌∷◌, Option, none, some, ltb, ◌==◌,
  if◌then◌else◌, nat_eq, list_eq,
}
use rpc_framework.Prelude.Table.{lookup, insert, erase, remove_if}
use rpc_framework.Network.Buffer.{Bytes}

pub record RegistryNode : Type 0 where
  pub service_name : Bytes
  pub node_id : Bytes
  pub host : Bytes
  pub port : ℕ
  pub register_time : ℕ
  pub last_heartbeat : ℕ

abbrev pub NodeMap : Type 0
NodeMap = List (Bytes × RegistryNode)

-- `watched`: a change callback is set.
pub record MemoryRegistry : Type 0 where
  pub services : List (Bytes × NodeMap)
  pub watched : Bool

abbrev pub Notification : Type 0
Notification = Bytes × List RegistryNode

abbrev pub Outcome : Type 0
Outcome = Bool × MemoryRegistry × List Notification

abbrev pub new_registry : MemoryRegistry
new_registry = record { services = []; watched = false }

abbrev pub or_none_yet : Option NodeMap → NodeMap
or_none_yet none = []
or_none_yet (some m) = m

-- The nodes of a table, in its order.
abbrev pub nodes_of : NodeMap → List RegistryNode
nodes_of [] = []
nodes_of ((key, node) ∷ m) = node ∷ nodes_of m

abbrev pub notify : Bool → Bytes → NodeMap → List Notification
notify true service m = (service, nodes_of m) ∷ []
notify false service m = []

abbrev pub stamped : RegistryNode → ℕ → RegistryNode
stamped node now = record node {
  register_time = if node.register_time == 0 then now else node.register_time;
  last_heartbeat = now;
}

unfoldable pub register_service : MemoryRegistry → RegistryNode → ℕ → Outcome
register_service r node now =
    let m =
      insert node.node_id (stamped node now) (or_none_yet (lookup node.service_name r.services)) in
    (
      true,
      record r { services = insert node.service_name m r.services },
      notify r.watched node.service_name m,
    )

-- A service without nodes is taken out.
abbrev pub put_back : Bytes → NodeMap → List (Bytes × NodeMap) → List (Bytes × NodeMap)
put_back service [] services = erase service services
put_back service (n ∷ m) services = insert service (n ∷ m) services

abbrev pub deregister_entry :
    MemoryRegistry → Bytes → Bytes → NodeMap → Option RegistryNode → Outcome
deregister_entry r service id m none = (false, r, [])
deregister_entry r service id m (some node) = (
  true,
  record r { services = put_back service (erase id m) r.services },
  notify r.watched service (erase id m),
)

abbrev pub deregister_from : MemoryRegistry → Bytes → Bytes → Option NodeMap → Outcome
deregister_from r service id none = (false, r, [])
deregister_from r service id (some m) = deregister_entry r service id m (lookup id m)

unfoldable pub deregister_service : MemoryRegistry → Bytes → Bytes → Outcome
deregister_service r service id = deregister_from r service id (lookup service r.services)

unfoldable pub discover : MemoryRegistry → Bytes → List RegistryNode
discover r service = nodes_of (or_none_yet (lookup service r.services))

abbrev pub beat_entry : MemoryRegistry → Bytes → Bytes → ℕ → NodeMap → Option RegistryNode → Outcome
beat_entry r service id now m none = (false, r, [])
beat_entry r service id now m (some node) = (
  true,
  record r {
    services = insert service (insert id (record node { last_heartbeat = now }) m) r.services;
  },
  [],
)

abbrev pub beat_from : MemoryRegistry → Bytes → Bytes → ℕ → Option NodeMap → Outcome
beat_from r service id now none = (false, r, [])
beat_from r service id now (some m) = beat_entry r service id now m (lookup id m)

unfoldable pub heartbeat : MemoryRegistry → Bytes → Bytes → ℕ → Outcome
heartbeat r service id now = beat_from r service id now (lookup service r.services)

unfoldable pub set_service_change_callback : MemoryRegistry → Bool → MemoryRegistry
set_service_change_callback r set = record r { watched = set }

-- The difference is one of unsigned numbers; the timeout is not negative.
abbrev pub expired : ℕ → ℕ → RegistryNode → Bool
expired now timeout node = ltb timeout ((now + 2 ^ 64 - node.last_heartbeat) % 2 ^ 64)

abbrev pub cleanup_nodes : ℕ → ℕ → NodeMap → NodeMap
cleanup_nodes now timeout m = remove_if (expired now timeout) m

abbrev pub keep_service : Bytes → NodeMap → List (Bytes × NodeMap) → List (Bytes × NodeMap)
keep_service service [] rest = rest
keep_service service (n ∷ m) rest = (service, n ∷ m) ∷ rest

unfoldable pub cleanup_services : ℕ → ℕ → List (Bytes × NodeMap) → List (Bytes × NodeMap)
cleanup_services now timeout [] = []
cleanup_services now timeout ((service, m) ∷ rest) =
    keep_service service (cleanup_nodes now timeout m) (cleanup_services now timeout rest)

-- Every service is notified of, an emptied one with no nodes.
abbrev pub all_notified : ℕ → ℕ → List (Bytes × NodeMap) → List Notification
all_notified now timeout [] = []
all_notified now timeout ((service, m) ∷ rest) =
    (service, nodes_of (cleanup_nodes now timeout m)) ∷ all_notified now timeout rest

unfoldable pub cleanup_expired_nodes : MemoryRegistry → ℕ → ℕ → MemoryRegistry × List Notification
cleanup_expired_nodes r now timeout = (
  record r { services = cleanup_services now timeout r.services },
  if r.watched then all_notified now timeout r.services else [],
)
