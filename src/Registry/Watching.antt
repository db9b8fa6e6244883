-- ===== src/Registry/Watching.antt =====
-- What the callback of a watched registry is told.
use rpc_framework.Prelude.{
  ℕ, ◌≡◌, refl, ◌∙◌, true, false, [], ◌∷◌, Option, none, some, nat_eq, list_eq,
}
use rpc_framework.Prelude.Table.{lookup, insert, erase}
use rpc_framework.Network.Buffer.{Bytes}
use rpc_framework.Registry.{
  RegistryNode, NodeMap, MemoryRegistry, Outcome, stamped, register_service, deregister_service,
  deregister_from, deregister_entry, discover, put_back,
}
use rpc_framework.Registry.Nodes.{same, nodes, nodes-insert, nodes-put_back}

same_refl : (s : Bytes) → same s s ≡ true
same_refl s = ((list_eq {A = ℕ}).beq_iff s s).1 refl

-- One call of the callback, with what `discover` would find now; no call where nothing was done.
abbrev pub Told : Bytes → Outcome → Type 0
Told s (true, r, notes) = notes ≡ (s, discover r s) ∷ []
Told s (false, r, notes) = notes ≡ []

-- On a watched registry, a registration and a deregistration that removes a node each call the
-- callback once, for the service concerned and with exactly the nodes that `discover` finds
-- afterwards; a deregistration that removes nothing does not call it.
pub watched-Told :
    (r : MemoryRegistry) (node : RegistryNode) (now : ℕ) (s i : Bytes)
    → r.watched ≡ true
    → Told node.service_name (register_service r node now) × Told s (deregister_service r s i)
unfolding register_service deregister_service discover
watched-Told r node now s i w = (registered, by_table (lookup s r.services))
  where
    registered : Told node.service_name (register_service r node now)
    registered =
        let n = node.service_name in
        let m = insert node.node_id (stamped node now) (nodes r.services n) in
        let e : nodes (insert n m r.services) n ≡ m =
          nodes-insert r.services n n m ∙ rw (same_refl n) refl in
        rw (w, e) refl

    by_entry : (m : NodeMap) (o : Option RegistryNode) → Told s (deregister_entry r s i m o)
    by_entry m none = refl
    by_entry m (some node) =
        let e : nodes (put_back s (erase i m) r.services) s ≡ erase i m =
          nodes-put_back r.services s s (erase i m) ∙ rw (same_refl s) refl in
        rw (w, e) refl

    by_table : (o : Option NodeMap) → Told s (deregister_from r s i o)
    by_table none = refl
    by_table (some m) = by_entry m (lookup i m)
