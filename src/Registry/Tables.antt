-- ===== src/Registry/Tables.antt =====
-- The keys of the registry's tables.
use rpc_framework.Prelude.{
  ℕ, ◌≡◌, refl, sym, ap, subst, List, [], ◌∷◌, Option, none, some, if◌then◌else◌, if-elim, nat_eq,
  list_eq,
}
use rpc_framework.Prelude.Table.{
  lookup, insert, erase, Unique, insert-Unique, erase-Unique, remove_if-Unique,
}
use rpc_framework.Network.Buffer.{Bytes}
use rpc_framework.Registry.{
  RegistryNode, NodeMap, MemoryRegistry, stamped, register_service, deregister_service,
  deregister_entry, beat_entry, deregister_from, heartbeat, beat_from, cleanup_expired_nodes,
  expired, put_back, or_none_yet,
}
use rpc_framework.Registry.Nodes.{
  same, nodes, nodes-insert, nodes-put_back, nodes-cleanup_services, cleanup_services-Unique,
}
use rpc_framework.Registry.Entries.{Op, registers, deregisters, beats, cleans, apply, IsValid}

put_back-Unique :
    (s : Bytes) (m : NodeMap) (services : List (Bytes × NodeMap))
    → Unique services
    → Unique (put_back s m services)
put_back-Unique s [] services u = erase-Unique s services u
put_back-Unique s (n ∷ m) services u = insert-Unique s (n ∷ m) services u

-- One table was replaced by another one with unique keys.
replaced :
    (services services' : List (Bytes × NodeMap)) (s : Bytes) (m : NodeMap)
    → ((t : Bytes) → nodes services' t ≡ (if same s t then m else nodes services t))
    → Unique m
    → ((t : Bytes) → Unique (nodes services t))
    → (t : Bytes) → Unique (nodes services' t)
replaced services services' s m table u us t =
    subst Unique (sym (table t)) (if-elim Unique (same s t) (λ _. u) (λ _. us t))

module _ (r : MemoryRegistry) (v : IsValid r) where
  register-IsValid : (node : RegistryNode) (now : ℕ) → IsValid (register_service r node now).1
  unfolding register_service
  register-IsValid node now =
      let s = node.service_name in
      let m = insert node.node_id (stamped node now) (nodes r.services s) in
      (
        insert-Unique s m r.services v.0,
        replaced r.services (insert s m r.services) s m (λ t. nodes-insert r.services s t m)
            (insert-Unique node.node_id (stamped node now) (nodes r.services s) (v.1 s)) v.1,
      )

  deregister-IsValid : (s i : Bytes) → IsValid (deregister_service r s i).1
  unfolding deregister_service
  deregister-IsValid s i = by_table (lookup s r.services) refl
    where
      by_entry :
          (m : NodeMap)
          → Unique m
          → (o : Option RegistryNode) → IsValid (deregister_entry r s i m o).1
      by_entry m u none = v
      by_entry m u (some node) = (
        put_back-Unique s (erase i m) r.services v.0,
        replaced r.services (put_back s (erase i m) r.services) s (erase i m)
            (λ t. nodes-put_back r.services s t (erase i m)) (erase-Unique i m u) v.1,
      )

      by_table :
          (o : Option NodeMap) → lookup s r.services ≡ o → IsValid (deregister_from r s i o).1
      by_table none e = v
      by_table (some m) e = by_entry m (subst Unique (ap or_none_yet e) (v.1 s)) (lookup i m)

  heartbeat-IsValid : (s i : Bytes) (now : ℕ) → IsValid (heartbeat r s i now).1
  unfolding heartbeat
  heartbeat-IsValid s i now = by_table (lookup s r.services) refl
    where
      by_entry :
          (m : NodeMap)
          → Unique m
          → (o : Option RegistryNode) → IsValid (beat_entry r s i now m o).1
      by_entry m u none = v
      by_entry m u (some node) =
          let m' = insert i (record node { last_heartbeat = now }) m in
          (
            insert-Unique s m' r.services v.0,
            replaced r.services (insert s m' r.services) s m' (λ t. nodes-insert r.services s t m')
                (insert-Unique i (record node { last_heartbeat = now }) m u) v.1,
          )

      by_table : (o : Option NodeMap) → lookup s r.services ≡ o → IsValid (beat_from r s i now o).1
      by_table none e = v
      by_table (some m) e = by_entry m (subst Unique (ap or_none_yet e) (v.1 s)) (lookup i m)

  cleanup-IsValid : (now timeout : ℕ) → IsValid (cleanup_expired_nodes r now timeout).0
  unfolding cleanup_expired_nodes
  cleanup-IsValid now timeout = (
    cleanup_services-Unique now timeout r.services v.0,
    λ t.
        subst Unique (sym (nodes-cleanup_services now timeout t r.services v.0))
          (remove_if-Unique (expired now timeout) (nodes r.services t) (v.1 t)),
  )

pub apply-IsValid : (r : MemoryRegistry) (op : Op) → IsValid r → IsValid (apply r op).1
unfolding apply
apply-IsValid r (registers node now) v = register-IsValid r v node now
apply-IsValid r (deregisters s i) v = deregister-IsValid r v s i
apply-IsValid r (beats s i now) v = heartbeat-IsValid r v s i now
apply-IsValid r (cleans now timeout) v = cleanup-IsValid r v now timeout
