-- ===== src/Registry/Refinement.antt =====
-- The registry against its specification: a partial map from a service and a node to the node's entry.
use rpc_framework.Prelude.{
  ℕ, ◌≡◌, refl, sym, ap, ap₂, subst, ◌∙◌, inl, inr, Bool, true, false, ◌&&◌, List, [], ◌∷◌, Option,
  none, some, arith, if◌then◌else◌, if-elim, Bool-cases, nat_eq, list_eq,
}
use rpc_framework.Prelude.Table.{
  lookup, insert, erase, lookup-insert, lookup-erase, lookup-remove_if, unless,
}
use rpc_framework.Network.Buffer.{Bytes}
use rpc_framework.Registry.{
  RegistryNode, NodeMap, MemoryRegistry, new_registry, stamped, register_service,
  deregister_service, deregister_entry, beat_entry, deregister_from, heartbeat, beat_from,
  cleanup_expired_nodes, expired, put_back,
}
use rpc_framework.Registry.Nodes.{
  find, same, nodes, nodes-insert, nodes-put_back, nodes-cleanup_services,
}
use rpc_framework.Registry.Entries.{
  Op, registers, deregisters, beats, cleans, answer_of, cleaned, apply, run, Entries, is_there,
  beaten, at, apply_spec, run_spec, IsValid, Holds,
}
use rpc_framework.Registry.Tables.{apply-IsValid}

-- The same answer, and the entries that the specification has afterwards.
abbrev pub Implements : Bool × MemoryRegistry → Bool × Entries → Type 0
Implements a b = (a.0 ≡ b.0) × Holds a.1 b.1

key-eq : {s t : Bytes} → same s t ≡ true → s ≡ t
key-eq {s = s} {t = t} h = ((list_eq {A = ℕ}).beq_iff s t).0 h

module _ (r : MemoryRegistry) (s i : Bytes) (f : Entries) (holds : Holds r f) where
  -- One table was replaced, and in it the entry of one node.
  write-Holds :
      (r' : MemoryRegistry) (m : NodeMap) (o : Option RegistryNode)
      → ((t : Bytes) → nodes r'.services t ≡ (if same s t then m else nodes r.services t))
      → ((j : Bytes) → lookup j m ≡ (if same i j then o else find r s j))
      → Holds r' (at s i o f)
  write-Holds r' m o table entry t j = ap (lookup j) (table t) ∙ elim (Bool-cases (same s t)) [
    | inl h ↦
        rw (h, entry j)
          (if-elim (λ x. x ≡ (if same i j then o else f t j)) (same i j) (λ g. rw g refl)
            (λ g. rw g (holds s j ∙ ap (λ (k : Bytes). f k j) (key-eq h))))
    | inr h ↦ rw h (holds t j)
  ]

  -- Nothing was there, and nothing changes.
  absent-Holds : find r s i ≡ none → Holds r (at s i none f)
  absent-Holds absent t j = elim (Bool-cases (same s t && same i j)) [
    | inl h ↦ rw h (
        ap₂ (λ (k l : Bytes). find r k l) (sym (key-eq (ground arith)))
          (sym (key-eq (ground arith)))
        ∙ absent)
    | inr h ↦ rw h (holds t j)
  ]

  unchanged :
      {o : Entries} → find r s i ≡ none → Holds r o → Implements (false, r) (is_there (f s i), o)
  unchanged absent h = (ap is_there (sym absent ∙ holds s i), h)

  removed :
      (m : NodeMap)
      → lookup s r.services ≡ some m
      → Holds (record r { services = put_back s (erase i m) r.services }) (at s i none f)
  removed m e =
      write-Holds (record r { services = put_back s (erase i m) r.services }) (erase i m) none
        (λ t. nodes-put_back r.services s t (erase i m)) (λ j. lookup-erase i j m ∙ rw e refl)

  deregister-Implements :
      Implements (answer_of (deregister_service r s i)) (is_there (f s i), at s i none f)
  unfolding deregister_service lookup
  deregister-Implements = by_table (lookup s r.services) refl
    where
      by_entry :
          (m : NodeMap)
          → lookup s r.services ≡ some m
          → (o : Option RegistryNode) → find r s i ≡ o
          → Implements (answer_of (deregister_entry r s i m o)) (is_there (f s i), at s i none f)
      by_entry m e none g = unchanged g (absent-Holds g)
      by_entry m e (some node) g = (ap is_there (sym g ∙ holds s i), removed m e)

      by_table :
          (o : Option NodeMap)
          → lookup s r.services ≡ o
          → Implements (answer_of (deregister_from r s i o)) (is_there (f s i), at s i none f)
      by_table none e =
          let absent : find r s i ≡ none = rw e refl in unchanged absent (absent-Holds absent)
      by_table (some m) e = by_entry m e (lookup i m) (rw e refl)

  rewritten :
      (m : NodeMap)
      → lookup s r.services ≡ some m
      → (node : RegistryNode)
      → Holds (record r { services = insert s (insert i node m) r.services }) (at s i (some node) f)
  rewritten m e node =
      write-Holds (record r { services = insert s (insert i node m) r.services }) (insert i node m)
        (some node) (λ t. nodes-insert r.services s t (insert i node m))
        (λ j. lookup-insert i j node m ∙ rw e refl)

  beats-Implements :
      (now : ℕ)
      → Implements
          (answer_of (heartbeat r s i now))
          (is_there (f s i), at s i (beaten now (f s i)) f)
  unfolding heartbeat lookup
  beats-Implements now = by_table (lookup s r.services) refl
    where
      nothing : find r s i ≡ none → Holds r (at s i (beaten now (f s i)) f)
      nothing absent = rw⁻¹ (holds s i) (rw absent (absent-Holds absent))

      by_entry :
          (m : NodeMap)
          → lookup s r.services ≡ some m
          → (o : Option RegistryNode) → find r s i ≡ o
          → Implements
              (answer_of (beat_entry r s i now m o))
              (is_there (f s i), at s i (beaten now (f s i)) f)
      by_entry m e none g = unchanged g (nothing g)
      by_entry m e (some node) g = (
        ap is_there (sym g ∙ holds s i),
        subst
            (λ (o : Option RegistryNode).
              Holds (beat_entry r s i now m (some node)).1 (at s i (beaten now o) f))
            (sym g ∙ holds s i) (rewritten m e (record node { last_heartbeat = now })),
      )

      by_table :
          (o : Option NodeMap)
          → lookup s r.services ≡ o
          → Implements
              (answer_of (beat_from r s i now o))
              (is_there (f s i), at s i (beaten now (f s i)) f)
      by_table none e =
          let absent : find r s i ≡ none = rw e refl in unchanged absent (nothing absent)
      by_table (some m) e = by_entry m e (lookup i m) (rw e refl)

register-Implements :
    (r : MemoryRegistry) (node : RegistryNode) (now : ℕ) (f : Entries)
    → Holds r f
    → Implements (answer_of (register_service r node now)) (apply_spec f (registers node now))
unfolding register_service apply_spec
register-Implements r node now f holds =
    let s = node.service_name in
    let m = insert node.node_id (stamped node now) (nodes r.services s) in
    (
      refl,
      write-Holds r s node.node_id f holds (record r { services = insert s m r.services }) m
          (some (stamped node now)) (λ t. nodes-insert r.services s t m)
          (λ j. lookup-insert node.node_id j (stamped node now) (nodes r.services s)),
    )

cleans-Implements :
    (r : MemoryRegistry) (now timeout : ℕ) (f : Entries)
    → IsValid r
    → Holds r f
    → Implements (cleaned (cleanup_expired_nodes r now timeout)) (apply_spec f (cleans now timeout))
unfolding cleanup_expired_nodes apply_spec
cleans-Implements r now timeout f v holds = (
  refl,
  λ t j.
      ap (lookup j) (nodes-cleanup_services now timeout t r.services v.0)
      ∙ lookup-remove_if (expired now timeout) j (nodes r.services t) (v.1 t)
      ∙ ap (unless (expired now timeout)) (holds t j),
)

apply-Implements :
    (r : MemoryRegistry) (op : Op) (f : Entries)
    → IsValid r
    → Holds r f
    → Implements (apply r op) (apply_spec f op)
unfolding apply apply_spec
apply-Implements r (registers node now) f v h = register-Implements r node now f h
apply-Implements r (deregisters s i) f v h = deregister-Implements r s i f h
apply-Implements r (beats s i now) f v h = beats-Implements r s i f h now
apply-Implements r (cleans now timeout) f v h = cleans-Implements r now timeout f v h

run-Implements :
    (r : MemoryRegistry) (ops : List Op) (f : Entries)
    → IsValid r
    → Holds r f
    → ((run r ops).0 ≡ (run_spec f ops).0) × Holds (run r ops).1 (run_spec f ops).1
unfolding run run_spec
run-Implements r [] f v h = (refl, h)
run-Implements r (op ∷ ops) f v h =
    let (answer, held) = apply-Implements r op f v h in
    let ih = run-Implements (apply r op).1 ops (apply_spec f op).1 (apply-IsValid r op v) held in
    (ap₂ ◌∷◌ answer ih.0, ih.1)

-- Any calls on a new registry answer what the calls on an empty partial map answer, and leave the
-- registry with the map's entries.
pub run-refines-map :
    (ops : List Op)
    → let (oks, r) = run new_registry ops in
      let (answers, f) = run_spec (λ s i. none) ops in
      (oks ≡ answers) × ((s i : Bytes) → find r s i ≡ f s i)
unfolding lookup
run-refines-map ops = run-Implements new_registry ops (λ s i. none) (tt, λ s. tt) (λ s i. refl)
