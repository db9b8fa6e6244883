-- ===== src/Registry/Nodes.antt =====
-- What each operation does to the table of one service, and the invariant of the tables.
use rpc_framework.Prelude.{
  ℕ, ◌≡◌, refl, sym, ap, ◌∙◌, inl, inr, Bool, List, [], ◌∷◌, Option, none, arith, if◌then◌else◌,
  Bool-cases, nat_eq, list_eq,
}
use rpc_framework.Prelude.Table.{
  remove_if, lookup, insert, erase, lookup-insert, lookup-erase, Unique,
}
use rpc_framework.Network.Buffer.{Bytes}
use rpc_framework.Registry.{
  RegistryNode, NodeMap, MemoryRegistry, or_none_yet, put_back, cleanup_nodes, cleanup_services,
  keep_service,
}

abbrev pub same : Bytes → Bytes → Bool
same = (list_eq {A = ℕ}).beq

abbrev pub nodes : List (Bytes × NodeMap) → Bytes → NodeMap
nodes services s = or_none_yet (lookup s services)

abbrev pub find : MemoryRegistry → Bytes → Bytes → Option RegistryNode
find r s i = lookup i (nodes r.services s)

pub nodes-insert :
    (services : List (Bytes × NodeMap)) (s t : Bytes) (m : NodeMap)
    → nodes (insert s m services) t ≡ (if same s t then m else nodes services t)
nodes-insert services s t m = elim (Bool-cases (same s t)) [
  | inl h ↦ rw (lookup-insert s t m services, h) refl
  | inr h ↦ rw (lookup-insert s t m services, h) refl
]

nodes-erase :
    (services : List (Bytes × NodeMap)) (s t : Bytes)
    → nodes (erase s services) t ≡ (if same s t then [] else nodes services t)
nodes-erase services s t = elim (Bool-cases (same s t)) [
  | inl h ↦ rw (lookup-erase s t services, h) refl
  | inr h ↦ rw (lookup-erase s t services, h) refl
]

pub nodes-put_back :
    (services : List (Bytes × NodeMap)) (s t : Bytes) (m : NodeMap)
    → nodes (put_back s m services) t ≡ (if same s t then m else nodes services t)
nodes-put_back services s t [] = nodes-erase services s t
nodes-put_back services s t (n ∷ m) = nodes-insert services s t (n ∷ m)

keep_service-lookup :
    (s t : Bytes) (m : NodeMap) (rest : List (Bytes × NodeMap))
    → lookup s rest ≡ none
    → nodes (keep_service s m rest) t ≡ (if same s t then m else nodes rest t)
unfolding lookup
keep_service-lookup s t [] rest absent = elim (Bool-cases (same s t)) [
  | inl h ↦ rw h (
      ap or_none_yet
        (ap (λ (k : Bytes). lookup k rest) (sym (((list_eq {A = ℕ}).beq_iff s t).0 h)) ∙ absent))
  | inr h ↦ rw h refl
]
keep_service-lookup s t (n ∷ m) rest absent = elim (Bool-cases (same s t)) [
  | inl h ↦ rw h refl
  | inr h ↦ rw h refl
]

lookup-cleanup_services :
    (now timeout : ℕ) (t : Bytes) (services : List (Bytes × NodeMap))
    → lookup t services ≡ none
    → lookup t (cleanup_services now timeout services) ≡ none
unfolding cleanup_services lookup
lookup-cleanup_services now timeout t [] absent = refl
lookup-cleanup_services now timeout t ((s, m) ∷ rest) absent =
    kept (cleanup_nodes now timeout m) (lookup-cleanup_services now timeout t rest (ground arith))
  where
    kept :
        (m' : NodeMap)
        → lookup t (cleanup_services now timeout rest) ≡ none
        → lookup t (keep_service s m' (cleanup_services now timeout rest)) ≡ none
    kept [] ih = ih
    kept (n ∷ m') ih = ground arith

pub cleanup_services-Unique :
    (now timeout : ℕ) (services : List (Bytes × NodeMap))
    → Unique services
    → Unique (cleanup_services now timeout services)
unfolding cleanup_services lookup
cleanup_services-Unique now timeout [] u = tt
cleanup_services-Unique now timeout ((s, m) ∷ rest) u =
    kept (cleanup_nodes now timeout m) (lookup-cleanup_services now timeout s rest u.0)
      (cleanup_services-Unique now timeout rest u.1)
  where
    kept :
        (m' : NodeMap)
        → lookup s (cleanup_services now timeout rest) ≡ none
        → Unique (cleanup_services now timeout rest)
        → Unique (keep_service s m' (cleanup_services now timeout rest))
    kept [] absent ih = ih
    kept (n ∷ m') absent ih = (absent, ih)

-- A cleanup, table by table.
pub nodes-cleanup_services :
    (now timeout : ℕ) (t : Bytes) (services : List (Bytes × NodeMap))
    → Unique services
    → nodes (cleanup_services now timeout services) t ≡ cleanup_nodes now timeout (nodes services t)
unfolding cleanup_services lookup remove_if
nodes-cleanup_services now timeout t [] u = refl
nodes-cleanup_services now timeout t ((s, m) ∷ rest) u =
    keep_service-lookup s t (cleanup_nodes now timeout m) (cleanup_services now timeout rest)
      (lookup-cleanup_services now timeout s rest u.0)
    ∙ elim (Bool-cases (same s t)) [
      | inl h ↦ rw h refl
      | inr h ↦ rw h (nodes-cleanup_services now timeout t rest u.1)
    ]
