-- ===== src/ConsistentHash/Movement.antt =====
-- Which keys move when a node joins or leaves.
use rpc_framework.Prelude.{
  ℕ, ◌≡◌, ◌≢◌, ◌⊎◌, inl, inr, refl, sym, ap, ◌∙◌, List, [], ◌∷◌, Option, none, some, arith,
  Option-cases, nat_eq, list_eq,
}
use rpc_framework.Prelude.Table.{lookup}
use rpc_framework.Network.Buffer.{Bytes}
use rpc_framework.ConsistentHash.{
  Ring, ConsistentHash, ring_insert, ring_erase, erase_all, insert_all, hashes_from, drop_node,
  remove_node, add_node, lower_bound, first, or_first, owner, name_of, get_node,
}

lower_bound-ring_erase :
    (x h : ℕ) (e : ℕ × Bytes) (ring : Ring)
    → lower_bound x ring ≡ some e
    → e.0 ≢ h
    → lower_bound x (ring_erase h ring) ≡ some e
unfolding lower_bound ring_erase
lower_bound-ring_erase x h e [] found other = found
lower_bound-ring_erase x h e ((k, n) ∷ ring) found other =
    ground (arith, lower_bound-ring_erase x h e ring)

lower_bound-ring_erase-none :
    (x h : ℕ) (ring : Ring) → lower_bound x ring ≡ none → lower_bound x (ring_erase h ring) ≡ none
unfolding lower_bound ring_erase
lower_bound-ring_erase-none x h [] past = refl
lower_bound-ring_erase-none x h ((k, n) ∷ ring) past =
    ground (arith, lower_bound-ring_erase-none x h ring)

first-ring_erase :
    (h : ℕ) (e : ℕ × Bytes) (ring : Ring)
    → first ring ≡ some e
    → e.0 ≢ h
    → first (ring_erase h ring) ≡ some e
unfolding ring_erase
first-ring_erase h e [] found other = found
first-ring_erase h e ((k, n) ∷ ring) found other = ground arith

-- An entry that stays keeps its keys.
owner-ring_erase :
    (x h : ℕ) (e : ℕ × Bytes) (ring : Ring)
    → owner x ring ≡ some e
    → e.0 ≢ h
    → owner x (ring_erase h ring) ≡ some e
unfolding owner
owner-ring_erase x h e ring found other = by_bound (lower_bound x ring) refl
  where
    by_bound :
        (o : Option (ℕ × Bytes)) → lower_bound x ring ≡ o → owner x (ring_erase h ring) ≡ some e
    by_bound none past = rw (lower_bound-ring_erase-none x h ring past) (
        first-ring_erase h e ring
          (sym (ap (λ (o : Option (ℕ × Bytes)). or_first o ring) past) ∙ found) other)
    by_bound (some d) at =
        let same : some d ≡ some e =
          sym (ap (λ (o : Option (ℕ × Bytes)). or_first o ring) at) ∙ found in
        rw (lower_bound-ring_erase x h e ring (at ∙ same) other) refl

abbrev pub Absent : ℕ → List ℕ → Type 0
Absent h [] = Unit {0}
Absent h (k ∷ hashes) = (h ≢ k) × Absent h hashes

owner-erase_all :
    (x : ℕ) (e : ℕ × Bytes) (hashes : List ℕ) (ring : Ring)
    → owner x ring ≡ some e
    → Absent e.0 hashes
    → owner x (erase_all hashes ring) ≡ some e
unfolding erase_all
owner-erase_all x e [] ring found other = found
owner-erase_all x e (k ∷ hashes) ring found other =
    owner-erase_all x e hashes (ring_erase k ring) (owner-ring_erase x k e ring found other.0)
      other.1

-- The hashes that the removal of a node erases.
abbrev pub own_hashes : Option (List ℕ) → List ℕ
own_hashes none = []
own_hashes (some hashes) = hashes

-- A key whose entry of the ring is not one of the virtual nodes of a node keeps its node when that
-- node is removed.
pub remove_node-keeps :
    (hash_func : Bytes → ℕ) (h : ConsistentHash) (node key : Bytes) (e : ℕ × Bytes)
    → owner (hash_func key) h.ring ≡ some e
    → Absent e.0 (own_hashes (lookup node h.node_hashes))
    → get_node hash_func (remove_node h node) key ≡ get_node hash_func h key
unfolding get_node remove_node
remove_node-keeps hash_func h node key e found other = by_hashes (lookup node h.node_hashes) other
  where
    by_hashes :
        (o : Option (List ℕ))
        → Absent e.0 (own_hashes o)
        → get_node hash_func (drop_node h node o) key ≡ get_node hash_func h key
    by_hashes none absent = refl
    by_hashes (some hashes) absent =
        ap name_of (owner-erase_all (hash_func key) e hashes h.ring found absent ∙ sym found)

lower_bound-ring_insert :
    (x h : ℕ) (n : Bytes) (ring : Ring)
    → (lower_bound x (ring_insert h n ring) ≡ lower_bound x ring)
      ⊎ (lower_bound x (ring_insert h n ring) ≡ some (h, n))
unfolding lower_bound ring_insert
lower_bound-ring_insert x h n [] = ground arith
lower_bound-ring_insert x h n ((k, m) ∷ ring) = ground (arith, lower_bound-ring_insert x h n ring)

first-ring_insert :
    (h : ℕ) (n : Bytes) (ring : Ring)
    → (first (ring_insert h n ring) ≡ first ring) ⊎ (first (ring_insert h n ring) ≡ some (h, n))
unfolding ring_insert
first-ring_insert h n [] = inr refl
first-ring_insert h n ((k, m) ∷ ring) = ground arith

-- A new entry takes keys for itself, and gives none to another one.
owner-ring_insert :
    (x h : ℕ) (n : Bytes) (ring : Ring)
    → (owner x (ring_insert h n ring) ≡ owner x ring)
      ⊎ (owner x (ring_insert h n ring) ≡ some (h, n))
unfolding owner
owner-ring_insert x h n ring = elim (lower_bound-ring_insert x h n ring) [
  | inr new ↦ inr (rw new refl)
  | inl same ↦ elim (Option-cases (lower_bound x ring)) [
    | inr (e, at) ↦ inl (rw (same, at) refl)
    | inl past ↦ elim (first-ring_insert h n ring) [
      | inl kept ↦ inl (rw (same, past) kept)
      | inr new ↦ inr (rw (same, past) new)
    ]
  ]
]

owner-insert_all :
    (x : ℕ) (hashes : List ℕ) (n : Bytes) (ring : Ring)
    → (owner x (insert_all hashes n ring) ≡ owner x ring)
      ⊎ (name_of (owner x (insert_all hashes n ring)) ≡ n)
unfolding insert_all
owner-insert_all x [] n ring = inl refl
owner-insert_all x (h ∷ hashes) n ring = elim (owner-insert_all x hashes n (ring_insert h n ring)) [
  | inr its ↦ inr its
  | inl same ↦ elim (owner-ring_insert x h n ring) [
    | inl kept ↦ inl (same ∙ kept)
    | inr new ↦ inr (ap name_of (same ∙ new))
  ]
]

-- When a node is added, again or for the first time, a key whose entry of the ring is not one of the node's
-- former virtual nodes keeps its node or moves to the added one.
pub add_node-moves_to_it :
    (hash_func : Bytes → ℕ) (h : ConsistentHash) (node key : Bytes) (e : ℕ × Bytes)
    → owner (hash_func key) h.ring ≡ some e
    → Absent e.0 (own_hashes (lookup node h.node_hashes))
    → (get_node hash_func (add_node hash_func h node) key ≡ get_node hash_func h key)
      ⊎ (get_node hash_func (add_node hash_func h node) key ≡ node)
unfolding add_node get_node remove_node
add_node-moves_to_it hash_func h node key e found other =
    let hashes = hashes_from hash_func node 0 h.virtual_nodes in
    elim (owner-insert_all (hash_func key) hashes node
      (drop_node h node (lookup node h.node_hashes)).ring) [
        | inl same ↦ inl (ap name_of same ∙ remove_node-keeps hash_func h node key e found other)
        | inr its ↦ inr its
      ]
