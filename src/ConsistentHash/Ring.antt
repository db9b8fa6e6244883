-- ===== src/ConsistentHash/Ring.antt =====
-- The order of the ring, and the entry that a key belongs to.
use rpc_framework.Prelude.{
  ℕ, ◌≤◌, ◌<◌, ◌≡◌, ◌⊎◌, inl, inr, refl, List, [], ◌∷◌, Option, none, some, arith, leb, ltb, ◌==◌,
  nat_eq, list_eq, if-elim,
}
use rpc_framework.Prelude.Table.{lookup}
use rpc_framework.Network.Buffer.{Bytes}
use rpc_framework.ConsistentHash.{
  Ring, ConsistentHash, ring_insert, ring_erase, erase_all, insert_all, hashes_from, drop_node,
  remove_node, add_node, lower_bound, or_first, owner,
}
use rpc_framework.ConsistentHash.Entries.{
  IsHash, AllHashes, Hashed, add_node-Hashed, remove_node-Hashed, lookup-IsHash,
}

abbrev pub Above : ℕ → Ring → Type 0
Above h [] = Unit {0}
Above h ((k, n) ∷ ring) = (h < k) × Above h ring

abbrev pub Sorted : Ring → Type 0
Sorted [] = Unit {0}
Sorted ((h, n) ∷ ring) = Above h ring × Sorted ring

Above-trans : (g h : ℕ) (ring : Ring) → g < h → Above h ring → Above g ring
Above-trans g h [] lt above = tt
Above-trans g h ((k, n) ∷ ring) lt above = (omega (arith, above.0), Above-trans g h ring lt above.1)

ring_insert-Above :
    (g h : ℕ) (n : Bytes) (ring : Ring) → g < h → Above g ring → Above g (ring_insert h n ring)
unfolding ring_insert
ring_insert-Above g h n [] lt above = (lt, tt)
ring_insert-Above g h n ((k, m) ∷ ring) lt above =
    if-elim (Above g) (ltb h k) (λ _. (lt, above))
      (λ _.
        if-elim (Above g) (h == k) (λ _. (lt, above.1))
          (λ _. (above.0, ring_insert-Above g h n ring lt above.1)))

ring_insert-Sorted : (h : ℕ) (n : Bytes) (ring : Ring) → Sorted ring → Sorted (ring_insert h n ring)
unfolding ring_insert
ring_insert-Sorted h n [] s = (tt, tt)
ring_insert-Sorted h n ((k, m) ∷ ring) s =
    if-elim Sorted (ltb h k) (λ c. ((ground arith, Above-trans h k ring (ground arith) s.0), s))
      (λ c.
        if-elim Sorted (h == k) (λ d. (ground arith, s.1))
          (λ d. (ring_insert-Above k h n ring (ground arith) s.0, ring_insert-Sorted h n ring s.1)))

ring_erase-Above : (g h : ℕ) (ring : Ring) → Above g ring → Above g (ring_erase h ring)
unfolding ring_erase
ring_erase-Above g h [] above = above
ring_erase-Above g h ((k, m) ∷ ring) above =
    if-elim (Above g) (k == h) (λ _. above.1) (λ _. (above.0, ring_erase-Above g h ring above.1))

ring_erase-Sorted : (h : ℕ) (ring : Ring) → Sorted ring → Sorted (ring_erase h ring)
unfolding ring_erase
ring_erase-Sorted h [] s = s
ring_erase-Sorted h ((k, m) ∷ ring) s =
    if-elim Sorted (k == h) (λ _. s.1)
      (λ _. (ring_erase-Above k h ring s.0, ring_erase-Sorted h ring s.1))

erase_all-Sorted : (hashes : List ℕ) (ring : Ring) → Sorted ring → Sorted (erase_all hashes ring)
unfolding erase_all
erase_all-Sorted [] ring s = s
erase_all-Sorted (h ∷ hashes) ring s =
    erase_all-Sorted hashes (ring_erase h ring) (ring_erase-Sorted h ring s)

insert_all-Sorted :
    (hashes : List ℕ) (n : Bytes) (ring : Ring) → Sorted ring → Sorted (insert_all hashes n ring)
unfolding insert_all
insert_all-Sorted [] n ring s = s
insert_all-Sorted (h ∷ hashes) n ring s =
    insert_all-Sorted hashes n (ring_insert h n ring) (ring_insert-Sorted h n ring s)

drop_node-Sorted :
    (h : ConsistentHash) (node : Bytes) (o : Option (List ℕ))
    → Sorted h.ring
    → Sorted (drop_node h node o).ring
drop_node-Sorted h node none s = s
drop_node-Sorted h node (some hashes) s = erase_all-Sorted hashes h.ring s

pub data Op : Type 0 where
  adds : Bytes → Op
  removes : Bytes → Op

pub run : (Bytes → ℕ) → ConsistentHash → List Op → ConsistentHash
run hash_func h [] = h
run hash_func h (adds node ∷ ops) = run hash_func (add_node hash_func h node) ops
run hash_func h (removes node ∷ ops) = run hash_func (remove_node h node) ops

run-Sorted :
    (hash_func : Bytes → ℕ) (h : ConsistentHash) (ops : List Op)
    → Sorted h.ring
    → Sorted (run hash_func h ops).ring
unfolding run add_node remove_node
run-Sorted hash_func h [] s = s
run-Sorted hash_func h (adds node ∷ ops) s = run-Sorted hash_func (add_node hash_func h node) ops (
    insert_all-Sorted (hashes_from hash_func node 0 h.virtual_nodes) node _
      (drop_node-Sorted h node (lookup node h.node_hashes) s))
run-Sorted hash_func h (removes node ∷ ops) s =
    run-Sorted hash_func (remove_node h node) ops
      (drop_node-Sorted h node (lookup node h.node_hashes) s)

-- No entry stands between the hash and the one that it belongs to.
abbrev pub NoneBetween : ℕ → ℕ → Ring → Type 0
NoneBetween x k [] = Unit {0}
NoneBetween x k ((h, n) ∷ ring) = (x ≤ h → k ≤ h) × NoneBetween x k ring

-- Every entry is before the hash.
abbrev pub AllBelow : ℕ → Ring → Type 0
AllBelow x [] = Unit {0}
AllBelow x ((h, n) ∷ ring) = (h < x) × AllBelow x ring

-- An entry of the ring, and the next one clockwise, or past the end the lowest one.
abbrev pub Successor : ℕ → Ring → Option (ℕ × Bytes) → Type 0
Successor x ring none = ring ≡ []
Successor x ring (some (k, n)) =
    (lookup k ring ≡ some n)
    × (((x ≤ k) × NoneBetween x k ring) ⊎ (AllBelow x ring × NoneBetween 0 k ring))

NoneBetween-of_Above : (x k : ℕ) (ring : Ring) → Above k ring → NoneBetween x k ring
NoneBetween-of_Above x k [] above = tt
NoneBetween-of_Above x k ((h, n) ∷ ring) above =
    (λ le. omega (arith, above.0), NoneBetween-of_Above x k ring above.1)

lookup-top : (h : ℕ) (n : Bytes) (ring : Ring) → lookup h ((h, n) ∷ ring) ≡ some n
unfolding lookup
lookup-top h n ring = ground arith

abbrev Bound : ℕ → Ring → Option (ℕ × Bytes) → Type 0
Bound x ring none = AllBelow x ring
Bound x ring (some (k, n)) = (lookup k ring ≡ some n) × (x ≤ k) × NoneBetween x k ring

lower_bound-Bound : (x : ℕ) (ring : Ring) → Sorted ring → Bound x ring (lower_bound x ring)
unfolding lower_bound lookup
lower_bound-Bound x [] s = tt
lower_bound-Bound x ((h, n) ∷ ring) s =
    if-elim (Bound x ((h, n) ∷ ring)) (leb x h)
      (λ c. (
        lookup-top h n ring,
        ground arith,
        ((λ _. omega arith), NoneBetween-of_Above x h ring s.0),
      ))
      (λ c. past (lower_bound x ring) (lower_bound-Bound x ring s.1) (ground arith))
  where
    past : (o : Option (ℕ × Bytes)) → Bound x ring o → h < x → Bound x ((h, n) ∷ ring) o
    past none below lt = (lt, below)
    past (some (k, m)) (at, le, between) lt = (ground arith, le, ((λ g. omega arith), between))

or_first-Successor :
    (x : ℕ) (o : Option (ℕ × Bytes)) (ring : Ring)
    → Sorted ring
    → Bound x ring o
    → Successor x ring (or_first o ring)
or_first-Successor x (some (k, n)) ring s (at, le, between) = (at, inl (le, between))
or_first-Successor x none [] s b = refl
or_first-Successor x none ((h, n) ∷ ring) s b =
    (lookup-top h n ring, inr (b, ((λ _. omega arith), NoneBetween-of_Above 0 h ring s.0)))

run-Hashed :
    (hash_func : Bytes → ℕ) (v : ℕ) (h : ConsistentHash) (ops : List Op)
    → Hashed hash_func v h
    → Hashed hash_func v (run hash_func h ops)
unfolding run
run-Hashed hash_func v h [] s = s
run-Hashed hash_func v h (adds node ∷ ops) s =
    run-Hashed hash_func v (add_node hash_func h node) ops (add_node-Hashed hash_func v h node s)
run-Hashed hash_func v h (removes node ∷ ops) s =
    run-Hashed hash_func v (remove_node h node) ops (remove_node-Hashed hash_func v h node s)

-- The entry, if there is one, is at the hash of a virtual node of its node.
abbrev pub IsOwn : (Bytes → ℕ) → ℕ → Option (ℕ × Bytes) → Type 0
IsOwn hash_func v none = Unit {0}
IsOwn hash_func v (some (k, n)) = IsHash hash_func v k n

Successor-IsOwn :
    (hash_func : Bytes → ℕ) (v x : ℕ) (ring : Ring) (o : Option (ℕ × Bytes))
    → AllHashes hash_func v ring
    → Successor x ring o
    → IsOwn hash_func v o
Successor-IsOwn hash_func v x ring none all s = tt
Successor-IsOwn hash_func v x ring (some (k, n)) all s = lookup-IsHash hash_func v k n ring all s.0

-- After any additions and removals from an empty ring, the entry that a hash belongs to is the
-- first at the hash or above it, or the lowest one if all are below it. It stands in the ring, at
-- the hash of a virtual node of its own node. There is none only in an empty ring.
pub run-Successor :
    (hash_func : Bytes → ℕ) (virtual_nodes : ℕ) (ops : List Op) (x : ℕ)
    → let h =
        run hash_func (record { virtual_nodes = virtual_nodes; ring = []; node_hashes = [] }) ops in
      Successor x h.ring (owner x h.ring) × IsOwn hash_func virtual_nodes (owner x h.ring)
unfolding owner
run-Successor hash_func virtual_nodes ops x =
    let h₀ : ConsistentHash = record {
      virtual_nodes = virtual_nodes;
      ring = [];
      node_hashes = [];
    } in
    let h = run hash_func h₀ ops in
    let s = run-Sorted hash_func h₀ ops tt in
    let found =
      or_first-Successor x (lower_bound x h.ring) h.ring s (lower_bound-Bound x h.ring s) in
    (
      found,
      Successor-IsOwn hash_func virtual_nodes x h.ring (or_first (lower_bound x h.ring) h.ring)
          (run-Hashed hash_func virtual_nodes h₀ ops (refl, tt)).1 found,
    )
