-- ===== src/ConsistentHash/Nodes.antt =====
-- Which nodes the ring names.
use rpc_framework.Prelude.{
  ℕ, zero, suc, ◌≤◌, ◌≡◌, refl, List, [], ◌∷◌, Option, none, some, arith, leb, ltb, ◌==◌, length,
  nat_eq, list_eq, if-elim,
}
use rpc_framework.Prelude.Table.{lookup}
use rpc_framework.Network.Buffer.{Bytes}
use rpc_framework.ConsistentHash.{
  Ring, ConsistentHash, ring_insert, ring_erase, erase_all, hashes_from, insert_all, drop_node,
  add_node, lower_bound, or_first, owner, name_of,
}

-- A predicate of each node that has an entry.
abbrev pub AllNodes : (Bytes → Type 0) → Ring → Type 0
AllNodes P [] = Unit {0}
AllNodes P ((h, n) ∷ ring) = P n × AllNodes P ring

module _ (P : Bytes → Type 0) where
  ring_insert-AllNodes :
      (hash : ℕ) (node : Bytes) (ring : Ring)
      → P node
      → AllNodes P ring
      → AllNodes P (ring_insert hash node ring)
  unfolding ring_insert
  ring_insert-AllNodes hash node [] p all = (p, tt)
  ring_insert-AllNodes hash node ((h, n) ∷ ring) p all =
      if-elim (AllNodes P) (ltb hash h) (λ _. (p, all))
        (λ _.
          if-elim (AllNodes P) (hash == h) (λ _. (p, all.1))
            (λ _. (all.0, ring_insert-AllNodes hash node ring p all.1)))

  ring_erase-AllNodes :
      (hash : ℕ) (ring : Ring) → AllNodes P ring → AllNodes P (ring_erase hash ring)
  unfolding ring_erase
  ring_erase-AllNodes hash [] all = all
  ring_erase-AllNodes hash ((h, n) ∷ ring) all =
      if-elim (AllNodes P) (h == hash) (λ _. all.1)
        (λ _. (all.0, ring_erase-AllNodes hash ring all.1))

  erase_all-AllNodes :
      (hashes : List ℕ) (ring : Ring) → AllNodes P ring → AllNodes P (erase_all hashes ring)
  unfolding erase_all
  erase_all-AllNodes [] ring all = all
  erase_all-AllNodes (h ∷ hashes) ring all =
      erase_all-AllNodes hashes (ring_erase h ring) (ring_erase-AllNodes h ring all)

  insert_all-AllNodes :
      (hashes : List ℕ) (node : Bytes) (ring : Ring)
      → P node
      → AllNodes P ring
      → AllNodes P (insert_all hashes node ring)
  unfolding insert_all
  insert_all-AllNodes [] node ring p all = all
  insert_all-AllNodes (h ∷ hashes) node ring p all =
      insert_all-AllNodes hashes node (ring_insert h node ring) p
        (ring_insert-AllNodes h node ring p all)

  drop_node-AllNodes :
      (h : ConsistentHash) (node : Bytes) (o : Option (List ℕ))
      → AllNodes P h.ring
      → AllNodes P (drop_node h node o).ring
  drop_node-AllNodes h node none all = all
  drop_node-AllNodes h node (some hashes) all = erase_all-AllNodes hashes h.ring all

  pub add_node-AllNodes :
      (hash_func : Bytes → ℕ) (h : ConsistentHash) (node : Bytes)
      → P node
      → AllNodes P h.ring
      → AllNodes P (add_node hash_func h node).ring
  unfolding add_node
  add_node-AllNodes hash_func h node p all =
      insert_all-AllNodes (hashes_from hash_func node 0 h.virtual_nodes) node _ p
        (drop_node-AllNodes h node (lookup node h.node_hashes) all)

  name_of-first :
      (ring : Ring) → AllNodes P ring → 1 ≤ length ring → P (name_of (or_first none ring))
  name_of-first [] all some_entry = let no : ⊥ = omega arith in elim no [ ]
  name_of-first ((h, n) ∷ ring) all some_entry = all.0

  OfFound : Option (ℕ × Bytes) → Type 0
  OfFound none = Unit {0}
  OfFound (some (h, n)) = P n

  lower_bound-OfFound : (hash : ℕ) (ring : Ring) → AllNodes P ring → OfFound (lower_bound hash ring)
  unfolding lower_bound OfFound
  lower_bound-OfFound hash [] all = tt
  lower_bound-OfFound hash ((h, n) ∷ ring) all =
      if-elim OfFound (leb hash h) (λ _. all.0) (λ _. lower_bound-OfFound hash ring all.1)

  -- The node of a hash is one of those that the ring names.
  pub owner-named :
      (hash : ℕ) (ring : Ring) → AllNodes P ring → 1 ≤ length ring → P (name_of (owner hash ring))
  unfolding owner
  owner-named hash ring all some_entry =
      by_bound (lower_bound hash ring) (lower_bound-OfFound hash ring all)
    where
      by_bound : (o : Option (ℕ × Bytes)) → OfFound o → P (name_of (or_first o ring))
      by_bound none f = name_of-first ring all some_entry
      by_bound (some (h, n)) f = unfold OfFound in f

length-ring_insert :
    (hash : ℕ) (node : Bytes) (ring : Ring) → 1 ≤ length (ring_insert hash node ring)
unfolding ring_insert
length-ring_insert hash node [] = omega arith
length-ring_insert hash node ((h, n) ∷ ring) = ground arith

length-insert_all :
    (hashes : List ℕ) (node : Bytes) (ring : Ring)
    → 1 ≤ length ring
    → 1 ≤ length (insert_all hashes node ring)
unfolding insert_all
length-insert_all [] node ring h = h
length-insert_all (x ∷ hashes) node ring h =
    length-insert_all hashes node (ring_insert x node ring) (length-ring_insert x node ring)

pub length-add_node :
    (hash_func : Bytes → ℕ) (h : ConsistentHash) (node : Bytes)
    → 1 ≤ h.virtual_nodes
    → 1 ≤ length (add_node hash_func h node).ring
unfolding add_node
length-add_node hash_func h node some_nodes = by_count h.virtual_nodes some_nodes
  where
    by_count :
        (n : ℕ)
        → 1 ≤ n
        → 1
          ≤ length (
              insert_all
                (hashes_from hash_func node 0 n)
                node
                (drop_node h node (lookup node h.node_hashes)).ring)
    by_count zero le = let no : ⊥ = omega arith in elim no [ ]
    by_count (suc n) le =
        unfold insert_all in
        unfold hashes_from in
        length-insert_all (hashes_from hash_func node 1 n) node _ (length-ring_insert _ node _)

pub virtual_nodes-add_node :
    (hash_func : Bytes → ℕ) (h : ConsistentHash) (node : Bytes)
    → (add_node hash_func h node).virtual_nodes ≡ h.virtual_nodes
unfolding add_node
virtual_nodes-add_node hash_func h node = by_old (lookup node h.node_hashes)
  where
    by_old : (o : Option (List ℕ)) → (drop_node h node o).virtual_nodes ≡ h.virtual_nodes
    by_old none = refl
    by_old (some hashes) = refl
