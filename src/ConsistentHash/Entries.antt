-- ===== src/ConsistentHash/Entries.antt =====
-- What stands in the ring of src/loadbalance/consistent_hash.cc.
use rpc_framework.Prelude.{
  ℕ, ◌≡◌, refl, sym, ap, ◌∙◌, Bool, true, false, ◌||◌, List, [], ◌∷◌, Option, none, some, arith,
  ltb, ◌==◌, nat_eq, list_eq, if-elim, subst, some-eq-some, if◌then◌else◌,
}
use rpc_framework.Prelude.Table.{lookup}
use rpc_framework.Network.Buffer.{Bytes}
use rpc_framework.ConsistentHash.{
  Ring, ConsistentHash, ring_insert, ring_erase, erase_all, hashes_from, insert_all, drop_node,
  add_node, remove_node,
}

pub among : ℕ → List ℕ → Bool
among k [] = false
among k (h ∷ hashes) = k == h || among k hashes

module _ (hash_func : Bytes → ℕ) (virtual_nodes : ℕ) where
  -- The hash is that of a virtual node of the node.
  abbrev pub IsHash : ℕ → Bytes → Type 0
  IsHash k n = among k (hashes_from hash_func n 0 virtual_nodes) ≡ true

  abbrev pub AllHashes : Ring → Type 0
  AllHashes [] = Unit {0}
  AllHashes ((k, n) ∷ ring) = IsHash k n × AllHashes ring

  ring_insert-AllHashes :
      (k : ℕ) (n : Bytes) (ring : Ring)
      → IsHash k n
      → AllHashes ring
      → AllHashes (ring_insert k n ring)
  unfolding ring_insert
  ring_insert-AllHashes k n [] own all = (own, tt)
  ring_insert-AllHashes k n ((h, m) ∷ ring) own all =
      if-elim AllHashes (ltb k h) (λ _. (own, all))
        (λ _.
          if-elim AllHashes (k == h) (λ _. (own, all.1))
            (λ _. (all.0, ring_insert-AllHashes k n ring own all.1)))

  ring_erase-AllHashes : (k : ℕ) (ring : Ring) → AllHashes ring → AllHashes (ring_erase k ring)
  unfolding ring_erase
  ring_erase-AllHashes k [] all = all
  ring_erase-AllHashes k ((h, m) ∷ ring) all =
      if-elim AllHashes (h == k) (λ _. all.1) (λ _. (all.0, ring_erase-AllHashes k ring all.1))

  erase_all-AllHashes :
      (hashes : List ℕ) (ring : Ring) → AllHashes ring → AllHashes (erase_all hashes ring)
  unfolding erase_all
  erase_all-AllHashes [] ring all = all
  erase_all-AllHashes (k ∷ hashes) ring all =
      erase_all-AllHashes hashes (ring_erase k ring) (ring_erase-AllHashes k ring all)

  insert_all-AllHashes :
      (hashes : List ℕ) (n : Bytes) (ring : Ring)
      → ((k : ℕ) → among k hashes ≡ true → IsHash k n)
      → AllHashes ring
      → AllHashes (insert_all hashes n ring)
  unfolding insert_all among
  insert_all-AllHashes [] n ring own all = all
  insert_all-AllHashes (h ∷ hashes) n ring own all =
      insert_all-AllHashes hashes n (ring_insert h n ring) (λ k m. own k (ground arith))
        (ring_insert-AllHashes h n ring (own h (ground arith)) all)

  -- The count of virtual nodes stays, and so does what stands in the ring.
  abbrev pub Hashed : ConsistentHash → Type 0
  Hashed h = (h.virtual_nodes ≡ virtual_nodes) × AllHashes h.ring

  drop_node-Hashed :
      (h : ConsistentHash) (node : Bytes) (o : Option (List ℕ))
      → Hashed h
      → Hashed (drop_node h node o)
  drop_node-Hashed h node none s = s
  drop_node-Hashed h node (some hashes) s = (s.0, erase_all-AllHashes hashes h.ring s.1)

  pub remove_node-Hashed :
      (h : ConsistentHash) (node : Bytes) → Hashed h → Hashed (remove_node h node)
  unfolding remove_node
  remove_node-Hashed h node s = drop_node-Hashed h node (lookup node h.node_hashes) s

  pub add_node-Hashed :
      (h : ConsistentHash) (node : Bytes) → Hashed h → Hashed (add_node hash_func h node)
  unfolding add_node
  add_node-Hashed h node s =
      let d = drop_node-Hashed h node (lookup node h.node_hashes) s in
      (
        d.0,
        insert_all-AllHashes (hashes_from hash_func node 0 h.virtual_nodes) node _
            (λ k m. ap (λ v. among k (hashes_from hash_func node 0 v)) (sym s.0) ∙ m) d.1,
      )

  pub lookup-IsHash :
      (k : ℕ) (n : Bytes) (ring : Ring) → AllHashes ring → lookup k ring ≡ some n → IsHash k n
  unfolding lookup
  lookup-IsHash k n [] all at = cc
  lookup-IsHash k n ((h, m) ∷ ring) all at =
      by_key (h == k) (λ t. (nat_eq.beq_iff h k).0 t) (lookup-IsHash k n ring all.1) at
    where
      by_key :
          (b : Bool)
          → (b ≡ true → h ≡ k)
          → (lookup k ring ≡ some n → IsHash k n)
          → (if b then some m else lookup k ring) ≡ some n
          → IsHash k n
      by_key true same later e =
          subst (λ x. IsHash x n) (same refl) (subst (λ y. IsHash h y) (some-eq-some e) all.0)
      by_key false same later e = later e
