-- ===== src/ConsistentHash.antt =====
-- src/loadbalance: consistent hashing of keys to nodes. The ring is an ordered map from a 32-bit
-- hash to a node, here a list that is kept in the order of its hashes. Each operation holds the mutex, so
-- operations follow one another. The hash function is a parameter, as in the class, and
-- `default_hash` is the one that it takes by default.
pub mod Entries
pub mod Ring
pub mod Movement
pub mod Nodes
use rpc_framework.Prelude.{
  ℕ, zero, suc, ◌+◌, ◌-◌, ◌*◌, ◌/◌, ◌%◌, ◌^◌, Bool, true, false, List, [], ◌∷◌, ◌++◌, Option, none,
  some, ltb, leb, ◌==◌, if◌then◌else◌, length, nat_eq, list_eq,
}
use rpc_framework.Prelude.Table.{lookup, insert, erase}
use rpc_framework.Prelude.Xor.{bit_xor}
use rpc_framework.Network.Buffer.{Bytes}

abbrev pub Ring : Type 0
Ring = List (ℕ × Bytes)

pub record ConsistentHash : Type 0 where
  pub virtual_nodes : ℕ
  pub ring : Ring
  pub node_hashes : List (Bytes × List ℕ)

-- `ring_[hash] = node` and `ring_.erase(hash)`.
unfoldable pub ring_insert : ℕ → Bytes → Ring → Ring
ring_insert hash node [] = (hash, node) ∷ []
ring_insert hash node ((h, n) ∷ ring) =
    let rest = ring_insert hash node ring in
    if ltb hash h
    then (hash, node) ∷ ((h, n) ∷ ring)
    else if hash == h
    then (hash, node) ∷ ring
    else (h, n) ∷ rest

unfoldable pub ring_erase : ℕ → Ring → Ring
ring_erase hash [] = []
ring_erase hash ((h, n) ∷ ring) =
    let rest = ring_erase hash ring in if h == hash then ring else (h, n) ∷ rest

-- The decimal digits of a number; `fuel` is at least their count.
abbrev pub decimal_onto : ℕ → ℕ → Bytes → Bytes
decimal_onto zero n digits = digits
decimal_onto (suc fuel) n digits =
    let next = decimal_onto fuel (n / 10) ((48 + n % 10) ∷ digits) in
    if ltb n 10 then (48 + n) ∷ digits else next

-- `node << "#" << index`: an `int` has at most ten digits.
abbrev pub virtual_node_key : Bytes → ℕ → Bytes
virtual_node_key node index = node ++ (35 ∷ decimal_onto 10 index [])

unfoldable pub erase_all : List ℕ → Ring → Ring
erase_all [] ring = ring
erase_all (hash ∷ hashes) ring = erase_all hashes (ring_erase hash ring)

-- The hashes of the virtual nodes from `i` on, `n` of them.
unfoldable pub hashes_from : (Bytes → ℕ) → Bytes → ℕ → ℕ → List ℕ
hashes_from hash_func node i zero = []
hashes_from hash_func node i (suc n) =
    hash_func (virtual_node_key node i) ∷ hashes_from hash_func node (i + 1) n

unfoldable pub insert_all : List ℕ → Bytes → Ring → Ring
insert_all [] node ring = ring
insert_all (hash ∷ hashes) node ring = insert_all hashes node (ring_insert hash node ring)

abbrev pub drop_node : ConsistentHash → Bytes → Option (List ℕ) → ConsistentHash
drop_node h node none = h
drop_node h node (some hashes) = record h {
  ring = erase_all hashes h.ring;
  node_hashes = erase node h.node_hashes;
}

unfoldable pub remove_node : ConsistentHash → Bytes → ConsistentHash
remove_node h node = drop_node h node (lookup node h.node_hashes)

abbrev pub enter_node : ConsistentHash → Bytes → List ℕ → ConsistentHash
enter_node h node hashes = record h {
  ring = insert_all hashes node h.ring;
  node_hashes = insert node hashes h.node_hashes;
}

-- A node that is there is removed first.
unfoldable pub add_node : (Bytes → ℕ) → ConsistentHash → Bytes → ConsistentHash
add_node hash_func h node =
    enter_node (drop_node h node (lookup node h.node_hashes)) node
      (hashes_from hash_func node 0 h.virtual_nodes)

-- The first entry at the hash or above it.
unfoldable pub lower_bound : ℕ → Ring → Option (ℕ × Bytes)
lower_bound hash [] = none
lower_bound hash ((h, n) ∷ ring) =
    let rest = lower_bound hash ring in if leb hash h then some (h, n) else rest

abbrev pub first : Ring → Option (ℕ × Bytes)
first [] = none
first (e ∷ ring) = some e

abbrev pub or_first : Option (ℕ × Bytes) → Ring → Option (ℕ × Bytes)
or_first (some e) ring = some e
or_first none ring = first ring

-- The entry that a hash belongs to, past the end of the ring its first one.
unfoldable pub owner : ℕ → Ring → Option (ℕ × Bytes)
owner hash ring = or_first (lower_bound hash ring) ring

abbrev pub name_of : Option (ℕ × Bytes) → Bytes
name_of none = []
name_of (some (h, n)) = n

unfoldable pub get_node : (Bytes → ℕ) → ConsistentHash → Bytes → Bytes
get_node hash_func h key = name_of (owner (hash_func key) h.ring)

unfoldable pub size : ConsistentHash → ℕ
size h = length h.node_hashes

-- A `char` is signed: from 128 on its bits are extended to the left.
abbrev pub extended : ℕ → ℕ
extended c = if ltb c 128 then c else 2 ^ 32 - 256 + c

abbrev pub shifted_left : ℕ → ℕ → ℕ
shifted_left c bits = extended c * 2 ^ bits % 2 ^ 32

abbrev pub times_m : ℕ → ℕ
times_m x = x * 0x5bd1_e995 % 2 ^ 32

-- The block of four bytes, the least significant one first.
abbrev pub mixed_block : ℕ → ℕ → ℕ → ℕ → ℕ
mixed_block a b c d =
    let k = times_m (a + b * 256 + c * 65536 + d * 16777216) in times_m (bit_xor k (k / 2 ^ 24))

-- The loop over blocks of four bytes, and the bytes that are left.
unfoldable pub mix : ℕ → Bytes → ℕ
mix h (a ∷ b ∷ c ∷ d ∷ rest) = mix (bit_xor (times_m h) (mixed_block a b c d)) rest
mix h (a ∷ b ∷ c ∷ []) =
    times_m (bit_xor (bit_xor (bit_xor h (shifted_left c 16)) (shifted_left b 8)) (extended a))
mix h (a ∷ b ∷ []) = times_m (bit_xor (bit_xor h (shifted_left b 8)) (extended a))
mix h (a ∷ []) = times_m (bit_xor h (extended a))
mix h [] = h

unfoldable pub default_hash : Bytes → ℕ
default_hash key =
    let h = mix (bit_xor 0x9747_b28c (length key % 2 ^ 32)) key in
    let k = times_m (bit_xor h (h / 2 ^ 13)) in bit_xor k (k / 2 ^ 15)
