-- ===== src/AsyncClient/Affinity.antt =====
-- Consistent hashing over the endpoints.
use rpc_framework.Prelude.{
  ℕ, suc, ◌≤◌, ◌≡◌, ◌⊎◌, inl, inr, refl, sym, subst, Bool, false, ◌&&◌, List, [], ◌∷◌, ◌++◌, Option,
  some, arith, ◌==◌, length, list_eq, nat_eq, if-elim,
}
use mathlib.Core.List.{append-nil, append_assoc}
use rpc_framework.Network.Buffer.{Bytes}
use rpc_framework.ConsistentHash.{ConsistentHash, add_node, get_node, default_hash}
use rpc_framework.ConsistentHash.Nodes.{
  AllNodes, add_node-AllNodes, owner-named, length-add_node, virtual_nodes-add_node,
}
use rpc_framework.AsyncClient.{RpcAsyncClient, Endpoint, consistent_hash}
use rpc_framework.AsyncClient.Choice.{
  name, same_name, find_endpoint, add_all, picked, get_tcp_client, set_lb_policy,
}
use rpc_framework.AsyncClient.Connecting.{
  Attempt, is_yes, endpoint_of, add_endpoint, connect_all, connect_via_registry,
}

-- An endpoint has the name.
abbrev pub IsServed : List Endpoint → Bytes → Type 0
IsServed es node = (t : ℕ) × (find_endpoint es node ≡ some t)

IsServed-here : (e : Endpoint) (es : List Endpoint) → IsServed (e ∷ es) (name e)
unfolding find_endpoint
IsServed-here e es = (e.tcp_client, ground (arith, (list_eq {A = ℕ}).beq_iff (name e) (name e)))

IsServed-cons :
    (e : Endpoint) (es : List Endpoint) (node : Bytes) → IsServed es node → IsServed (e ∷ es) node
unfolding find_endpoint
IsServed-cons e es node s =
    if-elim (λ (o : Option ℕ). (t : ℕ) × (o ≡ some t)) (same_name (name e) node)
      (λ _. (e.tcp_client, refl)) (λ _. s)

IsServed-skip :
    (e : Endpoint) (es : List Endpoint) (node : Bytes)
    → same_name (name e) node ≡ false
    → IsServed (e ∷ es) node
    → IsServed es node
unfolding find_endpoint
IsServed-skip e es node h s = (s.0, rw h at s.1)

IsServed-append :
    (es : List Endpoint) (x : Endpoint) (node : Bytes)
    → IsServed es node ⊎ (node ≡ name x)
    → IsServed (es ++ (x ∷ [])) node
unfolding find_endpoint
IsServed-append [] x node (inl s) = let no : ⊥ = cc in elim no [ ]
IsServed-append [] x node (inr e) = subst (IsServed (x ∷ [])) (sym e) (IsServed-here x [])
IsServed-append (y ∷ es) x node (inr e) =
    IsServed-cons y (es ++ (x ∷ [])) node (IsServed-append es x node (inr e))
IsServed-append (y ∷ es) x node (inl s) =
    if-elim (λ (o : Option ℕ). (t : ℕ) × (o ≡ some t)) (same_name (name y) node)
      (λ _. (y.tcp_client, refl))
      (λ h. IsServed-append es x node (inl (IsServed-skip y es node h s)))

AllNodes-map :
    (P Q : Bytes → Type 0) (ring : List (ℕ × Bytes))
    → ((n : Bytes) → P n → Q n)
    → AllNodes P ring
    → AllNodes Q ring
AllNodes-map P Q [] f all = tt
AllNodes-map P Q ((h, n) ∷ ring) f all = (f n all.0, AllNodes-map P Q ring f all.1)

-- The ring names endpoints only, and is not empty if there is one.
abbrev pub Names : List Endpoint → ConsistentHash → Type 0
Names es h =
    AllNodes (IsServed es) h.ring × (1 ≤ h.virtual_nodes) × ((es ≡ []) ⊎ (1 ≤ length h.ring))

Names-add :
    (es : List Endpoint) (e : Endpoint) (h : ConsistentHash)
    → Names es h
    → Names (es ++ (e ∷ [])) (add_node default_hash h (name e))
Names-add es e h (all, some_nodes, full) = (
  add_node-AllNodes (IsServed (es ++ (e ∷ []))) default_hash h (name e)
      (IsServed-append es e (name e) (inr refl))
      (AllNodes-map (IsServed es) (IsServed (es ++ (e ∷ []))) h.ring
        (λ n s. IsServed-append es e n (inl s)) all),
  omega (arith, virtual_nodes-add_node default_hash h (name e)),
  inr (length-add_node default_hash h (name e) some_nodes),
)

add_all-Names :
    (done es : List Endpoint) (h : ConsistentHash)
    → Names done h
    → Names (done ++ es) (add_all es h)
unfolding add_all
add_all-Names done [] h s = rw append-nil s
add_all-Names done (e ∷ es) h s =
    subst (λ (l : List Endpoint). Names l (add_all es (add_node default_hash h (name e))))
      (append_assoc done (e ∷ []) es)
      (add_all-Names (done ++ (e ∷ [])) es (add_node default_hash h (name e))
        (Names-add done e h s))

-- A key that is not empty has an endpoint, the one whose name the ring gives.
find-Names :
    (e : Endpoint) (es : List Endpoint) (h : ConsistentHash) (key : Bytes)
    → Names (e ∷ es) h
    → IsServed (e ∷ es) (get_node default_hash h key)
unfolding get_node
find-Names e es h key (all, some_nodes, inl empty) = let no : ⊥ = cc in elim no [ ]
find-Names e es h key (all, some_nodes, inr full) =
    owner-named (IsServed (e ∷ es)) (default_hash key) h.ring all full

module _ {R : Type 0} where
  abbrev pub InStep : RpcAsyncClient R → Type 0
  InStep c =
      (h : ConsistentHash) × (c.ring ≡ some h)
      × (c.lb_policy ≡ consistent_hash)
      × Names c.endpoints h

  set_lb_policy-InStep :
      (c : RpcAsyncClient R) (virtual_nodes : ℕ)
      → 1 ≤ virtual_nodes
      → InStep (set_lb_policy c consistent_hash virtual_nodes)
  unfolding set_lb_policy
  set_lb_policy-InStep c virtual_nodes le =
      let h : ConsistentHash = record {
        virtual_nodes = virtual_nodes;
        ring = [];
        node_hashes = [];
      } in
      (add_all c.endpoints h, refl, refl, add_all-Names [] c.endpoints h (tt, le, inl refl))

  add_endpoint-InStep : (c : RpcAsyncClient R) (a : Attempt) → InStep c → InStep (add_endpoint c a)
  add_endpoint-InStep c a (h, ring, policy, s) = (
    add_node default_hash h (name (endpoint_of a)),
    rw (ring, policy) refl,
    policy,
    Names-add c.endpoints (endpoint_of a) h s,
  )

  connect_all-InStep :
      (c : RpcAsyncClient R) (nodes : List Attempt) (n : ℕ)
      → InStep c
      → InStep (connect_all c nodes n).0
  unfolding connect_all
  connect_all-InStep c [] n s = s
  connect_all-InStep c (a ∷ nodes) n s =
      if-elim (λ (p : RpcAsyncClient R × ℕ). InStep p.0) (a.valid_ip && is_yes a.answered)
        (λ _. connect_all-InStep (add_endpoint c a) nodes (suc n) (add_endpoint-InStep c a s))
        (λ _. connect_all-InStep c nodes n s)

  -- The endpoint of a key, and nothing of the client changes.
  abbrev pub Affine : RpcAsyncClient R → Bytes → Type 0
  Affine c key =
      (h : ConsistentHash) × (t : ℕ) × (c.ring ≡ some h)
      × (find_endpoint c.endpoints (get_node default_hash h key) ≡ some t)
      × (get_tcp_client c key ≡ (some t, c))

  get_tcp_client-Affine :
      (c : RpcAsyncClient R) (e : Endpoint) (es : List Endpoint) (k : ℕ) (key : Bytes)
      → c.endpoints ≡ e ∷ es
      → InStep c
      → Affine c (k ∷ key)
  unfolding get_tcp_client picked
  get_tcp_client-Affine c e es k key same (h, ring, policy, s) =
      let (t, found) =
        find-Names e es h (k ∷ key) (subst (λ (l : List Endpoint). Names l h) same s) in
      (h, t, ring, rw same found, rw (same, policy, ring, found) refl)

  connect_via_registry-InStep :
      (c : RpcAsyncClient R) (nodes : List Attempt)
      → InStep c
      → InStep (connect_via_registry c nodes).1
  unfolding connect_via_registry
  connect_via_registry-InStep c [] s = s
  connect_via_registry-InStep c (a ∷ nodes) s =
      let (c', n) = connect_all c (a ∷ nodes) 0 in
      if-elim (λ (p : Bool × RpcAsyncClient R). InStep p.1) (n == 0)
        (λ _. connect_all-InStep c (a ∷ nodes) 0 s) (λ _. connect_all-InStep c (a ∷ nodes) 0 s)

  -- With consistent hashing and at least one virtual node, whatever the client has connected to
  -- before the policy is set and through the registry after it: if it has an endpoint, each key that
  -- is not empty goes to the endpoint that the ring names, and the choice changes nothing.
  pub set_lb_policy-Affine :
      (c : RpcAsyncClient R) (virtual_nodes : ℕ) (nodes : List Attempt) (e : Endpoint)
      (es : List Endpoint) (k : ℕ) (key : Bytes)
      → 1 ≤ virtual_nodes
      → (connect_via_registry (set_lb_policy c consistent_hash virtual_nodes) nodes).1.endpoints
        ≡ e ∷ es
      → Affine
          (connect_via_registry (set_lb_policy c consistent_hash virtual_nodes) nodes).1
          (k ∷ key)
  set_lb_policy-Affine c virtual_nodes nodes e es k key le same =
      get_tcp_client-Affine
        (connect_via_registry (set_lb_policy c consistent_hash virtual_nodes) nodes).1 e es k key
        same
        (connect_via_registry-InStep (set_lb_policy c consistent_hash virtual_nodes) nodes
          (set_lb_policy-InStep c virtual_nodes le))
