-- ===== src/AsyncClient/Connecting.antt =====
-- src/client/rpc_async_client.cc: how the client gets its connections, gives them up, and ends. How an
-- attempt to connect went is an argument, with the numbers of the TcpClient and of the loop that
-- it made.
use rpc_framework.Prelude.{
  ℕ, suc, Bool, true, false, List, [], ◌∷◌, ◌++◌, Option, none, some, if◌then◌else◌, ◌==◌, ◌&&◌,
  not,
}
use rpc_framework.Network.Buffer.{Bytes}
use rpc_framework.Codec.Message.{RpcResponse}
use rpc_framework.ConsistentHash.{ConsistentHash, add_node, remove_node, default_hash}
use rpc_framework.Pool.{Client, try_claim, release_claim}
use rpc_framework.AsyncClient.{
  World, RpcAsyncClient, Endpoint, Completion, LbPolicy, rr, consistent_hash, error_response, start,
}
use rpc_framework.AsyncClient.Choice.{name}
use rpc_framework.AsyncClient.Upkeep.{stop_heartbeat}

-- `answered`: none where three seconds passed, and else whether the first callback said
-- that the connection is up; `still_up` is the flag when the wait is over.
pub record Attempt : Type 0 where
  pub host : Bytes
  pub port : ℕ
  pub valid_ip : Bool
  pub answered : Option Bool
  pub still_up : Bool
  pub tcp_client : ℕ
  pub loop : ℕ

abbrev pub is_yes : Option Bool → Bool
is_yes none = false
is_yes (some up) = up

-- The flag `connected_`, which each callback sets.
abbrev pub flag_after : Bool → Option Bool → Bool → Bool
flag_after flag none still_up = flag
flag_after flag (some up) still_up = still_up

abbrev pub is_empty : Bytes → Bool
is_empty [] = true
is_empty (b ∷ bs) = false

abbrev pub endpoint_of : Attempt → Endpoint
endpoint_of a = record { host = a.host; port = a.port; tcp_client = a.tcp_client; loop = a.loop }

abbrev pub ring_add : LbPolicy → Option ConsistentHash → Bytes → Option ConsistentHash
ring_add rr ring node = ring
ring_add consistent_hash none node = none
ring_add consistent_hash (some h) node = some (add_node default_hash h node)

abbrev pub ring_remove : LbPolicy → Option ConsistentHash → Bytes → Option ConsistentHash
ring_remove rr ring node = ring
ring_remove consistent_hash none node = none
ring_remove consistent_hash (some h) node = some (remove_node h node)

unfoldable pub ring_remove_all :
    LbPolicy → Option ConsistentHash → List Endpoint → Option ConsistentHash
ring_remove_all p ring [] = ring
ring_remove_all p ring (e ∷ es) = ring_remove_all p (ring_remove p ring (name e)) es

-- A stopped loop drops its timers.
unfoldable pub stop_loop : ℕ → List (ℕ × ℕ) → List (ℕ × ℕ)
stop_loop l [] = []
stop_loop l ((k, i) ∷ timers) =
    let rest = stop_loop l timers in if k == l then rest else (k, i) ∷ rest

abbrev pub stop_owned : Option ℕ → List (ℕ × ℕ) → List (ℕ × ℕ)
stop_owned none timers = timers
stop_owned (some l) timers = stop_loop l timers

unfoldable pub stop_loops : List Endpoint → List (ℕ × ℕ) → List (ℕ × ℕ)
stop_loops [] timers = timers
stop_loops (e ∷ es) timers = stop_loops es (stop_loop e.loop timers)

abbrev pub callers_of : List (ℕ × ℕ) → RpcResponse → List (ℕ × RpcResponse)
callers_of [] resp = []
callers_of ((id, who) ∷ m) resp = (who, resp) ∷ callers_of m resp

abbrev pub completions_of : List (ℕ × ℕ) → RpcResponse → List Completion
completions_of [] resp = []
completions_of ((id, who) ∷ m) resp = record { caller = who; resp = resp } ∷ completions_of m resp

-- "client destroyed"
abbrev pub client_destroyed : Bytes
client_destroyed =
    99 ∷ 108 ∷ 105 ∷ 101 ∷ 110 ∷ 116 ∷ 32 ∷ 100 ∷ 101 ∷ 115 ∷ 116 ∷ 114 ∷ 111 ∷ 121 ∷ 101 ∷ 100 ∷ []

abbrev pub released : Option ℕ → Bool → Client → ℕ → Client
released none owns tc me = tc
released (some t) owns tc me = if owns then release_claim tc me else tc

module _ {R : Type 0} where
  abbrev pub bound_to : World R → Bool × Client → ℕ → ℕ → RpcAsyncClient R × Client
  bound_to w (false, tc) t l = (record (start w) { invalid = true; owns_loop_thread = false }, tc)
  bound_to w (true, tc) t l = (
    record (start w) {
      owns_loop_thread = false;
      owns_client = true;
      borrowed_transport = true;
      tcp_client = some t;
      loop = some l;
      connected = tc.connected;
    },
    tc,
  )

  -- The constructor with a TcpClient, number `t` with the loop `l`, which the client `me` claims.
  unfoldable pub start_borrowed : World R → Client → ℕ → ℕ → ℕ → RpcAsyncClient R × Client
  start_borrowed w tc me t l = bound_to w (try_claim tc me) t l

  abbrev pub add_endpoint : RpcAsyncClient R → Attempt → RpcAsyncClient R
  add_endpoint c a = record c {
    endpoints = c.endpoints ++ (endpoint_of a ∷ []);
    ring = ring_add c.lb_policy c.ring (name (endpoint_of a));
  }

  -- The loop over the discovered nodes, with the count of those that are connected.
  unfoldable pub connect_all : RpcAsyncClient R → List Attempt → ℕ → RpcAsyncClient R × ℕ
  connect_all c [] n = (c, n)
  connect_all c (a ∷ more) n =
      if a.valid_ip && is_yes a.answered
      then connect_all (add_endpoint c a) more (suc n)
      else connect_all c more n

  abbrev pub connected_if_any : RpcAsyncClient R × ℕ → Bool × RpcAsyncClient R
  connected_if_any (c, n) = if n == 0 then (false, c) else (true, record c { connected = true })

  unfoldable pub connect_via_registry : RpcAsyncClient R → List Attempt → Bool × RpcAsyncClient R
  connect_via_registry c [] = (false, c)
  connect_via_registry c (a ∷ more) = connected_if_any (connect_all c (a ∷ more) 0)

  abbrev pub gave_up : RpcAsyncClient R → Attempt → RpcAsyncClient R
  gave_up c a = record c {
    owns_client = true;
    tcp_client = none;
    loop_thread = none;
    loop = none;
    timers = stop_owned c.loop_thread c.timers;
    connected = flag_after c.connected a.answered a.still_up;
  }

  -- The `TcpClient` is new, so the claim succeeds.
  unfoldable pub connect_direct : RpcAsyncClient R → Attempt → Bool × RpcAsyncClient R
  connect_direct c a =
      if not a.valid_ip
      then (
        false,
        record c { loop_thread = none; loop = none; timers = stop_owned c.loop_thread c.timers },
      )
      else if is_yes a.answered && a.still_up
      then (
        true,
        record c {
          owns_client = true;
          tcp_client = some a.tcp_client;
          loop_thread = some a.loop;
          loop = some a.loop;
          timers = stop_owned c.loop_thread c.timers;
          connected = true;
        },
      )
      else (false, gave_up c a)

  -- `nodes` are the attempts on what the registry knows, and `here` the one on the own address.
  unfoldable pub connect : RpcAsyncClient R → List Attempt → Attempt → Bool × RpcAsyncClient R
  connect c nodes here =
      if c.invalid
      then (false, c)
      else if not c.owns_loop_thread
      then (c.connected, c)
      else if c.registered && not (is_empty c.service_name)
      then connect_via_registry c nodes
      else connect_direct c here

  unfoldable pub disconnect : RpcAsyncClient R → RpcAsyncClient R
  disconnect c = record c {
    disconnecting = true;
    ring = ring_remove_all c.lb_policy c.ring c.endpoints;
    timers =
        let left = stop_loops c.endpoints c.timers in
        if c.owns_loop_thread then stop_owned c.loop_thread left else left;
    endpoints = [];
    tcp_client = none;
    loop_thread = if c.owns_loop_thread then none else c.loop_thread;
    connected = false;
    loop = none;
  }

  -- The destructor's loops over the two tables.
  abbrev pub fail_all : RpcAsyncClient R → RpcAsyncClient R
  fail_all c = record c {
    ready = callers_of c.promises (error_response client_destroyed) ++ c.ready;
    promises = [];
    delivered = completions_of c.callbacks (error_response client_destroyed) ++ c.delivered;
    callbacks = [];
  }

  unfoldable pub destroy : RpcAsyncClient R → RpcAsyncClient R
  destroy c = fail_all (disconnect (stop_heartbeat (record c { destroyed = true })).0)

  -- What the destructor does to the TcpClient that the client is bound to: its claim is given back.
  unfoldable pub destroy_claim : RpcAsyncClient R → Client → ℕ → Client
  destroy_claim c tc me = released c.tcp_client c.owns_client tc me
