-- ===== src/Pool.antt =====
-- src/pool/connection_pool.cc and the claims of src/network/tcp_client.h: the clients of one endpoint. Each
-- call holds the mutex. A client is what the pool asks of it: whether it is claimed and whether its
-- connection is up, and what the pool tells it: how often a reconnect was asked for. The pool's own
-- building of connections waits for threads, and is not modelled.
pub mod Acquire
pub mod Pools
use rpc_framework.Prelude.{
  ℕ, zero, suc, ◌+◌, ◌%◌, ◌^◌, Bool, true, false, List, [], ◌∷◌, Option, none, some, if◌then◌else◌,
  length, ◌==◌,
}

pub record Client : Type 0 where
  pub owner : Option ℕ
  pub connected : Bool
  pub reconnects : ℕ

pub record EndpointPool : Type 0 where
  pub clients : List Client
  pub next_index : ℕ

abbrev pub is_owned : Option ℕ → Bool
is_owned none = false
is_owned (some o) = true

abbrev pub is_claimed : Client → Bool
is_claimed c = is_owned c.owner

abbrev pub claim_from : Option ℕ → Client → ℕ → Bool × Client
claim_from none c o = (true, record c { owner = some o })
claim_from (some old) c o = (false, c)

-- `compare_exchange_strong(nullptr, owner)`.
unfoldable pub try_claim : Client → ℕ → Bool × Client
try_claim c o = claim_from c.owner c o

abbrev pub released_from : Option ℕ → Client → ℕ → Client
released_from none c o = c
released_from (some old) c o = if old == o then record c { owner = none } else c

-- `compare_exchange_strong(owner, nullptr)`.
unfoldable pub release_claim : Client → ℕ → Client
release_claim c o = released_from c.owner c o

-- The client at an index of the vector; the index of the loop is always in it.
abbrev pub client_at : List Client → ℕ → Option Client
client_at [] i = none
client_at (c ∷ clients) zero = some c
client_at (c ∷ clients) (suc i) = client_at clients i

-- A reconnect is asked of the client at an index.
abbrev pub ensure_at : List Client → ℕ → List Client
ensure_at [] i = []
ensure_at (c ∷ clients) zero = record c { reconnects = suc c.reconnects } ∷ clients
ensure_at (c ∷ clients) (suc i) = c ∷ ensure_at clients i

abbrev pub or_else : Option ℕ → ℕ → Option ℕ
or_else none i = some i
or_else (some j) i = some j

-- How the search ends: a connected client, or the first one that is not claimed.
pub data Found : Type 0 where
  healthy : ℕ → Found
  fallback : Option ℕ → Found

abbrev pub Search : Type 0
Search = Found × ℕ

abbrev pub look_at : Option Client → ℕ → ℕ → Option ℕ → (Option ℕ → Search) → Search
look_at none i next fall rest = rest fall
look_at (some c) i next fall rest =
    if is_claimed c
    then rest fall
    else if c.connected
    then (healthy i, suc next)
    else rest (or_else fall i)

-- The index that a value of the counter stands for; the counter is a `size_t`.
abbrev pub index_of : List Client → ℕ → ℕ
index_of clients next = next % 2 ^ 64 % length clients

-- The loop of `acquire`, for so many attempts from a value of the counter on, and the counter after
-- it. The sums of the counter are taken modulo 2 ^ 64 where it is read.
unfoldable pub search : List Client → ℕ → ℕ → Option ℕ → Search
search clients zero next fall = (fallback fall, next)
search clients (suc attempts) next fall =
    let rest = search clients attempts (suc next) in
    look_at (client_at clients (index_of clients next)) (index_of clients next) next fall rest

-- After the loop: a client that is handed out although its connection is down is asked to reconnect.
abbrev pub finish : EndpointPool → Search → Option ℕ × EndpointPool
finish p (healthy i, next) = (some i, record p { next_index = next })
finish p (fallback none, next) = (none, record p { next_index = next })
finish p (fallback (some i), next) =
    (some i, record { clients = ensure_at p.clients i; next_index = next })

unfoldable pub acquire : EndpointPool → Option ℕ × EndpointPool
acquire p = finish p (search p.clients (length p.clients) p.next_index none)
