-- ===== src/Pool/Pools.antt =====
-- src/pool/connection_pool.cc: the pools by their endpoints. How the building of each connection went is an
-- argument: none where three seconds passed, and else whether the first callback said that it is
-- up; `up_now` is whether it is so when the pool is built. A client is known by its endpoint and its index.
use rpc_framework.Prelude.{
  ℕ, zero, suc, ◌+◌, ◌≡◌, refl, sym, Bool, true, false, not, ◌&&◌, List, [], ◌∷◌, ◌++◌, Option,
  none, some, arith, ◌==◌, if◌then◌else◌, length, list_eq, nat_eq,
}
use rpc_framework.Prelude.Table.{lookup, insert, lookup-insert}
use rpc_framework.Network.Buffer.{Bytes}
use rpc_framework.ConsistentHash.{decimal_onto}
use rpc_framework.Pool.{Client, EndpointPool, is_claimed, client_at, ensure_at, acquire}

abbrev pub Pools : Type 0
Pools = List (Bytes × EndpointPool)

unfoldable pub make_key : Bytes → ℕ → Bytes
make_key host port = host ++ (58 ∷ decimal_onto 10 port [])

abbrev pub new_client : Bool → Client
new_client up = record { owner = none; connected = up; reconnects = 0 }

abbrev pub is_yes : Option Bool → Bool
is_yes none = false
is_yes (some up) = up

abbrev pub one_more : Bool → Option (List Client) → Option (List Client)
one_more up none = none
one_more up (some clients) = some (new_client up ∷ clients)

-- The loop of `createPool` from `i` on, for so many clients; the first failure ends it.
unfoldable pub build : (ℕ → Option Bool) → (ℕ → Bool) → ℕ → ℕ → Option (List Client)
build answers up_now i zero = some []
build answers up_now i (suc n) =
    let rest = build answers up_now (i + 1) n in
    if is_yes (answers i) then one_more (up_now i) rest else none

abbrev pub enter : Pools → Bytes → Option (List Client) → Bool × Pools
enter pools key none = (false, pools)
enter pools key (some clients) =
    (true, insert key (record { clients = clients; next_index = 0 }) pools)

-- A size of 0 stands for one that is not positive.
unfoldable pub create_pool :
    Pools → Bytes → ℕ → ℕ → Bool → (ℕ → Option Bool) → (ℕ → Bool) → Bool × Pools
create_pool pools host port n valid_ip answers up_now =
    if n == 0
    then (false, pools)
    else if not valid_ip
    then (false, pools)
    else enter pools (make_key host port) (build answers up_now 0 n)

abbrev pub acquired : Pools → Bytes → Option ℕ × EndpointPool → Option ℕ × Pools
acquired pools key (i, ep) = (i, insert key ep pools)

abbrev pub acquire_from : Option EndpointPool → Pools → Bytes → Option ℕ × Pools
acquire_from none pools key = (none, pools)
acquire_from (some ep) pools key = acquired pools key (acquire ep)

unfoldable pub acquire_at : Pools → Bytes → ℕ → Option ℕ × Pools
acquire_at pools host port =
    acquire_from (lookup (make_key host port) pools) pools (make_key host port)

abbrev pub release_client : Option Client → Pools → Bytes → EndpointPool → ℕ → Pools
release_client none pools key ep i = pools
release_client (some c) pools key ep i =
    if is_claimed c
    then pools
    else insert key (record ep { clients = ensure_at ep.clients i }) pools

abbrev pub release_from : Option EndpointPool → Pools → Bytes → ℕ → Pools
release_from none pools key i = pools
release_from (some ep) pools key i = release_client (client_at ep.clients i) pools key ep i

-- A client that is still claimed, or of no pool, is left as it is.
unfoldable pub release : Pools → Bytes → ℕ → Pools
release pools key i = release_from (lookup key pools) pools key i

abbrev pub size_of : Option EndpointPool → ℕ
size_of none = 0
size_of (some ep) = length ep.clients

unfoldable pub pool_size : Pools → Bytes → ℕ → ℕ
pool_size pools host port = size_of (lookup (make_key host port) pools)

-- All connections from `i` on came up, so many of them.
abbrev pub all_up : (ℕ → Option Bool) → ℕ → ℕ → Bool
all_up answers i zero = true
all_up answers i (suc n) = is_yes (answers i) && all_up answers (i + 1) n

-- So many clients, none claimed.
abbrev pub AllFresh : ℕ → List Client → Type 0
AllFresh n clients = (length clients ≡ n) × AllReady clients
  where
    AllReady : List Client → Type 0
    AllReady [] = Unit {0}
    AllReady (c ∷ clients) = (is_claimed c ≡ false) × AllReady clients

-- What a built pool is, by whether all came up.
abbrev Built : ℕ → Bool → Option (List Client) → Type 0
Built n up none = up ≡ false
Built n up (some clients) = (up ≡ true) × AllFresh n clients

build-Built :
    (answers : ℕ → Option Bool) (up_now : ℕ → Bool) (i n : ℕ)
    → Built n (all_up answers i n) (build answers up_now i n)
unfolding build
build-Built answers up_now i zero = (refl, (refl, tt))
build-Built answers up_now i (suc n) =
    by_answer (is_yes (answers i)) (all_up answers (i + 1) n) (build answers up_now (i + 1) n)
      (build-Built answers up_now (i + 1) n)
  where
    by_answer :
        (b up : Bool) (o : Option (List Client))
        → Built n up o
        → Built (suc n) (b && up) (if b then one_more (up_now i) o else none)
    by_answer true up none h = h
    by_answer true up (some clients) (h, (count, fresh)) =
        (h, (omega (arith, count), (refl, fresh)))
    by_answer false up o h = refl

-- What is there after a pool was asked for: all of it, or what was there before.
abbrev pub AllOrNothing : ℕ → Pools → Bytes → Bool × Pools → Type 0
AllOrNothing n pools key (true, after) =
    (ep : EndpointPool) × (lookup key after ≡ some ep)
    × AllFresh n ep.clients
    × ((other : Bytes)
        → ((list_eq {A = ℕ}).beq key other ≡ false)
        → lookup other after ≡ lookup other pools)
AllOrNothing n pools key (false, after) = after ≡ pools

abbrev pub succeeds : ℕ → Bool → (ℕ → Option Bool) → Bool
succeeds n valid_ip answers = not (n == 0) && (valid_ip && all_up answers 0 n)

-- `createPool` succeeds exactly when the size is positive, the address is valid and each connection comes
-- up in time. Then the pool of the endpoint has so many clients, none claimed, and
-- the others are as before; otherwise nothing changes.
pub create_pool-AllOrNothing :
    (pools : Pools) (host : Bytes) (port n : ℕ) (valid_ip : Bool) (answers : ℕ → Option Bool)
    (up_now : ℕ → Bool)
    → let r = create_pool pools host port n valid_ip answers up_now in
      (r.0 ≡ succeeds n valid_ip answers) × AllOrNothing n pools (make_key host port) r
unfolding create_pool
create_pool-AllOrNothing pools host port n valid_ip answers up_now =
    checked (n == 0) valid_ip (build answers up_now 0 n) (build-Built answers up_now 0 n)
  where
    key : Bytes
    key = make_key host port

    entered :
        (up : Bool) (o : Option (List Client))
        → Built n up o
        → ((enter pools key o).0 ≡ up) × AllOrNothing n pools key (enter pools key o)
    entered up none h = (sym h, refl)
    entered up (some clients) (h, fresh) =
        let ep : EndpointPool = record { clients = clients; next_index = 0 } in
        (
          sym h,
          (
            ep,
            ground (arith, lookup-insert key key ep pools, (list_eq {A = ℕ}).beq_iff key key),
            fresh,
            λ other differs. ground (arith, lookup-insert key other ep pools),
          ),
        )

    checked :
        (zero_size valid : Bool) (o : Option (List Client))
        → Built n (all_up answers 0 n) o
        → let r =
            if zero_size
            then (false, pools)
            else if not valid
            then (false, pools)
            else enter pools key o in
          (r.0 ≡ (not zero_size && (valid && all_up answers 0 n))) × AllOrNothing n pools key r
    checked true valid o h = (refl, refl)
    checked false false o h = (refl, refl)
    checked false true o h = entered (all_up answers 0 n) o h
