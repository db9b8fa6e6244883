-- ===== src/Pool/Acquire.antt =====
-- What `acquire` hands out.
use rpc_framework.Prelude.{
  ℕ, zero, suc, ◌+◌, ◌-◌, ◌*◌, ◌/◌, ◌%◌, ◌^◌, ◌≤◌, ◌<◌, ◌≡◌, refl, ap, ◌∙◌, subst, inl, inr, Bool,
  true, false, List, [], ◌∷◌, Option, none, some, arith, if-elim, length, Bool-cases, leb,
  some-eq-some,
}
use native.Mathlib.Nat.{div-add-mod', mod-lt, mod-eq_of_lt, add-mul-mod_self_right}
use rpc_framework.Pool.{
  Client, EndpointPool, is_claimed, client_at, or_else, Found, healthy, fallback, Search, look_at,
  index_of, search, finish, acquire,
}

module _ (clients : List Client) where
  -- The client is there and is not claimed.
  abbrev pub Free : ℕ → Type 0
  Free i = (c : Client) × (client_at clients i ≡ some c) × (is_claimed c ≡ false)

  abbrev pub Healthy : ℕ → Type 0
  Healthy i =
      (c : Client) × (client_at clients i ≡ some c) × (is_claimed c ≡ false) × (c.connected ≡ true)

  abbrev pub Sound : Found → Type 0
  Sound (healthy i) = Healthy i
  Sound (fallback none) = Unit {0}
  Sound (fallback (some i)) = Free i

  search-Sound :
      (attempts next : ℕ) (fall : Option ℕ)
      → Sound (fallback fall)
      → Sound (search clients attempts next fall).0
  unfolding search
  search-Sound zero next fall s = s
  search-Sound (suc attempts) next fall s =
      by_client (client_at clients (index_of clients next)) refl (search-Sound attempts (suc next))
    where
      i : ℕ
      i = index_of clients next

      or_else-Sound :
          (fall : Option ℕ) → Sound (fallback fall) → Free i → Sound (fallback (or_else fall i))
      or_else-Sound none s f = f
      or_else-Sound (some j) s f = s

      by_client :
          (o : Option Client)
          → client_at clients i ≡ o
          → ((fall : Option ℕ)
              → Sound (fallback fall)
              → Sound (search clients attempts (suc next) fall).0)
          → Sound (look_at o i next fall (search clients attempts (suc next))).0
      by_client none e ih = ih fall s
      by_client (some c) e ih =
          if-elim (λ (r : Search). Sound r.0) (is_claimed c) (λ _. ih fall s)
            (λ free.
              if-elim (λ (r : Search). Sound r.0) c.connected (λ up. (c, e, free, up))
                (λ down. ih (or_else fall i) (or_else-Sound fall s (c, e, free))))

  -- A free client that an attempt looks at is not passed over for nothing.
  abbrev pub Good : Bool → Found → Type 0
  Good up (healthy i) = Unit {0}
  Good up (fallback none) = ⊥
  Good up (fallback (some i)) = up ≡ false

  kept : (attempts next j : ℕ) → Good false (search clients attempts next (some j)).0
  unfolding search
  kept zero next j = refl
  kept (suc attempts) next j =
      by_client (client_at clients (index_of clients next)) (kept attempts (suc next))
    where
      by_client :
          (o : Option Client)
          → ((j : ℕ) → Good false (search clients attempts (suc next) (some j)).0)
          → Good false
              (look_at o
                (index_of clients next)
                next
                (some j)
                (search clients attempts (suc next))).0
      by_client none ih = ih j
      by_client (some c) ih =
          if-elim (λ (r : Search). Good false r.0) (is_claimed c) (λ _. ih j)
            (λ _. if-elim (λ (r : Search). Good false r.0) c.connected (λ _. tt) (λ _. ih j))

  search-Good :
      (a attempts next : ℕ) (fall : Option ℕ) (c : Client)
      → a < attempts
      → client_at clients (index_of clients (next + a)) ≡ some c
      → is_claimed c ≡ false
      → Good c.connected (search clients attempts next fall).0
  unfolding search
  search-Good a zero next fall c lt at free = let no : ⊥ = omega arith in elim no [ ]
  search-Good zero (suc attempts) next fall c lt at free =
      rw
        (ap (λ (k : ℕ). client_at clients (index_of clients k)) {x = next} {y = next + 0}
            (omega arith)
          ∙ at)
        (rw free (
          if-elim (λ (r : Search). Good c.connected r.0) c.connected (λ _. tt)
            (λ down.
              rw down (kept_some (or_else fall (index_of clients next)) (or_else-some fall)))))
    where
      or_else-some : (fall : Option ℕ) → (j : ℕ) × (or_else fall (index_of clients next) ≡ some j)
      or_else-some none = (index_of clients next, refl)
      or_else-some (some j) = (j, refl)

      kept_some :
          (o : Option ℕ)
          → ((j : ℕ) × (o ≡ some j))
          → Good false (search clients attempts (suc next) o).0
      kept_some o (j, e) = rw e (kept attempts (suc next) j)
  search-Good (suc a) (suc attempts) next fall c lt at free =
      by_client (client_at clients (index_of clients next)) (λ fall'.
        search-Good a attempts (suc next) fall' c (omega arith)
          (ap (λ (k : ℕ). client_at clients (index_of clients k)) {x = suc next + a}
              {y = next + suc a} (omega arith)
            ∙ at)
          free)
    where
      by_client :
          (o : Option Client)
          → ((fall' : Option ℕ) → Good c.connected (search clients attempts (suc next) fall').0)
          → Good c.connected
              (look_at o (index_of clients next) next fall (search clients attempts (suc next))).0
      by_client none ih = ih fall
      by_client (some d) ih =
          if-elim (λ (r : Search). Good c.connected r.0) (is_claimed d) (λ _. ih fall)
            (λ _.
              if-elim (λ (r : Search). Good c.connected r.0) d.connected (λ _. tt)
                (λ _. ih (or_else fall (index_of clients next))))

-- Every index is looked at within as many attempts as there are clients.
reaches :
    (n next j : ℕ) → j < n → next + n ≤ 2 ^ 64 → (a : ℕ) × (a < n) × ((next + a) % 2 ^ 64 % n ≡ j)
reaches n next j lt small = elim (Bool-cases (leb (next % n) j)) [
  | inl before ↦
      let a : ℕ = j - next % n in
      let le : next % n ≤ j = ground arith in
      (a, omega arith, lands a (omega arith) (next / n) (omega (arith, div-add-mod' next n)))
  | inr past ↦
      let a : ℕ = j + n - next % n in
      let gt : j < next % n = ground arith in
      let r = mod-lt next {m = n} (omega arith) in
      (a, omega arith, lands a (omega arith) (next / n + 1) (omega (arith, div-add-mod' next n)))
]
  where
    lands : (a : ℕ) → a < n → (q : ℕ) → next + a ≡ j + q * n → (next + a) % 2 ^ 64 % n ≡ j
    lands a less q e =
        ap (λ (k : ℕ). k % n) (mod-eq_of_lt {n = next + a} {m = 2 ^ 64} (omega arith) ∙ e)
        ∙ add-mul-mod_self_right j q n
        ∙ mod-eq_of_lt lt

client_at-lt :
    (clients : List Client) (j : ℕ) (c : Client) → client_at clients j ≡ some c → j < length clients
client_at-lt [] j c e = cc
client_at-lt (d ∷ clients) zero c e = omega arith
client_at-lt (d ∷ clients) (suc j) c e = omega (arith, client_at-lt clients j c e)

-- Whatever `acquire` hands out is a client of the pool that is not claimed.
pub acquire-Free : (p : EndpointPool) (i : ℕ) → (acquire p).0 ≡ some i → Free p.clients i
unfolding acquire
acquire-Free p i e =
    by_found (search p.clients (length p.clients) p.next_index none)
      (search-Sound p.clients (length p.clients) p.next_index none tt) e
  where
    by_found : (r : Search) → Sound p.clients r.0 → (finish p r).0 ≡ some i → Free p.clients i
    by_found (healthy k, next) (c, at, free, up) e =
        subst (Free p.clients) (some-eq-some e) (c, at, free)
    by_found (fallback none, next) s e = cc
    by_found (fallback (some k), next) s e = subst (Free p.clients) (some-eq-some e) s

-- When the pool has a client that is not claimed, and its counter does not wrap in this search,
-- `acquire` hands out one that is not claimed, and one whose connection is up if that client's is.
pub acquire-finds :
    (p : EndpointPool) (j : ℕ) (c : Client)
    → p.next_index + length p.clients ≤ 2 ^ 64
    → client_at p.clients j ≡ some c
    → is_claimed c ≡ false
    → (i : ℕ) × ((acquire p).0 ≡ some i)
      × Free p.clients i
      × (c.connected ≡ true → Healthy p.clients i)
unfolding acquire
acquire-finds p j c small at free =
    let n = length p.clients in
    let (a, lt, lands) = reaches n p.next_index j (client_at-lt p.clients j c at) small in
    by_found (search p.clients n p.next_index none) (search-Sound p.clients n p.next_index none tt)
      (search-Good p.clients a n p.next_index none c lt (ap (client_at p.clients) lands ∙ at) free)
  where
    by_found :
        (r : Search)
        → Sound p.clients r.0
        → Good p.clients c.connected r.0
        → (i : ℕ) × ((finish p r).0 ≡ some i)
          × Free p.clients i
          × (c.connected ≡ true → Healthy p.clients i)
    by_found (healthy i, next) (d, e, f, up) g = (i, refl, (d, e, f), λ h. (d, e, f, up))
    by_found (fallback none, next) s g = elim g [ ]
    by_found (fallback (some i), next) s g = (i, refl, s, λ h. cc)
