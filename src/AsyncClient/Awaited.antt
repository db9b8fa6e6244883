-- ===== src/AsyncClient/Awaited.antt =====
-- Calls that wait for their promises, and are answered with SUCCESS.
use rpc_framework.Prelude.{ℕ, ◌≡◌, refl, sym, ap, ◌∙◌, List, [], ◌∷◌, none, some, arith, nat_eq}
use rpc_framework.Prelude.Table.{lookup, erase, lookup-erase}
use rpc_framework.Codec.Message.{RpcResponse, DecodedPacket, response, success, Protobuf}
use rpc_framework.CircuitBreaker.{CircuitBreaker, closed, record_success, record_success_seen}
use rpc_framework.AsyncClient.{RpcAsyncClient, with_breaker, heard, succeed}
use rpc_framework.AsyncClient.Calls.{on_packet}
use rpc_framework.AsyncClient.Steps.{run}
use rpc_framework.AsyncClient.Messages.{received}
use rpc_framework.AsyncClient.Arrival.{handle_response-wakes, on_packet-response, lookup-erased}

unfoldable pub ids_of : List DecodedPacket → List ℕ
ids_of [] = []
ids_of (p ∷ ps) = p.req_id ∷ ids_of ps

-- Each packet is a response with the status SUCCESS to a call of its own that waits for it.
abbrev pub AllAwaited : List (ℕ × ℕ) → List (ℕ × ℕ) → List DecodedPacket → Type 0
AllAwaited promises callbacks [] = Unit {0}
AllAwaited promises callbacks (p ∷ ps) =
    (p.msg_type ≡ response)
    × (p.network_status ≡ success)
    × ((who : ℕ) × (lookup p.req_id promises ≡ some who))
    × (lookup p.req_id callbacks ≡ none)
    × AllAwaited (erase p.req_id promises) callbacks ps

pub without : List (ℕ × ℕ) → List DecodedPacket → List (ℕ × ℕ)
without promises [] = promises
without promises (p ∷ ps) = without (erase p.req_id promises) ps

without-none :
    (i : ℕ) (promises : List (ℕ × ℕ)) (ps : List DecodedPacket)
    → lookup i promises ≡ none
    → lookup i (without promises ps) ≡ none
unfolding without
without-none i promises [] h = h
without-none i promises (p ∷ ps) h =
    without-none i (erase p.req_id promises) ps (ground (arith, lookup-erase p.req_id i promises))

record_success-rests :
    (b : CircuitBreaker) → b.state ≡ closed → b.failure_count ≡ 0 → record_success b ≡ b
unfolding record_success
record_success-rests b shut zero_count =
    ap (λ s. record_success_seen s b) shut
    ∙ unfold record_success_seen in ap (λ n. record b { failure_count = n }) (sym zero_count)

-- None of the requests waits any more.
abbrev pub AllAnswered : List (ℕ × ℕ) → List (ℕ × ℕ) → List ℕ → Type 0
AllAnswered promises callbacks [] = Unit {0}
AllAnswered promises callbacks (id ∷ ids) =
    (lookup id promises ≡ none) × (lookup id callbacks ≡ none) × AllAnswered promises callbacks ids

pub AllAwaited-AllAnswered :
    (promises callbacks : List (ℕ × ℕ)) (ps : List DecodedPacket)
    → AllAwaited promises callbacks ps
    → AllAnswered (without promises ps) callbacks (ids_of ps)
unfolding without ids_of
AllAwaited-AllAnswered promises callbacks [] a = tt
AllAwaited-AllAnswered promises callbacks (p ∷ ps) (is_one, fine, waits, no_callback, a) = (
  without-none p.req_id (erase p.req_id promises) ps
      (lookup-erased p.req_id p.req_id promises refl),
  no_callback,
  AllAwaited-AllAnswered (erase p.req_id promises) callbacks ps a,
)

module _ {R : Type 0} where
  on_packet-answers :
      (c : RpcAsyncClient R) (p : DecodedPacket) (who : ℕ) (b : CircuitBreaker)
      → c.world.breaker ≡ some b
      → b.state ≡ closed
      → b.failure_count ≡ 0
      → p.msg_type ≡ response
      → p.network_status ≡ success
      → lookup p.req_id c.promises ≡ some who
      → on_packet c p
        ≡ record c { promises = erase p.req_id c.promises; ready = (who, p.rpc_response) ∷ c.ready }
  on_packet-answers c p who b has shut zero_count is_one fine waits =
      let same : heard c p.network_status ≡ c.world.breaker =
        ap (heard c) fine
        ∙ ap succeed has
        ∙ ap (λ x. some x) (record_success-rests b shut zero_count)
        ∙ sym has in
      on_packet-response c p is_one
      ∙ handle_response-wakes c p who waits
      ∙ ap
          (λ o. record (with_breaker c o) {
            promises = erase p.req_id c.promises;
            ready = (who, p.rpc_response) ∷ c.ready;
          })
          same

  module _ (proto : Protobuf) where
    pub run-answers :
        (c : RpcAsyncClient R) (ps : List DecodedPacket) (b : CircuitBreaker)
        → c.world.breaker ≡ some b
        → b.state ≡ closed
        → b.failure_count ≡ 0
        → AllAwaited c.promises c.callbacks ps
        → (ready : List (ℕ × RpcResponse)) × (run proto c (received ps)
            ≡ record c { promises = without c.promises ps; ready = ready })
    unfolding run received without
    run-answers c [] b has shut zero_count a = (c.ready, refl)
    run-answers c (p ∷ ps) b has shut zero_count (is_one, fine, (who, waits), no_callback, a) =
        let c₁ = record c {
          promises = erase p.req_id c.promises;
          ready = (who, p.rpc_response) ∷ c.ready;
        } in
        let (ready, e) = run-answers c₁ ps b has shut zero_count a in
        (
          ready,
          ap (λ x. run proto x (received ps))
                (on_packet-answers c p who b has shut zero_count is_one fine waits)
              ∙ e,
        )
