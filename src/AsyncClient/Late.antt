-- ===== src/AsyncClient/Late.antt =====
-- Timeouts that run out after their calls were answered.
use rpc_framework.Prelude.{
  ℕ, ◌≤◌, ◌≡◌, ◌↔◌, refl, sym, ap, subst, ◌∙◌, true, false, List, [], ◌∷◌, none, some, arith,
  length, nat_eq,
}
use rpc_framework.Prelude.Table.{lookup}
use rpc_framework.Codec.Message.{DecodedPacket, Protobuf}
use rpc_framework.CircuitBreaker.{
  CircuitBreaker, State, closed, open_, record_failure, record_success, record_success_seen,
}
use rpc_framework.CircuitBreaker as CB
use rpc_framework.CircuitBreaker.Behaviour.{failures, count_of, open-iff-threshold}
use rpc_framework.AsyncClient.{RpcAsyncClient, settle, handle_timeout, with_breaker, fail}
use rpc_framework.AsyncClient.Calls.{has_timer, take_timer, timer_fires}
use rpc_framework.AsyncClient.Steps.{Event, fires, run}
use rpc_framework.AsyncClient.Messages.{received}
use rpc_framework.AsyncClient.Awaited.{
  ids_of, AllAwaited, AllAnswered, without, AllAwaited-AllAnswered, run-answers,
}

same_time : ℕ → List ℕ → List ℕ
same_time now [] = []
same_time now (id ∷ ids) = now ∷ same_time now ids

count_of-same_time : (now : ℕ) (ids : List ℕ) → count_of (same_time now ids) ≡ length ids
unfolding count_of same_time
count_of-same_time now [] = refl
count_of-same_time now (id ∷ ids) = omega (arith, count_of-same_time now ids)

-- Each of the requests has a timer of its own in the loop.
abbrev pub AllPending : ℕ → List (ℕ × ℕ) → List ℕ → Type 0
AllPending l timers [] = Unit {0}
AllPending l timers (id ∷ ids) =
    (has_timer l id timers ≡ true) × AllPending l (take_timer l id timers) ids

module _ {R : Type 0} where
  timer_fires-late :
      (c : RpcAsyncClient R) (l id : ℕ)
      → has_timer l id c.timers ≡ true
      → c.destroyed ≡ false
      → lookup id c.promises ≡ none
      → lookup id c.callbacks ≡ none
      → timer_fires c l id ≡ record (with_breaker c (fail c.world.now c.world.breaker)) {
        timers = take_timer l id c.timers;
      }
  unfolding timer_fires handle_timeout settle
  timer_fires-late c l id set alive p b = rw (set, alive, p, b) refl

  -- The timers of so many requests of one loop run out, one after another.
  pub timeouts : ℕ → List ℕ → List (Event R)
  timeouts l [] = []
  timeouts l (id ∷ ids) = fires l id ∷ timeouts l ids

  module _ (proto : Protobuf) where
    -- Late timeouts leave everything as it is but the timers and the breaker.
    abbrev pub Unheard : RpcAsyncClient R → RpcAsyncClient R → Type 0
    Unheard c c' =
        (c'.promises ≡ c.promises)
        × (c'.callbacks ≡ c.callbacks)
        × (c'.ready ≡ c.ready)
        × (c'.delivered ≡ c.delivered)

    run-late :
        (c : RpcAsyncClient R) (l : ℕ) (ids : List ℕ) (b : CircuitBreaker)
        → c.destroyed ≡ false
        → c.world.breaker ≡ some b
        → AllAnswered c.promises c.callbacks ids
        → AllPending l c.timers ids
        → Unheard c (run proto c (timeouts l ids))
          × ((run proto c (timeouts l ids)).world.breaker
              ≡ some (CB.run b (failures (same_time c.world.now ids))))
    unfolding run timeouts CB.run CB.step failures same_time
    run-late c l [] b alive has a pending = ((refl, refl, refl, refl), has)
    run-late c l (id ∷ ids) b alive has (p, q, a) (set, pending) =
        subst
          (λ (x : RpcAsyncClient R).
            Unheard c (run proto x (timeouts l ids))
            × ((run proto x (timeouts l ids)).world.breaker
                ≡ some
                    (CB.run (record_failure b c.world.now) (failures (same_time c.world.now ids)))))
          (sym (
            timer_fires-late c l id set alive p q
            ∙ ap
                (λ o. record (with_breaker c (fail c.world.now o)) {
                  timers = take_timer l id c.timers;
                })
                has))
          (run-late
            (record (with_breaker c (some (record_failure b c.world.now))) {
              timers = take_timer l id c.timers;
            })
            l ids (record_failure b c.world.now) alive refl a pending)

    -- Some calls wait, each with its timer, and the breaker is closed and counts no failures. All are
    -- answered with SUCCESS: none waits any more, the breaker is as before, and all the timers are still
    -- there. When those of the calls then run out, nobody is told anything, but the breaker is open
    -- exactly when the calls are at least as many as its threshold.
    pub late-opens :
        (c : RpcAsyncClient R) (l : ℕ) (ps : List DecodedPacket) (b : CircuitBreaker)
        → c.destroyed ≡ false
        → c.world.breaker ≡ some b
        → b.state ≡ closed
        → b.failure_count ≡ 0
        → 1 ≤ b.failure_threshold
        → AllAwaited c.promises c.callbacks ps
        → AllPending l c.timers (ids_of ps)
        → let c' = run proto c (received ps) in
          let c'' = run proto c' (timeouts l (ids_of ps)) in
          AllAnswered c'.promises c'.callbacks (ids_of ps)
          × (c'.world.breaker ≡ some b)
          × (c'.timers ≡ c.timers)
          × Unheard c' c''
          × ((b' : CircuitBreaker) × (c''.world.breaker ≡ some b')
              × ((b'.state ≡ open_) ↔ (b.failure_threshold ≤ length (ids_of ps))))
    late-opens c l ps b alive has shut zero_count positive a pending =
        let (ready, e) = run-answers proto c ps b has shut zero_count a in
        let c₁ = record c { promises = without c.promises ps; ready = ready } in
        let ids = ids_of ps in
        let done = AllAwaited-AllAnswered c.promises c.callbacks ps a in
        let (quiet, opened) = run-late c₁ l ids b alive has done pending in
        subst
          (λ (x : RpcAsyncClient R).
            let y = run proto x (timeouts l ids) in
            AllAnswered x.promises x.callbacks ids
            × (x.world.breaker ≡ some b)
            × (x.timers ≡ c.timers)
            × Unheard x y
            × ((b' : CircuitBreaker) × (y.world.breaker ≡ some b')
                × ((b'.state ≡ open_) ↔ (b.failure_threshold ≤ length ids))))
          (sym e)
          (
            done,
            has,
            refl,
            quiet,
            (
              CB.run b (failures (same_time c.world.now ids)),
              opened,
              subst
                  (λ n.
                    ((CB.run b (failures (same_time c.world.now ids))).state ≡ open_)
                    ↔ (b.failure_threshold ≤ n))
                  (omega (arith, count_of-same_time c.world.now ids))
                  (open-iff-threshold b (same_time c.world.now ids) shut (omega arith)),
            ),
          )
