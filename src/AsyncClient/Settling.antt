-- ===== src/AsyncClient/Settling.antt =====
-- The end of the client: what its destructor does to the calls that wait, and to its TcpClient.
use rpc_framework.Prelude.{ℕ, ◌+◌, ◌≡◌, refl, true, false, List, [], Option, none, arith, if-elim}
use rpc_framework.Codec.Message.{Protobuf}
use rpc_framework.Pool.{Client, try_claim, release_claim}
use rpc_framework.AsyncClient.{World, RpcAsyncClient, error_response}
use rpc_framework.AsyncClient.Upkeep.{stop_heartbeat}
use rpc_framework.AsyncClient.Connecting.{
  disconnect, client_destroyed, fail_all, destroy, start_borrowed, destroy_claim,
}
use rpc_framework.AsyncClient.Tally.{answers, woken, answers-completions, woken-callers}
use rpc_framework.AsyncClient.Accounting.{tally, IsValid}
use rpc_framework.AsyncClient.Steps.{Event, all_called, run, run-Adds}

module _ {R : Type 0} where
  -- No call waits, and all that were made are answered or have their promise set.
  abbrev pub Settled : ℕ → ℕ → RpcAsyncClient R → Type 0
  Settled who n c =
      (c.promises ≡ []) × (c.callbacks ≡ []) × (answers who c.delivered + woken who c.ready ≡ n)

  fail_all-Settled : (who : ℕ) (c : RpcAsyncClient R) → Settled who (tally who c) (fail_all c)
  fail_all-Settled who c =
      let resp = error_response client_destroyed in
      (
        refl,
        refl,
        omega (
          arith,
          answers-completions who c.callbacks resp c.delivered,
          woken-callers who c.promises resp c.ready,
        ),
      )

  destroy-Settled : (who : ℕ) (c : RpcAsyncClient R) → Settled who (tally who c) (destroy c)
  unfolding destroy disconnect stop_heartbeat
  destroy-Settled who c =
      let ended = record c { destroyed = true; heartbeat_running = false } in
      if-elim
        (λ (p : RpcAsyncClient R × Option ℕ). Settled who (tally who c) (fail_all (disconnect p.0)))
        c.heartbeat_running
        (λ _. fail_all-Settled who (disconnect (record ended { heartbeat_loop = none })))
        (λ _. fail_all-Settled who (disconnect ended))

  -- A client that is destroyed after any events leaves no call waiting: for each caller, what it
  -- was told and its threads that are woken are as many as its calls, those before the events
  -- included.
  pub destroy-settles :
      (proto : Protobuf) (who : ℕ) (c : RpcAsyncClient R) (es : List (Event R))
      → IsValid c
      → Settled who (tally who c + all_called who es) (destroy (run proto c es))
  destroy-settles proto who c es v =
      let s = destroy-Settled who (run proto c es) in
      (s.0, s.1, omega (arith, s.2, (run-Adds proto who c es v).1))

-- A TcpClient that nobody has claimed is bound to one client at a time: a second client is invalid
-- while the first one lives, and the TcpClient is as it was once the first one is destroyed.
pub borrowed-returns :
    {R : Type 0} (w : World R) (tc : Client) (me other t l : ℕ)
    → tc.owner ≡ none
    → let (c, held) = start_borrowed w tc me t l in
      (c.invalid ≡ false)
      × ((start_borrowed w held other t l).0.invalid ≡ true)
      × (destroy_claim c held me ≡ tc)
unfolding start_borrowed try_claim destroy_claim release_claim
borrowed-returns w tc me other t l free = ground arith
