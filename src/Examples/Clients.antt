-- ===== src/Examples/Clients.antt =====
-- A pipelined client over a few events.
use rpc_framework.Prelude.{◌+◌, ◌≡◌, true, List, [], ◌∷◌}
use rpc_framework.PipelineClient.{Pending, new_client}
use rpc_framework.PipelineClient.Accounting.{
  Event, submits, sweeps, run, count_id, waiting, all_taken, run-accounts,
}
use rpc_framework.Examples.{toy}
use rpc_framework.Examples.Packets.{a_request}

abbrev some_events : List Event
some_events =
    submits true a_request (65 ∷ []) (66 ∷ []) 10 0
    ∷ submits true a_request (65 ∷ []) (66 ∷ []) 0 5
    ∷ sweeps 10_000_000
    ∷ []

run-accounts_example :
    let (c, done) = run toy new_client some_events in
    count_id 1 done + waiting 1 c.pending ≡ all_taken toy 1 new_client some_events
run-accounts_example = run-accounts toy 1 some_events

abbrev a_pending : Pending
a_pending = record { sent_at = 0; deadline = 5_500_000 }
