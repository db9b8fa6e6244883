-- ===== src/Examples/Connections.antt =====
-- A connection and a connector over a few steps.
use rpc_framework.Prelude.{◌≡◌, refl, true, false, List, [], ◌∷◌, ◌++◌}
use rpc_framework.Network.Buffer.{Bytes, new, readable_bytes}
use rpc_framework.Network.Buffer.Contents.{contents}
use rpc_framework.Network.Connection.{
  TcpConnection, connected, wrote, Event, sends, writable, closes, new_connection,
  connect_established, run,
}
use rpc_framework.Network.Connection.Flow.{live}
use rpc_framework.Network.Connection.Stream.{all_sent, stream_in_order}
use rpc_framework.Network.Connection.Lifecycle.{ClosedOnce, run-ClosedOnce}

abbrev some_events : List Event
some_events = sends (1 ∷ 2 ∷ 3 ∷ []) (wrote 1) 0 ∷ writable (wrote 2) 0 ∷ closes ∷ []

stream_in_order_example :
    let c = connect_established new_connection in
    let d = run c some_events in
    (left : Bytes) × (d.stream ++ left ≡ all_sent c some_events)
    × (live d.state ≡ true → left ≡ contents d.output)
    × (live d.state ≡ true → d.writing ≡ false → left ≡ [])
stream_in_order_example = stream_in_order some_events (λ h. cc, (tt, (tt, tt)))

run-ClosedOnce_example :
    ClosedOnce (run (connect_established new_connection) (closes ∷ closes ∷ []))
run-ClosedOnce_example = run-ClosedOnce (closes ∷ closes ∷ [])

abbrev open_connection : TcpConnection
open_connection = record new_connection { state = connected }

nothing_queued : readable_bytes open_connection.output ≡ 0
unfolding readable_bytes new
nothing_queued = refl
