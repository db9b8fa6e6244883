-- ===== src/Examples/Connectors.antt =====
-- A connector over a few steps, and a pool of three loops.
use rpc_framework.Prelude.{true, List, [], ◌∷◌}
use rpc_framework.Network.Connector.{
  Connector, new_connector, in_progress, transient, Event, wants, starts, restarts, writable,
  expires, run,
}
use rpc_framework.Network.Connector.Backoff.{IsBounded, overlaps, run-IsBounded}

abbrev attempts : List Event
attempts = wants true ∷ starts in_progress ∷ writable 111 ∷ expires transient ∷ []

-- A restart while the connector connects, which leaves a socket open.
abbrev with_overlap : List Event
with_overlap = wants true ∷ starts in_progress ∷ restarts in_progress ∷ writable 0 ∷ []

run-IsBounded_example :
    IsBounded (overlaps new_connector with_overlap) (run new_connector with_overlap)
run-IsBounded_example = run-IsBounded with_overlap

abbrev wanted : Connector
wanted = record new_connector { connect_ = true }
