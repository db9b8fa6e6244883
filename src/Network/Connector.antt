-- ===== src/Network/Connector.antt =====
-- src/network/connector.cc: the connector, which tries to connect until it succeeds. What the system
-- calls return is an argument, and so is the delay that the jitter draws. `watching` is whether a
-- channel waits for the socket to become writable, `timers` how many retries are scheduled in the
-- loop, `open_fds` how many sockets the connector owns, and `handed` how many it has given to its
-- owner. The asserts are off.
pub mod Backoff
use rpc_framework.Prelude.{
  List, [], ◌∷◌, ℕ, suc, ◌+◌, ◌-◌, ◌*◌, ◌/◌, ◌≤◌, Bool, true, false, ◌||◌, ◌==◌, if◌then◌else◌, min,
}

pub data ConnectorState : Type 0 where
  disconnected connecting connected : ConnectorState

pub record Connector : Type 0 where
  pub state : ConnectorState
  pub connect_ : Bool
  pub retry_delay : ℕ
  pub watching : Bool
  pub timers : ℕ
  pub open_fds : ℕ
  pub handed : ℕ

abbrev pub max_retry_delay : ℕ
max_retry_delay = 30000

abbrev pub init_retry_delay : ℕ
init_retry_delay = 500

abbrev pub new_connector : Connector
new_connector = record {
  state = disconnected;
  connect_ = false;
  retry_delay = init_retry_delay;
  watching = false;
  timers = 0;
  open_fds = 0;
  handed = 0;
}

-- The bounds between which the jitter draws its delay.
abbrev pub jitter_low : Connector → ℕ
jitter_low c = c.retry_delay / 2

-- `retry` with an open socket, which it closes, and with -1.
unfoldable pub retry_closed : Connector → Connector
retry_closed c =
    if c.connect_
    then record c {
      state = disconnected;
      timers = suc c.timers;
      retry_delay = min (c.retry_delay * 2) max_retry_delay;
    }
    else record c { state = disconnected }

unfoldable pub retry : Connector → Connector
unfolding retry_closed
retry c = retry_closed (record c { open_fds = c.open_fds - 1 })

-- The channel is taken out of the loop; the socket stays open.
abbrev pub remove_channel : Connector → Connector
remove_channel c = record c { watching = false }

-- The errno of `connect`, sorted the way the `switch` does.
pub data ConnectResult : Type 0 where
  no_socket : ConnectResult
  in_progress : ConnectResult
  transient : ConnectResult
  fatal : ConnectResult

abbrev pub sort_errno : ℕ → ConnectResult
sort_errno e =
    if e == 0 || (e == 115 || (e == 114 || e == 106))
    then in_progress
    else if e == 4 || (e == 11 || (e == 98 || (e == 99 || (e == 111 || e == 101))))
    then transient
    else fatal

abbrev pub opened : Connector → Connector
opened c = record c { open_fds = suc c.open_fds }

unfoldable pub connect : Connector → ConnectResult → Connector
unfolding retry retry_closed
connect c no_socket = if c.connect_ then retry_closed c else c
connect c in_progress = record (opened c) { state = connecting; watching = true }
connect c transient = retry (opened c)
connect c fatal = c

unfoldable pub start_in_loop : Connector → ConnectResult → Connector
unfolding connect
start_in_loop c r = if c.connect_ then connect c r else c

unfoldable pub restart : Connector → ConnectResult → Connector
unfolding start_in_loop
restart c r =
    start_in_loop
      (record c { state = disconnected; retry_delay = init_retry_delay; connect_ = true }) r

abbrev pub stop_from : ConnectorState → Connector → Connector
stop_from disconnected c = c
stop_from connected c = c
stop_from connecting c = record (remove_channel c) {
  state = disconnected;
  open_fds = c.open_fds - 1;
}

unfoldable pub stop_in_loop : Connector → Connector
stop_in_loop c = stop_from c.state c

-- A connected socket goes to the owner, or is closed if the connector was stopped meanwhile.
abbrev pub succeeded : Connector → Connector
succeeded c =
    if c.connect_
    then record c { state = connected; open_fds = c.open_fds - 1; handed = suc c.handed }
    else record c { state = connected; open_fds = c.open_fds - 1 }

abbrev pub handle_write_from : ConnectorState → Connector → ℕ → Connector
handle_write_from disconnected c so_error = c
handle_write_from connected c so_error = c
handle_write_from connecting c so_error =
    if so_error == 0 then succeeded (remove_channel c) else retry (remove_channel c)

unfoldable pub handle_write : Connector → ℕ → Connector
unfolding retry
handle_write c so_error = handle_write_from c.state c so_error

abbrev pub handle_error_from : ConnectorState → Connector → Connector
handle_error_from disconnected c = c
handle_error_from connected c = c
handle_error_from connecting c = retry (remove_channel c)

unfoldable pub handle_error : Connector → Connector
unfolding retry
handle_error c = handle_error_from c.state c

abbrev pub is_disconnected : ConnectorState → Bool
is_disconnected disconnected = true
is_disconnected connecting = false
is_disconnected connected = false

-- The functor of a retry's timer; the timer itself is gone when it runs.
unfoldable pub timer_expires : Connector → ConnectResult → Connector
unfolding start_in_loop
timer_expires c r =
    let d = record c { timers = c.timers - 1 } in
    if c.connect_ then (if is_disconnected c.state then start_in_loop d r else d) else d

-- What happens to a connector. `start` and `stop` set the flag in the caller's thread, and what
-- they post runs in the loop.
pub data Event : Type 0 where
  wants : Bool → Event
  starts : ConnectResult → Event
  restarts : ConnectResult → Event
  stops : Event
  writable : ℕ → Event
  fails : Event
  expires : ConnectResult → Event

unfoldable pub step : Connector → Event → Connector
step c (wants b) = record c { connect_ = b }
step c (starts r) = start_in_loop c r
step c (restarts r) = restart c r
step c stops = stop_in_loop c
step c (writable so_error) = handle_write c so_error
step c fails = handle_error c
step c (expires r) = timer_expires c r

unfoldable pub run : Connector → List Event → Connector
run c [] = c
run c (e ∷ es) = run (step c e) es
