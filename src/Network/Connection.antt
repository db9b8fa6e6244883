-- ===== src/Network/Connection.antt =====
-- src/network/tcp_connection.cc: the state of a connection and its two buffers. What a system call
-- returns is an argument: `write` accepts some bytes or fails with an errno, and `SO_ERROR` is a
-- number. `stream` is what `write` has accepted so far, `half_closed` whether `shutdownWrite` was
-- called, `closed` how often the close callback was. A call that is posted to the loop is a step of
-- its own. The asserts are off. A message callback is what it leaves of the input buffer; what
-- it does on the connection are steps that follow, and Network/Channel/Dispatch has them in their place.
pub mod Flow
pub mod Stream
pub mod Lifecycle
pub mod Quiet
use rpc_framework.Prelude.{
  ℕ, suc, ◌+◌, Bool, true, false, not, ◌&&◌, ◌||◌, List, [], ◌∷◌, ◌++◌, Option, none, some, ◌==◌,
  if◌then◌else◌, take, drop,
}
use rpc_framework.Network.Buffer.{
  Buffer, Bytes, new, readable_bytes, peek, retrieve, retrieve_all, append, ReadResult, ReadOutcome,
  count, errno, read_fd,
}

pub data ConnectionState : Type 0 where
  disconnected connecting connected disconnecting : ConnectionState

pub record TcpConnection : Type 0 where
  pub state : ConnectionState
  pub reading : Bool
  pub writing : Bool
  pub input : Buffer
  pub output : Buffer
  pub stream : Bytes
  pub half_closed : Bool
  pub closed : ℕ

abbrev pub new_connection : TcpConnection
new_connection = record {
  state = connecting;
  reading = false;
  writing = false;
  input = new;
  output = new;
  stream = [];
  half_closed = false;
  closed = 0;
}

pub data WriteResult : Type 0 where
  wrote : ℕ → WriteResult
  write_failed : ℕ → WriteResult

abbrev pub eagain : ℕ
eagain = 11

abbrev pub epipe : ℕ
epipe = 32

abbrev pub econnreset : ℕ
econnreset = 104

-- `setState(kDisconnected)`, `disableAll` and the callbacks.
abbrev pub close : TcpConnection → TcpConnection
close c = record c { state = disconnected; reading = false; writing = false; closed = suc c.closed }

abbrev pub close_from : ConnectionState → TcpConnection → TcpConnection
close_from disconnected c = c
close_from connecting c = close c
close_from connected c = close c
close_from disconnecting c = close c

-- Handles a close once.
unfoldable pub handle_close : TcpConnection → TcpConnection
handle_close c = close_from c.state c

unfoldable pub handle_error : TcpConnection → ℕ → TcpConnection
handle_error c so_error = if so_error == 0 then c else handle_close c

unfoldable pub connect_established : TcpConnection → TcpConnection
connect_established c = record c { state = connected; reading = true }

abbrev pub destroy_from : ConnectionState → TcpConnection → TcpConnection
destroy_from connected c = record c { state = disconnected; reading = false; writing = false }
destroy_from disconnected c = c
destroy_from connecting c = c
destroy_from disconnecting c = c

unfoldable pub connect_destroyed : TcpConnection → TcpConnection
connect_destroyed c = destroy_from c.state c

unfoldable pub shutdown_in_loop : TcpConnection → TcpConnection
shutdown_in_loop c = if c.writing then c else record c { half_closed = true }

-- What of a message is not written yet goes to the output buffer.
unfoldable pub queue_rest : TcpConnection → Bytes → TcpConnection
queue_rest c [] = c
queue_rest c (b ∷ rest) = record c { output = append c.output (b ∷ rest); writing = true }

abbrev pub after_write : TcpConnection → Bytes → WriteResult → ℕ → TcpConnection
after_write c message (wrote n) so_error =
    queue_rest (record c { stream = c.stream ++ take n message }) (drop n message)
after_write c message (write_failed e) so_error =
    if not (e == eagain) && (e == epipe || e == econnreset)
    then handle_error c so_error
    else queue_rest c message

abbrev pub send_open : TcpConnection → Bytes → WriteResult → ℕ → TcpConnection
send_open c message w so_error =
    if not c.writing && readable_bytes c.output == 0
    then after_write c message w so_error
    else queue_rest c message

abbrev pub send_in_loop_from :
    ConnectionState → TcpConnection → Bytes → WriteResult → ℕ → TcpConnection
send_in_loop_from disconnected c message w so_error = c
send_in_loop_from connecting c message w so_error = send_open c message w so_error
send_in_loop_from connected c message w so_error = send_open c message w so_error
send_in_loop_from disconnecting c message w so_error = send_open c message w so_error

unfoldable pub send_in_loop : TcpConnection → Bytes → WriteResult → ℕ → TcpConnection
send_in_loop c message w so_error = send_in_loop_from c.state c message w so_error

abbrev pub is_connected : ConnectionState → Bool
is_connected connected = true
is_connected disconnected = false
is_connected connecting = false
is_connected disconnecting = false

-- The guard stands before a posted call and is tested again in it.
unfoldable pub send : TcpConnection → Bytes → WriteResult → ℕ → TcpConnection
send c message w so_error = if is_connected c.state then send_in_loop c message w so_error else c

-- The end of a flush: nothing is left to write.
abbrev pub flushed_from : ConnectionState → TcpConnection → TcpConnection
flushed_from disconnecting c = shutdown_in_loop c
flushed_from connected c = c
flushed_from connecting c = c
flushed_from disconnected c = c

abbrev pub after_flush : TcpConnection → TcpConnection
after_flush c =
    if readable_bytes c.output == 0 then flushed_from c.state (record c { writing = false }) else c

abbrev pub flush : TcpConnection → WriteResult → ℕ → TcpConnection
flush c (wrote n) so_error =
    if n == 0
    then handle_error c so_error
    else after_flush (record c {
      stream = c.stream ++ take n (take (readable_bytes c.output) (peek c.output));
      output = retrieve c.output n;
    })
flush c (write_failed e) so_error = if e == eagain then c else handle_error c so_error

unfoldable pub handle_write : TcpConnection → WriteResult → ℕ → TcpConnection
handle_write c w so_error = if c.writing then flush c w so_error else c

-- `none`: no message callback is set, and the bytes are dropped.
abbrev pub consume : Option (Buffer → Buffer) → Buffer → Buffer
consume none b = retrieve_all b
consume (some callback) b = callback b

abbrev pub after_read :
    TcpConnection → Option (Buffer → Buffer) → ℕ → Option (ReadOutcome × Buffer) → TcpConnection
after_read c callback so_error none = c
after_read c callback so_error (some (errno e, b)) = handle_error (record c { input = b }) so_error
after_read c callback so_error (some (count n, b)) =
    if n == 0
    then handle_close (record c { input = b })
    else record c { input = consume callback b }

unfoldable pub handle_read :
    TcpConnection → List ReadResult → Option (Buffer → Buffer) → ℕ → TcpConnection
handle_read c results callback so_error = after_read c callback so_error (read_fd c.input results)

-- `shutdown` and `forceClose` up to the call that they post: `shutdownInLoop` and `handleClose`.
unfoldable pub disconnect : TcpConnection → TcpConnection
disconnect c = if is_connected c.state then record c { state = disconnecting } else c

-- The steps of the loop, in the order that it runs them.
pub data Event : Type 0 where
  sends : Bytes → WriteResult → ℕ → Event
  writable : WriteResult → ℕ → Event
  readable : List ReadResult → Option (Buffer → Buffer) → ℕ → Event
  disconnects : Event
  shuts_down : Event
  closes : Event
  destroyed : Event

unfoldable pub step : TcpConnection → Event → TcpConnection
step c (sends message w so_error) = send c message w so_error
step c (writable w so_error) = handle_write c w so_error
step c (readable results callback so_error) = handle_read c results callback so_error
step c disconnects = disconnect c
step c shuts_down = shutdown_in_loop c
step c closes = handle_close c
step c destroyed = connect_destroyed c

unfoldable pub run : TcpConnection → List Event → TcpConnection
run c [] = c
run c (e ∷ es) = run (step c e) es
