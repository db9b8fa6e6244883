-- ===== src/Network/Channel/Dispatch.antt =====
-- The dispatch on the handlers of a connection, src/network/tcp_connection.cc.
use rpc_framework.Prelude.{
  ℕ, suc, Bool, false, not, ◌&&◌, ◌||◌, List, Option, none, some, ◌==◌, if◌then◌else◌,
}
use rpc_framework.Network.Buffer.{Buffer, ReadResult, ReadOutcome, count, errno, read_fd}
use rpc_framework.Network.Connection.{
  TcpConnection, WriteResult, handle_read, handle_write, handle_close, handle_error, Event, run,
}
use rpc_framework.Network.Connection.Quiet.{IsQuiet, Gone}
use rpc_framework.Network.Channel.{Revents, Handlers}

-- What the system calls return in the handlers, which are numbered as they run, and what the message
-- callback does: what it leaves of the input buffer, and then its own sends and closes.
pub record Calls : Type 0 where
  pub reads : ℕ → List ReadResult
  pub writes : ℕ → WriteResult
  pub so_error : ℕ → ℕ
  pub callback : Option (Buffer → Buffer)
  pub does : ℕ → List Event

-- Whether `handleRead` calls the message callback.
abbrev pub calls_back : Option (Buffer → Buffer) → Option (ReadOutcome × Buffer) → Bool
calls_back none r = false
calls_back (some callback) none = false
calls_back (some callback) (some (errno x, b)) = false
calls_back (some callback) (some (count n, b)) = not (n == 0)

-- `handleRead`, with what the message callback does on the connection.
unfoldable pub read_and_answer : Calls → ℕ → TcpConnection → TcpConnection
read_and_answer k n c =
    let c' = handle_read c (k.reads n) k.callback (k.so_error n) in
    if calls_back k.callback (read_fd c.input (k.reads n)) then run c' (k.does n) else c'

-- The callbacks that the constructor of a connection binds.
abbrev pub connection_handlers : Calls → Handlers (TcpConnection × ℕ)
connection_handlers k = record {
  on_read = λ (c, n). (read_and_answer k n c, suc n);
  on_write = λ (c, n). (handle_write c (k.writes n) (k.so_error n), suc n);
  on_close = λ (c, n). (handle_close c, suc n);
  on_error = λ (c, n). (handle_error c (k.so_error n), suc n);
}

-- What is reported says that the connection is over.
abbrev pub says_over : Revents → Bool
says_over r = r.err || (r.rdhup || (r.hup && not r.in_))

module _ (k : Calls) where
  abbrev handlers : Handlers (TcpConnection × ℕ)
  handlers = connection_handlers k

  abbrev QuietW : TcpConnection × ℕ → Type 0
  QuietW w = IsQuiet w.0

  abbrev GoneW : TcpConnection × ℕ → Type 0
  GoneW w = Gone w.0
