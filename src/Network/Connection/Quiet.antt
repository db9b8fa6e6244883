-- ===== src/Network/Connection/Quiet.antt =====
-- A connection of src/network/tcp_connection.cc that is over.
use rpc_framework.Prelude.{
  ℕ, ◌≡◌, refl, ap, ◌∙◌, false, not, ◌&&◌, ◌||◌, List, [], ◌∷◌, Option, none, some, arith, ◌==◌,
  if◌then◌else◌, if-elim, drop, take, ◌++◌,
}
use rpc_framework.Network.Buffer.{Buffer, Bytes, ReadOutcome, count, errno, read_fd, readable_bytes}
use rpc_framework.Network.Connection.{
  TcpConnection, ConnectionState, disconnected, connecting, connected, disconnecting, WriteResult,
  wrote, write_failed, handle_close, handle_error, connect_destroyed, shutdown_in_loop, queue_rest,
  after_write, send_in_loop_from, send_in_loop, is_connected, send, flushed_from, after_flush,
  flush, handle_write, after_read, handle_read, disconnect, Event, sends, writable, readable,
  disconnects, shuts_down, closes, destroyed, step, run, eagain, epipe, econnreset,
}

-- A connection that is disconnected does not wait to write.
abbrev pub IsQuiet : TcpConnection → Type 0
IsQuiet c = c.state ≡ disconnected → c.writing ≡ false

-- The connection is closed, and does not wait to write.
abbrev pub Gone : TcpConnection → Type 0
Gone c = (c.state ≡ disconnected) × (c.writing ≡ false)

pub handle_close-Gone : (c : TcpConnection) → IsQuiet c → Gone (handle_close c)
unfolding handle_close
handle_close-Gone c h = ground arith

pub handle_error-IsQuiet : (c : TcpConnection) (e : ℕ) → IsQuiet c → IsQuiet (handle_error c e)
unfolding handle_error handle_close
handle_error-IsQuiet c e h = ground arith

pub Gone-IsQuiet : (c : TcpConnection) → Gone c → IsQuiet c
Gone-IsQuiet c (gone, quiet) = λ h. quiet

pub after_read-IsQuiet :
    (c : TcpConnection) (callback : Option (Buffer → Buffer)) (e : ℕ)
    (r : Option (ReadOutcome × Buffer))
    → IsQuiet c
    → IsQuiet (after_read c callback e r)
after_read-IsQuiet c callback e none h = h
after_read-IsQuiet c callback e (some (errno x, b)) h =
    handle_error-IsQuiet (record c { input = b }) e h
after_read-IsQuiet c callback e (some (count n, b)) h =
    if-elim IsQuiet (n == 0) (λ _ closed. (handle_close-Gone (record c { input = b }) h).1) (λ _. h)

pub handle_error-Gone : (c : TcpConnection) (e : ℕ) → Gone c → Gone (handle_error c e)
unfolding handle_error handle_close
handle_error-Gone c e h = ground arith

pub after_read-Gone :
    (c : TcpConnection) (callback : Option (Buffer → Buffer)) (e : ℕ)
    (r : Option (ReadOutcome × Buffer))
    → Gone c
    → Gone (after_read c callback e r)
after_read-Gone c callback e none h = h
after_read-Gone c callback e (some (errno x, b)) h = handle_error-Gone (record c { input = b }) e h
after_read-Gone c callback e (some (count n, b)) h =
    if-elim Gone (n == 0)
      (λ _. handle_close-Gone (record c { input = b }) (Gone-IsQuiet (record c { input = b }) h))
      (λ _. h)

pub handle_write-rests :
    (c : TcpConnection) (w : WriteResult) (e : ℕ) → Gone c → handle_write c w e ≡ c
unfolding handle_write
handle_write-rests c w e (gone, quiet) =
    if-elim (λ d. d ≡ c) c.writing (λ b. let no : ⊥ = cc in elim no [ ]) (λ b. refl)

connected-IsQuiet : (c : TcpConnection) → c.state ≡ connected → IsQuiet c
connected-IsQuiet c e = λ h. let no : ⊥ = cc in elim no [ ]

queue_rest-state : (c : TcpConnection) (m : Bytes) → (queue_rest c m).state ≡ c.state
unfolding queue_rest
queue_rest-state c [] = refl
queue_rest-state c (b ∷ rest) = refl

queue_rest-IsQuiet :
    (c : TcpConnection) (m : Bytes) → c.state ≡ connected → IsQuiet (queue_rest c m)
queue_rest-IsQuiet c m e = connected-IsQuiet (queue_rest c m) (queue_rest-state c m ∙ e)

after_write-IsQuiet :
    (c : TcpConnection) (m : Bytes) (w : WriteResult) (so_error : ℕ)
    → c.state ≡ connected
    → IsQuiet (after_write c m w so_error)
after_write-IsQuiet c m (wrote n) so_error e =
    queue_rest-IsQuiet (record c { stream = c.stream ++ take n m }) (drop n m) e
after_write-IsQuiet c m (write_failed x) so_error e =
    if-elim IsQuiet (not (x == eagain) && (x == epipe || x == econnreset))
      (λ _. handle_error-IsQuiet c so_error (connected-IsQuiet c e)) (λ _. queue_rest-IsQuiet c m e)

send-IsQuiet :
    (c : TcpConnection) (m : Bytes) (w : WriteResult) (so_error : ℕ)
    → IsQuiet c
    → IsQuiet (send c m w so_error)
unfolding send send_in_loop
send-IsQuiet c m w so_error h = by_state c.state refl
  where
    by_state :
        (s : ConnectionState)
        → c.state ≡ s
        → IsQuiet (if is_connected s then send_in_loop_from s c m w so_error else c)
    by_state disconnected e = h
    by_state connecting e = h
    by_state disconnecting e = h
    by_state connected e =
        if-elim IsQuiet (not c.writing && readable_bytes c.output == 0)
          (λ _. after_write-IsQuiet c m w so_error e) (λ _. queue_rest-IsQuiet c m e)

send-Gone :
    (c : TcpConnection) (m : Bytes) (w : WriteResult) (so_error : ℕ)
    → Gone c
    → Gone (send c m w so_error)
unfolding send
send-Gone c m w so_error (gone, quiet) =
    let shut : is_connected c.state ≡ false = ap is_connected gone in rw shut (gone, quiet)

flushed_from-IsQuiet :
    (s : ConnectionState) (c : TcpConnection) → IsQuiet c → IsQuiet (flushed_from s c)
unfolding shutdown_in_loop
flushed_from-IsQuiet disconnecting c h = ground arith
flushed_from-IsQuiet connected c h = h
flushed_from-IsQuiet connecting c h = h
flushed_from-IsQuiet disconnected c h = h

after_flush-IsQuiet : (c : TcpConnection) → IsQuiet c → IsQuiet (after_flush c)
after_flush-IsQuiet c h =
    if-elim IsQuiet (readable_bytes c.output == 0)
      (λ _. flushed_from-IsQuiet c.state (record c { writing = false }) (λ closed. refl)) (λ _. h)

flush-IsQuiet :
    (c : TcpConnection) (w : WriteResult) (so_error : ℕ) → IsQuiet c → IsQuiet (flush c w so_error)
flush-IsQuiet c (write_failed x) so_error h =
    if-elim IsQuiet (x == eagain) (λ _. h) (λ _. handle_error-IsQuiet c so_error h)
flush-IsQuiet c (wrote n) so_error h =
    if-elim IsQuiet (n == 0) (λ _. handle_error-IsQuiet c so_error h) (λ _. after_flush-IsQuiet _ h)

step-IsQuiet : (c : TcpConnection) (e : Event) → IsQuiet c → IsQuiet (step c e)
unfolding step handle_write handle_read disconnect shutdown_in_loop connect_destroyed
step-IsQuiet c (sends m w so_error) h = send-IsQuiet c m w so_error h
step-IsQuiet c (writable w so_error) h =
    if-elim IsQuiet c.writing (λ _. flush-IsQuiet c w so_error h) (λ _. h)
step-IsQuiet c (readable results callback so_error) h =
    after_read-IsQuiet c callback so_error (read_fd c.input results) h
step-IsQuiet c disconnects h = ground arith
step-IsQuiet c shuts_down h = ground arith
step-IsQuiet c closes h = λ closed. (handle_close-Gone c h).1
step-IsQuiet c destroyed h = ground arith

step-Gone : (c : TcpConnection) (e : Event) → Gone c → Gone (step c e)
unfolding step handle_read disconnect shutdown_in_loop connect_destroyed
step-Gone c (sends m w so_error) g = send-Gone c m w so_error g
step-Gone c (writable w so_error) g = rw (handle_write-rests c w so_error g) g
step-Gone c (readable results callback so_error) g =
    after_read-Gone c callback so_error (read_fd c.input results) g
step-Gone c disconnects g = ground arith
step-Gone c shuts_down g = ground arith
step-Gone c closes g = handle_close-Gone c (Gone-IsQuiet c g)
step-Gone c destroyed g = ground arith

pub run-IsQuiet : (c : TcpConnection) (es : List Event) → IsQuiet c → IsQuiet (run c es)
unfolding run
run-IsQuiet c [] h = h
run-IsQuiet c (e ∷ es) h = run-IsQuiet (step c e) es (step-IsQuiet c e h)

pub run-Gone : (c : TcpConnection) (es : List Event) → Gone c → Gone (run c es)
unfolding run
run-Gone c [] g = g
run-Gone c (e ∷ es) g = run-Gone (step c e) es (step-Gone c e g)
