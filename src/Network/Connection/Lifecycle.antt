-- ===== src/Network/Connection/Lifecycle.antt =====
-- How a connection ends.
use rpc_framework.Prelude.{
  ℕ, ◌≤◌, ◌≡◌, ◌≢◌, ◌⊎◌, refl, false, Option, none, some, List, [], ◌∷◌, ◌==◌, arith, if-elim,
}
use rpc_framework.Network.Buffer.{Buffer, Bytes, readable_bytes, ReadOutcome, count, errno, read_fd}
use rpc_framework.Network.Connection.{
  TcpConnection, disconnected, connected, WriteResult, write_failed, handle_close, handle_error,
  connect_destroyed, connect_established, new_connection, shutdown_in_loop, queue_rest, send,
  send_in_loop, handle_write, handle_read, after_read, disconnect, Event, sends, writable, readable,
  disconnects, shuts_down, closes, destroyed, step, run, epipe, econnreset,
}

-- The close callback ran at most once, and never on a connection that is not closed.
abbrev pub ClosedOnce : TcpConnection → Type 0
ClosedOnce c = (c.closed ≤ 1) × (c.closed ≡ 1 → c.state ≡ disconnected)

queue_rest-ClosedOnce : (c : TcpConnection) (m : Bytes) → ClosedOnce c → ClosedOnce (queue_rest c m)
unfolding queue_rest
queue_rest-ClosedOnce c [] h = h
queue_rest-ClosedOnce c (b ∷ m) h = h

handle_close-ClosedOnce : (c : TcpConnection) → ClosedOnce c → ClosedOnce (handle_close c)
unfolding handle_close
handle_close-ClosedOnce c h = ground arith

handle_error-ClosedOnce : (c : TcpConnection) (e : ℕ) → ClosedOnce c → ClosedOnce (handle_error c e)
unfolding handle_error
handle_error-ClosedOnce c e h =
    if-elim ClosedOnce (e == 0) (λ _. h) (λ _. handle_close-ClosedOnce c h)

send-ClosedOnce :
    (c : TcpConnection) (m : Bytes) (w : WriteResult) (e : ℕ)
    → ClosedOnce c
    → ClosedOnce (send c m w e)
unfolding send send_in_loop handle_error handle_close queue_rest
send-ClosedOnce c m w e h = ground arith

queue_rest-keeps :
    (c : TcpConnection) (m : Bytes)
    → ((queue_rest c m).state ≡ c.state) × ((queue_rest c m).closed ≡ c.closed)
unfolding queue_rest
queue_rest-keeps c [] = (refl, refl)
queue_rest-keeps c (b ∷ m) = (refl, refl)

handle_write-ClosedOnce :
    (c : TcpConnection) (w : WriteResult) (e : ℕ) → ClosedOnce c → ClosedOnce (handle_write c w e)
unfolding handle_write handle_error handle_close shutdown_in_loop
handle_write-ClosedOnce c w e h = ground arith

after_read-ClosedOnce :
    (c : TcpConnection) (callback : Option (Buffer → Buffer)) (e : ℕ)
    (r : Option (ReadOutcome × Buffer))
    → ClosedOnce c
    → ClosedOnce (after_read c callback e r)
after_read-ClosedOnce c callback e none h = h
after_read-ClosedOnce c callback e (some (errno x, b)) h =
    handle_error-ClosedOnce (record c { input = b }) e h
after_read-ClosedOnce c callback e (some (count n, b)) h =
    if-elim ClosedOnce (n == 0) (λ _. handle_close-ClosedOnce (record c { input = b }) h) (λ _. h)

step-ClosedOnce : (c : TcpConnection) (e : Event) → ClosedOnce c → ClosedOnce (step c e)
unfolding step handle_read
step-ClosedOnce c (sends m w e) h = send-ClosedOnce c m w e h
step-ClosedOnce c (writable w e) h = handle_write-ClosedOnce c w e h
step-ClosedOnce c (readable results callback e) h =
    after_read-ClosedOnce c callback e (read_fd c.input results) h
step-ClosedOnce c disconnects h = unfold disconnect in ground arith
step-ClosedOnce c shuts_down h = unfold shutdown_in_loop in ground arith
step-ClosedOnce c closes h = handle_close-ClosedOnce c h
step-ClosedOnce c destroyed h = unfold connect_destroyed in ground arith

run-keeps : (c : TcpConnection) (es : List Event) → ClosedOnce c → ClosedOnce (run c es)
unfolding run
run-keeps c [] h = h
run-keeps c (e ∷ es) h = run-keeps (step c e) es (step-ClosedOnce c e h)

-- Whatever happens to a connection after it was established, its close callback runs at most once,
-- and when it has run the connection is disconnected.
pub run-ClosedOnce : (es : List Event) → ClosedOnce (run (connect_established new_connection) es)
run-ClosedOnce es =
    run-keeps (connect_established new_connection) es (unfold connect_established in ground arith)

-- A direct write that breaks the pipe, on a connected connection with nothing queued: the message
-- is dropped; the connection is disconnected if the socket reports an error, and is left as
-- it was if it reports none.
pub send-broken :
    (c : TcpConnection) (message : Bytes) (e so_error : ℕ)
    → c.state ≡ connected
    → c.writing ≡ false
    → readable_bytes c.output ≡ 0
    → (e ≡ epipe) ⊎ (e ≡ econnreset)
    → let d = send c message (write_failed e) so_error in
      (d.stream ≡ c.stream)
      × (d.output ≡ c.output)
      × (so_error ≢ 0 → d.state ≡ disconnected)
      × (so_error ≡ 0 → d ≡ c)
unfolding send send_in_loop handle_error handle_close
send-broken c message e so_error s idle empty broken = ground arith
