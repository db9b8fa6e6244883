-- ===== src/Network/Connection/Flow.antt =====
-- How the sent bytes flow through a connection: each part of it keeps them together.
use rpc_framework.Prelude.{
  ℕ, ◌≡◌, ◌≢◌, refl, sym, ap, ◌∙◌, Bool, true, false, not, ◌&&◌, ◌||◌, [], ◌∷◌, ◌++◌, arith, ◌==◌,
  if◌then◌else◌, if-elim, length, take, drop, take-append-drop, subst,
}
use mathlib.Core.List.{append_assoc, append-nil}
use rpc_framework.Network.Buffer.{Bytes, readable_bytes}
use rpc_framework.Network.Buffer.Contents.{
  IsValid, contents, length-contents, contents-append, append-IsValid,
}
use rpc_framework.Network.Connection.{
  TcpConnection, ConnectionState, disconnected, connecting, connected, disconnecting, WriteResult,
  wrote, write_failed, eagain, epipe, econnreset, close, close_from, handle_close, handle_error,
  connect_destroyed, shutdown_in_loop, queue_rest, after_write, send_open, send_in_loop,
  is_connected, send, destroy_from, send_in_loop_from, flushed_from, after_flush, disconnect,
}

abbrev pub live : ConnectionState → Bool
live disconnected = false
live connecting = true
live connected = true
live disconnecting = true

-- `total` is what was sent. `left` is the part of it that is not written; while the connection lives it is in the
-- output buffer, and the buffer is empty unless the channel waits for room to write.
pub record Flow (c : TcpConnection) (total : Bytes) : Type 0 where
  pub left : Bytes
  pub whole : c.stream ++ left ≡ total
  pub kept : live c.state ≡ true → left ≡ contents c.output
  pub idle : live c.state ≡ true → c.writing ≡ false → contents c.output ≡ []
  pub shut : live c.state ≡ false → c.writing ≡ false
  pub valid : IsValid c.output

module _ (c : TcpConnection) (total : Bytes) (f : Flow c total) where
  close-Flow : Flow (close c) total
  close-Flow = record {
    left = f.left;
    whole = f.whole;
    kept = λ h. cc;
    idle = λ h. cc;
    shut = λ h. refl;
    valid = f.valid;
  }

  pub handle_close-Flow : Flow (handle_close c) total
  unfolding handle_close
  handle_close-Flow = by_state c.state refl
    where
      by_state : (s : ConnectionState) → c.state ≡ s → Flow (close_from s c) total
      by_state disconnected e = f
      by_state connecting e = close-Flow
      by_state connected e = close-Flow
      by_state disconnecting e = close-Flow

  pub handle_error-Flow : (so_error : ℕ) → Flow (handle_error c so_error) total
  unfolding handle_error
  handle_error-Flow so_error =
      if-elim (λ c'. Flow c' total) (so_error == 0) (λ _. f) (λ _. handle_close-Flow)

  -- A rest goes behind what waits in the buffer, or the buffer is empty.
  queue_rest-Flow :
      (message : Bytes) → live c.state ≡ true → Flow (queue_rest c message) (total ++ message)
  unfolding queue_rest
  queue_rest-Flow [] l = subst (Flow c) (sym (append-nil total)) f
  queue_rest-Flow (b ∷ rest) l = record {
    left = contents c.output ++ (b ∷ rest);
    whole =
        sym (append_assoc c.stream (contents c.output) (b ∷ rest))
        ∙ ap (λ (xs : Bytes). (c.stream ++ xs) ++ (b ∷ rest)) (sym (f.kept l))
        ∙ ap (λ (xs : Bytes). xs ++ (b ∷ rest)) f.whole;
    kept = λ h. sym (contents-append c.output (b ∷ rest) f.valid);
    idle = λ h. λ g. cc;
    shut = λ h. cc;
    valid = append-IsValid c.output (b ∷ rest) f.valid;
  }

abbrev pub is_fault : WriteResult → Bool
is_fault (wrote n) = false
is_fault (write_failed e) = not (e == eagain) && (e == epipe || e == econnreset)

-- A message that breaks the connection counts as sent, and stays unwritten.
close-lost :
    (c : TcpConnection) (total message : Bytes) → Flow c total → Flow (close c) (total ++ message)
close-lost c total message f = record {
  left = f.left ++ message;
  whole = sym (append_assoc c.stream f.left message) ∙ ap (λ (xs : Bytes). xs ++ message) f.whole;
  kept = λ h. cc;
  idle = λ h. cc;
  shut = λ h. refl;
  valid = f.valid;
}

module _ (c : TcpConnection) (total : Bytes) (f : Flow c total) (l : live c.state ≡ true) where
  -- What is written at once goes behind all that was written: nothing waits.
  wrote-Flow :
      (src : Bytes)
      → contents c.output ≡ []
      → Flow (record c { stream = c.stream ++ src }) (total ++ src)
  wrote-Flow src nothing =
      let all : c.stream ≡ total =
        sym (append-nil c.stream) ∙ ap (◌++◌ c.stream) (sym (f.kept l ∙ nothing)) ∙ f.whole in
      record {
        left = [];
        whole = append-nil (c.stream ++ src) ∙ ap (λ (xs : Bytes). xs ++ src) all;
        kept = λ h. sym nothing;
        idle = λ h. λ g. nothing;
        shut = f.shut;
        valid = f.valid;
      }

  closes_now :
      (so_error : ℕ) → c.state ≡ connected → so_error ≢ 0 → handle_error c so_error ≡ close c
  unfolding handle_error handle_close
  closes_now so_error s h = ground arith

  after_write-Flow :
      (message : Bytes) (w : WriteResult) (so_error : ℕ)
      → c.state ≡ connected
      → contents c.output ≡ []
      → (is_fault w ≡ true → so_error ≢ 0)
      → Flow (after_write c message w so_error) (total ++ message)
  after_write-Flow message (wrote n) so_error s nothing sound =
      subst (Flow (queue_rest (record c { stream = c.stream ++ take n message }) (drop n message)))
        (append_assoc total (take n message) (drop n message)
          ∙ ap (◌++◌ total) (take-append-drop n message))
        (queue_rest-Flow (record c { stream = c.stream ++ take n message })
          (total ++ take n message) (wrote-Flow (take n message) nothing) (drop n message) l)
  after_write-Flow message (write_failed e) so_error s nothing sound =
      if-elim (λ c'. Flow c' (total ++ message)) (is_fault (write_failed e))
        (λ h.
          subst (λ (c' : TcpConnection). Flow c' (total ++ message))
            (sym (closes_now so_error s (sound h))) (close-lost c total message f))
        (λ _. queue_rest-Flow c total f message l)

  contents_empty : readable_bytes c.output ≡ 0 → contents c.output ≡ []
  contents_empty h = no_bytes (contents c.output) (omega (arith, length-contents c.output f.valid))
    where
      no_bytes : (xs : Bytes) → length xs ≡ 0 → xs ≡ []
      no_bytes [] e = refl
      no_bytes (x ∷ xs) e = ground arith

  send_open-Flow :
      (message : Bytes) (w : WriteResult) (so_error : ℕ)
      → c.state ≡ connected
      → (is_fault w ≡ true → so_error ≢ 0)
      → Flow (send_open c message w so_error) (total ++ message)
  send_open-Flow message w so_error s sound =
      if-elim (λ c'. Flow c' (total ++ message)) (not c.writing && readable_bytes c.output == 0)
        (λ h. after_write-Flow message w so_error s (contents_empty (ground arith)) sound)
        (λ _. queue_rest-Flow c total f message l)

module _ (c : TcpConnection) (total : Bytes) (f : Flow c total) where
  pub shutdown_in_loop-Flow : Flow (shutdown_in_loop c) total
  unfolding shutdown_in_loop
  shutdown_in_loop-Flow =
      if-elim (λ c'. Flow c' total) c.writing (λ _. f)
        (λ _. record {
          left = f.left;
          whole = f.whole;
          kept = f.kept;
          idle = f.idle;
          shut = f.shut;
          valid = f.valid;
        })

  pub disconnect-Flow : Flow (disconnect c) total
  unfolding disconnect
  disconnect-Flow =
      if-elim (λ c'. Flow c' total) (is_connected c.state)
        (λ h. record {
          left = f.left;
          whole = f.whole;
          kept = λ _. f.kept (ground arith);
          idle = λ _. f.idle (ground arith);
          shut = λ e. cc;
          valid = f.valid;
        })
        (λ _. f)

  pub destroyed-Flow : Flow (connect_destroyed c) total
  unfolding connect_destroyed
  destroyed-Flow = by_state c.state
    where
      gone : Flow (record c { state = disconnected; reading = false; writing = false }) total
      gone = record {
        left = f.left;
        whole = f.whole;
        kept = λ h. cc;
        idle = λ h. cc;
        shut = λ h. refl;
        valid = f.valid;
      }

      by_state : (s : ConnectionState) → Flow (destroy_from s c) total
      by_state connected = gone
      by_state disconnected = f
      by_state connecting = f
      by_state disconnecting = f

  pub send-Flow :
      (message : Bytes) (w : WriteResult) (so_error : ℕ)
      → (is_fault w ≡ true → so_error ≢ 0)
      → Flow (send c message w so_error) (total ++ (if is_connected c.state then message else []))
  unfolding send send_in_loop
  send-Flow message w so_error sound = by_state c.state refl
    where
      by_state :
          (s : ConnectionState)
          → c.state ≡ s
          → Flow
              (if is_connected s then send_in_loop_from s c message w so_error else c)
              (total ++ (if is_connected s then message else []))
      by_state connected e = send_open-Flow c total f (ground arith) message w so_error e sound
      by_state disconnected e = subst (Flow c) (sym (append-nil total)) f
      by_state connecting e = subst (Flow c) (sym (append-nil total)) f
      by_state disconnecting e = subst (Flow c) (sym (append-nil total)) f

module _ (c : TcpConnection) (total : Bytes) (f : Flow c total) where
  pub after_flush-Flow : live c.state ≡ true → Flow (after_flush c) total
  after_flush-Flow l =
      if-elim (λ c'. Flow c' total) (readable_bytes c.output == 0)
        (λ h. by_state c.state (contents_empty c total f l (ground arith))) (λ _. f)
    where
      calm : contents c.output ≡ [] → Flow (record c { writing = false }) total
      calm nothing = record {
        left = f.left;
        whole = f.whole;
        kept = f.kept;
        idle = λ _. λ _. nothing;
        shut = λ _. refl;
        valid = f.valid;
      }

      by_state :
          (s : ConnectionState)
          → contents c.output ≡ []
          → Flow (flushed_from s (record c { writing = false })) total
      by_state disconnecting nothing =
          shutdown_in_loop-Flow (record c { writing = false }) total (calm nothing)
      by_state connected nothing = calm nothing
      by_state connecting nothing = calm nothing
      by_state disconnected nothing = calm nothing
