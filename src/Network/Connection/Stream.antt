-- ===== src/Network/Connection/Stream.antt =====
-- What a connection writes.
use rpc_framework.Prelude.{
  ℕ, zero, suc, ◌≡◌, ◌≢◌, refl, sym, ap, ◌∙◌, true, false, Option, none, some, List, [], ◌∷◌, ◌++◌,
  arith, ◌==◌, if◌then◌else◌, if-elim, take, drop, take-append-drop, subst,
}
use mathlib.Core.List.{append_assoc, append-nil}
use rpc_framework.Network.Buffer.{
  new, Buffer, Bytes, ReadResult, ReadOutcome, count, errno, read_fd, readable_bytes, peek,
  retrieve,
}
use rpc_framework.Network.Buffer.Contents.{
  new-IsValid, contents, contents-retrieve, retrieve-IsValid,
}
use rpc_framework.Network.Connection.Flow.{
  Flow, live, is_fault, handle_close-Flow, handle_error-Flow, shutdown_in_loop-Flow,
  disconnect-Flow, destroyed-Flow, send-Flow, after_flush-Flow,
}
use rpc_framework.Network.Connection.{
  TcpConnection, new_connection, connect_established, consume, WriteResult, wrote, write_failed,
  eagain, is_connected, flush, handle_write, handle_read, after_read, Event, sends, writable,
  readable, disconnects, shuts_down, closes, destroyed, step, run,
}

-- The message that a step sends.
pub sent : TcpConnection → Event → Bytes
sent c (sends message w so_error) = if is_connected c.state then message else []
sent c (writable w so_error) = []
sent c (readable results callback so_error) = []
sent c disconnects = []
sent c shuts_down = []
sent c closes = []
sent c destroyed = []

pub all_sent : TcpConnection → List Event → Bytes
all_sent c [] = []
all_sent c (e ∷ es) = sent c e ++ all_sent (step c e) es

-- A `write` that breaks the pipe leaves an error on the socket.
abbrev pub Sound : Event → Type 0
Sound (sends message w so_error) = is_fault w ≡ true → so_error ≢ 0
Sound _ = Unit {0}

abbrev pub AllSound : List Event → Type 0
AllSound [] = Unit {0}
AllSound (e ∷ es) = Sound e × AllSound es

same : {c : TcpConnection} {total : Bytes} → Flow c total → Flow c (total ++ [])
same {total = total} f = subst (Flow _) (sym (append-nil total)) f

drop-nil : (n : ℕ) (xs : Bytes) → xs ≡ [] → drop n xs ≡ []
drop-nil zero xs h = h
drop-nil (suc n) [] h = refl
drop-nil (suc n) (x ∷ xs) h = ground arith

module _ (c : TcpConnection) (total : Bytes) (f : Flow c total) where
  moved :
      (n : ℕ)
      → live c.state ≡ true
      → Flow
          (record c {
            stream = c.stream ++ take n (take (readable_bytes c.output) (peek c.output));
            output = retrieve c.output n;
          })
          total
  unfolding readable_bytes peek
  moved n l = record {
    left = drop n (contents c.output);
    whole =
        append_assoc c.stream (take n (contents c.output)) (drop n (contents c.output))
        ∙ ap (◌++◌ c.stream) (take-append-drop n (contents c.output) ∙ sym (f.kept l))
        ∙ f.whole;
    kept = λ _. sym (contents-retrieve c.output n f.valid);
    idle = λ g.
        λ h. contents-retrieve c.output n f.valid ∙ drop-nil n (contents c.output) (f.idle l h);
    shut = f.shut;
    valid = retrieve-IsValid c.output n f.valid;
  }

  handle_write-Flow : (w : WriteResult) (so_error : ℕ) → Flow (handle_write c w so_error) total
  unfolding handle_write
  handle_write-Flow w so_error =
      if-elim (λ c'. Flow c' total) c.writing (λ h. flush-Flow w so_error (ground (arith, f.shut)))
        (λ _. f)
    where
      flush-Flow :
          (w : WriteResult) (so_error : ℕ) → live c.state ≡ true → Flow (flush c w so_error) total
      flush-Flow (wrote n) so_error l =
          if-elim (λ c'. Flow c' total) (n == 0) (λ _. handle_error-Flow c total f so_error)
            (λ _. after_flush-Flow _ total (moved n l) l)
      flush-Flow (write_failed e) so_error l =
          if-elim (λ c'. Flow c' total) (e == eagain) (λ _. f)
            (λ _. handle_error-Flow c total f so_error)

  handle_read-Flow :
      (results : List ReadResult) (callback : Option (Buffer → Buffer)) (so_error : ℕ)
      → Flow (handle_read c results callback so_error) total
  unfolding handle_read
  handle_read-Flow results callback so_error = after (read_fd c.input results)
    where
      input-Flow : (b : Buffer) → Flow (record c { input = b }) total
      input-Flow b = record {
        left = f.left;
        whole = f.whole;
        kept = f.kept;
        idle = f.idle;
        shut = f.shut;
        valid = f.valid;
      }

      after : (r : Option (ReadOutcome × Buffer)) → Flow (after_read c callback so_error r) total
      after none = f
      after (some (errno e, b)) = handle_error-Flow _ total (input-Flow b) so_error
      after (some (count n, b)) =
          if-elim (λ c'. Flow c' total) (n == 0) (λ _. handle_close-Flow _ total (input-Flow b))
            (λ _. input-Flow (consume callback b))

step-Flow :
    (c : TcpConnection) (e : Event) (total : Bytes)
    → Sound e
    → Flow c total
    → Flow (step c e) (total ++ sent c e)
unfolding step sent
step-Flow c (sends message w so_error) total sound f = send-Flow c total f message w so_error sound
step-Flow c (writable w so_error) total sound f = same (handle_write-Flow c total f w so_error)
step-Flow c (readable results callback so_error) total sound f =
    same (handle_read-Flow c total f results callback so_error)
step-Flow c disconnects total sound f = same (disconnect-Flow c total f)
step-Flow c shuts_down total sound f = same (shutdown_in_loop-Flow c total f)
step-Flow c closes total sound f = same (handle_close-Flow c total f)
step-Flow c destroyed total sound f = same (destroyed-Flow c total f)

run-Flow :
    (c : TcpConnection) (es : List Event) (total : Bytes)
    → AllSound es
    → Flow c total
    → Flow (run c es) (total ++ all_sent c es)
unfolding run all_sent
run-Flow c [] total sound f = same f
run-Flow c (e ∷ es) total sound f =
    subst (Flow (run (step c e) es)) (append_assoc total (sent c e) (all_sent (step c e) es))
      (run-Flow (step c e) es (total ++ sent c e) sound.1 (step-Flow c e total sound.0 f))

-- Any steps on a connection that was just established, where each `write` that breaks the pipe
-- leaves an error on the socket: what was written, and after it some bytes, is exactly the sent
-- messages in order; while the connection lives those bytes are the ones that its output buffer
-- holds, and if it does not wait for the socket to take more there are none.
pub stream_in_order :
    (es : List Event)
    → AllSound es
    → let c = connect_established new_connection in
      let d = run c es in
      (left : Bytes) × (d.stream ++ left ≡ all_sent c es)
      × (live d.state ≡ true → left ≡ contents d.output)
      × (live d.state ≡ true → d.writing ≡ false → left ≡ [])
unfolding connect_established new
stream_in_order es sound =
    let f = run-Flow (connect_established new_connection) es [] sound fresh in
    (f.left, f.whole, f.kept, λ l. λ h. f.kept l ∙ f.idle l h)
  where
    fresh : Flow (connect_established new_connection) []
    fresh = record {
      left = [];
      whole = refl;
      kept = λ _. refl;
      idle = λ _. λ _. refl;
      shut = λ _. refl;
      valid = new-IsValid;
    }
