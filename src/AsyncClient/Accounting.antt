-- ===== src/AsyncClient/Accounting.antt =====
-- What becomes of each call.
use rpc_framework.Prelude.{
  ℕ, ◌+◌, ◌≤◌, ◌≡◌, refl, Bool, List, [], ◌∷◌, Option, none, some, arith, ◌==◌, nat_eq, if-elim,
}
use rpc_framework.Prelude.Table.{
  lookup, lookup-insert, lookup-erase, Unique, insert-Unique, erase-Unique,
}
use rpc_framework.Network.Buffer.{Bytes}
use rpc_framework.Codec.Message.{RpcResponse, MsgType, request, response, heartbeat, DecodedPacket}
use rpc_framework.AsyncClient.{
  RpcAsyncClient, Endpoint, deliver, settle_callback, settle_promise, settle, handle_timeout,
  handle_response,
}
use rpc_framework.AsyncClient.Choice.{get_tcp_client, choose, take_turn, picked}
use rpc_framework.AsyncClient.Tally.{
  one_if, answers, held, woken, held-insert, held-erase, woken-drop_first,
}
use rpc_framework.AsyncClient.Calls.{
  Net, write_to, send_via, send_chosen, send_request, submit, run_after, schedule, timeout_loop,
  number_taken, wait_on_promise, wait_on_callback, resume_with, resume, on_packet_as, on_packet,
}

-- Numbers are unique, and those from the next one on are not used.
pub record IsBooked (next : ℕ) (promises callbacks : List (ℕ × ℕ)) : Type 0 where
  pub promises_unique : Unique promises
  pub callbacks_unique : Unique callbacks
  pub promises_fresh : (i : ℕ) → next ≤ i → lookup i promises ≡ none
  pub callbacks_fresh : (i : ℕ) → next ≤ i → lookup i callbacks ≡ none

module _ {R : Type 0} where
  -- What a caller got, and what waits for it.
  abbrev pub tally : ℕ → RpcAsyncClient R → ℕ
  tally who c =
      answers who c.delivered + woken who c.ready + held who c.promises + held who c.callbacks

  abbrev pub IsValid : RpcAsyncClient R → Type 0
  IsValid c = IsBooked c.next_req_id c.promises c.callbacks

  -- A step keeps the client valid, and adds so many to the tally.
  abbrev pub Adds : ℕ → ℕ → RpcAsyncClient R → RpcAsyncClient R → Type 0
  Adds who n c c' = IsValid c' × (tally who c' ≡ tally who c + n)

  pub deliver-Adds :
      (who w : ℕ) (c : RpcAsyncClient R) (resp : RpcResponse)
      → IsValid c
      → Adds who (one_if (w == who)) c (deliver c w resp)
  unfolding answers
  deliver-Adds who w c resp v = (v, omega arith)

  pub number_taken-IsValid : (c : RpcAsyncClient R) → IsValid c → IsValid (number_taken c)
  number_taken-IsValid c v = record {
    promises_unique = v.promises_unique;
    callbacks_unique = v.callbacks_unique;
    promises_fresh = λ i le. v.promises_fresh i (omega arith);
    callbacks_fresh = λ i le. v.callbacks_fresh i (omega arith);
  }

  settle_callback-Adds :
      (who : ℕ) (c : RpcAsyncClient R) (id : ℕ) (resp : RpcResponse) (o : Option ℕ)
      → lookup id c.callbacks ≡ o
      → IsValid c
      → Adds who 0 c (settle_callback c id resp o)
  settle_callback-Adds who c id resp none e v = (v, omega arith)
  settle_callback-Adds who c id resp (some w) e v = (
    record {
      promises_unique = v.promises_unique;
      callbacks_unique = erase-Unique id c.callbacks v.callbacks_unique;
      promises_fresh = v.promises_fresh;
      callbacks_fresh = λ i le. ground (arith, lookup-erase id i c.callbacks, v.callbacks_fresh i);
    },
    unfold answers in omega (arith, held-erase who id w c.callbacks v.callbacks_unique e),
  )

  settle_promise-Adds :
      (who : ℕ) (c : RpcAsyncClient R) (id : ℕ) (resp : RpcResponse) (o : Option ℕ)
      → lookup id c.promises ≡ o
      → IsValid c
      → Adds who 0 c (settle_promise c id resp o)
  settle_promise-Adds who c id resp none e v =
      settle_callback-Adds who c id resp (lookup id c.callbacks) refl v
  settle_promise-Adds who c id resp (some w) e v = (
    record {
      promises_unique = erase-Unique id c.promises v.promises_unique;
      callbacks_unique = v.callbacks_unique;
      promises_fresh = λ i le. ground (arith, lookup-erase id i c.promises, v.promises_fresh i);
      callbacks_fresh = v.callbacks_fresh;
    },
    unfold woken in omega (arith, held-erase who id w c.promises v.promises_unique e),
  )

  settle-Adds :
      (who : ℕ) (c : RpcAsyncClient R) (id : ℕ) (resp : RpcResponse)
      → IsValid c
      → Adds who 0 c (settle c id resp)
  unfolding settle
  settle-Adds who c id resp v = settle_promise-Adds who c id resp (lookup id c.promises) refl v

  pub handle_timeout-Adds :
      (who : ℕ) (c : RpcAsyncClient R) (id : ℕ) → IsValid c → Adds who 0 c (handle_timeout c id)
  unfolding handle_timeout
  handle_timeout-Adds who c id v =
      if-elim (Adds who 0 c) c.destroyed (λ _. (v, omega arith)) (λ _. settle-Adds who _ id _ v)

  pub on_packet-Adds :
      (who : ℕ) (c : RpcAsyncClient R) (packet : DecodedPacket)
      → IsValid c
      → Adds who 0 c (on_packet c packet)
  unfolding on_packet handle_response
  on_packet-Adds who c packet v = by_type packet.msg_type
    where
      by_type : (t : MsgType) → Adds who 0 c (on_packet_as t c packet)
      by_type request = (v, omega arith)
      by_type heartbeat = (v, omega arith)
      by_type response = settle-Adds who _ packet.req_id packet.rpc_response v

  send_chosen-Adds :
      (who : ℕ) (c : RpcAsyncClient R) (net : Net) (id : ℕ) (packet : Bytes) (t : Option ℕ)
      → IsValid c
      → Adds who 0 c (send_chosen (t, c) net id packet)
  send_chosen-Adds who c net id packet t v =
      if-elim (Adds who 0 c) c.disconnecting (λ _. handle_timeout-Adds who c id v) (λ _. via t)
    where
      write : (h : ℕ) (up : Option Bool) → Adds who 0 c (write_to c id packet h up)
      write h none = handle_timeout-Adds who c id v
      write h (some up) = if-elim (Adds who 0 c) up (λ _. (v, omega arith)) (λ _. (v, omega arith))

      via : (t : Option ℕ) → Adds who 0 c (send_via c net id packet t)
      via none = handle_timeout-Adds who c id v
      via (some h) = write h (net h)

  send_request-Adds :
      (who : ℕ) (c : RpcAsyncClient R) (net : Net) (id : ℕ) (packet key : Bytes)
      → IsValid c
      → Adds who 0 c (send_request c net id packet key)
  unfolding send_request get_tcp_client
  send_request-Adds who c net id packet key v = chosen c.endpoints
    where
      turned : (o : Option ℕ) → Adds who 0 c (send_chosen (take_turn c o) net id packet)
      turned none = send_chosen-Adds who _ net id packet _ v
      turned (some t) = send_chosen-Adds who c net id packet (some t) v

      chosen : (es : List Endpoint) → Adds who 0 c (send_chosen (choose c es key) net id packet)
      chosen [] = send_chosen-Adds who c net id packet c.tcp_client v
      chosen (e ∷ es) = turned (picked c.lb_policy c.ring key (e ∷ es))

  pub submit-Adds :
      (who : ℕ) (c : RpcAsyncClient R) (net : Net) (id : ℕ) (packet key : Bytes)
      → IsValid c
      → Adds who 0 c (submit c net id packet key)
  submit-Adds who c net id [] key v = handle_timeout-Adds who c id v
  submit-Adds who c net id (b ∷ packet) key v = send_request-Adds who c net id (b ∷ packet) key v

  -- A timer changes nothing that is accounted for.
  pub schedule-Adds :
      (who n : ℕ) (c c' : RpcAsyncClient R) (timeout_ms id : ℕ)
      → Adds who n c c'
      → Adds who n c (schedule c' timeout_ms id)
  unfolding schedule
  schedule-Adds who n c c' timeout_ms id a = on (timeout_loop c'.loop c'.endpoints)
    where
      on : (l : Option ℕ) → Adds who n c (run_after c' timeout_ms id l)
      on none = a
      on (some l) = if-elim (Adds who n c) (timeout_ms == 0) (λ _. a) (λ _. a)

  pub wait_on_promise-Adds :
      (who w : ℕ) (c : RpcAsyncClient R)
      → IsValid c
      → Adds who (one_if (w == who)) c (wait_on_promise (number_taken c) c.next_req_id w)
  wait_on_promise-Adds who w c v =
      let absent = v.promises_fresh c.next_req_id (omega arith) in
      (
        record {
          promises_unique = insert-Unique c.next_req_id w c.promises v.promises_unique;
          callbacks_unique = v.callbacks_unique;
          promises_fresh = λ i le.
              ground (arith, lookup-insert c.next_req_id i w c.promises, v.promises_fresh i);
          callbacks_fresh = λ i le. v.callbacks_fresh i (omega arith);
        },
        omega (arith, held-insert who c.next_req_id w c.promises absent),
      )

  pub wait_on_callback-Adds :
      (who w : ℕ) (c : RpcAsyncClient R)
      → IsValid c
      → Adds who (one_if (w == who)) c (wait_on_callback (number_taken c) c.next_req_id w)
  wait_on_callback-Adds who w c v =
      let absent = v.callbacks_fresh c.next_req_id (omega arith) in
      (
        record {
          promises_unique = v.promises_unique;
          callbacks_unique = insert-Unique c.next_req_id w c.callbacks v.callbacks_unique;
          promises_fresh = λ i le. v.promises_fresh i (omega arith);
          callbacks_fresh = λ i le.
              ground (arith, lookup-insert c.next_req_id i w c.callbacks, v.callbacks_fresh i);
        },
        omega (arith, held-insert who c.next_req_id w c.callbacks absent),
      )

  pub Adds-trans :
      (who n : ℕ) (c c' c'' : RpcAsyncClient R)
      → Adds who n c c'
      → (IsValid c' → Adds who 0 c' c'')
      → Adds who n c c''
  Adds-trans who n c c' c'' a f = let b = f a.0 in (b.0, omega (arith, a.1, b.1))

  pub resume-Adds : (who : ℕ) (c : RpcAsyncClient R) (w : ℕ) → IsValid c → Adds who 0 c (resume c w)
  unfolding resume
  resume-Adds who c w v = by_ready (lookup w c.ready) refl
    where
      by_ready : (o : Option RpcResponse) → lookup w c.ready ≡ o → Adds who 0 c (resume_with c w o)
      by_ready none e = (v, omega arith)
      by_ready (some resp) e =
          (v, unfold answers in omega (arith, woken-drop_first who w resp c.ready e))
