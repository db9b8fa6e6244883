-- ===== src/InlineSyncClient/Outcome.antt =====
-- What a call returns, from what the rounds bring.
use rpc_framework.Prelude.{
  ℕ, ◌+◌, ◌*◌, ◌≤◌, ◌≡◌, refl, ap, sym, subst, ◌∙◌, ◌⊎◌, Bool, true, false, not, ◌&&◌, List, [],
  ◌∷◌, Option, none, some, arith, ◌==◌, if◌then◌else◌, if-elim, Bool-cases, inl, inr, nat_eq,
}
use rpc_framework.Network.Buffer.{Bytes}
use rpc_framework.Codec.Message.{
  RpcRequest, RpcResponse, MsgType, request, response, heartbeat, DecodedPacket, Protobuf,
}
use rpc_framework.Codec.Encode.{encode_request}
use rpc_framework.PipelineClient.{ms_until, millisecond, request_timeout}
use rpc_framework.InlineSyncClient.{
  InlineSyncClient, Happening, connection, packet, error_response, connection_closed, not_connected,
  encode_failed, on_connection, on_packet, on_packet_as, happen, loop_once, Round, Returned, leave,
  await, begin_call, send_and_await, call,
}

abbrev pub answer_as : MsgType → ℕ → DecodedPacket → Option RpcResponse
answer_as request id p = none
answer_as heartbeat id p = none
answer_as response id p = if p.req_id == id then some p.rpc_response else none

-- What answers a call: a response with its number, or the end of the connection.
abbrev pub answer : ℕ → Happening → Option RpcResponse
answer id (connection true) = none
answer id (connection false) = some (error_response connection_closed)
answer id (packet p) = answer_as p.msg_type id p

abbrev pub or_else : Option RpcResponse → Option RpcResponse → Option RpcResponse
or_else none later = later
or_else (some resp) later = some resp

pub first_answer : ℕ → List Happening → Option RpcResponse
first_answer id [] = none
first_answer id (h ∷ hs) = or_else (answer id h) (first_answer id hs)

-- The first answer in a round before the deadline, or else the timeout.
pub outcome : ℕ → ℕ → List Round → Option RpcResponse
outcome deadline id [] = none
outcome deadline id ((now, hs) ∷ rounds) =
    if ms_until deadline now == 0
    then some (error_response request_timeout)
    else or_else (first_answer id hs) (outcome deadline id rounds)

abbrev pub response_of : Returned → Option RpcResponse
response_of none = none
response_of (some (resp, c)) = some resp

-- A client that waits for a number, and one that has its answer.
abbrev IsAfter : ℕ → InlineSyncClient → Option RpcResponse → Type 0
IsAfter id c none = (c.pending_id ≡ id) × (c.done ≡ false)
IsAfter id c (some resp) = (c.done ≡ true) × (c.result ≡ resp)

on_packet_as-IsAfter :
    (t : MsgType) (id : ℕ) (c : InlineSyncClient) (p : DecodedPacket)
    → IsAfter id c none
    → IsAfter id (on_packet_as t c p) (answer_as t id p)
on_packet_as-IsAfter request id c p w = w
on_packet_as-IsAfter heartbeat id c p w = w
on_packet_as-IsAfter response id c p (own, waits) = elim (Bool-cases (p.req_id == id)) [
  | inl mine ↦ rw mine (
      if-elim (λ (x : InlineSyncClient). IsAfter id x (some p.rpc_response))
        (p.req_id == c.pending_id && not c.done) (λ _. (refl, refl))
        (λ no. let no : ⊥ = ground arith in elim no [ ]))
  | inr other ↦ rw other (
      if-elim (λ (x : InlineSyncClient). IsAfter id x none) (p.req_id == c.pending_id && not c.done)
        (λ yes. let no : ⊥ = ground arith in elim no [ ]) (λ _. (own, waits)))
]

happen-IsAfter :
    (id : ℕ) (c : InlineSyncClient) (h : Happening)
    → 1 ≤ id
    → IsAfter id c none
    → IsAfter id (happen c h) (answer id h)
unfolding on_connection on_packet
happen-IsAfter id c (connection true) le w = ground arith
happen-IsAfter id c (connection false) le (own, waits) =
    if-elim (λ (x : InlineSyncClient). IsAfter id x (some (error_response connection_closed)))
      (not (c.pending_id == 0) && not c.done) (λ _. (refl, refl))
      (λ no. let no : ⊥ = ground arith in elim no [ ])
happen-IsAfter id c (packet p) le w = on_packet_as-IsAfter p.msg_type id c p w

-- A client that has its answer keeps it.
on_packet_as-done :
    (t : MsgType) (id : ℕ) (c : InlineSyncClient) (p : DecodedPacket) (resp : RpcResponse)
    → IsAfter id c (some resp)
    → IsAfter id (on_packet_as t c p) (some resp)
on_packet_as-done request id c p resp h = h
on_packet_as-done heartbeat id c p resp h = h
on_packet_as-done response id c p resp (done, same) =
    if-elim (λ (x : InlineSyncClient). IsAfter id x (some resp))
      (p.req_id == c.pending_id && not c.done) (λ yes. let no : ⊥ = ground arith in elim no [ ])
      (λ _. (done, same))

happen-done :
    (id : ℕ) (c : InlineSyncClient) (h : Happening) (resp : RpcResponse)
    → IsAfter id c (some resp)
    → IsAfter id (happen c h) (some resp)
unfolding on_connection on_packet
happen-done id c (connection up) resp (done, same) =
    if-elim (λ (x : InlineSyncClient). IsAfter id x (some resp))
      (not up && (not (c.pending_id == 0) && not c.done))
      (λ yes. let no : ⊥ = ground arith in elim no [ ]) (λ _. (done, same))
happen-done id c (packet p) resp h = on_packet_as-done p.msg_type id c p resp h

loop_once-done :
    (id : ℕ) (c : InlineSyncClient) (hs : List Happening) (resp : RpcResponse)
    → IsAfter id c (some resp)
    → IsAfter id (loop_once c hs) (some resp)
unfolding loop_once
loop_once-done id c [] resp a = a
loop_once-done id c (h ∷ hs) resp a =
    loop_once-done id (happen c h) hs resp (happen-done id c h resp a)

loop_once-IsAfter :
    (id : ℕ) (c : InlineSyncClient) (hs : List Happening)
    → 1 ≤ id
    → IsAfter id c none
    → IsAfter id (loop_once c hs) (first_answer id hs)
unfolding loop_once first_answer
loop_once-IsAfter id c [] le w = w
loop_once-IsAfter id c (h ∷ hs) le w =
    by_answer (answer id h) (happen-IsAfter id c h le w)
      (λ v. loop_once-IsAfter id (happen c h) hs le v)
  where
    by_answer :
        (o : Option RpcResponse)
        → IsAfter id (happen c h) o
        → (IsAfter id (happen c h) none
            → IsAfter id (loop_once (happen c h) hs) (first_answer id hs))
        → IsAfter id (loop_once (happen c h) hs) (or_else o (first_answer id hs))
    by_answer none a rest = rest a
    by_answer (some resp) a rest = loop_once-done id (happen c h) hs resp a

await-done :
    (deadline id : ℕ) (c : InlineSyncClient) (rounds : List Round) (resp : RpcResponse)
    → IsAfter id c (some resp)
    → response_of (await deadline c rounds) ≡ some resp
unfolding await
await-done deadline id c [] resp (done, same) =
    if-elim (λ (r : Returned). response_of r ≡ some resp) c.done (λ _. ap some same)
      (λ h. let no : ⊥ = cc in elim no [ ])
await-done deadline id c ((now, hs) ∷ rounds) resp (done, same) =
    if-elim (λ (r : Returned). response_of r ≡ some resp) c.done (λ _. ap some same)
      (λ h. let no : ⊥ = cc in elim no [ ])

-- The rest of a wait after a round with an answer, and after one without.
await-after :
    (deadline id : ℕ) (c : InlineSyncClient) (rounds : List Round) (o later : Option RpcResponse)
    → IsAfter id c o
    → (IsAfter id c none → response_of (await deadline c rounds) ≡ later)
    → response_of (await deadline c rounds) ≡ or_else o later
await-after deadline id c rounds none later a rest = rest a
await-after deadline id c rounds (some resp) later a rest = await-done deadline id c rounds resp a

await-outcome :
    (deadline id : ℕ) (c : InlineSyncClient) (rounds : List Round)
    → 1 ≤ id
    → IsAfter id c none
    → response_of (await deadline c rounds) ≡ outcome deadline id rounds
unfolding await outcome
await-outcome deadline id c [] le (own, waits) =
    if-elim (λ (r : Returned). response_of r ≡ none) c.done (λ h. let no : ⊥ = cc in elim no [ ])
      (λ _. refl)
await-outcome deadline id c ((now, hs) ∷ rounds) le (own, waits) =
    let late = ms_until deadline now == 0 in
    let timeout = error_response request_timeout in
    let later = or_else (first_answer id hs) (outcome deadline id rounds) in
    let go =
      await-after deadline id (loop_once c hs) rounds (first_answer id hs)
        (outcome deadline id rounds) (loop_once-IsAfter id c hs le (own, waits))
        (λ v. await-outcome deadline id (loop_once c hs) rounds le v) in
    if-elim (λ (r : Returned). response_of r ≡ (if late then some timeout else later)) c.done
      (λ h. let no : ⊥ = cc in elim no [ ])
      (λ _.
        both late (leave c timeout) (await deadline (loop_once c hs) rounds) timeout later refl go)
  where
    both :
        (b : Bool) (r r' : Returned) (resp : RpcResponse) (later : Option RpcResponse)
        → response_of r ≡ some resp
        → response_of r' ≡ later
        → response_of (if b then r else r') ≡ (if b then some resp else later)
    both true r r' resp later e e' = e
    both false r r' resp later e e' = e'

-- On a connection that is up, with a request that can be encoded, and whatever earlier calls have left behind: a
-- call returns the first answer to it that a round before its deadline brings, a response with its number
-- or the end of the connection, and otherwise the timeout at its first round that is too late.
-- Responses with other numbers, such as late ones to earlier calls, do not count.
pub call-outcome :
    (proto : Protobuf) (c : InlineSyncClient) (service method : Bytes) (req : RpcRequest)
    (timeout_ms start : ℕ) (rounds : List Round) (b : ℕ) (bytes : Bytes)
    → 1 ≤ c.next_id
    → encode_request proto req c.next_id service method ≡ b ∷ bytes
    → let r = call proto c true service method req timeout_ms start rounds in
      (response_of r.0 ≡ outcome (start + timeout_ms * millisecond) c.next_id rounds)
      × (r.1 ≡ (b ∷ bytes) ∷ [])
unfolding call
call-outcome proto c service method req timeout_ms start rounds b bytes le encoded =
    let deadline = start + timeout_ms * millisecond in
    subst
      (λ (p : Bytes).
        (response_of (send_and_await deadline (begin_call c) p rounds).0
          ≡ outcome deadline c.next_id rounds)
        × ((send_and_await deadline (begin_call c) p rounds).1 ≡ (b ∷ bytes) ∷ []))
      (sym encoded) (await-outcome deadline c.next_id (begin_call c) rounds le (refl, refl), refl)

-- A round starts at the deadline or after it.
abbrev pub SomeLate : ℕ → List Round → Type 0
SomeLate deadline [] = ⊥
SomeLate deadline ((now, hs) ∷ rounds) = (deadline ≤ now) ⊎ SomeLate deadline rounds

outcome-some :
    (deadline id : ℕ) (rounds : List Round)
    → SomeLate deadline rounds
    → (resp : RpcResponse) × (outcome deadline id rounds ≡ some resp)
unfolding outcome
outcome-some deadline id [] late = elim late [ ]
outcome-some deadline id ((now, hs) ∷ rounds) (inl le) =
    (error_response request_timeout, ground arith)
outcome-some deadline id ((now, hs) ∷ rounds) (inr late) =
    if-elim (λ (o : Option RpcResponse). (resp : RpcResponse) × (o ≡ some resp))
      (ms_until deadline now == 0) (λ _. (error_response request_timeout, refl))
      (λ _. first (first_answer id hs) (outcome-some deadline id rounds late))
  where
    first :
        (o : Option RpcResponse)
        → ((resp : RpcResponse) × (outcome deadline id rounds ≡ some resp))
        → (resp : RpcResponse) × (or_else o (outcome deadline id rounds) ≡ some resp)
    first none rest = rest
    first (some resp) rest = (resp, refl)

-- No call waits for ever: it returns once a round starts at its deadline or later, also on a connection
-- that brings nothing, and it does not matter whether it is connected or its request can be
-- encoded.
pub call-returns :
    (proto : Protobuf) (c : InlineSyncClient) (up : Bool) (service method : Bytes)
    (req : RpcRequest) (timeout_ms start : ℕ) (rounds : List Round)
    → 1 ≤ c.next_id
    → SomeLate (start + timeout_ms * millisecond) rounds
    → (resp : RpcResponse) × (response_of
          (call proto c up service method req timeout_ms start rounds).0
        ≡ some resp)
unfolding call
call-returns proto c false service method req timeout_ms start rounds le late =
    (error_response not_connected, refl)
call-returns proto c true service method req timeout_ms start rounds le late =
    by_packet (encode_request proto req c.next_id service method)
  where
    by_packet :
        (p : Bytes)
        → (resp : RpcResponse) × (response_of
              (send_and_await (start + timeout_ms * millisecond) (begin_call c) p rounds).0
            ≡ some resp)
    by_packet [] = (error_response encode_failed, refl)
    by_packet (b ∷ bytes) =
        let deadline = start + timeout_ms * millisecond in
        let (resp, e) = outcome-some deadline c.next_id rounds late in
        (resp, await-outcome deadline c.next_id (begin_call c) rounds le (refl, refl) ∙ e)
