-- ===== src/PipelineClient.antt =====
-- src/client/inline_pipeline_client.cc: the client that sends, receives and times out its requests in one
-- thread. A completion callback is known by the number of its request; a completion is that
-- number with the response and the latency that the callback gets. Times are nanoseconds of the
-- steady clock. There are fewer than 2 ^ 64 requests, so numbers are not reused.
pub mod Accounting
pub mod Waiting
use rpc_framework.Prelude.{
  ℕ, zero, suc, ◌+◌, ◌-◌, ◌*◌, ◌/◌, ◌≤◌, Bool, true, false, List, [], ◌∷◌, ◌++◌, Option, none, some,
  ltb, leb, ◌==◌, if◌then◌else◌, min, nat_eq,
}
use rpc_framework.Prelude.Table.{lookup, insert, erase, remove_if}
use rpc_framework.Network.Buffer.{Buffer, Bytes}
use rpc_framework.Codec.Message.{
  RpcRequest, RpcResponse, MsgType, request, response, heartbeat, DecodedPacket, Protobuf,
}
use rpc_framework.Codec.Encode.{encode_request}
use rpc_framework.Codec.Decode.{decode, Decoded}

pub record Pending : Type 0 where
  pub sent_at : ℕ
  pub deadline : ℕ

pub record PipelineClient : Type 0 where
  pub pending : List (ℕ × Pending)
  pub next_id : ℕ

pub record Completion : Type 0 where
  pub id : ℕ
  pub resp : RpcResponse
  pub latency : ℕ

abbrev pub new_client : PipelineClient
new_client = record { pending = []; next_id = 1 }

abbrev pub millisecond : ℕ
millisecond = 1_000_000

abbrev pub default_timeout : ℕ
default_timeout = 3000

abbrev pub max_wait : ℕ
max_wait = 3600 * 1000

-- The milliseconds up to the deadline, at most an hour.
abbrev pub ms_until : ℕ → ℕ → ℕ
ms_until deadline now = min ((deadline - now) / millisecond) max_wait

abbrev pub request_timeout : Bytes
request_timeout =
    114 ∷ 101 ∷ 113 ∷ 117 ∷ 101 ∷ 115 ∷ 116 ∷ 32 ∷ 116 ∷ 105 ∷ 109 ∷ 101 ∷ 111 ∷ 117 ∷ 116 ∷ []

abbrev pub make_timeout_response : RpcResponse
make_timeout_response = record { success = false; payload = []; error_msg = request_timeout }

-- The deadline of a request; a timeout that is not positive stands for the default.
abbrev pub pending_at : ℕ → ℕ → Pending
pending_at now timeout_ms = record {
  sent_at = now;
  deadline = now + (if timeout_ms == 0 then default_timeout else timeout_ms) * millisecond;
}

abbrev pub Submitted : Type 0
Submitted = Bool × PipelineClient × List Bytes

-- `emplace` leaves an entry that is there.
abbrev pub emplace : ℕ → Pending → List (ℕ × Pending) → Option Pending → List (ℕ × Pending)
emplace id p pending none = insert id p pending
emplace id p pending (some old) = pending

-- After the encoding: an empty packet is an error, and the number is used up.
abbrev pub submit_packet : PipelineClient → ℕ → ℕ → Bytes → Submitted
submit_packet c timeout_ms now [] = (false, record c { next_id = suc c.next_id }, [])
submit_packet c timeout_ms now (b ∷ packet) = (
  true,
  record c {
    next_id = suc c.next_id;
    pending = emplace c.next_id (pending_at now timeout_ms) c.pending (lookup c.next_id c.pending);
  },
  (b ∷ packet) ∷ [],
)

abbrev pub Progress : Type 0
Progress = PipelineClient × List Completion

abbrev pub complete : PipelineClient → ℕ → DecodedPacket → Option Pending → Progress
complete c now packet none = (c, [])
complete c now packet (some p) = (
  record c { pending = erase packet.req_id c.pending },
  record { id = packet.req_id; resp = packet.rpc_response; latency = now - p.sent_at } ∷ [],
)

abbrev pub on_packet_as : MsgType → PipelineClient → ℕ → DecodedPacket → Progress
on_packet_as request c now packet = (c, [])
on_packet_as heartbeat c now packet = (c, [])
on_packet_as response c now packet = complete c now packet (lookup packet.req_id c.pending)

-- The body of the loop: a response to a pending request completes it.
unfoldable pub on_packet : PipelineClient → ℕ → DecodedPacket → Progress
on_packet c now packet = on_packet_as packet.msg_type c now packet

-- The timed out requests, in the table's order.
unfoldable pub timed_out : ℕ → List (ℕ × Pending) → List Completion
timed_out now [] = []
timed_out now ((id, p) ∷ pending) =
    let rest = timed_out now pending in
    if leb p.deadline now
    then record { id = id; resp = make_timeout_response; latency = now - p.sent_at } ∷ rest
    else rest

unfoldable pub sweep_timeouts : PipelineClient → ℕ → Progress
sweep_timeouts c now =
    (record c { pending = remove_if (λ p. leb p.deadline now) c.pending }, timed_out now c.pending)

-- The least deadline; `best` is the least so far.
abbrev pub earliest : ℕ → List (ℕ × Pending) → ℕ
earliest best [] = best
earliest best ((id, p) ∷ pending) =
    earliest (if ltb p.deadline best then p.deadline else best) pending

unfoldable pub next_wait_ms : List (ℕ × Pending) → ℕ → ℕ
next_wait_ms [] now = 1000
next_wait_ms ((id, p) ∷ pending) now = ms_until (earliest p.deadline pending) now

abbrev pub completes_before :
    List Completion → Option (Progress × Buffer) → Option (Progress × Buffer)
completes_before done none = none
completes_before done (some ((c, rest), buf)) = some ((c, done ++ rest), buf)

module _ (proto : Protobuf) where
  unfoldable pub submit : PipelineClient → Bool → RpcRequest → Bytes → Bytes → ℕ → ℕ → Submitted
  submit c false req service method timeout_ms now = (false, c, [])
  submit c true req service method timeout_ms now =
      submit_packet c timeout_ms now (encode_request proto req c.next_id service method)

  -- The `while` loop of `onMessage` for at most the given count of rounds.
  unfoldable pub rounds : ℕ → PipelineClient → (ℕ → ℕ) → Decoded → Option (Progress × Buffer)
  rounds n c time (false, buf, packet) = some ((c, []), buf)
  rounds zero c time (true, buf, packet) = none
  rounds (suc n) c time (true, buf, packet) =
      let after = on_packet c (time n) packet in
      completes_before after.1 (rounds n after.0 time (decode proto buf packet))
