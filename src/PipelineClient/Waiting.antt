-- ===== src/PipelineClient/Waiting.antt =====
-- The numbers of the requests, and how long the client sleeps.
use rpc_framework.Prelude.{
  ℕ, ◌+◌, ◌-◌, ◌*◌, ◌≤◌, ◌<◌, ◌≡◌, refl, true, false, List, [], ◌∷◌, Option, none, some, arith,
  ◌==◌, ltb, if◌then◌else◌, nat_eq,
}
use rpc_framework.Prelude.Table.{lookup}
use rpc_framework.Network.Buffer.{Bytes}
use rpc_framework.Codec.Message.{MsgType, request, response, heartbeat, DecodedPacket, Protobuf}
use rpc_framework.Codec.Encode.{encode_request}
use rpc_framework.PipelineClient.{
  Pending, PipelineClient, submit_packet, submit, complete, on_packet_as, on_packet, sweep_timeouts,
  earliest, next_wait_ms, millisecond, max_wait,
}
use rpc_framework.PipelineClient.Accounting.{
  Event, submits, receives, sweeps, step, taken, all_taken,
}

complete-next_id :
    (c : PipelineClient) (now : ℕ) (packet : DecodedPacket) (o : Option Pending)
    → (complete c now packet o).0.next_id ≡ c.next_id
complete-next_id c now packet none = refl
complete-next_id c now packet (some p) = refl

on_packet-next_id :
    (c : PipelineClient) (now : ℕ) (packet : DecodedPacket)
    → (on_packet c now packet).0.next_id ≡ c.next_id
unfolding on_packet
on_packet-next_id c now packet = by_type packet.msg_type
  where
    by_type : (t : MsgType) → (on_packet_as t c now packet).0.next_id ≡ c.next_id
    by_type request = refl
    by_type heartbeat = refl
    by_type response = complete-next_id c now packet (lookup packet.req_id c.pending)

module _ (proto : Protobuf) (i : ℕ) where
  -- A number is used up before the next one, and a submission takes on the next one only.
  step-next_id :
      (c : PipelineClient) (e : Event)
      → (c.next_id + taken proto i c e ≤ (step proto c e).0.next_id)
        × (taken proto i c e ≤ 1)
        × (1 ≤ taken proto i c e → c.next_id ≡ i)
  unfolding step taken submit
  step-next_id c (submits false req service method timeout now) = ground arith
  step-next_id c (submits true req service method timeout now) =
      by_packet (encode_request proto req c.next_id service method)
    where
      by_packet :
          (packet : Bytes)
          → let s = submit_packet c timeout now packet in
            let t : ℕ = if s.0 then (if c.next_id == i then 1 else 0) else 0 in
            (c.next_id + t ≤ s.1.next_id) × (t ≤ 1) × (1 ≤ t → c.next_id ≡ i)
      by_packet [] = ground arith
      by_packet (b ∷ packet) = ground arith
  step-next_id c (receives now packet) =
      (omega (arith, on_packet-next_id c now packet), omega arith, λ h. omega arith)
  step-next_id c (sweeps now) =
      unfold sweep_timeouts in (omega arith, omega arith, λ h. omega arith)

  -- A number is taken on at most once, and a number before the next one is not taken on again.
  pub all_taken-once :
      (c : PipelineClient) (es : List Event)
      → (all_taken proto i c es ≤ 1) × (i < c.next_id → all_taken proto i c es ≡ 0)
  unfolding all_taken
  all_taken-once c [] = (omega arith, λ h. refl)
  all_taken-once c (e ∷ es) =
      let (grows, one, its) = step-next_id c e in
      let ih = all_taken-once (step proto c e).0 es in grind (arith, grows, one, its, ih)

-- A pending request.
pub data Holds : List (ℕ × Pending) → Pending → Type 0 where
  here : {i : ℕ} {p : Pending} {pending : List (ℕ × Pending)} → Holds ((i, p) ∷ pending) p
  there :
      {e : ℕ × Pending} {p : Pending} {pending : List (ℕ × Pending)}
      → Holds pending p
      → Holds (e ∷ pending) p

earliest-le : (best : ℕ) (pending : List (ℕ × Pending)) → earliest best pending ≤ best
earliest-le best [] = omega arith
earliest-le best ((i, p) ∷ pending) =
    let next = if ltb p.deadline best then p.deadline else best in
    let le : next ≤ best = ground arith in omega (arith, earliest-le next pending)

earliest-Holds :
    (best : ℕ) (pending : List (ℕ × Pending)) (p : Pending)
    → Holds pending p
    → earliest best pending ≤ p.deadline
earliest-Holds best [] p h = elim h [ ]
earliest-Holds best ((i, q) ∷ pending) p here =
    let next = if ltb q.deadline best then q.deadline else best in
    let le : next ≤ q.deadline = ground arith in omega (arith, earliest-le next pending)
earliest-Holds best ((i, q) ∷ pending) p (there h) =
    earliest-Holds (if ltb q.deadline best then q.deadline else best) pending p h

soonest :
    {i : ℕ} (q : Pending) (pending : List (ℕ × Pending)) (p : Pending)
    → Holds ((i, q) ∷ pending) p
    → earliest q.deadline pending ≤ p.deadline
soonest q pending p here = earliest-le q.deadline pending
soonest q pending p (there h) = earliest-Holds q.deadline pending p h

-- The wait that `epoll_wait` is given ends no later than the deadline of any pending request that is
-- still to come, is none for a deadline that has passed, and never is more than an hour.
pub next_wait_ms-in_time :
    (pending : List (ℕ × Pending)) (now : ℕ) (p : Pending)
    → Holds pending p
    → (next_wait_ms pending now * millisecond ≤ p.deadline - now)
      × (next_wait_ms pending now ≤ max_wait)
unfolding next_wait_ms
next_wait_ms-in_time [] now p h = elim h [ ]
next_wait_ms-in_time ((i, q) ∷ pending) now p h =
    let soon = soonest q pending p h in omega (arith, soon)
