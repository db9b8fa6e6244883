-- ===== src/PipelineClient/Accounting.antt =====
-- What becomes of each request that was taken on.
use rpc_framework.Prelude.{
  ℕ, ◌+◌, ◌≤◌, ◌≡◌, refl, ap, ◌∙◌, Bool, true, false, List, [], ◌∷◌, ◌++◌, Option, none, some,
  arith, ◌==◌, leb, if◌then◌else◌, nat_eq,
}
use rpc_framework.Prelude.Table.{
  lookup, remove_if, lookup-insert, lookup-erase, lookup-remove_if, unless, Unique, insert-Unique,
  erase-Unique, remove_if-Unique,
}
use rpc_framework.Network.Buffer.{Bytes}
use rpc_framework.Codec.Message.{
  RpcRequest, MsgType, request, response, heartbeat, DecodedPacket, Protobuf,
}
use rpc_framework.Codec.Encode.{encode_request}
use rpc_framework.PipelineClient.{
  Pending, PipelineClient, Completion, new_client, Submitted, submit_packet, submit, Progress,
  complete, on_packet_as, on_packet, timed_out, sweep_timeouts, pending_at,
}

-- How many completions there are of a request.
pub count_id : ℕ → List Completion → ℕ
count_id i [] = 0
count_id i (d ∷ done) = (if d.id == i then 1 else 0) + count_id i done

abbrev pub one_if : Option Pending → ℕ
one_if none = 0
one_if (some p) = 1

-- 1 for a pending request.
pub waiting : ℕ → List (ℕ × Pending) → ℕ
waiting i pending = one_if (lookup i pending)

count_id-append :
    (i : ℕ) (xs ys : List Completion) → count_id i (xs ++ ys) ≡ count_id i xs + count_id i ys
unfolding count_id
count_id-append i [] ys = omega arith
count_id-append i (d ∷ xs) ys = omega (arith, count_id-append i xs ys)

timed_out-balance :
    (i now : ℕ) (pending : List (ℕ × Pending))
    → Unique pending
    → count_id i (timed_out now pending) + waiting i (remove_if (λ p. leb p.deadline now) pending)
      ≡ waiting i pending
unfolding count_id waiting timed_out remove_if lookup
timed_out-balance i now [] u = refl
timed_out-balance i now ((j, p) ∷ pending) u = ground (arith, timed_out-balance i now pending u.1)

complete-balance :
    (i now : ℕ) (c : PipelineClient) (packet : DecodedPacket) (o : Option Pending)
    → lookup packet.req_id c.pending ≡ o
    → count_id i (complete c now packet o).1 + waiting i (complete c now packet o).0.pending
      ≡ waiting i c.pending
unfolding count_id waiting
complete-balance i now c packet none e = omega arith
complete-balance i now c packet (some p) e = ground (arith, lookup-erase packet.req_id i c.pending)

-- What the caller and the network do.
pub data Event : Type 0 where
  submits : Bool → RpcRequest → Bytes → Bytes → ℕ → ℕ → Event
  receives : ℕ → DecodedPacket → Event
  sweeps : ℕ → Event

-- No number from the next one on is pending, and each has one entry.
pub record IsValid (c : PipelineClient) : Type 0 where
  pub unique : Unique c.pending
  pub fresh : (i : ℕ) → c.next_id ≤ i → lookup i c.pending ≡ none

-- What a submission does to the table: it adds a number that was not in it, or nothing.
submit_packet-adds :
    (c : PipelineClient) (timeout now : ℕ) (packet : Bytes)
    → IsValid c
    → IsValid (submit_packet c timeout now packet).1
      × ((i : ℕ)
          → waiting i (submit_packet c timeout now packet).1.pending
            ≡ waiting i c.pending
              + (if (submit_packet c timeout now packet).0
                  then (if c.next_id == i then 1 else 0)
                  else 0))
unfolding waiting
submit_packet-adds c timeout now [] v =
    (record { unique = v.unique; fresh = λ i le. v.fresh i (omega arith) }, λ i. omega arith)
submit_packet-adds c timeout now (b ∷ packet) v =
    let absent = v.fresh c.next_id (omega arith) in
    rw absent (
      record {
        unique = insert-Unique c.next_id (pending_at now timeout) c.pending v.unique;
        fresh = λ i le.
            ground (arith, lookup-insert c.next_id i (pending_at now timeout) c.pending, v.fresh i);
      },
      λ i. ground (arith, lookup-insert c.next_id i (pending_at now timeout) c.pending, absent),
    )

complete-IsValid :
    (c : PipelineClient) (now : ℕ) (packet : DecodedPacket) (o : Option Pending)
    → IsValid c
    → IsValid (complete c now packet o).0
complete-IsValid c now packet none v = v
complete-IsValid c now packet (some p) v = record {
  unique = erase-Unique packet.req_id c.pending v.unique;
  fresh = λ i le. ground (arith, lookup-erase packet.req_id i c.pending, v.fresh i);
}

sweep-IsValid : (c : PipelineClient) (now : ℕ) → IsValid c → IsValid (sweep_timeouts c now).0
unfolding sweep_timeouts
sweep-IsValid c now v = record {
  unique = remove_if-Unique (λ p. leb p.deadline now) c.pending v.unique;
  fresh = λ i le.
      lookup-remove_if (λ p. leb p.deadline now) i c.pending v.unique
      ∙ ap (unless (λ p. leb p.deadline now)) (v.fresh i le);
}

-- The balance of one request over one step.
abbrev Balanced : ℕ → PipelineClient → ℕ → Progress → Type 0
Balanced i c taken (c', done) =
    IsValid c' × (count_id i done + waiting i c'.pending ≡ waiting i c.pending + taken)

on_packet-Balanced :
    (i now : ℕ) (c : PipelineClient) (packet : DecodedPacket)
    → IsValid c
    → Balanced i c 0 (on_packet c now packet)
unfolding on_packet count_id
on_packet-Balanced i now c packet v = by_type packet.msg_type
  where
    by_type : (t : MsgType) → Balanced i c 0 (on_packet_as t c now packet)
    by_type request = (v, omega arith)
    by_type heartbeat = (v, omega arith)
    by_type response = (
      complete-IsValid c now packet (lookup packet.req_id c.pending) v,
      omega (arith, complete-balance i now c packet (lookup packet.req_id c.pending) refl),
    )

module _ (proto : Protobuf) where
  abbrev pub no_completion : Submitted → Progress
  no_completion (ok, c, sent) = (c, [])

  unfoldable pub step : PipelineClient → Event → Progress
  step c (submits connected req service method timeout now) =
      no_completion (submit proto c connected req service method timeout now)
  step c (receives now packet) = on_packet c now packet
  step c (sweeps now) = sweep_timeouts c now

  abbrev pub was_taken : ℕ → PipelineClient → Submitted → ℕ
  was_taken i c (ok, c', sent) = if ok then (if c.next_id == i then 1 else 0) else 0

  -- 1 where the step takes on the request, with the answer true.
  unfoldable pub taken : ℕ → PipelineClient → Event → ℕ
  taken i c (submits connected req service method timeout now) =
      was_taken i c (submit proto c connected req service method timeout now)
  taken i c (receives now packet) = 0
  taken i c (sweeps now) = 0

  unfoldable pub run : PipelineClient → List Event → Progress
  run c [] = (c, [])
  run c (e ∷ es) = let (c', done) = step c e in let (c'', rest) = run c' es in (c'', done ++ rest)

  unfoldable pub all_taken : ℕ → PipelineClient → List Event → ℕ
  all_taken i c [] = 0
  all_taken i c (e ∷ es) = taken i c e + all_taken i (step c e).0 es

  step-Balanced :
      (i : ℕ) (c : PipelineClient) (e : Event) → IsValid c → Balanced i c (taken i c e) (step c e)
  unfolding step taken submit count_id
  step-Balanced i c (submits false req service method timeout now) v = (v, omega arith)
  step-Balanced i c (submits true req service method timeout now) v =
      let a =
        submit_packet-adds c timeout now (encode_request proto req c.next_id service method) v in
      (a.0, omega (arith, a.1 i))
  step-Balanced i c (receives now packet) v = on_packet-Balanced i now c packet v
  step-Balanced i c (sweeps now) v = (
    sweep-IsValid c now v,
    unfold sweep_timeouts in omega (arith, timed_out-balance i now c.pending v.unique),
  )

  run-Balanced :
      (i : ℕ) (c : PipelineClient) (es : List Event)
      → IsValid c
      → Balanced i c (all_taken i c es) (run c es)
  unfolding run all_taken
  run-Balanced i c [] v = (v, unfold count_id in omega arith)
  run-Balanced i c (e ∷ es) v =
      let (v₁, b₁) = step-Balanced i c e v in
      let (v₂, b₂) = run-Balanced i (step c e).0 es v₁ in
      (v₂, omega (arith, b₁, b₂, count_id-append i (step c e).1 (run (step c e).0 es).1))

  -- Over any events on a new client, for each number: its completions, and 1 more if it is pending
  -- at the end, are as many as the submissions that took it on.
  pub run-accounts :
      (i : ℕ) (es : List Event)
      → let (c, done) = run new_client es in
        count_id i done + waiting i c.pending ≡ all_taken i new_client es
  unfolding waiting lookup
  run-accounts i es =
      let b = run-Balanced i new_client es (record { unique = tt; fresh = λ j le. refl }) in
      omega (arith, b.1)
