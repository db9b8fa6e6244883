-- ===== src/AsyncClient/Messages.antt =====
-- The loop of `onMessage` of src/client/rpc_async_client.cc, on whatever bytes arrive.
use rpc_framework.Prelude.{
  ℕ, zero, suc, ◌+◌, ◌*◌, ◌<◌, ◌≡◌, refl, ap, ◌∙◌, true, false, List, [], ◌∷◌, Option, some, arith,
  length, drop,
}
use rpc_framework.Prelude.Slices.{drop-drop}
use rpc_framework.Network.Buffer.{Buffer, Bytes}
use rpc_framework.Network.Buffer.Contents.{IsValid as IsBufferValid, contents}
use rpc_framework.Codec.Message.{DecodedPacket, Protobuf}
use rpc_framework.Codec.Decode.{decode, Decoded}
use rpc_framework.Codec.Verdicts.Consumption.{Consumes, decode-Consumes, min_packet}
use rpc_framework.Server.{empty_packet}
use rpc_framework.AsyncClient.{RpcAsyncClient}
use rpc_framework.AsyncClient.Calls.{on_packet, rounds, on_message}
use rpc_framework.AsyncClient.Steps.{Event, receives, run, all_called, run-Adds}
use rpc_framework.AsyncClient.Accounting.{IsValid, Adds}

module _ {R : Type 0} where
  -- The packets arrive one after the other.
  unfoldable pub received : List DecodedPacket → List (Event R)
  received [] = []
  received (p ∷ ps) = receives p ∷ received ps

module _ (R : Type 0) where
  all_called-received :
      (who : ℕ) (packets : List DecodedPacket) → all_called who (received {R = R} packets) ≡ 0
  unfolding all_called received
  all_called-received who [] = refl
  all_called-received who (p ∷ ps) = omega (arith, all_called-received who ps)

module _ {R : Type 0} where
  module _ (proto : Protobuf) where
    -- The loop returns what the arrival of some packets makes of the client, and a valid buffer that
    -- holds the end of what was there.
    pub record Ends (c : RpcAsyncClient R) (bytes : Bytes) (r : Option (RpcAsyncClient R × Buffer))
        : Type 0 where
      pub packets : List DecodedPacket
      pub left : Buffer
      pub returns : r ≡ some (run proto c (received packets), left)
      pub valid : IsBufferValid left
      pub taken : ℕ
      pub rest : contents left ≡ drop taken bytes

    rounds-Ends :
        (n : ℕ) (c : RpcAsyncClient R) (buf : Buffer) (d : Decoded)
        → Consumes buf d
        → length (contents buf) < min_packet * suc n
        → Ends c (contents buf) (rounds proto n c d)
    unfolding rounds run received
    rounds-Ends n c buf (false, b, p) takes few = record {
      packets = [];
      left = b;
      returns = refl;
      valid = takes.valid;
      taken = takes.taken;
      rest = takes.rest;
    }
    rounds-Ends zero c buf (true, b, p) takes few =
        let no : ⊥ = omega (arith, takes.progress refl) in elim no [ ]
    rounds-Ends (suc n) c buf (true, b, p) takes few =
        let e =
          rounds-Ends n (on_packet c p) b (decode proto b p) (decode-Consumes b takes.valid proto p)
            (omega (arith, takes.progress refl)) in
        record {
          packets = p ∷ e.packets;
          left = e.left;
          returns = e.returns;
          valid = e.valid;
          taken = takes.taken + e.taken;
          rest =
              e.rest ∙ ap (drop e.taken) takes.rest ∙ drop-drop e.taken takes.taken (contents buf);
        }

    pub on_message-Ends :
        (n : ℕ) (c : RpcAsyncClient R) (buf : Buffer)
        → IsBufferValid buf
        → length (contents buf) < min_packet * suc n
        → Ends c (contents buf) (on_message proto n c buf)
    unfolding on_message
    on_message-Ends n c buf v few =
        rounds-Ends n c buf (decode proto buf empty_packet)
          (decode-Consumes buf v proto empty_packet) few

    -- Whatever bytes arrive in a valid buffer, `onMessage` returns, in at most as many rounds as
    -- smallest packets fit in them, with a valid client and a valid buffer that holds the end of the
    -- bytes. For each caller, its answers, its threads that are woken and its waiting calls together
    -- are as many as before.
    pub on_message-Adds :
        (n who : ℕ) (c : RpcAsyncClient R) (buf : Buffer)
        → IsBufferValid buf
        → IsValid c
        → length (contents buf) < min_packet * suc n
        → (c' : RpcAsyncClient R) × (left : Buffer) × (taken : ℕ) × (on_message proto n c buf
            ≡ some (c', left))
          × Adds who 0 c c'
          × IsBufferValid left
          × (contents left ≡ drop taken (contents buf))
    on_message-Adds n who c buf v w few =
        let e = on_message-Ends n c buf v few in
        let a = run-Adds proto who c (received e.packets) w in
        (
          run proto c (received e.packets),
          e.left,
          e.taken,
          e.returns,
          (a.0, omega (arith, a.1, all_called-received R who e.packets)),
          e.valid,
          e.rest,
        )
