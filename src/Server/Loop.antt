-- ===== src/Server/Loop.antt =====
-- How the loop of `onMessage` ends.
use rpc_framework.Prelude.{
  ℕ, zero, suc, ◌+◌, ◌*◌, ◌<◌, ◌≡◌, refl, ap, ◌∙◌, true, false, List, [], ◌++◌, Option, some, arith,
  length, drop,
}
use rpc_framework.Prelude.Slices.{drop-drop}
use rpc_framework.Network.Buffer.{Buffer, Bytes}
use rpc_framework.Network.Buffer.Contents.{IsValid, contents}
use rpc_framework.Codec.Message.{Protobuf}
use rpc_framework.Codec.Decode.{decode, Decoded}
use rpc_framework.Codec.Verdicts.Consumption.{Consumes, decode-Consumes, min_packet}
use rpc_framework.Server.{
  RpcServer, Handled, answer, sends_before, rounds, on_message, empty_packet,
}

-- The loop ends, with a valid buffer that holds the end of what was there.
pub record Ends (bytes : Bytes) (r : Option Handled) : Type 0 where
  pub sent : List Bytes
  pub left : Buffer
  pub returns : r ≡ some (sent, left)
  pub valid : IsValid left
  pub taken : ℕ
  pub rest : contents left ≡ drop taken bytes

module _ (proto : Protobuf) (server : RpcServer) (time : ℕ → ℕ) where
  rounds-Ends :
      (n : ℕ) (buf : Buffer) (d : Decoded)
      → Consumes buf d
      → length (contents buf) < min_packet * suc n
      → Ends (contents buf) (rounds proto n server time d)
  unfolding rounds
  rounds-Ends n buf (false, b, p) c few = record {
    sent = [];
    left = b;
    returns = refl;
    valid = c.valid;
    taken = c.taken;
    rest = c.rest;
  }
  rounds-Ends zero buf (true, b, p) c few =
      let no : ⊥ = omega (arith, c.progress refl) in elim no [ ]
  rounds-Ends (suc n) buf (true, b, p) c few =
      let e =
        rounds-Ends n b (decode proto b p) (decode-Consumes b c.valid proto p)
          (omega (arith, c.progress refl)) in
      record {
        sent = answer proto server (time n) p ++ e.sent;
        left = e.left;
        returns = ap (sends_before (answer proto server (time n) p)) e.returns;
        valid = e.valid;
        taken = c.taken + e.taken;
        rest = e.rest ∙ ap (drop e.taken) c.rest ∙ drop-drop e.taken c.taken (contents buf);
      }

  -- `onMessage` returns, on every valid buffer: the count of its rounds is at most the count of the
  -- readable bytes divided by 22, the size of the smallest packet. It leaves a valid buffer, which
  -- holds the end of the bytes that were there.
  pub on_message-Ends :
      (n : ℕ) (buf : Buffer)
      → IsValid buf
      → length (contents buf) < min_packet * suc n
      → Ends (contents buf) (on_message proto n server time buf)
  unfolding on_message
  on_message-Ends n buf v few =
      rounds-Ends n buf (decode proto buf empty_packet) (decode-Consumes buf v proto empty_packet)
        few
