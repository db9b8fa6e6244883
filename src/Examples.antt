-- ===== src/Examples.antt =====
-- The theorems at concrete inputs, and the data that these share: a serialiser of messages without
-- metadata and without error texts, and buffers with given bytes.
mod Buffers
mod Packets
mod Refusals
mod Calls
mod Connections
mod Connectors
mod Registries
mod Clients
mod Breakers
mod Pools
mod Async
mod Exchanges
mod Loops
mod Transports
use rpc_framework.Prelude.{
  ℕ, ◌≡◌, refl, subst, some-eq-some, Bool, true, false, List, [], ◌∷◌, ◌++◌, Option, none, some,
  ◌==◌, if◌then◌else◌, arith,
}
use rpc_framework.Network.Buffer.{Buffer, Bytes, new, append}
use rpc_framework.Network.Buffer.Contents.{
  IsValid, new-IsValid, contents, contents-append, append-IsValid,
}
use rpc_framework.Codec.Message.{RpcRequest, RpcResponse, Protobuf}

abbrev plain : List (Bytes × Bytes) → Bytes → Option Bytes
plain [] payload = some payload
plain (m ∷ metadata) payload = none

abbrev unplain : Bytes → Bool × RpcRequest
unplain payload = (true, record { payload = payload; metadata = [] })

abbrev flagged : Bool → Bytes → Bytes → Option Bytes
flagged true payload [] = some (1 ∷ payload)
flagged false payload [] = some (0 ∷ payload)
flagged ok payload (c ∷ text) = none

abbrev unflagged : Bytes → Bool × RpcResponse
unflagged [] = (false, record { success = false; payload = []; error_msg = [] })
unflagged (flag ∷ payload) =
    (true, record { success = flag == 1; payload = payload; error_msg = [] })

pub plain_returns :
    (metadata : List (Bytes × Bytes)) (payload p : Bytes)
    → plain metadata payload ≡ some p
    → unplain p ≡ (true, record { payload = payload; metadata = metadata })
plain_returns [] payload p h = cc
plain_returns (m ∷ metadata) payload p h = cc

pub flagged_returns :
    (ok : Bool) (payload text p : Bytes)
    → flagged ok payload text ≡ some p
    → unflagged p ≡ (true, record { success = ok; payload = payload; error_msg = text })
flagged_returns true payload [] p h =
    subst
      (λ (q : Bytes).
        unflagged q ≡ (true, record { success = true; payload = payload; error_msg = [] }))
      (some-eq-some h) refl
flagged_returns false payload [] p h =
    subst
      (λ (q : Bytes).
        unflagged q ≡ (true, record { success = false; payload = payload; error_msg = [] }))
      (some-eq-some h) refl
flagged_returns ok payload (c ∷ text) p h = cc

abbrev pub toy : Protobuf
toy = record {
  serialize_request = λ r. plain r.metadata r.payload;
  parse_request = unplain;
  serialize_response = λ r. flagged r.success r.payload r.error_msg;
  parse_response = unflagged;
  request_returns = λ r p h. plain_returns r.metadata r.payload p h;
  is_utf8 = λ text. true;
  response_returns = λ r p utf8 h. flagged_returns r.success r.payload r.error_msg p h;
}

abbrev pub loaded : Bytes → Buffer
loaded src = append new src

pub loaded-IsValid : (src : Bytes) → IsValid (loaded src)
loaded-IsValid src = append-IsValid new src new-IsValid

pub contents-loaded : (src : Bytes) → contents (loaded src) ≡ src
unfolding new
contents-loaded src = contents-append new src new-IsValid
