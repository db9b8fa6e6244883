-- ===== src/Server.antt =====
-- src/server: the services with their methods, and the server's handling of what arrives. A handler
-- is a function of the request and the response that it fills; it returns or throws. `time` is what
-- the clock shows in each round of the loop, counted down. A string literal is the list of its
-- characters' codes.
pub mod Loop
pub mod Answers
pub mod EndToEnd
use rpc_framework.Prelude.{
  ℕ, zero, suc, Bool, true, false, List, [], ◌∷◌, ◌++◌, Option, none, some, if◌then◌else◌, nat_eq,
  list_eq,
}
use rpc_framework.Prelude.Table.{lookup, insert}
use rpc_framework.Network.Buffer.{Buffer, Bytes}
use rpc_framework.Codec.Message.{
  RpcRequest, RpcResponse, Heartbeat, MsgType, request, response, heartbeat, Status, success,
  failed, DecodedPacket, Protobuf,
}
use rpc_framework.Codec.Encode.{encode_heartbeat, encode_response}
use rpc_framework.Codec.Decode.{decode, Decoded}

-- How a handler ends, with the response as far as it is filled: an exception that is a
-- `std::exception` carries its `what()`.
pub data Outcome : Type 0 where
  returned : RpcResponse → Outcome
  threw : Bytes → RpcResponse → Outcome
  threw_unknown : RpcResponse → Outcome

abbrev pub MethodHandler : Type 0
MethodHandler = RpcRequest → RpcResponse → Outcome

pub record RpcService : Type 0 where
  pub service_name : Bytes
  pub methods : List (Bytes × MethodHandler)

-- `none`: the `std::function` is empty.
unfoldable pub register_method : RpcService → Bytes → Option MethodHandler → RpcService
register_method service [] handler = service
register_method service (c ∷ name) none = service
register_method service (c ∷ name) (some handler) = record service {
  methods = insert (c ∷ name) handler service.methods;
}

abbrev pub method_not_found : Bytes
method_not_found =
    109 ∷ 101 ∷ 116 ∷ 104 ∷ 111 ∷ 100 ∷ 32 ∷ 110 ∷ 111 ∷ 116 ∷ 32 ∷ 102 ∷ 111 ∷ 117 ∷ 110 ∷ 100 ∷ 58
    ∷ 32 ∷ []

-- The answer of `callMethod` is used by nobody.
abbrev pub call_handler : Option MethodHandler → Bytes → RpcRequest → RpcResponse → Outcome
call_handler none method_name req resp =
    returned (record resp { success = false; error_msg = method_not_found ++ method_name })
call_handler (some handler) method_name req resp = handler req resp

unfoldable pub call_method : RpcService → Bytes → RpcRequest → RpcResponse → Outcome
call_method service method_name req resp =
    call_handler (lookup method_name service.methods) method_name req resp

pub record RpcServer : Type 0 where
  pub services : List (Bytes × RpcService)

unfoldable pub register_service : RpcServer → Option RpcService → RpcServer
register_service server none = server
register_service server (some service) = record server {
  services = insert service.service_name service server.services;
}

abbrev pub service_not_found : Bytes
service_not_found =
    115 ∷ 101 ∷ 114 ∷ 118 ∷ 105 ∷ 99 ∷ 101 ∷ 32 ∷ 110 ∷ 111 ∷ 116 ∷ 32 ∷ 102 ∷ 111 ∷ 117 ∷ 110 ∷ 100
    ∷ 58 ∷ 32 ∷ []

abbrev pub handler_exception : Bytes
handler_exception =
    104 ∷ 97 ∷ 110 ∷ 100 ∷ 108 ∷ 101 ∷ 114 ∷ 32 ∷ 101 ∷ 120 ∷ 99 ∷ 101 ∷ 112 ∷ 116 ∷ 105 ∷ 111 ∷ 110
    ∷ 58 ∷ 32 ∷ []

abbrev pub handler_unknown_exception : Bytes
handler_unknown_exception =
    104 ∷ 97 ∷ 110 ∷ 100 ∷ 108 ∷ 101 ∷ 114 ∷ 32 ∷ 117 ∷ 110 ∷ 107 ∷ 110 ∷ 111 ∷ 119 ∷ 110 ∷ 32 ∷ 101
    ∷ 120 ∷ 99 ∷ 101 ∷ 112 ∷ 116 ∷ 105 ∷ 111 ∷ 110 ∷ []

abbrev pub server_name : Bytes
server_name = 115 ∷ 101 ∷ 114 ∷ 118 ∷ 101 ∷ 114 ∷ []

abbrev pub server_node : Bytes
server_node = 115 ∷ 101 ∷ 114 ∷ 118 ∷ 101 ∷ 114 ∷ 95 ∷ 110 ∷ 111 ∷ 100 ∷ 101 ∷ []

-- A message of protobuf as it is constructed.
abbrev pub empty_response : RpcResponse
empty_response = record { success = false; payload = []; error_msg = [] }

abbrev pub empty_heartbeat : Heartbeat
empty_heartbeat = record { service_name = []; node_id = []; timestamp = 0; extra = [] }

abbrev pub empty_packet : DecodedPacket
empty_packet = record {
  msg_type = request;
  req_id = 0;
  rpc_request = record { payload = []; metadata = [] };
  rpc_response = empty_response;
  heartbeat = empty_heartbeat;
  service_name = [];
  method_name = [];
  network_status = success;
}

-- The two `catch` clauses.
abbrev pub settle : Outcome → RpcResponse
settle (returned resp) = resp
settle (threw what resp) = record resp { success = false; error_msg = handler_exception ++ what }
settle (threw_unknown resp) = record resp { success = false; error_msg = handler_unknown_exception }

abbrev pub status_for : Bool → Status
status_for true = success
status_for false = failed

-- The response to a request and the status that it is sent with.
abbrev pub respond : Option RpcService → DecodedPacket → RpcResponse
respond none p = record empty_response {
  success = false;
  error_msg = service_not_found ++ p.service_name;
}
respond (some service) p = settle (call_method service p.method_name p.rpc_request empty_response)

abbrev pub ack : ℕ → Heartbeat
ack now = record empty_heartbeat {
  service_name = server_name;
  node_id = server_node;
  timestamp = now;
}

-- The sent packets, and the buffer.
abbrev pub Handled : Type 0
Handled = List Bytes × Buffer

abbrev pub sends_before : List Bytes → Option Handled → Option Handled
sends_before sent none = none
sends_before sent (some (rest, buf)) = some (sent ++ rest, buf)

module _ (proto : Protobuf) where
  abbrev pub answer_request : RpcServer → DecodedPacket → Bytes
  answer_request server p =
      let resp = respond (lookup p.service_name server.services) p in
      encode_response proto resp p.req_id (status_for resp.success)

  -- What the body of the loop sends for a packet.
  abbrev pub answer_as : MsgType → RpcServer → ℕ → DecodedPacket → List Bytes
  answer_as heartbeat server now p = encode_heartbeat (ack now) p.req_id ∷ []
  answer_as response server now p = []
  answer_as request server now p = answer_request server p ∷ []

  unfoldable pub answer : RpcServer → ℕ → DecodedPacket → List Bytes
  answer server now p = answer_as p.msg_type server now p

  -- The `while` loop for at most the given count of rounds; `none` is a loop that goes on.
  unfoldable pub rounds : ℕ → RpcServer → (ℕ → ℕ) → Decoded → Option Handled
  rounds n server time (false, buf, p) = some ([], buf)
  rounds zero server time (true, buf, p) = none
  rounds (suc n) server time (true, buf, p) =
      sends_before (answer server (time n) p) (rounds n server time (decode proto buf p))

  unfoldable pub on_message : ℕ → RpcServer → (ℕ → ℕ) → Buffer → Option Handled
  on_message n server time buf = rounds n server time (decode proto buf empty_packet)
