-- ===== src/Interceptor.antt =====
-- src/interceptor: the chain of interceptors around a handler. Interceptors keep state of their own,
-- print and read the clock, so each hook also takes the state of the world and gives the next one.
pub mod Onion
use rpc_framework.Prelude.{
  ℕ, Bool, true, false, not, List, [], ◌∷◌, ◌++◌, Option, none, some, nat_eq, list_eq,
}
use rpc_framework.Prelude.Table.{lookup, insert}
use rpc_framework.Network.Buffer.{Bytes}
use rpc_framework.Codec.Message.{RpcRequest, RpcResponse}
use rpc_framework.CircuitBreaker.{CircuitBreaker, allow_request}

pub record Interceptor (S : Type 0) : Type 0 where
  pub pre_handle : S → RpcRequest → Bool × RpcRequest × S
  pub post_handle : S → RpcResponse → S

abbrev pub interceptor_blocked : Bytes
interceptor_blocked =
    105 ∷ 110 ∷ 116 ∷ 101 ∷ 114 ∷ 99 ∷ 101 ∷ 112 ∷ 116 ∷ 111 ∷ 114 ∷ 32 ∷ 98 ∷ 108 ∷ 111 ∷ 99 ∷ 107
    ∷ 101 ∷ 100 ∷ []

abbrev pub blocked_response : RpcResponse
blocked_response = record { success = false; payload = []; error_msg = interceptor_blocked }

module _ {S : Type 0} where
  unfoldable pub add_interceptor : List (Interceptor S) → Interceptor S → List (Interceptor S)
  add_interceptor chain i = chain ++ (i ∷ [])

  abbrev pub continue_if :
      (S → RpcRequest → Bool × RpcRequest × S) → Bool × RpcRequest × S → Bool × RpcRequest × S
  continue_if rest (true, req, s) = rest s req
  continue_if rest (false, req, s) = (false, req, s)

  -- The loop over `preHandle`, which stops at the first refusal.
  unfoldable pub pre_all : List (Interceptor S) → S → RpcRequest → Bool × RpcRequest × S
  pre_all [] s req = (true, req, s)
  pre_all (i ∷ chain) s req = continue_if (pre_all chain) (i.pre_handle s req)

  abbrev pub reversed_onto : List (Interceptor S) → List (Interceptor S) → List (Interceptor S)
  reversed_onto [] done = done
  reversed_onto (i ∷ chain) done = reversed_onto chain (i ∷ done)

  -- The loop over `postHandle`, from the last interceptor to the first.
  unfoldable pub post_in_turn : List (Interceptor S) → S → RpcResponse → S
  post_in_turn [] s resp = s
  post_in_turn (i ∷ chain) s resp = post_in_turn chain (i.post_handle s resp) resp

  abbrev pub finish :
      List (Interceptor S)
      → (S → RpcRequest → RpcResponse × S)
      → Bool × RpcRequest × S
      → RpcResponse × S
  finish chain handler (false, req, s) = (blocked_response, s)
  finish chain handler (true, req, s) =
      let (resp, s') = handler s req in (resp, post_in_turn (reversed_onto chain []) s' resp)

  unfoldable pub execute :
      List (Interceptor S) → S → RpcRequest → (S → RpcRequest → RpcResponse × S) → RpcResponse × S
  execute chain s req handler = finish chain handler (pre_all chain s req)

-- The interceptor of a breaker: the state is the breaker, with the time of each call.
abbrev pub breaker_pre : Option CircuitBreaker → ℕ → Bool × Option CircuitBreaker
breaker_pre none now = (true, none)
breaker_pre (some b) now = let (ok, b') = allow_request b now in (ok, some b')

abbrev pub trace_id : Bytes
trace_id = 116 ∷ 114 ∷ 97 ∷ 99 ∷ 101 ∷ 45 ∷ 105 ∷ 100 ∷ []

abbrev pub inject : Bytes → RpcRequest → Option Bytes → RpcRequest
inject fresh req (some old) = req
inject fresh req none = record req { metadata = insert trace_id fresh req.metadata }

-- The trace interceptor, with the identifier that it would make up.
unfoldable pub trace_pre : Bytes → RpcRequest → RpcRequest
trace_pre fresh req = inject fresh req (lookup trace_id req.metadata)
