-- ===== src/Interceptor/Onion.antt =====
-- The chain against its specification: each interceptor wraps the rest of the chain.
use rpc_framework.Prelude.{
  ◌≡◌, refl, sym, ap, ◌∙◌, Bool, true, false, List, [], ◌∷◌, ◌++◌, Option, none, some,
}
use mathlib.Core.List.{append_assoc}
use rpc_framework.Codec.Message.{RpcRequest, RpcResponse}
use rpc_framework.Interceptor.{
  Interceptor, blocked_response, continue_if, pre_all, reversed_onto, post_in_turn, finish, execute,
}

abbrev pub Handler : Type 0 → Type 0
Handler S = S → RpcRequest → RpcResponse × S

abbrev pub Result : Type 0 → Type 0
Result S = Option RpcResponse × S

module _ {S : Type 0} where
  -- What an interceptor does after what it wraps: it sees the response, and nothing of a refusal.
  abbrev pub after : Interceptor S → Result S → Result S
  after i (none, s) = (none, s)
  after i (some resp, s) = (some resp, i.post_handle s resp)

  abbrev pub around : Interceptor S → (S → RpcRequest → Result S) → Bool × RpcRequest × S → Result S
  around i inner (false, req, s) = (none, s)
  around i inner (true, req, s) = after i (inner s req)

  pub onion : List (Interceptor S) → Handler S → S → RpcRequest → Result S
  onion [] handler s req = let (resp, s') = handler s req in (some resp, s')
  onion (i ∷ chain) handler s req = around i (onion chain handler) (i.pre_handle s req)

  abbrev pub answered : Result S → RpcResponse × S
  answered (none, s) = (blocked_response, s)
  answered (some resp, s) = (resp, s)

  -- The result of `execute`, a refusal told apart.
  finish_result : List (Interceptor S) → Handler S → Bool × RpcRequest × S → Result S
  finish_result chain handler (false, req, s) = (none, s)
  finish_result chain handler (true, req, s) =
      let (resp, s') = handler s req in (some resp, post_in_turn (reversed_onto chain []) s' resp)

  post_in_turn-append :
      (xs ys : List (Interceptor S)) (s : S) (resp : RpcResponse)
      → post_in_turn (xs ++ ys) s resp ≡ post_in_turn ys (post_in_turn xs s resp) resp
  unfolding post_in_turn
  post_in_turn-append [] ys s resp = refl
  post_in_turn-append (i ∷ xs) ys s resp = post_in_turn-append xs ys (i.post_handle s resp) resp

  reversed_onto-append :
      (chain done : List (Interceptor S))
      → reversed_onto chain done ≡ reversed_onto chain [] ++ done
  reversed_onto-append [] done = refl
  reversed_onto-append (i ∷ chain) done =
      reversed_onto-append chain (i ∷ done)
      ∙ sym (append_assoc (reversed_onto chain []) (i ∷ []) done)
      ∙ ap (λ (xs : List (Interceptor S)). xs ++ done) (sym (reversed_onto-append chain (i ∷ [])))

  finish-after :
      (i : Interceptor S) (chain : List (Interceptor S)) (handler : Handler S)
      (r : Bool × RpcRequest × S)
      → finish_result (i ∷ chain) handler r ≡ after i (finish_result chain handler r)
  unfolding finish_result post_in_turn
  finish-after i chain handler (false, req, s) = refl
  finish-after i chain handler (true, req, s) =
      let out = handler s req in
      ap (λ (xs : List (Interceptor S)). (some out.0, post_in_turn xs out.1 out.0))
        (reversed_onto-append chain (i ∷ []))
      ∙ ap (λ (t : S). (some out.0, t))
          (post_in_turn-append (reversed_onto chain []) (i ∷ []) out.1 out.0)

  finish-onion :
      (chain : List (Interceptor S)) (handler : Handler S) (s : S) (req : RpcRequest)
      → finish_result chain handler (pre_all chain s req) ≡ onion chain handler s req
  unfolding finish_result pre_all onion post_in_turn
  finish-onion [] handler s req = refl
  finish-onion (i ∷ chain) handler s req = by_pre (finish-onion chain handler) (i.pre_handle s req)
    where
      by_pre :
          ((s' : S) (req' : RpcRequest)
            → finish_result chain handler (pre_all chain s' req') ≡ onion chain handler s' req')
          → (r : Bool × RpcRequest × S)
          → finish_result (i ∷ chain) handler (continue_if (pre_all chain) r)
            ≡ around i (onion chain handler) r
      by_pre ih (false, req', s') = refl
      by_pre ih (true, req', s') =
          finish-after i chain handler (pre_all chain s' req') ∙ ap (after i) (ih s' req')

  -- Whatever the interceptors and the handler do, `execute` is the nesting of the interceptors around
  -- the handler: each one that lets the request pass sees the response after those behind it, and
  -- on a refusal nothing behind it and no `postHandle` runs, and the answer is the blocked one.
  pub execute-onion :
      (chain : List (Interceptor S)) (s : S) (req : RpcRequest) (handler : Handler S)
      → execute chain s req handler ≡ answered (onion chain handler s req)
  unfolding execute finish_result
  execute-onion chain s req handler =
      by_pre (pre_all chain s req) ∙ ap answered (finish-onion chain handler s req)
    where
      by_pre :
          (r : Bool × RpcRequest × S)
          → finish chain handler r ≡ answered (finish_result chain handler r)
      by_pre (false, req', s') = refl
      by_pre (true, req', s') = refl
