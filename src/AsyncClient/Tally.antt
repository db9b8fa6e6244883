-- ===== src/AsyncClient/Tally.antt =====
-- What a caller is told and what waits for it, counted.
use rpc_framework.Prelude.{
  ℕ, ◌+◌, ◌≡◌, refl, ◌++◌, Bool, true, false, List, [], ◌∷◌, none, some, arith, ◌==◌, nat_eq,
}
use rpc_framework.Prelude.Table.{lookup, insert, erase, Unique}
use rpc_framework.Codec.Message.{RpcResponse}
use rpc_framework.AsyncClient.{Completion}
use rpc_framework.AsyncClient.Calls.{drop_first}
use rpc_framework.AsyncClient.Connecting.{callers_of, completions_of}

abbrev pub one_if : Bool → ℕ
one_if true = 1
one_if false = 0

-- How many answers a caller has got.
unfoldable pub answers : ℕ → List Completion → ℕ
answers who [] = 0
answers who (d ∷ done) = one_if (d.caller == who) + answers who done

-- How many entries of a table are a caller's.
unfoldable pub held : ℕ → List (ℕ × ℕ) → ℕ
held who [] = 0
held who ((id, w) ∷ m) = one_if (w == who) + held who m

-- How many threads of a caller have their promise set.
unfoldable pub woken : ℕ → List (ℕ × RpcResponse) → ℕ
woken who [] = 0
woken who ((w, resp) ∷ ready) = one_if (w == who) + woken who ready

pub held-insert :
    (who k w : ℕ) (m : List (ℕ × ℕ))
    → lookup k m ≡ none
    → held who (insert k w m) ≡ held who m + one_if (w == who)
unfolding held insert lookup
held-insert who k w [] h = omega arith
held-insert who k w ((j, v) ∷ m) h = ground (arith, held-insert who k w m)

erase-absent : (k : ℕ) (m : List (ℕ × ℕ)) → lookup k m ≡ none → erase k m ≡ m
unfolding erase lookup
erase-absent k [] h = refl
erase-absent k ((j, v) ∷ m) h = ground (arith, erase-absent k m)

pub held-erase :
    (who k w : ℕ) (m : List (ℕ × ℕ))
    → Unique m
    → lookup k m ≡ some w
    → held who m ≡ held who (erase k m) + one_if (w == who)
unfolding held erase lookup
held-erase who k w [] u h = cc
held-erase who k w ((j, v) ∷ m) u h = ground (arith, held-erase who k w m u.1, erase-absent j m u.0)

pub woken-drop_first :
    (who w : ℕ) (resp : RpcResponse) (ready : List (ℕ × RpcResponse))
    → lookup w ready ≡ some resp
    → woken who ready ≡ woken who (drop_first w ready) + one_if (w == who)
unfolding woken drop_first lookup
woken-drop_first who w resp [] h = cc
woken-drop_first who w resp ((v, r) ∷ ready) h = ground (arith, woken-drop_first who w resp ready)

pub answers-completions :
    (who : ℕ) (m : List (ℕ × ℕ)) (resp : RpcResponse) (done : List Completion)
    → answers who (completions_of m resp ++ done) ≡ held who m + answers who done
unfolding answers held
answers-completions who [] resp done = omega arith
answers-completions who ((id, w) ∷ m) resp done = omega (arith, answers-completions who m resp done)

pub woken-callers :
    (who : ℕ) (m : List (ℕ × ℕ)) (resp : RpcResponse) (ready : List (ℕ × RpcResponse))
    → woken who (callers_of m resp ++ ready) ≡ held who m + woken who ready
unfolding woken held
woken-callers who [] resp ready = omega arith
woken-callers who ((id, w) ∷ m) resp ready = omega (arith, woken-callers who m resp ready)
