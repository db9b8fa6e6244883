-- ===== src/Network/LoopPool/Rounds.antt =====
-- The order in which the loops are chosen.
use rpc_framework.Prelude.{
  ℕ, zero, suc, ◌+◌, ◌*◌, ◌/◌, ◌%◌, ◌≤◌, ◌<◌, ◌≡◌, refl, sym, ap, ◌∙◌, inl, inr, some, arith, leb,
  Bool-cases,
}
use native.Mathlib.Nat.{div-add-mod', mod-lt, mod-eq_of_lt, add-mul-mod_self_right}
use rpc_framework.Network.LoopPool.{LoopPool, get_next_loop}

-- The pool after so many calls.
pub after_calls : ℕ → LoopPool → LoopPool
after_calls zero p = p
after_calls (suc k) p = (get_next_loop (after_calls k p)).1

get_next_loop-step :
    (p : LoopPool) (n : ℕ)
    → p.loops ≡ n
    → 0 < n
    → let d = (get_next_loop p).1 in
      (d.loops ≡ n) × (p.next + 1 < n → d.next ≡ p.next + 1) × (n ≤ p.next + 1 → d.next ≡ 0)
unfolding get_next_loop
get_next_loop-step p n e pos = ground arith

mod-suc_below : (k n : ℕ) → 0 < n → k % n + 1 < n → suc k % n ≡ k % n + 1
mod-suc_below k n pos lt =
    let e : suc k ≡ (k % n + 1) + (k / n) * n = omega (arith, div-add-mod' k n) in
    ap (λ (x : ℕ). x % n) e ∙ add-mul-mod_self_right (k % n + 1) (k / n) n ∙ mod-eq_of_lt lt

mod-suc_wraps : (k n : ℕ) → 0 < n → n ≤ k % n + 1 → suc k % n ≡ 0
mod-suc_wraps k n pos le =
    let e : suc k ≡ 0 + (k / n + 1) * n = omega (arith, div-add-mod' k n, mod-lt k {m = n} pos) in
    ap (λ (x : ℕ). x % n) e ∙ add-mul-mod_self_right 0 (k / n + 1) n ∙ mod-eq_of_lt pos

next-eq-mod :
    (k n : ℕ)
    → 0 < n
    → let p = after_calls k (record { loops = n; next = 0 }) in (p.loops ≡ n) × (p.next ≡ k % n)
unfolding after_calls
next-eq-mod zero n pos = (refl, sym (mod-eq_of_lt pos))
next-eq-mod (suc k) n pos =
    let (same, at) = next-eq-mod k n pos in
    let (kept, moves, wraps) =
      get_next_loop-step (after_calls k (record { loops = n; next = 0 })) n same pos in
    (
      kept,
      elim (Bool-cases (leb n (k % n + 1))) [
        | inl h ↦
            let le : n ≤ k % n + 1 = ground arith in
            wraps (omega arith) ∙ sym (mod-suc_wraps k n pos le)
        | inr h ↦
            let lt : k % n + 1 < n = ground arith in
            moves (omega arith) ∙ ap (λ (x : ℕ). x + 1) at ∙ sym (mod-suc_below k n pos lt)
      ],
    )

-- In a pool of at least one loop that nobody has asked yet, the call number `k`, counted from 0, chooses the
-- loop `k % n` of its `n` loops.
pub get_next_loop-turns :
    (k n : ℕ)
    → 0 < n
    → (get_next_loop (after_calls k (record { loops = n; next = 0 }))).0 ≡ some (k % n)
get_next_loop-turns k n pos =
    let (same, at) = next-eq-mod k n pos in
    chosen (after_calls k (record { loops = n; next = 0 })) same ∙ ap some at
  where
    chosen : (p : LoopPool) → p.loops ≡ n → (get_next_loop p).0 ≡ some p.next
    chosen p e = unfold get_next_loop in ground arith
