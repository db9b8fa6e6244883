-- ===== src/Prelude/Table.antt =====
-- Hash tables as association lists: what the program reads of them does not depend on the order.
use mathlib.Core.Path.{◌≡◌, refl, sym, ap, ◌∙◌}
use mathlib.Core.Logic.{inl, inr}
use mathlib.Core.Option.{Option, none, some}
use mathlib.Core.List.{List, [], ◌∷◌}
use native.Mathlib.Omega.{arith}
use rpc_framework.Prelude.Tests.{if◌then◌else◌, if-elim, Bool-cases}
use mathlib.Core.Bool.{Bool}
use rpc_framework.Prelude.Keys.{Eq}

-- A value that is asked for is left out.
abbrev pub unless {ℓ} : {V : Type ℓ} → (V → Bool) → Option V → Option V
unless p none = none
unless p (some v) = if p v then none else some v

module _ {ℓ} {K : Type 0} {V : Type ℓ} ⦃e : Eq K⦄ where
  -- find
  unfoldable pub lookup : K → List (K × V) → Option V
  lookup k [] = none
  lookup k ((j, v) ∷ m) = if e.beq j k then some v else lookup k m

  -- m[k] = v
  unfoldable pub insert : K → V → List (K × V) → List (K × V)
  insert k v [] = (k, v) ∷ []
  insert k v ((j, w) ∷ m) = if e.beq j k then (k, v) ∷ m else (j, w) ∷ insert k v m

  -- erase(k)
  unfoldable pub erase : K → List (K × V) → List (K × V)
  erase k [] = []
  erase k ((j, w) ∷ m) = let rest = erase k m in if e.beq j k then rest else (j, w) ∷ rest

  -- The entries whose values are asked for are erased, in one pass.
  unfoldable pub remove_if : (V → Bool) → List (K × V) → List (K × V)
  remove_if p [] = []
  remove_if p ((j, w) ∷ m) = let rest = remove_if p m in if p w then rest else (j, w) ∷ rest

  pub lookup-insert :
      (k j : K) (v : V) (m : List (K × V))
      → lookup j (insert k v m) ≡ (if e.beq k j then some v else lookup j m)
  unfolding lookup insert
  lookup-insert k j v [] = refl
  lookup-insert k j v ((i, w) ∷ m) =
      ground (arith, e.beq_iff k j, e.beq_iff i k, e.beq_iff i j, lookup-insert k j v m)

  pub lookup-erase :
      (k j : K) (m : List (K × V)) → lookup j (erase k m) ≡ (if e.beq k j then none else lookup j m)
  unfolding lookup erase
  lookup-erase k j [] = ground arith
  lookup-erase k j ((i, w) ∷ m) =
      ground (arith, e.beq_iff k j, e.beq_iff i k, e.beq_iff i j, lookup-erase k j m)

  -- Each key has one entry.
  abbrev pub Unique : List (K × V) → Type ℓ
  Unique [] = Unit {ℓ}
  Unique ((k, v) ∷ m) = (lookup k m ≡ none) × Unique m

  pub insert-Unique : (k : K) (v : V) (m : List (K × V)) → Unique m → Unique (insert k v m)
  unfolding insert lookup
  insert-Unique k v [] u = (refl, tt)
  insert-Unique k v ((j, w) ∷ m) u =
      if-elim Unique (e.beq j k)
        (λ h. (ap (λ (i : K). lookup i m) (sym ((e.beq_iff j k).0 h)) ∙ u.0, u.1))
        (λ h. (
          ground (arith, e.beq_iff k j, e.beq_iff j k, lookup-insert k j v m),
          insert-Unique k v m u.1,
        ))

  pub erase-Unique : (k : K) (m : List (K × V)) → Unique m → Unique (erase k m)
  unfolding erase
  erase-Unique k [] u = u
  erase-Unique k ((j, w) ∷ m) u =
      if-elim Unique (e.beq j k) (λ h. erase-Unique k m u.1)
        (λ h. (ground (arith, lookup-erase k j m), erase-Unique k m u.1))

  pub lookup-remove_if :
      (p : V → Bool) (k : K) (m : List (K × V))
      → Unique m
      → lookup k (remove_if p m) ≡ unless p (lookup k m)
  unfolding lookup remove_if
  lookup-remove_if p k [] u = refl
  lookup-remove_if p k ((j, w) ∷ m) u = elim (Bool-cases (e.beq j k)) [
    | inl h ↦
        let gone : lookup k (remove_if p m) ≡ none =
          lookup-remove_if p k m u.1
          ∙ ap (unless p) (sym (ap (λ (i : K). lookup i m) ((e.beq_iff j k).0 h)) ∙ u.0) in
        rw h (
          if-elim (λ x. lookup k x ≡ (if p w then none else some w)) (p w) (λ g. gone ∙ rw g refl)
            (λ g. rw (h, g) refl))
    | inr h ↦ rw h (
        if-elim (λ x. lookup k x ≡ unless p (lookup k m)) (p w) (λ g. lookup-remove_if p k m u.1)
          (λ g. rw h (lookup-remove_if p k m u.1)))
  ]

  pub remove_if-Unique : (p : V → Bool) (m : List (K × V)) → Unique m → Unique (remove_if p m)
  unfolding remove_if
  remove_if-Unique p [] u = u
  remove_if-Unique p ((j, w) ∷ m) u =
      if-elim Unique (p w) (λ h. remove_if-Unique p m u.1)
        (λ h. (lookup-remove_if p j m u.1 ∙ ap (unless p) u.0, remove_if-Unique p m u.1))
