-- ===== src/Codec/Crc/Detection.antt =====
-- Which changes the checksum detects.
use native.Mathlib.Decide.{dec_le}
use rpc_framework.Prelude.{
  ℕ, zero, suc, ◌/◌, ◌^◌, ◌≤◌, ◌<◌, ◌≡◌, refl, sym, ap, ◌∙◌, [], ◌∷◌, ◌++◌, arith,
}
use rpc_framework.Prelude.Xor.{bit_xor, xor-lt, xor_comm, xor_assoc, xor_self, zero-xor, xor-zero}
use rpc_framework.Network.Buffer.{Bytes}
use rpc_framework.Codec.Crc.{crc_byte, crc_loop, crc32, all_ones}
use rpc_framework.Codec.Crc.Polynomial.{
  AreBytes, polynomial, reduce, reduce_times, crc_byte-eq, crc_loop-lt, crc_byte-lt,
}

-- What was added can be added again.
xor_cancel : (a b p : ℕ) → bit_xor a p ≡ bit_xor b p → a ≡ b
xor_cancel a b p h = sym (undo a) ∙ ap (λ (t : ℕ). bit_xor t p) h ∙ undo b
  where
    undo : (x : ℕ) → bit_xor (bit_xor x p) p ≡ x
    undo x = xor_assoc x p p ∙ ap (bit_xor x) (xor_self p) ∙ xor-zero x

xor_cancel_left : (a b p : ℕ) → bit_xor p a ≡ bit_xor p b → a ≡ b
xor_cancel_left a b p h = xor_cancel a b p (xor_comm a p ∙ h ∙ xor_comm p b)

-- The polynomial sets the highest bit of the register.
reduce_high : (x : ℕ) → x < 2 ^ 31 → 2 ^ 31 ≤ bit_xor x polynomial
reduce_high x h = go (bit_xor x polynomial) refl (dec_le (2 ^ 31) (bit_xor x polynomial))
  where
    go :
        (y : ℕ)
        → bit_xor x polynomial ≡ y
        → Dec (2 ^ 31 ≤ bit_xor x polynomial)
        → 2 ^ 31 ≤ bit_xor x polynomial
    go y e (yes p) = p
    go y e (no n) =
        let back : bit_xor x (bit_xor x polynomial) ≡ polynomial =
          sym (xor_assoc x x polynomial)
          ∙ ap (λ (t : ℕ). bit_xor t polynomial) (xor_self x)
          ∙ zero-xor polynomial in
        absurd (omega (arith, back, xor-lt 31 x (bit_xor x polynomial) h (omega arith)))

reduce_injective : (x y : ℕ) → x < 2 ^ 32 → y < 2 ^ 32 → reduce x ≡ reduce y → x ≡ y
unfolding reduce
reduce_injective x y hx hy h =
    ground (arith, reduce_high (x / 2), reduce_high (y / 2), xor_cancel (x / 2) (y / 2) polynomial)

reduce-lt : (x : ℕ) → x < 2 ^ 32 → reduce x < 2 ^ 32
unfolding reduce
reduce-lt x h = ground (arith, xor-lt 32 (x / 2) polynomial)

reduce_times_injective :
    (n x y : ℕ) → x < 2 ^ 32 → y < 2 ^ 32 → reduce_times n x ≡ reduce_times n y → x ≡ y
unfolding reduce_times
reduce_times_injective zero x y hx hy h = h
reduce_times_injective (suc n) x y hx hy h =
    reduce_injective x y hx hy
      (reduce_times_injective n (reduce x) (reduce y) (reduce-lt x hx) (reduce-lt y hy) h)

-- A byte entered into two registers gives one register only if they were one.
crc_byte_injective :
    (c d byte : ℕ)
    → c < 2 ^ 32
    → d < 2 ^ 32
    → byte < 256
    → crc_byte c byte ≡ crc_byte d byte
    → c ≡ d
crc_byte_injective c d byte hc hd hb h = xor_cancel c d byte (
    reduce_times_injective 8 (bit_xor c byte) (bit_xor d byte) (xor-lt 32 c byte hc (omega arith))
      (xor-lt 32 d byte hd (omega arith)) (sym (crc_byte-eq c byte hb) ∙ h ∙ crc_byte-eq d byte hb))

crc_loop_injective :
    (c d : ℕ) (bytes : Bytes)
    → c < 2 ^ 32
    → d < 2 ^ 32
    → AreBytes bytes
    → crc_loop c bytes ≡ crc_loop d bytes
    → c ≡ d
unfolding crc_loop
crc_loop_injective c d [] hc hd hb h = h
crc_loop_injective c d (b ∷ bs) hc hd hb h = crc_byte_injective c d b hc hd hb.0 (
    crc_loop_injective (crc_byte c b) (crc_byte d b) bs (crc_byte-lt c b hc) (crc_byte-lt d b hd)
      hb.1 h)

-- Two bytes entered into one register give one register only if they were one.
crc_byte_byte : (c a b : ℕ) → c < 2 ^ 32 → a < 256 → b < 256 → crc_byte c a ≡ crc_byte c b → a ≡ b
crc_byte_byte c a b hc ha hb h = xor_cancel_left a b c (
    reduce_times_injective 8 (bit_xor c a) (bit_xor c b) (xor-lt 32 c a hc (omega arith))
      (xor-lt 32 c b hc (omega arith)) (sym (crc_byte-eq c a ha) ∙ h ∙ crc_byte-eq c b hb))

crc_loop-append : (c : ℕ) (xs ys : Bytes) → crc_loop c (xs ++ ys) ≡ crc_loop (crc_loop c xs) ys
unfolding crc_loop
crc_loop-append c [] ys = refl
crc_loop-append c (x ∷ xs) ys = crc_loop-append (crc_byte c x) xs ys

-- Two byte strings that differ in one byte at most and have the same checksum are the same.
pub crc32_one_byte :
    (xs ys : Bytes) (a b : ℕ)
    → AreBytes ys
    → a < 256
    → b < 256
    → crc32 (xs ++ a ∷ ys) ≡ crc32 (xs ++ b ∷ ys)
    → a ≡ b
unfolding crc32
crc32_one_byte xs ys a b hy ha hb h =
    let c : ℕ = crc_loop all_ones xs in
    let hc = crc_loop-lt all_ones xs (omega arith) in
    let same =
      sym (crc_loop-append all_ones xs (a ∷ ys))
      ∙ xor_cancel (crc_loop all_ones (xs ++ a ∷ ys)) (crc_loop all_ones (xs ++ b ∷ ys)) all_ones h
      ∙ crc_loop-append all_ones xs (b ∷ ys) in
    crc_byte_byte c a b hc ha hb (
      crc_loop_injective (crc_byte c a) (crc_byte c b) ys (crc_byte-lt c a hc) (crc_byte-lt c b hc)
        hy (unfold crc_loop in same))
