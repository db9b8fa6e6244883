-- ===== src/Codec/Words.antt =====
-- src/codec/rpc_codec.cc: `encodeU16`, `encodeU32`, `encodeU64` and their inverses. `htons`, `htonl`
-- and `htobe64` followed by a `memcpy` of the word put its bytes down from the highest, on every
-- host; a value is taken modulo the width, as the casts before the calls do.
use rpc_framework.Prelude.{
  ℕ, zero, suc, ◌+◌, ◌*◌, ◌/◌, ◌%◌, ◌^◌, ◌<◌, ◌≡◌, refl, [], ◌∷◌, ◌++◌, arith, length,
  length-append,
}
use native.Mathlib.Nat.{pow-suc}
use rpc_framework.Network.Buffer.{Bytes}
use rpc_framework.Codec.Crc.Polynomial.{AreBytes, AreBytes-append}

unfoldable pub big_endian : ℕ → ℕ → Bytes
big_endian zero v = []
big_endian (suc w) v = big_endian w (v / 256) ++ (v % 256) ∷ []

unfoldable pub of_big_endian : ℕ → Bytes → ℕ
of_big_endian acc [] = acc
of_big_endian acc (b ∷ bs) = of_big_endian (acc * 256 + b) bs

unfoldable pub encode_u16 : ℕ → Bytes
encode_u16 v = big_endian 2 v

unfoldable pub encode_u32 : ℕ → Bytes
encode_u32 v = big_endian 4 v

unfoldable pub encode_u64 : ℕ → Bytes
encode_u64 v = big_endian 8 v

unfoldable pub decode_word : Bytes → ℕ
decode_word bytes = of_big_endian 0 bytes

pub length-big_endian : (w v : ℕ) → length (big_endian w v) ≡ w
unfolding big_endian
length-big_endian zero v = refl
length-big_endian (suc w) v =
    omega (
      arith,
      length-append (big_endian w (v / 256)) ((v % 256) ∷ []),
      length-big_endian w (v / 256),
    )

of_big_endian-append :
    (acc : ℕ) (xs : Bytes) (b : ℕ)
    → of_big_endian acc (xs ++ b ∷ []) ≡ of_big_endian acc xs * 256 + b
unfolding of_big_endian
of_big_endian-append acc [] b = refl
of_big_endian-append acc (x ∷ xs) b = of_big_endian-append (acc * 256 + x) xs b

pub of_big_endian-big_endian : (w v : ℕ) → v < 256 ^ w → of_big_endian 0 (big_endian w v) ≡ v
unfolding big_endian of_big_endian
of_big_endian-big_endian zero v h = omega arith
of_big_endian-big_endian (suc w) v h = omega (
  arith,
  of_big_endian-append 0 (big_endian w (v / 256)) (v % 256),
  of_big_endian-big_endian w (v / 256) (omega (arith, pow-suc 256 w)),
)

pub big_endian-AreBytes : (w v : ℕ) → AreBytes (big_endian w v)
unfolding big_endian
big_endian-AreBytes zero v = tt
big_endian-AreBytes (suc w) v =
    AreBytes-append (big_endian w (v / 256)) _ (big_endian-AreBytes w (v / 256)) (omega arith, tt)

-- Reading a word that was written gives the value back, at each of the three widths.
pub decode-encode_u16 : (v : ℕ) → v < 2 ^ 16 → decode_word (encode_u16 v) ≡ v
unfolding decode_word encode_u16
decode-encode_u16 v h = of_big_endian-big_endian 2 v h

pub decode-encode_u32 : (v : ℕ) → v < 2 ^ 32 → decode_word (encode_u32 v) ≡ v
unfolding decode_word encode_u32
decode-encode_u32 v h = of_big_endian-big_endian 4 v h

pub decode-encode_u64 : (v : ℕ) → v < 2 ^ 64 → decode_word (encode_u64 v) ≡ v
unfolding decode_word encode_u64
decode-encode_u64 v h = of_big_endian-big_endian 8 v h
