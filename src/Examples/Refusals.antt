-- ===== src/Examples/Refusals.antt =====
-- The packets that `decode` refuses, and the checksum, at small inputs.
use rpc_framework.Prelude.{
  ◌≡◌, ◌≢◌, refl, sym, ap, ◌∙◌, subst, false, [], ◌∷◌, ◌++◌, arith, length, take, replicate,
}
use mathlib.Core.List.{append-nil}
use rpc_framework.Network.Buffer.{Bytes, readable_bytes}
use rpc_framework.Network.Buffer.Contents.{IsValid, contents, length-contents}
use rpc_framework.Codec.Crc.{crc32, crc32_table, crc_byte, crc_loop}
use rpc_framework.Codec.Crc.Polynomial.{crc32_bitwise, crc32-eq-bitwise}
use rpc_framework.Codec.Words.{big_endian, of_big_endian, decode_word, encode_u32, encode_u64}
use rpc_framework.Codec.Message.{request}
use rpc_framework.Codec.Encode.{pack, fixed_header}
use rpc_framework.Codec.Decode.{decode}
use rpc_framework.Codec.Roundtrip.Packet.{Leaves}
use rpc_framework.Codec.Verdicts.Corruption.{framed, decode_damaged}
use rpc_framework.Codec.Verdicts.Refusal.{decode_prefix, decode_never}
use rpc_framework.Codec.Verdicts.Resync.{decode_resync, MagicAt, Resynced}
use rpc_framework.Server.{empty_packet}
use rpc_framework.Examples.{toy, loaded, loaded-IsValid, contents-loaded}

crc32-eq-bitwise_example : crc32 (49 ∷ 50 ∷ []) ≡ crc32_bitwise (49 ∷ 50 ∷ [])
crc32-eq-bitwise_example = crc32-eq-bitwise (49 ∷ 50 ∷ []) (omega arith, (omega arith, tt))

-- A packet with the checksum 0.
abbrev wrong_bytes : Bytes
wrong_bytes = framed request 1 0 (7 ∷ []) []

wrong_sum : crc32 (fixed_header request 1 1 ++ 7 ∷ []) ≢ 0
unfolding crc32 crc_loop crc_byte crc32_table fixed_header encode_u32 encode_u64 big_endian
wrong_sum h = cc

wrong_size : length wrong_bytes ≡ 23
unfolding fixed_header encode_u32 encode_u64 big_endian
wrong_size = refl

-- The byte 3 of the body has become 4.
abbrev damaged_bytes : Bytes
damaged_bytes =
    framed request 1 (crc32 (fixed_header request 3 1 ++ (1 ∷ 3 ∷ 2 ∷ []))) (1 ∷ 4 ∷ 2 ∷ []) []

damaged_size : length damaged_bytes ≡ 25
unfolding fixed_header encode_u32 encode_u64 big_endian
damaged_size = refl

decode_damaged_example :
    let (ok, buf', p') = decode toy (loaded damaged_bytes) empty_packet in
    (ok ≡ false) × Leaves buf' [] × (p' ≡ empty_packet)
decode_damaged_example =
    decode_damaged toy (loaded damaged_bytes) empty_packet request 1 (1 ∷ []) (2 ∷ []) [] 3 4
      (loaded-IsValid damaged_bytes) (omega arith, tt) (omega arith) (omega arith) (omega arith)
      (contents-loaded damaged_bytes)
      (omega (arith, ap length (contents-loaded damaged_bytes), damaged_size))

abbrev prefix_bytes : Bytes
prefix_bytes = take 5 (pack request 1 (7 ∷ []))

pack_size : length (pack request 1 (7 ∷ [])) ≡ 23
unfolding pack fixed_header encode_u32 encode_u64 big_endian
pack_size = refl

decode_prefix_example :
    decode toy (loaded prefix_bytes) empty_packet ≡ (false, loaded prefix_bytes, empty_packet)
decode_prefix_example =
    decode_prefix toy (loaded prefix_bytes) (loaded-IsValid prefix_bytes) empty_packet request 1 5
      (7 ∷ []) (omega (arith, pack_size)) (omega (arith, pack_size)) (contents-loaded prefix_bytes)

abbrev huge_header : Bytes
huge_header = fixed_header request 10485760 1

decode_never_example : (decode toy (loaded huge_header) empty_packet).0 ≡ false
decode_never_example =
    decode_never toy (loaded huge_header) (loaded-IsValid huge_header) empty_packet request 10485760
      1 [] (omega arith) (omega arith) (contents-loaded huge_header ∙ sym (append-nil huge_header))

abbrev zeros : Bytes
zeros = replicate 20 0

no_magic : ¬ MagicAt zeros 0
unfolding decode_word of_big_endian
no_magic h = cc

zeros_size : readable_bytes (loaded zeros) ≡ 20
zeros_size =
    sym (length-contents (loaded zeros) (loaded-IsValid zeros)) ∙ ap length (contents-loaded zeros)

decode_resync_example :
    let (ok, buf', p') = decode toy (loaded zeros) empty_packet in
    (ok ≡ false)
    × (p' ≡ empty_packet)
    × IsValid buf'
    × Resynced (contents (loaded zeros)) (contents buf')
decode_resync_example =
    decode_resync (loaded zeros) (loaded-IsValid zeros) toy empty_packet (omega (arith, zeros_size))
      (omega (arith, zeros_size))
      (λ h. no_magic (subst (λ (xs : Bytes). MagicAt xs 0) (contents-loaded zeros) h))
