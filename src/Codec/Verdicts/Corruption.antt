-- ===== src/Codec/Verdicts/Corruption.antt =====
-- A packet whose checksum does not fit.
use rpc_framework.Prelude.{
  ℕ, ◌+◌, ◌-◌, ◌^◌, ◌≤◌, ◌<◌, ◌≡◌, ◌≢◌, refl, sym, ap, ◌∙◌, false, ◌∷◌, ◌++◌, arith, le→ltb,
  ==_of_ne, length, take, drop, length-append,
}
use mathlib.Core.List.{append_assoc}
use rpc_framework.Prelude.Slices.{take_exact, drop_exact}
use rpc_framework.Network.Buffer.{Buffer, Bytes, readable_bytes, peek, retrieve}
use rpc_framework.Network.Buffer.Contents.{
  IsValid, contents, length-contents, contents-retrieve, retrieve-IsValid,
}
use rpc_framework.Codec.Crc.{crc32}
use rpc_framework.Codec.Crc.Polynomial.{AreBytes, crc32-lt}
use rpc_framework.Codec.Crc.Detection.{crc32_one_byte}
use rpc_framework.Codec.Words.{encode_u32, length-big_endian, decode-encode_u32}
use rpc_framework.Codec.Message.{DecodedPacket, MsgType, Protobuf}
use rpc_framework.Codec.Encode.{
  fixed_header, fixed_header_size, checksum_size, max_body_len, max_buffer_size,
}
use rpc_framework.Codec.Decode.{decode, decode_sized}
use rpc_framework.Codec.Roundtrip.Header.{peek-eq-contents, length-fixed_header}
use rpc_framework.Codec.Roundtrip.Packet.{Leaves}
use rpc_framework.Codec.Verdicts.Fields.{decode-fixed_header}

module _ (t : MsgType) (id sum : ℕ) (body rest : Bytes) where
  abbrev covered : Bytes
  covered = fixed_header t (length body) id ++ body

  abbrev pub framed : Bytes
  framed = covered ++ (encode_u32 sum ++ rest)

  abbrev total : ℕ
  total = fixed_header_size + length body + checksum_size

  length-covered : length covered ≡ fixed_header_size + length body
  length-covered = omega (
    arith,
    length-append (fixed_header t (length body) id) body,
    length-fixed_header t (length body) id,
  )

  length-encode_u32 : length (encode_u32 sum) ≡ checksum_size
  unfolding encode_u32
  length-encode_u32 = length-big_endian 4 sum

  length-framed : length framed ≡ total + length rest
  length-framed = omega (
    arith,
    length-append covered (encode_u32 sum ++ rest),
    length-append (encode_u32 sum) rest,
    length-covered,
    length-encode_u32,
  )

  drop-framed : drop total framed ≡ rest
  drop-framed =
      ap (drop total) (sym (append_assoc covered (encode_u32 sum) rest))
      ∙ drop_exact total (covered ++ encode_u32 sum) rest
          (omega (arith, length-append covered (encode_u32 sum), length-covered, length-encode_u32))

  covered_field : (g : Bytes) → take (fixed_header_size + length body) (framed ++ g) ≡ covered
  covered_field g =
      ap (take (fixed_header_size + length body)) (append_assoc covered (encode_u32 sum ++ rest) g)
      ∙ take_exact (fixed_header_size + length body) covered _ length-covered

  sum_field :
      (g : Bytes) → take 4 (drop (fixed_header_size + length body) (framed ++ g)) ≡ encode_u32 sum
  sum_field g =
      ap (λ (bs : Bytes). take 4 bs)
        (ap (drop (fixed_header_size + length body))
            (append_assoc covered (encode_u32 sum ++ rest) g)
          ∙ drop_exact (fixed_header_size + length body) covered _ length-covered
          ∙ append_assoc (encode_u32 sum) rest g)
      ∙ take_exact 4 (encode_u32 sum) (rest ++ g) length-encode_u32

  module _ (proto : Protobuf) (buf : Buffer) (v : IsValid buf) (p : DecodedPacket) where
    sized_mismatch :
        sum < 2 ^ 32
        → crc32 covered ≢ sum
        → contents buf ≡ framed
        → readable_bytes buf ≤ max_buffer_size
        → decode_sized proto buf (length body) p ≡ (false, retrieve buf total, p)
    unfolding decode_sized
    sized_mismatch fits wrong looks room =
        let junk = drop (buf.writer - buf.reader) (drop buf.reader buf.bytes) in
        let front : peek buf ≡ framed ++ junk =
          peek-eq-contents buf ∙ ap (λ (xs : Bytes). xs ++ junk) looks in
        let size : readable_bytes buf ≡ total + length rest =
          omega (arith, length-contents buf v, ap length looks, length-framed) in
        rw (
          le→ltb max_body_len (length body) (omega arith),
          le→ltb (readable_bytes buf) total (omega arith),
          front,
          covered_field junk,
          sum_field junk,
          decode-encode_u32 sum fits,
          ==_of_ne (crc32 covered) sum wrong,
        )

    -- A whole packet whose checksum is not that of its header and body, in a valid buffer within
    -- the limit: `decode` returns false, leaves the packet untouched, and drops exactly these bytes.
    pub decode_mismatch :
        sum < 2 ^ 32
        → crc32 covered ≢ sum
        → contents buf ≡ framed
        → length (contents buf) ≤ max_buffer_size
        → let (ok, buf', p') = decode proto buf p in (ok ≡ false) × Leaves buf' rest × (p' ≡ p)
    decode_mismatch fits wrong looks room =
        let size : readable_bytes buf ≡ total + length rest =
          omega (arith, length-contents buf v, ap length looks, length-framed) in
        let small : readable_bytes buf ≤ max_buffer_size = omega (arith, length-contents buf v) in
        rw
          (decode-fixed_header t (length body) id (body ++ (encode_u32 sum ++ rest)) proto buf p
              (looks ∙ append_assoc (fixed_header t (length body) id) body (encode_u32 sum ++ rest))
              (omega arith) (omega arith) small
            ∙ sized_mismatch fits wrong looks small)
          (
            refl,
            (
              contents-retrieve buf total v ∙ ap (drop total) looks ∙ drop-framed,
              retrieve-IsValid buf total v,
            ),
            refl,
          )

-- One byte of a packet's body is changed on the way, to another byte, and nothing else. In a valid
-- buffer within the limit `decode` returns false, leaves the packet untouched, and drops exactly
-- the damaged packet.
pub decode_damaged :
    (proto : Protobuf) (buf : Buffer) (p : DecodedPacket) (t : MsgType) (id : ℕ)
    (xs ys rest : Bytes) (a b : ℕ)
    → IsValid buf
    → AreBytes ys
    → a < 256
    → b < 256
    → a ≢ b
    → contents buf
      ≡ framed t id
          (crc32 (fixed_header t (length (xs ++ a ∷ ys)) id ++ (xs ++ a ∷ ys)))
          (xs ++ b ∷ ys)
          rest
    → length (contents buf) ≤ max_buffer_size
    → let (ok, buf', p') = decode proto buf p in (ok ≡ false) × Leaves buf' rest × (p' ≡ p)
decode_damaged proto buf p t id xs ys rest a b v hy ha hb ne looks room =
    decode_mismatch t id (crc32 sent) (xs ++ b ∷ ys) rest proto buf v p (crc32-lt sent) wrong looks
      room
  where
    sent : Bytes
    sent = fixed_header t (length (xs ++ a ∷ ys)) id ++ (xs ++ a ∷ ys)

    same_length : length (xs ++ a ∷ ys) ≡ length (xs ++ b ∷ ys)
    same_length = omega (arith, length-append xs (a ∷ ys), length-append xs (b ∷ ys))

    wrong : crc32 (fixed_header t (length (xs ++ b ∷ ys)) id ++ (xs ++ b ∷ ys)) ≢ crc32 sent
    wrong e =
        let h = fixed_header t (length (xs ++ b ∷ ys)) id in
        ne (
          crc32_one_byte (h ++ xs) ys a b hy ha hb (
            ap crc32 (
              append_assoc h xs (a ∷ ys)
              ∙ ap (λ (n : ℕ). fixed_header t n id ++ (xs ++ a ∷ ys)) (sym same_length))
            ∙ sym e
            ∙ ap crc32 (sym (append_assoc h xs (b ∷ ys)))))
