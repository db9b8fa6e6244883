-- ===== src/Codec/Verdicts/Refusal.antt =====
-- Packets that `decode` does not deliver: those that are not all there, and those that are too long.
use rpc_framework.Prelude.{
  ℕ, ◌+◌, ◌-◌, ◌^◌, ◌≤◌, ◌<◌, ◌≡◌, sym, ap, ◌∙◌, false, ◌++◌, arith, tests, inl, inr, ltb, lt→ltb,
  le→ltb, Bool-cases, length, take, length-append, length-take,
}
use mathlib.Core.List.{append_assoc}
use rpc_framework.Prelude.Slices.{take_past}
use rpc_framework.Network.Buffer.{Buffer, Bytes, readable_bytes, retrieve_all}
use rpc_framework.Network.Buffer.Contents.{IsValid, contents, length-contents}
use rpc_framework.Codec.Crc.{crc32}
use rpc_framework.Codec.Words.{encode_u32}
use rpc_framework.Codec.Message.{DecodedPacket, MsgType, Protobuf}
use rpc_framework.Codec.Encode.{
  fixed_header, pack, fixed_header_size, checksum_size, max_body_len, max_buffer_size,
}
use rpc_framework.Codec.Decode.{decode, decode_sized, Decoded}
use rpc_framework.Codec.Roundtrip.Header.{length-fixed_header, length-pack}
use rpc_framework.Codec.Verdicts.Fields.{decode-fixed_header}

module _ (proto : Protobuf) (buf : Buffer) (v : IsValid buf) (p : DecodedPacket) where
  pub decode_short : readable_bytes buf < fixed_header_size → decode proto buf p ≡ (false, buf, p)
  unfolding decode
  decode_short h = rw (lt→ltb (readable_bytes buf) fixed_header_size h)

  decode_flooded :
      fixed_header_size ≤ readable_bytes buf
      → max_buffer_size < readable_bytes buf
      → decode proto buf p ≡ (false, retrieve_all buf, p)
  unfolding decode
  decode_flooded h k = rw (
    le→ltb (readable_bytes buf) fixed_header_size h,
    lt→ltb max_buffer_size (readable_bytes buf) k,
  )

  decode_sized_waits :
      (n : ℕ)
      → n ≤ max_body_len
      → readable_bytes buf < fixed_header_size + n + checksum_size
      → decode_sized proto buf n p ≡ (false, buf, p)
  unfolding decode_sized
  decode_sized_waits n h k = rw (
    le→ltb max_body_len n h,
    lt→ltb (readable_bytes buf) (fixed_header_size + n + checksum_size) k,
  )

  take-pack :
      (t : MsgType) (id m : ℕ) (body : Bytes)
      → take (fixed_header_size + m) (pack t id body)
        ≡ fixed_header t (length body) id
          ++ take m (body ++ encode_u32 (crc32 (fixed_header t (length body) id ++ body)))
  unfolding pack
  take-pack t id m body =
      ap (take (fixed_header_size + m)) (append_assoc (fixed_header t (length body) id) body _)
      ∙ take_past fixed_header_size m (fixed_header t (length body) id) _
          (length-fixed_header t (length body) id)

  -- When a valid buffer holds a proper prefix of a packet, of whatever length, and the whole packet
  -- would fit the buffer limit, `decode` returns false and changes neither buffer nor packet: the
  -- bytes that follow complete it.
  pub decode_prefix :
      (t : MsgType) (id k : ℕ) (body : Bytes)
      → k < length (pack t id body)
      → length (pack t id body) ≤ max_buffer_size
      → contents buf ≡ take k (pack t id body)
      → decode proto buf p ≡ (false, buf, p)
  decode_prefix t id k body short room looks =
      let l = length-pack t id body in
      let c : readable_bytes buf ≡ k =
        omega (arith, length-contents buf v, ap length looks, length-take k (pack t id body)) in
      elim (Bool-cases (ltb k fixed_header_size)) [
        | inl headless ↦ decode_short (omega (tests, c))
        | inr headed ↦
            let m : fixed_header_size + (k - fixed_header_size) ≡ k = omega tests in
            decode-fixed_header t (length body) id
              (take (k - fixed_header_size)
                (body ++ encode_u32 (crc32 (fixed_header t (length body) id ++ body))))
              proto buf p
              (looks
                ∙ ap (λ (j : ℕ). take j (pack t id body)) (sym m)
                ∙ take-pack t id (k - fixed_header_size) body)
              (omega (arith, l)) (omega (tests, c)) (omega (arith, c))
            ∙ decode_sized_waits (length body) (omega (arith, l)) (omega (arith, l, c))
      ]

  never_sized :
      (n : ℕ)
      → max_buffer_size < fixed_header_size + n + checksum_size
      → readable_bytes buf ≤ max_buffer_size
      → (decode_sized proto buf n p).0 ≡ false
  unfolding decode_sized
  never_sized n h k = elim (Bool-cases (ltb max_body_len n)) [
    | inl over ↦ rw over
    | inr under ↦
        rw
          (under, lt→ltb (readable_bytes buf) (fixed_header_size + n + checksum_size) (omega arith))
  ]

  -- A header that declares a body of more than `kMaxBufferSize - 22` bytes is never decoded,
  -- although lengths up to `kMaxBodyLen` pass the check of the length: whatever follows it and
  -- however much has arrived, `decode` returns false.
  pub decode_never :
      (t : MsgType) (n id : ℕ) (behind : Bytes)
      → n < 2 ^ 32
      → max_buffer_size < fixed_header_size + n + checksum_size
      → contents buf ≡ fixed_header t n id ++ behind
      → (decode proto buf p).0 ≡ false
  decode_never t n id behind fits over looks =
      let size = ap length looks in
      let parts = length-append (fixed_header t n id) behind in
      let l = length-fixed_header t n id in
      let c = length-contents buf v in
      elim (Bool-cases (ltb max_buffer_size (readable_bytes buf))) [
        | inl flooded ↦
            ap (λ (d : Decoded). d.0)
              (decode_flooded (omega (arith, size, parts, l, c)) (omega tests))
        | inr room ↦
            ap (λ (d : Decoded). d.0)
              (decode-fixed_header t n id behind proto buf p looks fits
                (omega (arith, size, parts, l, c)) (omega tests))
            ∙ never_sized n over (omega tests)
      ]
