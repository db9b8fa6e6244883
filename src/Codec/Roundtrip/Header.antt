-- ===== src/Codec/Roundtrip/Header.antt =====
-- `Codec::decode` on a buffer that begins with a packed body: it reaches the body's decoder.
use rpc_framework.Prelude.{
  ℕ, ◌+◌, ◌-◌, ◌^◌, ◌≤◌, ◌<◌, ◌≡◌, refl, sym, ap, ◌∙◌, ◌++◌, arith, ==_refl, le→ltb, length, take,
  drop, get_or, length-append, take-append-drop,
}
use mathlib.Core.List.{append_assoc}
use rpc_framework.Prelude.Slices.{take_exact, drop_exact}
use rpc_framework.Network.Buffer.{Buffer, Bytes, readable_bytes, peek}
use rpc_framework.Network.Buffer.Contents.{contents}
use rpc_framework.Codec.Crc.{crc32}
use rpc_framework.Codec.Crc.Polynomial.{crc32-lt}
use rpc_framework.Codec.Words.{
  big_endian, encode_u32, encode_u64, length-big_endian, decode-encode_u32, decode-encode_u64,
}
use rpc_framework.Codec.Message.{MsgType, msg_type_code, DecodedPacket, Protobuf}
use rpc_framework.Codec.Encode.{
  fixed_header, pack, fixed_header_size, checksum_size, max_body_len, max_buffer_size, magic,
}
use rpc_framework.Codec.Decode.{decode, decode_sized, decode_body}

-- Behind the readable bytes lies what the vector holds past them.
pub peek-eq-contents :
    (b : Buffer) → peek b ≡ contents b ++ drop (b.writer - b.reader) (drop b.reader b.bytes)
unfolding peek
peek-eq-contents b = sym (take-append-drop (b.writer - b.reader) (drop b.reader b.bytes))

pub length-fixed_header :
    (t : MsgType) (n id : ℕ) → length (fixed_header t n id) ≡ fixed_header_size
unfolding fixed_header encode_u32 encode_u64 big_endian
length-fixed_header t n id = refl

pub length-pack :
    (t : MsgType) (id : ℕ) (body : Bytes)
    → length (pack t id body) ≡ fixed_header_size + length body + checksum_size
unfolding pack encode_u32
length-pack t id body =
    let packet = fixed_header t (length body) id ++ body in
    omega (
      arith,
      length-append packet (big_endian 4 (crc32 packet)),
      length-append (fixed_header t (length body) id) body,
      length-fixed_header t (length body) id,
      length-big_endian 4 (crc32 packet),
    )

-- The fields of the header where the decoder looks for them, and the bytes behind it.
module _ (t : MsgType) (id : ℕ) (body g : Bytes) where
  abbrev stream : Bytes
  stream = pack t id body ++ g

  abbrev covered : Bytes
  covered = fixed_header t (length body) id ++ body

  abbrev pub trailer : Bytes
  trailer = encode_u32 (crc32 covered) ++ g

  stream-eq : stream ≡ covered ++ trailer
  unfolding pack
  stream-eq = append_assoc covered (encode_u32 (crc32 covered)) g

  length-covered : length covered ≡ fixed_header_size + length body
  length-covered = omega (
    arith,
    length-append (fixed_header t (length body) id) body,
    length-fixed_header t (length body) id,
  )

  magic_field : take 4 stream ≡ encode_u32 magic
  unfolding pack encode_u32 encode_u64 big_endian fixed_header
  magic_field = refl

  version_field : get_or stream 4 0 ≡ 1
  unfolding pack encode_u32 encode_u64 big_endian fixed_header
  version_field = refl

  pub type_field : get_or stream 5 0 ≡ msg_type_code t
  unfolding pack encode_u32 encode_u64 big_endian fixed_header
  type_field = refl

  length_field : take 4 (drop 6 stream) ≡ encode_u32 (length body)
  unfolding pack encode_u32 encode_u64 big_endian fixed_header
  length_field = refl

  id_field : take 8 (drop 10 stream) ≡ encode_u64 id
  unfolding pack encode_u32 encode_u64 big_endian fixed_header
  id_field = refl

  pub body_field : drop fixed_header_size stream ≡ body ++ trailer
  body_field =
      ap (drop fixed_header_size)
        (stream-eq ∙ append_assoc (fixed_header t (length body) id) body trailer)
      ∙ drop_exact fixed_header_size (fixed_header t (length body) id) (body ++ trailer)
          (length-fixed_header t (length body) id)

  covered_field : take (fixed_header_size + length body) stream ≡ covered
  covered_field =
      ap (take (fixed_header_size + length body)) stream-eq
      ∙ take_exact (fixed_header_size + length body) covered trailer length-covered

  checksum_field :
      take 4 (drop (fixed_header_size + length body) stream) ≡ encode_u32 (crc32 covered)
  unfolding encode_u32
  checksum_field =
      ap (λ (bs : Bytes). take 4 bs)
        (ap (drop (fixed_header_size + length body)) stream-eq
          ∙ drop_exact (fixed_header_size + length body) covered trailer length-covered)
      ∙ take_exact 4 (big_endian 4 (crc32 covered)) g (length-big_endian 4 (crc32 covered))

  module _ (proto : Protobuf) (buf : Buffer) (p : DecodedPacket) where
    -- A whole packet of allowed size reaches the decoder of its body.
    pub decode-pack :
        peek buf ≡ stream
        → id < 2 ^ 64
        → fixed_header_size + length body + checksum_size ≤ readable_bytes buf
        → readable_bytes buf ≤ max_buffer_size
        → decode proto buf p ≡ decode_body proto buf (length body) id p
    unfolding decode decode_sized
    decode-pack looks small whole room = rw (
      le→ltb (readable_bytes buf) fixed_header_size (omega arith),
      le→ltb max_buffer_size (readable_bytes buf) room,
      looks,
      magic_field,
      decode-encode_u32 magic (omega arith),
      version_field,
      length_field,
      decode-encode_u32 (length body) (omega arith),
      le→ltb max_body_len (length body) (omega arith),
      le→ltb (readable_bytes buf) (fixed_header_size + length body + checksum_size) whole,
      covered_field,
      checksum_field,
      decode-encode_u32 (crc32 covered) (crc32-lt covered),
      ==_refl (crc32 covered),
      id_field,
      decode-encode_u64 id small,
    )
