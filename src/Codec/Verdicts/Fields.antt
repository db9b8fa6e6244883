-- ===== src/Codec/Verdicts/Fields.antt =====
-- `decode` on readable bytes that begin with the eighteen bytes of a header, whatever follows.
use rpc_framework.Prelude.{
  ℕ, ◌-◌, ◌^◌, ◌≤◌, ◌<◌, ◌≡◌, refl, ap, ◌∙◌, ◌++◌, arith, le→ltb, take, drop, get_or,
}
use mathlib.Core.List.{append_assoc}
use rpc_framework.Network.Buffer.{Buffer, Bytes, readable_bytes, peek}
use rpc_framework.Network.Buffer.Contents.{contents}
use rpc_framework.Codec.Words.{big_endian, encode_u32, encode_u64, decode-encode_u32}
use rpc_framework.Codec.Message.{MsgType, DecodedPacket, Protobuf}
use rpc_framework.Codec.Encode.{fixed_header, fixed_header_size, max_buffer_size, magic}
use rpc_framework.Codec.Decode.{decode, decode_sized}
use rpc_framework.Codec.Roundtrip.Header.{peek-eq-contents}

module _ (t : MsgType) (n id : ℕ) (behind : Bytes) where
  abbrev stream : Bytes
  stream = fixed_header t n id ++ behind

  magic_field : take 4 stream ≡ encode_u32 magic
  unfolding encode_u32 encode_u64 big_endian fixed_header
  magic_field = refl

  version_field : get_or stream 4 0 ≡ 1
  unfolding encode_u32 encode_u64 big_endian fixed_header
  version_field = refl

  length_field : take 4 (drop 6 stream) ≡ encode_u32 n
  unfolding encode_u32 encode_u64 big_endian fixed_header
  length_field = refl

front_decides :
    (t : MsgType) (n id : ℕ) (proto : Protobuf) (buf : Buffer) (p : DecodedPacket) (after : Bytes)
    → peek buf ≡ fixed_header t n id ++ after
    → n < 2 ^ 32
    → fixed_header_size ≤ readable_bytes buf
    → readable_bytes buf ≤ max_buffer_size
    → decode proto buf p ≡ decode_sized proto buf n p
unfolding decode
front_decides t n id proto buf p after front fits whole room = rw (
  le→ltb (readable_bytes buf) fixed_header_size whole,
  le→ltb max_buffer_size (readable_bytes buf) room,
  front,
  magic_field t n id after,
  decode-encode_u32 magic (omega arith),
  version_field t n id after,
  length_field t n id after,
  decode-encode_u32 n fits,
)

module _ (t : MsgType) (n id : ℕ) (behind : Bytes) where
  -- The magic and the version are in place, so the declared length decides.
  pub decode-fixed_header :
      (proto : Protobuf) (buf : Buffer) (p : DecodedPacket)
      → contents buf ≡ fixed_header t n id ++ behind
      → n < 2 ^ 32
      → fixed_header_size ≤ readable_bytes buf
      → readable_bytes buf ≤ max_buffer_size
      → decode proto buf p ≡ decode_sized proto buf n p
  decode-fixed_header proto buf p looks fits whole room =
      let junk = drop (buf.writer - buf.reader) (drop buf.reader buf.bytes) in
      let front : peek buf ≡ fixed_header t n id ++ (behind ++ junk) =
        peek-eq-contents buf
        ∙ ap (λ (xs : Bytes). xs ++ junk) looks
        ∙ append_assoc (fixed_header t n id) behind junk in
      front_decides t n id proto buf p (behind ++ junk) front fits whole room
