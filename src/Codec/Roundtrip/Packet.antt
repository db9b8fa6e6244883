-- ===== src/Codec/Roundtrip/Packet.antt =====
-- A whole packet at the front of a buffer: `decode` is the decoder of its body, and leaves exactly
-- the bytes behind the packet.
use rpc_framework.Prelude.{
  ℕ, ◌+◌, ◌-◌, ◌^◌, ◌≤◌, ◌<◌, ◌≡◌, refl, ap, ◌∙◌, true, ◌++◌, arith, length, drop, length-append,
}
use mathlib.Core.List.{append_assoc}
use rpc_framework.Prelude.Slices.{drop_exact}
use rpc_framework.Network.Buffer.{Buffer, Bytes, peek, retrieve}
use rpc_framework.Network.Buffer.Contents.{
  IsValid, contents, length-contents, contents-retrieve, retrieve-IsValid,
}
use rpc_framework.Codec.Message.{MsgType, request, response, heartbeat, DecodedPacket, Protobuf}
use rpc_framework.Codec.Encode.{pack, fixed_header_size, checksum_size, max_buffer_size}
use rpc_framework.Codec.Cursor.{Reader}
use rpc_framework.Codec.Decode.{
  decode, decode_body, decode_request_body, decode_response_body, decode_heartbeat_body, run_body,
  finish,
}
use rpc_framework.Codec.Roundtrip.Header.{
  peek-eq-contents, length-pack, trailer, type_field, body_field, decode-pack,
}

-- What a decoded packet leaves of the buffer: exactly the bytes behind it.
abbrev pub Leaves : Buffer → Bytes → Type 0
Leaves buf rest = (contents buf ≡ rest) × IsValid buf

abbrev pub packet_size : Bytes → ℕ
packet_size body = fixed_header_size + length body + checksum_size

module _ (t : MsgType) (id : ℕ) (body rest : Bytes) (buf : Buffer) (v : IsValid buf) where
  pub retrieve-Leaves :
      contents buf ≡ pack t id body ++ rest → Leaves (retrieve buf (packet_size body)) rest
  retrieve-Leaves e =
      let n = packet_size body in
      (
        contents-retrieve buf n v
            ∙ ap (drop n) e
            ∙ drop_exact n (pack t id body) rest (length-pack t id body),
        retrieve-IsValid buf n v,
      )

  pub length-body-le :
      contents buf ≡ pack t id body ++ rest
      → length (contents buf) ≤ max_buffer_size
      → length body ≤ max_buffer_size
  length-body-le e room =
      omega (arith, ap length e, length-append (pack t id body) rest, length-pack t id body)

-- The decoder that the `switch` picks.
abbrev pub body_decoder : Protobuf → MsgType → Bytes → ℕ → Reader (Unit {0})
body_decoder proto request = decode_request_body proto
body_decoder proto response = decode_response_body proto
body_decoder proto heartbeat = decode_heartbeat_body

dispatch :
    (proto : Protobuf) (t : MsgType) (id : ℕ) (body g : Bytes) (buf : Buffer) (p : DecodedPacket)
    → peek buf ≡ pack t id body ++ g
    → decode_body proto buf (length body) id p
      ≡ finish buf
          (packet_size body)
          id
          t
          (run_body (body_decoder proto t (body ++ trailer t id body g) (length body)) p)
unfolding decode_body
dispatch proto request id body g buf p e =
    rw (e, type_field request id body g, body_field request id body g)
dispatch proto response id body g buf p e =
    rw (e, type_field response id body g, body_field response id body g)
dispatch proto heartbeat id body g buf p e =
    rw (e, type_field heartbeat id body g, body_field heartbeat id body g)

module _ (proto : Protobuf) (t : MsgType) (id : ℕ) (body rest : Bytes) (buf : Buffer) where
  -- Where the bytes behind the body begin.
  pub beyond : Bytes
  beyond = trailer t id body (rest ++ drop (buf.writer - buf.reader) (drop buf.reader buf.bytes))

  pub decode-packed :
      (p : DecodedPacket)
      → IsValid buf
      → id < 2 ^ 64
      → contents buf ≡ pack t id body ++ rest
      → length (contents buf) ≤ max_buffer_size
      → decode proto buf p
        ≡ finish buf
            (packet_size body)
            id
            t
            (run_body (body_decoder proto t (body ++ beyond) (length body)) p)
  unfolding beyond
  decode-packed p v small looks room =
      let junk = drop (buf.writer - buf.reader) (drop buf.reader buf.bytes) in
      let front : peek buf ≡ pack t id body ++ (rest ++ junk) =
        peek-eq-contents buf
        ∙ ap (λ (xs : Bytes). xs ++ junk) looks
        ∙ append_assoc (pack t id body) rest junk in
      let size = ap length looks in
      let parts = length-append (pack t id body) rest in
      let l = length-pack t id body in
      let c = length-contents buf v in
      decode-pack t id body (rest ++ junk) proto buf p front small
        (omega (arith, size, parts, l, c)) (omega (arith, c))
      ∙ dispatch proto t id body (rest ++ junk) buf p front

  -- When the body's decoder succeeds with `p'`, so does `decode`, and the packet is consumed.
  pub decode-packed_ok :
      (p p' : DecodedPacket)
      → IsValid buf
      → id < 2 ^ 64
      → contents buf ≡ pack t id body ++ rest
      → length (contents buf) ≤ max_buffer_size
      → run_body (body_decoder proto t (body ++ beyond) (length body)) p ≡ (true, p')
      → ((decode proto buf p).0 ≡ true)
        × Leaves (decode proto buf p).1 rest
        × ((decode proto buf p).2 ≡ record p' { msg_type = t; req_id = id })
  decode-packed_ok p p' v small looks room ran =
      rw (decode-packed p v small looks room, ran)
        (refl, retrieve-Leaves t id body rest buf v looks, refl)
