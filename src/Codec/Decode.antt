-- ===== src/Codec/Decode.antt =====
-- src/codec/rpc_codec.cc: the three body decoders and `Codec::decode`. The callees stay shut.
use rpc_framework.Prelude.{
  ℕ, zero, suc, ◌+◌, ◌-◌, Bool, true, false, Option, none, some, ltb, leb, ◌==◌, if◌then◌else◌, min,
  take, drop, get_or,
}
use rpc_framework.Prelude.Table.{insert}
use rpc_framework.Prelude.{list_eq, nat_eq}
use rpc_framework.Network.Buffer.{Buffer, Bytes, readable_bytes, peek, retrieve, retrieve_all}
use rpc_framework.Codec.Crc.{crc32}
use rpc_framework.Codec.Words.{decode_word}
use rpc_framework.Codec.Message.{
  DecodedPacket, MsgType, request, response, heartbeat, Status, success, failed, timeout, Protobuf,
}
use rpc_framework.Codec.Encode.{
  magic, version, fixed_header_size, checksum_size, max_body_len, max_scan_bytes, max_buffer_size,
}
use rpc_framework.Codec.Cursor.{
  Cursor, Reader, ◌>>=◌, ◌>>◌, check, update, read_bytes, read_word, read_string, at_end,
}

-- A byte above `TIMEOUT` counts as `FAILED`.
unfoldable pub status_of : ℕ → Status
status_of s =
    if leb s 2 then (if s == 0 then success else if s == 1 then failed else timeout) else failed

-- The rounds of the loop over the extras: each is entered into the packet's own map at once.
unfoldable pub read_extras : Bytes → ℕ → ℕ → Reader (Unit {0})
read_extras src total zero = check true
read_extras src total (suc n) = do
  key ← read_string src total
  value ← read_string src total
  update (λ p. record p {
    heartbeat = record p.heartbeat { extra = insert key value p.heartbeat.extra };
  })
  read_extras src total n

unfoldable pub decode_heartbeat_body : Bytes → ℕ → Reader (Unit {0})
decode_heartbeat_body src total = do
  service ← read_string src total
  node ← read_string src total
  timestamp ← read_word src total 8
  count ← read_word src total 2
  read_extras src total count
  at_end total
  update (λ p. record p {
    heartbeat = record p.heartbeat {
      service_name = service;
      node_id = node;
      timestamp = timestamp;
    };
  })

-- The magic is looked for at `i`, `i + 1`, …, for `rounds` positions.
unfoldable pub scan_magic : Bytes → ℕ → ℕ → Option ℕ
scan_magic src i zero = none
scan_magic src i (suc rounds) =
    let rest = scan_magic src (i + 1) rounds in
    if decode_word (take 4 (drop i src)) == magic then some i else rest

-- What becomes of a buffer that does not begin with the magic: it is cut to the first magic within
-- the scan limit, or emptied. The positions are those with `i + 4 <= scanLimit`.
abbrev pub cut : Buffer → Option ℕ → Buffer
cut buf none = retrieve_all buf
cut buf (some i) = retrieve buf i

unfoldable pub resync : Buffer → Buffer
resync buf = cut buf (scan_magic (peek buf) 1 (min (readable_bytes buf) max_scan_bytes - 4))

abbrev pub Decoded : Type 0
Decoded = Bool × Buffer × DecodedPacket

-- The position is reset for each body, and the packet goes on.
abbrev pub verdict : Option (Unit {0}) × Cursor → Bool × DecodedPacket
verdict (none, c) = (false, c.packet)
verdict (some u, c) = (true, c.packet)

abbrev pub run_body : Reader (Unit {0}) → DecodedPacket → Bool × DecodedPacket
run_body body p = verdict (body (record { pos = 0; packet = p }))

-- After the `switch`: the whole packet is consumed in either case.
abbrev pub finish : Buffer → ℕ → ℕ → MsgType → Bool × DecodedPacket → Decoded
finish buf total req_id type (false, p) = (false, retrieve buf total, record p { msg_type = type })
finish buf total req_id type (true, p) =
    (true, retrieve buf total, record p { msg_type = type; req_id = req_id })

module _ (proto : Protobuf) where
  unfoldable pub decode_request_body : Bytes → ℕ → Reader (Unit {0})
  decode_request_body src total = do
    service ← read_string src total
    update (λ p. record p { service_name = service })
    method ← read_string src total
    update (λ p. record p { method_name = method })
    len ← read_word src total 4
    payload ← read_bytes src total len
    at_end total
    let parsed = proto.parse_request payload
    update (λ p. record p { rpc_request = parsed.1 })
    check parsed.0

  unfoldable pub decode_response_body : Bytes → ℕ → Reader (Unit {0})
  decode_response_body src total = do
    status ← read_word src total 1
    len ← read_word src total 4
    payload ← read_bytes src total len
    at_end total
    let parsed = proto.parse_response payload
    update (λ p. record p { rpc_response = parsed.1 })
    check parsed.0
    update (λ p. record p { network_status = status_of status })

  -- The `switch` over the message type.
  unfoldable pub decode_body : Buffer → ℕ → ℕ → DecodedPacket → Decoded
  decode_body buf body_len req_id packet =
      let src = drop fixed_header_size (peek buf) in
      let msg_type = get_or (peek buf) 5 0 in
      let total = fixed_header_size + body_len + checksum_size in
      if msg_type == 0
      then finish buf total req_id request (run_body (decode_request_body src body_len) packet)
      else if msg_type == 1
      then finish buf total req_id response (run_body (decode_response_body src body_len) packet)
      else if msg_type == 2
      then finish buf total req_id heartbeat (run_body (decode_heartbeat_body src body_len) packet)
      else (false, retrieve buf total, packet)

  -- The checks from the body's length on.
  unfoldable pub decode_sized : Buffer → ℕ → DecodedPacket → Decoded
  decode_sized buf body_len packet =
      let src = peek buf in
      let total = fixed_header_size + body_len + checksum_size in
      if ltb max_body_len body_len
      then (false, retrieve_all buf, packet)
      else if ltb (readable_bytes buf) total
      then (false, buf, packet)
      else if crc32 (take (fixed_header_size + body_len) src)
          == decode_word (take 4 (drop (fixed_header_size + body_len) src))
      then decode_body buf body_len (decode_word (take 8 (drop 10 src))) packet
      else (false, retrieve buf total, packet)

  unfoldable pub decode : Buffer → DecodedPacket → Decoded
  decode buf packet =
      let src = peek buf in
      if ltb (readable_bytes buf) fixed_header_size
      then (false, buf, packet)
      else if ltb max_buffer_size (readable_bytes buf)
      then (false, retrieve_all buf, packet)
      else if decode_word (take 4 src) == magic
      then (if get_or src 4 0 == version
          then decode_sized buf (decode_word (take 4 (drop 6 src))) packet
          else (false, retrieve_all buf, packet))
      else (false, resync buf, packet)
