-- ===== src/Codec/Roundtrip/Heartbeats.antt =====
-- `encodeHeartbeat` and then `decode`.
use rpc_framework.Prelude.{
  ℕ, ◌+◌, ◌^◌, ◌≤◌, ◌<◌, ◌≡◌, refl, sym, ap, ◌∙◌, true, List, [], ◌∷◌, ◌++◌, Option, some,
  some-eq-some, arith, ==_refl, length, list_eq, nat_eq,
}
use mathlib.Core.List.{append-nil, append_assoc}
use rpc_framework.Prelude.Table.{insert}
use rpc_framework.Network.Buffer.{Buffer, Bytes}
use rpc_framework.Network.Buffer.Contents.{IsValid, contents}
use rpc_framework.Codec.Words.{big_endian, encode_u16, encode_u64}
use rpc_framework.Codec.Message.{Heartbeat, heartbeat, DecodedPacket, Protobuf}
use rpc_framework.Codec.Encode.{
  append_string, append_pairs, encode_heartbeat_body, encode_heartbeat, pack_body, pack, or_empty,
  max_buffer_size,
}
use rpc_framework.Codec.Encode.Inversion.{>>=-eq-some, append_string-eq-some}
use rpc_framework.Codec.Cursor.Steps.{
  at, Left, Left-start, read_string_lem, Left-string, read_word_lem, Left-word, Left-nil,
}
use rpc_framework.Codec.Decode.{decode, decode_heartbeat_body, read_extras, run_body}
use rpc_framework.Codec.Roundtrip.Packet.{Leaves, decode-packed_ok, beyond}

abbrev Pairs : Type 0
Pairs = List (Bytes × Bytes)

pair_bytes : Pairs → Bytes
pair_bytes [] = []
pair_bytes ((k, v) ∷ rest) =
    encode_u16 (length k) ++ (k ++ (encode_u16 (length v) ++ (v ++ pair_bytes rest)))

abbrev Fit : Pairs → Type 0
Fit [] = Unit {0}
Fit ((k, v) ∷ rest) = (length k ≤ 65535) × (length v ≤ 65535) × Fit rest

-- Entering pairs into a map one after the other.
pub insert_all : Pairs → Pairs → Pairs
insert_all [] m = m
insert_all ((k, v) ∷ rest) m = insert_all rest (insert k v m)

append_pairs-eq-some :
    (out : Bytes) (pairs : Pairs) {body : Bytes}
    → append_pairs out pairs ≡ some body
    → Fit pairs × (body ≡ out ++ pair_bytes pairs)
unfolding append_pairs pair_bytes
append_pairs-eq-some out [] h = (tt, sym (some-eq-some h) ∙ sym (append-nil out))
append_pairs-eq-some out ((k, v) ∷ rest) h =
    let (o₁, e₁, h₁) = >>=-eq-some (append_string out k) _ h in
    let (o₂, e₂, h₂) = >>=-eq-some (append_string o₁ v) _ h₁ in
    let (k_fits, q₁) = append_string-eq-some out k e₁ in
    let (v_fits, q₂) = append_string-eq-some o₁ v e₂ in
    let (rest_fits, q₃) = append_pairs-eq-some o₂ rest h₂ in
    ((k_fits, v_fits, rest_fits), q₃ ∙ nested out o₁ o₂ q₁ q₂)
  where
    nested :
        (out o₁ o₂ : Bytes)
        → o₁ ≡ out ++ (encode_u16 (length k) ++ k)
        → o₂ ≡ o₁ ++ (encode_u16 (length v) ++ v)
        → o₂ ++ pair_bytes rest
          ≡ out
            ++ (encode_u16 (length k) ++ (k ++ (encode_u16 (length v) ++ (v ++ pair_bytes rest))))
    nested out o₁ o₂ e₁ e₂ = rw (e₂, e₁) (simp append_assoc)

abbrev with_extra : DecodedPacket → Pairs → DecodedPacket
with_extra p m = record p { heartbeat = record p.heartbeat { extra = m } }

module _ (src : Bytes) (total : ℕ) where
  read_extras_lem :
      (pos : ℕ) (pairs : Pairs) (p : DecodedPacket)
      → Fit pairs
      → Left src total pos (pair_bytes pairs)
      → read_extras src total (length pairs) (at pos p)
        ≡ (some tt, at total (with_extra p (insert_all pairs p.heartbeat.extra)))
  unfolding read_extras pair_bytes insert_all
  read_extras_lem pos [] p fits l = ap (λ (k : ℕ). (some tt, at k p)) (Left-nil src total pos l)
  read_extras_lem pos ((k, v) ∷ rest) p fits l =
      let l₁ = Left-string src total pos k _ l in
      let l₂ = Left-string src total (pos + 2 + length k) v _ l₁ in
      rw
        (
          read_string_lem src total pos p k _ fits.0 l,
          read_string_lem src total (pos + 2 + length k) p v _ fits.1 l₁,
        )
        (read_extras_lem (pos + 2 + length k + 2 + length v) rest
          (with_extra p (insert k v p.heartbeat.extra)) fits.2 l₂)

module _ (hb : Heartbeat) where
  -- The body from left to right.
  abbrev fields : Bytes
  fields =
      encode_u16 (length hb.service_name)
      ++ (hb.service_name
          ++ (encode_u16 (length hb.node_id)
              ++ (hb.node_id
                  ++ (encode_u64 hb.timestamp
                      ++ (encode_u16 (length hb.extra) ++ pair_bytes hb.extra)))))

  record Body (body : Bytes) : Type 0 where
    service_fits : length hb.service_name ≤ 65535
    node_fits : length hb.node_id ≤ 65535
    extra_fits : Fit hb.extra
    layout : body ≡ fields

  nested :
      (o₁ o₂ : Bytes)
      → o₁ ≡ [] ++ (encode_u16 (length hb.service_name) ++ hb.service_name)
      → o₂ ≡ o₁ ++ (encode_u16 (length hb.node_id) ++ hb.node_id)
      → (o₂ ++ (encode_u64 hb.timestamp ++ encode_u16 (length hb.extra))) ++ pair_bytes hb.extra
        ≡ fields
  nested o₁ o₂ e₁ e₂ = rw (e₂, e₁) (simp append_assoc)

  encode_heartbeat_body-Body : (body : Bytes) → encode_heartbeat_body hb ≡ some body → Body body
  unfolding encode_heartbeat_body
  encode_heartbeat_body-Body body h =
      let (o₁, e₁, h₁) = >>=-eq-some (append_string [] hb.service_name) _ h in
      let (o₂, e₂, h₂) = >>=-eq-some (append_string o₁ hb.node_id) _ h₁ in
      let (s₁, q₁) = append_string-eq-some [] hb.service_name e₁ in
      let (s₂, q₂) = append_string-eq-some o₁ hb.node_id e₂ in
      let (s₃, q₃) =
        append_pairs-eq-some (o₂ ++ (encode_u64 hb.timestamp ++ encode_u16 (length hb.extra)))
          hb.extra h₂ in
      record {
        service_fits = s₁;
        node_fits = s₂;
        extra_fits = s₃;
        layout = q₃ ∙ nested o₁ o₂ q₁ q₂;
      }

  pack_body-fields : (id : ℕ) → pack_body heartbeat id fields ≡ pack heartbeat id fields
  unfolding pack_body encode_u16 big_endian
  pack_body-fields id = refl

  -- The heartbeat as it arrives in a packet: its extras are entered over those already there.
  abbrev pub arrived : DecodedPacket → DecodedPacket
  arrived p = record p {
    heartbeat = record {
      service_name = hb.service_name;
      node_id = hb.node_id;
      timestamp = hb.timestamp;
      extra = insert_all hb.extra p.heartbeat.extra;
    };
  }

  decode_heartbeat_body-fields :
      (body rest : Bytes) (p : DecodedPacket)
      → Body body
      → hb.timestamp < 2 ^ 64
      → length hb.extra ≤ 65535
      → run_body (decode_heartbeat_body (fields ++ rest) (length fields)) p ≡ (true, arrived p)
  unfolding decode_heartbeat_body encode_u16 encode_u64
  decode_heartbeat_body-fields body rest p b ht hx =
      let src : Bytes = fields ++ rest in
      let n : ℕ = length fields in
      let n₁ : ℕ = 0 + 2 + length hb.service_name in
      let n₂ : ℕ = n₁ + 2 + length hb.node_id in
      let l₀ = Left-start fields rest in
      let l₁ = Left-string src n 0 hb.service_name _ l₀ in
      let l₂ = Left-string src n n₁ hb.node_id _ l₁ in
      let l₃ = Left-word src n n₂ 8 hb.timestamp _ l₂ in
      let l₄ = Left-word src n (n₂ + 8) 2 (length hb.extra) _ l₃ in
      rw (
        read_string_lem src n 0 p hb.service_name _ b.service_fits l₀,
        read_string_lem src n n₁ p hb.node_id _ b.node_fits l₁,
        read_word_lem src n n₂ 8 hb.timestamp p _ ht l₂,
        read_word_lem src n (n₂ + 8) 2 (length hb.extra) p _ (omega arith) l₃,
        read_extras_lem src n (n₂ + 8 + 2) hb.extra p b.extra_fits l₄,
        ==_refl n,
      )

  module _ (proto : Protobuf) where
    -- A valid buffer that begins with the packet of a heartbeat, encoded without an error, with a
    -- 64-bit timestamp and request number and at most 65535 extras, and that holds at most the
    -- buffer limit: `decode` returns true, fills in the service, the node and the timestamp, enters
    -- the extras over those that the packet had, leaves its other fields, and consumes exactly the
    -- packet.
    pub decode-encode_heartbeat :
        (buf : Buffer) (p : DecodedPacket) (id : ℕ) (body rest : Bytes)
        → IsValid buf
        → id < 2 ^ 64
        → hb.timestamp < 2 ^ 64
        → length hb.extra ≤ 65535
        → encode_heartbeat_body hb ≡ some body
        → contents buf ≡ encode_heartbeat hb id ++ rest
        → length (contents buf) ≤ max_buffer_size
        → let (ok, buf', p') = decode proto buf p in
          (ok ≡ true)
          × Leaves buf' rest
          × (p' ≡ record (arrived p) { msg_type = heartbeat; req_id = id })
    unfolding encode_heartbeat
    decode-encode_heartbeat buf p id body rest v small ht hx encoded looks room =
        let b = encode_heartbeat_body-Body body encoded in
        let packed : contents buf ≡ pack heartbeat id fields ++ rest =
          looks
          ∙ ap (λ (o : Option Bytes). pack_body heartbeat id (or_empty o) ++ rest)
              (encoded ∙ ap some b.layout)
          ∙ ap (λ (xs : Bytes). xs ++ rest) (pack_body-fields id) in
        decode-packed_ok proto heartbeat id fields rest buf p (arrived p) v small packed room
          (decode_heartbeat_body-fields body (beyond proto heartbeat id fields rest buf) p b ht hx)
