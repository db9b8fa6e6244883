-- ===== src/Codec/Verdicts/Consumption.antt =====
-- What `decode` takes from the buffer.
use rpc_framework.Prelude.{
  ℕ, ◌+◌, ◌≤◌, ◌≡◌, refl, sym, ap, ◌∙◌, Bool, true, false, arith, ltb, ltb→le, ◌==◌, if◌then◌else◌,
  get_or, Option, none, some, Bool-cases, inl, inr, length, take, drop, length-drop,
}
use rpc_framework.Prelude.Slices.{drop_of_length_le}
use rpc_framework.Network.Buffer.{Buffer, readable_bytes, peek, retrieve, retrieve_all}
use rpc_framework.Network.Buffer.Contents.{
  IsValid, contents, length-contents, contents-retrieve, contents-retrieve_all, retrieve-IsValid,
  retrieve_all-IsValid,
}
use rpc_framework.Codec.Words.{decode_word}
use rpc_framework.Codec.Message.{DecodedPacket, MsgType, Protobuf}
use rpc_framework.Codec.Encode.{fixed_header_size, checksum_size, max_body_len, max_buffer_size}
use rpc_framework.Codec.Decode.{decode, decode_sized, decode_body, resync, cut, finish, Decoded}

-- The smallest packet.
abbrev pub min_packet : ℕ
min_packet = fixed_header_size + checksum_size

pub record Consumes (buf : Buffer) (d : Decoded) : Type 0 where
  pub taken : ℕ
  pub rest : contents d.1 ≡ drop taken (contents buf)
  pub valid : IsValid d.1
  pub progress : d.0 ≡ true → length (contents d.1) + min_packet ≤ length (contents buf)

module _ (buf : Buffer) (v : IsValid buf) (p : DecodedPacket) where
  keeps : Consumes buf (false, buf, p)
  keeps = record { taken = 0; rest = refl; valid = v; progress = λ h. cc }

  empties : Consumes buf (false, retrieve_all buf, p)
  empties = record {
    taken = length (contents buf);
    rest =
        contents-retrieve_all buf
        ∙ sym (drop_of_length_le (length (contents buf)) (contents buf) (omega arith));
    valid = retrieve_all-IsValid buf v;
    progress = λ h. cc;
  }

  skips : (n : ℕ) → Consumes buf (false, retrieve buf n, p)
  skips n = record {
    taken = n;
    rest = contents-retrieve buf n v;
    valid = retrieve-IsValid buf n v;
    progress = λ h. cc;
  }

  cuts : (found : Option ℕ) → Consumes buf (false, cut buf found, p)
  cuts none = empties
  cuts (some i) = skips i

module _ (buf : Buffer) (v : IsValid buf) where
  finishes :
      (n id : ℕ) (t : MsgType) (r : Bool × DecodedPacket)
      → min_packet ≤ n
      → n ≤ readable_bytes buf
      → Consumes buf (finish buf n id t r)
  finishes n id t (false, p) small whole = skips buf v (record p { msg_type = t }) n
  finishes n id t (true, p) small whole = record {
    taken = n;
    rest = contents-retrieve buf n v;
    valid = retrieve-IsValid buf n v;
    progress = λ h. omega (
      arith,
      ap length (contents-retrieve buf n v),
      length-drop n (contents buf),
      length-contents buf v,
    );
  }

  module _ (proto : Protobuf) where
    decode_body-Consumes :
        (n id : ℕ) (p : DecodedPacket)
        → fixed_header_size + n + checksum_size ≤ readable_bytes buf
        → Consumes buf (decode_body proto buf n id p)
    unfolding decode_body
    decode_body-Consumes n id p whole =
        let kind = get_or (peek buf) 5 0 in
        elim (Bool-cases (kind == 0)) [
          | inl e ↦ rw e (finishes _ id _ _ (omega arith) whole)
          | inr e ↦ rw e (elim (Bool-cases (kind == 1)) [
            | inl e₁ ↦ rw e₁ (finishes _ id _ _ (omega arith) whole)
            | inr e₁ ↦ rw e₁ (elim (Bool-cases (kind == 2)) [
              | inl e₂ ↦ rw e₂ (finishes _ id _ _ (omega arith) whole)
              | inr e₂ ↦ rw e₂ (skips buf v p (fixed_header_size + n + checksum_size))
            ])
          ])
        ]

    checked :
        (n : ℕ) (p : DecodedPacket)
        → fixed_header_size + n + checksum_size ≤ readable_bytes buf
        → (same : Bool)
        → Consumes buf (
            if same
            then decode_body proto buf n (decode_word (take 8 (drop 10 (peek buf)))) p
            else (false, retrieve buf (fixed_header_size + n + checksum_size), p))
    checked n p whole true =
        decode_body-Consumes n (decode_word (take 8 (drop 10 (peek buf)))) p whole
    checked n p whole false = skips buf v p (fixed_header_size + n + checksum_size)

    decode_sized-Consumes : (n : ℕ) (p : DecodedPacket) → Consumes buf (decode_sized proto buf n p)
    unfolding decode_sized
    decode_sized-Consumes n p =
        let total = fixed_header_size + n + checksum_size in
        elim (Bool-cases (ltb max_body_len n)) [
          | inl e ↦ rw e (empties buf v p)
          | inr e ↦ rw e (elim (Bool-cases (ltb (readable_bytes buf) total)) [
            | inl e₁ ↦ rw e₁ (keeps buf v p)
            | inr e₁ ↦ rw e₁ (checked n p (ltb→le (readable_bytes buf) total e₁) _)
          ])
        ]

    framed :
        (p : DecodedPacket) (magical current : Bool)
        → Consumes buf (
            if magical
            then if current
              then decode_sized proto buf (decode_word (take 4 (drop 6 (peek buf)))) p
              else (false, retrieve_all buf, p)
            else (false, resync buf, p))
    framed p true true = decode_sized-Consumes (decode_word (take 4 (drop 6 (peek buf)))) p
    framed p true false = empties buf v p
    framed p false current = unfold resync in cuts buf v p _

    -- On every valid buffer, whatever it holds: the buffer stays valid, what is left is what was
    -- there with some bytes taken from its front, and a success takes at least the 22 bytes of the
    -- smallest packet, so a loop of successes ends.
    pub decode-Consumes : (p : DecodedPacket) → Consumes buf (decode proto buf p)
    unfolding decode
    decode-Consumes p = elim (Bool-cases (ltb (readable_bytes buf) fixed_header_size)) [
      | inl e ↦ rw e (keeps buf v p)
      | inr e ↦ rw e (elim (Bool-cases (ltb max_buffer_size (readable_bytes buf))) [
        | inl e₁ ↦ rw e₁ (empties buf v p)
        | inr e₁ ↦ rw e₁ (framed p _ _)
      ])
    ]
