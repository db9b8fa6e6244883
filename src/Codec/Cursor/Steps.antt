-- ===== src/Codec/Cursor/Steps.antt =====
-- What the reading steps do on a body that was written field by field.
use rpc_framework.Prelude.{
  ℕ, ◌+◌, ◌-◌, ◌^◌, ◌≤◌, ◌<◌, ◌≡◌, refl, sym, ap, ◌∙◌, [], ◌++◌, some, arith, le→ltb, length, take,
  drop, length-append, length-take, length-drop,
}
use rpc_framework.Prelude.Slices.{
  take_exact, drop_exact, drop-drop, drop-take, take-take, take-append,
}
use rpc_framework.Network.Buffer.{Bytes}
use rpc_framework.Codec.Words.{
  big_endian, encode_u16, decode_word, length-big_endian, of_big_endian-big_endian,
}
use rpc_framework.Codec.Message.{DecodedPacket}
use rpc_framework.Codec.Cursor.{Cursor, read_bytes, read_word, read_string}

abbrev pub at : ℕ → DecodedPacket → Cursor
at pos p = record { pos = pos; packet = p }

module _ (src : Bytes) (total : ℕ) where
  -- What of the body stands behind a position.
  pub record Left (pos : ℕ) (xs : Bytes) : Type 0 where
    pub within : pos ≤ total
    pub bounded : total ≤ length src
    pub bytes : take (total - pos) (drop pos src) ≡ xs

  length-Left : (pos : ℕ) (xs : Bytes) → Left pos xs → length xs ≡ total - pos
  length-Left pos xs l = omega (
    arith,
    ap length l.bytes,
    length-take (total - pos) (drop pos src),
    length-drop pos src,
    l.within,
    l.bounded,
  )

  pub Left-drop : (pos n : ℕ) (b xs : Bytes) → length b ≡ n → Left pos (b ++ xs) → Left (pos + n) xs
  Left-drop pos n b xs e l = record {
    within = omega (arith, length-Left pos (b ++ xs) l, length-append b xs, l.within);
    bounded = l.bounded;
    bytes =
        ap (λ (k : ℕ). take k (drop (pos + n) src)) (omega arith)
        ∙ ap (take (total - pos - n)) (sym (drop-drop n pos src))
        ∙ sym (drop-take n (total - pos) (drop pos src))
        ∙ ap (drop n) l.bytes
        ∙ drop_exact n b xs e;
  }

  -- A block of known length is read whole.
  pub read_bytes_lem :
      (pos n : ℕ) (p : DecodedPacket) (b xs : Bytes)
      → length b ≡ n
      → Left pos (b ++ xs)
      → read_bytes src total n (at pos p) ≡ (some b, at (pos + n) p)
  unfolding read_bytes
  read_bytes_lem pos n p b xs e l =
      let whole : pos + n ≤ total =
        omega (arith, length-Left pos (b ++ xs) l, length-append b xs, l.within) in
      rw (le→ltb total (pos + n) whole) (
        ap (λ (bs : Bytes). (some bs, at (pos + n) p))
          (sym (take-take n (total - pos) (drop pos src) (omega arith))
            ∙ ap (take n) l.bytes
            ∙ take_exact n b xs e))

  pub read_word_lem :
      (pos n v : ℕ) (p : DecodedPacket) (xs : Bytes)
      → v < 256 ^ n
      → Left pos (big_endian n v ++ xs)
      → read_word src total n (at pos p) ≡ (some v, at (pos + n) p)
  unfolding read_word decode_word
  read_word_lem pos n v p xs h l =
      rw (read_bytes_lem pos n p (big_endian n v) xs (length-big_endian n v) l)
        (ap (λ (k : ℕ). (some k, at (pos + n) p)) (of_big_endian-big_endian n v h))

  pub Left-word : (pos n v : ℕ) (xs : Bytes) → Left pos (big_endian n v ++ xs) → Left (pos + n) xs
  Left-word pos n v xs = Left-drop pos n (big_endian n v) xs (length-big_endian n v)

  -- A string behind its two length bytes.
  pub read_string_lem :
      (pos : ℕ) (p : DecodedPacket) (s xs : Bytes)
      → length s ≤ 65535
      → Left pos (encode_u16 (length s) ++ (s ++ xs))
      → read_string src total (at pos p) ≡ (some s, at (pos + 2 + length s) p)
  unfolding read_string encode_u16
  read_string_lem pos p s xs h l =
      rw (read_word_lem pos 2 (length s) p (s ++ xs) (omega arith) l)
        (read_bytes_lem (pos + 2) (length s) p s xs refl (Left-word pos 2 (length s) (s ++ xs) l))

  pub Left-string :
      (pos : ℕ) (s xs : Bytes)
      → Left pos (encode_u16 (length s) ++ (s ++ xs))
      → Left (pos + 2 + length s) xs
  unfolding encode_u16
  Left-string pos s xs l =
      Left-drop (pos + 2) (length s) s xs refl (Left-word pos 2 (length s) (s ++ xs) l)

  -- Nothing is left exactly at the end.
  pub Left-nil : (pos : ℕ) → Left pos [] → pos ≡ total
  Left-nil pos l = omega (arith, length-Left pos [] l, l.within)

pub Left-start : (body rest : Bytes) → Left (body ++ rest) (length body) 0 body
Left-start body rest = record {
  within = omega arith;
  bounded = omega (arith, length-append body rest);
  bytes =
      ap (λ (k : ℕ). take k (body ++ rest)) {x = length body - 0} (omega arith)
      ∙ take-append body rest;
}
