-- ===== src/Codec/Verdicts/Resync.antt =====
-- A buffer that does not begin with the magic.
use rpc_framework.Prelude.{
  ℕ, zero, suc, ◌+◌, ◌-◌, ◌≤◌, ◌<◌, ◌≡◌, refl, sym, ap, subst, ◌∙◌, inl, inr, true, false, [], ◌++◌,
  Option, none, some, arith, ◌==◌, ==_iff, ==_of_ne, Bool-cases, le→ltb, min, length, take, drop,
  length-drop,
}
use rpc_framework.Prelude.Slices.{take-append_of_le, drop-append_of_le}
use rpc_framework.Network.Buffer.{Buffer, Bytes, readable_bytes, peek}
use rpc_framework.Network.Buffer.Contents.{
  IsValid, contents, length-contents, contents-retrieve, contents-retrieve_all, retrieve-IsValid,
  retrieve_all-IsValid,
}
use rpc_framework.Codec.Words.{decode_word}
use rpc_framework.Codec.Message.{DecodedPacket, Protobuf}
use rpc_framework.Codec.Encode.{fixed_header_size, max_scan_bytes, max_buffer_size, magic}
use rpc_framework.Codec.Decode.{decode, resync, cut, scan_magic}
use rpc_framework.Codec.Roundtrip.Header.{peek-eq-contents}

-- The magic stands at a position.
abbrev pub MagicAt : Bytes → ℕ → Type 0
MagicAt bytes k = decode_word (take 4 (drop k bytes)) ≡ magic

-- What the scan of the positions `i`, …, `i + rounds - 1` has found: the first magic, or none.
abbrev pub Scanned : Bytes → ℕ → ℕ → Option ℕ → Type 0
Scanned bytes i rounds none = (k : ℕ) → i ≤ k → k < i + rounds → ¬ MagicAt bytes k
Scanned bytes i rounds (some j) =
    (i ≤ j) × (j < i + rounds) × MagicAt bytes j × ((k : ℕ) → i ≤ k → k < j → ¬ MagicAt bytes k)

Scanned-suc :
    (bytes : Bytes) (i rounds : ℕ) (found : Option ℕ)
    → ¬ MagicAt bytes i
    → Scanned bytes (i + 1) rounds found
    → Scanned bytes i (suc rounds) found
Scanned-suc bytes i rounds none here later = λ k p q m. elim (Bool-cases (i == k)) [
  | inl e ↦ here (subst (MagicAt bytes) (sym ((==_iff i k).0 e)) m)
  | inr e ↦ later k (ground arith) (omega arith) m
]
Scanned-suc bytes i rounds (some j) here later = (
  omega arith,
  omega arith,
  later.2,
  λ k p q m. elim (Bool-cases (i == k)) [
    | inl e ↦ here (subst (MagicAt bytes) (sym ((==_iff i k).0 e)) m)
    | inr e ↦ later.3 k (ground arith) q m
  ],
)

scan_magic-Scanned :
    (bytes : Bytes) (i rounds : ℕ) → Scanned bytes i rounds (scan_magic bytes i rounds)
unfolding scan_magic
scan_magic-Scanned bytes i zero = λ k p q. absurd (omega arith)
scan_magic-Scanned bytes i (suc rounds) =
    elim (Bool-cases (decode_word (take 4 (drop i bytes)) == magic)) [
      | inl e ↦ rw e (omega arith, omega arith, (==_iff _ magic).0 e, λ k p q. absurd (omega arith))
      | inr e ↦ rw e (
          Scanned-suc bytes i rounds (scan_magic bytes (i + 1) rounds)
            (λ m. false_true (sym e ∙ (==_iff _ magic).1 m))
            (scan_magic-Scanned bytes (i + 1) rounds))
    ]
  where
    false_true : false ≡ true → ⊥
    false_true h = cc

-- The scan reads readable bytes only.
scan_magic-append :
    (bytes junk : Bytes) (i rounds : ℕ)
    → i + rounds + 3 ≤ length bytes
    → scan_magic (bytes ++ junk) i rounds ≡ scan_magic bytes i rounds
unfolding scan_magic
scan_magic-append bytes junk i zero h = refl
scan_magic-append bytes junk i (suc rounds) h =
    let word : take 4 (drop i (bytes ++ junk)) ≡ take 4 (drop i bytes) =
      ap (λ (xs : Bytes). take 4 xs) (drop-append_of_le i bytes junk (omega arith))
      ∙ take-append_of_le 4 (drop i bytes) junk (omega (arith, length-drop i bytes)) in
    rw (word, scan_magic-append bytes junk (i + 1) rounds (omega arith))

abbrev pub after : Option ℕ → Bytes → Bytes
after none bytes = []
after (some j) bytes = drop j bytes

-- The positions that the scan looks at: the magic fits before the scan limit.
abbrev pub scan_rounds : Bytes → ℕ
scan_rounds bytes = min (length bytes) max_scan_bytes - 4

-- The buffer is cut to the first magic among the scanned positions, or emptied if there is none.
pub record Resynced (before now : Bytes) : Type 0 where
  pub found : Option ℕ
  pub scanned : Scanned before 1 (scan_rounds before) found
  pub left : now ≡ after found before

module _ (buf : Buffer) (v : IsValid buf) where
  contents-cut :
      (found : Option ℕ)
      → (contents (cut buf found) ≡ after found (contents buf)) × IsValid (cut buf found)
  contents-cut none = (contents-retrieve_all buf, retrieve_all-IsValid buf v)
  contents-cut (some j) = (contents-retrieve buf j v, retrieve-IsValid buf j v)

  scan-eq :
      fixed_header_size ≤ readable_bytes buf
      → scan_magic (peek buf) 1 (min (readable_bytes buf) max_scan_bytes - 4)
        ≡ scan_magic (contents buf) 1 (scan_rounds (contents buf))
  scan-eq h =
      rw (peek-eq-contents buf, sym (length-contents buf v))
        (scan_magic-append (contents buf) _ 1 (scan_rounds (contents buf))
          (omega (arith, length-contents buf v)))

  -- In a valid buffer of at least a header's size and within the limit, whose readable bytes do not
  -- begin with the magic: `decode` returns false and leaves the packet untouched; the readable
  -- bytes are cut to the first magic at one of the positions 1, 2, … that end within the first
  -- 1024 bytes, or all dropped if the magic stands at none of them.
  pub decode_resync :
      (proto : Protobuf) (p : DecodedPacket)
      → fixed_header_size ≤ readable_bytes buf
      → readable_bytes buf ≤ max_buffer_size
      → ¬ MagicAt (contents buf) 0
      → let (ok, buf', p') = decode proto buf p in
        (ok ≡ false) × (p' ≡ p) × IsValid buf' × Resynced (contents buf) (contents buf')
  unfolding decode resync
  decode_resync proto p whole room no_magic =
      let bytes = contents buf in
      let found = scan_magic bytes 1 (scan_rounds bytes) in
      rw
        (
          le→ltb (readable_bytes buf) fixed_header_size whole,
          le→ltb max_buffer_size (readable_bytes buf) room,
          first_word,
          ==_of_ne (decode_word (take 4 bytes)) magic no_magic,
          scan-eq whole,
        )
        (
          refl,
          refl,
          (contents-cut found).1,
          record {
            found = found;
            scanned = scan_magic-Scanned bytes 1 (scan_rounds bytes);
            left = (contents-cut found).0;
          },
        )
    where
      first_word : take 4 (peek buf) ≡ take 4 (contents buf)
      first_word =
          ap (λ (xs : Bytes). take 4 xs) (peek-eq-contents buf)
          ∙ take-append_of_le 4 (contents buf) _ (omega (arith, length-contents buf v))
