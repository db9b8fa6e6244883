-- ===== src/Codec/Cursor.antt =====
-- src/codec/rpc_codec.cc: reading a body. The state of a `decode…Body` is the position and the
-- packet that it fills; a step that returns `false` leaves both as far as they were changed.
-- `src` is the pointer to the body: bytes follow it that belong to the checksum and to later
-- packets, and `total` is the body's length.
pub mod Steps
use rpc_framework.Prelude.{
  ℕ, ◌+◌, ◌≡◌, Bool, true, false, Option, none, some, ltb, ◌==◌, if◌then◌else◌, take, drop, length,
}
use rpc_framework.Network.Buffer.{Bytes}
use rpc_framework.Codec.Words.{decode_word}
use rpc_framework.Codec.Message.{DecodedPacket}

pub record Cursor : Type 0 where
  pub pos : ℕ
  pub packet : DecodedPacket

abbrev pub Reader : Type 0 → Type 0
Reader A = Cursor → Option A × Cursor

abbrev pub continue : {A B : Type 0} → Option A → (A → Reader B) → Reader B
continue none f c = (none, c)
continue (some a) f c = f a c

infixl 5 ◌>>=◌ ◌>>◌
abbrev pub ◌>>=◌ : {A B : Type 0} → Reader A → (A → Reader B) → Reader B
◌>>=◌ m f c = let (r, c') = m c in continue r f c'

abbrev pub ◌>>◌ : {B : Type 0} → Reader (Unit {0}) → Reader B → Reader B
m >> k = m >>= λ _. k

abbrev pub check : Bool → Reader (Unit {0})
check true c = (some tt, c)
check false c = (none, c)

abbrev pub update : (DecodedPacket → DecodedPacket) → Reader (Unit {0})
update f c = (some tt, record c { packet = f c.packet })

-- `if (pos + n > total) return false;`, then `n` bytes at `data + pos`.
unfoldable pub read_bytes : Bytes → ℕ → ℕ → Reader Bytes
read_bytes src total n c =
    if ltb total (c.pos + n)
    then (none, c)
    else (some (take n (drop c.pos src)), record c { pos = c.pos + n })

unfoldable pub read_word : Bytes → ℕ → ℕ → Reader ℕ
read_word src total n = do bytes ← read_bytes src total n; λ c. (some (decode_word bytes), c)

unfoldable pub read_string : Bytes → ℕ → Reader Bytes
read_string src total = do len ← read_word src total 2; read_bytes src total len

-- `if (pos != bodyLen) return false;`
abbrev pub at_end : ℕ → Reader (Unit {0})
at_end total c = check (c.pos == total) c
