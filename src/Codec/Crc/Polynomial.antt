-- ===== src/Codec/Crc/Polynomial.antt =====
-- The table-driven CRC against the bitwise division by the reflected polynomial of IEEE 802.3.
use rpc_framework.Prelude.{
  ℕ, zero, suc, ◌+◌, ◌*◌, ◌/◌, ◌%◌, ◌^◌, ◌<◌, ◌≡◌, refl, sym, ap, ap₂, ◌∙◌, Bool, true, ◌&&◌, List,
  [], ◌∷◌, ◌++◌, arith, ◌==◌, if◌then◌else◌, get_or, length, ltb,
}
use native.Mathlib.Nat.{pow-suc}
use rpc_framework.Prelude.Xor.{
  bit_xor, xor-lt, xor_comm, xor_assoc, xor_self, zero-xor, xor-div, xor-mod, xor_disjoint,
}
use rpc_framework.Network.Buffer.{Bytes}
use rpc_framework.Codec.Crc.{crc32_table, crc_byte, crc_loop, crc32, all_ones}

abbrev pub polynomial : ℕ
polynomial = 0xedb8_8320

-- One bit of the division: shift right, and subtract the polynomial if a one went out.
unfoldable pub reduce : ℕ → ℕ
reduce x = if x % 2 == 1 then bit_xor (x / 2) polynomial else x / 2

unfoldable pub reduce_times : ℕ → ℕ → ℕ
reduce_times zero x = x
reduce_times (suc n) x = reduce_times n (reduce x)

-- The bitwise algorithm: a byte is added to the register and its eight bits are divided out.
pub divide : ℕ → Bytes → ℕ
divide crc [] = crc
divide crc (byte ∷ rest) = divide (reduce_times 8 (bit_xor crc byte)) rest

pub crc32_bitwise : Bytes → ℕ
crc32_bitwise bytes = bit_xor (divide all_ones bytes) all_ones

swap_middle : (a b p : ℕ) → bit_xor (bit_xor a p) (bit_xor b p) ≡ bit_xor a b
swap_middle a b p =
    xor_assoc a p (bit_xor b p)
    ∙ ap (bit_xor a) (
        ap (bit_xor p) (xor_comm b p)
        ∙ sym (xor_assoc p p b)
        ∙ ap (λ (t : ℕ). bit_xor t b) (xor_self p)
        ∙ zero-xor b)

move_right : (a b p : ℕ) → bit_xor (bit_xor a p) b ≡ bit_xor (bit_xor a b) p
move_right a b p = xor_assoc a p b ∙ ap (bit_xor a) (xor_comm p b) ∙ sym (xor_assoc a b p)

-- The division is linear.
reduce-xor : (a b : ℕ) → reduce (bit_xor a b) ≡ bit_xor (reduce a) (reduce b)
unfolding reduce
reduce-xor a b = ground (
  arith,
  xor-mod a b,
  xor-div a b,
  swap_middle (a / 2) (b / 2) polynomial,
  move_right (a / 2) (b / 2) polynomial,
  xor_assoc (a / 2) (b / 2) polynomial,
)

reduce_times-xor :
    (n a b : ℕ) → reduce_times n (bit_xor a b) ≡ bit_xor (reduce_times n a) (reduce_times n b)
unfolding reduce_times
reduce_times-xor zero a b = refl
reduce_times-xor (suc n) a b = rw (reduce-xor a b) (reduce_times-xor n (reduce a) (reduce b))

reduce-double : (a n : ℕ) → reduce (a * 2 ^ suc n) ≡ a * 2 ^ n
unfolding reduce
reduce-double a n = ground (arith, ap (λ (t : ℕ). a * t) (pow-suc 2 n))

-- Low zeros are shifted out.
reduce_times-shift : (n a : ℕ) → reduce_times n (a * 2 ^ n) ≡ a
unfolding reduce_times reduce
reduce_times-shift zero a = omega arith
reduce_times-shift (suc n) a = ap (reduce_times n) (reduce-double a n) ∙ reduce_times-shift n a

-- Every entry of the table is its index divided through eight times.
table_check : ℕ → List ℕ → Bool
table_check i [] = true
table_check i (x ∷ xs) = (x == reduce_times 8 i) && table_check (i + 1) xs

table_checked : table_check 0 crc32_table ≡ true
unfolding table_check crc32_table reduce_times reduce
table_checked = refl

table_check_sound :
    (i : ℕ) (xs : List ℕ) (j : ℕ)
    → table_check i xs ≡ true
    → j < length xs
    → get_or xs j 0 ≡ reduce_times 8 (i + j)
unfolding table_check
table_check_sound i [] j h lt = absurd (omega arith)
table_check_sound i (x ∷ xs) zero h lt =
    ground (arith, ap (reduce_times 8) {x = i} {y = i + 0} (omega arith))
table_check_sound i (x ∷ xs) (suc j) h lt =
    table_check_sound (i + 1) xs j (ground arith) (omega arith)
    ∙ ap (reduce_times 8) {x = i + 1 + j} (omega arith)

length-crc32_table : length crc32_table ≡ 256
unfolding crc32_table
length-crc32_table = refl

table-eq-reduce : (j : ℕ) → j < 256 → get_or crc32_table j 0 ≡ reduce_times 8 j
table-eq-reduce j h =
    table_check_sound 0 crc32_table j table_checked (omega (arith, length-crc32_table))
    ∙ ap (reduce_times 8) {x = 0 + j} (omega arith)

-- A register divided through eight times: its low byte by the table, the rest shifted.
reduce_byte : (x : ℕ) → reduce_times 8 x ≡ bit_xor (get_or crc32_table (x % 256) 0) (x / 256)
reduce_byte x =
    let split : bit_xor (x / 256 * 2 ^ 8) (x % 256) ≡ x =
      xor_disjoint 8 (x / 256) (x % 256) (omega arith) ∙ omega arith in
    ap (reduce_times 8) (sym split)
    ∙ reduce_times-xor 8 (x / 256 * 2 ^ 8) (x % 256)
    ∙ ap₂ bit_xor (reduce_times-shift 8 (x / 256)) (sym (table-eq-reduce (x % 256) (omega arith)))
    ∙ xor_comm (x / 256) (get_or crc32_table (x % 256) 0)

-- A byte leaves the upper bits of the register alone.
xor_high : (crc byte : ℕ) → byte < 256 → bit_xor crc byte / 256 ≡ crc / 256
xor_high crc byte h =
    let split : bit_xor (crc / 256 * 2 ^ 8) (crc % 256) ≡ crc =
      xor_disjoint 8 (crc / 256) (crc % 256) (omega arith) ∙ omega arith in
    let small = xor-lt 8 (crc % 256) byte (omega arith) h in
    omega (
      arith,
      ap (λ (t : ℕ). bit_xor t byte) (sym split)
          ∙ xor_assoc (crc / 256 * 2 ^ 8) (crc % 256) byte
          ∙ xor_disjoint 8 (crc / 256) (bit_xor (crc % 256) byte) small,
      small,
    )

pub crc_byte-eq :
    (crc byte : ℕ) → byte < 256 → crc_byte crc byte ≡ reduce_times 8 (bit_xor crc byte)
unfolding crc_byte
crc_byte-eq crc byte h =
    ap (bit_xor (get_or crc32_table (bit_xor crc byte % 256) 0)) (sym (xor_high crc byte h))
    ∙ sym (reduce_byte (bit_xor crc byte))

abbrev pub AreBytes : Bytes → Type 0
AreBytes [] = Unit {0}
AreBytes (b ∷ bs) = (b < 256) × AreBytes bs

pub AreBytes-append : (xs ys : Bytes) → AreBytes xs → AreBytes ys → AreBytes (xs ++ ys)
AreBytes-append [] ys hx hy = hy
AreBytes-append (x ∷ xs) ys hx hy = (hx.0, AreBytes-append xs ys hx.1 hy)

loop-eq-divide : (crc : ℕ) (bytes : Bytes) → AreBytes bytes → crc_loop crc bytes ≡ divide crc bytes
unfolding crc_loop divide
loop-eq-divide crc [] h = refl
loop-eq-divide crc (b ∷ bs) h =
    loop-eq-divide (crc_byte crc b) bs h.1 ∙ ap (λ (c : ℕ). divide c bs) (crc_byte-eq crc b h.0)

-- On every string of bytes the table-driven checksum is that of the bitwise division.
pub crc32-eq-bitwise : (bytes : Bytes) → AreBytes bytes → crc32 bytes ≡ crc32_bitwise bytes
unfolding crc32 crc32_bitwise
crc32-eq-bitwise bytes h = ap (λ (c : ℕ). bit_xor c all_ones) (loop-eq-divide all_ones bytes h)

table_below : List ℕ → Bool
table_below [] = true
table_below (x ∷ xs) = ltb x (2 ^ 32) && table_below xs

get_or-table_below : (xs : List ℕ) (j : ℕ) → table_below xs ≡ true → get_or xs j 0 < 2 ^ 32
unfolding table_below
get_or-table_below [] j h = omega arith
get_or-table_below (x ∷ xs) zero h = ground arith
get_or-table_below (x ∷ xs) (suc j) h = get_or-table_below xs j (ground arith)

table_fits : table_below crc32_table ≡ true
unfolding table_below crc32_table
table_fits = refl

pub crc_byte-lt : (crc byte : ℕ) → crc < 2 ^ 32 → crc_byte crc byte < 2 ^ 32
unfolding crc_byte
crc_byte-lt crc byte h =
    xor-lt 32 (get_or crc32_table (bit_xor crc byte % 256) 0) (crc / 256)
      (get_or-table_below crc32_table (bit_xor crc byte % 256) table_fits) (omega arith)

pub crc_loop-lt : (crc : ℕ) (bytes : Bytes) → crc < 2 ^ 32 → crc_loop crc bytes < 2 ^ 32
unfolding crc_loop
crc_loop-lt crc [] h = h
crc_loop-lt crc (b ∷ bs) h = crc_loop-lt (crc_byte crc b) bs (crc_byte-lt crc b h)

-- The checksum is a `uint32_t`.
pub crc32-lt : (bytes : Bytes) → crc32 bytes < 2 ^ 32
unfolding crc32
crc32-lt bytes =
    xor-lt 32 (crc_loop all_ones bytes) all_ones (crc_loop-lt all_ones bytes (omega arith))
      (omega arith)
