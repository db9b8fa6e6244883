-- ===== src/Network/Buffer/Contents.antt =====
-- What each operation of the buffer does to its readable bytes, and the invariant of its indices.
use rpc_framework.Prelude.{
  ℕ, ◌+◌, ◌-◌, ◌≤◌, ◌<◌, ◌≡◌, refl, sym, ap, ◌∙◌, inl, inr, [], ◌++◌, arith, ltb, tests, Bool-cases,
  length, take, drop, replicate, length-append, length-take, length-drop, length-replicate,
}
use rpc_framework.Prelude.Slices.{
  take_past, take-take, take_exact, drop_exact, take-append, take-append_of_le, drop-append_of_le,
  take_of_length_le, drop_of_length_le, drop-drop, drop-take,
}
use rpc_framework.Network.Buffer.{
  Buffer, Bytes, cheap_prepend, new, readable_bytes, writable_bytes, retrieve_all, retrieve,
  retrieve_as_string, copy_to, resize, make_space, ensure_writable_bytes, put, append,
}

-- The bytes between the two indices: what a reader of the buffer can see.
abbrev pub contents : Buffer → Bytes
contents b = take (b.writer - b.reader) (drop b.reader b.bytes)

pub record IsValid (b : Buffer) : Type 0 where
  pub prepend : cheap_prepend ≤ b.reader
  pub ordered : b.reader ≤ b.writer
  pub within : b.writer ≤ length b.bytes

pub new-IsValid : IsValid new
unfolding new
new-IsValid = omega arith

pub length-contents : (b : Buffer) → IsValid b → length (contents b) ≡ readable_bytes b
unfolding readable_bytes
length-contents b v =
    omega (
      arith,
      length-take (b.writer - b.reader) (drop b.reader b.bytes),
      length-drop b.reader b.bytes,
    )

contents-eq-drop : (b : Buffer) → contents b ≡ drop b.reader (take b.writer b.bytes)
contents-eq-drop b = sym (drop-take b.reader b.writer b.bytes)

length-take_of_le : (n : ℕ) (xs : Bytes) → n ≤ length xs → length (take n xs) ≡ n
length-take_of_le n xs h = omega (arith, length-take n xs)

-- A write into free room appends, and keeps the indices in order.
pub contents-put :
    (b : Buffer) (src : Bytes)
    → IsValid b
    → length src ≤ writable_bytes b
    → contents (put b src) ≡ contents b ++ src
unfolding put copy_to writable_bytes
contents-put b src v h =
    contents-eq-drop (put b src)
    ∙ ap (drop b.reader) (
        take_past b.writer (length src) (take b.writer b.bytes) _
          (length-take_of_le b.writer b.bytes v.within)
        ∙ ap (◌++◌ (take b.writer b.bytes)) (take-append src _))
    ∙ drop-append_of_le b.reader (take b.writer b.bytes) src
        (omega (arith, length-take_of_le b.writer b.bytes v.within))
    ∙ ap (λ (xs : Bytes). xs ++ src) (sym (contents-eq-drop b))

pub put-IsValid :
    (b : Buffer) (src : Bytes) → IsValid b → length src ≤ writable_bytes b → IsValid (put b src)
unfolding put copy_to writable_bytes
put-IsValid b src v h =
    let tail = drop (b.writer + length src) b.bytes in
    record {
      prepend = v.prepend;
      ordered = omega arith;
      within = omega (
        arith,
        length-append (take b.writer b.bytes) (src ++ tail),
        length-append src tail,
        length-take_of_le b.writer b.bytes v.within,
      );
    }

-- The two branches of `makeSpace`.
abbrev grown : Buffer → ℕ → Buffer
grown b len = record b { bytes = resize b.bytes (b.writer + len) }

abbrev shifted : Buffer → Buffer
shifted b = record {
  bytes = copy_to cheap_prepend (contents b) b.bytes;
  reader = cheap_prepend;
  writer = cheap_prepend + (b.writer - b.reader);
}

contents-grown :
    (b : Buffer) (len : ℕ)
    → IsValid b
    → writable_bytes b < len
    → contents (grown b len) ≡ contents b
unfolding resize writable_bytes
contents-grown b len v h =
    let zeros : Bytes = replicate (b.writer + len - length b.bytes) 0 in
    ap (λ (xs : Bytes). take (b.writer - b.reader) (drop b.reader (xs ++ zeros)))
      (take_of_length_le (b.writer + len) b.bytes (omega arith))
    ∙ ap (take (b.writer - b.reader)) (drop-append_of_le b.reader b.bytes zeros (omega arith))
    ∙ take-append_of_le (b.writer - b.reader) (drop b.reader b.bytes) zeros
        (omega (arith, length-drop b.reader b.bytes))

contents-shifted : (b : Buffer) → IsValid b → contents (shifted b) ≡ contents b
unfolding copy_to readable_bytes
contents-shifted b v =
    ap (take (cheap_prepend + (b.writer - b.reader) - cheap_prepend)) (
      drop_exact cheap_prepend (take cheap_prepend b.bytes) _
        (length-take_of_le cheap_prepend b.bytes (omega arith)))
    ∙ take_exact (cheap_prepend + (b.writer - b.reader) - cheap_prepend) (contents b) _
        (omega (arith, length-contents b v))

-- Making room keeps what is readable, keeps the invariant and makes enough room.
abbrev MakesRoom : Buffer → ℕ → Buffer → Type 0
MakesRoom b len b' = (contents b' ≡ contents b) × IsValid b' × (len ≤ writable_bytes b')

grown-MakesRoom :
    (b : Buffer) (len : ℕ) → IsValid b → writable_bytes b < len → MakesRoom b len (grown b len)
unfolding resize writable_bytes
grown-MakesRoom b len v h =
    let zeros : Bytes = replicate (b.writer + len - length b.bytes) 0 in
    let long = length-append (take (b.writer + len) b.bytes) zeros in
    let cut = length-take (b.writer + len) b.bytes in
    let fill = length-replicate {A = ℕ} (b.writer + len - length b.bytes) 0 in
    (contents-grown b len v h, omega (arith, long, cut, fill), omega (arith, long, cut, fill))

shifted-MakesRoom :
    (b : Buffer) (len : ℕ)
    → IsValid b
    → len + cheap_prepend ≤ writable_bytes b + b.reader
    → MakesRoom b len (shifted b)
unfolding copy_to writable_bytes readable_bytes
shifted-MakesRoom b len v h =
    let tail = drop (cheap_prepend + length (contents b)) b.bytes in
    let l1 = length-append (take cheap_prepend b.bytes) (contents b ++ tail) in
    let l2 = length-append (contents b) tail in
    let l3 = length-take_of_le cheap_prepend b.bytes (omega arith) in
    let l4 = length-drop (cheap_prepend + length (contents b)) b.bytes in
    let l5 = length-contents b v in
    (contents-shifted b v, omega (arith, l1, l2, l3, l4, l5), omega (arith, l1, l2, l3, l4, l5))

make_space-MakesRoom :
    (b : Buffer) (len : ℕ) → IsValid b → writable_bytes b < len → MakesRoom b len (make_space b len)
unfolding make_space
make_space-MakesRoom b len v h =
    elim (Bool-cases (ltb (writable_bytes b + b.reader) (len + cheap_prepend))) [
      | inl short ↦ rw short (grown-MakesRoom b len v h)
      | inr room ↦ rw room (shifted-MakesRoom b len v (omega tests))
    ]

pub ensure_writable_bytes-MakesRoom :
    (b : Buffer) (len : ℕ) → IsValid b → MakesRoom b len (ensure_writable_bytes b len)
unfolding ensure_writable_bytes
ensure_writable_bytes-MakesRoom b len v = elim (Bool-cases (ltb (writable_bytes b) len)) [
  | inl short ↦ rw short (make_space-MakesRoom b len v (omega tests))
  | inr room ↦ rw room (refl, v, omega tests)
]

pub contents-append :
    (b : Buffer) (src : Bytes) → IsValid b → contents (append b src) ≡ contents b ++ src
unfolding append
contents-append b src v =
    let (same, valid, room) = ensure_writable_bytes-MakesRoom b (length src) v in
    contents-put (ensure_writable_bytes b (length src)) src valid room
    ∙ ap (λ (xs : Bytes). xs ++ src) same

pub append-IsValid : (b : Buffer) (src : Bytes) → IsValid b → IsValid (append b src)
unfolding append
append-IsValid b src v =
    let (same, valid, room) = ensure_writable_bytes-MakesRoom b (length src) v in
    put-IsValid (ensure_writable_bytes b (length src)) src valid room

pub contents-retrieve_all : (b : Buffer) → contents (retrieve_all b) ≡ []
unfolding retrieve_all
contents-retrieve_all b = refl

contents-advance :
    (b : Buffer) (len : ℕ)
    → IsValid b
    → contents (record b { reader = b.reader + len }) ≡ drop len (contents b)
contents-advance b len v =
    ap (take (b.writer - (b.reader + len))) (sym (drop-drop len b.reader b.bytes))
    ∙ ap (λ (k : ℕ). take k (drop len (drop b.reader b.bytes))) (omega arith)
    ∙ sym (drop-take len (b.writer - b.reader) (drop b.reader b.bytes))

-- Consuming `len` bytes drops them, and consuming more than there are empties the buffer.
pub contents-retrieve :
    (b : Buffer) (len : ℕ) → IsValid b → contents (retrieve b len) ≡ drop len (contents b)
unfolding retrieve
contents-retrieve b len v = elim (Bool-cases (ltb len (readable_bytes b))) [
  | inl part ↦ rw part (contents-advance b len v)
  | inr whole ↦
      rw whole (sym (drop_of_length_le len (contents b) (omega (tests, length-contents b v))))
]

pub retrieve-IsValid : (b : Buffer) (len : ℕ) → IsValid b → IsValid (retrieve b len)
unfolding retrieve readable_bytes
retrieve-IsValid b len v = ground arith

pub retrieve_all-IsValid : (b : Buffer) → IsValid b → IsValid (retrieve_all b)
unfolding retrieve_all
retrieve_all-IsValid b v = omega arith

-- The bytes that `retrieveAsString` hands out are the first `len` readable ones, or all of them.
pub retrieve_as_string_lem :
    (b : Buffer) (len : ℕ)
    → IsValid b
    → ((retrieve_as_string b len).0 ≡ take len (contents b))
      × (contents (retrieve_as_string b len).1 ≡ drop len (contents b))
      × IsValid (retrieve_as_string b len).1
unfolding retrieve_as_string
retrieve_as_string_lem b len v = elim (Bool-cases (ltb (readable_bytes b) len)) [
  | inl more ↦ rw more (
    sym (take_of_length_le len (contents b) (omega (tests, length-contents b v))),
    contents-retrieve b (readable_bytes b) v
        ∙ drop_of_length_le (readable_bytes b) (contents b) (omega (arith, length-contents b v))
        ∙ sym (drop_of_length_le len (contents b) (omega (tests, length-contents b v))),
    retrieve-IsValid b (readable_bytes b) v,
  )
  | inr fits ↦ rw fits (
    sym (take-take len (readable_bytes b) (drop b.reader b.bytes) (omega tests)),
    contents-retrieve b len v,
    retrieve-IsValid b len v,
  )
]
