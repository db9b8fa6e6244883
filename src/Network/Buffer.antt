-- ===== src/Network/Buffer.antt =====
-- src/network/buffer.cc: the network buffer, a vector of bytes with a read and a write index.
-- A byte is a number. `size_t` sums are below 2 ^ 64 for every vector that can be allocated, so
-- they are plain sums. What `readv` returns is an argument, one result for each call of it.
pub mod Contents
pub mod Fifo
pub mod Reading
use rpc_framework.Prelude.{
  ℕ, ◌+◌, ◌-◌, ◌≤◌, ◌<◌, Bool, List, [], ◌∷◌, ◌++◌, Option, none, some, ltb, leb, if◌then◌else◌,
  length, take, drop, replicate,
}

abbrev pub Bytes : Type 0
Bytes = List ℕ

abbrev pub cheap_prepend : ℕ
cheap_prepend = 8

abbrev pub initial_size : ℕ
initial_size = 1024

pub record Buffer : Type 0 where
  pub bytes : Bytes
  pub reader : ℕ
  pub writer : ℕ

unfoldable pub new : Buffer
new = record {
  bytes = replicate (cheap_prepend + initial_size) 0;
  reader = cheap_prepend;
  writer = cheap_prepend;
}

unfoldable pub readable_bytes : Buffer → ℕ
readable_bytes b = b.writer - b.reader

unfoldable pub writable_bytes : Buffer → ℕ
writable_bytes b = length b.bytes - b.writer

unfoldable pub prependable_bytes : Buffer → ℕ
prependable_bytes b = b.reader

-- `peek` is a pointer: the bytes from the read index on.
unfoldable pub peek : Buffer → Bytes
peek b = drop b.reader b.bytes

unfoldable pub retrieve_all : Buffer → Buffer
retrieve_all b = record b { reader = cheap_prepend; writer = cheap_prepend }

unfoldable pub retrieve : Buffer → ℕ → Buffer
unfolding readable_bytes retrieve_all
retrieve b len =
    if ltb len (readable_bytes b) then record b { reader = b.reader + len } else retrieve_all b

unfoldable pub retrieve_all_as_string : Buffer → Bytes × Buffer
unfolding peek readable_bytes retrieve_all
retrieve_all_as_string b = (take (readable_bytes b) (peek b), retrieve_all b)

unfoldable pub retrieve_as_string : Buffer → ℕ → Bytes × Buffer
unfolding peek readable_bytes retrieve
retrieve_as_string b len =
    let n = if ltb (readable_bytes b) len then readable_bytes b else len in
    (take n (peek b), retrieve b n)

-- `std::copy` of `src` to the index `at`.
pub copy_to : ℕ → Bytes → Bytes → Bytes
copy_to at src dst = take at dst ++ (src ++ drop (at + length src) dst)

-- `std::vector::resize`: cuts, or fills with zeros.
pub resize : Bytes → ℕ → Bytes
resize v n = take n v ++ replicate (n - length v) 0

unfoldable pub make_space : Buffer → ℕ → Buffer
unfolding writable_bytes prependable_bytes readable_bytes peek copy_to resize
make_space b len =
    if ltb (writable_bytes b + prependable_bytes b) (len + cheap_prepend)
    then record b { bytes = resize b.bytes (b.writer + len) }
    else record {
      bytes = copy_to cheap_prepend (take (readable_bytes b) (peek b)) b.bytes;
      reader = cheap_prepend;
      writer = cheap_prepend + readable_bytes b;
    }

unfoldable pub ensure_writable_bytes : Buffer → ℕ → Buffer
unfolding writable_bytes make_space
ensure_writable_bytes b len = if ltb (writable_bytes b) len then make_space b len else b

-- Copies to `beginWrite()` and moves the write index.
unfoldable pub put : Buffer → Bytes → Buffer
unfolding copy_to
put b src = record b { bytes = copy_to b.writer src b.bytes; writer = b.writer + length src }

unfoldable pub append : Buffer → Bytes → Buffer
unfolding ensure_writable_bytes put
append b src = put (ensure_writable_bytes b (length src)) src

abbrev pub extra_size : ℕ
extra_size = 65536

-- What one call of `readv` does: it is interrupted, fails with an errno, or delivers bytes.
pub data ReadResult : Type 0 where
  interrupted : ReadResult
  failed : ℕ → ReadResult
  delivered : Bytes → ReadResult

-- The bytes of one `readv`: the vector's free tail first, then the stack buffer.
unfoldable pub scatter : Buffer → Bytes → Buffer
unfolding writable_bytes put append
scatter b src =
    if leb (length src) (writable_bytes b)
    then put b src
    else append (put b (take (writable_bytes b) src)) (drop (writable_bytes b) src)

-- How many bytes one `readv` may deliver: the second `iovec` is passed while the tail is short.
unfoldable pub read_limit : Buffer → ℕ
unfolding writable_bytes
read_limit b =
    if ltb (writable_bytes b) extra_size then writable_bytes b + extra_size else writable_bytes b

-- What `readFd` returns: the count of bytes, or -1 with the saved errno.
pub data ReadOutcome : Type 0 where
  count : ℕ → ReadOutcome
  errno : ℕ → ReadOutcome

-- The loop of `readFd`, over the results of its calls; `none`: the last of them was interrupted.
unfoldable pub read_fd : Buffer → List ReadResult → Option (ReadOutcome × Buffer)
unfolding scatter
read_fd b [] = none
read_fd b (interrupted ∷ rest) = read_fd b rest
read_fd b (failed e ∷ rest) = some (errno e, b)
read_fd b (delivered src ∷ rest) = some (count (length src), scatter b src)
