-- ===== src/Network/Buffer/Fifo.antt =====
-- The buffer against its specification: a queue of bytes.
use rpc_framework.Prelude.{
  ℕ, ◌+◌, ◌≤◌, ◌≡◌, refl, ◌∙◌, List, [], ◌∷◌, ◌++◌, arith, length, take, drop, length-append,
  length-take, length-drop, subst, ap₂,
}
use rpc_framework.Network.Buffer.{
  Buffer, Bytes, cheap_prepend, readable_bytes, writable_bytes, retrieve, retrieve_as_string,
  ensure_writable_bytes, put, append, copy_to,
}
use rpc_framework.Network.Buffer.Contents.{
  IsValid, contents, contents-append, append-IsValid, contents-retrieve, retrieve-IsValid,
  retrieve_as_string_lem, length-contents, ensure_writable_bytes-MakesRoom,
}

pub data Op : Type 0 where
  appends : Bytes → Op
  retrieves : ℕ → Op
  takes : ℕ → Op

-- The calls in order; the bytes that `retrieveAsString` hands out are collected.
pub run : Buffer → List Op → Bytes × Buffer
run b [] = ([], b)
run b (appends src ∷ ops) = run (append b src) ops
run b (retrieves n ∷ ops) = run (retrieve b n) ops
run b (takes n ∷ ops) =
    let (out, b') = retrieve_as_string b n in let (outs, b'') = run b' ops in (out ++ outs, b'')

-- The same on the queue alone.
pub run_queue : Bytes → List Op → Bytes × Bytes
run_queue q [] = ([], q)
run_queue q (appends src ∷ ops) = run_queue (q ++ src) ops
run_queue q (retrieves n ∷ ops) = run_queue (drop n q) ops
run_queue q (takes n ∷ ops) = let (outs, q') = run_queue (drop n q) ops in (take n q ++ outs, q')

abbrev pub Agrees : Bytes × Buffer → Bytes × Bytes → Type 0
Agrees (out, b) (spec, q) = (out ≡ spec) × (contents b ≡ q) × IsValid b

-- From a valid buffer, every sequence of calls hands out the bytes that a queue of bytes would, and
-- leaves the buffer valid with the queue's bytes readable.
pub run-refines-queue :
    (b : Buffer) (ops : List Op) → IsValid b → Agrees (run b ops) (run_queue (contents b) ops)
unfolding run run_queue
run-refines-queue b [] v = (refl, refl, v)
run-refines-queue b (appends src ∷ ops) v =
    subst (λ (q : Bytes). Agrees (run (append b src) ops) (run_queue q ops))
      (contents-append b src v) (run-refines-queue (append b src) ops (append-IsValid b src v))
run-refines-queue b (retrieves n ∷ ops) v =
    subst (λ (q : Bytes). Agrees (run (retrieve b n) ops) (run_queue q ops))
      (contents-retrieve b n v) (run-refines-queue (retrieve b n) ops (retrieve-IsValid b n v))
run-refines-queue b (takes n ∷ ops) v =
    let (first, rest, valid) = retrieve_as_string_lem b n v in
    let ih =
      subst (λ (q : Bytes). Agrees (run (retrieve_as_string b n).1 ops) (run_queue q ops)) rest
        (run-refines-queue (retrieve_as_string b n).1 ops valid) in
    (ap₂ ◌++◌ first ih.0, ih.1, ih.2)

writable_room :
    (b : Buffer) (n : ℕ) → IsValid b → n ≤ writable_bytes b → b.writer + n ≤ length b.bytes
unfolding writable_bytes
writable_room b n v h = omega arith

length-put :
    (b : Buffer) (src : Bytes)
    → b.writer + length src ≤ length b.bytes
    → length (put b src).bytes ≡ length b.bytes
unfolding put copy_to
length-put b src h =
    let tail = drop (b.writer + length src) b.bytes in
    omega (
      arith,
      length-append (take b.writer b.bytes) (src ++ tail),
      length-append src tail,
      length-take b.writer b.bytes,
      length-drop (b.writer + length src) b.bytes,
    )

length-ensure_writable_bytes :
    (b : Buffer) (len : ℕ)
    → IsValid b
    → cheap_prepend + readable_bytes b + len ≤ length b.bytes
    → length (ensure_writable_bytes b len).bytes ≡ length b.bytes
unfolding ensure_writable_bytes copy_to
length-ensure_writable_bytes b len v room =
    let c = contents b in
    let tail = drop (cheap_prepend + length c) b.bytes in
    ground (
      arith,
      length-append (take cheap_prepend b.bytes) (c ++ tail),
      length-append c tail,
      length-take cheap_prepend b.bytes,
      length-drop (cheap_prepend + length c) b.bytes,
      length-contents b v,
    )

-- The vector grows only when its free and its consumed room together are too small: an append of
-- `src` keeps its size while the reserve, the readable bytes and `src` fit in it.
pub length-append_of_room :
    (b : Buffer) (src : Bytes)
    → IsValid b
    → cheap_prepend + readable_bytes b + length src ≤ length b.bytes
    → length (append b src).bytes ≡ length b.bytes
unfolding append
length-append_of_room b src v room =
    let kept = length-ensure_writable_bytes b (length src) v room in
    let (same, valid, fits) = ensure_writable_bytes-MakesRoom b (length src) v in
    length-put (ensure_writable_bytes b (length src)) src
      (omega (arith, writable_room (ensure_writable_bytes b (length src)) (length src) valid fits))
    ∙ kept
