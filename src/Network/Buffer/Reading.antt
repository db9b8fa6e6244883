-- ===== src/Network/Buffer/Reading.antt =====
-- What `readFd` does with what the kernel delivers.
use rpc_framework.Prelude.{
  ◌≡◌, refl, ap, ◌∙◌, inl, inr, List, [], ◌∷◌, ◌++◌, Option, none, some, arith, leb, Bool-cases,
  length, take, drop, length-take, take-append-drop,
}
use mathlib.Core.List.{append_assoc}
use rpc_framework.Network.Buffer.{
  Buffer, Bytes, ReadResult, interrupted, failed, delivered, ReadOutcome, count, errno,
  writable_bytes, put, append, scatter, read_fd,
}
use rpc_framework.Network.Buffer.Contents.{
  IsValid, contents, contents-put, put-IsValid, contents-append, append-IsValid,
}

scatter_lem :
    (b : Buffer) (src : Bytes)
    → IsValid b
    → (contents (scatter b src) ≡ contents b ++ src) × IsValid (scatter b src)
unfolding scatter
scatter_lem b src v = elim (Bool-cases (leb (length src) (writable_bytes b))) [
  | inl fits ↦ rw fits (contents-put b src v (ground arith), put-IsValid b src v (ground arith))
  | inr over ↦ rw over (spill b src v)
]
  where
    spill :
        (b : Buffer) (src : Bytes)
        → IsValid b
        → (contents (append (put b (take (writable_bytes b) src)) (drop (writable_bytes b) src))
            ≡ contents b ++ src)
          × IsValid (append (put b (take (writable_bytes b) src)) (drop (writable_bytes b) src))
    spill b src v =
        let n = writable_bytes b in
        let fits = length-take n src in
        let mid = put-IsValid b (take n src) v (omega (arith, fits)) in
        (
          contents-append (put b (take n src)) (drop n src) mid
              ∙ ap (λ (xs : Bytes). xs ++ drop n src)
                  (contents-put b (take n src) v (omega (arith, fits)))
              ∙ append_assoc (contents b) (take n src) (drop n src)
              ∙ ap (◌++◌ (contents b)) (take-append-drop n src),
          append-IsValid (put b (take n src)) (drop n src) mid,
        )

-- The first result that is no interruption decides.
pub first_result : List ReadResult → Option ReadResult
first_result [] = none
first_result (interrupted ∷ rest) = first_result rest
first_result (failed e ∷ rest) = some (failed e)
first_result (delivered src ∷ rest) = some (delivered src)

abbrev pub Reads : Buffer → Option ReadResult → Option (ReadOutcome × Buffer) → Type 0
Reads b (some (delivered src)) (some (count n, b')) =
    (n ≡ length src) × (contents b' ≡ contents b ++ src) × IsValid b'
Reads b (some (failed e)) (some (errno e', b')) = (e' ≡ e) × (b' ≡ b)
Reads b none none = Unit {0}
Reads _ _ _ = ⊥

-- `readFd` on a valid buffer skips interruptions; a failure comes back with its errno and the
-- buffer unchanged; delivered bytes are counted and appended, in the vector's free tail or past
-- it, and the buffer stays valid.
pub read_fd-Reads :
    (b : Buffer) (results : List ReadResult)
    → IsValid b
    → Reads b (first_result results) (read_fd b results)
unfolding read_fd first_result
read_fd-Reads b [] v = tt
read_fd-Reads b (interrupted ∷ rest) v = read_fd-Reads b rest v
read_fd-Reads b (failed e ∷ rest) v = (refl, refl)
read_fd-Reads b (delivered src ∷ rest) v = (refl, (scatter_lem b src v).0, (scatter_lem b src v).1)
