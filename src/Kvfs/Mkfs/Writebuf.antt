-- ===== src/Kvfs/Mkfs/Writebuf.antt =====
-- key-value-fs/tools/mkkvfs.c: `writebuf`, over the answers of `write(2)`.
use embedded_operating_syste.Base.{
  ℕ, ◌-◌, ◌≤◌, ◌<◌, ◌≡◌, refl, Option, none, some, List, [], ◌∷◌, ltb, if◌then◌else◌, arith, lt→ltb,
  le→ltb,
}

-- A segment handed to `write`: its start in the buffer, and its length.
abbrev pub Segment : Type 0
Segment = ℕ × ℕ

-- How the call ends on the answers given: it returns, it exits, or it is still writing. With the
-- segments that it asked to be written.
pub data Ended : Type 0 where
  returned exited : List Segment → Ended
  writing : Ended

abbrev pub also : Segment → Ended → Ended
also s (returned l) = returned (s ∷ l)
also s (exited l) = exited (s ∷ l)
also s writing = writing

-- The loop at `write_size`; an answer is a count, or `none` for a failure.
unfoldable pub writebuf_loop : List (Option ℕ) → ℕ → ℕ → Ended
writebuf_loop [] size write_size = if ltb write_size size then writing else returned []
writebuf_loop (none ∷ answers) size write_size =
    if ltb write_size size then exited ((write_size, size - write_size) ∷ []) else returned []
writebuf_loop (some n ∷ answers) size write_size =
    let rest = writebuf_loop answers size n in
    if ltb write_size size then also (write_size, size - write_size) rest else returned []

unfoldable pub writebuf : List (Option ℕ) → ℕ → Ended
unfolding writebuf_loop
writebuf [] size = writing
writebuf (none ∷ answers) size = exited ((0, size) ∷ [])
writebuf (some n ∷ answers) size = also (0, size) (writebuf_loop answers size n)

-- Answers that write at least a byte, and no more than was asked for, after `write_size`.
abbrev pub IsProgress : List ℕ → ℕ → ℕ → Type 0
IsProgress [] size write_size = Unit
IsProgress (n ∷ answers) size write_size =
    (0 < n) × (n ≤ size - write_size) × IsProgress answers size n

abbrev pub answered : List ℕ → List (Option ℕ)
answered [] = []
answered (n ∷ answers) = some n ∷ answered answers

still_writing :
    (answers : List ℕ) (size write_size : ℕ)
    → 0 < write_size
    → write_size < size
    → IsProgress answers size write_size
    → writebuf_loop (answered answers) size write_size ≡ writing
unfolding writebuf_loop
still_writing [] size write_size pos short progress = rw (lt→ltb write_size size short) refl
still_writing (n ∷ answers) size write_size pos short (some_byte, at_most, later) =
    rw (lt→ltb write_size size short, still_writing answers size n some_byte (omega arith) later)
      refl

-- When the first `write` of `writebuf` is short, the call never returns: however many later
-- writes succeed, each with at least a byte, it goes on writing.
pub writebuf_short :
    (first : ℕ) (answers : List ℕ) (size : ℕ)
    → 0 < first
    → first < size
    → IsProgress answers size first
    → writebuf (answered (first ∷ answers)) size ≡ writing
unfolding writebuf
writebuf_short first answers size pos short progress =
    rw (still_writing answers size first pos short progress) refl

-- When the first `write` takes the whole buffer, `writebuf` returns with that write alone,
-- whatever the later answers would be.
pub writebuf_whole :
    (answers : List (Option ℕ)) (size : ℕ)
    → writebuf (some size ∷ answers) size ≡ returned ((0, size) ∷ [])
unfolding writebuf writebuf_loop
writebuf_whole [] size = rw (le→ltb size size (omega arith)) refl
writebuf_whole (none ∷ answers) size = rw (le→ltb size size (omega arith)) refl
writebuf_whole (some n ∷ answers) size = rw (le→ltb size size (omega arith)) refl
