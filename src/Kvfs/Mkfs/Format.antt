-- ===== src/Kvfs/Mkfs/Format.antt =====
-- What `main` of mkkvfs.c writes.
use embedded_operating_syste.Base.{
  ℕ, zero, suc, ◌+◌, ◌-◌, ◌*◌, ◌%◌, ◌<◌, ◌≡◌, refl, sym, ap, ◌≢◌, ==→eq, List, [], ◌∷◌, ◌++◌, arith,
  ◌==◌, lt→ltb, le→ltb, Bool-cases, inl, inr,
}
use native.Mathlib.Decide.{dec_lt}
use embedded_operating_syste.Kvfs.Layout.{Superblock, blocksize, pad, sizeof_inode}
use embedded_operating_syste.Kvfs.Mkfs.{
  Block, superblock, bitmap, inodes, zero_block, blocks_loop, inodes_loop, format,
}
use embedded_operating_syste.Base.{length}

-- `n` blocks of a kind.
abbrev pub copies : ℕ → Block → List Block
copies zero kind = []
copies (suc n) kind = kind ∷ copies n kind

pub length-copies :
    (n : ℕ) (kind : Block) (kinds : List Block) → length (copies n kind ++ kinds) ≡ n + length kinds
length-copies zero kind kinds = omega arith
length-copies (suc n) kind kinds = omega (arith, length-copies n kind kinds)

pub copies-nil : (n : ℕ) (kind : Block) → copies n kind ++ [] ≡ copies n kind
copies-nil zero kind = refl
copies-nil (suc n) kind = rw (copies-nil n kind) refl

blocks_loop-copies :
    (fuel : ℕ) (kind : Block) (ptr n : ℕ)
    → n < fuel
    → blocks_loop fuel kind ptr (ptr + n * blocksize) ≡ copies n kind
unfolding blocks_loop
blocks_loop-copies zero kind ptr n h = absurd (omega arith)
blocks_loop-copies (suc fuel) kind ptr zero h =
    rw (le→ltb ptr (ptr + 0 * blocksize) (omega arith)) refl
blocks_loop-copies (suc fuel) kind ptr (suc n) h =
    let to : ptr + suc n * blocksize ≡ ptr + blocksize + n * blocksize = omega arith in
    rw
      (
        lt→ltb ptr (ptr + suc n * blocksize) (omega arith),
        to,
        blocks_loop-copies fuel kind (ptr + blocksize) n (omega arith),
      )
      refl

inodes_loop-copies :
    (fuel ptr to n : ℕ)
    → to - ptr < fuel
    → ptr % sizeof_inode ≡ 0
    → pad ptr + n * blocksize ≡ to
    → inodes_loop fuel ptr to ≡ copies n inodes
unfolding inodes_loop
inodes_loop-copies zero ptr to n h whole e = absurd (omega arith)
inodes_loop-copies (suc fuel) ptr to n h whole e = elim (dec_lt ptr to) [
  | no done ↦ let last : n ≡ 0 = omega arith in rw (le→ltb ptr to (omega arith), last) refl
  | yes more ↦ elim (Bool-cases (ptr % blocksize == 0)) [
    | inl at ↦
        let start : ptr % blocksize ≡ 0 = ==→eq (ptr % blocksize) 0 at in
        let some_left : n ≡ suc (n - 1) = omega arith in
        rw
          (
            lt→ltb ptr to more,
            at,
            inodes_loop-copies fuel (ptr + sizeof_inode) to (n - 1) (omega arith) (omega arith)
                (omega arith),
          )
          (ap (λ k. copies k inodes) (sym some_left))
    | inr inside ↦
        let between : ptr % blocksize ≢ 0 = ground arith in
        rw
          (
            lt→ltb ptr to more,
            inside,
            inodes_loop-copies fuel (ptr + sizeof_inode) to n (omega arith) (omega arith)
                (omega arith),
          )
          refl
  ]
]

-- On a superblock whose sections are `a` blocks of bitmap, `b` of inodes and `c` of data, one
-- after the other from the second block on, the blocks that are written are the superblock and
-- then `a` blocks of bitmap, `b` of inodes and `c` of zeroes.
pub format-copies :
    (sb : Superblock) (a b c : ℕ)
    → sb.freelist_off ≡ blocksize
    → sb.inode_off ≡ sb.freelist_off + a * blocksize
    → sb.data_off ≡ sb.inode_off + b * blocksize
    → sb.fs_size ≡ sb.data_off + c * blocksize
    → format sb ≡ superblock ∷ (copies a bitmap ++ (copies b inodes ++ copies c zero_block))
unfolding format
format-copies sb a b c first bits table blocks =
    rw
      (
        bits,
        blocks_loop-copies (sb.freelist_off + a * blocksize) bitmap sb.freelist_off a (omega arith),
        blocks,
        blocks_loop-copies (sb.data_off + c * blocksize) zero_block sb.data_off c (omega arith),
        ← bits,
        inodes_loop-copies sb.data_off sb.inode_off sb.data_off b (omega arith) (omega arith)
            (omega arith),
      )
      refl
