-- ===== src/Kvfs/Mkfs/Main/Writes.antt =====
-- What the blocks that mkkvfs writes leave on a disk.
use native.Mathlib.Decide.{dec_lt}
use embedded_operating_syste.Base.{
  ℕ, zero, suc, ◌+◌, ◌-◌, ◌*◌, ◌%◌, ◌≤◌, ◌≡◌, refl, ◌&&◌, some, List, [], ◌∷◌, ◌++◌, length, ltb,
  leb, if◌then◌else◌, Bytes, arith, ◌∙◌, lt→ltb, le→ltb,
}
use embedded_operating_syste.Kvfs.Layout.{Superblock, blocksize}
use embedded_operating_syste.Kvfs.Mkfs.{Block}
use embedded_operating_syste.Kvfs.Mkfs.Format.{copies}
use embedded_operating_syste.Kvfs.Mkfs.Main.{
  System, goes_on, block_bytes, write_buf_loop, write_buf, write_blocks, and_then,
}

-- An open disk of `size` bytes: a write of a whole block, on a block boundary and inside the disk,
-- is done at once. It stores the block at the file's offset and moves it on.
pub record IsDisk (S : System) (byte : S.File → ℕ → ℕ) (position : S.File → ℕ) (size : ℕ)
    : Type 0 where
  pub start : (file : S.File) → position (S.rewind file) ≡ 0
  pub block :
      (file : S.File) (p : Bytes)
      → position file % blocksize ≡ 0
      → position file + blocksize ≤ size
      → (S.write file p blocksize).0 ≡ some blocksize
  pub moved :
      (file : S.File) (p : Bytes)
      → position file % blocksize ≡ 0
      → position file + blocksize ≤ size
      → position (S.write file p blocksize).1 ≡ position file + blocksize
  pub stored :
      (file : S.File) (p : Bytes)
      → position file % blocksize ≡ 0
      → position file + blocksize ≤ size
      → (j : ℕ)
      → byte (S.write file p blocksize).1 j ≡ (
          if leb (position file) j && ltb j (position file + blocksize)
          then p (j - position file)
          else byte file j)

module _ (stack : Bytes) (sb : Superblock) where
  -- The bytes of a row of blocks.
  abbrev pub contents : List Block → Bytes
  contents [] j = 0
  contents (kind ∷ kinds) j =
      if ltb j blocksize then block_bytes stack sb kind j else contents kinds (j - blocksize)

  pub contents-copies :
      (n : ℕ) (kind : Block) (kinds : List Block) (j : ℕ)
      → contents (copies n kind ++ kinds) j ≡ (
          if ltb j (n * blocksize)
          then block_bytes stack sb kind (j % blocksize)
          else contents kinds (j - n * blocksize))
  contents-copies zero kind kinds j =
      let same : j - 0 * blocksize ≡ j = omega arith in
      rw (le→ltb j (0 * blocksize) (omega arith), same) refl
  contents-copies (suc n) kind kinds j = elim (dec_lt j blocksize) [
    | yes first ↦
        let at : j % blocksize ≡ j = omega arith in
        rw (lt→ltb j blocksize first, lt→ltb j (suc n * blocksize) (omega arith), at) refl
    | no later ↦
        let at : (j - blocksize) % blocksize ≡ j % blocksize = omega arith in
        let left : j - blocksize - n * blocksize ≡ j - suc n * blocksize = omega arith in
        elim (dec_lt j (suc n * blocksize)) [
          | yes inside ↦
              rw
                (
                  le→ltb j blocksize (omega arith),
                  contents-copies n kind kinds (j - blocksize),
                  lt→ltb (j - blocksize) (n * blocksize) (omega arith),
                  lt→ltb j (suc n * blocksize) inside,
                  at,
                )
                refl
          | no beyond ↦
              rw
                (
                  le→ltb j blocksize (omega arith),
                  contents-copies n kind kinds (j - blocksize),
                  le→ltb (j - blocksize) (n * blocksize) (omega arith),
                  le→ltb j (suc n * blocksize) (omega arith),
                  left,
                )
                refl
        ]
  ]

  module _ (S : System) {byte : S.File → ℕ → ℕ} {position : S.File → ℕ} {size : ℕ}
      (D : IsDisk S byte position size) where
    -- On a disk, one write does.
    write_buf_once :
        (fuel : ℕ) (p : Bytes) (file : S.File)
        → position file % blocksize ≡ 0
        → position file + blocksize ≤ size
        → write_buf S (suc fuel) p blocksize file ≡ goes_on (S.write file p blocksize).1
    unfolding write_buf write_buf_loop
    write_buf_once fuel p file at inside = rw (write_buf, D.block file p at inside) refl

    -- The blocks stand one behind the other from the offset on, and nothing else has changed.
    pub write_blocks-contents :
        (fuel : ℕ) (kinds : List Block) (file : S.File)
        → position file % blocksize ≡ 0
        → position file + length kinds * blocksize ≤ size
        → (file' : S.File) × (write_blocks S (suc fuel) stack sb kinds file ≡ goes_on file')
          × ((j : ℕ)
              → byte file' j ≡ (
                  if leb (position file) j && ltb j (position file + length kinds * blocksize)
                  then contents kinds (j - position file)
                  else byte file j))
    unfolding write_blocks and_then
    write_blocks-contents fuel [] file at inside = (file, refl, λ j. ground arith)
    write_blocks-contents fuel (kind ∷ kinds) file at inside =
        let p = block_bytes stack sb kind in
        let file₁ = (S.write file p blocksize).1 in
        let moved = D.moved file p at (omega arith) in
        let (file', run, bytes) =
          write_blocks-contents fuel kinds file₁ (omega arith) (omega arith) in
        (
          file',
          rw (write_buf_once fuel p file at (omega arith)) run,
          λ j.
              let back : j - (position file + blocksize) ≡ j - position file - blocksize =
                omega arith in
              bytes j ∙ rw (moved, D.stored file p at (omega arith) j, back) (ground arith),
        )
