-- ===== src/Kvfs/Mkfs/Main/Formatted.antt =====
-- The disk that mkkvfs leaves.
use native.Mathlib.Decide.{dec_lt}
use embedded_operating_syste.Base.{
  ℕ, zero, suc, ◌+◌, ◌-◌, ◌*◌, ◌%◌, ◌≤◌, ◌<◌, ◌≡◌, refl, ◌&&◌, [], ◌∷◌, ◌++◌, ltb, leb,
  if◌then◌else◌, Bytes, memcpy, arith, ap, ◌∙◌, lt→ltb, le→ltb, le→leb,
}
use embedded_operating_syste.Kvfs.Layout.{
  Superblock, blocksize, sizeof_inode, sizeof_superblock, encode_superblock, encode_inode,
}
use embedded_operating_syste.Kvfs.Mkfs.{superblock, bitmap, inodes, zero_block}
use embedded_operating_syste.Kvfs.Mkfs.Format.{copies}
use embedded_operating_syste.Kvfs.Mkfs.Main.{mkfs_inode, inodes_fill, block_bytes}
use embedded_operating_syste.Kvfs.Mkfs.Main.Writes.{contents, contents-copies}
use embedded_operating_syste.Kvfs.Mkfs.Main.{cleared}
use embedded_operating_syste.Base.{memcpy_before}
use embedded_operating_syste.Base.{lt→leb}
use embedded_operating_syste.Base.{zeroes}
use embedded_operating_syste.Base.{memcpy_inside}

-- A disk with this superblock and no file: the superblock, a clear bitmap, inodes that are all
-- free, and blocks of zeroes.
pub record IsFormatted (bytes : ℕ → ℕ) (sb : Superblock) : Type 0 where
  pub superblock : (j : ℕ) → j < sizeof_superblock → bytes j ≡ encode_superblock sb j
  pub bitmap : (j : ℕ) → sb.freelist_off ≤ j → j < sb.inode_off → bytes j ≡ 0
  pub inodes :
      (j : ℕ)
      → sb.inode_off ≤ j
      → j < sb.data_off
      → bytes j ≡ encode_inode mkfs_inode ((j - sb.inode_off) % sizeof_inode)
  pub blocks : (j : ℕ) → sb.data_off ≤ j → j < sb.fs_size → bytes j ≡ 0

inodes_fill_lem :
    (n i : ℕ) (buf : Bytes) (j : ℕ)
    → inodes_fill n i buf j ≡ (
        if leb i j && ltb j (i + n * sizeof_inode)
        then encode_inode mkfs_inode ((j - i) % sizeof_inode)
        else buf j)
unfolding inodes_fill memcpy
inodes_fill_lem zero i buf j = ground arith
inodes_fill_lem (suc n) i buf j =
    let filled = memcpy buf i (encode_inode mkfs_inode) sizeof_inode in
    inodes_fill_lem n (i + sizeof_inode) filled j ∙ elim (dec_lt j (i + sizeof_inode)) [
      | yes first ↦
          let at : (j - i) % sizeof_inode ≡ j - i = elim (dec_lt j i) [
            | yes before ↦ omega arith
            | no inside ↦ omega arith
          ] in
          rw (lt→leb (i + sizeof_inode) j first, lt→ltb j (i + sizeof_inode) first, at)
            (rw (lt→ltb j (i + suc n * sizeof_inode) (omega arith)) refl)
      | no later ↦
          let at : (j - (i + sizeof_inode)) % sizeof_inode ≡ (j - i) % sizeof_inode = omega arith in
          let end : i + sizeof_inode + n * sizeof_inode ≡ i + suc n * sizeof_inode = omega arith in
          rw
            (
              le→leb (i + sizeof_inode) j (omega arith),
              le→leb i j (omega arith),
              le→ltb j (i + sizeof_inode) (omega arith),
              end,
              at,
            )
            refl
    ]

module _ (stack : Bytes) (sb : Superblock) where
  cleared_byte : (buf : Bytes) (j : ℕ) → j < blocksize → cleared buf j ≡ 0
  unfolding memcpy
  cleared_byte buf j lt = rw (le→leb 0 j (omega arith), lt→ltb j (0 + blocksize) (omega arith)) refl

  zero_byte : (j : ℕ) → j < blocksize → block_bytes stack sb zero_block j ≡ 0
  unfolding block_bytes
  zero_byte j lt = cleared_byte _ j lt

  bitmap_byte : (j : ℕ) → j < blocksize → block_bytes stack sb bitmap j ≡ 0
  unfolding block_bytes
  bitmap_byte j lt = cleared_byte _ j lt

  superblock_byte :
      (j : ℕ) → j < sizeof_superblock → block_bytes stack sb superblock j ≡ encode_superblock sb j
  unfolding block_bytes
  superblock_byte j lt =
      let same : 0 + j ≡ j = omega arith in
      let header = memcpy stack 0 (encode_superblock sb) sizeof_superblock in
      memcpy_before header sizeof_superblock zeroes (blocksize - sizeof_superblock) j lt
      ∙ rw same at (memcpy_inside stack 0 (encode_superblock sb) sizeof_superblock j lt)

  inode_byte :
      (j : ℕ)
      → j < blocksize
      → block_bytes stack sb inodes j ≡ encode_inode mkfs_inode (j % sizeof_inode)
  unfolding block_bytes
  inode_byte j lt =
      let same : j - 0 ≡ j = omega arith in
      inodes_fill_lem 128 0 _ j
      ∙ rw (le→leb 0 j (omega arith), lt→ltb j (0 + 128 * sizeof_inode) (omega arith), same) refl

  -- The disk that is one block of superblock, `a` of bitmap, `b` of inodes and `c` of zeroes.
  pub contents-IsFormatted :
      (a b c : ℕ) (bytes : ℕ → ℕ)
      → sb.freelist_off ≡ blocksize
      → sb.inode_off ≡ sb.freelist_off + a * blocksize
      → sb.data_off ≡ sb.inode_off + b * blocksize
      → sb.fs_size ≡ sb.data_off + c * blocksize
      → ((j : ℕ)
          → j < sb.fs_size
          → bytes j
            ≡ contents stack sb
                (superblock ∷ (copies a bitmap ++ (copies b inodes ++ (copies c zero_block ++ []))))
                j)
      → IsFormatted bytes sb
  contents-IsFormatted a b c bytes first bits table blocks e = record {
    superblock =
        λ j lt. e j (omega arith) ∙ rw (lt→ltb j blocksize (omega arith)) (superblock_byte j lt);
    bitmap = λ j le lt.
        e j (omega arith)
        ∙ rw
            (
              le→ltb j blocksize (omega arith),
              contents-copies stack sb a bitmap _ (j - blocksize),
              lt→ltb (j - blocksize) (a * blocksize) (omega arith),
            )
            (bitmap_byte ((j - blocksize) % blocksize) (omega arith));
    inodes = λ j le lt.
        let at : (j - blocksize - a * blocksize) % blocksize % sizeof_inode
            ≡ (j - sb.inode_off) % sizeof_inode =
          omega arith in
        e j (omega arith)
        ∙ rw
            (
              le→ltb j blocksize (omega arith),
              contents-copies stack sb a bitmap _ (j - blocksize),
              le→ltb (j - blocksize) (a * blocksize) (omega arith),
              contents-copies stack sb b inodes _ (j - blocksize - a * blocksize),
              lt→ltb (j - blocksize - a * blocksize) (b * blocksize) (omega arith),
            )
            (inode_byte ((j - blocksize - a * blocksize) % blocksize) (omega arith)
              ∙ ap (encode_inode mkfs_inode) at);
    blocks = λ j le lt.
        let before = j - blocksize - a * blocksize in
        e j (omega arith)
        ∙ rw
            (
              le→ltb j blocksize (omega arith),
              contents-copies stack sb a bitmap _ (j - blocksize),
              le→ltb (j - blocksize) (a * blocksize) (omega arith),
              contents-copies stack sb b inodes _ before,
              le→ltb before (b * blocksize) (omega arith),
              contents-copies stack sb c zero_block [] (before - b * blocksize),
              lt→ltb (before - b * blocksize) (c * blocksize) (omega arith),
            )
            (zero_byte ((before - b * blocksize) % blocksize) (omega arith));
  }
