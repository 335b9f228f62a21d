-- ===== src/Kvfs/Mkfs.antt =====
-- key-value-fs/tools/mkkvfs.c: the layout of a disk, and the blocks that are written to it.
pub mod Format
pub mod Layout
pub mod Main
pub mod Writebuf
use embedded_operating_syste.Base.{
  ℕ, zero, suc, ◌+◌, ◌-◌, ◌*◌, ◌/◌, ◌%◌, ◌^◌, Bool, true, false, Option, none, some, List, [], ◌∷◌,
  ◌++◌, ltb, ◌==◌, if◌then◌else◌,
}
use mathlib.Core.Option
use embedded_operating_syste.Kvfs.Layout.{
  Superblock, blocksize, ceil, pad, sizeof_inode, sizeof_superblock, kvfs_superblock_magic,
}

-- What the loop leaves in `blocks`, `inode_count` and `sum`; `free_bitmap` is CEIL(inode_count, 8).
pub record Guess : Type 0 where
  pub blocks : ℕ
  pub inode_count : ℕ
  pub sum : ℕ

-- `sum` for a number of blocks
abbrev pub size_of : ℕ → ℕ
size_of blocks = blocksize + blocks * blocksize + pad (blocks * sizeof_inode) + pad (ceil blocks 8)

-- The loop, on fuel. `blocks -= delta` is taken on ℕ: `Mkfs.Layout` shows that it never goes
-- below zero.
unfoldable pub guess_loop : ℕ → ℕ → ℕ → ℕ → Option Guess
guess_loop zero disksize blocks delta = none
guess_loop (suc fuel) disksize blocks delta =
    let sum = size_of blocks in
    let over = ltb disksize sum in
    let blocks' = if over then blocks - delta else blocks + delta in
    let delta' = if over then delta / 2 else delta in
    let rest = guess_loop fuel disksize blocks' delta' in
    if sum == disksize
    then some (record { blocks = blocks; inode_count = blocks; sum = sum })
    else if ltb delta' 1
    then some (record { blocks = blocks'; inode_count = blocks; sum = sum })
    else rest

-- Enough rounds for every disk: each of them lowers `delta`, or raises `blocks` at the same `delta`.
abbrev pub rounds : ℕ → ℕ
rounds disksize = disksize / 16 * (2 * disksize + 2) + 2 * disksize + 2

-- The fields, from what the loop leaves.
unfoldable pub superblock_of : Guess → Superblock
superblock_of guess =
    let inode_off = pad (ceil guess.inode_count 8) + blocksize in
    record {
      magicnum = kvfs_superblock_magic;
      superblock_size = sizeof_superblock;
      freelist_off = blocksize;
      inode_off = inode_off;
      data_off = pad (guess.inode_count * sizeof_inode) + inode_off;
      block_count = guess.blocks % 2 ^ 32;
      flags = 0;
      fs_size = guess.sum;
    }

unfoldable pub init_superblock : ℕ → Option Superblock
unfolding guess_loop superblock_of
init_superblock disksize =
    let start = (disksize - blocksize) / blocksize / 2 in
    Option.map superblock_of (guess_loop (rounds disksize) disksize start (disksize / 16))

-- What a block of the disk is written with.
pub data Block : Type 0 where
  superblock bitmap inodes zero_block : Block

-- `for (ptr = from; ptr < to; ptr += BLOCKSIZE)`, that writes a block each time.
unfoldable pub blocks_loop : ℕ → Block → ℕ → ℕ → List Block
blocks_loop zero kind ptr to = []
blocks_loop (suc fuel) kind ptr to =
    let rest = blocks_loop fuel kind (ptr + blocksize) to in if ltb ptr to then kind ∷ rest else []

-- The loop over the inodes, that writes a block where `ptr` is a multiple of BLOCKSIZE.
unfoldable pub inodes_loop : ℕ → ℕ → ℕ → List Block
inodes_loop zero ptr to = []
inodes_loop (suc fuel) ptr to =
    let rest = inodes_loop fuel (ptr + sizeof_inode) to in
    if ltb ptr to then (if ptr % blocksize == 0 then inodes ∷ rest else rest) else []

-- The blocks that `main` writes, from the start of the device on. The fuel is the end of each
-- section, which is at least the number of its rounds.
unfoldable pub format : Superblock → List Block
format sb =
    superblock
    ∷ (blocks_loop sb.inode_off bitmap sb.freelist_off sb.inode_off
        ++ (inodes_loop sb.data_off sb.inode_off sb.data_off
            ++ blocks_loop sb.fs_size zero_block sb.data_off sb.fs_size))
