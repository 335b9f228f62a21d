-- ===== src/Kvfs/Mkfs/Main.antt =====
-- key-value-fs/tools/mkkvfs.c: `main`, over the calls of the system that it makes.
pub mod Formatted
pub mod Formats
pub mod Writes
use embedded_operating_syste.Base.{
  ℕ, zero, suc, ◌+◌, ◌-◌, ◌%◌, Bool, true, false, not, ◌&&◌, ◌||◌, Option, none, some, List, [],
  ◌∷◌, ltb, ◌==◌, if◌then◌else◌, Bytes, zeroes, offset, memcpy, set_bit,
}
use embedded_operating_syste.Kvfs.Bytes.{le}
use embedded_operating_syste.Kvfs.Layout.{
  Superblock, Inode, encode_superblock, encode_inode, decode_superblock, blocksize, sizeof_inode,
  sizeof_superblock, kvfs_inode_free, kvfs_superblock_magic,
}
use embedded_operating_syste.Kvfs.Mkfs.{
  Block, superblock, bitmap, inodes, zero_block, init_superblock, format,
}
use embedded_operating_syste.Base.{◌/◌}

abbrev pub page_size : ℕ
page_size = 4096

-- What `getopt(argc, argv, "hf:")` returns, one after the other: `-f` with its argument, or
-- anything else.
pub data Flag : Type 0 where
  dash_f : List ℕ → Flag
  other : Flag

-- `strrchr(name, '/') != NULL`
unfoldable pub has_slash : List ℕ → Bool
has_slash [] = false
has_slash (c ∷ cs) = (c == b'/') || has_slash cs

-- The name in `device`, or none where the program exits.
unfoldable pub flags_loop : List Flag → Option (List ℕ) → Option (List ℕ)
unfolding has_slash
flags_loop [] device = device
flags_loop (dash_f name ∷ flags) device =
    let rest = flags_loop flags (some name) in if has_slash name then rest else none
flags_loop (other ∷ flags) device = none

-- The calls of the system. A file is the open device with its offset; a failed call gives `none`
-- or an error that is not 0, and the file afterwards.
pub record System : Type 1 where
  pub File : Type 0
  pub open_rdwr : List ℕ → Option File
  pub read : File → ℕ → Option Bytes × File
  pub fgetc : ℕ
  pub rewind : File → File
  pub sector_error : File → ℕ
  pub media_error : File → ℕ
  pub media_size : File → ℕ
  pub write : File → Bytes → ℕ → Option ℕ × File

-- `inode`: all zero, and marked free.
unfoldable pub mkfs_inode : Inode
mkfs_inode = record {
  key = zeroes;
  flags = set_bit 0 kvfs_inode_free;
  ref_count = 0;
  timestamp = 0;
}

-- `for (i = 0; i < BLOCKSIZE; i += sizeof(struct kvfs_inode)) memcpy(buf + i, &inode, ...)`, with
-- `n` rounds left.
unfoldable pub inodes_fill : ℕ → ℕ → Bytes → Bytes
inodes_fill zero i buf = buf
inodes_fill (suc n) i buf =
    inodes_fill n (i + sizeof_inode) (memcpy buf i (encode_inode mkfs_inode) sizeof_inode)

-- `buf` when each of the sections is written from it; at first it holds what the stack does.
abbrev pub superblock_buf : Bytes → Superblock → Bytes
superblock_buf stack sb =
    memcpy (memcpy stack 0 (encode_superblock sb) sizeof_superblock) sizeof_superblock zeroes
      (blocksize - sizeof_superblock)

abbrev pub cleared : Bytes → Bytes
cleared buf = memcpy buf 0 zeroes blocksize

unfoldable pub block_bytes : Bytes → Superblock → Block → Bytes
unfolding inodes_fill
block_bytes stack sb superblock = superblock_buf stack sb
block_bytes stack sb bitmap = cleared (superblock_buf stack sb)
block_bytes stack sb inodes =
    inodes_fill (blocksize / sizeof_inode) 0 (cleared (superblock_buf stack sb))
block_bytes stack sb zero_block =
    cleared (inodes_fill (blocksize / sizeof_inode) 0 (cleared (superblock_buf stack sb)))

-- How a part of the program ends: it goes on with the file, exits with a code, or is still
-- running when the fuel is spent.
pub data Run (File : Type 0) : Type 0 where
  goes_on : File → Run File
  exits : ℕ → Option File → Run File
  runs_on : Run File

unfoldable pub and_then : {File : Type 0} → Run File → (File → Run File) → Run File
and_then (goes_on file) next = next file
and_then (exits code file) next = exits code file
and_then runs_on next = runs_on

module _ (S : System) where
  -- `writebuf`: its loop on fuel, and the whole.
  unfoldable pub write_buf_loop : ℕ → Bytes → ℕ → ℕ → S.File → Run S.File
  write_buf_loop zero buf size write_size file = runs_on
  write_buf_loop (suc fuel) buf size write_size file =
      let (written, file') = S.write file (offset buf write_size) (size - write_size) in
      if not (ltb write_size size) then goes_on file else elim written [
        | none ↦ exits 1 (some file')
        | some n ↦ write_buf_loop fuel buf size n file'
      ]

  unfoldable pub write_buf : ℕ → Bytes → ℕ → S.File → Run S.File
  unfolding write_buf_loop
  write_buf fuel buf size file =
      let (written, file') = S.write file buf size in
      elim written [ none ↦ exits 1 (some file') | some n ↦ write_buf_loop fuel buf size n file' ]

  -- The blocks of a kind each, one after the other.
  unfoldable pub write_blocks : ℕ → Bytes → Superblock → List Block → S.File → Run S.File
  unfolding write_buf block_bytes
  write_blocks fuel stack sb [] file = goes_on file
  write_blocks fuel stack sb (kind ∷ kinds) file =
      and_then (write_buf fuel (block_bytes stack sb kind) blocksize file)
        (write_blocks fuel stack sb kinds)

  -- From the sizes of the device on.
  unfoldable pub format_device : ℕ → Bytes → S.File → Run S.File
  unfolding write_blocks
  format_device fuel stack file =
      if not (S.sector_error file == 0)
      then exits 1 (some file)
      else if not (S.media_error file == 0)
      then exits 1 (some file)
      else elim (init_superblock (S.media_size file)) [
        | none ↦ runs_on
        | some sb ↦
            and_then (write_blocks fuel stack sb (format sb) file) (λ file'. exits 0 (some file'))
      ]

  -- A device that has kvfs on it is left alone unless the answer is `Y` or `y`.
  unfoldable pub main : ℕ → Bytes → List Flag → Run S.File
  unfolding flags_loop
  main fuel stack flags = elim (flags_loop flags none) [
    | none ↦ exits 1 none
    | some device ↦ elim (S.open_rdwr device) [
      | none ↦ exits 1 none
      | some file ↦
          let (readbuf, file₁) = S.read file page_size in
          elim readbuf [
            | none ↦ exits 1 (some file₁)
            | some check ↦
                if ((decode_superblock check).magicnum == kvfs_superblock_magic)
                  && not ((S.fgetc == b'Y') || (S.fgetc == b'y'))
                then exits 0 (some file₁)
                else format_device fuel stack (S.rewind file₁)
          ]
    ]
  ]
