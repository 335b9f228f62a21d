-- ===== src/Kvfs/Mkfs/Main/Formats.antt =====
-- `main` of mkkvfs on a disk: what it returns, and what it leaves.
use embedded_operating_syste.Base.{
  ℕ, suc, ◌+◌, ◌-◌, ◌*◌, ◌/◌, ◌^◌, ◌≤◌, ◌<◌, ◌≡◌, refl, false, not, ◌&&◌, ◌||◌, Option, none, some,
  List, [], ◌∷◌, ◌++◌, length, ◌==◌, Bytes, arith, ap, ◌∙◌, subst, lt→ltb, le→leb,
}
use embedded_operating_syste.Kvfs.Layout.{
  Superblock, blocksize, decode_superblock, kvfs_superblock_magic,
}
use embedded_operating_syste.Kvfs.Mkfs.{
  superblock, bitmap, inodes, zero_block, format, init_superblock,
}
use embedded_operating_syste.Kvfs.Mkfs.Format.{copies, copies-nil, length-copies, format-copies}
use embedded_operating_syste.Kvfs.Mkfs.Layout.{
  IsLaidOut, Formats, formats, init_superblock-IsLaidOut,
}
use embedded_operating_syste.Kvfs.Mkfs.Main.{
  System, Flag, Run, goes_on, exits, and_then, flags_loop, page_size, write_blocks, format_device,
  main,
}
use embedded_operating_syste.Kvfs.Mkfs.Main.Writes.{IsDisk, write_blocks-contents}
use embedded_operating_syste.Kvfs.Mkfs.Main.Formatted.{IsFormatted, contents-IsFormatted}

-- The layout of the superblock that was found.
pub laid_out :
    (disksize : ℕ) (sb : Superblock)
    → 2 ^ 15 ≤ disksize
    → disksize < 2 ^ 44
    → init_superblock disksize ≡ some sb
    → IsLaidOut disksize sb
laid_out disksize sb large small e = from e (init_superblock-IsLaidOut disksize large small)
  where
    get : Option Superblock → Superblock
    get none = sb
    get (some sb') = sb'

    from :
        {r : Option Superblock}
        → r ≡ some sb
        → Formats (IsLaidOut disksize) r
        → IsLaidOut disksize sb
    from e (formats l) = subst (IsLaidOut disksize) (ap get e) l

-- The program has ended with code 0, and left such a file.
pub data Exits {File : Type 0} (P : File → Type 0) : Run File → Type 0 where
  exited : {file : File} → P file → Exits P (exits 0 (some file))

module _ (S : System) {byte : S.File → ℕ → ℕ} {position : S.File → ℕ} {size : ℕ}
    (D : IsDisk S byte position size) (stack : Bytes) where
  -- From the start of a disk that is the file system's size, the blocks make the file system.
  blocks-IsFormatted :
      (fuel : ℕ) (sb : Superblock) (file : S.File)
      → position file ≡ 0
      → IsLaidOut size sb
      → sb.fs_size ≤ size
      → (file' : S.File) × (write_blocks S (suc fuel) stack sb (format sb) file ≡ goes_on file')
        × IsFormatted (byte file') sb
  blocks-IsFormatted fuel sb file start laid fits =
      let (ia, da, sa) = laid.aligned in
      let a = sb.inode_off / blocksize - 1 in
      let b = sb.data_off / blocksize - sb.inode_off / blocksize in
      let c = sb.fs_size / blocksize - sb.data_off / blocksize in
      let first = laid.freelist_off in
      let bits : sb.inode_off ≡ sb.freelist_off + a * blocksize = omega (arith, laid.bitmap) in
      let table : sb.data_off ≡ sb.inode_off + b * blocksize = omega (arith, laid.inodes) in
      let blocks : sb.fs_size ≡ sb.data_off + c * blocksize = omega (arith, laid.blocks) in
      let kinds =
        superblock ∷ (copies a bitmap ++ (copies b inodes ++ (copies c zero_block ++ []))) in
      let whole : format sb ≡ kinds =
        format-copies sb a b c first bits table blocks ∙ rw (copies-nil c zero_block) refl in
      let count : length kinds ≡ suc (a + (b + (c + 0))) =
        rw
          (
            length-copies a bitmap (copies b inodes ++ (copies c zero_block ++ [])),
            length-copies b inodes (copies c zero_block ++ []),
            length-copies c zero_block [],
          )
          refl in
      let end : length kinds * blocksize ≡ sb.fs_size = rw count (omega arith) in
      let (file', run, bytes) =
        write_blocks-contents stack sb S D fuel kinds file (omega arith) (omega arith) in
      (
        file',
        rw whole run,
        contents-IsFormatted stack sb a b c (byte file') first bits table blocks (λ j lt.
            let at : j - position file ≡ j = omega arith in
            bytes j
            ∙ rw
                (
                  le→leb (position file) j (omega arith),
                  lt→ltb j (position file + length kinds * blocksize) (omega arith),
                  at,
                )
                refl),
      )

  -- What the program needs to format: a device that is named and opens, that has no kvfs on it or
  -- the user's consent, and whose size is read.
  pub record CanFormat (flags : List Flag) (device : List ℕ) (file : S.File) (check : Bytes)
      : Type 0 where
    pub named : flags_loop flags none ≡ some device
    pub opened : S.open_rdwr device ≡ some file
    pub checked : (S.read file page_size).0 ≡ some check
    pub consent :
        (((decode_superblock check).magicnum == kvfs_superblock_magic)
          && not ((S.fgetc == b'Y') || (S.fgetc == b'y')))
        ≡ false
    pub sector : S.sector_error (S.rewind (S.read file page_size).1) ≡ 0
    pub media : S.media_error (S.rewind (S.read file page_size).1) ≡ 0
    pub media_size : S.media_size (S.rewind (S.read file page_size).1) ≡ size

  -- The file that the program leaves.
  pub main_run :
      (fuel : ℕ) (flags : List Flag) (device : List ℕ) (file : S.File) (check : Bytes)
      (sb : Superblock)
      → CanFormat flags device file check
      → 2 ^ 15 ≤ size
      → size < 2 ^ 44
      → init_superblock size ≡ some sb
      → sb.fs_size ≡ size
      → (file' : S.File) × (main S (suc fuel) stack flags ≡ exits 0 (some file'))
        × IsFormatted (byte file') sb
  unfolding main format_device and_then
  main_run fuel flags device file check sb can large small made exact =
      let file₂ = S.rewind (S.read file page_size).1 in
      let laid = laid_out size sb large small made in
      let (file', run, formatted) =
        blocks-IsFormatted fuel sb file₂ (D.start (S.read file page_size).1) laid (omega arith) in
      (
        file',
        rw
            (
              main, can.named, can.opened, can.checked, can.consent, format_device, can.sector,
              can.media, can.media_size, made, run,
            )
            refl,
        formatted,
      )

  -- On a disk of 32 KiB to 16 TiB, when `main` may format and the superblock that it computes has
  -- the disk's size, it exits with 0 and leaves a disk with that superblock, a clear bitmap, free
  -- inodes and blocks of zeroes.
  pub main-IsFormatted :
      (fuel : ℕ) (flags : List Flag) (device : List ℕ) (file : S.File) (check : Bytes)
      (sb : Superblock)
      → CanFormat flags device file check
      → 2 ^ 15 ≤ size
      → size < 2 ^ 44
      → init_superblock size ≡ some sb
      → sb.fs_size ≡ size
      → Exits (λ file'. IsFormatted (byte file') sb) (main S (suc fuel) stack flags)
  main-IsFormatted fuel flags device file check sb can large small made exact =
      let (file', run, formatted) =
        main_run fuel flags device file check sb can large small made exact in
      rw run (exited formatted)
