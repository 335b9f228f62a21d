-- ===== src/Ddfs/Newfs.antt =====
-- What ddfs adds to newfs: deduplicating-fs/tools/newfs-ddfs/mkfs.c, the place of the dedup table
-- and its first content. `bwrite` is that of libufs, an argument.
pub mod Empty
use embedded_operating_syste.Base.{
  ℕ, zero, suc, ◌+◌, ◌-◌, ◌*◌, ◌/◌, ◌%◌, ◌^◌, ltb, if◌then◌else◌, Option, none, some, Bytes, zeroes,
  set_bit,
}
use embedded_operating_syste.Kvfs.Layout.{dev_bsize, int_to_size}
use embedded_operating_syste.Ddfs.Table.{Dedup, encode_dedup, sizeof_dedup, ddfs_dedup_free}

abbrev pub sblocksize : ℕ
sblocksize = 8192

-- `howmany` and `roundup`, for `y` that is not 0
abbrev pub howmany : ℕ → ℕ → ℕ
howmany x y = (x + (y - 1)) / y

abbrev pub roundup : ℕ → ℕ → ℕ
roundup x y = (x + (y - 1)) / y * y

-- `roundup` of an `int` given as its bit pattern, with the division of C, which goes towards 0.
unfoldable pub int_roundup : ℕ → ℕ → ℕ
int_roundup pattern y =
    let down = (2 ^ 32 - pattern - (y - 1)) / y * y in
    if ltb pattern (2 ^ 31) then roundup pattern y % 2 ^ 32 else (2 ^ 32 - down) % 2 ^ 32

-- The fields of the superblock that `mkfs` computes, in fragments: each an `int32_t`, as its bit
-- pattern.
pub record Placement : Type 0 where
  pub fs_sblkno : ℕ
  pub fs_ddblkno : ℕ
  pub fs_dedupfrags : ℕ
  pub fs_cblkno : ℕ
  pub fs_iblkno : ℕ

-- From `fs_fsize`, `fs_frag`, `fs_sblockloc` and `mediasize`; an eighth of the medium is for the
-- table. `extra` has 64 bits.
unfoldable pub place : ℕ → ℕ → ℕ → ℕ → Placement
unfolding int_roundup
place fs_fsize fs_frag fs_sblockloc mediasize =
    let sblkno = roundup (howmany (fs_sblockloc + sblocksize) fs_fsize) fs_frag % 2 ^ 32 in
    let extra = roundup (mediasize / 8) fs_fsize % 2 ^ 64 in
    let ddblkno = (sblkno + howmany sblocksize fs_fsize) % 2 ^ 32 in
    let dedupfrags = roundup (howmany extra fs_fsize) fs_frag % 2 ^ 32 in
    let table = int_roundup ((ddblkno + dedupfrags) % 2 ^ 32) fs_frag in
    let cblkno = (table + roundup (howmany sblocksize fs_fsize) fs_frag) % 2 ^ 32 in
    record {
      fs_sblkno = sblkno;
      fs_ddblkno = ddblkno;
      fs_dedupfrags = dedupfrags;
      fs_cblkno = cblkno;
      fs_iblkno = (cblkno + fs_frag) % 2 ^ 32;
    }

-- `struct ddfs_dedup free_entry`
unfoldable pub free_entry : Dedup
free_entry = record { key = zeroes; flags = set_bit 0 ddfs_dedup_free; ref_count = 0; blockptr = 0 }

-- A fragment of free entries.
unfoldable pub free_fragment : Bytes
unfolding free_entry
free_fragment i = encode_dedup free_entry (i % sizeof_dedup)

module _ (Dev : Type 0) (bwrite : Dev → ℕ → Bytes → ℕ → Option Dev) (fs_fsize fs_ddblkno : ℕ) where
  -- The loop over the fragments of the table, from `i` on; an error ends the program. The sector
  -- is computed in an `int` and then converted to 64 bits.
  unfoldable pub init_loop : ℕ → ℕ → Dev → Option Dev
  unfolding free_fragment
  init_loop zero i dev = some dev
  init_loop (suc n) i dev =
      elim (bwrite dev (int_to_size (fs_fsize / dev_bsize * (fs_ddblkno + i))) free_fragment
        fs_fsize) [ none ↦ none | some dev' ↦ init_loop n (i + 1) dev' ]
