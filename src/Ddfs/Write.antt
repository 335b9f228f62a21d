-- ===== src/Ddfs/Write.antt =====
-- What ddfs adds to the write and to the freeing of a block: deduplicating-fs/src/ddfs_vnops.c,
-- `ffs_write`, and deduplicating-fs/src/ddfs_alloc.c, `ffs_blkfree`. The freeing of FreeBSD's FFS
-- and the hash of a block are arguments.
pub mod Refines
pub mod Waits
use embedded_operating_syste.Base.{
  ℕ, Bool, true, false, not, Option, none, some, Bytes, update, offset, if◌then◌else◌, ltb, ◌==◌,
}
use embedded_operating_syste.Kvfs.Kernel.{Kernel}
use embedded_operating_syste.Ddfs.Table.{
  DedupFs, ddtable_alloc, alloc_locks, unref_waits, ddtable_unref,
}

-- The direct blocks of a `struct ufs2_dinode`, of which there are UFS_NDADDR, and whether the
-- inode is to be written (`IN_MODIFIED | IN_NEEDSYNC`).
pub record Dinode : Type 0 where
  pub di_db : ℕ → ℕ
  pub modified : Bool

abbrev pub ufs_ndaddr : ℕ
ufs_ndaddr = 12

-- `Free` is the state of the FFS allocator, and `free` the rest of `ffs_blkfree`.
module _ (K : Kernel) (fs : DedupFs) (Free : Type 0) (free : Free → ℕ → Free) where
  -- The block is freed unless users are left.
  unfoldable pub ffs_blkfree : ℕ → K.Dev → Free → K.Dev × Free
  ffs_blkfree bno dev blocks =
      let (refcount, dev') = ddtable_unref K fs dev bno in
      elim refcount [
        | none ↦ (dev', free blocks bno)
        | some left ↦ if ltb 0 left then (dev', blocks) else (dev', free blocks bno)
      ]

  -- The block of the file behind its key. Outside of `di_db`, or when `ddtable_alloc` has no
  -- buffer, the code has no value; where it leaves a buffer of the table locked that `ffs_blkfree`
  -- reads, the code does not return: `none`. A lock that outlives the call is followed no further.
  unfoldable pub dedup_block :
      Bytes → ℕ → ℕ → Dinode → K.Dev → Free → Option (Dinode × K.Dev × Free)
  unfolding ffs_blkfree
  dedup_block key lbn junk dp dev blocks =
      let oldblk = dp.di_db lbn in
      if not (ltb lbn ufs_ndaddr) then none else elim (ddtable_alloc K fs dev key oldblk junk) [
        | none ↦ none
        | some (newblk, dev') ↦
            let (dev₁, blocks₁) = ffs_blkfree oldblk dev' blocks in
            let dp' : Dinode = record { di_db = update dp.di_db lbn newblk; modified = true } in
            let waits = unref_waits K fs dev' oldblk (alloc_locks K fs dev key) in
            if not (newblk == oldblk)
            then (if waits then none else some (dp', dev₁, blocks₁))
            else some (dp, dev', blocks)
      ]

  -- The key is the hash of the buffer from the offset of the write on.
  unfoldable pub write_block :
      (Bytes → Bytes) → Bytes → ℕ → ℕ → ℕ → Dinode → K.Dev → Free → Option (Dinode × K.Dev × Free)
  unfolding dedup_block
  write_block hash_block b_data blkoffset lbn junk dp dev blocks =
      dedup_block (hash_block (offset b_data blkoffset)) lbn junk dp dev blocks
