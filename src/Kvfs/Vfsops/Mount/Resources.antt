-- ===== src/Kvfs/Vfsops/Mount/Resources.antt =====
-- What `kvfs_mount` and `kvfs_unmount` hold of the kernel, and what a mount takes from the disk.
use embedded_operating_syste.Base.{
  ℕ, ◌+◌, ◌^◌, ◌≤◌, ◌<◌, ◌≡◌, ◌≢◌, false, Option, none, some, arith, length,
}
use embedded_operating_syste.Kvfs.Kernel.{Kernel}
use embedded_operating_syste.Kvfs.Layout.{
  Mount, decode_superblock, kvfs_superblock_magic, blocksize,
}
use embedded_operating_syste.Kvfs.Vfsops.Mount.{Held, all_held, kvfs_statfs}

-- A failed mount has an error and has given back the device: no GEOM consumer, no reference to the
-- device, no mount point set, no lock, no memory. A mount that succeeds holds all of them, and its
-- superblock has the magic number.
abbrev pub IsSettled : (K : Kernel) → K.Dev → ℕ × Option Mount × Held → Type 0
IsSettled K dev (error, none, held) =
    (error ≢ 0)
    × (held.consumer ≡ false)
    × (held.cdev_ref ≡ false)
    × (held.si_mountpt ≡ false)
    × (held.devvp_locked ≡ false)
    × (held.kvfsmp ≡ false)
IsSettled K dev (error, some mount, held) =
    (error ≡ 0)
    × (held ≡ all_held)
    × ((decode_superblock (K.bread dev 0 blocksize).1.b_data).magicnum ≡ kvfs_superblock_magic)

-- While the entries of the free list are counted and no more than the blocks, the free and the
-- used inodes of `kvfs_statfs` together are the blocks, and as many are free as the list has.
pub kvfs_statfs_adds_up :
    (mount : Mount)
    → mount.block_count < 2 ^ 32
    → mount.freelist_count ≤ mount.block_count
    → mount.freelist_count ≡ length mount.freelist
    → let stat = kvfs_statfs mount in
      (stat.f_files + stat.f_ffree ≡ stat.f_blocks) × (stat.f_bfree ≡ length mount.freelist)
unfolding kvfs_statfs
kvfs_statfs_adds_up mount b le counted = ground arith
