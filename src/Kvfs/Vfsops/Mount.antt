-- ===== src/Kvfs/Vfsops/Mount.antt =====
-- key-value-fs/src/kvfs_vfsops.c: mounting, unmounting and the file system's statistics.
pub mod Freelist
pub mod Resources
use embedded_operating_syste.Base.{
  ℕ, zero, suc, ◌+◌, ◌-◌, ◌*◌, ◌/◌, ◌%◌, ◌^◌, Bool, true, false, not, Option, none, some, List, [],
  ◌∷◌, leb, ◌==◌, if◌then◌else◌, Bytes, has_bit,
}
use embedded_operating_syste.Kvfs.Kernel.{Kernel, einval, ebusy, eopnotsupp}
use embedded_operating_syste.Kvfs.Layout.{
  Mount, Superblock, decode_superblock, kvfs_superblock_magic, kvfs_key_strlen, blocksize, pad,
  btodb, sizeof_inode, inode_idx,
}

-- The free list under construction: the entries, last first, and their number.
pub record Found : Type 0 where
  pub freelist : List ℕ
  pub freelist_count : ℕ

-- The loop over the masks of a byte, from `1 << 7` down: `n` rounds are left, and the mask is
-- `1 << (n - 1)`. It ends early at a clear bit beyond the last block. `i` is an `int`.
unfoldable pub mask_loop : ℕ → ℕ → ℕ → ℕ → ℕ → Found → Found
mask_loop zero j byte i block_count found = found
mask_loop (suc n) j byte i block_count found =
    let ino = (inode_idx (i * 8) + j * sizeof_inode) % 2 ^ 64 in
    let added = record found {
      freelist = ino ∷ found.freelist;
      freelist_count = (found.freelist_count + 1) % 2 ^ 32;
    } in
    let skip = mask_loop n (j + 1) byte i block_count found in
    let take = mask_loop n (j + 1) byte i block_count added in
    if has_bit byte n then skip else if leb block_count ((i * 8 + j) % 2 ^ 32) then found else take

-- The loop over the bytes of the bitmap, from byte `i` on.
unfoldable pub freelist_loop : ℕ → ℕ → Bytes → ℕ → Found → Found
unfolding mask_loop
freelist_loop zero i b_data block_count found = found
freelist_loop (suc n) i b_data block_count found =
    freelist_loop n (i + 1) b_data block_count (mask_loop 8 0 (b_data i) i block_count found)

-- CEIL(block_count, 8) in 32 bits
abbrev pub freelist_bytes : ℕ → ℕ
freelist_bytes block_count = (block_count + 8 - 1) % 2 ^ 32 / 8

-- What the calls of the kernel answer on the way to the mount.
pub record MountCalls : Type 0 where
  pub mnt_update : Bool
  pub getopt_error : ℕ
  pub namei_error : ℕ
  pub is_disk : Bool
  pub disk_error : ℕ
  pub claimed : Bool
  pub g_vfs_open_error : ℕ

-- What the mount holds of the kernel: a reference to the device's vnode and its lock,
-- `si_mountpt`, the GEOM consumer, a reference to the device, the memory of `kvfs_mount`,
-- `MNT_LOCAL`.
pub record Held : Type 0 where
  pub devvp_ref : Bool
  pub devvp_locked : Bool
  pub si_mountpt : Bool
  pub consumer : Bool
  pub cdev_ref : Bool
  pub kvfsmp : Bool
  pub mnt_local : Bool

unfoldable pub nothing_held : Held
nothing_held = record {
  devvp_ref = false;
  devvp_locked = false;
  si_mountpt = false;
  consumer = false;
  cdev_ref = false;
  kvfsmp = false;
  mnt_local = false;
}

unfoldable pub all_held : Held
all_held = record {
  devvp_ref = true;
  devvp_locked = false;
  si_mountpt = true;
  consumer = true;
  cdev_ref = true;
  kvfsmp = true;
  mnt_local = true;
}

-- The calls of the kernel that take or give back. `namei` leaves the vnode locked.
abbrev namei : Held → Held
namei held = record held { devvp_ref = true; devvp_locked = true }

abbrev vput_devvp : Held → Held
vput_devvp held = record held { devvp_ref = false; devvp_locked = false }

abbrev unlock_devvp : Held → Held
unlock_devvp held = record held { devvp_locked = false }

abbrev set_mountpt : Bool → Held → Held
set_mountpt taken held = record held { si_mountpt = taken }

abbrev g_vfs_open : Held → Held
g_vfs_open held = record held { consumer = true }

abbrev g_vfs_close : Held → Held
g_vfs_close held = record held { consumer = false }

abbrev dev_ref : Held → Held
dev_ref held = record held { cdev_ref = true }

abbrev dev_rel : Held → Held
dev_rel held = record held { cdev_ref = false }

abbrev malloc_kvfsmp : Held → Held
malloc_kvfsmp held = record held { kvfsmp = true }

abbrev free_kvfsmp : Held → Held
free_kvfsmp held = record held { kvfsmp = false }

abbrev set_local : Held → Held
set_local held = record held { mnt_local = true }

abbrev pub mount_of : Superblock → Found → Mount
mount_of sb found = record {
  freelist_off = sb.freelist_off;
  inode_off = sb.inode_off;
  data_off = sb.data_off;
  block_count = sb.block_count;
  flags = sb.flags;
  freelist = found.freelist;
  freelist_count = found.freelist_count;
}

-- `error_exit`
abbrev pub mount_error_exit : ℕ → Held → ℕ × Option Mount × Held
mount_error_exit error held =
    (error, none, set_mountpt false (dev_rel (g_vfs_close (free_kvfsmp held))))

-- From the read of the superblock on.
unfoldable pub mount_device : (K : Kernel) → K.Dev → Held → ℕ × Option Mount × Held
unfolding freelist_loop
mount_device K dev held =
    let (error, bp) = K.bread dev 0 blocksize in
    if not (error == 0)
    then mount_error_exit error held
    else let sb = decode_superblock bp.b_data in
      if not (sb.magicnum == kvfs_superblock_magic)
      then mount_error_exit einval held
      else let count = freelist_bytes sb.block_count in
        let (error, bits) = K.bread dev (btodb sb.freelist_off) (pad count) in
        if not (error == 0) then mount_error_exit error held else (
          0,
          some (
              mount_of sb (
                freelist_loop count 0 bits.b_data sb.block_count
                  (record { freelist = []; freelist_count = 0 }))),
          held,
        )

unfoldable pub kvfs_mount : (K : Kernel) → MountCalls → K.Dev → ℕ × Option Mount × Held
unfolding nothing_held
kvfs_mount K calls dev =
    if calls.mnt_update
    then (eopnotsupp, none, nothing_held)
    else if not (calls.getopt_error == 0)
    then (einval, none, nothing_held)
    else if not (calls.namei_error == 0)
    then (calls.namei_error, none, nothing_held)
    else let found = namei nothing_held in
      if not calls.is_disk
      then (calls.disk_error, none, vput_devvp found)
      else if not calls.claimed
      then (ebusy, none, unlock_devvp found)
      else let claimed = set_mountpt true found in
        if not (calls.g_vfs_open_error == 0)
        then (calls.g_vfs_open_error, none, unlock_devvp (set_mountpt false claimed))
        else mount_device K dev
            (set_local (malloc_kvfsmp (unlock_devvp (dev_ref (g_vfs_open claimed)))))

-- The loop that frees the entries: what it has freed, in order.
unfoldable pub free_freelist : List ℕ → List ℕ
free_freelist [] = []
free_freelist (curr ∷ next) = curr ∷ free_freelist next

-- The error of `vflush` ends it; else the mount and all that it holds are given back. With the
-- entries that were freed.
unfoldable pub kvfs_unmount : (vflush_error : ℕ) → Mount → Held → ℕ × Option Mount × Held × List ℕ
unfolding free_freelist
kvfs_unmount vflush_error mount held =
    if not (vflush_error == 0) then (vflush_error, some mount, held, []) else (
      0,
      none,
      record held {
        consumer = false;
        si_mountpt = false;
        devvp_ref = false;
        cdev_ref = false;
        kvfsmp = false;
        mnt_local = false;
      },
      free_freelist mount.freelist,
    )

-- The fields of `struct statfs` that are set.
pub record Statfs : Type 0 where
  pub f_bsize : ℕ
  pub f_iosize : ℕ
  pub f_blocks : ℕ
  pub f_bfree : ℕ
  pub f_bavail : ℕ
  pub f_files : ℕ
  pub f_ffree : ℕ
  pub f_namemax : ℕ

unfoldable pub kvfs_statfs : Mount → Statfs
kvfs_statfs mount = record {
  f_bsize = blocksize;
  f_iosize = blocksize;
  f_blocks = mount.block_count;
  f_bfree = mount.freelist_count;
  f_bavail = mount.freelist_count;
  f_files = (mount.block_count + 2 ^ 32 - mount.freelist_count) % 2 ^ 32;
  f_ffree = mount.freelist_count;
  f_namemax = kvfs_key_strlen;
}

unfoldable pub kvfs_sync : ℕ
kvfs_sync = 0

-- `uma_zcreate` gives a zone or NULL; 12 is ENOMEM.
unfoldable pub kvfs_init : (zone : Bool) → ℕ
kvfs_init zone = if zone then 0 else 12

-- Whether there is still a zone.
unfoldable pub kvfs_uninit : (zone : Bool) → ℕ × Bool
kvfs_uninit zone = (0, false)
