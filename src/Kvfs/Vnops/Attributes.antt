-- ===== src/Kvfs/Vnops/Attributes.antt =====
-- key-value-fs/src/kvfs_vnops.c: attributes, the operations that always succeed, and the end of a
-- vnode's life.
use embedded_operating_syste.Base.{ℕ, ◌*◌, Bool, true, Option, none, some, if◌then◌else◌, has_bit}
use embedded_operating_syste.Kvfs.Kernel.{Kernel, Fs, VnodeType, vreg, vdir}
use embedded_operating_syste.Kvfs.Layout.{
  Memnode, blocksize, kvfs_root_ino, kvfs_inode_free, dev_bsize,
}
use embedded_operating_syste.Kvfs.Time.{Timespec, uint64_to_timespec, timespec_to_uint64}
use embedded_operating_syste.Kvfs.Vfsops.{set_vnode}
use embedded_operating_syste.Kvfs.Vnops.{memnode_update}

-- The fields of `struct vattr` that are set, after `VATTR_NULL`; `none` is VNOVAL.
pub record Vattr : Type 0 where
  pub va_type : VnodeType
  pub va_fileid : ℕ
  pub va_size : ℕ
  pub va_bytes : ℕ
  pub va_mtime : Option Timespec
  pub va_blocksize : ℕ
  pub va_fsid : ℕ
  pub va_uid : ℕ
  pub va_gid : ℕ
  pub va_mode : ℕ
  pub va_flags : ℕ
  pub va_gen : ℕ
  pub va_nlink : ℕ
  pub va_filerev : ℕ

-- The device number is the kernel's `dev2udev(cdev)`.
unfoldable pub kvfs_getattr : (fsid : ℕ) → Bool → Memnode → Vattr
kvfs_getattr fsid vv_root mnp = record {
  va_type = if vv_root then vdir else vreg;
  va_fileid = if vv_root then kvfs_root_ino else mnp.ino;
  va_size = if vv_root then 0 else blocksize;
  va_bytes = if vv_root then 0 else blocksize;
  va_mtime = if vv_root then none else some (uint64_to_timespec mnp.inode.timestamp);
  va_blocksize = blocksize;
  va_fsid = fsid;
  va_uid = 0;
  va_gid = 0;
  va_mode = 0o777;
  va_flags = 0;
  va_gen = 1;
  va_nlink = 1;
  va_filerev = 1;
}

unfoldable pub kvfs_open : ℕ
kvfs_open = 0

unfoldable pub kvfs_close : ℕ
kvfs_close = 0

unfoldable pub kvfs_access : ℕ
kvfs_access = 0

unfoldable pub kvfs_fsync : ℕ
kvfs_fsync = 0

-- `b_blkno` of the buffer that `BO_STRATEGY` gets: `dbtob(knode->lbn)`, as the source has it.
unfoldable pub kvfs_strategy : Memnode → ℕ
kvfs_strategy knode = knode.lbn * dev_bsize

module _ (K : Kernel) where
  -- The time of a file is set in memory and on disk; the error of the update is dropped.
  unfoldable pub kvfs_setattr : ℕ → Memnode → Option Timespec → Fs K → ℕ × Fs K
  kvfs_setattr vp knode va_mtime fs = if (fs.vnodes vp).vv_root then (0, fs) else elim va_mtime [
    | none ↦ (0, fs)
    | some ts ↦
        let inode = record (knode.inode) { timestamp = timespec_to_uint64 ts } in
        let vnodes =
          set_vnode fs.vnodes vp
            (record (fs.vnodes vp) { v_data = some (record knode { inode = inode }) }) in
        (0, (memnode_update K knode inode (record fs { vnodes = vnodes })).1)
  ]

  -- A vnode without memnode, or whose memnode is free, is recycled.
  unfoldable pub kvfs_inactive : ℕ → Fs K → ℕ × Fs K
  kvfs_inactive vp fs =
      let gone : Bool = elim (fs.vnodes vp).v_data [
        | none ↦ true
        | some knp ↦ has_bit knp.inode.flags kvfs_inode_free
      ] in
      (0, if gone then record fs { vfs = K.vrecycle fs.vfs vp } else fs)

  unfoldable pub kvfs_reclaim : ℕ → Fs K → ℕ × Fs K
  kvfs_reclaim vp fs = elim (fs.vnodes vp).v_data [
    | none ↦ (0, fs)
    | some _ ↦ (
      0,
      record fs {
        vfs = K.vfs_hash_remove fs.vfs vp;
        vnodes = set_vnode fs.vnodes vp (record (fs.vnodes vp) { v_data = none });
      },
    )
  ]
