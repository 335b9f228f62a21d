-- ===== src/Kvfs/Kernel.antt =====
-- What key-value-fs calls of the FreeBSD kernel, as an interface, and the state of a mounted file
-- system over it.
pub mod Device
use embedded_operating_syste.Base.{
  ℕ, ◌+◌, ◌-◌, ◌*◌, ◌≤◌, ◌<◌, ◌≡◌, Bool, Option, none, Bytes, ltb, leb, ◌==◌, if◌then◌else◌, ◌&&◌,
}
use embedded_operating_syste.Kvfs.Layout.{Memnode, Mount, dev_bsize}
use embedded_operating_syste.Kvfs.Time.{Timespec}

-- What `bread` hands out: `b_data` and `b_resid`.
pub record Buf : Type 0 where
  pub b_data : Bytes
  pub b_resid : ℕ

-- A `struct vnode` is named by a number. An error is an errno, and 0 is success. The device and
-- the vnode layer (hash table, references, locks) are states of the kernel.
pub record Kernel : Type 1 where
  pub Dev : Type 0
  pub Vfs : Type 0
  -- device, sector, size in bytes
  pub bread : Dev → ℕ → ℕ → ℕ × Buf
  pub getblk : Dev → ℕ → ℕ → Buf
  pub bwrite : Dev → ℕ → ℕ → Bytes → ℕ × Dev
  -- inode and lock flags; the vnode if one is cached
  pub vfs_hash_get : Vfs → ℕ → ℕ → ℕ × Option ℕ × Vfs
  pub getnewvnode : Vfs → ℕ × ℕ × Vfs
  pub vn_lock : Vfs → ℕ → ℕ × Vfs
  pub insmntque : Vfs → ℕ → ℕ × Vfs
  -- vnode, inode and lock flags; another vnode if one was there first
  pub vfs_hash_insert : Vfs → ℕ → ℕ → ℕ → ℕ × Option ℕ × Vfs
  pub vfs_hash_remove : Vfs → ℕ → Vfs
  pub vn_lock_ashare : Vfs → ℕ → Vfs
  pub vref : Vfs → ℕ → Vfs
  pub vrele : Vfs → ℕ → Vfs
  pub vput : Vfs → ℕ → Vfs
  pub vop_unlock : Vfs → ℕ → Vfs
  pub vrecycle : Vfs → ℕ → Vfs
  pub vfs_timestamp : Vfs → Timespec
  -- `(flags & LK_TYPE_MASK) == LK_SHARED`, and the flags with `LK_EXCLUSIVE` instead
  pub is_lk_shared : ℕ → Bool
  pub to_lk_exclusive : ℕ → ℕ
  pub lk_exclusive : ℕ

pub data VnodeType : Type 0 where
  vnon vreg vdir : VnodeType

-- The fields of a `struct vnode` that kvfs reads and writes: `v_data`, `v_vflag & VV_ROOT`,
-- `v_type`.
pub record Vnode : Type 0 where
  pub v_data : Option Memnode
  pub vv_root : Bool
  pub v_type : VnodeType

pub record Fs (K : Kernel) : Type 0 where
  pub dev : K.Dev
  pub vfs : K.Vfs
  pub mount : Mount
  pub vnodes : ℕ → Vnode

-- What the buffer cache documents: a device is an array of bytes, a read that succeeds returns
-- the bytes from its sector on, completely, and a write that succeeds stores them there and
-- nowhere else.
pub record IsByteArray (K : Kernel) (byte : K.Dev → ℕ → ℕ) : Type 0 where
  pub bread_data :
      (d : K.Dev) (blkno size i : ℕ)
      → (K.bread d blkno size).0 ≡ 0
      → i < size
      → (K.bread d blkno size).1.b_data i ≡ byte d (blkno * dev_bsize + i)
  pub bread_resid :
      (d : K.Dev) (blkno size : ℕ)
      → (K.bread d blkno size).0 ≡ 0
      → (K.bread d blkno size).1.b_resid ≡ 0
  pub bwrite_data :
      (d : K.Dev) (blkno size : ℕ) (b : Bytes) (j : ℕ)
      → (K.bwrite d blkno size b).0 ≡ 0
      → byte (K.bwrite d blkno size b).1 j ≡ (
          if leb (blkno * dev_bsize) j && ltb j (blkno * dev_bsize + size)
          then b (j - blkno * dev_bsize)
          else byte d j)

-- No read or write of the device fails.
pub record IsReliable (K : Kernel) : Type 0 where
  pub bread_ok : (d : K.Dev) (blkno size : ℕ) → (K.bread d blkno size).0 ≡ 0
  pub bwrite_ok : (d : K.Dev) (blkno size : ℕ) (b : Bytes) → (K.bwrite d blkno size b).0 ≡ 0

-- `errno.h`; EJUSTRETURN is -2 in 32 bits.
abbrev pub enoent : ℕ
enoent = 2

abbrev pub ebusy : ℕ
ebusy = 16

abbrev pub exdev : ℕ
exdev = 18

abbrev pub enotdir : ℕ
enotdir = 20

abbrev pub eisdir : ℕ
eisdir = 21

abbrev pub einval : ℕ
einval = 22

abbrev pub enospc : ℕ
enospc = 28

abbrev pub eopnotsupp : ℕ
eopnotsupp = 45

abbrev pub ejustreturn : ℕ
ejustreturn = 0xffff_fffe
