-- ===== src/Kvfs/Counted.antt =====
-- The invariant of the free list of a mounted file system, over every sequence of operations.
mod Operations
use embedded_operating_syste.Base.{
  ℕ, ◌≡◌, ◌≤◌, ◌^◌, ◌-◌, Option, none, some, Bytes, subst, sym, refl,
}
use embedded_operating_syste.Kvfs.Kernel.{Kernel, Fs}
use embedded_operating_syste.Kvfs.Layout.{Mount, Memnode}
use embedded_operating_syste.Kvfs.Time.{Timespec}
use embedded_operating_syste.Kvfs.Vfsops.{kvfs_vget_internal}
use embedded_operating_syste.Kvfs.Vnops.{
  Componentname, kvfs_create, kvfs_remove, kvfs_rename, kvfs_lookup,
}
use embedded_operating_syste.Kvfs.Vnops.Attributes.{kvfs_setattr, kvfs_inactive, kvfs_reclaim}
use Operations.{
  create-IsCounted, remove-IsCounted, rename-IsCounted, lookup-mount, setattr-mount, mount-vget,
  inactive-mount, reclaim-mount,
}
pub use Operations.{IsCounted}

-- One call of an operation that changes the state, with any arguments and any outcome.
pub data Step (K : Kernel) : Fs K → Fs K → Type 0 where
  lookup : (vdp : ℕ) (cnp : Componentname) (fs : Fs K) → Step K fs (kvfs_lookup K vdp cnp fs).2
  vget :
      (ino flags : ℕ) (keystr : Option Bytes) (fs : Fs K)
      → Step K fs (kvfs_vget_internal K ino flags keystr fs).2
  create : (cnp : Componentname) (fs : Fs K) → Step K fs (kvfs_create K cnp fs).2
  remove : (vp : ℕ) (knode : Memnode) (fs : Fs K) → Step K fs (kvfs_remove K vp knode fs).1
  rename :
      (fvp fdvp tdvp : ℕ) (tvp : Option ℕ) (tcnp : Componentname) (fs : Fs K)
      → Step K fs (kvfs_rename K fvp fdvp tdvp tvp tcnp fs).1
  setattr :
      (vp : ℕ) (knode : Memnode) (mtime : Option Timespec) (fs : Fs K)
      → Step K fs (kvfs_setattr K vp knode mtime fs).1
  inactive : (vp : ℕ) (fs : Fs K) → Step K fs (kvfs_inactive K vp fs).1
  reclaim : (vp : ℕ) (fs : Fs K) → Step K fs (kvfs_reclaim K vp fs).1

pub data Reach (K : Kernel) (start : Fs K) : Fs K → Type 0 where
  here : Reach K start start
  next : {fs fs' : Fs K} → Reach K start fs → Step K fs fs' → Reach K start fs'

keep : (m m' : Mount) → m' ≡ m → IsCounted m → IsCounted m'
keep m m' e = subst IsCounted (sym e)

module _ {K : Kernel} where
  Step-IsCounted : {fs fs' : Fs K} → Step K fs fs' → IsCounted fs.mount → IsCounted fs'.mount
  Step-IsCounted (lookup vdp cnp fs) = keep _ _ (lookup-mount K vdp cnp fs)
  Step-IsCounted (vget ino flags keystr fs) = keep _ _ (mount-vget K ino flags keystr fs)
  Step-IsCounted (create cnp fs) = create-IsCounted K cnp fs fs.mount.freelist refl
  Step-IsCounted (remove vp knode fs) = remove-IsCounted K vp knode fs
  Step-IsCounted (rename fvp fdvp tdvp tvp tcnp fs) = rename-IsCounted K fvp fdvp tdvp tvp tcnp fs
  Step-IsCounted (setattr vp knode mtime fs) = keep _ _ (setattr-mount K vp knode mtime fs)
  Step-IsCounted (inactive vp fs) = keep _ _ (inactive-mount K vp fs)
  Step-IsCounted (reclaim vp fs) = keep _ _ (reclaim-mount K vp fs)

  -- From a state where the free list's count is its length in 32 bits, every sequence of
  -- operations leads to such a state, whatever the device and the vnode layer answer.
  pub Reach-IsCounted :
      {start fs : Fs K} → IsCounted start.mount → Reach K start fs → IsCounted fs.mount
  Reach-IsCounted counted here = counted
  Reach-IsCounted counted (next before step) = Step-IsCounted step (Reach-IsCounted counted before)
