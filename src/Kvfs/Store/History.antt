-- ===== src/Kvfs/Store/History.antt =====
-- Histories of a kvfs file system: creations, removals and renames on a disk that mkkvfs laid out,
-- with whatever the vnode layer does between them.
pub mod Places
pub mod Renames
pub mod Runs
pub mod Slots
pub mod Steps
use embedded_operating_syste.Base.{
  ℕ, ◌+◌, ◌*◌, ◌^◌, ◌<◌, ◌≡◌, true, false, Option, none, some, List, [], ◌∷◌, Bytes, has_bit,
  memcmp,
}
use embedded_operating_syste.Codec.Values.{all_hex}
use embedded_operating_syste.Kvfs.Kernel.{Kernel, Fs, IsByteArray, IsReliable}
use embedded_operating_syste.Kvfs.Layout.{
  Memnode, Mount, Superblock, btodb, ino_to_blocknum, kvfs_inode_free, sizeof_inode,
}
use embedded_operating_syste.Kvfs.Store.{Store, put, Holds}
use embedded_operating_syste.Kvfs.Store.Refines.{key_of}
use embedded_operating_syste.Kvfs.Vfsops.Load.{GivesVnode}
use embedded_operating_syste.Kvfs.Vfsops.Mount.Freelist.{contains}
use embedded_operating_syste.Kvfs.Vnops.{
  Componentname, kvfs_create, kvfs_remove, kvfs_rename, rename_target,
}
use embedded_operating_syste.Kvfs.Vnops.Create.{inode_at, table_of}

-- The memnode's sector is the one that the inode's slot has.
abbrev pub IsLoaded : Mount → Memnode → Type 0
IsLoaded mount knode = knode.lbn ≡ btodb (mount.data_off + ino_to_blocknum knode.ino)

-- The name that a file is renamed to has no file, or one in another slot.
pub data IsTarget {K : Kernel} (fs : Fs K) (store : Store) (from to : Bytes)
    : Option ℕ → Type 0 where
  free : store to ≡ none → IsTarget fs store from to none
  taken :
      (tvp : ℕ) (knode : Memnode)
      → (fs.vnodes tvp).v_data ≡ some knode
      → IsLoaded fs.mount knode
      → store to ≡ some knode.ino
      → memcmp from to 20 ≡ false
      → IsTarget fs store from to (some tvp)

-- A step of the file system, and of the store beside it.
pub data Step (K : Kernel) : Fs K → Store → Fs K → Store → Type 0 where
  create :
      {ino node : ℕ} {last : K.Vfs} {rest : List ℕ} (cnp : Componentname) (fs : Fs K)
      (store : Store)
      → fs.mount.freelist ≡ ino ∷ rest
      → GivesVnode K fs.vfs ino K.lk_exclusive node last
      → all_hex 40 0 cnp.cn_nameptr ≡ true
      → store (key_of cnp) ≡ none
      → Step K fs store (kvfs_create K cnp fs).2 (put store (key_of cnp) (some ino))
  remove :
      (vp : ℕ) (knode : Memnode) (key : Bytes) (fs : Fs K) (store : Store)
      → IsLoaded fs.mount knode
      → store key ≡ some knode.ino
      → Step K fs store (kvfs_remove K vp knode fs).1 (put store key none)
  rename :
      {tvp : Option ℕ} (fvp fdvp tdvp : ℕ) (tcnp : Componentname) (knode : Memnode) (from : Bytes)
      (fs : Fs K) (store : Store)
      → (fs.vnodes fvp).v_data ≡ some knode
      → has_bit knode.inode.flags kvfs_inode_free ≡ false
      → store from ≡ some knode.ino
      → all_hex 40 0 tcnp.cn_nameptr ≡ true
      → IsTarget fs store from (key_of tcnp) tvp
      → (K.vn_lock (rename_target K tvp fs).vfs fvp).0 ≡ 0
      → Step K fs store
          (kvfs_rename K fvp fdvp tdvp tvp tcnp fs).1
          (put (put store from none) (key_of tcnp) (some knode.ino))
  vnode_layer :
      (fs fs' : Fs K) (store : Store)
      → fs'.dev ≡ fs.dev
      → fs'.mount ≡ fs.mount
      → Step K fs store fs' store

pub data Reach (K : Kernel) (start : Fs K) (first : Store) : Fs K → Store → Type 0 where
  here : Reach K start first start first
  next :
      {fs fs' : Fs K} {store store' : Store}
      → Reach K start first fs store
      → Step K fs store fs' store'
      → Reach K start first fs' store'

-- The entries of the free list are different slots of the table, each marked free.
abbrev pub IsFreelist : (bytes : ℕ → ℕ) (start count : ℕ) → List ℕ → Type 0
IsFreelist bytes start count [] = Unit
IsFreelist bytes start count (ino ∷ rest) =
    ((n : ℕ) × (ino ≡ n * sizeof_inode)
      × (n < count)
      × (has_bit (inode_at bytes (start + ino)).flags kvfs_inode_free ≡ true))
    × (contains ino rest ≡ false)
    × IsFreelist bytes start count rest

-- A mounted file system that holds a store: the layout is that of the superblock, the free list
-- is one, and the table holds the store's files.
pub record IsSound {K : Kernel} {byte : K.Dev → ℕ → ℕ} (A : IsByteArray K byte) (R : IsReliable K)
    (sb : Superblock) (fs : Fs K) (store : Store) : Type 0 where
  pub freelist_off : fs.mount.freelist_off ≡ sb.freelist_off
  pub inode_off : fs.mount.inode_off ≡ sb.inode_off
  pub data_off : fs.mount.data_off ≡ sb.data_off
  pub block_count : fs.mount.block_count ≡ sb.block_count
  pub freelist : IsFreelist (byte fs.dev) fs.mount.inode_off fs.mount.block_count fs.mount.freelist
  pub holds : Holds (table_of A R fs) fs.mount.block_count store
