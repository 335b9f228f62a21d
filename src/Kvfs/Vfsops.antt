-- ===== src/Kvfs/Vfsops.antt =====
-- key-value-fs/src/kvfs_vfsops.c: getting a vnode. `kvfs_vget_internal` runs in three stages, as
-- its early returns divide it: `load_inode` (from the allocation of the memnode on),
-- `attach_vnode` (the new vnode) and the look into the hash table.
pub mod Load
pub mod Mount
use embedded_operating_syste.Base.{
  ℕ, ◌+◌, ◌*◌, ◌/◌, ◌%◌, ◌^◌, ◌-◌, Bool, true, false, not, Option, none, some, ◌==◌, if◌then◌else◌,
  Bytes, zeroes, offset, memcpy, update, has_bit, set_bit, clear_bit,
}
use embedded_operating_syste.Codec.{hexdigit_kvfs, str_to_key}
use embedded_operating_syste.Kvfs.Kernel.{Kernel, Fs, Vnode, VnodeType, vreg, vdir, enoent, einval}
use embedded_operating_syste.Kvfs.Layout.{
  Inode, Memnode, encode_inode, decode_inode, kvfs_root_ino, kvfs_inode_free, kvfs_inode_active,
  btodb, ino_to_blocknum, dev_bsize, sizeof_inode,
}
use embedded_operating_syste.Kvfs.Time.{timespec_to_uint64}

-- -1 as an `ino_t` or a `daddr_t`
abbrev pub minus_one : ℕ
minus_one = 2 ^ 64 - 1

unfoldable pub set_vnode : (ℕ → Vnode) → ℕ → Vnode → ℕ → Vnode
set_vnode vnodes vp v x = if x == vp then v else vnodes x

-- The fields of a free inode that is allocated under `key`.
unfoldable pub allocate_inode : Inode → Bytes → ℕ → Inode
allocate_inode inode key timestamp = record {
  key = key;
  flags = set_bit (clear_bit inode.flags kvfs_inode_free) kvfs_inode_active;
  ref_count = 1;
  timestamp = timestamp;
}

module _ (K : Kernel) where
  -- error, `*vpp` and the state
  abbrev pub VnodeResult : Type 0
  VnodeResult = ℕ × Option ℕ × Fs K

  -- `node->v_data = knp`, then the vnode's flags and its return in `*vpp`
  unfoldable pub publish_vnode : ℕ → Memnode → Bool → K.Dev → Fs K → VnodeResult
  publish_vnode node knp root dev fs = (
    0,
    some node,
    record fs {
      dev = dev;
      vfs = K.vn_lock_ashare fs.vfs node;
      vnodes = set_vnode fs.vnodes node (record {
        v_data = some knp;
        vv_root = if root then true else (fs.vnodes node).vv_root;
        v_type = if root then vdir else vreg;
      });
    },
  )

  -- `error_exit`: the memnode is freed, and the vnode taken out of the hash table and released.
  unfoldable pub error_exit : ℕ → ℕ → Fs K → VnodeResult
  error_exit error node fs = (
    error,
    none,
    record fs {
      vfs = K.vput (K.vfs_hash_remove fs.vfs node) node;
      vnodes = set_vnode fs.vnodes node (record (fs.vnodes node) { v_data = none });
    },
  )

  -- The inode `ino` of the disk becomes the memnode of `node`. A free one is allocated under the
  -- key that is given, and written back. The errors of `bread` and `bwrite` are not looked at.
  unfoldable pub load_inode : ℕ → ℕ → Option Bytes → Fs K → VnodeResult
  unfolding publish_vnode error_exit allocate_inode
  load_inode node ino keystr fs =
      let loc = fs.mount.inode_off + ino in
      let sector = (K.bread fs.dev (btodb loc) dev_bsize).1.b_data in
      let inode = decode_inode (offset sector (ino % dev_bsize)) in
      let lbn = btodb (fs.mount.data_off + ino_to_blocknum ino) in
      if ino == kvfs_root_ino
      then publish_vnode node
          (record {
            ino = minus_one;
            lbn = minus_one;
            inode = record { key = zeroes; flags = 0; ref_count = 0; timestamp = 0 };
          })
          true fs.dev fs
      else if has_bit inode.flags kvfs_inode_free
      then elim keystr [
        | none ↦ error_exit enoent node fs
        | some str ↦
            let (error, key) = str_to_key hexdigit_kvfs str in
            let inode' = allocate_inode inode key (timespec_to_uint64 (K.vfs_timestamp fs.vfs)) in
            let sector' = memcpy sector (ino % dev_bsize) (encode_inode inode') sizeof_inode in
            if error == 0
            then publish_vnode node (record { ino = ino; lbn = lbn; inode = inode' }) false
                (K.bwrite fs.dev (btodb loc) dev_bsize sector').1 fs
            else error_exit einval node fs
      ]
      else publish_vnode node (record { ino = ino; lbn = lbn; inode = inode }) false fs.dev fs

  -- A new vnode, locked, on the mount's queue and in the hash table.
  unfoldable pub attach_vnode : ℕ → ℕ → Option Bytes → Fs K → VnodeResult
  attach_vnode ino flags keystr fs =
      let flags' = if K.is_lk_shared flags then K.to_lk_exclusive flags else flags in
      let (error, node, vfs₁) = K.getnewvnode fs.vfs in
      if not (error == 0)
      then (error, none, record fs { vfs = vfs₁ })
      else let (error, vfs₂) = K.vn_lock vfs₁ node in
        if not (error == 0)
        then (error, none, record fs { vfs = vfs₂ })
        else let (error, vfs₃) = K.insmntque vfs₂ node in
          if not (error == 0)
          then (error, none, record fs { vfs = vfs₃ })
          else let (error, other, vfs₄) = K.vfs_hash_insert vfs₃ node ino flags' in
            if not (error == 0) then (error, other, record fs { vfs = vfs₄ }) else elim other [
              | some vp ↦ (error, some vp, record fs { vfs = vfs₄ })
              | none ↦ load_inode node ino keystr (record fs { vfs = vfs₄ })
            ]

  unfoldable pub kvfs_vget_internal : ℕ → ℕ → Option Bytes → Fs K → VnodeResult
  kvfs_vget_internal ino flags keystr fs =
      let (error, cached, vfs₁) = K.vfs_hash_get fs.vfs ino flags in
      elim cached [
        | some vp ↦ (0, some vp, record fs { vfs = vfs₁ })
        | none ↦
            if not (error == 0)
            then (error, none, record fs { vfs = vfs₁ })
            else attach_vnode ino flags keystr (record fs { vfs = vfs₁ })
      ]

  unfoldable pub kvfs_vget : ℕ → ℕ → Fs K → VnodeResult
  kvfs_vget ino flags fs = kvfs_vget_internal ino flags none fs

  unfoldable pub kvfs_root : ℕ → Fs K → VnodeResult
  kvfs_root flags fs = kvfs_vget_internal kvfs_root_ino flags none fs
