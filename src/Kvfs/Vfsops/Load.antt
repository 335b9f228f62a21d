-- ===== src/Kvfs/Vfsops/Load.antt =====
-- `kvfs_vget_internal` on an inode that is not in the hash table: the early returns passed, and
-- what the allocation of a free inode writes.
use embedded_operating_syste.Base.{
  ℕ, ◌+◌, ◌-◌, ◌*◌, ◌/◌, ◌%◌, ◌≡◌, ◌≢◌, refl, true, ◌&&◌, Option, none, some, Bytes, offset,
  has_bit, arith, if◌then◌else◌, ltb, leb, ne→==, ◌∙◌,
}
use embedded_operating_syste.Codec.{hexdigit_kvfs, str_to_key}
use embedded_operating_syste.Codec.Values.{all_hex, str_to_key_error}
use embedded_operating_syste.Kvfs.Kernel.{Kernel, Fs, IsByteArray, IsReliable}
use embedded_operating_syste.Kvfs.Kernel.Device.{region_written}
use embedded_operating_syste.Kvfs.Layout.{
  Inode, encode_inode, decode_inode, kvfs_root_ino, kvfs_inode_free, btodb, dev_bsize, sizeof_inode,
}
use embedded_operating_syste.Kvfs.Time.{timespec_to_uint64}
use embedded_operating_syste.Kvfs.Vfsops.{
  publish_vnode, allocate_inode, load_inode, attach_vnode, kvfs_vget_internal,
}

-- The vnode layer has no vnode for `ino`, and makes `node` for it, with the state `last` then.
pub record GivesVnode (K : Kernel) (vfs : K.Vfs) (ino flags node : ℕ) (last : K.Vfs) : Type 0 where
  pub vfs₁ : K.Vfs
  pub vfs₂ : K.Vfs
  pub vfs₃ : K.Vfs
  pub vfs₄ : K.Vfs
  pub missed : K.vfs_hash_get vfs ino flags ≡ (0, none, vfs₁)
  pub new : K.getnewvnode vfs₁ ≡ (0, node, vfs₂)
  pub locked : K.vn_lock vfs₂ node ≡ (0, vfs₃)
  pub queued : K.insmntque vfs₃ node ≡ (0, vfs₄)
  pub hashed :
      K.vfs_hash_insert vfs₄ node ino
        (if K.is_lk_shared flags then K.to_lk_exclusive flags else flags)
      ≡ (0, none, last)

module _ {K : Kernel} where
  -- Then the call comes to the inode.
  pub vget-load_inode :
      {ino flags node : ℕ} {last : K.Vfs} (keystr : Option Bytes) (fs : Fs K)
      → GivesVnode K fs.vfs ino flags node last
      → kvfs_vget_internal K ino flags keystr fs
        ≡ load_inode K node ino keystr (record fs { vfs = last })
  unfolding kvfs_vget_internal attach_vnode
  vget-load_inode keystr fs g = ground arith

  module _ {byte : K.Dev → ℕ → ℕ} (A : IsByteArray K byte) (R : IsReliable K) (fs : Fs K)
      (ino : ℕ) where
    -- The sector of the inode, in the buffer, and the address of the inode on the device.
    abbrev pub sector : Bytes
    sector = (K.bread fs.dev (btodb (fs.mount.inode_off + ino)) dev_bsize).1.b_data

    abbrev pub loc : ℕ
    loc = fs.mount.inode_off + ino

    abbrev pub disk_inode : Inode
    disk_inode = decode_inode (offset sector (ino % dev_bsize))

    -- A free inode is allocated under the key of a valid name: the inode's 32 bytes are written,
    -- no other, and the vnode has the new inode.
    pub load_inode_free :
        (node : ℕ) (name : Bytes)
        → fs.mount.inode_off % dev_bsize ≡ 0
        → ino % sizeof_inode ≡ 0
        → ino ≢ kvfs_root_ino
        → has_bit disk_inode.flags kvfs_inode_free ≡ true
        → all_hex 40 0 name ≡ true
        → let (error, vpp, fs') = load_inode K node ino (some name) fs in
          let inode =
            allocate_inode disk_inode
              (str_to_key hexdigit_kvfs name).1
              (timespec_to_uint64 (K.vfs_timestamp fs.vfs)) in
          (error ≡ 0)
          × (vpp ≡ some node)
          × (fs'.mount ≡ fs.mount)
          × ((j : ℕ)
              → byte fs'.dev j ≡ (
                  if leb loc j && ltb j (loc + sizeof_inode)
                  then encode_inode inode (j - loc)
                  else byte fs.dev j))
    unfolding load_inode publish_vnode
    load_inode_free node name aligned whole not_root free valid =
        let key = (str_to_key hexdigit_kvfs name).1 in
        let no_error : (str_to_key hexdigit_kvfs name).0 ≡ 0 =
          (str_to_key_error name).0 ∙ rw valid refl in
        let inode = allocate_inode disk_inode key (timespec_to_uint64 (K.vfs_timestamp fs.vfs)) in
        let at : loc / 512 * 512 + ino % 512 ≡ loc = omega arith in
        rw (ne→== ino kvfs_root_ino not_root, free, no_error, load_inode)
          (
            refl,
            refl,
            refl,
            λ j.
                region_written fs.dev (btodb loc) dev_bsize (ino % dev_bsize) sizeof_inode
                  (encode_inode inode) A R (omega arith) j
                ∙ rw at refl,
          )
