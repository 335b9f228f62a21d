-- ===== src/Kvfs/Vnops.antt =====
-- key-value-fs/src/kvfs_vnops.c: the operations on names (lookup, create, remove, rename) and on
-- attributes. A function that returns through `*vpp` gives the vnode beside its error.
pub mod Attributes
pub mod Create
pub mod Data
pub mod Directory
pub mod Lookup
pub mod Remove
pub mod Rename
use embedded_operating_syste.Base.{
  ℕ, zero, suc, ◌+◌, ◌*◌, ◌/◌, ◌%◌, ◌^◌, ◌-◌, Bool, true, false, not, ◌&&◌, ◌||◌, Option, none,
  some, List, [], ◌∷◌, ◌==◌, if◌then◌else◌, Bytes, zeroes, offset, memcpy, memcmp, update, has_bit,
  set_bit, clear_bit,
}
use embedded_operating_syste.Codec.{hexdigit_kvfs, str_to_key}
use embedded_operating_syste.Kvfs.Kernel.{
  Kernel, Fs, Vnode, VnodeType, vreg, vdir, enoent, einval, enospc, ejustreturn,
}
use embedded_operating_syste.Kvfs.Layout.{
  Inode, Memnode, Mount, encode_inode, decode_inode, kvfs_root_ino, kvfs_inode_free,
  kvfs_inode_active, btodb, pad, dev_bsize, blocksize, sizeof_inode, inode_idx, ino_to_free_byte,
  ino_to_free_bit, kvfs_key_strlen,
}
use embedded_operating_syste.Kvfs.Time.{Timespec, timespec_to_uint64, uint64_to_timespec}
use embedded_operating_syste.Kvfs.Vfsops.{VnodeResult, kvfs_vget, kvfs_vget_internal, set_vnode}

-- `cn_nameiop`
pub data NameiOp : Type 0 where
  lookup create delete rename : NameiOp

-- `struct componentname`
pub record Componentname : Type 0 where
  pub cn_nameptr : Bytes
  pub cn_namelen : ℕ
  pub cn_nameiop : NameiOp
  pub is_last_cn : Bool
  pub cn_lkflags : ℕ

abbrev pub creates : NameiOp → Bool
creates create = true
creates rename = true
creates _ = false

-- The loop over the inodes in the buffer: the first from index `i` on, of `n`, that is not free
-- and has the key, as its byte offset. The index is an `int`.
unfoldable pub lookup_loop : Bytes → Bytes → ℕ → ℕ → Option ℕ
lookup_loop b_data key zero i = none
lookup_loop b_data key (suc n) i =
    let idx = inode_idx i in
    let inode = decode_inode (offset b_data idx) in
    let rest = lookup_loop b_data key n (i + 1) in
    if has_bit inode.flags kvfs_inode_free
    then rest
    else if memcmp key inode.key 20
    then some idx
    else rest

-- `struct kvfs_inode empty = { 0 }`, with the flag KVFS_INODE_FREE
unfoldable pub empty_inode : Inode
empty_inode = record {
  key = zeroes;
  flags = set_bit 0 kvfs_inode_free;
  ref_count = 0;
  timestamp = 0;
}

module _ (K : Kernel) where
  -- Write `inode` to the place of `knode` in the table on disk.
  unfoldable pub memnode_update : Memnode → Inode → Fs K → ℕ × Fs K
  memnode_update knode inode fs =
      let loc = fs.mount.inode_off + knode.ino in
      let (error, bp) = K.bread fs.dev (btodb loc) dev_bsize in
      let sector = memcpy bp.b_data (knode.ino % dev_bsize) (encode_inode inode) sizeof_inode in
      let (error', dev) = K.bwrite fs.dev (btodb loc) dev_bsize sector in
      if not (error == 0) then (error, fs) else (error', record fs { dev = dev })

  unfoldable pub kvfs_lookup : ℕ → Componentname → Fs K → VnodeResult K
  unfolding lookup_loop
  kvfs_lookup vdp cnp fs =
      if not (fs.vnodes vdp).vv_root
      then (enoent, none, fs)
      else if (cnp.cn_nameptr 0 == b'.') && (cnp.cn_namelen == 1)
      then (0, some vdp, record fs { vfs = K.vref fs.vfs vdp })
      else if not (cnp.cn_namelen == kvfs_key_strlen)
      then (einval, none, fs)
      else let (bad, key) = str_to_key hexdigit_kvfs cnp.cn_nameptr in
        if not (bad == 0)
        then (einval, none, fs)
        else let (error, bp) =
            K.bread fs.dev (btodb fs.mount.inode_off)
              (pad (fs.mount.block_count * sizeof_inode) % 2 ^ 32) in
          if not (error == 0)
          then (error, none, fs)
          else elim (lookup_loop bp.b_data key fs.mount.block_count 0) [
            | some idx ↦ kvfs_vget K idx cnp.cn_lkflags fs
            | none ↦
                if cnp.is_last_cn && creates cnp.cn_nameiop
                then (ejustreturn, none, fs)
                else (enoent, none, fs)
          ]

  -- The part of `kvfs_create` after the free list has given `ino`.
  unfoldable pub create_at : ℕ → Componentname → Fs K → VnodeResult K
  create_at ino cnp fs =
      let free_byte = ino_to_free_byte ino fs.mount.freelist_off in
      let at = free_byte % dev_bsize in
      let (error, bp) = K.bread fs.dev (btodb free_byte) dev_bsize in
      if not (error == 0)
      then (0, none, fs)
      else let bits = update bp.b_data at (set_bit (bp.b_data at) (ino_to_free_bit ino)) in
        let dev = (K.bwrite fs.dev (btodb free_byte) dev_bsize bits).1 in
        kvfs_vget_internal K ino K.lk_exclusive (some cnp.cn_nameptr) (record fs { dev = dev })

  unfoldable pub kvfs_create : Componentname → Fs K → VnodeResult K
  unfolding create_at
  kvfs_create cnp fs = elim fs.mount.freelist [
    | [] ↦ (enospc, none, fs)
    | ino ∷ rest ↦ create_at ino cnp (record fs {
      mount = record (fs.mount) {
        freelist = rest;
        freelist_count = (fs.mount.freelist_count + 2 ^ 32 - 1) % 2 ^ 32;
      };
    })
  ]

  -- The entry at the head of the free list, and the bit in the bitmap.
  unfoldable pub release_ino : ℕ → Fs K → Fs K
  release_ino ino fs =
      let free_byte = ino_to_free_byte ino fs.mount.freelist_off % 2 ^ 32 in
      let at = free_byte % dev_bsize in
      let mount = record (fs.mount) {
        freelist = ino ∷ fs.mount.freelist;
        freelist_count = (fs.mount.freelist_count + 1) % 2 ^ 32;
      } in
      let (error, bp) = K.bread fs.dev (btodb free_byte) dev_bsize in
      let bits = update bp.b_data at (clear_bit (bp.b_data at) (ino_to_free_bit ino)) in
      if not (error == 0)
      then record fs { mount = mount }
      else record fs { mount = mount; dev = (K.bwrite fs.dev (btodb free_byte) dev_bsize bits).1 }

  -- The error of the bitmap read is returned as 0, and then the vnode stays in the hash table.
  unfoldable pub kvfs_remove : ℕ → Memnode → Fs K → ℕ × Fs K
  kvfs_remove vp knode fs =
      let fs₁ = (memnode_update knode empty_inode fs).1 in
      let block = K.getblk fs₁.dev knode.lbn blocksize in
      let cleared = memcpy block.b_data 0 zeroes blocksize in
      let dev = (K.bwrite fs₁.dev knode.lbn blocksize cleared).1 in
      let fs₂ = release_ino knode.ino (record fs₁ { dev = dev }) in
      let free_byte = ino_to_free_byte knode.ino fs₁.mount.freelist_off % 2 ^ 32 in
      if not ((K.bread dev (btodb free_byte) dev_bsize).0 == 0)
      then (0, fs₂)
      else (0, record fs₂ { vfs = K.vfs_hash_remove fs₂.vfs vp })

  -- `out`: the references that `VOP_RENAME(9)` asks to release.
  unfoldable pub rename_out : (fvp fdvp tdvp : ℕ) → Option ℕ → Fs K → Fs K
  rename_out fvp fdvp tdvp tvp fs =
      let same : Bool = elim tvp [ none ↦ false | some t ↦ tdvp == t ] in
      let vfs₁ = if same then K.vrele fs.vfs tdvp else K.vput fs.vfs tdvp in
      let vfs₂ : K.Vfs = elim tvp [ none ↦ vfs₁ | some t ↦ K.vput vfs₁ t ] in
      record fs { vfs = K.vrele (K.vrele vfs₂ fdvp) fvp }

  -- An existing target that has a memnode is removed.
  unfoldable pub rename_target : Option ℕ → Fs K → Fs K
  unfolding kvfs_remove
  rename_target tvp fs = elim tvp [
    | none ↦ fs
    | some t ↦ elim (fs.vnodes t).v_data [ none ↦ fs | some knode ↦ (kvfs_remove t knode fs).1 ]
  ]

  -- The key of `from` in memory and on disk. `from` is the memnode of `fvp`, which has one.
  unfoldable pub rename_write : ℕ → Bytes → Fs K → Fs K
  unfolding memnode_update
  rename_write fvp testkey fs = elim (fs.vnodes fvp).v_data [
    | none ↦ fs
    | some from ↦
        let inode = record (from.inode) { key = memcpy from.inode.key 0 testkey 20 } in
        let vnodes =
          set_vnode fs.vnodes fvp
            (record (fs.vnodes fvp) { v_data = some (record from { inode = inode }) }) in
        let fs' = (memnode_update from inode (record fs { vnodes = vnodes })).1 in
        record fs' { vfs = K.vop_unlock fs'.vfs fvp }
  ]

  -- `vop_rename` from `fvp` to the name `tcnp`, with `tvp` the file of that name, if there is
  -- one. The test for `EXDEV` only sets `error`, which the next statement overwrites.
  unfoldable pub kvfs_rename : (fvp fdvp tdvp : ℕ) → Option ℕ → Componentname → Fs K → ℕ × Fs K
  kvfs_rename fvp fdvp tdvp tvp tcnp fs =
      let (error, testkey) = str_to_key hexdigit_kvfs tcnp.cn_nameptr in
      if not (error == 0)
      then (einval, rename_out fvp fdvp tdvp tvp fs)
      else let fs₁ = rename_target tvp fs in
        let (locked, vfs) = K.vn_lock fs₁.vfs fvp in
        let fs₂ = record fs₁ { vfs = vfs } in
        if not (locked == 0)
        then (locked, rename_out fvp fdvp tdvp tvp fs₂)
        else (0, rename_out fvp fdvp tdvp tvp (rename_write fvp testkey fs₂))
