-- ===== src/Kvfs/Counted/Operations.antt =====
-- The free list and its count under each operation of kvfs_vnops.c and kvfs_vfsops.c.
use embedded_operating_syste.Base.{
  ℕ, ◌+◌, ◌-◌, ◌%◌, ◌^◌, ◌≡◌, refl, Option, none, some, List, [], ◌∷◌, Bytes, length, arith, ◌∙◌,
  ap, sym, subst, Option-cases, memcpy, zeroes, ◌==◌, Bool-cases, inl, inr,
}
use embedded_operating_syste.Codec.{hexdigit_kvfs, str_to_key}
use embedded_operating_syste.Kvfs.Time.{Timespec}
use embedded_operating_syste.Kvfs.Vnops.Attributes.{kvfs_setattr, kvfs_inactive, kvfs_reclaim}
use embedded_operating_syste.Kvfs.Kernel.{Kernel, Fs}
use embedded_operating_syste.Kvfs.Layout.{
  Mount, Memnode, Inode, btodb, dev_bsize, blocksize, ino_to_free_byte,
}
use embedded_operating_syste.Kvfs.Vfsops.{
  load_inode, publish_vnode, error_exit, attach_vnode, kvfs_vget_internal, kvfs_vget,
}
use embedded_operating_syste.Kvfs.Vnops.{
  Componentname, kvfs_create, create_at, kvfs_remove, memnode_update, release_ino, kvfs_rename,
  rename_out, rename_target, rename_write, kvfs_lookup, empty_inode,
}

-- In 32 bits, as the count is kept.
abbrev pub IsCounted : Mount → Type 0
IsCounted mount = mount.freelist_count ≡ length mount.freelist % 2 ^ 32

module _ (K : Kernel) where
  mount-load_inode :
      (node ino : ℕ) (keystr : Option Bytes) (fs : Fs K)
      → (load_inode K node ino keystr fs).2.mount ≡ fs.mount
  unfolding load_inode publish_vnode error_exit
  mount-load_inode node ino none fs = ground arith
  mount-load_inode node ino (some str) fs = ground arith

  mount-attach_vnode :
      (ino flags : ℕ) (keystr : Option Bytes) (fs : Fs K)
      → (attach_vnode K ino flags keystr fs).2.mount ≡ fs.mount
  unfolding attach_vnode
  mount-attach_vnode ino flags keystr fs = grind (arith, mount-load_inode)

  pub mount-vget :
      (ino flags : ℕ) (keystr : Option Bytes) (fs : Fs K)
      → (kvfs_vget_internal K ino flags keystr fs).2.mount ≡ fs.mount
  unfolding kvfs_vget_internal
  mount-vget ino flags keystr fs = grind (arith, mount-attach_vnode)

  mount-create_at :
      (ino : ℕ) (cnp : Componentname) (fs : Fs K) → (create_at K ino cnp fs).2.mount ≡ fs.mount
  unfolding create_at
  mount-create_at ino cnp fs = grind (arith, mount-vget)

  pub create-IsCounted :
      (cnp : Componentname) (fs : Fs K) (l : List ℕ)
      → fs.mount.freelist ≡ l
      → IsCounted fs.mount
      → IsCounted (kvfs_create K cnp fs).2.mount
  unfolding kvfs_create
  create-IsCounted cnp fs [] e counted = rw (e, kvfs_create) counted
  create-IsCounted cnp fs (ino ∷ rest) e counted =
      let counted' : fs.mount.freelist_count ≡ length (ino ∷ rest) % 2 ^ 32 =
        counted ∙ ap (λ l. length l % 2 ^ 32) e in
      rw (e, kvfs_create)
        (subst IsCounted
          (sym (
            mount-create_at ino cnp (record fs {
              mount = record (fs.mount) {
                freelist = rest;
                freelist_count = (fs.mount.freelist_count + 2 ^ 32 - 1) % 2 ^ 32;
              };
            })))
          (omega arith))

  mount-memnode_update :
      (knode : Memnode) (inode : Inode) (fs : Fs K)
      → (memnode_update K knode inode fs).1.mount ≡ fs.mount
  unfolding memnode_update
  mount-memnode_update knode inode fs = ground arith

  release-IsCounted :
      (ino : ℕ) (fs : Fs K) → IsCounted fs.mount → IsCounted (release_ino K ino fs).mount
  unfolding release_ino
  release-IsCounted ino fs counted =
      elim (Bool-cases (
        (K.bread fs.dev (btodb (ino_to_free_byte ino fs.mount.freelist_off % 2 ^ 32)) dev_bsize).0
        == 0)) [ inl e ↦ rw e (omega arith) | inr e ↦ rw e (omega arith) ]

  pub remove-IsCounted :
      (vp : ℕ) (knode : Memnode) (fs : Fs K)
      → IsCounted fs.mount
      → IsCounted (kvfs_remove K vp knode fs).1.mount
  unfolding kvfs_remove
  remove-IsCounted vp knode fs counted =
      let fs₁ = (memnode_update K knode empty_inode fs).1 in
      let block = K.getblk fs₁.dev knode.lbn blocksize in
      let dev = (K.bwrite fs₁.dev knode.lbn blocksize (memcpy block.b_data 0 zeroes blocksize)).1 in
      let fb = ino_to_free_byte knode.ino fs₁.mount.freelist_off % 2 ^ 32 in
      let released =
        release-IsCounted knode.ino (record fs₁ { dev = dev })
          (subst IsCounted (sym (mount-memnode_update knode empty_inode fs)) counted) in
      elim (Bool-cases ((K.bread dev (btodb fb) dev_bsize).0 == 0)) [
        | inl e ↦ rw e released
        | inr e ↦ rw e released
      ]

  target-IsCounted :
      (fs : Fs K) (tvp : Option ℕ) → IsCounted fs.mount → IsCounted (rename_target K tvp fs).mount
  unfolding rename_target
  target-IsCounted fs none counted = counted
  target-IsCounted fs (some t) counted = elim (Option-cases (fs.vnodes t).v_data) [
    | inl e ↦ rw (e, rename_target) counted
    | inr (knode, e) ↦ rw (e, rename_target) (remove-IsCounted t knode fs counted)
  ]

  mount-rename_write :
      (fvp : ℕ) (key : Bytes) (fs : Fs K) → (rename_write K fvp key fs).mount ≡ fs.mount
  unfolding rename_write
  mount-rename_write fvp key fs = elim (Option-cases (fs.vnodes fvp).v_data) [
    | inl e ↦ rw (e, rename_write) refl
    | inr (knode, e) ↦ rw (e, rename_write) (mount-memnode_update knode _ _)
  ]

  pub rename-IsCounted :
      (fvp fdvp tdvp : ℕ) (tvp : Option ℕ) (tcnp : Componentname) (fs : Fs K)
      → IsCounted fs.mount
      → IsCounted (kvfs_rename K fvp fdvp tdvp tvp tcnp fs).1.mount
  unfolding kvfs_rename rename_out
  rename-IsCounted fvp fdvp tdvp tvp tcnp fs counted =
      let key = (str_to_key hexdigit_kvfs tcnp.cn_nameptr).1 in
      let fs₁ = rename_target K tvp fs in
      let fs₂ : Fs K = record fs₁ { vfs = (K.vn_lock fs₁.vfs fvp).1 } in
      let counted₁ = target-IsCounted fs tvp counted in
      elim (Bool-cases ((str_to_key hexdigit_kvfs tcnp.cn_nameptr).0 == 0)) [
        | inr bad ↦ rw bad counted
        | inl good ↦ elim (Bool-cases ((K.vn_lock fs₁.vfs fvp).0 == 0)) [
          | inr busy ↦ rw (good, busy) counted₁
          | inl locked ↦
              rw (good, locked) (subst IsCounted (sym (mount-rename_write fvp key fs₂)) counted₁)
        ]
      ]

  pub lookup-mount :
      (vdp : ℕ) (cnp : Componentname) (fs : Fs K) → (kvfs_lookup K vdp cnp fs).2.mount ≡ fs.mount
  unfolding kvfs_lookup kvfs_vget
  lookup-mount vdp cnp fs = grind (arith, mount-vget)

  pub setattr-mount :
      (vp : ℕ) (knode : Memnode) (mtime : Option Timespec) (fs : Fs K)
      → (kvfs_setattr K vp knode mtime fs).1.mount ≡ fs.mount
  unfolding kvfs_setattr
  setattr-mount vp knode mtime fs = grind (arith, mount-memnode_update)

  pub inactive-mount : (vp : ℕ) (fs : Fs K) → (kvfs_inactive K vp fs).1.mount ≡ fs.mount
  unfolding kvfs_inactive
  inactive-mount vp fs = ground arith

  pub reclaim-mount : (vp : ℕ) (fs : Fs K) → (kvfs_reclaim K vp fs).1.mount ≡ fs.mount
  unfolding kvfs_reclaim
  reclaim-mount vp fs = ground arith
