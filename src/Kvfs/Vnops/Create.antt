-- ===== src/Kvfs/Vnops/Create.antt =====
-- What `kvfs_create` does to the device, and that a lookup then finds the new file.
pub mod Found
pub mod Table
use native.Mathlib.Decide.{dec_lt, ℕ_discrete}
use embedded_operating_syste.Base.{
  ℕ, zero, suc, ◌+◌, ◌-◌, ◌*◌, ◌/◌, ◌%◌, ◌^◌, ◌≤◌, ◌<◌, ◌≡◌, ◌≢◌, refl, Bool, true, false, not,
  ◌&&◌, Option, none, some, List, [], ◌∷◌, Bytes, offset, update, memcmp, memcmp_ext, has_bit,
  set_bit, clear_bit, arith, if◌then◌else◌, ltb, leb, ◌==◌, eq→==, ne→==, ◌∙◌, ap,
  has_bit-clear_bit_self, has_bit-set_bit_ne, lt→leb, le→leb, lt→ltb, le→ltb, sym,
  all_below_complete,
}
use embedded_operating_syste.Codec.{hexdigit_kvfs, str_to_key}
use embedded_operating_syste.Codec.Values.{all_hex}
use embedded_operating_syste.Kvfs.Bytes.{le, byte_at, le_ext}
use embedded_operating_syste.Kvfs.Kernel.{Kernel, Fs, IsByteArray, IsReliable}
use embedded_operating_syste.Kvfs.Kernel.Device.{byte_written, byte_read}
use embedded_operating_syste.Kvfs.Layout.{
  Inode, Mount, encode_inode, decode_inode, kvfs_root_ino, kvfs_inode_free, kvfs_inode_active,
  btodb, pad, dev_bsize, sizeof_inode, ino_to_free_byte, ino_to_free_bit,
}
use embedded_operating_syste.Kvfs.Time.{timespec_to_uint64}
use embedded_operating_syste.Kvfs.Vfsops.{
  VnodeResult, allocate_inode, load_inode, kvfs_vget_internal,
}
use embedded_operating_syste.Kvfs.Vfsops.Load.{
  GivesVnode, vget-load_inode, load_inode_free, disk_inode,
}
use embedded_operating_syste.Kvfs.Vnops.{Componentname, create_at, kvfs_create, lookup_loop}
use embedded_operating_syste.Kvfs.Vnops.Lookup.{matches, matches_ext, none-matches, first_match}

-- The inode at an address of the device.
abbrev pub inode_at : (ℕ → ℕ) → ℕ → Inode
inode_at bytes loc = decode_inode (offset bytes loc)

-- The places on disk of an inode that can be given out: a slot of the table, outside the bitmap,
-- that is marked free.
pub record IsFreeSlot (mount : Mount) (bytes : ℕ → ℕ) (ino : ℕ) : Type 0 where
  pub aligned : mount.inode_off % dev_bsize ≡ 0
  pub whole : ino % sizeof_inode ≡ 0
  pub not_root : ino ≢ kvfs_root_ino
  pub before_table : ino_to_free_byte ino mount.freelist_off < mount.inode_off
  pub free : has_bit (inode_at bytes (mount.inode_off + ino)).flags kvfs_inode_free ≡ true

-- The device after the creation: the bit of the inode is set in the bitmap, the inode is
-- written, and nothing else changes.
abbrev pub created : Mount → (ℕ → ℕ) → ℕ → Inode → ℕ → ℕ
created mount bytes ino inode j =
    let loc = mount.inode_off + ino in
    let free_byte = ino_to_free_byte ino mount.freelist_off in
    if leb loc j && ltb j (loc + sizeof_inode)
    then encode_inode inode (j - loc)
    else if j == free_byte
    then set_bit (bytes free_byte) (ino_to_free_bit ino)
    else bytes j

pub flags_ext :
    (p q : ℕ → ℕ) (loc : ℕ)
    → ((i : ℕ) → p (loc + i) ≡ q (loc + i))
    → (inode_at p loc).flags ≡ (inode_at q loc).flags
unfolding decode_inode
flags_ext p q loc e = le_ext 2 _ _ 20 20 (λ k lt. e (20 + k))

allocate_ext :
    (x y : Inode) (key : Bytes) (timestamp : ℕ)
    → x.flags ≡ y.flags
    → allocate_inode x key timestamp ≡ allocate_inode y key timestamp
unfolding allocate_inode
allocate_ext x y key timestamp e = rw e refl

module _ {K : Kernel} {byte : K.Dev → ℕ → ℕ} (A : IsByteArray K byte) (R : IsReliable K) where
  -- The bitmap's byte as `create_at` writes it.
  bitmap_written :
      (d : K.Dev) (fb bit : ℕ) (j : ℕ)
      → let b = (K.bread d (btodb fb) dev_bsize).1.b_data in
        byte
          (K.bwrite d
            (btodb fb)
            dev_bsize
            (update b (fb % dev_bsize) (set_bit (b (fb % dev_bsize)) bit))).1
          j
        ≡ (if j == fb then set_bit (byte d fb) bit else byte d j)
  bitmap_written d fb bit j =
      byte_written d fb (set_bit ((K.bread d (btodb fb) dev_bsize).1.b_data (fb % dev_bsize)) bit) A
        R j
      ∙ ap (λ v. if j == fb then set_bit v bit else byte d j) (byte_read d fb A R)

  -- The inode that `load_inode` reads is that of the device.
  disk_inode_flags :
      (fs : Fs K) (ino : ℕ)
      → fs.mount.inode_off % dev_bsize ≡ 0
      → ino % sizeof_inode ≡ 0
      → (disk_inode A R fs ino).flags ≡ (inode_at (byte fs.dev) (fs.mount.inode_off + ino)).flags
  unfolding decode_inode
  disk_inode_flags fs ino aligned whole = le_ext 2 _ _ 20 20 (λ k lt.
      A.bread_data fs.dev (btodb (fs.mount.inode_off + ino)) dev_bsize (ino % dev_bsize + (20 + k))
        (R.bread_ok fs.dev (btodb (fs.mount.inode_off + ino)) dev_bsize) (omega arith)
      ∙ ap (byte fs.dev) (omega arith))

  pub create_at_new :
      {ino node : ℕ} {last : K.Vfs} (cnp : Componentname) (fs : Fs K)
      → GivesVnode K fs.vfs ino K.lk_exclusive node last
      → IsFreeSlot fs.mount (byte fs.dev) ino
      → all_hex 40 0 cnp.cn_nameptr ≡ true
      → let (error, vpp, fs') = create_at K ino cnp fs in
        let inode =
          allocate_inode
            (inode_at (byte fs.dev) (fs.mount.inode_off + ino))
            (str_to_key hexdigit_kvfs cnp.cn_nameptr).1
            (timespec_to_uint64 (K.vfs_timestamp last)) in
        (error ≡ 0)
        × (vpp ≡ some node)
        × (fs'.mount ≡ fs.mount)
        × ((j : ℕ) → byte fs'.dev j ≡ created fs.mount (byte fs.dev) ino inode j)
  unfolding create_at
  create_at_new {ino} {node} {last} cnp fs gives slot valid =
      let loc = fs.mount.inode_off + ino in
      let fb = ino_to_free_byte ino fs.mount.freelist_off in
      let old = (K.bread fs.dev (btodb fb) dev_bsize).1.b_data in
      let bits =
        update old (fb % dev_bsize) (set_bit (old (fb % dev_bsize)) (ino_to_free_bit ino)) in
      let dev = (K.bwrite fs.dev (btodb fb) dev_bsize bits).1 in
      let fs₁ : Fs K = record fs { dev = dev } in
      let fs₂ : Fs K = record fs { dev = dev; vfs = last } in
      let gives₁ : GivesVnode K fs₁.vfs ino K.lk_exclusive node last = gives in
      let bitmap = bitmap_written fs.dev fb (ino_to_free_bit ino) in
      let kept : (j : ℕ) → loc ≤ j → byte dev j ≡ byte fs.dev j =
        λ j le. bitmap j ∙ rw (ne→== j fb (omega arith)) refl in
      let flags : (disk_inode A R fs₂ ino).flags ≡ (inode_at (byte fs.dev) loc).flags =
        disk_inode_flags fs₂ ino slot.aligned slot.whole
        ∙ flags_ext (byte dev) (byte fs.dev) loc (λ i. kept (loc + i) (omega arith)) in
      let (no_error, vnode, same, bytes) =
        load_inode_free A R fs₂ ino node cnp.cn_nameptr slot.aligned slot.whole slot.not_root
          (rw flags slot.free) valid in
      rw (R.bread_ok fs.dev (btodb fb) dev_bsize, vget-load_inode (some cnp.cn_nameptr) fs₁ gives₁)
        (
          no_error,
          vnode,
          same,
          λ j.
              bytes j
              ∙ rw
                  (
                    allocate_ext (disk_inode A R fs₂ ino) (inode_at (byte fs.dev) loc) _ _ flags,
                    bitmap j,
                  )
                  refl,
        )

  -- On a device that does not fail, with a new vnode, a free slot at the head of the free list and
  -- a name of 40 hexadecimal digits, `kvfs_create` returns 0 and the vnode. The slot leaves the
  -- free list, its bit in the bitmap is set, its inode is written active under the key of the
  -- name, and nothing else changes on the device.
  pub kvfs_create_new :
      {ino node : ℕ} {last : K.Vfs} {rest : List ℕ} (cnp : Componentname) (fs : Fs K)
      → fs.mount.freelist ≡ ino ∷ rest
      → GivesVnode K fs.vfs ino K.lk_exclusive node last
      → IsFreeSlot fs.mount (byte fs.dev) ino
      → all_hex 40 0 cnp.cn_nameptr ≡ true
      → let (error, vpp, fs') = kvfs_create K cnp fs in
        let inode =
          allocate_inode
            (inode_at (byte fs.dev) (fs.mount.inode_off + ino))
            (str_to_key hexdigit_kvfs cnp.cn_nameptr).1
            (timespec_to_uint64 (K.vfs_timestamp last)) in
        (error ≡ 0)
        × (vpp ≡ some node)
        × (fs'.mount ≡ record (fs.mount) {
          freelist = rest;
          freelist_count = (fs.mount.freelist_count + 2 ^ 32 - 1) % 2 ^ 32;
        })
        × ((j : ℕ) → byte fs'.dev j ≡ created fs.mount (byte fs.dev) ino inode j)
  unfolding kvfs_create
  kvfs_create_new {ino} {rest} cnp fs head gives slot valid =
      let mount : Mount = record (fs.mount) {
        freelist = rest;
        freelist_count = (fs.mount.freelist_count + 2 ^ 32 - 1) % 2 ^ 32;
      } in
      let slot' : IsFreeSlot mount (byte fs.dev) ino = record {
        aligned = slot.aligned;
        whole = slot.whole;
        not_root = slot.not_root;
        before_table = slot.before_table;
        free = slot.free;
      } in
      rw (head, kvfs_create) (create_at_new cnp (record fs { mount = mount }) gives slot' valid)

  -- The inode table as `kvfs_lookup` reads it.
  abbrev pub table_of : Fs K → Bytes
  table_of fs =
      (K.bread fs.dev (btodb fs.mount.inode_off)
        (pad (fs.mount.block_count * sizeof_inode))).1.b_data

  pub table_byte :
      (fs : Fs K) (m i : ℕ)
      → fs.mount.inode_off % dev_bsize ≡ 0
      → m < fs.mount.block_count
      → i < sizeof_inode
      → table_of fs (m * sizeof_inode + i)
        ≡ byte fs.dev (fs.mount.inode_off + (m * sizeof_inode + i))
  table_byte fs m i aligned inside small =
      A.bread_data fs.dev (btodb fs.mount.inode_off) (pad (fs.mount.block_count * sizeof_inode))
        (m * sizeof_inode + i)
        (R.bread_ok fs.dev (btodb fs.mount.inode_off) (pad (fs.mount.block_count * sizeof_inode)))
        (omega arith)
      ∙ ap (byte fs.dev) (omega arith)

-- The flag as it is read back from its bytes.
pub flag_of_bytes :
    (p : Bytes) (v : ℕ)
    → p 20 ≡ byte_at v 0
    → p 21 ≡ byte_at v 1
    → has_bit (le 2 p 20) kvfs_inode_free ≡ has_bit v kvfs_inode_free
unfolding has_bit le byte_at
flag_of_bytes p v e f =
    let bit : (p 20 + 256 * (p (20 + 1) + 256 * 0)) / 2 % 2 ≡ v / 2 % 2 = omega (arith, e, f) in
    rw bit refl

-- An allocated inode matches its key, and no other, wherever its 32 bytes stand.
pub matches_allocated :
    (old : Inode) (table key key' : Bytes) (timestamp n : ℕ)
    → ((i : ℕ)
        → i < sizeof_inode
        → table (n * sizeof_inode + i) ≡ encode_inode (allocate_inode old key timestamp) i)
    → matches table key' n ≡ memcmp key' key 20
unfolding decode_inode encode_inode allocate_inode
matches_allocated old table key key' timestamp n e =
    let flags = set_bit (clear_bit old.flags kvfs_inode_free) kvfs_inode_active in
    let in_use : has_bit flags kvfs_inode_free ≡ false =
      has_bit-set_bit_ne (clear_bit old.flags kvfs_inode_free) kvfs_inode_active kvfs_inode_free
        (omega arith)
      ∙ has_bit-clear_bit_self old.flags kvfs_inode_free in
    rw
      (
        flag_of_bytes (offset table (n * sizeof_inode)) flags (e 20 (omega arith))
            (e 21 (omega arith)),
        in_use,
      )
      (memcmp_ext 20 key' (offset table (n * sizeof_inode)) key
        (λ i lt. e i (omega arith) ∙ rw (lt→ltb i 20 lt) refl))
