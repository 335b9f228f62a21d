-- ===== src/Kvfs/Store/Refines.antt =====
-- The lookup, the creation and the removal of kvfs_vnops.c as operations on the abstract store.
use embedded_operating_syste.Base.{
  subst, ◌%◌, ◌^◌, ℕ, ◌*◌, ◌+◌, ◌≤◌, ◌<◌, ◌≡◌, refl, true, false, ◌&&◌, none, some, Bytes,
  if◌then◌else◌, ◌==◌, arith, ap, ◌∙◌, offset, Option,
}
use embedded_operating_syste.Codec.{hexdigit_kvfs, str_to_key}
use embedded_operating_syste.Codec.Values.{all_hex, str_to_key_error}
use embedded_operating_syste.Kvfs.Kernel.{Kernel, Fs, IsByteArray, IsReliable, enoent, ejustreturn}
use embedded_operating_syste.Kvfs.Layout.{
  Memnode, sizeof_inode, kvfs_key_strlen, decode_inode, dev_bsize,
}
use embedded_operating_syste.Kvfs.Store.{Store, put, Holds}
use embedded_operating_syste.Kvfs.Store.Operations.{lookup_loop-At, Holds-put, Holds-remove}
use embedded_operating_syste.Kvfs.Bytes.{le_ext}
use embedded_operating_syste.Kvfs.Vfsops.{kvfs_vget, VnodeResult}
use embedded_operating_syste.Kvfs.Vnops.{
  Componentname, creates, kvfs_lookup, kvfs_create, kvfs_remove,
}
use embedded_operating_syste.Kvfs.Vnops.Create.{
  IsFreeSlot, table_of, table_byte, kvfs_create_new, inode_at,
}
use embedded_operating_syste.Kvfs.Vnops.Create.Table.{CanCreate, matches-kvfs_create}
use embedded_operating_syste.Kvfs.Vnops.Lookup.{matches}
use embedded_operating_syste.Kvfs.Vnops.Remove.{IsPlaced, kvfs_remove_lem}
use embedded_operating_syste.Kvfs.Vnops.Remove.Table.{matches-kvfs_remove}
use embedded_operating_syste.Kvfs.Layout.{btodb}
use embedded_operating_syste.Kvfs.Layout.{pad}
use embedded_operating_syste.Kvfs.Vnops.{lookup_loop}
use embedded_operating_syste.Base.{sym}

-- A name that names a key: 40 hexadecimal digits.
pub record IsName (cnp : Componentname) : Type 0 where
  pub long : cnp.cn_namelen ≡ kvfs_key_strlen
  pub digits : all_hex 40 0 cnp.cn_nameptr ≡ true

-- The key that a name stands for.
abbrev pub key_of : Componentname → Bytes
key_of cnp = (str_to_key hexdigit_kvfs cnp.cn_nameptr).1

-- What a lookup gives for a file, or for none.
abbrev pub answer : (K : Kernel) → Componentname → Fs K → Option ℕ → VnodeResult K
answer K cnp fs (some ino) = kvfs_vget K ino cnp.cn_lkflags fs
answer K cnp fs none =
    (if cnp.is_last_cn && creates cnp.cn_nameiop then ejustreturn else enoent, none, fs)

module _ {K : Kernel} {byte : K.Dev → ℕ → ℕ} (A : IsByteArray K byte) (R : IsReliable K) where
  -- A slot that is marked free on the device matches no key.
  pub free-matches :
      (fs : Fs K) (n : ℕ)
      → IsFreeSlot fs.mount (byte fs.dev) (n * sizeof_inode)
      → n < fs.mount.block_count
      → (key : Bytes) → matches (table_of A R fs) key n ≡ false
  unfolding decode_inode
  free-matches fs n slot inside key =
      let loc = fs.mount.inode_off + n * sizeof_inode in
      let flags : (decode_inode (offset (table_of A R fs) (n * sizeof_inode))).flags
          ≡ (inode_at (byte fs.dev) loc).flags =
        le_ext 2 _ _ 20 20 (λ k lt.
          table_byte A R fs n (20 + k) slot.aligned inside (omega arith)
          ∙ ap (byte fs.dev) (omega arith)) in
      rw (flags, slot.free) refl

  -- On a device that does not fail, with an inode table of less than 2 ^ 31 bytes, at the root and
  -- for a name of 40 hexadecimal digits, `kvfs_lookup` answers what the store holds for the key of the name: the vnode of the file by
  -- `kvfs_vget`, or EJUSTRETURN or ENOENT where there is no file.
  pub kvfs_lookup-Holds :
      (vdp : ℕ) (cnp : Componentname) (fs : Fs K) (store : Store)
      → (fs.vnodes vdp).vv_root ≡ true
      → IsName cnp
      → pad (fs.mount.block_count * sizeof_inode) < 2 ^ 31
      → Holds (table_of A R fs) fs.mount.block_count store
      → kvfs_lookup K vdp cnp fs ≡ answer K cnp fs (store (key_of cnp))
  unfolding kvfs_lookup
  kvfs_lookup-Holds vdp cnp fs store root named small holds =
      let device =
        R.bread_ok fs.dev (btodb fs.mount.inode_off)
          (pad (fs.mount.block_count * sizeof_inode) % 2 ^ 32) in
      let size : pad (fs.mount.block_count * sizeof_inode) % 2 ^ 32
          ≡ pad (fs.mount.block_count * sizeof_inode) =
        omega arith in
      let found =
        subst
          (λ n.
            lookup_loop (K.bread fs.dev (btodb fs.mount.inode_off) n).1.b_data (key_of cnp)
              fs.mount.block_count 0
            ≡ store (key_of cnp))
          (sym size)
          (lookup_loop-At (table_of A R fs) fs.mount.block_count (key_of cnp) (omega arith)
            (holds (key_of cnp))) in
      let valid = (str_to_key_error cnp.cn_nameptr).0 in
      let digits : all_hex 40 0 cnp.cn_nameptr ≡ true = named.digits in
      let not_dot : ((cnp.cn_nameptr 0 == b'.') && (cnp.cn_namelen == 1)) ≡ false =
        ground (arith, named.long) in
      let error : (str_to_key hexdigit_kvfs cnp.cn_nameptr).0 ≡ 0 = valid ∙ rw digits refl in
      rw (root, not_dot, named.long, error, device, found) (answered (store (key_of cnp)))
    where
      answered :
          (value : Option ℕ)
          → (elim value [
            | some idx ↦ kvfs_vget K idx cnp.cn_lkflags fs
            | none ↦
                if cnp.is_last_cn && creates cnp.cn_nameiop
                then (ejustreturn, none, fs)
                else (enoent, none, fs)
          ])
            ≡ answer K cnp fs value
      answered (some ino) = refl
      answered none = ground arith

  -- On a device that does not fail: where the table holds a store without the key of the name,
  -- and slot `n` at the head of the free list can be made a file, `kvfs_create` returns 0 and
  -- the table then holds the store with slot `n` put under that key.
  pub kvfs_create-Holds :
      {last : K.Vfs} (n : ℕ) (cnp : Componentname) (fs : Fs K) (store : Store)
      → CanCreate A R n cnp fs last
      → store (key_of cnp) ≡ none
      → Holds (table_of A R fs) fs.mount.block_count store
      → let (error, vpp, fs') = kvfs_create K cnp fs in
        (error ≡ 0)
        × Holds
            (table_of A R fs')
            fs'.mount.block_count
            (put store (key_of cnp) (some (n * sizeof_inode)))
  kvfs_create-Holds n cnp fs store can absent holds =
      let fs' = (kvfs_create K cnp fs).2 in
      let slot = can.slot in
      let (count, start, slots) = matches-kvfs_create A R n cnp fs can in
      (
        (kvfs_create_new A R cnp fs can.head can.gives slot can.valid).0,
        rw count (
            Holds-put (table_of A R fs) (table_of A R fs') fs.mount.block_count n store (key_of cnp)
              can.inside holds absent (free-matches fs n slot can.inside) slots),
      )

  -- On a device that does not fail: where the table holds a store with slot `n` under a key, and
  -- the file of slot `n` is placed as the file system's layout has it, `kvfs_remove` of it
  -- returns 0 and the table then holds the store without that key.
  pub kvfs_remove-Holds :
      (vp : ℕ) (knode : Memnode) (fs : Fs K) (n : ℕ) (store : Store) (key : Bytes)
      → IsPlaced fs.mount knode
      → knode.ino ≡ n * sizeof_inode
      → n < fs.mount.block_count
      → fs.mount.inode_off + fs.mount.block_count * sizeof_inode ≤ knode.lbn * dev_bsize
      → store key ≡ some (n * sizeof_inode)
      → Holds (table_of A R fs) fs.mount.block_count store
      → let (error, fs') = kvfs_remove K vp knode fs in
        (error ≡ 0) × Holds (table_of A R fs') fs'.mount.block_count (put store key none)
  kvfs_remove-Holds vp knode fs n store key placed at inside behind present holds =
      let fs' = (kvfs_remove K vp knode fs).1 in
      let (count, start, slots) = matches-kvfs_remove A R vp knode fs n placed at inside behind in
      (
        (kvfs_remove_lem A R vp knode fs placed).0,
        rw count (
            Holds-remove (table_of A R fs) (table_of A R fs') fs.mount.block_count n store key
              inside holds present slots),
      )
