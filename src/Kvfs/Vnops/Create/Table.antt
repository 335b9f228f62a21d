-- ===== src/Kvfs/Vnops/Create/Table.antt =====
-- The inode table after `kvfs_create`: the slots and what they match.
use native.Mathlib.Decide.{dec_lt}
use embedded_operating_syste.Base.{
  ℕ, ◌+◌, ◌-◌, ◌*◌, ◌<◌, ◌≡◌, ◌≢◌, refl, true, List, ◌∷◌, arith, ne→==, ◌∙◌, ap, lt→leb, le→leb,
  lt→ltb, le→ltb, sym,
}
use embedded_operating_syste.Codec.{hexdigit_kvfs, str_to_key}
use embedded_operating_syste.Codec.Values.{all_hex}
use embedded_operating_syste.Kvfs.Kernel.{Kernel, Fs, IsByteArray, IsReliable}
use embedded_operating_syste.Kvfs.Layout.{
  Inode, Mount, encode_inode, sizeof_inode, ino_to_free_byte,
}
use embedded_operating_syste.Kvfs.Time.{timespec_to_uint64}
use embedded_operating_syste.Kvfs.Vfsops.{allocate_inode}
use embedded_operating_syste.Kvfs.Vfsops.Load.{GivesVnode}
use embedded_operating_syste.Kvfs.Vnops.{Componentname, kvfs_create}
use embedded_operating_syste.Kvfs.Vnops.Create.{
  IsFreeSlot, created, inode_at, kvfs_create_new, table_of, table_byte, matches_allocated,
}
use embedded_operating_syste.Kvfs.Vnops.Lookup.{matches_ext}
use embedded_operating_syste.Base.{Bytes}
use embedded_operating_syste.Kvfs.Vnops.Lookup.{matches}
use embedded_operating_syste.Base.{if◌then◌else◌}
use embedded_operating_syste.Base.{◌==◌}
use embedded_operating_syste.Base.{memcmp}
use native.Mathlib.Decide.{ℕ_discrete}
use embedded_operating_syste.Base.{eq→==}

-- Creation in the table: the slot's bytes, and those of every other slot.
module _ (mount : Mount) (bytes : ℕ → ℕ) (n : ℕ) (inode : Inode) where
  pub created_here :
      (i : ℕ)
      → i < sizeof_inode
      → created mount bytes (n * sizeof_inode) inode (mount.inode_off + (n * sizeof_inode + i))
        ≡ encode_inode inode i
  created_here i lt =
      let loc = mount.inode_off + n * sizeof_inode in
      let j = mount.inode_off + (n * sizeof_inode + i) in
      let at : j - loc ≡ i = omega arith in
      rw (le→leb loc j (omega arith), lt→ltb j (loc + sizeof_inode) (omega arith), at) refl

  pub created_elsewhere :
      (m i : ℕ)
      → m ≢ n
      → i < sizeof_inode
      → ino_to_free_byte (n * sizeof_inode) mount.freelist_off < mount.inode_off
      → created mount bytes (n * sizeof_inode) inode (mount.inode_off + (m * sizeof_inode + i))
        ≡ bytes (mount.inode_off + (m * sizeof_inode + i))
  created_elsewhere m i ne lt before =
      let loc = mount.inode_off + n * sizeof_inode in
      let j = mount.inode_off + (m * sizeof_inode + i) in
      let fb = ino_to_free_byte (n * sizeof_inode) mount.freelist_off in
      elim (dec_lt m n) [
        | yes left ↦ rw (lt→leb loc j (omega arith), ne→== j fb (omega arith)) refl
        | no right ↦
            rw
              (
                le→leb loc j (omega arith),
                le→ltb j (loc + sizeof_inode) (omega arith),
                ne→== j fb (omega arith),
              )
              refl
      ]

module _ {K : Kernel} {byte : K.Dev → ℕ → ℕ} (A : IsByteArray K byte) (R : IsReliable K) where
  -- What a free slot at the head of the free list needs, to be made a file.
  pub record CanCreate (n : ℕ) (cnp : Componentname) (fs : Fs K) (last : K.Vfs) : Type 0 where
    pub node : ℕ
    pub rest : List ℕ
    pub head : fs.mount.freelist ≡ (n * sizeof_inode) ∷ rest
    pub inside : n < fs.mount.block_count
    pub gives : GivesVnode K fs.vfs (n * sizeof_inode) K.lk_exclusive node last
    pub slot : IsFreeSlot fs.mount (byte fs.dev) (n * sizeof_inode)
    pub valid : all_hex 40 0 cnp.cn_nameptr ≡ true

  -- The mount's layout stays, and afterwards slot `n` matches the key of the name, and every
  -- other slot matches what it did.
  pub matches-kvfs_create :
      {last : K.Vfs} (n : ℕ) (cnp : Componentname) (fs : Fs K)
      → CanCreate n cnp fs last
      → let fs' = (kvfs_create K cnp fs).2 in
        let key = (str_to_key hexdigit_kvfs cnp.cn_nameptr).1 in
        (fs'.mount.block_count ≡ fs.mount.block_count)
        × (fs'.mount.inode_off ≡ fs.mount.inode_off)
        × ((key' : Bytes) (m : ℕ)
            → m < fs.mount.block_count
            → matches (table_of A R fs') key' m
              ≡ (if m == n then memcmp key' key 20 else matches (table_of A R fs) key' m))
  matches-kvfs_create {last} n cnp fs can =
      let key = (str_to_key hexdigit_kvfs cnp.cn_nameptr).1 in
      let fs' = (kvfs_create K cnp fs).2 in
      let slot = can.slot in
      let old = inode_at (byte fs.dev) (fs.mount.inode_off + n * sizeof_inode) in
      let timestamp = timespec_to_uint64 (K.vfs_timestamp last) in
      let inode = allocate_inode old key timestamp in
      let (_, _, mount, bytes) = kvfs_create_new A R cnp fs can.head can.gives slot can.valid in
      let count : fs'.mount.block_count ≡ fs.mount.block_count = ap (λ m. m.block_count) mount in
      let start : fs'.mount.inode_off ≡ fs.mount.inode_off = ap (λ m. m.inode_off) mount in
      let table' : (m i : ℕ)
          → m < fs.mount.block_count
          → i < sizeof_inode
          → table_of A R fs' (m * sizeof_inode + i)
            ≡ created fs.mount (byte fs.dev) (n * sizeof_inode) inode
                (fs.mount.inode_off + (m * sizeof_inode + i)) =
        λ m i lt small.
          table_byte A R fs' m i (rw start slot.aligned) (rw count lt) small
          ∙ ap (λ o. byte fs'.dev (o + (m * sizeof_inode + i))) start
          ∙ bytes (fs.mount.inode_off + (m * sizeof_inode + i)) in
      (
        count,
        start,
        λ key' m lt. elim (ℕ_discrete m n) [
          | yes e ↦
              rw (e, eq→== n n refl)
                (matches_allocated old (table_of A R fs') key key' timestamp n (λ i small.
                  table' n i can.inside small
                  ∙ created_here fs.mount (byte fs.dev) n inode i small))
          | no ne ↦ rw (ne→== m n ne) (
              matches_ext (table_of A R fs') (table_of A R fs) key' m (λ i small.
                table' m i lt small
                ∙ created_elsewhere fs.mount (byte fs.dev) n inode m i ne small slot.before_table
                ∙ sym (table_byte A R fs m i slot.aligned lt small)))
        ],
      )
