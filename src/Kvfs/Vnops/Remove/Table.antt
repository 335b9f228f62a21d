-- ===== src/Kvfs/Vnops/Remove/Table.antt =====
-- The inode table after `kvfs_remove`: what the slots match.
use native.Mathlib.Decide.{dec_lt, ℕ_discrete}
use embedded_operating_syste.Base.{
  ℕ, ◌+◌, ◌-◌, ◌*◌, ◌≤◌, ◌<◌, ◌≡◌, ◌≢◌, refl, true, false, Bytes, has_bit, offset, set_bit, arith,
  if◌then◌else◌, ◌==◌, eq→==, ne→==, ◌∙◌, ap, sym, lt→leb, le→leb, lt→ltb, le→ltb,
  has_bit-set_bit_self,
}
use embedded_operating_syste.Kvfs.Kernel.{Kernel, Fs, IsByteArray, IsReliable}
use embedded_operating_syste.Kvfs.Layout.{
  Memnode, Mount, encode_inode, decode_inode, kvfs_inode_free, dev_bsize, sizeof_inode,
  ino_to_free_byte,
}
use embedded_operating_syste.Kvfs.Vnops.{empty_inode, kvfs_remove}
use embedded_operating_syste.Kvfs.Vnops.Create.{flag_of_bytes, inode_at, table_of, table_byte}
use embedded_operating_syste.Kvfs.Vnops.Lookup.{matches, matches_ext}
use embedded_operating_syste.Kvfs.Vnops.Remove.{IsPlaced, removed, kvfs_remove_lem}

-- A free inode matches no key, wherever its 32 bytes stand.
pub matches_empty :
    (table key' : Bytes) (n : ℕ)
    → ((i : ℕ) → i < sizeof_inode → table (n * sizeof_inode + i) ≡ encode_inode empty_inode i)
    → matches table key' n ≡ false
unfolding decode_inode encode_inode empty_inode
matches_empty table key' n e =
    let flags = set_bit 0 kvfs_inode_free in
    rw
      (
        flag_of_bytes (offset table (n * sizeof_inode)) flags (e 20 (omega arith))
            (e 21 (omega arith)),
        has_bit-set_bit_self 0 kvfs_inode_free,
      )
      refl

-- Its flag says free.
pub empty-flag :
    (bytes : ℕ → ℕ) (loc : ℕ)
    → ((i : ℕ) → i < sizeof_inode → bytes (loc + i) ≡ encode_inode empty_inode i)
    → has_bit (inode_at bytes loc).flags kvfs_inode_free ≡ true
unfolding decode_inode encode_inode empty_inode
empty-flag bytes loc read =
    flag_of_bytes (offset bytes loc) (set_bit 0 kvfs_inode_free) (read 20 (omega arith))
      (read 21 (omega arith))
    ∙ has_bit-set_bit_self 0 kvfs_inode_free

-- The removal in the table: the bytes of the slot, and those of every other slot.
module _ (mount : Mount) (bytes : ℕ → ℕ) (knode : Memnode) (placed : IsPlaced mount knode) (n : ℕ)
    (slot : knode.ino ≡ n * sizeof_inode) where
  pub removed_here :
      (i : ℕ)
      → i < sizeof_inode
      → removed mount bytes knode (mount.inode_off + (n * sizeof_inode + i))
        ≡ encode_inode empty_inode i
  removed_here i lt =
      let j = mount.inode_off + (n * sizeof_inode + i) in
      let fb = ino_to_free_byte knode.ino mount.freelist_off in
      let block = knode.lbn * dev_bsize in
      let before = placed.before_table in
      let behind = placed.behind_table in
      let at : j - (mount.inode_off + knode.ino) ≡ i = omega arith in
      rw
        (
          ne→== j fb (omega arith),
          lt→leb block j (omega arith),
          le→leb (mount.inode_off + knode.ino) j (omega arith),
          lt→ltb j (mount.inode_off + knode.ino + sizeof_inode) (omega arith),
          at,
        )
        refl

  pub removed_elsewhere :
      (m i : ℕ)
      → m ≢ n
      → i < sizeof_inode
      → mount.inode_off + (m * sizeof_inode + i) < knode.lbn * dev_bsize
      → removed mount bytes knode (mount.inode_off + (m * sizeof_inode + i))
        ≡ bytes (mount.inode_off + (m * sizeof_inode + i))
  removed_elsewhere m i ne lt in_table =
      let j = mount.inode_off + (m * sizeof_inode + i) in
      let fb = ino_to_free_byte knode.ino mount.freelist_off in
      let loc = mount.inode_off + knode.ino in
      let before = placed.before_table in
      elim (dec_lt m n) [
        | yes left ↦
            rw
              (
                ne→== j fb (omega arith),
                lt→leb (knode.lbn * dev_bsize) j in_table,
                lt→leb loc j (omega arith),
              )
              refl
        | no right ↦
            rw
              (
                ne→== j fb (omega arith),
                lt→leb (knode.lbn * dev_bsize) j in_table,
                le→leb loc j (omega arith),
                le→ltb j (loc + sizeof_inode) (omega arith),
              )
              refl
      ]

module _ {K : Kernel} {byte : K.Dev → ℕ → ℕ} (A : IsByteArray K byte) (R : IsReliable K) where
  -- The mount's layout stays, and afterwards slot `n` matches nothing, and every other slot
  -- matches what it did.
  pub matches-kvfs_remove :
      (vp : ℕ) (knode : Memnode) (fs : Fs K) (n : ℕ)
      → IsPlaced fs.mount knode
      → knode.ino ≡ n * sizeof_inode
      → n < fs.mount.block_count
      → fs.mount.inode_off + fs.mount.block_count * sizeof_inode ≤ knode.lbn * dev_bsize
      → let fs' = (kvfs_remove K vp knode fs).1 in
        (fs'.mount.block_count ≡ fs.mount.block_count)
        × (fs'.mount.inode_off ≡ fs.mount.inode_off)
        × ((key' : Bytes) (m : ℕ)
            → m < fs.mount.block_count
            → matches (table_of A R fs') key' m
              ≡ (if m == n then false else matches (table_of A R fs) key' m))
  matches-kvfs_remove vp knode fs n placed at inside behind =
      let fs' = (kvfs_remove K vp knode fs).1 in
      let (_, mount, bytes) = kvfs_remove_lem A R vp knode fs placed in
      let count : fs'.mount.block_count ≡ fs.mount.block_count = ap (λ m. m.block_count) mount in
      let start : fs'.mount.inode_off ≡ fs.mount.inode_off = ap (λ m. m.inode_off) mount in
      let table' : (m i : ℕ)
          → m < fs.mount.block_count
          → i < sizeof_inode
          → table_of A R fs' (m * sizeof_inode + i)
            ≡ removed fs.mount (byte fs.dev) knode (fs.mount.inode_off + (m * sizeof_inode + i)) =
        λ m i lt small.
          table_byte A R fs' m i (rw start placed.aligned) (rw count lt) small
          ∙ ap (λ o. byte fs'.dev (o + (m * sizeof_inode + i))) start
          ∙ bytes (fs.mount.inode_off + (m * sizeof_inode + i)) in
      (
        count,
        start,
        λ key' m lt. elim (ℕ_discrete m n) [
          | yes e ↦
              rw (e, eq→== n n refl)
                (matches_empty (table_of A R fs') key' n (λ i small.
                  table' n i inside small
                  ∙ removed_here fs.mount (byte fs.dev) knode placed n at i small))
          | no ne ↦ rw (ne→== m n ne) (
              matches_ext (table_of A R fs') (table_of A R fs) key' m (λ i small.
                table' m i lt small
                ∙ removed_elsewhere fs.mount (byte fs.dev) knode placed n at m i ne small
                    (omega arith)
                ∙ sym (table_byte A R fs m i placed.aligned lt small)))
        ],
      )
