-- ===== src/Kvfs/Store/History/Places.antt =====
-- Where the slots of a sound file system stand.
use embedded_operating_syste.Base.{
  ℕ, ◌+◌, ◌*◌, ◌%◌, ◌^◌, ◌≤◌, ◌<◌, ◌≡◌, true, false, some, Bytes, arith, Bool-cases, inl, inr,
}
use embedded_operating_syste.Kvfs.Layout.{Memnode, Mount, Superblock, sizeof_inode, dev_bsize, ceil}
use embedded_operating_syste.Kvfs.Kernel.{Kernel, Fs, IsByteArray, IsReliable}
use embedded_operating_syste.Kvfs.Mkfs.{size_of}
use embedded_operating_syste.Kvfs.Mkfs.Layout.{IsLaidOut}
use embedded_operating_syste.Kvfs.Store.{Store}
use embedded_operating_syste.Kvfs.Store.History.{IsSound, IsLoaded}
use embedded_operating_syste.Kvfs.Store.History.Slots.{listed-IsFreelist, slot_of}
use embedded_operating_syste.Kvfs.Store.Refines.{free-matches}
use embedded_operating_syste.Kvfs.Vfsops.Mount.Freelist.{contains}
use embedded_operating_syste.Kvfs.Vnops.Create.{IsFreeSlot, table_of}
use embedded_operating_syste.Kvfs.Vnops.Remove.{IsPlaced}

inode_off_small :
    (disksize : ℕ) (sb : Superblock)
    → disksize < 2 ^ 44
    → IsLaidOut disksize sb
    → sb.inode_off ≤ 2 ^ 32
inode_off_small disksize sb small laid =
    let end : sb.fs_size ≤ size_of (sb.block_count + 1) = elim laid.size [
      | inl exact ↦ omega (arith, exact, laid.most)
      | inr (over, size) ↦ omega (arith, size)
    ] in
    omega (arith, end, laid.fits, laid.inodes, laid.blocks)

-- The places of a mount's sections, as mkkvfs has laid them out.
pub record IsSpaced (mount : Mount) : Type 0 where
  pub aligned : mount.inode_off % dev_bsize ≡ 0
  pub bitmap : mount.freelist_off + ceil mount.block_count 8 ≤ mount.inode_off
  pub small : mount.inode_off ≤ 2 ^ 32
  pub blocks : mount.inode_off + mount.block_count * sizeof_inode ≤ mount.data_off
  pub data_off : mount.data_off % dev_bsize ≡ 0

module _ {K : Kernel} {byte : K.Dev → ℕ → ℕ} (A : IsByteArray K byte) (R : IsReliable K)
    (disksize : ℕ) (small : disksize < 2 ^ 44) (sb : Superblock) (laid : IsLaidOut disksize sb)
    (fs : Fs K) (store : Store) (sound : IsSound A R sb fs store) where
  pub spaced : IsSpaced fs.mount
  spaced = record {
    aligned = omega (arith, sound.inode_off, laid.aligned);
    bitmap = omega (arith, sound.freelist_off, sound.inode_off, sound.block_count, laid.bitmap);
    small = omega (arith, sound.inode_off, inode_off_small disksize sb small laid);
    blocks = omega (arith, sound.inode_off, sound.data_off, sound.block_count, laid.inodes);
    data_off = omega (arith, sound.data_off, laid.aligned);
  }

  pub sound-IsFreeSlot :
      (n : ℕ)
      → contains (n * sizeof_inode) fs.mount.freelist ≡ true
      → (n < fs.mount.block_count) × IsFreeSlot fs.mount (byte fs.dev) (n * sizeof_inode)
  sound-IsFreeSlot n listed =
      let (inside, free) =
        listed-IsFreelist (byte fs.dev) (byte fs.dev) fs.mount.inode_off fs.mount.block_count n
          fs.mount.freelist sound.freelist listed in
      (
        inside,
        record {
          aligned = spaced.aligned;
          whole = omega arith;
          not_root = λ e. omega arith;
          before_table = omega (arith, spaced.bitmap);
          free = free;
        },
      )

  -- The slot of a file, which is not on the free list.
  pub file_slot :
      (key : Bytes) (ino : ℕ)
      → store key ≡ some ino
      → (n : ℕ) × (ino ≡ n * sizeof_inode)
        × (n < fs.mount.block_count)
        × (contains (n * sizeof_inode) fs.mount.freelist ≡ false)
  file_slot key ino present =
      let (n, at, inside, found) =
        slot_of (table_of A R fs) fs.mount.block_count key ino (sound.holds key) present in
      (
        n,
        at,
        inside,
        elim (Bool-cases (contains (n * sizeof_inode) fs.mount.freelist)) [
          | inl listed ↦
              let missed = free-matches A R fs n (sound-IsFreeSlot n listed).1 inside key in cc
          | inr apart ↦ apart
        ],
      )

  pub sound-IsPlaced :
      (n : ℕ) (knode : Memnode)
      → knode.ino ≡ n * sizeof_inode
      → n < fs.mount.block_count
      → IsLoaded fs.mount knode
      → IsPlaced fs.mount knode
        × (fs.mount.inode_off + fs.mount.block_count * sizeof_inode ≤ knode.lbn * dev_bsize)
  sound-IsPlaced n knode at inside loaded =
      let block : knode.lbn * dev_bsize ≡ fs.mount.data_off + n * 4096 =
        omega (arith, spaced.data_off) in
      (
        record {
          aligned = spaced.aligned;
          whole = omega arith;
          before_table = omega (arith, spaced.bitmap);
          small = spaced.small;
          behind_table = omega (arith, spaced.blocks);
        },
        omega (arith, spaced.blocks),
      )
