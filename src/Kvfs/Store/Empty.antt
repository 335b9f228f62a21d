-- ===== src/Kvfs/Store/Empty.antt =====
-- From mkkvfs to a mounted file system: what `kvfs_mount` makes of a disk that was formatted.
use embedded_operating_syste.Kvfs.Mkfs.Main.{mkfs_inode}
use embedded_operating_syste.Kvfs.Vnops.{empty_inode}
use embedded_operating_syste.Kvfs.Vnops.Create.{IsFreeSlot, table_of, table_byte}
use embedded_operating_syste.Kvfs.Vnops.Remove.Table.{matches_empty, empty-flag}
use embedded_operating_syste.Base.{
  ℕ, zero, suc, ◌+◌, ◌-◌, ◌*◌, ◌/◌, ◌%◌, ◌^◌, ◌≤◌, ◌<◌, ◌≡◌, refl, true, false, none, some, List,
  [], ◌∷◌, length, Bytes, has_bit, arith, ap, ◌∙◌,
}
use embedded_operating_syste.Kvfs.Kernel.{Kernel, Fs, IsByteArray, IsReliable}
use embedded_operating_syste.Kvfs.Layout.{
  Superblock, Mount, decode_superblock, blocksize, btodb, pad, sizeof_inode, kvfs_superblock_magic,
}
use embedded_operating_syste.Kvfs.Layout.RoundTrip.{
  FitsSuperblock, decode_superblock-encode_superblock,
}
use embedded_operating_syste.Kvfs.Mkfs.Layout.{IsLaidOut}
use embedded_operating_syste.Kvfs.Mkfs.Main.Formatted.{IsFormatted}
use embedded_operating_syste.Kvfs.Store.{Holds, nowhere}
use embedded_operating_syste.Kvfs.Vfsops.Mount.{
  MountCalls, Held, all_held, nothing_held, mount_of, mount_device, kvfs_mount, freelist_bytes,
}
use embedded_operating_syste.Kvfs.Vfsops.Mount.Freelist.{clear_msb, freelist_loop-clear_msb}
use embedded_operating_syste.Base.{eq→==}
use embedded_operating_syste.Kvfs.Layout.{encode_inode}

-- The kernel finds the device, and grants it.
pub record IsGranted (calls : MountCalls) : Type 0 where
  pub fresh : calls.mnt_update ≡ false
  pub options : calls.getopt_error ≡ 0
  pub path : calls.namei_error ≡ 0
  pub disk : calls.is_disk ≡ true
  pub claimed : calls.claimed ≡ true
  pub opened : calls.g_vfs_open_error ≡ 0

-- Every slot of the table, the last one first.
abbrev pub all_slots : ℕ → List ℕ
all_slots zero = []
all_slots (suc k) = (k * sizeof_inode) ∷ all_slots k

length-all_slots : (k : ℕ) → length (all_slots k) ≡ k
length-all_slots zero = refl
length-all_slots (suc k) = ap suc (length-all_slots k)

zero_has_bit : (i : ℕ) → has_bit 0 i ≡ false
unfolding has_bit
zero_has_bit zero = refl
zero_has_bit (suc i) = zero_has_bit i

clear_msb-all_slots :
    (bits : Bytes) (k : ℕ) → ((i : ℕ) → i * 8 < k → bits i ≡ 0) → clear_msb bits k ≡ all_slots k
unfolding clear_msb
clear_msb-all_slots bits zero clear = refl
clear_msb-all_slots bits (suc k) clear =
    rw
      (
        clear (k / 8) (omega arith),
        zero_has_bit (7 - k % 8),
        clear_msb-all_slots bits k (λ i lt. clear i (omega arith)),
      )
      refl

-- What mkkvfs writes fits the fields of the superblock.
laid-FitsSuperblock :
    (disksize : ℕ) (sb : Superblock) → disksize < 2 ^ 44 → IsLaidOut disksize sb → FitsSuperblock sb
laid-FitsSuperblock disksize sb small laid = record {
  magicnum = omega (arith, laid.magicnum);
  superblock_size = omega (arith, laid.superblock_size);
  freelist_off = omega (arith, laid.freelist_off);
  inode_off = omega (arith, laid.inodes, laid.blocks, laid.size, laid.fits);
  data_off = omega (arith, laid.blocks, laid.size, laid.fits);
  block_count = omega (arith, laid.fits);
  flags = omega (arith, laid.flags);
  fs_size = omega (arith, laid.size, laid.fits);
}

-- The mount of a new file system, where every slot is free.
abbrev pub fresh_mount : Superblock → Mount
fresh_mount sb =
    mount_of sb (record { freelist = all_slots sb.block_count; freelist_count = sb.block_count })

module _ {K : Kernel} {byte : K.Dev → ℕ → ℕ} (A : IsByteArray K byte) (R : IsReliable K)
    (disksize : ℕ) (small : disksize < 2 ^ 44) (sb : Superblock) (laid : IsLaidOut disksize sb)
    (dev : K.Dev) (formatted : IsFormatted (byte dev) sb) where
  read_superblock : decode_superblock (K.bread dev 0 blocksize).1.b_data ≡ sb
  read_superblock =
      decode_superblock-encode_superblock sb (K.bread dev 0 blocksize).1.b_data
        (laid-FitsSuperblock disksize sb small laid)
        (λ i lt.
          A.bread_data dev 0 blocksize i (R.bread_ok dev 0 blocksize) (omega arith)
          ∙ ap (byte dev) (omega arith)
          ∙ formatted.superblock i lt)

  mount_device-fresh :
      (held : Held)
      → sb.block_count ≤ 2 ^ 31
      → mount_device K dev held ≡ (0, some (fresh_mount sb), held)
  unfolding mount_device
  mount_device-fresh held few =
      let count = freelist_bytes sb.block_count in
      let bits = (K.bread dev (btodb sb.freelist_off) (pad count)).1.b_data in
      let (slots, number) = freelist_loop-clear_msb bits sb.block_count few in
      let clear = clear_msb-all_slots bits sb.block_count (λ i lt.
        A.bread_data dev (btodb sb.freelist_off) (pad count) i
          (R.bread_ok dev (btodb sb.freelist_off) (pad count)) (omega arith)
        ∙ formatted.bitmap (btodb sb.freelist_off * 512 + i) (omega (arith, laid.freelist_off))
            (omega (arith, laid.freelist_off, laid.bitmap))) in
      rw
        (
          R.bread_ok dev 0 blocksize,
          read_superblock,
          eq→== sb.magicnum kvfs_superblock_magic laid.magicnum,
          R.bread_ok dev (btodb sb.freelist_off) (pad count),
          slots,
          number,
          clear,
          length-all_slots sb.block_count,
        )
        refl

  -- The bytes of an inode, on the device.
  inode_byte :
      (n i : ℕ)
      → n < sb.block_count
      → i < sizeof_inode
      → byte dev (sb.inode_off + (n * sizeof_inode + i)) ≡ encode_inode empty_inode i
  unfolding mkfs_inode empty_inode
  inode_byte n i inside lt =
      let at : (sb.inode_off + (n * sizeof_inode + i) - sb.inode_off) % sizeof_inode ≡ i =
        omega arith in
      formatted.inodes (sb.inode_off + (n * sizeof_inode + i)) (omega arith)
        (omega (arith, laid.inodes))
      ∙ ap (encode_inode mkfs_inode) at

  -- Every slot of the new file system is free to be made a file.
  pub fresh-IsFreeSlot :
      (n : ℕ) → n < sb.block_count → IsFreeSlot (fresh_mount sb) (byte dev) (n * sizeof_inode)
  fresh-IsFreeSlot n inside =
      let loc = sb.inode_off + n * sizeof_inode in
      let read : (i : ℕ) → i < sizeof_inode → byte dev (loc + i) ≡ encode_inode empty_inode i =
        λ i lt. ap (byte dev) (omega arith) ∙ inode_byte n i inside lt in
      record {
        aligned = omega (arith, laid.aligned);
        whole = omega arith;
        not_root = λ e. omega arith;
        before_table = omega (arith, laid.bitmap);
        free = empty-flag (byte dev) loc read;
      }

  -- The table of the new file system holds no key.
  pub fresh-Holds :
      (fs : Fs K)
      → fs.dev ≡ dev
      → fs.mount ≡ fresh_mount sb
      → Holds (table_of A R fs) fs.mount.block_count (λ key. none)
  fresh-Holds fs at mounted key =
      let count : fs.mount.block_count ≡ sb.block_count = ap (λ m. m.block_count) mounted in
      let start : fs.mount.inode_off ≡ sb.inode_off = ap (λ m. m.inode_off) mounted in
      nowhere (λ m lt. matches_empty (table_of A R fs) key m (λ i small.
        table_byte A R fs m i (rw start (omega (arith, laid.aligned))) lt small
        ∙ rw (at, start) (inode_byte m i (rw count at lt) small)))

  -- `kvfs_mount`, when the kernel grants all that it asks for, of a device that mkkvfs has
  -- formatted with up to 2 ^ 31 blocks: it returns 0 with every slot on its free list, lets each of them be
  -- made a file, and its table holds the store without a key.
  pub kvfs_mount-IsFormatted :
      (calls : MountCalls)
      → IsGranted calls
      → sb.block_count ≤ 2 ^ 31
      → (kvfs_mount K calls dev ≡ (0, some (fresh_mount sb), all_held))
        × ((n : ℕ) → n < sb.block_count → IsFreeSlot (fresh_mount sb) (byte dev) (n * sizeof_inode))
        × ((fs : Fs K)
            → fs.dev ≡ dev
            → fs.mount ≡ fresh_mount sb
            → Holds (table_of A R fs) fs.mount.block_count (λ key. none))
  unfolding kvfs_mount all_held nothing_held
  kvfs_mount-IsFormatted calls granted few = (
    rw
        (
          kvfs_mount, granted.fresh, granted.options, granted.path, granted.disk, granted.claimed,
          granted.opened,
        )
        (mount_device-fresh all_held few),
    fresh-IsFreeSlot,
    fresh-Holds,
  )
