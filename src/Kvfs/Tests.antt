-- ===== src/Kvfs/Tests.antt =====
-- The theorems of kvfs at concrete inputs, on a kernel in memory.
pub mod Histories
pub mod Making
pub mod Ram
pub mod Stores
use embedded_operating_syste.Base.{
  ℕ, ap, ◌/◌, ◌≤◌, ◌+◌, ◌-◌, ◌*◌, ◌%◌, ◌^◌, ◌<◌, ◌≡◌, refl, Bool, true, false, ◌&&◌, Option, none,
  some, List, [], ◌∷◌, ◌++◌, Bytes, zeroes, memcpy, min, arith, if◌then◌else◌, ltb, leb, ◌==◌,
  has_bit, set_bit, all_below, length,
}
use Ram.{ram, ram_array, ram_reliable, disk, mount, fs, name, cnp, name_valid, gives, slot}
use embedded_operating_syste.Codec.{hexdigit_kvfs, str_to_key}
use embedded_operating_syste.Kvfs.Bytes.{le, byte_at}
use embedded_operating_syste.Kvfs.Counted.{Step, Reach, here, next, create, Reach-IsCounted}
use embedded_operating_syste.Kvfs.Kernel.{Fs, vreg, vdir, einval}
use embedded_operating_syste.Kvfs.Layout.{
  Inode, Memnode, Mount, Superblock, decode_inode, encode_inode, decode_superblock,
  encode_superblock, sizeof_inode,
}
use embedded_operating_syste.Kvfs.Layout.RoundTrip.{
  FitsInode, FitsSuperblock, decode_inode-encode_inode, decode_superblock-encode_superblock,
}
use embedded_operating_syste.Kvfs.Mkfs.{
  init_superblock, format, superblock, bitmap, inodes, zero_block,
}
use embedded_operating_syste.Kvfs.Mkfs.Format.{copies, format-copies}
use embedded_operating_syste.Kvfs.Mkfs.Layout.{Formats, IsLaidOut, init_superblock-IsLaidOut}
use embedded_operating_syste.Kvfs.Mkfs.Writebuf.{
  writebuf, writing, writebuf_short, writebuf_whole, returned,
}
use embedded_operating_syste.Kvfs.Remount.{remounted, kvfs_create-remounted}
use embedded_operating_syste.Kvfs.Time.{
  Timespec, uint64_to_timespec, timespec_to_uint64, timespec_to_uint64-uint64_to_timespec,
  uint64_to_timespec-timespec_to_uint64,
}
use embedded_operating_syste.Kvfs.Vfsops.Mount.{
  MountCalls, Found, freelist_loop, kvfs_unmount, kvfs_statfs, nothing_held, all_held, mount_device,
  mask_loop,
}
use embedded_operating_syste.Kvfs.Vfsops.Mount.Freelist.{contains, freelist_loop-clear_msb}
use embedded_operating_syste.Kvfs.Vfsops.Mount.Resources.{kvfs_statfs_adds_up}
use embedded_operating_syste.Kvfs.Vnops.{kvfs_create, kvfs_remove, lookup_loop}
use embedded_operating_syste.Kvfs.Vnops.Create.{kvfs_create_new, table_of}
use embedded_operating_syste.Kvfs.Vnops.Create.Found.{lookup_loop-kvfs_create}
use embedded_operating_syste.Kvfs.Vnops.Directory.{DirOut, DirUio, kvfs_readdir}
use embedded_operating_syste.Kvfs.Vnops.Directory.Listing.{
  MovesDirents, sizes, in_use, kvfs_readdir-listed,
}
use embedded_operating_syste.Kvfs.Vnops.Data.{
  Uio, Uiomove, Transfers, advance, returns, overflow, kvfs_read, kvfs_write,
}
use embedded_operating_syste.Kvfs.Vnops.Data.Read.{Reads, kvfs_read-Repeats}
use embedded_operating_syste.Kvfs.Vnops.Data.RoundTrip.{kvfs_read-kvfs_write}
use embedded_operating_syste.Kvfs.Vnops.Data.Write.{kvfs_write_fits, kvfs_write_overflow}
use embedded_operating_syste.Kvfs.Vnops.Lookup.{Finds, lookup_loop-Finds}
use embedded_operating_syste.Kvfs.Vnops.Remove.{IsPlaced, kvfs_remove_lem}

abbrev inode : Inode
inode = record { key = λ i. i + 1; flags = 16; ref_count = 1; timestamp = 1_600_000_000_000 }

fits_inode : FitsInode inode
fits_inode = record { flags = omega arith; ref_count = omega arith; timestamp = omega arith }

abbrev made : Superblock
made = record {
  magicnum = 0x666f;
  superblock_size = 48;
  freelist_off = 4096;
  inode_off = 8192;
  data_off = 12288;
  block_count = 16;
  flags = 0;
  fs_size = 77824;
}

fits_superblock : FitsSuperblock made
fits_superblock = record {
  magicnum = omega arith;
  superblock_size = omega arith;
  freelist_off = omega arith;
  inode_off = omega arith;
  data_off = omega arith;
  block_count = omega arith;
  flags = omega arith;
  fs_size = omega arith;
}

decode_superblock-encode_superblock_example : decode_superblock (encode_superblock made) ≡ made
decode_superblock-encode_superblock_example =
    decode_superblock-encode_superblock made (encode_superblock made) fits_superblock (λ i lt. refl)

-- Files are made, found and removed.
kvfs_create_new_example : (kvfs_create ram cnp fs).0 ≡ 0
kvfs_create_new_example =
    (kvfs_create_new ram_array ram_reliable cnp fs refl gives slot name_valid).0

kvfs_create-remounted_example :
    contains (15 * sizeof_inode) (remounted ram mount (kvfs_create ram cnp fs).2.dev) ≡ true
kvfs_create-remounted_example =
    kvfs_create-remounted ram_array ram_reliable 15 cnp fs refl (omega arith) (omega arith) refl
      gives slot name_valid (unfold has_bit in refl)

abbrev knode : Memnode
knode = record { inode = inode; ino = 3 * sizeof_inode; lbn = 48 }

placed : IsPlaced mount knode
placed = record {
  aligned = refl;
  whole = refl;
  before_table = omega arith;
  small = omega arith;
  behind_table = omega arith;
}

kvfs_remove_lem_example : (kvfs_remove ram 5 knode fs).0 ≡ 0
kvfs_remove_lem_example = (kvfs_remove_lem ram_array ram_reliable 5 knode fs placed).0

Reach-IsCounted_example :
    let fs' = (kvfs_create ram cnp fs).2 in
    fs'.mount.freelist_count ≡ length fs'.mount.freelist % 2 ^ 32
Reach-IsCounted_example = Reach-IsCounted refl (next here (create cnp fs))

-- Data of files.
abbrev uiomove : Uiomove
uiomove = record {
  to_user = λ p n uio. (
    0,
    record (advance (min n uio.uio_resid) uio) {
      user = memcpy uio.user uio.pos p (min n uio.uio_resid);
    },
  );
  from_user = λ n uio. (0, λ i. uio.user (uio.pos + i), advance (min n uio.uio_resid) uio);
}

transfers : Transfers uiomove
transfers = record {
  to_user_lem = λ p n uio. refl;
  from_user_error = λ n uio. refl;
  from_user_bytes = λ n uio i lt. refl;
  from_user_uio = λ n uio. refl;
}

-- 6000 bytes from offset 100 on, and 200 bytes.
abbrev large : Uio
large = record { uio_resid = 6000; uio_offset = 100; user = λ i. i % 251; pos = 0 }

abbrev small : Uio
small = record { uio_resid = 200; uio_offset = 100; user = λ i. i % 251; pos = 0 }

kvfs_read-Repeats_example :
    Reads
      (λ after.
        (after.uio_resid ≡ 0)
        × ((i : ℕ) → i < 6000 → after.user (0 + i) ≡ disk (48 * 512 + i % 4096)))
      (kvfs_read uiomove ram vreg knode large fs)
kvfs_read-Repeats_example =
    kvfs_read-Repeats knode large fs transfers ram_array ram_reliable (omega arith) (omega arith)
      (omega arith)

kvfs_write_fits_example :
    (dev : ℕ → ℕ) × (kvfs_write uiomove ram vreg knode false small fs
      ≡ returns (0, advance 200 small, record fs { dev = dev }))
    × ((a : ℕ)
        → dev a ≡ (
            if leb (48 * 512 + 100) a && ltb a (48 * 512 + 100 + 200)
            then (0 + (a - (48 * 512 + 100))) % 251
            else disk a))
kvfs_write_fits_example =
    kvfs_write_fits knode small fs transfers ram_array ram_reliable (omega arith) (omega arith)

abbrev from : Uio
from = record { uio_resid = 200; uio_offset = 0; user = λ i. i % 251; pos = 7 }

abbrev to : Uio
to = record { uio_resid = 150; uio_offset = 0; user = λ i. 0; pos = 0 }

kvfs_read-kvfs_write_example :
    (dev : ℕ → ℕ) × (kvfs_write uiomove ram vreg knode false from fs
      ≡ returns (0, advance 200 from, record fs { dev = dev }))
    × Reads
        (λ after. (after.uio_resid ≡ 0) × ((i : ℕ) → i < 150 → after.user (0 + i) ≡ (7 + i) % 251))
        (kvfs_read uiomove ram vreg knode to (record fs { dev = dev }))
kvfs_read-kvfs_write_example =
    kvfs_read-kvfs_write knode from to fs transfers ram_array ram_reliable refl (omega arith)
      (omega arith) (omega arith) (omega arith)

kvfs_write_overflow_example : kvfs_write uiomove ram vreg knode false large fs ≡ overflow
kvfs_write_overflow_example =
    kvfs_write_overflow knode large fs transfers ram_array ram_reliable (omega arith) (omega arith)
      (omega arith)

-- A disk with a superblock, and its mount.
abbrev formatted : ℕ → ℕ
formatted a = if ltb a 48 then encode_superblock made a else if a == 4096 then 0x80 else 0

abbrev calls : MountCalls
calls = record {
  mnt_update = false;
  getopt_error = 0;
  namei_error = 0;
  is_disk = true;
  disk_error = 15;
  claimed = true;
  g_vfs_open_error = 0;
}

freelist_loop-clear_msb_example :
    (freelist_loop 2 0 (λ i. 0xfe) 16 (record { freelist = []; freelist_count = 0 })).freelist
    ≡ 480 ∷ 224 ∷ []
unfolding embedded_operating_syste.Kvfs.Vfsops.Mount.Freelist.clear_msb freelist_loop has_bit
freelist_loop-clear_msb_example = (freelist_loop-clear_msb (λ i. 0xfe) 16 (omega arith)).0

-- Formatting.
init_superblock-IsLaidOut_example : Formats (IsLaidOut 1_048_576) (init_superblock 1_048_576)
init_superblock-IsLaidOut_example = init_superblock-IsLaidOut 1_048_576 (omega arith) (omega arith)

writebuf_short_example : writebuf (some 1000 ∷ some 3096 ∷ some 1000 ∷ []) 4096 ≡ writing
writebuf_short_example =
    writebuf_short 1000 (3096 ∷ 1000 ∷ []) 4096 (omega arith) (omega arith)
      (omega arith, omega arith, (omega arith, omega arith, tt))

-- A directory of no file.
abbrev dir_out : DirOut
dir_out = record {
  generic_dirlen = λ len. (24 + len + 1 + 7) / 8 * 8;
  uiomove = λ d n uio. (
    0,
    record {
      uio_resid = uio.uio_resid - n;
      uio_offset = uio.uio_offset + n;
      written = uio.written ++ d ∷ [];
    },
  );
}

moves_dirents : MovesDirents dir_out
moves_dirents = record { moved = λ d n uio fits. refl }

room :
    let table = table_of ram_array ram_reliable fs in
    32 + 32 + sizes dir_out (in_use table 16 0) ≤ 512
unfolding decode_inode le has_bit
room = omega arith

kvfs_readdir-listed_example :
    (kvfs_readdir dir_out ram true vdir
      (record { uio_resid = 512; uio_offset = 0; written = [] })
      fs).0
    ≡ 0
kvfs_readdir-listed_example =
    ap (λ r. r.0)
      (kvfs_readdir-listed dir_out 512 [] fs moves_dirents ram_reliable (omega arith) room)
