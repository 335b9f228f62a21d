-- ===== src/Kvfs/Layout.antt =====
-- The constants, macros and structs of key-value-fs/src/kvfs.h.
pub mod RoundTrip
use embedded_operating_syste.Base.{
  ℕ, ◌+◌, ◌-◌, ◌*◌, ◌/◌, ◌%◌, ◌^◌, ◌<◌, ◌≡◌, arith, ltb, if◌then◌else◌, Bytes, offset, List,
}
use embedded_operating_syste.Kvfs.Bytes.{le, byte_at}

abbrev pub blocksize : ℕ
blocksize = 4096

-- DEV_BSIZE, the size of a disk sector
abbrev pub dev_bsize : ℕ
dev_bsize = 512

abbrev pub kvfs_key_strlen : ℕ
kvfs_key_strlen = 40

abbrev pub kvfs_superblock_magic : ℕ
kvfs_superblock_magic = 0x666F

abbrev pub kvfs_root_ino : ℕ
kvfs_root_ino = 0x800000008

-- KVFS_INODE_ACTIVE 0x0001 and KVFS_INODE_FREE 0x0002 are bits 0 and 1 of the flags.
abbrev pub kvfs_inode_active : ℕ
kvfs_inode_active = 0

abbrev pub kvfs_inode_free : ℕ
kvfs_inode_free = 1

-- sizeof(struct kvfs_inode) and sizeof(struct kvfs_superblock), which are packed
abbrev pub sizeof_inode : ℕ
sizeof_inode = 32

abbrev pub sizeof_superblock : ℕ
sizeof_superblock = 48

pub record Superblock : Type 0 where
  pub magicnum : ℕ
  pub superblock_size : ℕ
  pub freelist_off : ℕ
  pub inode_off : ℕ
  pub data_off : ℕ
  pub block_count : ℕ
  pub flags : ℕ
  pub fs_size : ℕ

pub record Inode : Type 0 where
  pub key : Bytes
  pub flags : ℕ
  pub ref_count : ℕ
  pub timestamp : ℕ

-- `ino` is the byte offset of the inode in the table, `lbn` the sector of its data.
pub record Memnode : Type 0 where
  pub ino : ℕ
  pub lbn : ℕ
  pub inode : Inode

-- `freelist` is the list at `freelist_head`, each entry its `ino`; the handles of the kernel
-- (mount, GEOM consumer, device) are not kept.
pub record Mount : Type 0 where
  pub freelist_off : ℕ
  pub inode_off : ℕ
  pub data_off : ℕ
  pub block_count : ℕ
  pub flags : ℕ
  pub freelist : List ℕ
  pub freelist_count : ℕ

abbrev pub ceil : ℕ → ℕ → ℕ
ceil a b = (a + b - 1) / b

abbrev pub pad : ℕ → ℕ
pad bc = ceil bc blocksize * blocksize

-- A 32-bit `int`, as its bit pattern, converted to `size_t`.
unfoldable pub int_to_size : ℕ → ℕ
int_to_size x =
    let pattern = x % 2 ^ 32 in
    if ltb pattern (2 ^ 31) then pattern else pattern + (2 ^ 64 - 2 ^ 32)

pub int_to_size_small : (x : ℕ) → x < 2 ^ 31 → int_to_size x ≡ x
unfolding int_to_size
int_to_size_small x small = ground (arith, small)

-- Where inode `i` is in the table, `i * sizeof(struct kvfs_inode)` for an `int` of `i`.
unfoldable pub inode_idx : ℕ → ℕ
inode_idx i = int_to_size i * sizeof_inode % 2 ^ 64

pub inode_idx_small : (i : ℕ) → i < 2 ^ 31 → inode_idx i ≡ i * sizeof_inode
unfolding inode_idx
inode_idx_small i small = rw (int_to_size_small i small) (omega arith)

abbrev pub btodb : ℕ → ℕ
btodb bytes = bytes / dev_bsize

abbrev pub ino_to_blocknum : ℕ → ℕ
ino_to_blocknum ino = ino / sizeof_inode * blocksize

abbrev pub ino_to_free_byte : ℕ → ℕ → ℕ
ino_to_free_byte ino freelist_off = ino / sizeof_inode / 8 + freelist_off

-- INO_TO_FREE_BIT_MASK(ino) is `1 << ino_to_free_bit ino`.
abbrev pub ino_to_free_bit : ℕ → ℕ
ino_to_free_bit ino = ino / sizeof_inode % 8

-- The memory of a packed struct, and the struct that `memcpy` makes of memory.
unfoldable pub encode_inode : Inode → Bytes
encode_inode inode i =
    if ltb i 20
    then inode.key i
    else if ltb i 22
    then byte_at inode.flags (i - 20)
    else if ltb i 24
    then byte_at inode.ref_count (i - 22)
    else byte_at inode.timestamp (i - 24)

unfoldable pub decode_inode : Bytes → Inode
decode_inode p = record { key = p; flags = le 2 p 20; ref_count = le 2 p 22; timestamp = le 8 p 24 }

unfoldable pub encode_superblock : Superblock → Bytes
encode_superblock sb i =
    if ltb i 2
    then byte_at sb.magicnum i
    else if ltb i 4
    then byte_at sb.superblock_size (i - 2)
    else if ltb i 12
    then byte_at sb.freelist_off (i - 4)
    else if ltb i 20
    then byte_at sb.inode_off (i - 12)
    else if ltb i 28
    then byte_at sb.data_off (i - 20)
    else if ltb i 32
    then byte_at sb.block_count (i - 28)
    else if ltb i 40
    then byte_at sb.flags (i - 32)
    else byte_at sb.fs_size (i - 40)

unfoldable pub decode_superblock : Bytes → Superblock
decode_superblock p = record {
  magicnum = le 2 p 0;
  superblock_size = le 2 p 2;
  freelist_off = le 8 p 4;
  inode_off = le 8 p 12;
  data_off = le 8 p 20;
  block_count = le 4 p 28;
  flags = le 8 p 32;
  fs_size = le 8 p 40;
}
