-- ===== src/Kvfs/Layout/RoundTrip.antt =====
-- The structs on disk: what is written is what is read.
use embedded_operating_syste.Base.{ℕ, ◌+◌, ◌-◌, ◌^◌, ◌<◌, ◌≡◌, Bytes, arith}
use embedded_operating_syste.Kvfs.Bytes.{le, byte_at, le-byte_at}
use embedded_operating_syste.Kvfs.Layout.{
  Inode, encode_inode, decode_inode, Superblock, encode_superblock, decode_superblock,
}

-- The fields fit into their C types.
pub record FitsInode (inode : Inode) : Type 0 where
  pub flags : inode.flags < 2 ^ 16
  pub ref_count : inode.ref_count < 2 ^ 16
  pub timestamp : inode.timestamp < 2 ^ 64

pub record FitsSuperblock (sb : Superblock) : Type 0 where
  pub magicnum : sb.magicnum < 2 ^ 16
  pub superblock_size : sb.superblock_size < 2 ^ 16
  pub freelist_off : sb.freelist_off < 2 ^ 64
  pub inode_off : sb.inode_off < 2 ^ 64
  pub data_off : sb.data_off < 2 ^ 64
  pub block_count : sb.block_count < 2 ^ 32
  pub flags : sb.flags < 2 ^ 64
  pub fs_size : sb.fs_size < 2 ^ 64

-- An inode whose fields fit their types is read back from memory that holds its 32 bytes: the 20
-- bytes of the key, the flags, the reference count and the time stamp.
pub decode_inode-encode_inode :
    (inode : Inode) (p : Bytes)
    → FitsInode inode
    → ((i : ℕ) → i < 32 → p i ≡ encode_inode inode i)
    → let r = decode_inode p in
      ((i : ℕ) → i < 20 → r.key i ≡ inode.key i)
      × (r.flags ≡ inode.flags)
      × (r.ref_count ≡ inode.ref_count)
      × (r.timestamp ≡ inode.timestamp)
unfolding decode_inode encode_inode
decode_inode-encode_inode inode p fits e = (
  λ i lt. ground (arith, e i),
  le-byte_at 2 inode.flags p 20 (omega arith)
      (λ k lt. let s : 20 + k - 20 ≡ k = omega arith in ground (arith, e (20 + k))),
  le-byte_at 2 inode.ref_count p 22 (omega arith)
      (λ k lt. let s : 22 + k - 22 ≡ k = omega arith in ground (arith, e (22 + k))),
  le-byte_at 8 inode.timestamp p 24 (omega arith)
      (λ k lt. let s : 24 + k - 24 ≡ k = omega arith in ground (arith, e (24 + k))),
)

-- A superblock whose fields fit their types is read back, field by field, from memory that holds
-- its 48 bytes.
pub decode_superblock-encode_superblock :
    (sb : Superblock) (p : Bytes)
    → FitsSuperblock sb
    → ((i : ℕ) → i < 48 → p i ≡ encode_superblock sb i)
    → decode_superblock p ≡ sb
unfolding decode_superblock encode_superblock
decode_superblock-encode_superblock sb p fits e =
    let read : (n v o : ℕ)
        → v < 256 ^ n
        → ((k : ℕ) → k < n → p (o + k) ≡ byte_at v k)
        → le n p o ≡ v =
      λ n v o h q. le-byte_at n v p o h q in
    ground (
      arith,
      read 2 sb.magicnum 0 (omega arith)
          (λ k lt. let s : 0 + k ≡ k = omega arith in ground (arith, e k)),
      read 2 sb.superblock_size 2 (omega arith)
          (λ k lt. let s : 2 + k - 2 ≡ k = omega arith in ground (arith, e (2 + k))),
      read 8 sb.freelist_off 4 (omega arith)
          (λ k lt. let s : 4 + k - 4 ≡ k = omega arith in ground (arith, e (4 + k))),
      read 8 sb.inode_off 12 (omega arith)
          (λ k lt. let s : 12 + k - 12 ≡ k = omega arith in ground (arith, e (12 + k))),
      read 8 sb.data_off 20 (omega arith)
          (λ k lt. let s : 20 + k - 20 ≡ k = omega arith in ground (arith, e (20 + k))),
      read 4 sb.block_count 28 (omega arith)
          (λ k lt. let s : 28 + k - 28 ≡ k = omega arith in ground (arith, e (28 + k))),
      read 8 sb.flags 32 (omega arith)
          (λ k lt. let s : 32 + k - 32 ≡ k = omega arith in ground (arith, e (32 + k))),
      read 8 sb.fs_size 40 (omega arith)
          (λ k lt. let s : 40 + k - 40 ≡ k = omega arith in ground (arith, e (40 + k))),
    )
