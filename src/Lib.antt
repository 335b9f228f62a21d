-- ===== src/Lib.antt =====
-- A verification library of two file systems for the FreeBSD kernel: kvfs, a flat key-value file
-- system (key-value-fs), and the parts of ddfs, a deduplicating FFS (deduplicating-fs), that are
-- its own; and of a shell (simple-shell-c).
--
-- kvfs keeps files of one block of 4096 bytes, named by a key of 160 bits in 40 hexadecimal
-- digits. The disk has a superblock, a bitmap, a table of inodes and the blocks, each on block
-- boundaries; inode and block `n` belong together, and bit `n` of the bitmap says whether they
-- are in use. A mount reads the bitmap into a free list. The vnode operations change the free
-- list, the disk and the kernel's vnodes.
--
-- The modules:
-- - Base: names from the libraries; Boolean tests and lists over the native numbers; memory as
--   functions from addresses, `memcpy` and `memcmp`; bits of a number.
-- - Codec: key-value-fs/src/kvfs_util.c and deduplicating-fs/src/ddfs_util.c, `hexdigit`,
--   `digithex`, `str_to_key`, `key_to_str`. The two files differ in `hexdigit` alone.
-- - Kvfs.Time: `uint64_to_timespec`, `timespec_to_uint64` of kvfs_util.c.
-- - Kvfs.Layout: key-value-fs/src/kvfs.h, the packed structs as little-endian bytes, the macros.
-- - Kvfs.Kernel: the calls of the kernel as a record: buffer cache (`bread`, `getblk`, `bwrite`),
--   vnode layer (`vfs_hash_get`, `getnewvnode`, `vput`, ...), clock. `Fs` is the state: device,
--   vnode layer, mount, the vnodes' fields. `IsByteArray` and `IsReliable` are what the buffer
--   cache documents for a device that works.
-- - Kvfs.Vfsops: key-value-fs/src/kvfs_vfsops.c, `kvfs_vget_internal` in three stages; Mount has
--   `kvfs_mount`, `kvfs_unmount`, `kvfs_statfs`. `Held` says what a mount holds of the kernel.
-- - Kvfs.Vnops: key-value-fs/src/kvfs_vnops.c, an operation each for a handler; Data has
--   `kvfs_read` and `kvfs_write` over `uiomove`, Directory has `kvfs_readdir`.
-- - Kvfs.Mkfs: key-value-fs/tools/mkkvfs.c, `init_superblock`, the blocks that `main` writes,
--   `writebuf`; Main has `main` over the calls of the system, and the disk that it leaves.
-- - Kvfs.Remount: create and mount together. Kvfs.Counted: all sequences of operations.
-- - Ddfs.Table: deduplicating-fs/src/ddfs_util.c, the table on disk that maps the hash of a block
--   to the block and the number of its users: `ddtable_locate`, `ddtable_alloc`, `ddtable_unref`,
--   over the same buffer cache. Store has the table as a map from keys to blocks and counts;
--   Entries, Alloc and Unref connect the bytes with it.
-- - Ddfs.Write: what ddfs adds to deduplicating-fs/src/ddfs_vnops.c, `ffs_write` (`dedup_block`,
--   `write_block`), and to deduplicating-fs/src/ddfs_alloc.c, `ffs_blkfree`. The freeing of the FFS
--   and the hash are arguments. Waits is about the buffers that stay locked.
-- - Ddfs.Ffswrite: `ffs_write` around it, its guards, its loop over the blocks and what is behind
--   the loop; the calls of the FFS are a record. Accounts is about its end and its `uio`, Whole
--   about the write of one whole block.
-- - Ddfs.History: all sequences of writes and releases of blocks, with the users of each block.
-- - Ddfs.Newfs: what ddfs adds to deduplicating-fs/tools/newfs-ddfs/mkfs.c, the place of the table
--   and its first content.
-- - Ddfs.Blockmap: deduplicating-fs/src/ddfs_subr.c, `ffs_isblock`, `ffs_isfreeblock`,
--   `ffs_clrblock`, `ffs_setblock`. Ddfs.Cluster: `ffs_clusteracct` of the same file.
-- - Kvfs.Store: kvfs as a map from keys to files. A table of inodes holds a store; lookup, create,
--   remove and rename are its reading and its changes at a key. Empty is the mount of a new disk,
--   History all sequences of these operations on it.
-- - Shell: simple-shell-c/myshell.c. `line` is a round of its loop, `child` what the forked process
--   does, as a list of calls; the system is an interface. Words has the strings.
--   Removal, Commands, Lines, Flags and Echo are about the loop that takes the operators out of
--   `args`, the parse, whole lines, the flags and the quoted echo.
-- - Kvfs.Tests, Codec.Tests, Ddfs.Tests, Shell.Tests: the theorems at concrete inputs, on a
--   kernel in memory and a system that records the calls.
--
-- Errors are errno numbers, with 0 for success, as in the source. Unsigned integers of w bits
-- wrap modulo 2 ^ w where the code computes in them, and so do the `int`s that count blocks, as
-- bit patterns, which `int_to_size` extends by their sign; sizes and offsets on disk are far below the
-- bounds of `off_t`, and are natural numbers. `int8_t` is its bit pattern.
--
-- The loops of read, write, `init_superblock` and `writebuf` run on fuel: one round more than the
-- bytes left to move (`ffs_write` needs no more), `rounds` for the search, where each round lowers `delta` or adds to
-- `blocks`, and any round at all for a block that the disk takes at once. The theorems about them
-- show a result, so the fuel is enough. The loops of the shell over `args` run on fuel for each
-- word of the line, which their theorems ask for. All other loops are by recursion on the rounds
-- that are left.
--
-- Not modelled: printing, the memory of the kernel's allocators, concurrency within an operation
-- (the kernel's locks serialise them), and of ddfs the buffers
-- of the table that stay locked behind the write that locked them, and what FreeBSD's FFS has (allocation, soft updates, snapshots, mounting), and the scanner of the shell.
pub mod Base
pub mod Codec
pub mod Ddfs
pub mod Kvfs
pub mod Shell
