-- ===== src/Ddfs/Tests.antt =====
-- The theorems of ddfs at concrete inputs.
pub mod Histories
pub mod Stores
pub mod Waits
pub mod Writes
use embedded_operating_syste.Base.{
  ℕ, ◌+◌, ◌%◌, ◌≡◌, refl, inl, inr, true, none, leb, ◌==◌, ◌&&◌, if◌then◌else◌, Bytes, arith,
}
use embedded_operating_syste.Kvfs.Tests.Ram.{ram, ram_array, ram_reliable}
use embedded_operating_syste.Ddfs.Blockmap.{
  ffs_isblock, ffs_isfreeblock, ffs_clrblock, ffs_setblock,
}
use embedded_operating_syste.Ddfs.Blockmap.Laws.{ffs_setblock_lem, ffs_clrblock_lem}
use embedded_operating_syste.Ddfs.Cluster.{cluster_forw}
use embedded_operating_syste.Ddfs.Cluster.Runs.{cluster-run}
use embedded_operating_syste.Base.{has_bit}
use embedded_operating_syste.Ddfs.Table.{
  DedupFs, by_key, ddtable_locate, ddtable_alloc, ddtable_unref,
}
use embedded_operating_syste.Ddfs.Table.Locate.{Locates, ddtable_locate-Locates}
use embedded_operating_syste.Ddfs.Table.Update.{
  Allocates, ddtable_alloc-Allocates, Unrefs, ddtable_unref-Unrefs,
}

-- A map of bytes 0xf0, with two blocks to a byte.
abbrev map : Bytes
map i = 0xf0

-- A table of two blocks from the second block on, whose entries are free but for the first, which
-- has the key 0, the count 3 and the block 0.
abbrev pub fs : DedupFs
fs = record { fs_dedupfrags = 2; fs_frag = 1; fs_bsize = 4096; fs_ddblkno = 1; fs_fsbtodb = 3 }

abbrev pub disk : ℕ → ℕ
disk a =
    if a == 4096 + 20
    then 16
    else if a == 4096 + 22
    then 3
    else if leb 4096 a && (a % 32 == 20)
    then 1
    else 0

abbrev pub key : Bytes
key i = i
