-- ===== src/Ddfs/Tests/Writes.antt =====
-- `ffs_write` at a concrete input: a file of which block 3 is written.
use embedded_operating_syste.Base.{ℕ, refl, true, false, List, [], zeroes, arith}
use embedded_operating_syste.Kvfs.Tests.Ram.{ram, ram_array, ram_reliable}
use embedded_operating_syste.Ddfs.Ffswrite.{Uio, IoFlags, BlockBuf, State, Calls, ffs_write}
use embedded_operating_syste.Ddfs.Ffswrite.Accounts.{Accounts}
use embedded_operating_syste.Ddfs.Ffswrite.Whole.{IsWhole, IsStored, ffs_write-IsStored}
use embedded_operating_syste.Ddfs.Tests.Stores
use embedded_operating_syste.Ddfs.Tests.Stores.{
  store, laid, disk_small, disk-Holds, can_count, new_block, unlocked_zeroes,
}
use embedded_operating_syste.Ddfs.Tests.{fs, disk}
use embedded_operating_syste.Ddfs.Tests.Histories.{blank, freeing, file}
use embedded_operating_syste.Base.{if◌then◌else◌}
use embedded_operating_syste.Base.{ltb}
use embedded_operating_syste.Base.{◌+◌}
use embedded_operating_syste.Base.{◌*◌}
use embedded_operating_syste.Base.{◌%◌}
use embedded_operating_syste.Base.{◌/◌}

abbrev flags : IoFlags
flags = record {
  io_append = false;
  io_sync = false;
  io_inval = false;
  io_unit = true;
  io_async = false;
  io_direct = false;
  io_datasync = false;
}

-- The file has its blocks, the buffers are mapped, and the bytes that are moved are all 9.
abbrev calls : Calls ram (List ℕ) ℕ
calls = record {
  fs_maxfilesize = 49_152;
  has_v_data = true;
  mnt_noclusterw = false;
  cred = true;
  clears_setid = true;
  i_flags_data = false;
  softdep_prealloc = λ sys. sys;
  vn_rlimit_fsize = λ sys uio. false;
  vnode_pager_setsize = λ sys size. sys;
  ufs_balloc = λ s off size clear. (
    0,
    record { b_data = zeroes; b_resid = 0; mapped = true; b_cache = true; b_nocache = false },
    s,
  );
  blksize =
      λ size lbn. if ltb size ((lbn + 1) * 4096) then (size % 4096 + 4095) / 4096 * 4096 else 4096;
  uiomove = λ sys p off n. (0, n, (λ i. 9), sys);
  vfs_bio_clrbuf = λ bp. bp;
  page_count_severe = λ sys. false;
  put_buffer = λ sys mode bp size. sys;
  ffs_truncate = λ s size. s;
  ffs_update = λ s. (0, s);
  ffs_fsfail_cleanup = λ error. false;
}

abbrev before : State ram (List ℕ) ℕ
before = record {
  inode = record { i_size = 12_288; append = false; setid = true; dp = file };
  dev = blank;
  blocks = [];
  sys = 0;
}

abbrev block_3 : Uio
block_3 = record { uio_offset = 12_288; uio_resid = 4096 }

-- The table of which one entry is in use, of a block of zeroes.
abbrev one_used : State ram (List ℕ) ℕ
one_used = record {
  inode = record { i_size = 16_384; append = false; setid = true; dp = Stores.file };
  dev = disk;
  blocks = [];
  sys = 0;
}

abbrev silent_calls : Calls ram (List ℕ) ℕ
silent_calls = record calls { uiomove = λ sys p off n. (0, n, zeroes, sys) }

abbrev balloc_buf : BlockBuf
balloc_buf = record {
  b_data = zeroes;
  b_resid = 0;
  mapped = true;
  b_cache = true;
  b_nocache = false;
}

one_used-IsWhole :
    IsWhole ram_array ram_reliable fs Stores.freeing
      (λ p. p)
      0
      silent_calls
      flags
      3
      one_used
      one_used
      balloc_buf
one_used-IsWhole = record {
  pos = omega arith;
  there = refl;
  no_append = refl;
  at_offset = refl;
  lazy = refl;
  allowed = refl;
  unlimited = refl;
  balloc = refl;
  mapped = refl;
  read = refl;
  size = refl;
  error = refl;
  moved = refl;
}

ffs_write-IsStored_example :
    IsStored ram_array ram_reliable fs Stores.freeing
      (λ p. p)
      0
      silent_calls
      flags
      3
      zeroes
      disk
      []
      Stores.file
      store
      laid
      disk_small
      disk-Holds
      (ffs_write fs Stores.freeing
        (λ p. p)
        0
        silent_calls
        flags
        false
        2
        one_used
        (record { uio_offset = 12_288; uio_resid = 4096 }))
ffs_write-IsStored_example =
    ffs_write-IsStored ram_array ram_reliable fs Stores.freeing (λ p. p) 0 silent_calls flags 3 0
      one_used one_used balloc_buf store laid disk_small disk-Holds one_used-IsWhole (omega arith)
      can_count new_block unlocked_zeroes
