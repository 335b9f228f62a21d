-- ===== src/Ddfs/Ffswrite.antt =====
-- deduplicating-fs/src/ddfs_vnops.c: `ffs_write` of a regular file, block by block, over the calls
-- of the FFS and of the virtual memory that it makes. The panics, the hint of sequential writes
-- and the marks IN_CHANGE, IN_UPDATE and IN_SIZEMOD are left out.
pub mod Accounts
pub mod Whole
use embedded_operating_syste.Base.{
  ℕ, zero, suc, ◌+◌, ◌-◌, ◌/◌, ◌%◌, min, Bool, true, false, not, ◌&&◌, ◌||◌, Option, none, some,
  Bytes, if◌then◌else◌, ltb, ◌==◌,
}
use embedded_operating_syste.Kvfs.Kernel.{Kernel}
use embedded_operating_syste.Ddfs.Table.{DedupFs}
use embedded_operating_syste.Ddfs.Write.{Dinode, write_block}

-- `errno.h`
abbrev pub eperm : ℕ
eperm = 1

abbrev pub eio : ℕ
eio = 5

abbrev pub enxio : ℕ
enxio = 6

abbrev pub ebadf : ℕ
ebadf = 9

abbrev pub efbig : ℕ
efbig = 27

pub record Uio : Type 0 where
  pub uio_offset : ℕ
  pub uio_resid : ℕ

-- The bits of `ioflag` that are looked at.
pub record IoFlags : Type 0 where
  pub io_append : Bool
  pub io_sync : Bool
  pub io_inval : Bool
  pub io_unit : Bool
  pub io_async : Bool
  pub io_direct : Bool
  pub io_datasync : Bool

-- The buffer of a block: its memory, what was not read of it, whether it is mapped, B_CACHE,
-- B_NOCACHE.
pub record BlockBuf : Type 0 where
  pub b_data : Bytes
  pub b_resid : ℕ
  pub mapped : Bool
  pub b_cache : Bool
  pub b_nocache : Bool

-- How the buffer goes back: `bwrite`, `bawrite`, `cluster_write` or `bdwrite`, with B_CLUSTEROK.
pub data WriteMode : Type 0 where
  sync cluster delayed : WriteMode
  async : (clusterok : Bool) → WriteMode

-- The inode: the size, APPEND in `i_flags`, the bits ISUID and ISGID, the block pointers.
pub record FileInode : Type 0 where
  pub i_size : ℕ
  pub append : Bool
  pub setid : Bool
  pub dp : Dinode

-- The state: the inode, the device with the dedup table, the allocator and the rest of the system.
pub record State (K : Kernel) (Free Sys : Type 0) : Type 0 where
  pub inode : FileInode
  pub dev : K.Dev
  pub blocks : Free
  pub sys : Sys

-- The calls of the FFS and the virtual memory. An error is an errno, and 0 is success.
-- `page_count_severe` is the severe shortage of pages or of clean buffers, and `put_buffer` is
-- `vfs_bio_set_flags` with the write of the buffer in its mode.
pub record Calls (K : Kernel) (Free Sys : Type 0) : Type 0 where
  pub fs_maxfilesize : ℕ
  pub has_v_data : Bool
  pub mnt_noclusterw : Bool
  pub cred : Bool
  -- `priv_check_cred` refuses to keep the set-id bits.
  pub clears_setid : Bool
  -- IN_SIZEMOD or IN_IBLKDATA in `i_flags`
  pub i_flags_data : Bool
  pub softdep_prealloc : Sys → Sys
  pub vn_rlimit_fsize : Sys → Uio → Bool
  pub vnode_pager_setsize : Sys → ℕ → Sys
  -- offset, size and BA_CLRBUF
  pub ufs_balloc : State K Free Sys → ℕ → ℕ → Bool → ℕ × BlockBuf × State K Free Sys
  pub blksize : ℕ → ℕ → ℕ
  -- memory, offset in it, and size; the error, the bytes that were moved, and the memory
  pub uiomove : Sys → Bytes → ℕ → ℕ → ℕ × ℕ × Bytes × Sys
  pub vfs_bio_clrbuf : BlockBuf → BlockBuf
  pub page_count_severe : Sys → Bool
  pub put_buffer : Sys → WriteMode → BlockBuf → ℕ → Sys
  pub ffs_truncate : State K Free Sys → ℕ → State K Free Sys
  pub ffs_update : State K Free Sys → ℕ × State K Free Sys
  pub ffs_fsfail_cleanup : ℕ → Bool

-- How the buffer of a block that is written to its end, or not, goes back.
unfoldable pub write_mode : IoFlags → (severe whole noclusterw : Bool) → WriteMode
write_mode flags severe whole noclusterw =
    if flags.io_sync
    then sync
    else if severe || flags.io_async
    then async true
    else if whole
    then (if not noclusterw then cluster else async false)
    else if flags.io_direct
    then async true
    else delayed

-- How a round of the loop ends: with `break` and an error, with the next round, or nowhere, where
-- the code has no value for the block.
pub data Round (S : Type 0) : Type 0 where
  breaks : ℕ → S → Uio → Round S
  goes_on : S → Uio → Round S
  no_value : Round S

-- How the whole ends: it returns, has no value, or is in the loop when the fuel is spent.
pub data Outcome (S : Type 0) : Type 0 where
  returns : ℕ → S → Uio → Outcome S
  undefined : Outcome S
  in_loop : Outcome S

-- `IO_APPEND` starts at the end of the file.
abbrev pub started : IoFlags → FileInode → Uio → Uio
started flags inode uio = record uio {
  uio_offset = if flags.io_append then inode.i_size else uio.uio_offset;
}

module _ {K : Kernel} (fs : DedupFs) {Free Sys : Type 0} (free : Free → ℕ → Free)
    (hash_block : Bytes → Bytes) (junk : ℕ) (C : Calls K Free Sys) (flags : IoFlags) where
  -- From the buffer on, `xfersize` bytes at `blkoffset` of block `lbn`.
  unfoldable pub fill_block :
      (lbn blkoffset xfersize : ℕ) → BlockBuf → State K Free Sys → Uio → Round (State K Free Sys)
  unfolding write_mode write_block
  fill_block lbn blkoffset xfersize bp s uio =
      let (error, moved, memory, sys) = C.uiomove s.sys bp.b_data blkoffset xfersize in
      let uio' : Uio = record {
        uio_offset = uio.uio_offset + moved;
        uio_resid = uio.uio_resid - moved;
      } in
      elim (write_block K fs Free free hash_block memory blkoffset lbn junk s.inode.dp s.dev
        s.blocks) [
          | none ↦ no_value
          | some (dp, dev, blocks) ↦
              let bp₁ : BlockBuf = record bp { b_data = memory } in
              let bp₂ =
                if not (error == 0) && not bp.b_cache && (fs.fs_bsize == xfersize)
                then C.vfs_bio_clrbuf bp₁
                else bp₁ in
              let mode =
                write_mode flags (C.page_count_severe sys) (xfersize + blkoffset == fs.fs_bsize)
                  C.mnt_noclusterw in
              let s' : State K Free Sys = record {
                inode = record (s.inode) { dp = dp };
                dev = dev;
                blocks = blocks;
                sys = C.put_buffer sys mode bp₂ s.inode.i_size;
              } in
              if not (error == 0) || (xfersize == 0) then breaks error s' uio' else goes_on s' uio'
        ]

  -- The answer of `UFS_BALLOC` for `xfersize` bytes. A buffer that is not mapped ends the loop, and
  -- is not given back.
  unfoldable pub take_block :
      (lbn blkoffset xfersize error : ℕ)
      → BlockBuf
      → State K Free Sys
      → Uio
      → Round (State K Free Sys)
  unfolding fill_block
  take_block lbn blkoffset xfersize error bp s uio =
      let end = uio.uio_offset + xfersize in
      let bp' : BlockBuf = record bp {
        b_nocache = if flags.io_sync && flags.io_inval then true else bp.b_nocache;
      } in
      let i_size = if ltb s.inode.i_size end then end else s.inode.i_size in
      let s' : State K Free Sys = record s { inode = record (s.inode) { i_size = i_size } } in
      let size = C.blksize i_size lbn - bp.b_resid in
      if not (error == 0)
      then breaks error (record s { sys = C.vnode_pager_setsize s.sys s.inode.i_size }) uio
      else if not bp.mapped
      then breaks eio s' uio
      else fill_block lbn blkoffset (min size xfersize) bp' s' uio

  -- One round.
  unfoldable pub write_round : State K Free Sys → Uio → Round (State K Free Sys)
  unfolding take_block
  write_round s uio =
      let lbn = uio.uio_offset / fs.fs_bsize in
      let blkoffset = uio.uio_offset % fs.fs_bsize in
      let xfersize = min uio.uio_resid (fs.fs_bsize - blkoffset) in
      let end = uio.uio_offset + xfersize in
      let sys = if ltb s.inode.i_size end then C.vnode_pager_setsize s.sys end else s.sys in
      let (error, bp, s') =
        C.ufs_balloc (record s { sys = sys }) uio.uio_offset xfersize (ltb xfersize fs.fs_bsize) in
      take_block lbn blkoffset xfersize error bp s' uio

  -- The loop, on fuel.
  unfoldable pub ffs_write_loop : ℕ → State K Free Sys → Uio → Outcome (State K Free Sys)
  unfolding write_round
  ffs_write_loop zero s uio = in_loop
  ffs_write_loop (suc fuel) s uio =
      if not (ltb 0 uio.uio_resid) then returns 0 s uio else elim (write_round s uio) [
        | breaks error s' uio' ↦ returns error s' uio'
        | goes_on s' uio' ↦ ffs_write_loop fuel s' uio'
        | no_value ↦ undefined
      ]

  -- Behind the loop: the set-id bits, the way back of IO_UNIT, and the inode of IO_SYNC.
  unfoldable pub finish_write :
      (osize : ℕ) → Uio → ℕ → State K Free Sys → Uio → Outcome (State K Free Sys)
  finish_write osize start error s uio =
      let wrote = ltb uio.uio_resid start.uio_resid in
      let s₁ =
        if s.inode.setid && wrote && C.cred && C.clears_setid
        then record s { inode = record (s.inode) { setid = false } }
        else s in
      let back : Uio = record {
        uio_offset = uio.uio_offset - (start.uio_resid - uio.uio_resid);
        uio_resid = start.uio_resid;
      } in
      let (updated, s₂) =
        if not flags.io_datasync || C.i_flags_data then C.ffs_update s₁ else (0, s₁) in
      if not (error == 0)
      then (if flags.io_unit
          then returns error (C.ffs_truncate s₁ osize) back
          else returns error s₁ uio)
      else if wrote && flags.io_sync
      then returns (if C.ffs_fsfail_cleanup updated then enxio else updated) s₂ uio
      else returns error s₁ uio

  unfoldable pub ffs_write : (suj : Bool) → ℕ → State K Free Sys → Uio → Outcome (State K Free Sys)
  unfolding ffs_write_loop finish_write
  ffs_write suj fuel s uio =
      let s₀ : State K Free Sys = record s {
        sys = if suj then C.softdep_prealloc s.sys else s.sys;
      } in
      let start = started flags s.inode uio in
      if not C.has_v_data
      then returns ebadf s₀ uio
      else if s.inode.append && not (start.uio_offset == s.inode.i_size)
      then returns eperm s₀ start
      else if ltb C.fs_maxfilesize (start.uio_offset + start.uio_resid)
      then returns efbig s₀ start
      else if C.vn_rlimit_fsize s₀.sys start
      then returns efbig s₀ start
      else elim (ffs_write_loop fuel s₀ start) [
        | returns error s' uio' ↦ finish_write s.inode.i_size start error s' uio'
        | undefined ↦ undefined
        | in_loop ↦ in_loop
      ]
