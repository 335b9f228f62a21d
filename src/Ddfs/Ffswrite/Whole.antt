-- ===== src/Ddfs/Ffswrite/Whole.antt =====
-- `ffs_write` of one whole block, down to the dedup table.
use native.Mathlib.Nat.{mul-div_cancel, mul-mod_left}
use embedded_operating_syste.Base.{
  ℕ, suc, ◌+◌, ◌-◌, ◌*◌, min, ◌<◌, ◌≡◌, refl, Bool, true, false, ◌&&◌, Option, none, some, Bytes,
  offset, if◌then◌else◌, ltb, arith, lt→ltb, le→ltb, Bool-cases, inl, inr, ne→==,
}
use embedded_operating_syste.Kvfs.Kernel.{Kernel, IsByteArray, IsReliable}
use embedded_operating_syste.Ddfs.Table.{DedupFs, alloc_locks}
use embedded_operating_syste.Ddfs.Table.Alloc.{CanAlloc}
use embedded_operating_syste.Ddfs.Table.Entries.{IsLaidOut}
use embedded_operating_syste.Ddfs.Table.Store.{Store, Holds}
use embedded_operating_syste.Ddfs.Write.{Dinode, ufs_ndaddr, write_block, dedup_block}
use embedded_operating_syste.Ddfs.Write.Refines.{
  IsUnknown, Deduplicates, shared, dedup_block-Deduplicates,
}
use embedded_operating_syste.Ddfs.Write.Refines
use embedded_operating_syste.Ddfs.Ffswrite.{
  Uio, IoFlags, BlockBuf, State, Calls, Round, goes_on, Outcome, returns, undefined, in_loop,
  fill_block, take_block, write_round, ffs_write_loop, finish_write, ffs_write,
}

module _ {K : Kernel} {byte : K.Dev → ℕ → ℕ} (A : IsByteArray K byte) (R : IsReliable K)
    (fs : DedupFs) {Free Sys : Type 0} (free : Free → ℕ → Free) (hash_block : Bytes → Bytes)
    (junk : ℕ) (C : Calls K Free Sys) (flags : IoFlags) where
  -- The buffer that `uiomove` has filled goes on as the table says.
  pub data IsFilled (lbn : ℕ) (key : Bytes) (dev : K.Dev) (blocks : Free) (dp : Dinode)
      (store : Store) (laid : IsLaidOut fs) (small : (a : ℕ) → byte dev a < 256)
      (holds : Holds K fs dev store) (uio : Uio) : Round (State K Free Sys) → Type 0 where
    filled :
        (s' : State K Free Sys)
        → Deduplicates A R fs Free free dev store laid small holds blocks key lbn dp
            (some (s'.inode.dp, s'.dev, s'.blocks))
        → IsFilled lbn key dev blocks dp store laid small holds uio (
            goes_on s' (record {
              uio_offset = uio.uio_offset + fs.fs_bsize;
              uio_resid = uio.uio_resid - fs.fs_bsize;
            }))

  fill-IsFilled :
      (lbn : ℕ) (bp : BlockBuf) (s : State K Free Sys) (uio : Uio) (store : Store)
      (laid : IsLaidOut fs) (small : (a : ℕ) → byte s.dev a < 256) (holds : Holds K fs s.dev store)
      → (C.uiomove s.sys bp.b_data 0 fs.fs_bsize).0 ≡ 0
      → (C.uiomove s.sys bp.b_data 0 fs.fs_bsize).1 ≡ fs.fs_bsize
      → 0 < fs.fs_bsize
      → let key = hash_block (offset (C.uiomove s.sys bp.b_data 0 fs.fs_bsize).2 0) in
        Deduplicates A R fs Free free s.dev store laid small holds s.blocks key lbn s.inode.dp
          (dedup_block K fs Free free key lbn junk s.inode.dp s.dev s.blocks)
        → IsFilled lbn key s.dev s.blocks s.inode.dp store laid small holds uio
            (fill_block fs free hash_block junk C flags lbn 0 fs.fs_bsize bp s uio)
  unfolding fill_block write_block
  fill-IsFilled lbn bp s uio store laid small holds ok all pos dedup = go refl dedup
    where
      key : Bytes
      key = hash_block (offset (C.uiomove s.sys bp.b_data 0 fs.fs_bsize).2 0)

      go :
          {r : Option (Dinode × K.Dev × Free)}
          → dedup_block K fs Free free key lbn junk s.inode.dp s.dev s.blocks ≡ r
          → Deduplicates A R fs Free free s.dev store laid small holds s.blocks key lbn s.inode.dp r
          → IsFilled lbn key s.dev s.blocks s.inode.dp store laid small holds uio
              (fill_block fs free hash_block junk C flags lbn 0 fs.fs_bsize bp s uio)
      go e (shared block count dev' known now) =
          rw (fill_block, write_block, e, ok, all, ne→== fs.fs_bsize 0 (λ q. absurd (omega arith)))
            (filled _ (shared block count dev' known now))
      go e (Refines.stored dev' new now) =
          rw (fill_block, write_block, e, ok, all, ne→== fs.fs_bsize 0 (λ q. absurd (omega arith)))
            (filled _ (Refines.stored dev' new now))

  -- The write of block `lbn` whole, and the calls that it makes: the buffer `bp` and the state `s₁`
  -- of `UFS_BALLOC`.
  pub record IsWhole (lbn : ℕ) (s s₁ : State K Free Sys) (bp : BlockBuf) : Type 0 where
    pub pos : 0 < fs.fs_bsize
    pub there : C.has_v_data ≡ true
    pub no_append : s.inode.append ≡ false
    pub at_offset : flags.io_append ≡ false
    pub lazy : flags.io_sync ≡ false
    pub allowed : ltb C.fs_maxfilesize (lbn * fs.fs_bsize + fs.fs_bsize) ≡ false
    pub unlimited :
        C.vn_rlimit_fsize s.sys (record { uio_offset = lbn * fs.fs_bsize; uio_resid = fs.fs_bsize })
        ≡ false
    pub balloc :
        C.ufs_balloc
          (record s {
            sys =
                if ltb s.inode.i_size (lbn * fs.fs_bsize + fs.fs_bsize)
                then C.vnode_pager_setsize s.sys (lbn * fs.fs_bsize + fs.fs_bsize)
                else s.sys;
          })
          (lbn * fs.fs_bsize)
          fs.fs_bsize
          false
        ≡ (0, bp, s₁)
    pub mapped : bp.mapped ≡ true
    pub read : bp.b_resid ≡ 0
    pub size :
        let end = lbn * fs.fs_bsize + fs.fs_bsize in
        C.blksize (if ltb s₁.inode.i_size end then end else s₁.inode.i_size) lbn ≡ fs.fs_bsize
    pub error : (C.uiomove s₁.sys bp.b_data 0 fs.fs_bsize).0 ≡ 0
    pub moved : (C.uiomove s₁.sys bp.b_data 0 fs.fs_bsize).1 ≡ fs.fs_bsize

  -- The block at `lbn`, to be written.
  abbrev pub whole_block : ℕ → Uio
  whole_block lbn = record { uio_offset = lbn * fs.fs_bsize; uio_resid = fs.fs_bsize }

  take-IsFilled :
      (lbn : ℕ) (s s₁ : State K Free Sys) (bp : BlockBuf) (store : Store) (laid : IsLaidOut fs)
      (small : (a : ℕ) → byte s₁.dev a < 256) (holds : Holds K fs s₁.dev store)
      → IsWhole lbn s s₁ bp
      → let key = hash_block (offset (C.uiomove s₁.sys bp.b_data 0 fs.fs_bsize).2 0) in
        Deduplicates A R fs Free free s₁.dev store laid small holds s₁.blocks key lbn s₁.inode.dp
          (dedup_block K fs Free free key lbn junk s₁.inode.dp s₁.dev s₁.blocks)
        → IsFilled lbn key s₁.dev s₁.blocks s₁.inode.dp store laid small holds
            (whole_block lbn)
            (take_block fs free hash_block junk C flags lbn 0 fs.fs_bsize 0 bp s₁ (whole_block lbn))
  unfolding take_block
  take-IsFilled lbn s s₁ bp store laid small holds whole dedup =
      let end = lbn * fs.fs_bsize + fs.fs_bsize in
      let i_size = if ltb s₁.inode.i_size end then end else s₁.inode.i_size in
      let full : min (fs.fs_bsize - 0) fs.fs_bsize ≡ fs.fs_bsize = omega arith in
      rw (take_block, whole.mapped, whole.size, whole.read, full)
        (fill-IsFilled lbn
          (record bp {
            b_resid = 0;
            mapped = true;
            b_nocache = if flags.io_sync && flags.io_inval then true else bp.b_nocache;
          })
          (record s₁ { inode = record (s₁.inode) { i_size = i_size } }) (whole_block lbn) store laid
          small holds whole.error whole.moved whole.pos dedup)

  round-IsFilled :
      (lbn : ℕ) (s s₁ : State K Free Sys) (bp : BlockBuf) (store : Store) (laid : IsLaidOut fs)
      (small : (a : ℕ) → byte s₁.dev a < 256) (holds : Holds K fs s₁.dev store)
      → IsWhole lbn s s₁ bp
      → let key = hash_block (offset (C.uiomove s₁.sys bp.b_data 0 fs.fs_bsize).2 0) in
        Deduplicates A R fs Free free s₁.dev store laid small holds s₁.blocks key lbn s₁.inode.dp
          (dedup_block K fs Free free key lbn junk s₁.inode.dp s₁.dev s₁.blocks)
        → IsFilled lbn key s₁.dev s₁.blocks s₁.inode.dp store laid small holds
            (whole_block lbn)
            (write_round fs free hash_block junk C flags s (whole_block lbn))
  unfolding write_round
  round-IsFilled lbn s s₁ bp store laid small holds whole dedup =
      let full : min fs.fs_bsize (fs.fs_bsize - 0) ≡ fs.fs_bsize = omega arith in
      rw
        (
          write_round,
          mul-div_cancel lbn whole.pos,
          mul-mod_left lbn fs.fs_bsize,
          full,
          le→ltb fs.fs_bsize fs.fs_bsize (omega arith),
          whole.balloc,
        )
        (take-IsFilled lbn s s₁ bp store laid small holds whole dedup)

  -- The write has returned 0, with the block of the file as the table says.
  pub data IsStored (lbn : ℕ) (key : Bytes) (dev : K.Dev) (blocks : Free) (dp : Dinode)
      (store : Store) (laid : IsLaidOut fs) (small : (a : ℕ) → byte dev a < 256)
      (holds : Holds K fs dev store) : Outcome (State K Free Sys) → Type 0 where
    stored :
        (s' : State K Free Sys) (uio : Uio)
        → uio.uio_resid ≡ 0
        → Deduplicates A R fs Free free dev store laid small holds blocks key lbn dp
            (some (s'.inode.dp, s'.dev, s'.blocks))
        → IsStored lbn key dev blocks dp store laid small holds (returns 0 s' uio)

  loop-IsStored :
      (lbn : ℕ) (key : Bytes) (dev : K.Dev) (blocks : Free) (dp : Dinode) (store : Store)
      (laid : IsLaidOut fs) (small : (a : ℕ) → byte dev a < 256) (holds : Holds K fs dev store)
      (fuel : ℕ) (s : State K Free Sys) (r : Round (State K Free Sys))
      → 0 < fs.fs_bsize
      → write_round fs free hash_block junk C flags s (whole_block lbn) ≡ r
      → IsFilled lbn key dev blocks dp store laid small holds (whole_block lbn) r
      → IsStored lbn key dev blocks dp store laid small holds
          (ffs_write_loop fs free hash_block junk C flags (suc (suc fuel)) s (whole_block lbn))
  unfolding ffs_write_loop
  loop-IsStored lbn key dev blocks dp store laid small holds fuel s r pos e (filled s' dedup) =
      let spent : fs.fs_bsize - fs.fs_bsize ≡ 0 = omega arith in
      rw (ffs_write_loop, lt→ltb 0 fs.fs_bsize pos, e, spent) (stored s' _ refl dedup)

  -- The set-id bits do not matter.
  cleared-IsStored :
      (lbn : ℕ) (key : Bytes) (dev : K.Dev) (blocks : Free) (dp : Dinode) (store : Store)
      (laid : IsLaidOut fs) (small : (a : ℕ) → byte dev a < 256) (holds : Holds K fs dev store)
      (clears : Bool) (s : State K Free Sys) (uio : Uio)
      → uio.uio_resid ≡ 0
      → Deduplicates A R fs Free free dev store laid small holds blocks key lbn dp
          (some (s.inode.dp, s.dev, s.blocks))
      → IsStored lbn key dev blocks dp store laid small holds (
          returns 0
            (if clears then record s { inode = record (s.inode) { setid = false } } else s)
            uio)
  cleared-IsStored lbn key dev blocks dp store laid small holds true s uio done dedup =
      stored _ uio done dedup
  cleared-IsStored lbn key dev blocks dp store laid small holds false s uio done dedup =
      stored s uio done dedup

  finish-IsStored :
      (lbn : ℕ) (key : Bytes) (dev : K.Dev) (blocks : Free) (dp : Dinode) (store : Store)
      (laid : IsLaidOut fs) (small : (a : ℕ) → byte dev a < 256) (holds : Holds K fs dev store)
      (osize : ℕ) (start : Uio) (r : Outcome (State K Free Sys))
      → flags.io_sync ≡ false
      → IsStored lbn key dev blocks dp store laid small holds r
      → IsStored lbn key dev blocks dp store laid small holds (elim r [
        | returns error s' uio' ↦
            finish_write fs free hash_block junk C flags osize start error s' uio'
        | undefined ↦ undefined
        | in_loop ↦ in_loop
      ])
  unfolding finish_write
  finish-IsStored lbn key dev blocks dp store laid small holds osize start r lazy
        (stored s uio done dedup) =
      elim (Bool-cases (ltb uio.uio_resid start.uio_resid)) [
        | inl wrote ↦
            simp (finish_write, wrote, lazy)
              (cleared-IsStored lbn key dev blocks dp store laid small holds _ s uio done dedup)
        | inr idle ↦
            simp (finish_write, idle)
              (cleared-IsStored lbn key dev blocks dp store laid small holds _ s uio done dedup)
      ]

  -- On a device that does not fail, whose table's blocks do not overlap and hold a store: where
  -- the calls that `ffs_write` makes for one whole block of a file succeed and move its content,
  -- there is neither IO_SYNC nor a journal of soft updates, the block is a direct one that no key
  -- has yet, the table can take the content's key and `ddtable_alloc` leaves no buffer locked, the
  -- call returns 0 with nothing left to write. Content that the store has a block for then points
  -- the file to that block, counts one more user of it and frees the file's own block; new content
  -- leaves the file its block, which the device then holds under the key with one user.
  pub ffs_write-IsStored :
      (lbn fuel : ℕ) (s s₁ : State K Free Sys) (bp : BlockBuf) (store : Store) (laid : IsLaidOut fs)
      (small : (a : ℕ) → byte s₁.dev a < 256) (holds : Holds K fs s₁.dev store)
      → IsWhole lbn s s₁ bp
      → lbn < ufs_ndaddr
      → CanAlloc A R fs s₁.dev store
          (hash_block (offset (C.uiomove s₁.sys bp.b_data 0 fs.fs_bsize).2 0))
          (s₁.inode.dp.di_db lbn)
          junk
      → IsUnknown store (s₁.inode.dp.di_db lbn)
      → alloc_locks K fs s₁.dev (hash_block (offset (C.uiomove s₁.sys bp.b_data 0 fs.fs_bsize).2 0))
        ≡ none
      → IsStored lbn
          (hash_block (offset (C.uiomove s₁.sys bp.b_data 0 fs.fs_bsize).2 0))
          s₁.dev
          s₁.blocks
          s₁.inode.dp
          store
          laid
          small
          holds
          (ffs_write fs free hash_block junk C flags false (suc (suc fuel)) s (whole_block lbn))
  unfolding ffs_write
  ffs_write-IsStored lbn fuel s s₁ bp store laid small holds whole direct can absent unlocked =
      let key = hash_block (offset (C.uiomove s₁.sys bp.b_data 0 fs.fs_bsize).2 0) in
      let dedup =
        dedup_block-Deduplicates A R fs Free free s₁.dev store laid small holds s₁.blocks key lbn
          junk s₁.inode.dp direct can absent unlocked in
      let looped =
        loop-IsStored lbn key s₁.dev s₁.blocks s₁.inode.dp store laid small holds fuel s
          (write_round fs free hash_block junk C flags s (whole_block lbn)) whole.pos refl
          (round-IsFilled lbn s s₁ bp store laid small holds whole dedup) in
      simp
        (ffs_write, whole.there, whole.no_append, whole.at_offset, whole.allowed, whole.unlimited)
        (finish-IsStored lbn key s₁.dev s₁.blocks s₁.inode.dp store laid small holds s.inode.i_size
          (whole_block lbn)
          (ffs_write_loop fs free hash_block junk C flags (suc (suc fuel)) s (whole_block lbn))
          whole.lazy looped)
