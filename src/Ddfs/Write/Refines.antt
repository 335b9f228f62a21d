-- ===== src/Ddfs/Write/Refines.antt =====
-- The write and the freeing of a block on the map from keys to blocks and their users.
use embedded_operating_syste.Base.{
  ℕ, zero, suc, ◌+◌, ◌<◌, ◌≡◌, ◌≢◌, refl, true, false, Option, none, some, Bytes, update,
  if◌then◌else◌, ltb, ◌==◌, arith, ◌∙◌, sym, ap, ==→eq, eq→==, ne→==, lt→ltb, Bool-cases, inl, inr,
  memcmp, memcmp_refl, has_bit,
}
use embedded_operating_syste.Kvfs.Kernel.{Kernel, IsByteArray, IsReliable}
use embedded_operating_syste.Ddfs.Table.{
  DedupFs, by_block, ddtable_alloc, alloc_locks, unref_waits, ddtable_unref, block_sector,
  ddfs_dedup_free,
}
use embedded_operating_syste.Ddfs.Table.Alloc.{
  CanAlloc, Returns, returns, alloc_store, ddtable_alloc-Returns,
}
use embedded_operating_syste.Ddfs.Table.Entries.{IsLaidOut, entry_of, is_live}
use embedded_operating_syste.Ddfs.Table.Locate.{is_match}
use embedded_operating_syste.Ddfs.Table.Store.{Store, put, IsPlace, Holds, At-found}
use embedded_operating_syste.Ddfs.Table.Unref.{
  block_of, Leaves, leaves, unref_store, ddtable_unref-Leaves,
}
use embedded_operating_syste.Ddfs.Table.Update.{
  Unrefs, freed, lowered, unknown, ddtable_unref-Unrefs,
}
use embedded_operating_syste.Ddfs.Write.{Dinode, ufs_ndaddr, ffs_blkfree, dedup_block}

-- No key of the store has the block.
abbrev pub IsUnknown : Store → ℕ → Type 0
IsUnknown store block = (key : Bytes) (count : ℕ) → store key ≢ some (block, count)

module _ {K : Kernel} {byte : K.Dev → ℕ → ℕ} (A : IsByteArray K byte) (R : IsReliable K)
    (fs : DedupFs) where
  -- An entry in use of a block is of a key of the store.
  pub not_matched :
      (dev : K.Dev) (store : Store) (block i k : ℕ)
      → Holds K fs dev store
      → IsUnknown store block
      → IsPlace fs i k
      → is_match (by_block block) (K.bread dev (block_sector fs i) fs.fs_bsize).1.b_data k ≢ true
  not_matched dev store block i k holds absent place match =
      let old = entry_of K fs dev i k in
      let used : has_bit old.flags ddfs_dedup_free ≡ false = ground (arith, match) in
      let test : (old.blockptr == block) ≡ true = ground (arith, match) in
      let at : old.blockptr ≡ block = ==→eq old.blockptr block test in
      let mine : is_live K fs dev i k old.key ≡ true = rw (used, memcmp_refl 20 old.key) refl in
      let (value, _) = At-found K fs dev old.key i k place mine (holds old.key) in
      absent old.key old.ref_count (value ∙ ap (λ b. some (b, old.ref_count)) at)

  -- `ddtable_unref` of a block that no key has changes nothing.
  unref_unknown :
      (dev : K.Dev) (store : Store) (block : ℕ) {r : Option ℕ × K.Dev}
      → Holds K fs dev store
      → IsUnknown store block
      → Unrefs A R fs dev block r
      → r ≡ (none, dev)
  unref_unknown dev store block holds absent (unknown none_of) = refl
  unref_unknown dev store block holds absent (freed i k a b match last written) =
      absurd (not_matched dev store block i k holds absent (a, b) match)
  unref_unknown dev store block holds absent (lowered i k a b match last written) =
      absurd (not_matched dev store block i k holds absent (a, b) match)

  module _ (Free : Type 0) (free : Free → ℕ → Free) (dev : K.Dev) (store : Store)
      (laid : IsLaidOut fs) (small : (a : ℕ) → byte dev a < 256) (holds : Holds K fs dev store)
      (blocks : Free) where
    -- What the freeing leaves: the block is freed if the user was the last.
    pub data Frees (block n : ℕ) (expected : Store) : K.Dev × Free → Type 0 where
      last :
          (dev' : K.Dev)
          → n ≡ 0
          → Holds K fs dev' expected
          → Frees block n expected (dev', free blocks block)
      kept :
          (dev' : K.Dev) → n ≢ 0 → Holds K fs dev' expected → Frees block n expected (dev', blocks)

    freed_from :
        (block n : ℕ) (expected : Store) (r : Option ℕ × K.Dev)
        → Leaves A R fs n expected r
        → Frees block n expected (elim r.0 [
          | none ↦ (r.1, free blocks block)
          | some left ↦ if ltb 0 left then (r.1, blocks) else (r.1, free blocks block)
        ])
    freed_from block zero expected r (leaves dev' now) = last dev' refl now
    freed_from block (suc n) expected r (leaves dev' now) =
        rw (lt→ltb 0 (suc n) (omega arith)) (kept dev' (λ q. absurd (omega (arith, q))) now)

    -- On a device that does not fail, whose table's blocks do not overlap and hold a store: where
    -- the store has a block with `n` + 1 users under a key, and under no other, `ffs_blkfree` of the
    -- block frees it in the FFS exactly if `n` is 0, and the device then holds the store with `n`
    -- users, or without the key.
    pub ffs_blkfree-Frees :
        (key : Bytes) (block n : ℕ)
        → store key ≡ some (block, suc n)
        → ((key' : Bytes) (count : ℕ)
            → store key' ≡ some (block, count)
            → memcmp key' key 20 ≡ true)
        → Frees block n
            (unref_store store key block n)
            (ffs_blkfree K fs Free free block dev blocks)
    unfolding ffs_blkfree
    ffs_blkfree-Frees key block n present only =
        freed_from block n (unref_store store key block n) (ddtable_unref K fs dev block)
          (ddtable_unref-Leaves A R fs dev store laid small holds key block n present only)

    -- The outcomes of the write of a block: the file takes the block that has the content, and its
    -- own is freed; or the content is new, and the file keeps its block.
    pub data Deduplicates (key : Bytes) (lbn : ℕ) (dp : Dinode)
        : Option (Dinode × K.Dev × Free) → Type 0 where
      shared :
          (block count : ℕ) (dev' : K.Dev)
          → store key ≡ some (block, count)
          → Holds K fs dev' (put store key (some (block, count + 1)))
          → Deduplicates key lbn dp (
              some (
                record { di_db = update dp.di_db lbn block; modified = true },
                dev',
                free blocks (dp.di_db lbn),
              ))
      stored :
          (dev' : K.Dev)
          → store key ≡ none
          → Holds K fs dev' (put store key (some (dp.di_db lbn, 1)))
          → Deduplicates key lbn dp (some (dp, dev', blocks))

    pub still-IsUnknown :
        (key : Bytes) (old block count : ℕ)
        → IsUnknown store old
        → block ≢ old
        → IsUnknown (put store key (some (block, count))) old
    still-IsUnknown key old block count absent known key' count' e =
        elim (Bool-cases (memcmp key' key 20)) [
          | inl same ↦
              let here : put store key (some (block, count)) key' ≡ some (block, count) =
                rw same refl in
              known (ap block_of (sym here ∙ e))
          | inr differs ↦
              let there : put store key (some (block, count)) key' ≡ store key' = rw differs refl in
              absent key' count' (sym there ∙ e)
        ]

    -- On a device that does not fail, whose table's blocks do not overlap and hold a store: for a
    -- direct block of the file that no key has yet, where the table can take the key and
    -- `ddtable_alloc` leaves no buffer locked, the write of content that the store has a block for
    -- points the file to that block, counts one more user of it and frees the file's own block;
    -- the write of new content leaves the file its block, which the device then holds under the
    -- key with one user.
    pub dedup_block-Deduplicates :
        (key : Bytes) (lbn junk : ℕ) (dp : Dinode)
        → lbn < ufs_ndaddr
        → CanAlloc A R fs dev store key (dp.di_db lbn) junk
        → IsUnknown store (dp.di_db lbn)
        → alloc_locks K fs dev key ≡ none
        → Deduplicates key lbn dp (dedup_block K fs Free free key lbn junk dp dev blocks)
    unfolding dedup_block unref_waits
    dedup_block-Deduplicates key lbn junk dp inside can absent unlocked =
        go (store key) refl (ddtable_alloc K fs dev key old junk) refl
          (ddtable_alloc-Returns A R fs dev store laid small holds key old junk can)
      where
        old : ℕ
        old = dp.di_db lbn

        go :
            (value : Option (ℕ × ℕ))
            → store key ≡ value
            → (r : Option (ℕ × K.Dev)) → ddtable_alloc K fs dev key old junk ≡ r
            → Returns A R fs (alloc_store store key old value) r
            → Deduplicates key lbn dp (dedup_block K fs Free free key lbn junk dp dev blocks)
        go none e r at (returns dev' now) =
            rw (dedup_block, lt→ltb lbn ufs_ndaddr inside, at, eq→== old old refl)
              (stored dev' e now)
        go (some (block, count)) e r at (returns dev' now) =
            let known : block ≢ old = λ q. absent key count (e ∙ ap (λ b. some (b, count)) q) in
            let unref =
              unref_unknown dev' (put store key (some (block, count + 1))) old now
                (still-IsUnknown key old block (count + 1) absent known)
                (ddtable_unref-Unrefs A R fs dev' old) in
            rw
              (
                dedup_block,
                lt→ltb lbn ufs_ndaddr inside,
                at,
                ne→== block old known,
                unlocked,
                ffs_blkfree,
                unref,
                unref,
              )
              (shared block count dev' e now)
