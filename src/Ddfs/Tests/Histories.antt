-- ===== src/Ddfs/Tests/Histories.antt =====
-- A history at a concrete input: a block is written to a file on an empty table in memory.
use embedded_operating_syste.Base.{
  ℕ, ◌+◌, ◌*◌, ◌%◌, ◌<◌, ◌≡◌, refl, true, false, none, List, [], ◌∷◌, arith, if◌then◌else◌, ◌==◌,
  has_bit, eq→==, ne→==, Option,
}
use embedded_operating_syste.Kvfs.Bytes.{le}
use embedded_operating_syste.Kvfs.Tests.Ram.{ram, ram_array, ram_reliable}
use embedded_operating_syste.Ddfs.History.{State, written, write, Reach, here, next, IsTallied}
use embedded_operating_syste.Ddfs.History.Runs.{Reach-IsTallied, Reach-ffs_blkfree}
use embedded_operating_syste.Ddfs.History.Tally.{occurrences}
use embedded_operating_syste.Ddfs.Table.{decode_dedup, alloc_locks, ddfs_dedup_free}
use embedded_operating_syste.Ddfs.Table.Alloc.{CanAlloc}
use embedded_operating_syste.Ddfs.Table.Entries.{IsLaidOut, entry_of}
use embedded_operating_syste.Ddfs.Table.Store.{Store, Holds, nowhere, IsPlace}
use embedded_operating_syste.Ddfs.Tests.{fs, key}
use embedded_operating_syste.Ddfs.Write.{Dinode, dedup_block, ffs_blkfree}
use embedded_operating_syste.Ddfs.Write.Refines.{
  Deduplicates, shared, stored, dedup_block-Deduplicates,
}

-- Each entry is free, and else zero.
abbrev pub blank : ℕ → ℕ
blank a = if a % 32 == 20 then 1 else 0

blank_small : (a : ℕ) → blank a < 256
blank_small a = ground arith

laid : IsLaidOut fs
laid = omega arith

blank_free :
    (i k : ℕ) → IsPlace fs i k → has_bit (entry_of ram fs blank i k).flags ddfs_dedup_free ≡ true
unfolding decode_dedup le has_bit
blank_free i k inside =
    let a = (1 + i * 1) * 8 * 512 + (k * 32 + 20) in
    let b = (1 + i * 1) * 8 * 512 + (k * 32 + (20 + 1)) in
    rw (eq→== (a % 32) 20 (omega arith), ne→== (b % 32) 20 (omega arith)) refl

abbrev empty : Store
empty k = none

blank-Holds : Holds ram fs blank empty
blank-Holds k = nowhere (λ i j inside. rw (blank_free i j inside) refl)

-- The list of the blocks that the allocator has free again.
abbrev pub freeing : List ℕ → ℕ → List ℕ
freeing blocks bno = bno ∷ blocks

abbrev start : State ram (List ℕ)
start = record { dev = blank; blocks = []; store = empty; users = [] }

abbrev pub file : Dinode
file = record { di_db = λ i. 74 + i; modified = false }

can_alloc : CanAlloc ram_array ram_reliable fs blank empty key 77 0
unfolding has_bit
can_alloc = record {
  junk_small = omega arith;
  junk_used = refl;
  block_small = omega arith;
  count_small = λ block count e. cc;
  room = λ e. (0, 0, (omega arith, omega arith), blank_free 0 0 (omega arith, omega arith));
}

-- The key is not in the table.
unlocked : alloc_locks ram fs blank key ≡ none
unfolding alloc_locks embedded_operating_syste.Ddfs.Table.ddtable_locate
    embedded_operating_syste.Ddfs.Table.block_loop embedded_operating_syste.Ddfs.Table.entry_loop
    decode_dedup le has_bit
unlocked = refl

abbrev after : State ram (List ℕ)
after =
    written (List ℕ) start key 3 file (dedup_block ram fs (List ℕ) freeing key 3 0 file blank [])

history : Reach ram_array ram_reliable fs (List ℕ) freeing start after
history =
    next here (write key 3 0 file start (λ i lt. omega arith) (omega arith) refl can_alloc unlocked)

one_user :
    {r : Option (Dinode × (ℕ → ℕ) × List ℕ)}
    → Deduplicates ram_array ram_reliable fs
        (List ℕ)
        freeing
        blank
        empty
        laid
        blank_small
        blank-Holds
        []
        key
        3
        file
        r
    → occurrences 77 (written (List ℕ) start key 3 file r).users ≡ 1
one_user (shared block count dev' e holds) = cc
one_user (stored dev' e holds) = refl

Reach-IsTallied_example : IsTallied ram_array ram_reliable fs (List ℕ) freeing after
Reach-IsTallied_example =
    Reach-IsTallied ram_array ram_reliable fs laid (List ℕ) freeing blank_small blank-Holds refl
      refl history

Reach-ffs_blkfree_example :
    (ffs_blkfree ram fs (List ℕ) freeing 77 after.dev after.blocks).1
    ≡ (if 0 == 0 then 77 ∷ after.blocks else after.blocks)
Reach-ffs_blkfree_example =
    Reach-ffs_blkfree ram_array ram_reliable fs laid (List ℕ) freeing 77 0 blank_small blank-Holds
      refl refl history
      (one_user (
        dedup_block-Deduplicates ram_array ram_reliable fs (List ℕ) freeing blank empty laid
          blank_small blank-Holds [] key 3 0 file (omega arith) can_alloc (λ k count e. cc)
          unlocked))
