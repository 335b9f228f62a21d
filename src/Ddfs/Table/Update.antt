-- ===== src/Ddfs/Table/Update.antt =====
-- What `ddtable_alloc` and `ddtable_unref` change.
use embedded_operating_syste.Base.{
  ℕ, ◌+◌, ◌-◌, ◌*◌, ◌%◌, ◌^◌, ◌<◌, ◌≡◌, refl, Bool, true, false, ◌&&◌, Option, none, some, arith,
  if◌then◌else◌, ltb, leb, ◌==◌, Bytes, zeroes, offset, set_bit, Bool-cases, inl, inr, sym, ◌≢◌,
  ==→eq, eq→==,
}
use embedded_operating_syste.Kvfs.Kernel.{Kernel, IsByteArray, IsReliable}
use embedded_operating_syste.Kvfs.Kernel.Device.{region_written}
use embedded_operating_syste.Kvfs.Layout.{dev_bsize}
use embedded_operating_syste.Ddfs.Table.{
  Dedup, DedupFs, Sought, by_key, by_block, Located, found, not_found, read_error, encode_dedup,
  decode_dedup, entry_at, write_entry, ddtable_alloc, ddtable_unref, num_blocks, entries_per_block,
  block_sector, ddfs_dedup_free, ddfs_dedup_active, sizeof_dedup,
}
use embedded_operating_syste.Ddfs.Table.Locate.{
  is_free, is_match, table_block, table_slot, NoMatch, NoFree, earlier, spare, Locates, first,
  absent, ddtable_locate-Locates,
}

module _ {K : Kernel} {byte : K.Dev → ℕ → ℕ} (A : IsByteArray K byte) (R : IsReliable K)
    (fs : DedupFs) (dev : K.Dev) where
  abbrev pub old_entry : ℕ → ℕ → Dedup
  old_entry i k = entry_at (K.bread dev (block_sector fs i) fs.fs_bsize).1.b_data k

  -- Entry `k` of block `i` is `entry` on the device, and every other byte is as before.
  abbrev pub IsWritten : ℕ → ℕ → Dedup → K.Dev → Type 0
  IsWritten i k entry dev' =
      let at = block_sector fs i * dev_bsize + k * sizeof_dedup in
      (j : ℕ)
      → byte dev' j ≡ (
          if leb at j && ltb j (at + sizeof_dedup) then encode_dedup entry (j - at) else byte dev j)

  written :
      (sought : Sought) (want_free : Bool) (i k : ℕ) (entry : Dedup)
      → k < entries_per_block fs
      → IsWritten i k entry (write_entry K fs dev (table_slot R fs dev sought want_free i k) entry)
  unfolding write_entry
  written sought want_free i k entry small =
      region_written dev (block_sector fs i) fs.fs_bsize (k * sizeof_dedup) sizeof_dedup
        (encode_dedup entry) A R (omega arith)

  -- The outcomes of `ddtable_alloc`.
  pub data Allocates (key : Bytes) (in_block junk : ℕ) : Option (ℕ × K.Dev) → Type 0 where
    counted :
        (i k : ℕ) {dev' : K.Dev}
        → i < num_blocks fs
        → k < entries_per_block fs
        → is_match (by_key key) (table_block R fs dev (by_key key) true i) k ≡ true
        → IsWritten i k
            (record (old_entry i k) { ref_count = ((old_entry i k).ref_count + 1) % 2 ^ 16 })
            dev'
        → Allocates key in_block junk (some ((old_entry i k).blockptr, dev'))
    added :
        (i k : ℕ) {dev' : K.Dev}
        → ((m : ℕ) → m < num_blocks fs → NoMatch R fs dev (by_key key) true m)
        → i < num_blocks fs
        → k < entries_per_block fs
        → is_free (table_block R fs dev (by_key key) true i) k ≡ true
        → IsWritten i k
            (record {
              key = key;
              flags = set_bit junk ddfs_dedup_active;
              ref_count = 1;
              blockptr = in_block;
            })
            dev'
        → Allocates key in_block junk (some (in_block, dev'))
    full :
        ((m : ℕ) → m < num_blocks fs → NoMatch R fs dev (by_key key) true m)
        → ((m : ℕ) → m < num_blocks fs → NoFree R fs dev (by_key key) true m)
        → Allocates key in_block junk none

  alloc_outcome :
      (key : Bytes) (in_block junk : ℕ) {r : Located}
      → Locates R fs dev (by_key key) true 0 (num_blocks fs) none r
      → Allocates key in_block junk (elim r [
        | read_error error ↦ none
        | not_found none ↦ none
        | not_found (some slot) ↦ some (
          in_block,
          write_entry K fs dev slot (record {
            key = key;
            flags = set_bit junk ddfs_dedup_active;
            ref_count = 1;
            blockptr = in_block;
          }),
        )
        | found slot freebp ↦
            let entry = decode_dedup (offset slot.b_data slot.idx) in
            some (
              entry.blockptr,
              write_entry K fs dev slot
                  (record entry { ref_count = (entry.ref_count + 1) % 2 ^ 16 }),
            )
      ])
  alloc_outcome key in_block junk (first i k a b small m c d) =
      counted i k (omega arith) small m (written (by_key key) true i k _ small)
  alloc_outcome key in_block junk (absent none_of (earlier e full_table)) = rw (← e) (
      full (λ m b. none_of m (omega arith) (omega arith))
        (λ m b. full_table refl (sym e) m (omega arith) (omega arith)))
  alloc_outcome key in_block junk (absent none_of (spare i k a b small free)) =
      added i k (λ m c. none_of m (omega arith) (omega arith)) (omega arith) small free
        (written (by_key key) true i k _ small)

  -- On a device that does not fail, `ddtable_alloc` of a key that an entry in use has adds one to
  -- that entry's count in 16 bits, and gives its block. Of a key that no entry in use has it
  -- writes a new entry over a free one, with the key, the count 1 and the block that it was given,
  -- and gives that block. Only that entry changes on the device. Without a free entry, and only
  -- then, it goes on with a buffer that it does not have.
  pub ddtable_alloc-Allocates :
      (key : Bytes) (in_block junk : ℕ)
      → Allocates key in_block junk (ddtable_alloc K fs dev key in_block junk)
  unfolding ddtable_alloc
  ddtable_alloc-Allocates key in_block junk =
      alloc_outcome key in_block junk (ddtable_locate-Locates R fs dev (by_key key) true)

  -- The count of an entry, one less in 16 bits.
  abbrev pub one_less : ℕ → ℕ → ℕ
  one_less i k = ((old_entry i k).ref_count + 2 ^ 16 - 1) % 2 ^ 16

  -- The outcomes of `ddtable_unref`.
  pub data Unrefs (blocknum : ℕ) : Option ℕ × K.Dev → Type 0 where
    freed :
        (i k : ℕ) {dev' : K.Dev}
        → i < num_blocks fs
        → k < entries_per_block fs
        → is_match (by_block blocknum) (table_block R fs dev (by_block blocknum) false i) k ≡ true
        → one_less i k ≡ 0
        → IsWritten i k
            (record {
              key = zeroes;
              flags = set_bit 0 ddfs_dedup_free;
              ref_count = 0;
              blockptr = 0;
            })
            dev'
        → Unrefs blocknum (some 0, dev')
    lowered :
        (i k : ℕ) {dev' : K.Dev}
        → i < num_blocks fs
        → k < entries_per_block fs
        → is_match (by_block blocknum) (table_block R fs dev (by_block blocknum) false i) k ≡ true
        → one_less i k ≢ 0
        → IsWritten i k (record (old_entry i k) { ref_count = one_less i k }) dev'
        → Unrefs blocknum (some (one_less i k), dev')
    unknown :
        ((m : ℕ) → m < num_blocks fs → NoMatch R fs dev (by_block blocknum) false m)
        → Unrefs blocknum (none, dev)

  unref_outcome :
      (blocknum : ℕ) {r : Located}
      → Locates R fs dev (by_block blocknum) false 0 (num_blocks fs) none r
      → Unrefs blocknum (elim r [
        | read_error error ↦ (none, dev)
        | not_found freespot ↦ (none, dev)
        | found slot freebp ↦
            let entry = decode_dedup (offset slot.b_data slot.idx) in
            let left = (entry.ref_count + 2 ^ 16 - 1) % 2 ^ 16 in
            let blank : Dedup = record {
              key = zeroes;
              flags = set_bit 0 ddfs_dedup_free;
              ref_count = 0;
              blockptr = 0;
            } in
            if left == 0
            then (some 0, write_entry K fs dev slot blank)
            else (some left, write_entry K fs dev slot (record entry { ref_count = left }))
      ])
  unref_outcome blocknum (absent none_of f) = unknown (λ m b. none_of m (omega arith) (omega arith))
  unref_outcome blocknum (first i k a b small m c d) =
      let left = ((old_entry i k).ref_count + 2 ^ 16 - 1) % 2 ^ 16 in
      elim (Bool-cases (left == 0)) [
        | inl e ↦ rw e (
            freed i k (omega arith) small m (==→eq left 0 e)
              (written (by_block blocknum) false i k _ small))
        | inr e ↦
            let more : left ≢ 0 = λ q. absurd (ground (arith, eq→== left 0 q)) in
            rw e (
              lowered i k (omega arith) small m more
                (written (by_block blocknum) false i k _ small))
      ]

  -- On a device that does not fail, `ddtable_unref` of a block lowers the count of an entry in use
  -- that points to it, and gives the count that is left. At 0 the entry is blank and marked free.
  -- Only that entry changes on the device. Where no entry in use points to the block, it gives -1
  -- and nothing changes.
  pub ddtable_unref-Unrefs : (blocknum : ℕ) → Unrefs blocknum (ddtable_unref K fs dev blocknum)
  unfolding ddtable_unref
  ddtable_unref-Unrefs blocknum =
      unref_outcome blocknum (ddtable_locate-Locates R fs dev (by_block blocknum) false)
