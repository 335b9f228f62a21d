-- ===== src/Ddfs/Table.antt =====
-- deduplicating-fs/src/ddfs_util.c: the table of hashed blocks on disk. The buffer cache is the
-- kernel's; `hash_block`, the kernel's SHA-1, gives the keys and is an argument of the callers.
pub mod Alloc
pub mod Entries
pub mod Locate
pub mod Store
pub mod Unref
pub mod Update
use embedded_operating_syste.Base.{
  ℕ, zero, suc, ◌+◌, ◌-◌, ◌*◌, ◌/◌, ◌%◌, ◌^◌, Bool, true, false, not, ◌&&◌, Option, none, some, ltb,
  ◌==◌, if◌then◌else◌, Bytes, zeroes, offset, memcpy, memcmp, has_bit, set_bit,
}
use embedded_operating_syste.Kvfs.Bytes.{le, byte_at}
use embedded_operating_syste.Kvfs.Kernel.{Kernel}

-- `struct ddfs_dedup`, 32 bytes; `daddr_t` is its 64-bit pattern. The flags are 1 << 0 for a free
-- entry and 1 << 4 for an active one.
pub record Dedup : Type 0 where
  pub key : Bytes
  pub flags : ℕ
  pub ref_count : ℕ
  pub blockptr : ℕ

abbrev pub sizeof_dedup : ℕ
sizeof_dedup = 32

abbrev pub ddfs_dedup_free : ℕ
ddfs_dedup_free = 0

abbrev pub ddfs_dedup_active : ℕ
ddfs_dedup_active = 4

unfoldable pub encode_dedup : Dedup → Bytes
encode_dedup entry i =
    if ltb i 20
    then entry.key i
    else if ltb i 22
    then byte_at entry.flags (i - 20)
    else if ltb i 24
    then byte_at entry.ref_count (i - 22)
    else byte_at entry.blockptr (i - 24)

unfoldable pub decode_dedup : Bytes → Dedup
decode_dedup p = record { key = p; flags = le 2 p 20; ref_count = le 2 p 22; blockptr = le 8 p 24 }

-- The fields of `struct fs` that the table's place is computed from.
pub record DedupFs : Type 0 where
  pub fs_dedupfrags : ℕ
  pub fs_frag : ℕ
  pub fs_bsize : ℕ
  pub fs_ddblkno : ℕ
  pub fs_fsbtodb : ℕ

-- What is looked for: `key` or `targetblock`, whichever is not NULL.
pub data Sought : Type 0 where
  by_key : Bytes → Sought
  by_block : ℕ → Sought

abbrev pub wanted : Sought → Dedup → Bool
wanted (by_key key) entry = memcmp key entry.key 20
wanted (by_block targetblock) entry = entry.blockptr == targetblock

-- A buffer, by its sector and bytes, and the place of an entry in it.
pub record Slot : Type 0 where
  pub dd_lbn : ℕ
  pub b_data : Bytes
  pub idx : ℕ

-- The return of 0, with the match and the first free place before it, of 1, with the first free
-- place, or of the error of `bread`. The buffers of the match and of the free place, `bp` and
-- `freebp`, stay locked; the others have been released.
pub data Located : Type 0 where
  found : Slot → (freebp : Option Slot) → Located
  not_found : Option Slot → Located
  read_error : ℕ → Located

abbrev pub num_blocks : DedupFs → ℕ
num_blocks fs = fs.fs_dedupfrags / fs.fs_frag

abbrev pub entries_per_block : DedupFs → ℕ
entries_per_block fs = fs.fs_bsize / sizeof_dedup

-- The sector of block `i`, `fsbtodb(fs, fs->fs_ddblkno + i * fs->fs_frag)`.
abbrev pub block_sector : DedupFs → ℕ → ℕ
block_sector fs i = (fs.fs_ddblkno + i * fs.fs_frag) * 2 ^ fs.fs_fsbtodb

abbrev pub entry_at : Bytes → ℕ → Dedup
entry_at b_data k = decode_dedup (offset b_data (k * sizeof_dedup))

-- `freespot` after a free entry: the first one stays.
abbrev pub first_free : Bool → Slot → Option Slot → Option Slot
first_free want_free slot (some freespot) = some freespot
first_free want_free slot none = if want_free then some slot else none

-- The loop over the entries of a block, from `k` on with `n` left: the index of the match in the
-- buffer, and the free place.
unfoldable pub entry_loop : Sought → Bool → ℕ → Bytes → ℕ → ℕ → Option Slot → Option ℕ × Option Slot
entry_loop sought want_free dd_lbn b_data zero k freespot = (none, freespot)
entry_loop sought want_free dd_lbn b_data (suc n) k freespot =
    let idx = k * sizeof_dedup in
    let entry = entry_at b_data k in
    let slot : Slot = record { dd_lbn = dd_lbn; b_data = b_data; idx = idx } in
    let skip =
      entry_loop sought want_free dd_lbn b_data n (k + 1) (first_free want_free slot freespot) in
    let rest = entry_loop sought want_free dd_lbn b_data n (k + 1) freespot in
    if has_bit entry.flags ddfs_dedup_free
    then skip
    else if wanted sought entry
    then (some idx, freespot)
    else rest

module _ (K : Kernel) (fs : DedupFs) where
  -- The loop over the blocks.
  unfoldable pub block_loop : K.Dev → Sought → Bool → ℕ → ℕ → Option Slot → Located
  unfolding entry_loop
  block_loop dev sought want_free zero i freespot = not_found freespot
  block_loop dev sought want_free (suc n) i freespot =
      let dd_lbn = block_sector fs i in
      let (error, bp) = K.bread dev dd_lbn fs.fs_bsize in
      let (match, freespot') =
        entry_loop sought want_free dd_lbn bp.b_data (entries_per_block fs) 0 freespot in
      let rest = block_loop dev sought want_free n (i + 1) freespot' in
      if not (error == 0) then read_error error else elim match [
        | some idx ↦ found (record { dd_lbn = dd_lbn; b_data = bp.b_data; idx = idx }) freespot'
        | none ↦ rest
      ]

  unfoldable pub ddtable_locate : K.Dev → Sought → Bool → Located
  unfolding block_loop
  ddtable_locate dev sought want_free = block_loop dev sought want_free (num_blocks fs) 0 none

  -- The entry, copied into its buffer, and the buffer written.
  unfoldable pub write_entry : K.Dev → Slot → Dedup → K.Dev
  write_entry dev slot entry =
      (K.bwrite dev slot.dd_lbn fs.fs_bsize
        (memcpy slot.b_data slot.idx (encode_dedup entry) sizeof_dedup)).1

  -- `*out_block` and the device. Without a free place, or when the table cannot be read, the code
  -- goes on with a buffer that has no value: `none`. `junk` is the flags of the `entry` on the
  -- stack, which are not set before the bit is.
  unfoldable pub ddtable_alloc : K.Dev → Bytes → ℕ → ℕ → Option (ℕ × K.Dev)
  ddtable_alloc dev key in_block junk = elim (ddtable_locate dev (by_key key) true) [
    | read_error error ↦ none
    | not_found none ↦ none
    | not_found (some slot) ↦
        let entry : Dedup = record {
          key = key;
          flags = set_bit junk ddfs_dedup_active;
          ref_count = 1;
          blockptr = in_block;
        } in
        some (in_block, write_entry dev slot entry)
    | found slot freebp ↦
        let entry = decode_dedup (offset slot.b_data slot.idx) in
        let entry' = record entry { ref_count = (entry.ref_count + 1) % 2 ^ 16 } in
        some (entry.blockptr, write_entry dev slot entry')
  ]

  -- The sector of the buffer that `ddtable_alloc` leaves locked: `freebp`, where it is not the
  -- buffer of the match.
  unfoldable pub alloc_locks : K.Dev → Bytes → Option ℕ
  alloc_locks dev key = elim (ddtable_locate dev (by_key key) true) [
    | read_error error ↦ none
    | not_found freespot ↦ none
    | found slot none ↦ none
    | found slot (some freespot) ↦
        if freespot.dd_lbn == slot.dd_lbn then none else some freespot.dd_lbn
  ]

  -- Whether the search reads the block at sector `locked`, from block `i` on with `n` left.
  unfoldable pub reads_loop : K.Dev → Sought → (locked : ℕ) → ℕ → ℕ → Bool
  reads_loop dev sought locked zero i = false
  reads_loop dev sought locked (suc n) i =
      let dd_lbn = block_sector fs i in
      let (error, bp) = K.bread dev dd_lbn fs.fs_bsize in
      let match = (entry_loop sought false dd_lbn bp.b_data (entries_per_block fs) 0 none).0 in
      let rest = reads_loop dev sought locked n (i + 1) in
      if dd_lbn == locked
      then true
      else if not (error == 0)
      then false
      else elim match [ some idx ↦ false | none ↦ rest ]

  -- Whether `ddtable_unref` waits for a buffer that its caller has locked, and so never returns.
  unfoldable pub unref_waits : K.Dev → ℕ → (locked : Option ℕ) → Bool
  unfolding reads_loop
  unref_waits dev blocknum none = false
  unref_waits dev blocknum (some locked) =
      reads_loop dev (by_block blocknum) locked (num_blocks fs) 0

  -- The count that is left, or `none` for -1, and the device.
  unfoldable pub ddtable_unref : K.Dev → ℕ → Option ℕ × K.Dev
  ddtable_unref dev blocknum = elim (ddtable_locate dev (by_block blocknum) false) [
    | read_error error ↦ (none, dev)
    | not_found freespot ↦ (none, dev)
    | found slot freebp ↦
        let entry = decode_dedup (offset slot.b_data slot.idx) in
        let left = (entry.ref_count + 2 ^ 16 - 1) % 2 ^ 16 in
        let freed : Dedup = record {
          key = zeroes;
          flags = set_bit 0 ddfs_dedup_free;
          ref_count = 0;
          blockptr = 0;
        } in
        if left == 0
        then (some 0, write_entry dev slot freed)
        else (some left, write_entry dev slot (record entry { ref_count = left }))
  ]
