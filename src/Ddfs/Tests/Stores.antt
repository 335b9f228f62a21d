-- ===== src/Ddfs/Tests/Stores.antt =====
-- The dedup table as a store at a concrete input: a table of 256 entries in memory, of which one
-- is in use.
use native.Mathlib.Decide.{ℕ_discrete}
use embedded_operating_syste.Base.{
  ℕ, ◌+◌, ◌*◌, ◌%◌, ◌<◌, ◌≡◌, ◌≢◌, refl, true, false, none, some, List, [], ◌∷◌, Bytes, zeroes,
  arith, if◌then◌else◌, memcmp, memcmp_ext, ap₂, has_bit, Bool-cases, inl, inr, ◌∙◌, ap, sym, ne→==,
  eq→==, le→leb,
}
use embedded_operating_syste.Kvfs.Bytes.{le}
use embedded_operating_syste.Kvfs.Tests.Ram.{ram, ram_array, ram_reliable}
use embedded_operating_syste.Ddfs.Table.{
  decode_dedup, alloc_locks, ddtable_alloc, ddtable_unref, ddfs_dedup_free,
}
use embedded_operating_syste.Ddfs.Table.Alloc.{
  CanAlloc, Returns, alloc_store, ddtable_alloc-Returns,
}
use embedded_operating_syste.Ddfs.Table.Entries.{IsLaidOut, entry_of, is_live}
use embedded_operating_syste.Ddfs.Table.Store.{
  Store, here, nowhere, Holds, IsPlace, IsOther, same_or_IsOther,
}
use embedded_operating_syste.Ddfs.Table.Unref.{block_of, Leaves, unref_store, ddtable_unref-Leaves}
use embedded_operating_syste.Kvfs.Layout.{dev_bsize}
use embedded_operating_syste.Ddfs.Newfs.{init_loop}
use embedded_operating_syste.Ddfs.Newfs.Empty.{WritesBytes, made_fs, init_loop-Holds}
use embedded_operating_syste.Ddfs.Write.{Dinode, ffs_blkfree, dedup_block}
use embedded_operating_syste.Ddfs.Write.Refines.{
  Frees, ffs_blkfree-Frees, Deduplicates, dedup_block-Deduplicates, IsUnknown,
}
use embedded_operating_syste.Ddfs.Tests.{fs, disk, key}
use embedded_operating_syste.Base.{◌^◌}
use embedded_operating_syste.Base.{Option}
use embedded_operating_syste.Base.{leb}
use embedded_operating_syste.Base.{◌&&◌}
use embedded_operating_syste.Base.{ltb}
use embedded_operating_syste.Base.{◌-◌}

pub laid : IsLaidOut fs
laid = omega arith

pub disk_small : (a : ℕ) → disk a < 256
disk_small a = ground arith

-- The flags behind the first entry.
flag_byte : (a : ℕ) → 4116 < a → a % 32 ≡ 20 → disk a ≡ 1
flag_byte a behind at =
    rw
      (
        ne→== a 4116 (omega arith),
        ne→== a 4118 (omega arith),
        le→leb 4096 a (omega arith),
        eq→== (a % 32) 20 at,
      )
      refl

next_byte : (a : ℕ) → 4116 < a → a % 32 ≡ 20 → disk (a + 1) ≡ 0
next_byte a behind at =
    rw
      (
        ne→== (a + 1) 4116 (omega arith),
        ne→== (a + 1) 4118 (omega arith),
        ne→== ((a + 1) % 32) 20 (omega arith),
      )
      (ground arith)

all_free :
    (i k : ℕ)
    → IsPlace fs i k
    → IsOther 0 0 i k
    → has_bit (entry_of ram fs disk i k).flags ddfs_dedup_free ≡ true
unfolding decode_dedup le has_bit
all_free i k inside other =
    let a = (1 + i) * 4096 + (k * 32 + 20) in
    let behind : 4116 < a = elim (ℕ_discrete i 0) [
      | yes e ↦ let ne : k ≢ 0 = other e in omega arith
      | no ne ↦ omega arith
    ] in
    let at : (1 + i * 1) * 8 * 512 + (k * 32 + 20) ≡ a = omega arith in
    let at' : (1 + i * 1) * 8 * 512 + (k * 32 + (20 + 1)) ≡ a + 1 = omega arith in
    let flag = ap disk at ∙ flag_byte a behind (omega arith) in
    let next = ap disk at' ∙ next_byte a behind (omega arith) in rw (flag, next) refl

key_byte : (i : ℕ) → i < 20 → disk (4096 + i) ≡ 0
key_byte i lt = ground arith

first_live : (k : Bytes) → is_live ram fs disk 0 0 k ≡ memcmp k zeroes 20
unfolding decode_dedup le has_bit memcmp
first_live k = memcmp_ext 20 k (λ i. disk (4096 + i)) zeroes key_byte

abbrev pub store : Store
store k = if memcmp k zeroes 20 then some (0, 3) else none

pub disk-Holds : Holds ram fs disk store
unfolding decode_dedup le
disk-Holds wanted = elim (Bool-cases (memcmp wanted zeroes 20)) [
  | inl same ↦ rw same (
      here 0 0 (omega arith, omega arith) (first_live wanted ∙ same)
        (λ i k inside other. rw (all_free i k inside other) refl))
  | inr differs ↦ rw differs (
      nowhere (λ i k inside. elim (same_or_IsOther 0 0 i k) [
        | inl (e, e') ↦
            ap₂ (λ a b. is_live ram fs disk a b wanted) e e' ∙ first_live wanted ∙ differs
        | inr other ↦ rw (all_free i k inside other) refl
      ]))
]

can_alloc : CanAlloc ram_array ram_reliable fs disk store key 77 0
unfolding has_bit memcmp
can_alloc = record {
  junk_small = omega arith;
  junk_used = refl;
  block_small = omega arith;
  count_small = λ block count e. cc;
  room = λ e. (
    0,
    1,
    (omega arith, omega arith),
    all_free 0 1 (omega arith, omega arith) (λ q. ground arith),
  );
}

ddtable_alloc-Returns_example :
    Returns ram_array ram_reliable fs
      (alloc_store store key 77 none)
      (ddtable_alloc ram fs disk key 77 0)
unfolding memcmp
ddtable_alloc-Returns_example =
    ddtable_alloc-Returns ram_array ram_reliable fs disk store laid disk_small disk-Holds key 77 0
      can_alloc

only_zero : (k : Bytes) (count : ℕ) → store k ≡ some (0, count) → memcmp k zeroes 20 ≡ true
only_zero k count e = elim (Bool-cases (memcmp k zeroes 20)) [
  | inl same ↦ same
  | inr differs ↦
      let gone : store k ≡ none = rw differs refl in
      let wrong : none ≡ some (0, count) = sym gone ∙ e in cc
]

ddtable_unref-Leaves_example :
    Leaves ram_array ram_reliable fs 2 (unref_store store zeroes 0 2) (ddtable_unref ram fs disk 0)
unfolding memcmp
ddtable_unref-Leaves_example =
    ddtable_unref-Leaves ram_array ram_reliable fs disk store laid disk_small disk-Holds zeroes 0 2
      refl only_zero

-- The list of the blocks that the allocator has free again.
abbrev pub freeing : List ℕ → ℕ → List ℕ
freeing blocks bno = bno ∷ blocks

ffs_blkfree-Frees_example :
    Frees ram_array ram_reliable fs
      (List ℕ)
      freeing
      disk
      store
      laid
      disk_small
      disk-Holds
      []
      0
      2
      (unref_store store zeroes 0 2)
      (ffs_blkfree ram fs (List ℕ) freeing 0 disk [])
unfolding memcmp
ffs_blkfree-Frees_example =
    ffs_blkfree-Frees ram_array ram_reliable fs (List ℕ) freeing disk store laid disk_small
      disk-Holds [] zeroes 0 2 refl only_zero

-- A file of which block 3 is new, at 77, and has the content of block 0.
abbrev pub file : Dinode
file = record { di_db = λ i. 74 + i; modified = false }

pub can_count : CanAlloc ram_array ram_reliable fs disk store zeroes 77 0
unfolding has_bit memcmp
can_count = record {
  junk_small = omega arith;
  junk_used = refl;
  block_small = omega arith;
  count_small = λ block count e. ground (arith, e);
  room = λ e. cc;
}

pub new_block : IsUnknown store 77
new_block k count e = elim (Bool-cases (memcmp k zeroes 20)) [
  | inl same ↦
      let there : store k ≡ some (0, 3) = rw same refl in
      let wrong : 0 ≡ 77 = ap block_of (sym there ∙ e) in absurd (omega (arith, wrong))
  | inr differs ↦
      let gone : store k ≡ none = rw differs refl in
      let wrong : none ≡ some (77, count) = sym gone ∙ e in cc
]

-- The match is before the first free entry.
pub unlocked_zeroes : alloc_locks ram fs disk zeroes ≡ none
unfolding alloc_locks embedded_operating_syste.Ddfs.Table.ddtable_locate
    embedded_operating_syste.Ddfs.Table.block_loop embedded_operating_syste.Ddfs.Table.entry_loop
    decode_dedup le has_bit memcmp
unlocked_zeroes = refl

dedup_block-Deduplicates_example :
    Deduplicates ram_array ram_reliable fs
      (List ℕ)
      freeing
      disk
      store
      laid
      disk_small
      disk-Holds
      []
      zeroes
      3
      file
      (dedup_block ram fs (List ℕ) freeing zeroes 3 0 file disk [])
dedup_block-Deduplicates_example =
    dedup_block-Deduplicates ram_array ram_reliable fs (List ℕ) freeing disk store laid disk_small
      disk-Holds [] zeroes 3 0 file (omega arith) can_count new_block unlocked_zeroes

-- A medium as an array of bytes.
abbrev write_medium : (ℕ → ℕ) → ℕ → Bytes → ℕ → Option (ℕ → ℕ)
write_medium d lbn p n = some (λ j.
    if leb (lbn * dev_bsize) j && ltb j (lbn * dev_bsize + n) then p (j - lbn * dev_bsize) else d j)

abbrev medium_at : (ℕ → ℕ) → Option (ℕ → ℕ) → ℕ → ℕ
medium_at d none j = d j
medium_at d (some d') j = d' j

write_medium-WritesBytes : WritesBytes (ℕ → ℕ) (λ d. d) write_medium
write_medium-WritesBytes = record {
  written = λ d d' lbn p n e j. ap (λ o. medium_at d o j) (sym e);
}

low :
    let table = made_fs 1 3 65536 1_048_576 in
    2 ^ 3 * (table.fs_ddblkno + table.fs_dedupfrags) < 2 ^ 31
unfolding embedded_operating_syste.Ddfs.Newfs.place
low = omega arith

init_loop-Holds_example :
    let table = made_fs 1 3 65536 1_048_576 in
    (dev' : ℕ → ℕ) × (init_loop
        (ℕ → ℕ)
        write_medium
        (2 ^ 3 * dev_bsize)
        table.fs_ddblkno
        table.fs_dedupfrags
        0
        disk
      ≡ some dev')
    × Holds ram table dev' (λ key. none)
init_loop-Holds_example =
    init_loop-Holds ram_array ram_reliable write_medium write_medium-WritesBytes 1 3 65536 1_048_576
      disk (λ d lbn p n. (_, refl)) low
