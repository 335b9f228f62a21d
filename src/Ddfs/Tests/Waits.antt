-- ===== src/Ddfs/Tests/Waits.antt =====
-- A write at a concrete input that never returns: the match is in the second block of the table,
-- and the first block has a free entry.
use native.Mathlib.Decide.{ℕ_discrete}
use embedded_operating_syste.Base.{
  ℕ, ◌+◌, ◌*◌, ◌%◌, ◌<◌, ◌≡◌, ◌≢◌, refl, true, ◌&&◌, none, some, List, [], Bytes, zeroes, arith,
  if◌then◌else◌, memcmp, memcmp_ext, ap₂, has_bit, Bool-cases, inl, inr, ◌∙◌, ap, ne→==, eq→==,
  le→leb, leb, ◌==◌,
}
use embedded_operating_syste.Kvfs.Bytes.{le}
use embedded_operating_syste.Kvfs.Tests.Ram.{ram, ram_array, ram_reliable}
use embedded_operating_syste.Ddfs.Table.{decode_dedup, alloc_locks, ddfs_dedup_free}
use embedded_operating_syste.Ddfs.Table.Alloc.{CanAlloc}
use embedded_operating_syste.Ddfs.Table.Entries.{entry_of, is_live}
use embedded_operating_syste.Ddfs.Table.Store.{
  here, nowhere, Holds, IsPlace, IsOther, same_or_IsOther,
}
use embedded_operating_syste.Ddfs.Write.{dedup_block}
use embedded_operating_syste.Ddfs.Write.Waits.{dedup_block_waits}
use embedded_operating_syste.Ddfs.Tests.{fs}
use embedded_operating_syste.Ddfs.Tests.Stores.{store, laid, freeing, file, new_block}

-- The entry in use is the first of the second block.
abbrev late : ℕ → ℕ
late a =
    if a == 8212 then 16 else if a == 8214 then 3 else if leb 4096 a && (a % 32 == 20) then 1 else 0

late_small : (a : ℕ) → late a < 256
late_small a = ground arith

flag_byte : (a : ℕ) → 4096 < a → a ≢ 8212 → a % 32 ≡ 20 → late a ≡ 1
flag_byte a behind other at =
    rw
      (
        ne→== a 8212 other,
        ne→== a 8214 (omega arith),
        le→leb 4096 a (omega arith),
        eq→== (a % 32) 20 at,
      )
      refl

next_byte : (a : ℕ) → a % 32 ≡ 20 → late (a + 1) ≡ 0
next_byte a at =
    rw
      (
        ne→== (a + 1) 8212 (omega arith),
        ne→== (a + 1) 8214 (omega arith),
        ne→== ((a + 1) % 32) 20 (omega arith),
      )
      (ground arith)

all_free :
    (i k : ℕ)
    → IsPlace fs i k
    → IsOther 1 0 i k
    → has_bit (entry_of ram fs late i k).flags ddfs_dedup_free ≡ true
unfolding decode_dedup le has_bit
all_free i k inside other =
    let a = (1 + i) * 4096 + (k * 32 + 20) in
    let apart : a ≢ 8212 = elim (ℕ_discrete i 1) [
      | yes e ↦ let ne : k ≢ 0 = other e in λ q. absurd (omega (arith, q))
      | no ne ↦ λ q. absurd (omega (arith, q))
    ] in
    let at : (1 + i * 1) * 8 * 512 + (k * 32 + 20) ≡ a = omega arith in
    let at' : (1 + i * 1) * 8 * 512 + (k * 32 + (20 + 1)) ≡ a + 1 = omega arith in
    let flag = ap late at ∙ flag_byte a (omega arith) apart (omega arith) in
    let next = ap late at' ∙ next_byte a (omega arith) in rw (flag, next) refl

key_byte : (i : ℕ) → i < 20 → late (8192 + i) ≡ 0
key_byte i lt = ground arith

late_live : (k : Bytes) → is_live ram fs late 1 0 k ≡ memcmp k zeroes 20
unfolding decode_dedup le has_bit memcmp
late_live k = memcmp_ext 20 k (λ i. late (8192 + i)) zeroes key_byte

late-Holds : Holds ram fs late store
unfolding decode_dedup le
late-Holds wanted = elim (Bool-cases (memcmp wanted zeroes 20)) [
  | inl same ↦ rw same (
      here 1 0 (omega arith, omega arith) (late_live wanted ∙ same)
        (λ i k inside other. rw (all_free i k inside other) refl))
  | inr differs ↦ rw differs (
      nowhere (λ i k inside. elim (same_or_IsOther 1 0 i k) [
        | inl (e, e') ↦
            ap₂ (λ a b. is_live ram fs late a b wanted) e e' ∙ late_live wanted ∙ differs
        | inr other ↦ rw (all_free i k inside other) refl
      ]))
]

can_count : CanAlloc ram_array ram_reliable fs late store zeroes 77 0
unfolding has_bit memcmp
can_count = record {
  junk_small = omega arith;
  junk_used = refl;
  block_small = omega arith;
  count_small = λ block count e. ground (arith, e);
  room = λ e. cc;
}

-- The buffer of the first block, at sector 8.
locked : alloc_locks ram fs late zeroes ≡ some 8
unfolding alloc_locks embedded_operating_syste.Ddfs.Table.ddtable_locate
    embedded_operating_syste.Ddfs.Table.block_loop embedded_operating_syste.Ddfs.Table.entry_loop
    decode_dedup le has_bit memcmp
locked = refl

dedup_block_waits_example : dedup_block ram fs (List ℕ) freeing zeroes 3 0 file late [] ≡ none
unfolding memcmp
dedup_block_waits_example =
    dedup_block_waits ram_array ram_reliable fs (List ℕ) freeing late store laid late_small
      late-Holds [] zeroes 0 3 3 0 8 file (omega arith) can_count new_block refl locked
