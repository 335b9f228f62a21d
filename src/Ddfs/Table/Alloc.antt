-- ===== src/Ddfs/Table/Alloc.antt =====
-- `ddtable_alloc` of ddfs_util.c as an operation on the map from keys to blocks and their users.
use embedded_operating_syste.Base.{
  ℕ, ◌+◌, ◌%◌, ◌^◌, ◌<◌, ◌≡◌, refl, true, false, Option, none, some, Bytes, arith, ◌∙◌, memcmp,
  memcmp_right, has_bit, set_bit, has_bit-set_bit_ne,
}
use embedded_operating_syste.Kvfs.Kernel.{Kernel, IsByteArray, IsReliable}
use embedded_operating_syste.Ddfs.Table.{
  Dedup, DedupFs, ddtable_alloc, ddfs_dedup_free, ddfs_dedup_active,
}
use embedded_operating_syste.Ddfs.Table.Entries.{
  IsLaidOut, entry_of, FitsDedup-entry_of, Agrees-written, Agrees-elsewhere, is_live_written,
}
use embedded_operating_syste.Ddfs.Table.Store.{
  Store, put, IsPlace, Holds, At-found, At-missing, Holds-put,
}
use embedded_operating_syste.Ddfs.Table.Update.{
  Allocates, counted, added, full, ddtable_alloc-Allocates,
}

-- One more user for a known key; a new key has one, and the block that came with it.
abbrev pub alloc_store : Store → Bytes → ℕ → Option (ℕ × ℕ) → ℕ × Store
alloc_store store key in_block (some (block, count)) =
    (block, put store key (some (block, count + 1)))
alloc_store store key in_block none = (in_block, put store key (some (in_block, 1)))

set_active_small : (junk : ℕ) → junk < 2 ^ 16 → set_bit junk ddfs_dedup_active < 2 ^ 16
unfolding set_bit has_bit
set_active_small junk small = ground arith

module _ {K : Kernel} {byte : K.Dev → ℕ → ℕ} (A : IsByteArray K byte) (R : IsReliable K)
    (fs : DedupFs) where
  -- The result of `ddtable_alloc`: the block, and a device that holds the store.
  pub data Returns (expected : ℕ × Store) : Option (ℕ × K.Dev) → Type 0 where
    returns :
        (dev' : K.Dev) → Holds K fs dev' expected.1 → Returns expected (some (expected.0, dev'))

  -- What `ddtable_alloc` needs: the flags that are left on the stack do not say free, the count
  -- has room, and a new key has a free entry.
  pub record CanAlloc (dev : K.Dev) (store : Store) (key : Bytes) (in_block junk : ℕ) : Type 0 where
    pub junk_small : junk < 2 ^ 16
    pub junk_used : has_bit junk ddfs_dedup_free ≡ false
    pub block_small : in_block < 2 ^ 64
    pub count_small : (block count : ℕ) → store key ≡ some (block, count) → count + 1 < 2 ^ 16
    pub room :
        store key ≡ none
        → (i : ℕ) × (k : ℕ) × IsPlace fs i k
          × (has_bit (entry_of K fs dev i k).flags ddfs_dedup_free ≡ true)

  module _ (dev : K.Dev) (store : Store) (laid : IsLaidOut fs) (small : (a : ℕ) → byte dev a < 256)
      (holds : Holds K fs dev store) where
    alloc_Returns :
        (key : Bytes) (in_block junk : ℕ) {r : Option (ℕ × K.Dev)}
        → CanAlloc dev store key in_block junk
        → Allocates A R fs dev key in_block junk r
        → Returns (alloc_store store key in_block (store key)) r
    alloc_Returns key in_block junk can (counted i k {dev'} a b match written) =
        let place : IsPlace fs i k = (a, b) in
        let old = entry_of K fs dev i k in
        let (value, alone) = At-found K fs dev key i k place match (holds key) in
        let roomy = can.count_small old.blockptr old.ref_count value in
        let fits = FitsDedup-entry_of A R fs dev i k b small in
        let entry : Dedup = record old { ref_count = (old.ref_count + 1) % 2 ^ 16 } in
        let agrees =
          Agrees-written A R fs dev i k entry dev' b laid written
            (record { flags = fits.flags; ref_count = omega arith; blockptr = fits.blockptr }) in
        let used : has_bit old.flags ddfs_dedup_free ≡ false = ground (arith, match) in
        let same : memcmp key old.key 20 ≡ true = ground (arith, match) in
        rw value (
          returns dev' (
            Holds-put K fs dev dev' i k place
              (λ i' k' inside other.
                Agrees-elsewhere A R fs dev i k entry dev' b laid written i' k' inside.1 other)
              store key old.blockptr (old.ref_count + 1) holds
              (λ key'.
                is_live_written K fs dev' i k entry key' agrees used
                ∙ memcmp_right 20 key' key old.key same)
              agrees.blockptr (agrees.ref_count ∙ omega (arith, roomy)) alone
              (λ key' differs.
                let no : memcmp key' old.key 20 ≡ false =
                  memcmp_right 20 key' key old.key same ∙ differs in
                rw no (ground arith))))
    alloc_Returns key in_block junk can (added i k {dev'} none_of a b free written) =
        let place : IsPlace fs i k = (a, b) in
        let missing =
          At-missing K fs dev key (λ i' k' inside. none_of i' inside.0 k' inside.1) (holds key) in
        let entry : Dedup = record {
          key = key;
          flags = set_bit junk ddfs_dedup_active;
          ref_count = 1;
          blockptr = in_block;
        } in
        let agrees = Agrees-written A R fs dev i k entry dev' b laid written (record {
          flags = set_active_small junk can.junk_small;
          ref_count = omega arith;
          blockptr = can.block_small;
        }) in
        let used : has_bit (set_bit junk ddfs_dedup_active) ddfs_dedup_free ≡ false =
          has_bit-set_bit_ne junk ddfs_dedup_active ddfs_dedup_free (omega arith) ∙ can.junk_used in
        rw missing (
          returns dev' (
            Holds-put K fs dev dev' i k place
              (λ i' k' inside other.
                Agrees-elsewhere A R fs dev i k entry dev' b laid written i' k' inside.1 other)
              store key in_block 1 holds
              (λ key'. is_live_written K fs dev' i k entry key' agrees used) agrees.blockptr
              agrees.ref_count (λ i' k' inside other. none_of i' inside.0 k' inside.1)
              (λ key' differs. rw free refl)))
    alloc_Returns key in_block junk can (full none_of no_free) =
        let missing =
          At-missing K fs dev key (λ i' k' inside. none_of i' inside.0 k' inside.1) (holds key) in
        let (i, k, inside, free) = can.room missing in
        absurd (ground (arith, free, no_free i inside.0 k inside.1))

    -- On a device that does not fail, whose table's blocks do not overlap and hold a store: where
    -- the count of the key has room, a new key has a free entry, the block fits in 64 bits and
    -- the stack does not say free, `ddtable_alloc` gives the block that the store has for the
    -- key, or else the one that came with it, and the device then holds the store with one more
    -- user for that block, and nothing else changed.
    pub ddtable_alloc-Returns :
        (key : Bytes) (in_block junk : ℕ)
        → CanAlloc dev store key in_block junk
        → Returns
            (alloc_store store key in_block (store key))
            (ddtable_alloc K fs dev key in_block junk)
    ddtable_alloc-Returns key in_block junk can =
        alloc_Returns key in_block junk can (ddtable_alloc-Allocates A R fs dev key in_block junk)
