-- ===== src/Ddfs/Table/Unref.antt =====
-- `ddtable_unref` of ddfs_util.c as an operation on the map from keys to blocks and their users.
use embedded_operating_syste.Base.{
  ℕ, zero, suc, ◌+◌, ◌-◌, ◌%◌, ◌^◌, ◌<◌, ◌≡◌, ◌≢◌, refl, true, false, Option, none, some, Bytes,
  zeroes, arith, ◌∙◌, sym, ap, ◌==◌, ==→eq, eq→==, memcmp, memcmp_sym, memcmp_right, memcmp_refl,
  has_bit, set_bit, has_bit-set_bit_self,
}
use embedded_operating_syste.Kvfs.Kernel.{Kernel, IsByteArray, IsReliable}
use embedded_operating_syste.Ddfs.Table.{
  Dedup, DedupFs, by_block, ddtable_unref, block_sector, ddfs_dedup_free,
}
use embedded_operating_syste.Ddfs.Table.Locate.{is_match}
use embedded_operating_syste.Ddfs.Table.Entries.{
  IsLaidOut, entry_of, is_live, FitsDedup-entry_of, Agrees-written, Agrees-elsewhere,
  is_live_written,
}
use embedded_operating_syste.Ddfs.Table.Store.{
  Store, put, IsPlace, IsOther, At, here, nowhere, Holds, At-found, Holds-put, Holds-gone,
  is_live_same,
}
use embedded_operating_syste.Ddfs.Table.Update.{
  Unrefs, freed, lowered, unknown, ddtable_unref-Unrefs,
}

-- The users that are left; without any, the key is gone.
abbrev pub unref_store : Store → Bytes → ℕ → ℕ → Store
unref_store store key block zero = put store key none
unref_store store key block (suc n) = put store key (some (block, suc n))

unref_some :
    (store : Store) (key : Bytes) (block n : ℕ)
    → n ≢ 0
    → unref_store store key block n ≡ put store key (some (block, n))
unref_some store key block zero ne = absurd (ne refl)
unref_some store key block (suc n) ne = refl

-- The count, where there is one.
abbrev pub count_of : Option (ℕ × ℕ) → ℕ
count_of none = 0
count_of (some (block, count)) = count

abbrev pub block_of : Option (ℕ × ℕ) → ℕ
block_of none = 0
block_of (some (block, count)) = block

module _ {K : Kernel} {byte : K.Dev → ℕ → ℕ} (A : IsByteArray K byte) (R : IsReliable K)
    (fs : DedupFs) where
  -- The count that `ddtable_unref` leaves, and a device that holds the store.
  pub data Leaves (left : ℕ) (expected : Store) : Option ℕ × K.Dev → Type 0 where
    leaves : (dev' : K.Dev) → Holds K fs dev' expected → Leaves left expected (some left, dev')

  module _ (dev : K.Dev) (store : Store) (laid : IsLaidOut fs) (small : (a : ℕ) → byte dev a < 256)
      (holds : Holds K fs dev store) where
    -- The key that an entry in use of a block has.
    module _ (key : Bytes) (block n : ℕ) (present : store key ≡ some (block, suc n))
        (only : (key' : Bytes) (count : ℕ)
          → store key' ≡ some (block, count)
          → memcmp key' key 20 ≡ true) where
      owner :
          (i k : ℕ)
          → IsPlace fs i k
          → is_match (by_block block) (K.bread dev (block_sector fs i) fs.fs_bsize).1.b_data k
            ≡ true
          → (memcmp (entry_of K fs dev i k).key key 20 ≡ true)
            × ((entry_of K fs dev i k).blockptr ≡ block)
            × ((entry_of K fs dev i k).ref_count ≡ suc n)
            × ((i' k' : ℕ)
                → IsPlace fs i' k'
                → IsOther i k i' k'
                → is_live K fs dev i' k' key ≡ false)
      owner i k place match =
          let old = entry_of K fs dev i k in
          let used : has_bit old.flags ddfs_dedup_free ≡ false = ground (arith, match) in
          let test : (old.blockptr == block) ≡ true = ground (arith, match) in
          let at : old.blockptr ≡ block = ==→eq old.blockptr block test in
          let mine : is_live K fs dev i k old.key ≡ true = rw (used, memcmp_refl 20 old.key) refl in
          let (value, _) = At-found K fs dev old.key i k place mine (holds old.key) in
          let same = only old.key old.ref_count (value ∙ ap (λ b. some (b, old.ref_count)) at) in
          let live : is_live K fs dev i k key ≡ true =
            sym (is_live_same K fs dev i k key old.key same) ∙ mine in
          let (value', alone) = At-found K fs dev key i k place live (holds key) in
          (same, at, ap count_of (sym value' ∙ present), alone)

      -- The entry of the key is found.
      owned :
          {value : Option (ℕ × ℕ)}
          → At K fs dev key value
          → value ≡ some (block, suc n)
          → (i : ℕ) × (k : ℕ) × IsPlace fs i k
            × (is_match (by_block block) (K.bread dev (block_sector fs i) fs.fs_bsize).1.b_data k
                ≡ true)
      owned (nowhere _) e = cc
      owned (here i k place found _) e =
          let at : (entry_of K fs dev i k).blockptr ≡ block = ap block_of e in
          let used : has_bit (entry_of K fs dev i k).flags ddfs_dedup_free ≡ false =
            ground (arith, found) in
          (i, k, place, rw (used, eq→== (entry_of K fs dev i k).blockptr block at) refl)

      unref_Leaves :
          {r : Option ℕ × K.Dev}
          → Unrefs A R fs dev block r
          → Leaves n (unref_store store key block n) r
      unref_Leaves (unknown none_of) =
          let (i, k, place, match) = owned (holds key) present in
          absurd (ground (arith, match, none_of i place.0 k place.1))
      unref_Leaves (freed i k {dev'} a b match last written) =
          let place : IsPlace fs i k = (a, b) in
          let old = entry_of K fs dev i k in
          let (same, at, count, alone) = owner i k place match in
          let fits = FitsDedup-entry_of A R fs dev i k b small in
          let size = fits.ref_count in
          let none_left : n ≡ 0 = omega (arith, last, count, size) in
          let blank : Dedup = record {
            key = zeroes;
            flags = set_bit 0 ddfs_dedup_free;
            ref_count = 0;
            blockptr = 0;
          } in
          let agrees = Agrees-written A R fs dev i k blank dev' b laid written (record {
            flags = unfold set_bit has_bit in omega arith;
            ref_count = omega arith;
            blockptr = omega arith;
          }) in
          let free : has_bit (entry_of K fs dev' i k).flags ddfs_dedup_free ≡ true =
            ap (λ flags. has_bit flags ddfs_dedup_free) agrees.flags
            ∙ has_bit-set_bit_self 0 ddfs_dedup_free in
          rw none_left (
            leaves dev' (
              Holds-gone K fs dev dev' i k place
                (λ i' k' inside other.
                  Agrees-elsewhere A R fs dev i k blank dev' b laid written i' k' inside.1 other)
                store key holds (λ key'. rw free refl) alone
                (λ key' differs.
                  let no : memcmp key' old.key 20 ≡ false =
                    memcmp_right 20 key' key old.key (memcmp_sym 20 key old.key ∙ same) ∙ differs in
                  rw no (ground arith))))
      unref_Leaves (lowered i k {dev'} a b match more written) =
          let place : IsPlace fs i k = (a, b) in
          let old = entry_of K fs dev i k in
          let (same, at, count, alone) = owner i k place match in
          let fits = FitsDedup-entry_of A R fs dev i k b small in
          let size = fits.ref_count in
          let left : (old.ref_count + 2 ^ 16 - 1) % 2 ^ 16 ≡ n = omega (arith, count, size) in
          let entry : Dedup = record old { ref_count = (old.ref_count + 2 ^ 16 - 1) % 2 ^ 16 } in
          let agrees =
            Agrees-written A R fs dev i k entry dev' b laid written
              (record { flags = fits.flags; ref_count = omega arith; blockptr = fits.blockptr }) in
          let used : has_bit old.flags ddfs_dedup_free ≡ false = ground (arith, match) in
          let same' : memcmp key old.key 20 ≡ true = memcmp_sym 20 key old.key ∙ same in
          let kept : Holds K fs dev' (put store key (some (block, n))) =
            Holds-put K fs dev dev' i k place
              (λ i' k' inside other.
                Agrees-elsewhere A R fs dev i k entry dev' b laid written i' k' inside.1 other)
              store key block n holds
              (λ key'.
                is_live_written K fs dev' i k entry key' agrees used
                ∙ memcmp_right 20 key' key old.key same')
              (agrees.blockptr ∙ at) (agrees.ref_count ∙ left) alone
              (λ key' differs.
                let no : memcmp key' old.key 20 ≡ false =
                  memcmp_right 20 key' key old.key same' ∙ differs in
                rw no (ground arith)) in
          rw left (leaves dev' (rw (unref_some store key block n (λ q. more (left ∙ q))) kept))

      -- On a device that does not fail, whose table's blocks do not overlap and hold a store: where
      -- the store has a block with `n` + 1 users under a key, and under no other, `ddtable_unref` of
      -- the block gives `n`, and the device then holds the store with the `n` users that are
      -- left, or without the key if that is 0, and nothing else changed.
      pub ddtable_unref-Leaves :
          Leaves n (unref_store store key block n) (ddtable_unref K fs dev block)
      ddtable_unref-Leaves = unref_Leaves (ddtable_unref-Unrefs A R fs dev block)
