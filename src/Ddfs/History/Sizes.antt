-- ===== src/Ddfs/History/Sizes.antt =====
-- What the operations of the dedup table write are bytes.
use native.Mathlib.Decide.{dec_lt}
use embedded_operating_syste.Base.{
  ℕ, zero, suc, ◌+◌, ◌-◌, ◌*◌, ◌/◌, ◌<◌, ◌≡◌, refl, ◌&&◌, Option, none, some, Bytes, if◌then◌else◌,
  ltb, leb, ◌==◌, arith,
}
use embedded_operating_syste.Kvfs.Bytes.{byte_at}
use embedded_operating_syste.Kvfs.Layout.{dev_bsize}
use embedded_operating_syste.Kvfs.Kernel.{Kernel, IsByteArray, IsReliable}
use embedded_operating_syste.Ddfs.Table.{
  Dedup, DedupFs, encode_dedup, sizeof_dedup, ddtable_alloc, alloc_locks, unref_waits,
  ddtable_unref, entries_per_block, block_sector,
}
use embedded_operating_syste.Ddfs.Table.Entries.{entry_of, entry_byte}
use embedded_operating_syste.Ddfs.Table.Update.{
  IsWritten, Allocates, counted, added, full, Unrefs, freed, lowered, unknown,
  ddtable_alloc-Allocates, ddtable_unref-Unrefs,
}
use embedded_operating_syste.Ddfs.Write.{Dinode, ufs_ndaddr, ffs_blkfree, dedup_block}
use embedded_operating_syste.Ddfs.Table.{decode_dedup}
use embedded_operating_syste.Base.{lt→ltb}
use embedded_operating_syste.Base.{Bool-cases}
use embedded_operating_syste.Base.{inl}
use embedded_operating_syste.Base.{inr}

byte_at_small : (v k : ℕ) → byte_at v k < 256
unfolding byte_at
byte_at_small v zero = omega arith
byte_at_small v (suc k) = byte_at_small (v / 256) k

encode_dedup_small :
    (entry : Dedup) (i : ℕ) → ((x : ℕ) → x < 20 → entry.key x < 256) → encode_dedup entry i < 256
unfolding encode_dedup
encode_dedup_small entry i small = elim (dec_lt i 20) [
  | yes in_key ↦ ground (arith, small i)
  | no behind ↦ ground (
    arith,
    byte_at_small entry.flags (i - 20),
    byte_at_small entry.ref_count (i - 22),
    byte_at_small entry.blockptr (i - 24),
  )
]

module _ {K : Kernel} {byte : K.Dev → ℕ → ℕ} (A : IsByteArray K byte) (R : IsReliable K)
    (fs : DedupFs) where
  -- The device is bytes.
  abbrev pub IsSmall : K.Dev → Type 0
  IsSmall dev = (a : ℕ) → byte dev a < 256

  IsSmall-written :
      (dev dev' : K.Dev) (i k : ℕ) (entry : Dedup)
      → IsSmall dev
      → ((x : ℕ) → x < 20 → entry.key x < 256)
      → IsWritten A R fs dev i k entry dev'
      → IsSmall dev'
  IsSmall-written dev dev' i k entry small keys written a =
      let at = block_sector fs i * dev_bsize + k * sizeof_dedup in
      elim (Bool-cases (leb at a && ltb a (at + sizeof_dedup))) [
        | inl inside ↦ rw (written a, inside) (encode_dedup_small entry (a - at) keys)
        | inr outside ↦ rw (written a, outside) (small a)
      ]

  key_small :
      (dev : K.Dev) (i k x : ℕ)
      → k < entries_per_block fs
      → x < 20
      → IsSmall dev
      → (entry_of K fs dev i k).key x < 256
  unfolding decode_dedup
  key_small dev i k x inside lt small =
      rw (entry_byte A R fs dev i k x inside (omega arith))
        (small (block_sector fs i * dev_bsize + (k * sizeof_dedup + x)))

  abbrev AllocSmall : Option (ℕ × K.Dev) → Type 0
  AllocSmall none = Unit
  AllocSmall (some (block, dev')) = IsSmall dev'

  alloc-AllocSmall :
      (dev : K.Dev) (key : Bytes) (in_block junk : ℕ) {r : Option (ℕ × K.Dev)}
      → IsSmall dev
      → ((x : ℕ) → x < 20 → key x < 256)
      → Allocates A R fs dev key in_block junk r
      → AllocSmall r
  alloc-AllocSmall dev key in_block junk small keys (counted i k {dev'} a b match written) =
      IsSmall-written dev dev' i k _ small (λ x lt. key_small dev i k x b lt small) written
  alloc-AllocSmall dev key in_block junk small keys (added i k {dev'} none_of a b free written) =
      IsSmall-written dev dev' i k _ small keys written
  alloc-AllocSmall dev key in_block junk small keys (full none_of no_free) = tt

  unref-IsSmall :
      (dev : K.Dev) (block : ℕ) {r : Option ℕ × K.Dev}
      → IsSmall dev
      → Unrefs A R fs dev block r
      → IsSmall r.1
  unref-IsSmall dev block small (unknown none_of) = small
  unref-IsSmall dev block small (freed i k {dev'} a b match last written) =
      IsSmall-written dev dev' i k _ small (λ x lt. omega arith) written
  unref-IsSmall dev block small (lowered i k {dev'} a b match more written) =
      IsSmall-written dev dev' i k _ small (λ x lt. key_small dev i k x b lt small) written

  module _ (Free : Type 0) (free : Free → ℕ → Free) where
    abbrev PairSmall : K.Dev × Free → Type 0
    PairSmall r = IsSmall r.0

    pub blkfree-IsSmall :
        (block : ℕ) (dev : K.Dev) (blocks : Free)
        → IsSmall dev
        → IsSmall (ffs_blkfree K fs Free free block dev blocks).0
    unfolding ffs_blkfree
    blkfree-IsSmall block dev blocks small =
        go (ddtable_unref K fs dev block)
          (unref-IsSmall dev block small (ddtable_unref-Unrefs A R fs dev block))
      where
        go :
            (r : Option ℕ × K.Dev)
            → IsSmall r.1
            → PairSmall (elim r.0 [
              | none ↦ (r.1, free blocks block)
              | some left ↦ if ltb 0 left then (r.1, blocks) else (r.1, free blocks block)
            ])
        go (none, dev') now = now
        go (some left, dev') now = elim (Bool-cases (ltb 0 left)) [
          | inl more ↦ rw more now
          | inr last ↦ rw last now
        ]

    abbrev pub WriteSmall : Option (Dinode × K.Dev × Free) → Type 0
    WriteSmall none = Unit
    WriteSmall (some (dp', dev', blocks')) = IsSmall dev'

    pub dedup_block-WriteSmall :
        (key : Bytes) (lbn junk : ℕ) (dp : Dinode) (dev : K.Dev) (blocks : Free)
        → IsSmall dev
        → ((x : ℕ) → x < 20 → key x < 256)
        → lbn < ufs_ndaddr
        → WriteSmall (dedup_block K fs Free free key lbn junk dp dev blocks)
    unfolding dedup_block
    dedup_block-WriteSmall key lbn junk dp dev blocks small keys inside =
        go (ddtable_alloc K fs dev key (dp.di_db lbn) junk) refl (
          alloc-AllocSmall dev key (dp.di_db lbn) junk small keys
            (ddtable_alloc-Allocates A R fs dev key (dp.di_db lbn) junk))
      where
        go :
            (r : Option (ℕ × K.Dev))
            → ddtable_alloc K fs dev key (dp.di_db lbn) junk ≡ r
            → AllocSmall r
            → WriteSmall (dedup_block K fs Free free key lbn junk dp dev blocks)
        go none at now = rw (dedup_block, lt→ltb lbn ufs_ndaddr inside, at) tt
        go (some (newblk, dev')) at now = elim (Bool-cases (newblk == dp.di_db lbn)) [
          | inl same ↦ rw (dedup_block, lt→ltb lbn ufs_ndaddr inside, at, same) now
          | inr differs ↦
              elim (Bool-cases (unref_waits K fs dev' (dp.di_db lbn) (alloc_locks K fs dev key))) [
                | inl waits ↦ rw (dedup_block, lt→ltb lbn ufs_ndaddr inside, at, differs, waits) tt
                | inr goes ↦
                    rw (dedup_block, lt→ltb lbn ufs_ndaddr inside, at, differs, goes)
                      (blkfree-IsSmall (dp.di_db lbn) dev' blocks now)
              ]
        ]
