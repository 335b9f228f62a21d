-- ===== src/Ddfs/Newfs/Empty.antt =====
-- The dedup table that newfs makes holds no key.
use native.Mathlib.Decide.{dec_lt}
use native.Mathlib.Nat.{mul-le-mul_right, div-mul-le_self}
use embedded_operating_syste.Base.{
  ℕ, zero, suc, ◌+◌, ◌-◌, ◌*◌, ◌/◌, ◌%◌, ◌^◌, ◌≤◌, ◌<◌, ◌≡◌, refl, true, ◌&&◌, Option, none, some,
  Bytes, offset, arith, if◌then◌else◌, ltb, leb, has_bit, set_bit, has_bit-set_bit_self, ◌∙◌, ap,
  sym, lt→ltb, lt→leb, le→leb,
}
use embedded_operating_syste.Kvfs.Kernel.{Kernel, IsByteArray, IsReliable}
use embedded_operating_syste.Kvfs.Layout.{dev_bsize, int_to_size, int_to_size_small}
use embedded_operating_syste.Ddfs.Table.{
  DedupFs, encode_dedup, sizeof_dedup, ddfs_dedup_free, num_blocks, entries_per_block, block_sector,
}
use embedded_operating_syste.Ddfs.Table.Entries.{Agrees, Agrees-encode_dedup, entry_byte, entry_of}
use embedded_operating_syste.Ddfs.Table.Store.{Holds, nowhere}
use embedded_operating_syste.Ddfs.Newfs.{place, free_entry, free_fragment, init_loop}

-- `bwrite` writes the bytes to the sectors, or fails.
pub record WritesBytes (Dev : Type 0) (byte : Dev → ℕ → ℕ)
    (bwrite : Dev → ℕ → Bytes → ℕ → Option Dev) : Type 0 where
  pub written :
      (d d' : Dev) (lbn : ℕ) (p : Bytes) (n : ℕ)
      → bwrite d lbn p n ≡ some d'
      → (j : ℕ)
      → byte d' j ≡ (
          if leb (lbn * dev_bsize) j && ltb j (lbn * dev_bsize + n)
          then p (j - lbn * dev_bsize)
          else byte d j)

abbrev get : {Dev : Type 0} → Dev → Option Dev → Dev
get dev none = dev
get dev (some dev') = dev'

module _ {Dev : Type 0} {byte : Dev → ℕ → ℕ} (bwrite : Dev → ℕ → Bytes → ℕ → Option Dev)
    (W : WritesBytes Dev byte bwrite) (u dd : ℕ) where
  -- The fragments of `u` sectors from `i` on are free entries; the others are as before.
  filled :
      (n i : ℕ) (dev dev' : Dev)
      → u * (dd + i + n) < 2 ^ 31
      → init_loop Dev bwrite (u * dev_bsize) dd n i dev ≡ some dev'
      → (j : ℕ)
      → (u * (dd + i) * dev_bsize ≤ j
          → j < u * (dd + i + n) * dev_bsize
          → byte dev' j ≡ encode_dedup free_entry (j % sizeof_dedup))
        × (j < u * (dd + i) * dev_bsize → byte dev' j ≡ byte dev j)
  unfolding init_loop free_fragment
  filled zero i dev dev' inside e j =
      let same : dev ≡ dev' = ap (get dev) e in
      (λ a b. absurd (omega arith), λ a. ap (λ d. byte d j) (sym same))
  filled (suc n) i dev dev' inside e j =
      go
        (bwrite dev (int_to_size (u * dev_bsize / dev_bsize * (dd + i))) free_fragment
          (u * dev_bsize))
        refl (λ dev₁ e'. filled n (i + 1) dev₁ dev' (omega (arith, inside)) e' j)
    where
      go :
          (r : Option Dev)
          → bwrite dev
              (int_to_size (u * dev_bsize / dev_bsize * (dd + i)))
              free_fragment
              (u * dev_bsize)
            ≡ r
          → ((dev₁ : Dev)
              → init_loop Dev bwrite (u * dev_bsize) dd n (i + 1) dev₁ ≡ some dev'
              → (u * (dd + (i + 1)) * dev_bsize ≤ j
                  → j < u * (dd + (i + 1) + n) * dev_bsize
                  → byte dev' j ≡ encode_dedup free_entry (j % sizeof_dedup))
                × (j < u * (dd + (i + 1)) * dev_bsize → byte dev' j ≡ byte dev₁ j))
          → (u * (dd + i) * dev_bsize ≤ j
              → j < u * (dd + i + suc n) * dev_bsize
              → byte dev' j ≡ encode_dedup free_entry (j % sizeof_dedup))
            × (j < u * (dd + i) * dev_bsize → byte dev' j ≡ byte dev j)
      go none q later =
          let stopped : init_loop Dev bwrite (u * dev_bsize) dd (suc n) i dev ≡ none =
            rw (init_loop, q) refl in
          let wrong : none ≡ some dev' = sym stopped ∙ e in cc
      go (some dev₁) q later =
          let onward : init_loop Dev bwrite (u * dev_bsize) dd (suc n) i dev
              ≡ init_loop Dev bwrite (u * dev_bsize) dd n (i + 1) dev₁ =
            rw (init_loop, q) refl in
          let (behind, before) = later dev₁ (sym onward ∙ e) in
          let base = u * (dd + i) * dev_bsize in
          let sectors : u * dev_bsize / dev_bsize ≡ u = omega arith in
          let at : int_to_size (u * dev_bsize / dev_bsize * (dd + i)) ≡ u * (dd + i) =
            ap (λ v. int_to_size (v * (dd + i))) sectors
            ∙ int_to_size_small (u * (dd + i)) (omega (arith, inside)) in
          let first : byte dev₁ j ≡ (
              if leb base j && ltb j (base + u * dev_bsize)
              then free_fragment (j - base)
              else byte dev j) =
            rw (← at) (
              W.written dev dev₁ (int_to_size (u * dev_bsize / dev_bsize * (dd + i))) free_fragment
                (u * dev_bsize) q j) in
          (
            λ a b. elim (dec_lt j (u * (dd + (i + 1)) * dev_bsize)) [
              | yes inside ↦
                  let rest : (j - base) % sizeof_dedup ≡ j % sizeof_dedup = omega arith in
                  before inside
                  ∙ first
                  ∙ rw (le→leb base j a, lt→ltb j (base + u * dev_bsize) (omega arith))
                      (ap (encode_dedup free_entry) rest)
              | no out ↦ behind (omega arith) (omega arith)
            ],
            λ a. before (omega arith) ∙ first ∙ rw (lt→leb base j a) refl,
          )

  -- Where every write succeeds, so does the loop.
  returned :
      ((d : Dev) (lbn : ℕ) (p : Bytes) (n : ℕ) → (d' : Dev) × (bwrite d lbn p n ≡ some d'))
      → (n i : ℕ) (dev : Dev)
      → (dev' : Dev) × (init_loop Dev bwrite (u * dev_bsize) dd n i dev ≡ some dev')
  unfolding init_loop
  returned succeeds zero i dev = (dev, refl)
  returned succeeds (suc n) i dev =
      let (dev₁, e) =
        succeeds dev (int_to_size (u * dev_bsize / dev_bsize * (dd + i))) free_fragment
          (u * dev_bsize) in
      let (dev', rest) = returned succeeds n (i + 1) dev₁ in (dev', rw (init_loop, e) rest)

-- The superblock's fields for a medium, of fragments of 2 ^ `fsbtodb` sectors.
abbrev pub made_fs : ℕ → ℕ → ℕ → ℕ → DedupFs
made_fs fs_frag fsbtodb fs_sblockloc mediasize =
    let fields = place (2 ^ fsbtodb * dev_bsize) fs_frag fs_sblockloc mediasize in
    record {
      fs_dedupfrags = fields.fs_dedupfrags;
      fs_frag = fs_frag;
      fs_bsize = fs_frag * (2 ^ fsbtodb * dev_bsize);
      fs_ddblkno = fields.fs_ddblkno;
      fs_fsbtodb = fsbtodb;
    }

module _ {K : Kernel} {byte : K.Dev → ℕ → ℕ} (A : IsByteArray K byte) (R : IsReliable K)
    (bwrite : K.Dev → ℕ → Bytes → ℕ → Option K.Dev) (W : WritesBytes K.Dev byte bwrite) where
  -- An entry on a table of free entries.
  free_entry_of :
      (fs : DedupFs) (dev : K.Dev)
      → fs.fs_bsize ≡ fs.fs_frag * (2 ^ fs.fs_fsbtodb * dev_bsize)
      → ((j : ℕ)
          → 2 ^ fs.fs_fsbtodb * (fs.fs_ddblkno + 0) * dev_bsize ≤ j
          → j < 2 ^ fs.fs_fsbtodb * (fs.fs_ddblkno + 0 + fs.fs_dedupfrags) * dev_bsize
          → byte dev j ≡ encode_dedup free_entry (j % sizeof_dedup))
      → (i k : ℕ) → i < num_blocks fs
      → k < entries_per_block fs
      → has_bit (entry_of K fs dev i k).flags ddfs_dedup_free ≡ true
  unfolding free_entry
  free_entry_of fs dev size table i k a b =
      let u = 2 ^ fs.fs_fsbtodb in
      let blocks : (i + 1) * fs.fs_frag ≤ fs.fs_dedupfrags = omega (
        arith,
        mul-le-mul_right {m = i + 1} {n = num_blocks fs} fs.fs_frag (omega arith),
        div-mul-le_self fs.fs_dedupfrags fs.fs_frag,
      ) in
      let sectors : (fs.fs_ddblkno + (i + 1) * fs.fs_frag) * u
          ≤ (fs.fs_ddblkno + fs.fs_dedupfrags) * u =
        mul-le-mul_right u (omega (arith, blocks)) in
      let agrees : Agrees (entry_of K fs dev i k) free_entry =
        Agrees-encode_dedup free_entry
          (offset (K.bread dev (block_sector fs i) fs.fs_bsize).1.b_data (k * sizeof_dedup))
          (record {
            flags = unfold set_bit has_bit in omega arith;
            ref_count = omega arith;
            blockptr = omega arith;
          })
          (λ x lt.
            let j = block_sector fs i * dev_bsize + (k * sizeof_dedup + x) in
            let at : j % sizeof_dedup ≡ x = omega arith in
            entry_byte A R fs dev i k x b lt
            ∙ table j (omega arith) (omega (arith, sectors, size))
            ∙ ap (encode_dedup free_entry) at) in
      ap (λ flags. has_bit flags ddfs_dedup_free) agrees.flags
      ∙ has_bit-set_bit_self 0 ddfs_dedup_free

  -- On a medium where every write succeeds, whatever was on it: where the place that newfs computes
  -- for the dedup table ends below sector 2 ^ 31, the table holds no key after newfs has
  -- initialised it.
  pub init_loop-Holds :
      (fs_frag fsbtodb fs_sblockloc mediasize : ℕ) (dev : K.Dev)
      → ((d : K.Dev) (lbn : ℕ) (p : Bytes) (n : ℕ) → (d' : K.Dev) × (bwrite d lbn p n ≡ some d'))
      → let fs = made_fs fs_frag fsbtodb fs_sblockloc mediasize in
        2 ^ fsbtodb * (fs.fs_ddblkno + fs.fs_dedupfrags) < 2 ^ 31
        → (dev' : K.Dev) × (init_loop K.Dev bwrite
              (2 ^ fsbtodb * dev_bsize)
              fs.fs_ddblkno
              fs.fs_dedupfrags
              0
              dev
            ≡ some dev')
          × Holds K fs dev' (λ key. none)
  init_loop-Holds fs_frag fsbtodb fs_sblockloc mediasize dev succeeds inside =
      let fs = made_fs fs_frag fsbtodb fs_sblockloc mediasize in
      let u = 2 ^ fsbtodb in
      let (dev', e) = returned bwrite W u fs.fs_ddblkno succeeds fs.fs_dedupfrags 0 dev in
      let table =
        filled bwrite W u fs.fs_ddblkno fs.fs_dedupfrags 0 dev dev' (omega (arith, inside)) e in
      (
        dev',
        e,
        λ key. nowhere (λ i k place.
            rw (free_entry_of fs dev' refl (λ j a b. (table j).0 a b) i k place.0 place.1) refl),
      )
