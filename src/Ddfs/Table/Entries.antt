-- ===== src/Ddfs/Table/Entries.antt =====
-- The entries of the dedup table on a device, and how the writing of one shows in all of them.
use native.Mathlib.Decide.{dec_lt}
use native.Mathlib.Nat.{mul-le-mul_right, pow-suc}
use embedded_operating_syste.Base.{
  ℕ, zero, suc, ◌+◌, ◌-◌, ◌*◌, ◌^◌, ◌≤◌, ◌<◌, ◌≡◌, ◌≢◌, refl, Bool, false, not, ◌&&◌, arith, Bytes,
  offset, memcmp, memcmp_ext, has_bit, if◌then◌else◌, ltb, leb, ap, ap₂, ◌∙◌, sym, lt→leb, le→leb,
  lt→ltb, le→ltb,
}
use embedded_operating_syste.Kvfs.Bytes.{le, le_ext, le-byte_at}
use embedded_operating_syste.Kvfs.Kernel.{Kernel, IsByteArray, IsReliable}
use embedded_operating_syste.Kvfs.Layout.{dev_bsize}
use embedded_operating_syste.Ddfs.Table.{
  Dedup, DedupFs, by_key, encode_dedup, decode_dedup, entry_at, entries_per_block, block_sector,
  ddfs_dedup_free, sizeof_dedup,
}
use embedded_operating_syste.Ddfs.Table.Locate.{is_match}
use embedded_operating_syste.Ddfs.Table.Update.{IsWritten}

-- The entries are the same, with the 20 bytes of their keys.
pub record Agrees (x y : Dedup) : Type 0 where
  pub key : (i : ℕ) → i < 20 → x.key i ≡ y.key i
  pub flags : x.flags ≡ y.flags
  pub ref_count : x.ref_count ≡ y.ref_count
  pub blockptr : x.blockptr ≡ y.blockptr

pub record FitsDedup (entry : Dedup) : Type 0 where
  pub flags : entry.flags < 2 ^ 16
  pub ref_count : entry.ref_count < 2 ^ 16
  pub blockptr : entry.blockptr < 2 ^ 64

Agrees-of_bytes :
    (p q : Bytes)
    → ((i : ℕ) → i < sizeof_dedup → p i ≡ q i)
    → Agrees (decode_dedup p) (decode_dedup q)
unfolding decode_dedup
Agrees-of_bytes p q e = record {
  key = λ i lt. e i (omega arith);
  flags = le_ext 2 p q 20 20 (λ i lt. e (20 + i) (omega arith));
  ref_count = le_ext 2 p q 22 22 (λ i lt. e (22 + i) (omega arith));
  blockptr = le_ext 8 p q 24 24 (λ i lt. e (24 + i) (omega arith));
}

pub Agrees-encode_dedup :
    (entry : Dedup) (p : Bytes)
    → FitsDedup entry
    → ((i : ℕ) → i < sizeof_dedup → p i ≡ encode_dedup entry i)
    → Agrees (decode_dedup p) entry
unfolding decode_dedup encode_dedup
Agrees-encode_dedup entry p fits e = record {
  key = λ i lt. ground (arith, e i);
  flags =
      le-byte_at 2 entry.flags p 20 fits.flags
        (λ k lt. let s : 20 + k - 20 ≡ k = omega arith in ground (arith, e (20 + k)));
  ref_count =
      le-byte_at 2 entry.ref_count p 22 fits.ref_count
        (λ k lt. let s : 22 + k - 22 ≡ k = omega arith in ground (arith, e (22 + k)));
  blockptr =
      le-byte_at 8 entry.blockptr p 24 (omega (arith, fits.blockptr))
        (λ k lt. let s : 24 + k - 24 ≡ k = omega arith in ground (arith, e (24 + k)));
}

le_bound : (n : ℕ) (p : Bytes) (o : ℕ) → ((i : ℕ) → i < n → p (o + i) < 256) → le n p o < 256 ^ n
unfolding le
le_bound zero p o small = omega arith
le_bound (suc n) p o small =
    let here : p (o + 0) ≡ p o = ap p (omega arith) in
    let first : p o < 256 = rw (← here) (small 0 (omega arith)) in
    let rest = le_bound n p (o + 1) (λ i lt.
      let next : p (o + suc i) ≡ p (o + 1 + i) = ap p (omega arith) in
      rw (← next) (small (suc i) (omega arith))) in
    omega (arith, first, rest, pow-suc 256 n)

FitsDedup-of_bytes :
    (p : Bytes) → ((i : ℕ) → i < sizeof_dedup → p i < 256) → FitsDedup (decode_dedup p)
unfolding decode_dedup
FitsDedup-of_bytes p small = record {
  flags = le_bound 2 p 20 (λ i lt. small (20 + i) (omega arith));
  ref_count = le_bound 2 p 22 (λ i lt. small (22 + i) (omega arith));
  blockptr = omega (arith, le_bound 8 p 24 (λ i lt. small (24 + i) (omega arith)));
}

-- Blocks of the table do not overlap: a block has `fs_frag` fragments of 2 ^ `fs_fsbtodb` sectors.
abbrev pub IsLaidOut : DedupFs → Type 0
IsLaidOut fs = fs.fs_bsize ≤ fs.fs_frag * 2 ^ fs.fs_fsbtodb * dev_bsize

blocks_apart :
    (fs : DedupFs) (i j : ℕ)
    → IsLaidOut fs
    → i < j
    → block_sector fs i * dev_bsize + fs.fs_bsize ≤ block_sector fs j * dev_bsize
blocks_apart fs i j laid lt =
    let p = 2 ^ fs.fs_fsbtodb in
    let a : (i + 1) * fs.fs_frag ≤ j * fs.fs_frag = mul-le-mul_right fs.fs_frag (omega arith) in
    let b : (fs.fs_ddblkno + (i + 1) * fs.fs_frag) * p ≤ (fs.fs_ddblkno + j * fs.fs_frag) * p =
      mul-le-mul_right p (omega (arith, a)) in
    omega (arith, b, laid)

module _ (K : Kernel) (fs : DedupFs) where
  -- Entry `k` of block `i`.
  abbrev pub entry_of : K.Dev → ℕ → ℕ → Dedup
  entry_of dev i k = entry_at (K.bread dev (block_sector fs i) fs.fs_bsize).1.b_data k

  -- It is in use under the key.
  abbrev pub is_live : K.Dev → ℕ → ℕ → Bytes → Bool
  is_live dev i k key =
      is_match (by_key key) (K.bread dev (block_sector fs i) fs.fs_bsize).1.b_data k

  pub Agrees-is_live :
      (dev dev' : K.Dev) (i k i' k' : ℕ) (key : Bytes)
      → Agrees (entry_of dev i k) (entry_of dev' i' k')
      → is_live dev i k key ≡ is_live dev' i' k' key
  Agrees-is_live dev dev' i k i' k' key same =
      ap₂ (λ flags keys. not (has_bit flags ddfs_dedup_free) && keys) same.flags
        (memcmp_ext 20 key (entry_of dev i k).key (entry_of dev' i' k').key same.key)

  -- An entry in use after it was written.
  pub is_live_written :
      (dev : K.Dev) (i k : ℕ) (entry : Dedup) (key : Bytes)
      → Agrees (entry_of dev i k) entry
      → has_bit entry.flags ddfs_dedup_free ≡ false
      → is_live dev i k key ≡ memcmp key entry.key 20
  is_live_written dev i k entry key same used =
      rw (same.flags, used) (memcmp_ext 20 key (entry_of dev i k).key entry.key same.key)

module _ {K : Kernel} {byte : K.Dev → ℕ → ℕ} (A : IsByteArray K byte) (R : IsReliable K)
    (fs : DedupFs) where
  -- The bytes of an entry.
  pub entry_byte :
      (dev : K.Dev) (i k x : ℕ)
      → k < entries_per_block fs
      → x < sizeof_dedup
      → (K.bread dev (block_sector fs i) fs.fs_bsize).1.b_data (k * sizeof_dedup + x)
        ≡ byte dev (block_sector fs i * dev_bsize + (k * sizeof_dedup + x))
  entry_byte dev i k x inside small =
      A.bread_data dev (block_sector fs i) fs.fs_bsize (k * sizeof_dedup + x)
        (R.bread_ok dev (block_sector fs i) fs.fs_bsize) (omega arith)

  -- An entry of bytes fits its fields.
  pub FitsDedup-entry_of :
      (dev : K.Dev) (i k : ℕ)
      → k < entries_per_block fs
      → ((a : ℕ) → byte dev a < 256)
      → FitsDedup (entry_of K fs dev i k)
  FitsDedup-entry_of dev i k inside small =
      FitsDedup-of_bytes
        (offset (K.bread dev (block_sector fs i) fs.fs_bsize).1.b_data (k * sizeof_dedup))
        (λ x lt.
          rw (entry_byte dev i k x inside lt)
            (small (block_sector fs i * dev_bsize + (k * sizeof_dedup + x))))

  module _ (dev : K.Dev) (i k : ℕ) (entry : Dedup) (dev' : K.Dev)
      (inside : k < entries_per_block fs) (laid : IsLaidOut fs)
      (written : IsWritten A R fs dev i k entry dev') where
    -- The entry that is written.
    pub Agrees-written : FitsDedup entry → Agrees (entry_of K fs dev' i k) entry
    Agrees-written fits =
        let at = block_sector fs i * dev_bsize + k * sizeof_dedup in
        Agrees-encode_dedup entry
          (offset (K.bread dev' (block_sector fs i) fs.fs_bsize).1.b_data (k * sizeof_dedup)) fits
          (λ x lt.
            let j = block_sector fs i * dev_bsize + (k * sizeof_dedup + x) in
            let back : j - at ≡ x = omega arith in
            entry_byte dev' i k x inside lt
            ∙ written j
            ∙ rw (le→leb at j (omega arith), lt→ltb j (at + sizeof_dedup) (omega arith), back) refl)

    outside :
        (i' k' x : ℕ)
        → k' < entries_per_block fs
        → (i' ≡ i → k' ≢ k)
        → x < sizeof_dedup
        → let at = block_sector fs i * dev_bsize + k * sizeof_dedup in
          let j = block_sector fs i' * dev_bsize + (k' * sizeof_dedup + x) in
          (if leb at j && ltb j (at + sizeof_dedup)
            then encode_dedup entry (j - at)
            else byte dev j)
          ≡ byte dev j
    outside i' k' x inside' differs lt =
        let at = block_sector fs i * dev_bsize + k * sizeof_dedup in
        let j = block_sector fs i' * dev_bsize + (k' * sizeof_dedup + x) in
        let left : j < at
            → (if leb at j && ltb j (at + sizeof_dedup)
                then encode_dedup entry (j - at)
                else byte dev j)
              ≡ byte dev j =
          λ q. rw (lt→leb at j q) refl in
        let right : at + sizeof_dedup ≤ j
            → (if leb at j && ltb j (at + sizeof_dedup)
                then encode_dedup entry (j - at)
                else byte dev j)
              ≡ byte dev j =
          λ q. rw (le→leb at j (omega arith), le→ltb j (at + sizeof_dedup) q) refl in
        elim (dec_lt i' i) [
          | yes before ↦ left (omega (arith, blocks_apart fs i' i laid before))
          | no not_before ↦ elim (dec_lt i i') [
            | yes after ↦ right (omega (arith, blocks_apart fs i i' laid after))
            | no not_after ↦
                let same : i' ≡ i = omega arith in
                let ne : k' ≢ k = differs same in
                let base : block_sector fs i' ≡ block_sector fs i = ap (block_sector fs) same in
                elim (dec_lt k' k) [
                  | yes below ↦ left (omega (arith, base))
                  | no above ↦ right (omega (arith, base, ne))
                ]
          ]
        ]

    -- Every other entry.
    pub Agrees-elsewhere :
        (i' k' : ℕ)
        → k' < entries_per_block fs
        → (i' ≡ i → k' ≢ k)
        → Agrees (entry_of K fs dev' i' k') (entry_of K fs dev i' k')
    Agrees-elsewhere i' k' inside' differs =
        Agrees-of_bytes
          (offset (K.bread dev' (block_sector fs i') fs.fs_bsize).1.b_data (k' * sizeof_dedup))
          (offset (K.bread dev (block_sector fs i') fs.fs_bsize).1.b_data (k' * sizeof_dedup))
          (λ x lt.
            entry_byte dev' i' k' x inside' lt
            ∙ written (block_sector fs i' * dev_bsize + (k' * sizeof_dedup + x))
            ∙ outside i' k' x inside' differs lt
            ∙ sym (entry_byte dev i' k' x inside' lt))
