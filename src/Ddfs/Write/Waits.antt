-- ===== src/Ddfs/Write/Waits.antt =====
-- The write that waits for a buffer of the table that it has locked itself.
use embedded_operating_syste.Base.{
  ℕ, zero, suc, ◌+◌, ◌≤◌, ◌<◌, ◌≡◌, ◌≢◌, refl, Bool, true, false, Option, none, some, Bytes, ◌==◌,
  if◌then◌else◌, arith, ◌∙◌, sym, ap, subst, eq→==, ne→==, lt→ltb, Bool-cases, inl, inr,
}
use embedded_operating_syste.Kvfs.Kernel.{Kernel, IsByteArray, IsReliable}
use embedded_operating_syste.Ddfs.Table.{
  DedupFs, Sought, by_key, by_block, Slot, Located, found, not_found, read_error, wanted, entry_at,
  first_free, entry_loop, block_loop, ddtable_locate, ddtable_alloc, alloc_locks, reads_loop,
  unref_waits, num_blocks, entries_per_block, block_sector,
}
use embedded_operating_syste.Ddfs.Table.Alloc.{
  CanAlloc, Returns, returns, alloc_store, ddtable_alloc-Returns,
}
use embedded_operating_syste.Ddfs.Table.Entries.{IsLaidOut}
use embedded_operating_syste.Ddfs.Table.Locate.{
  is_match, is_free, NoMatch, Scanned, hit, kept, new, entry_loop-Scanned,
}
use embedded_operating_syste.Ddfs.Table.Store.{Store, put, Holds}
use embedded_operating_syste.Ddfs.Write.{Dinode, ufs_ndaddr, dedup_block}
use embedded_operating_syste.Ddfs.Write.Refines.{IsUnknown, not_matched, still-IsUnknown}

-- Every free place that is kept is in a sector with the property.
module _ {K : Kernel} (R : IsReliable K) (fs : DedupFs) (dev : K.Dev) (sought : Sought)
    (P : ℕ → Type 0) where
  abbrev IsIn : Option Slot → Type 0
  IsIn none = Unit
  IsIn (some slot) = P slot.dd_lbn

  abbrev IsKept : Located → Type 0
  IsKept (found slot freebp) = IsIn freebp
  IsKept (not_found freespot) = Unit
  IsKept (read_error error) = Unit

  first_free-IsIn :
      (want_free : Bool) (slot : Slot) (f : Option Slot)
      → P slot.dd_lbn
      → IsIn f
      → IsIn (first_free want_free slot f)
  first_free-IsIn want_free slot (some s) here before = before
  first_free-IsIn true slot none here before = here
  first_free-IsIn false slot none here before = tt

  entry_loop-IsIn :
      (want_free : Bool) (dd_lbn : ℕ) (b_data : Bytes) (n k : ℕ) (f : Option Slot)
      → P dd_lbn
      → IsIn f
      → IsIn (entry_loop sought want_free dd_lbn b_data n k f).1
  unfolding entry_loop
  entry_loop-IsIn want_free dd_lbn b_data zero k f here before = before
  entry_loop-IsIn want_free dd_lbn b_data (suc n) k f here before =
      elim (Bool-cases (is_free b_data k)) [
        | inl free ↦ rw free (
            entry_loop-IsIn want_free dd_lbn b_data n (k + 1) _ here
              (first_free-IsIn want_free _ f here before))
        | inr used ↦ elim (Bool-cases (wanted sought (entry_at b_data k))) [
          | inl yes_k ↦ rw (used, yes_k) before
          | inr no_k ↦
              rw (used, no_k) (entry_loop-IsIn want_free dd_lbn b_data n (k + 1) f here before)
        ]
      ]

  block_step-IsKept :
      (n i : ℕ) (dd_lbn : ℕ) (b_data : Bytes) (r : Option ℕ × Option Slot)
      → IsIn r.1
      → ((f : Option Slot) → IsIn f → IsKept (block_loop K fs dev sought true n (i + 1) f))
      → IsKept (elim r.0 [
        | some idx ↦ found (record { dd_lbn = dd_lbn; b_data = b_data; idx = idx }) r.1
        | none ↦ block_loop K fs dev sought true n (i + 1) r.1
      ])
  block_step-IsKept n i dd_lbn b_data (some idx, f) now later = now
  block_step-IsKept n i dd_lbn b_data (none, f) now later = later f now

  block_loop-IsKept :
      (n i : ℕ) (f : Option Slot)
      → ((m : ℕ) → i ≤ m → m < i + n → P (block_sector fs m))
      → IsIn f
      → IsKept (block_loop K fs dev sought true n i f)
  unfolding block_loop
  block_loop-IsKept zero i f all before = tt
  block_loop-IsKept (suc n) i f all before =
      let b_data = (K.bread dev (block_sector fs i) fs.fs_bsize).1.b_data in
      rw (R.bread_ok dev (block_sector fs i) fs.fs_bsize) (
        block_step-IsKept n i (block_sector fs i) b_data
          (entry_loop sought true (block_sector fs i) b_data (entries_per_block fs) 0 f)
          (entry_loop-IsIn true (block_sector fs i) b_data (entries_per_block fs) 0 f
            (all i (omega arith) (omega arith)) before)
          (λ f' now.
            block_loop-IsKept n (i + 1) f' (λ m a b. all m (omega arith) (omega arith)) now))

module _ {K : Kernel} (R : IsReliable K) (fs : DedupFs) (dev : K.Dev) where
  -- The buffer that stays locked is one of the table.
  alloc_locks-sector :
      (key : Bytes) (sector : ℕ)
      → alloc_locks K fs dev key ≡ some sector
      → (j : ℕ) × (j < num_blocks fs) × (block_sector fs j ≡ sector)
  unfolding alloc_locks ddtable_locate
  alloc_locks-sector key sector =
      go (block_loop K fs dev (by_key key) true (num_blocks fs) 0 none) (
        block_loop-IsKept R fs dev (by_key key) P (num_blocks fs) 0 none
          (λ m a b. (m, omega arith, refl)) tt)
    where
      P : ℕ → Type 0
      P s = (j : ℕ) × (j < num_blocks fs) × (block_sector fs j ≡ s)

      go :
          (r : Located)
          → IsKept R fs dev (by_key key) P r
          → (elim r [
            | read_error error ↦ none
            | not_found freespot ↦ none
            | found slot none ↦ none
            | found slot (some freespot) ↦
                if freespot.dd_lbn == slot.dd_lbn then none else some freespot.dd_lbn
          ])
            ≡ some sector
          → P sector
      go (read_error error) inside e = cc
      go (not_found freespot) inside e = cc
      go (found slot none) inside e = cc
      go (found slot (some freespot)) inside e =
          elim (Bool-cases (freespot.dd_lbn == slot.dd_lbn)) [
            | inl same ↦ let wrong : none ≡ some sector = rw same at e in cc
            | inr differs ↦
                let at : some freespot.dd_lbn ≡ some sector = rw differs at e in
                let here : freespot.dd_lbn ≡ sector = cc in (inside.0, inside.1, inside.2 ∙ here)
          ]

  -- A search without a match reads every block.
  missed :
      (sought : Sought) (dd_lbn : ℕ) (b_data : Bytes) (n : ℕ) {r : Option ℕ × Option Slot}
      → ((k : ℕ) → k < n → is_match sought b_data k ≡ false)
      → Scanned sought false dd_lbn b_data 0 n none r
      → r.0 ≡ none
  missed sought dd_lbn b_data n none_of (hit j a b match before) =
      let wrong : true ≡ false = sym match ∙ none_of j (omega arith) in cc
  missed sought dd_lbn b_data n none_of (kept a b) = refl
  missed sought dd_lbn b_data n none_of (new j a b c d e) = refl

  reads_loop-all :
      (sought : Sought) (j n i : ℕ)
      → i ≤ j
      → j < i + n
      → ((m : ℕ) → i ≤ m → m < i + n → NoMatch R fs dev sought false m)
      → reads_loop K fs dev sought (block_sector fs j) n i ≡ true
  unfolding reads_loop
  reads_loop-all sought j zero i a b none_of = absurd (omega arith)
  reads_loop-all sought j (suc n) i a b none_of =
      elim (Bool-cases (block_sector fs i == block_sector fs j)) [
        | inl same ↦ rw same refl
        | inr differs ↦
            let other : i ≢ j = λ q.
              let same = eq→== (block_sector fs i) (block_sector fs j) (ap (block_sector fs) q) in
              absurd cc in
            let nothing =
              missed sought (block_sector fs i)
                (K.bread dev (block_sector fs i) fs.fs_bsize).1.b_data (entries_per_block fs)
                (none_of i (omega arith) (omega arith))
                (entry_loop-Scanned sought false (block_sector fs i) _ (entries_per_block fs) 0
                  none) in
            rw (differs, R.bread_ok dev (block_sector fs i) fs.fs_bsize, nothing)
              (reads_loop-all sought j n (i + 1) (omega (arith, other)) (omega arith)
                (λ m c d. none_of m (omega arith) (omega arith)))
      ]

module _ {K : Kernel} {byte : K.Dev → ℕ → ℕ} (A : IsByteArray K byte) (R : IsReliable K)
    (fs : DedupFs) (Free : Type 0) (free : Free → ℕ → Free) (dev : K.Dev) (store : Store)
    (laid : IsLaidOut fs) (small : (a : ℕ) → byte dev a < 256) (holds : Holds K fs dev store)
    (blocks : Free) where
  -- On a device that does not fail, whose table's blocks do not overlap and hold a store: for a
  -- direct block of the file that no key has yet, the write of content that the store has a block
  -- for never returns where `ddtable_alloc` leaves a buffer locked, since `ffs_blkfree` of the
  -- file's own block then waits for it.
  pub dedup_block_waits :
      (key : Bytes) (block count lbn junk sector : ℕ) (dp : Dinode)
      → lbn < ufs_ndaddr
      → CanAlloc A R fs dev store key (dp.di_db lbn) junk
      → IsUnknown store (dp.di_db lbn)
      → store key ≡ some (block, count)
      → alloc_locks K fs dev key ≡ some sector
      → dedup_block K fs Free free key lbn junk dp dev blocks ≡ none
  unfolding dedup_block unref_waits
  dedup_block_waits key block count lbn junk sector dp inside can absent present locked =
      go (ddtable_alloc K fs dev key old junk) refl (
        subst
          (λ v. Returns A R fs (alloc_store store key old v) (ddtable_alloc K fs dev key old junk))
          present (ddtable_alloc-Returns A R fs dev store laid small holds key old junk can))
    where
      old : ℕ
      old = dp.di_db lbn

      go :
          (r : Option (ℕ × K.Dev))
          → ddtable_alloc K fs dev key old junk ≡ r
          → Returns A R fs (alloc_store store key old (some (block, count))) r
          → dedup_block K fs Free free key lbn junk dp dev blocks ≡ none
      go r at (returns dev' now) =
          let differs : block ≢ old =
            λ q. absent key count (present ∙ ap (λ b. some (b, count)) q) in
          let later = put store key (some (block, count + 1)) in
          let (j, low, here) = alloc_locks-sector R fs dev key sector locked in
          let all =
            reads_loop-all R fs dev' (by_block old) j (num_blocks fs) 0 (omega arith)
              (omega (arith, low))
              (λ m a b k c.
                elim (Bool-cases (
                  is_match (by_block old) (K.bread dev' (block_sector fs m) fs.fs_bsize).1.b_data
                    k)) [
                      | inl match ↦ absurd (
                          not_matched A R fs dev' later old m k now
                            (still-IsUnknown A R fs Free free dev store laid small holds blocks key
                              old block (count + 1) absent differs)
                            (omega arith, c) match)
                      | inr no_match ↦ no_match
                    ]) in
          rw
            (
              dedup_block,
              lt→ltb lbn ufs_ndaddr inside,
              at,
              ne→== block old differs,
              locked,
              ← here,
              all,
            )
            refl
