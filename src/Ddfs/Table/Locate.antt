-- ===== src/Ddfs/Table/Locate.antt =====
-- What `ddtable_locate` finds.
use native.Mathlib.Decide.{ℕ_discrete}
use embedded_operating_syste.Base.{
  ℕ, zero, suc, ◌+◌, ◌*◌, ◌≤◌, ◌<◌, ◌≡◌, refl, Bool, true, false, not, ◌&&◌, Option, none, some,
  arith, Bytes, has_bit, Bool-cases, inl, inr, subst, ◌∙◌,
}
use embedded_operating_syste.Kvfs.Kernel.{Kernel, IsReliable}
use embedded_operating_syste.Ddfs.Table.{
  DedupFs, Sought, Slot, Located, found, not_found, wanted, entry_at, first_free, entry_loop,
  block_loop, ddtable_locate, num_blocks, entries_per_block, block_sector, ddfs_dedup_free,
  sizeof_dedup,
}

-- Entry `k` of a block is free; it is in use and the one that is looked for.
abbrev pub is_free : Bytes → ℕ → Bool
is_free b_data k = has_bit (entry_at b_data k).flags ddfs_dedup_free

abbrev pub is_match : Sought → Bytes → ℕ → Bool
is_match sought b_data k = not (is_free b_data k) && wanted sought (entry_at b_data k)

abbrev pub slot_at : ℕ → Bytes → ℕ → Slot
slot_at dd_lbn b_data k = record { dd_lbn = dd_lbn; b_data = b_data; idx = k * sizeof_dedup }

module _ (sought : Sought) (want_free : Bool) (dd_lbn : ℕ) (b_data : Bytes) where
  -- What the loop over `n` entries from `k` on has seen.
  pub data Scanned (k n : ℕ) (freespot : Option Slot) : Option ℕ × Option Slot → Type 0 where
    hit :
        (j : ℕ) {f : Option Slot}
        → k ≤ j
        → j < k + n
        → is_match sought b_data j ≡ true
        → ((m : ℕ) → k ≤ m → m < j → is_match sought b_data m ≡ false)
        → Scanned k n freespot (some (j * sizeof_dedup), f)
    kept :
        ((m : ℕ) → k ≤ m → m < k + n → is_match sought b_data m ≡ false)
        → (want_free ≡ true
            → freespot ≡ none
            → (m : ℕ) → k ≤ m
            → m < k + n
            → is_free b_data m ≡ false)
        → Scanned k n freespot (none, freespot)
    new :
        (j : ℕ)
        → ((m : ℕ) → k ≤ m → m < k + n → is_match sought b_data m ≡ false)
        → k ≤ j
        → j < k + n
        → is_free b_data j ≡ true
        → freespot ≡ none
        → Scanned k n freespot (none, some (slot_at dd_lbn b_data j))

  from_next :
      (p : ℕ → Bool) (k e : ℕ)
      → p k ≡ false
      → ((m : ℕ) → k + 1 ≤ m → m < e → p m ≡ false)
      → (m : ℕ) → k ≤ m
      → m < e
      → p m ≡ false
  from_next p k e here later m a b = elim (ℕ_discrete k m) [
    | yes q ↦ rw (← q) here
    | no ne ↦ later m (omega arith) b
  ]

  -- An entry that is no match and does not change the free place.
  Scanned-passed :
      (k n : ℕ) (freespot : Option Slot) {r : Option ℕ × Option Slot}
      → is_match sought b_data k ≡ false
      → (want_free ≡ true → freespot ≡ none → is_free b_data k ≡ false)
      → Scanned (k + 1) n freespot r
      → Scanned k (suc n) freespot r
  Scanned-passed k n freespot differs used (hit j a b m before) =
      hit j (omega arith) (omega arith) m (from_next (is_match sought b_data) k j differs before)
  Scanned-passed k n freespot differs used (kept none_of free) =
      kept
        (from_next (is_match sought b_data) k (k + suc n) differs
          (λ m a b. none_of m a (omega arith)))
        (λ w e.
          from_next (is_free b_data) k (k + suc n) (used w e) (λ m a b. free w e m a (omega arith)))
  Scanned-passed k n freespot differs used (new j none_of a b free e) =
      new j
        (from_next (is_match sought b_data) k (k + suc n) differs
          (λ m c d. none_of m c (omega arith)))
        (omega arith) (omega arith) free e

  -- The first free entry.
  Scanned-first :
      (k n : ℕ) {r : Option ℕ × Option Slot}
      → is_free b_data k ≡ true
      → Scanned (k + 1) n (some (slot_at dd_lbn b_data k)) r
      → Scanned k (suc n) none r
  Scanned-first k n free (hit j a b m before) =
      hit j (omega arith) (omega arith) m
        (from_next (is_match sought b_data) k j (rw free refl) before)
  Scanned-first k n free (kept none_of full) =
      new k
        (from_next (is_match sought b_data) k (k + suc n) (rw free refl)
          (λ m a b. none_of m a (omega arith)))
        (omega arith) (omega arith) free refl
  Scanned-first k n free (new j none_of a b free' e) = cc

  at_free :
      (n k : ℕ) (freespot : Option Slot)
      → is_free b_data k ≡ true
      → ((f : Option Slot)
          → Scanned (k + 1) n f (entry_loop sought want_free dd_lbn b_data n (k + 1) f))
      → Scanned k (suc n) freespot (
          entry_loop sought want_free dd_lbn b_data n
            (k + 1)
            (first_free want_free (slot_at dd_lbn b_data k) freespot))
  at_free n k (some s) free later =
      Scanned-passed k n (some s) (rw free refl) (λ w e. absurd cc) (later (some s))
  at_free n k none free later = elim (Bool-cases want_free) [
    | inl w ↦
        let pick : first_free want_free (slot_at dd_lbn b_data k) none
            ≡ some (slot_at dd_lbn b_data k) =
          ground (arith, w) in
        rw pick (Scanned-first k n free (later (some (slot_at dd_lbn b_data k))))
    | inr w ↦
        let pick : first_free want_free (slot_at dd_lbn b_data k) none ≡ none = ground (arith, w) in
        rw pick (Scanned-passed k n none (rw free refl) (λ w' e. absurd cc) (later none))
  ]

  pub entry_loop-Scanned :
      (n k : ℕ) (freespot : Option Slot)
      → Scanned k n freespot (entry_loop sought want_free dd_lbn b_data n k freespot)
  unfolding entry_loop
  entry_loop-Scanned zero k freespot =
      kept (λ m a b. absurd (omega arith)) (λ w e m a b. absurd (omega arith))
  entry_loop-Scanned (suc n) k freespot = elim (Bool-cases (is_free b_data k)) [
    | inl free ↦ rw free (at_free n k freespot free (λ f. entry_loop-Scanned n (k + 1) f))
    | inr used ↦ elim (Bool-cases (wanted sought (entry_at b_data k))) [
      | inl yes_k ↦
          rw (used, yes_k)
            (hit k (omega arith) (omega arith) (rw (used, yes_k) refl)
              (λ m a b. absurd (omega arith)))
      | inr no_k ↦
          rw (used, no_k)
            (Scanned-passed k n freespot (rw (used, no_k) refl) (λ w e. used)
              (entry_loop-Scanned n (k + 1) freespot))
    ]
  ]

module _ {K : Kernel} (R : IsReliable K) (fs : DedupFs) (dev : K.Dev) (sought : Sought)
    (want_free : Bool) where
  -- Block `i` of the table, as it is read.
  abbrev pub table_block : ℕ → Bytes
  table_block i = (K.bread dev (block_sector fs i) fs.fs_bsize).1.b_data

  abbrev pub table_slot : ℕ → ℕ → Slot
  table_slot i k = slot_at (block_sector fs i) (table_block i) k

  -- Nothing in block `i` matches, or is free.
  abbrev pub NoMatch : ℕ → Type 0
  NoMatch i = (k : ℕ) → k < entries_per_block fs → is_match sought (table_block i) k ≡ false

  abbrev pub NoFree : ℕ → Type 0
  NoFree i = (k : ℕ) → k < entries_per_block fs → is_free (table_block i) k ≡ false

  -- The free place that goes with a search of blocks `i` to `i + n`, from one that may have been
  -- found before.
  pub data Spare (i n : ℕ) (before : Option Slot) : Option Slot → Type 0 where
    earlier :
        {f : Option Slot}
        → before ≡ f
        → (want_free ≡ true → f ≡ none → (m : ℕ) → i ≤ m → m < i + n → NoFree m)
        → Spare i n before f
    spare :
        (j k : ℕ)
        → i ≤ j
        → j < i + n
        → k < entries_per_block fs
        → is_free (table_block j) k ≡ true
        → Spare i n before (some (table_slot j k))

  -- The outcome of the search of blocks `i` to `i + n`: the first entry that matches, or none
  -- does.
  pub data Locates (i n : ℕ) (before : Option Slot) : Located → Type 0 where
    first :
        {f : Option Slot} (j k : ℕ)
        → i ≤ j
        → j < i + n
        → k < entries_per_block fs
        → is_match sought (table_block j) k ≡ true
        → ((m : ℕ) → m < k → is_match sought (table_block j) m ≡ false)
        → ((m : ℕ) → i ≤ m → m < j → NoMatch m)
        → Locates i n before (found (table_slot j k) f)
    absent :
        {f : Option Slot}
        → ((m : ℕ) → i ≤ m → m < i + n → NoMatch m)
        → Spare i n before f
        → Locates i n before (not_found f)

  NoMatch-from :
      (i e : ℕ)
      → NoMatch i
      → ((m : ℕ) → i + 1 ≤ m → m < e → NoMatch m)
      → (m : ℕ) → i ≤ m
      → m < e
      → NoMatch m
  NoMatch-from i e here later m a b = elim (ℕ_discrete i m) [
    | yes q ↦ rw (← q) here
    | no ne ↦ later m (omega arith) b
  ]

  NoFree-from :
      (i e : ℕ)
      → NoFree i
      → ((m : ℕ) → i + 1 ≤ m → m < e → NoFree m)
      → (m : ℕ) → i ≤ m
      → m < e
      → NoFree m
  NoFree-from i e here later m a b = elim (ℕ_discrete i m) [
    | yes q ↦ rw (← q) here
    | no ne ↦ later m (omega arith) b
  ]

  -- From the free place before block `i` to that behind it.
  Spare-kept :
      (i n : ℕ) (before : Option Slot) {f : Option Slot}
      → (want_free ≡ true → before ≡ none → NoFree i)
      → Spare (i + 1) n before f
      → Spare i (suc n) before f
  Spare-kept i n before full (earlier e later) =
      earlier e
        (λ w q. NoFree-from i (i + suc n) (full w (e ∙ q)) (λ m a b. later w q m a (omega arith)))
  Spare-kept i n before full (spare j k a b c free) = spare j k (omega arith) (omega arith) c free

  Spare-new :
      (i n k : ℕ) {f : Option Slot}
      → k < entries_per_block fs
      → is_free (table_block i) k ≡ true
      → Spare (i + 1) n (some (table_slot i k)) f
      → Spare i (suc n) none f
  Spare-new i n k small free (earlier e later) =
      subst (Spare i (suc n) none) e (spare i k (omega arith) (omega arith) small free)
  Spare-new i n k small free (spare j k' a b c free') =
      spare j k' (omega arith) (omega arith) c free'

  Locates-passed :
      (i n : ℕ) {before after : Option Slot} {r : Located}
      → NoMatch i
      → ((f : Option Slot) → Spare (i + 1) n after f → Spare i (suc n) before f)
      → Locates (i + 1) n after r
      → Locates i (suc n) before r
  Locates-passed i n none_of place (first j k a b c m d e) =
      first j k (omega arith) (omega arith) c m d (NoMatch-from i j none_of e)
  Locates-passed i n none_of place (absent {f} a s) =
      absent (NoMatch-from i (i + suc n) none_of (λ m b c. a m b (omega arith))) (place f s)

  -- One round of the loop over the blocks.
  block_step :
      (n i : ℕ) (freespot : Option Slot) {r : Option ℕ × Option Slot}
      → Scanned sought want_free
          (block_sector fs i)
          (table_block i)
          0
          (entries_per_block fs)
          freespot
          r
      → ((f : Option Slot) → Locates (i + 1) n f (block_loop K fs dev sought want_free n (i + 1) f))
      → Locates i (suc n) freespot (elim r.0 [
        | some idx ↦
            found (record { dd_lbn = block_sector fs i; b_data = table_block i; idx = idx }) r.1
        | none ↦ block_loop K fs dev sought want_free n (i + 1) r.1
      ])
  block_step n i freespot (hit j a b m before) later =
      first i j (omega arith) (omega arith) (omega arith) m (λ q c. before q (omega arith) c)
        (λ q c d. absurd (omega arith))
  block_step n i freespot (kept none_of full) later =
      Locates-passed i n (λ k c. none_of k (omega arith) (omega arith))
        (λ f s. Spare-kept i n freespot (λ w e k c. full w e k (omega arith) (omega arith)) s)
        (later freespot)
  block_step n i freespot (new j none_of a b free e) later =
      Locates-passed i n (λ k c. none_of k (omega arith) (omega arith))
        (λ f s. rw e (Spare-new i n j (omega arith) free s)) (later (some (table_slot i j)))

  block_loop-Locates :
      (n i : ℕ) (freespot : Option Slot)
      → Locates i n freespot (block_loop K fs dev sought want_free n i freespot)
  unfolding block_loop
  block_loop-Locates zero i freespot =
      absent (λ m a b. absurd (omega arith)) (earlier refl (λ w e m a b. absurd (omega arith)))
  block_loop-Locates (suc n) i freespot = rw (R.bread_ok dev (block_sector fs i) fs.fs_bsize) (
      block_step n i freespot
        (entry_loop-Scanned sought want_free (block_sector fs i) (table_block i)
          (entries_per_block fs) 0 freespot)
        (λ f. block_loop-Locates n (i + 1) f))

  -- On a device that does not fail, `ddtable_locate` finds the first entry of the table, block by
  -- block, that is in use and has the key or block pointer that is looked for. It returns 1 only
  -- where the table has none; then with the place of an entry that is free, or without one, which
  -- is so only if no place was asked for or every entry of the table is in use.
  pub ddtable_locate-Locates :
      Locates 0 (num_blocks fs) none (ddtable_locate K fs dev sought want_free)
  unfolding ddtable_locate
  ddtable_locate-Locates = block_loop-Locates (num_blocks fs) 0 none
