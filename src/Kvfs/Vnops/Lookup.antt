-- ===== src/Kvfs/Vnops/Lookup.antt =====
-- The search through the inode table: which inode `lookup_loop` finds, and how a change of one
-- inode shows.
use native.Mathlib.Decide.{ℕ_discrete}
use embedded_operating_syste.Base.{
  ℕ, zero, suc, ◌+◌, ◌*◌, ◌^◌, ◌≤◌, ◌<◌, ◌≡◌, ◌≢◌, refl, Bool, true, false, not, ◌&&◌, Option, none,
  some, Bytes, offset, memcmp, memcmp_ext, has_bit, arith, if◌then◌else◌, ap₂, Bool-cases, inl, inr,
}
use embedded_operating_syste.Kvfs.Bytes.{le_ext}
use embedded_operating_syste.Kvfs.Layout.{
  decode_inode, kvfs_inode_free, sizeof_inode, inode_idx_small,
}
use embedded_operating_syste.Kvfs.Vnops.{lookup_loop}

-- Inode `k` of the table is in use under the key.
abbrev pub matches : Bytes → Bytes → ℕ → Bool
matches table key k =
    let inode = decode_inode (offset table (k * sizeof_inode)) in
    not (has_bit inode.flags kvfs_inode_free) && memcmp key inode.key 20

module _ (table key : Bytes) where
  -- One round of the loop.
  lookup_loop-suc :
      (n i : ℕ)
      → i < 2 ^ 31
      → lookup_loop table key (suc n) i
        ≡ (if matches table key i then some (i * sizeof_inode) else lookup_loop table key n (i + 1))
  unfolding lookup_loop
  lookup_loop-suc n i small = rw (inode_idx_small i small) (ground arith)

  -- What the loop over `n` inodes from `i` on says: the first match, or that there is none.
  pub data Finds (i n : ℕ) : Option ℕ → Type 0 where
    found :
        (k : ℕ)
        → i ≤ k
        → k < i + n
        → matches table key k ≡ true
        → ((m : ℕ) → i ≤ m → m < k → matches table key m ≡ false)
        → Finds i n (some (k * sizeof_inode))
    missing : ((m : ℕ) → i ≤ m → m < i + n → matches table key m ≡ false) → Finds i n none

  not_before :
      (i k : ℕ)
      → matches table key i ≡ false
      → ((m : ℕ) → i + 1 ≤ m → m < k → matches table key m ≡ false)
      → (m : ℕ) → i ≤ m
      → m < k
      → matches table key m ≡ false
  not_before i k here later m a b = elim (ℕ_discrete i m) [
    | yes e ↦ rw (← e) here
    | no ne ↦ later m (omega arith) b
  ]

  Finds-suc :
      (i n : ℕ) {r : Option ℕ} → matches table key i ≡ false → Finds (i + 1) n r → Finds i (suc n) r
  Finds-suc i n here (found k a b m before) =
      found k (omega arith) (omega arith) m (not_before i k here before)
  Finds-suc i n here (missing before) =
      missing
        (λ m a b. not_before i (i + suc n) here (λ m' a' b'. before m' a' (omega arith)) m a b)

  -- The loop finds the first inode of the range that is not free and has the key, and fails only
  -- where there is none.
  pub lookup_loop-Finds : (n i : ℕ) → i + n ≤ 2 ^ 31 → Finds i n (lookup_loop table key n i)
  lookup_loop-Finds zero i small = unfold lookup_loop in missing (λ m a b. absurd (omega arith))
  lookup_loop-Finds (suc n) i small = elim (Bool-cases (matches table key i)) [
    | inl e ↦
        rw (lookup_loop-suc n i (omega arith), e)
          (found i (omega arith) (omega arith) e (λ m a b. absurd (omega arith)))
    | inr e ↦
        rw (lookup_loop-suc n i (omega arith), e)
          (Finds-suc i n e (lookup_loop-Finds n (i + 1) (omega arith)))
  ]

  -- The search in terms of the matches alone.
  pub first_match :
      (n i k : ℕ)
      → i + n ≤ 2 ^ 31
      → i ≤ k
      → k < i + n
      → matches table key k ≡ true
      → ((m : ℕ) → i ≤ m → m < i + n → m ≢ k → matches table key m ≡ false)
      → lookup_loop table key n i ≡ some (k * sizeof_inode)
  first_match zero i k small a b yes_k others = absurd (omega arith)
  first_match (suc n) i k small a b yes_k others = elim (ℕ_discrete i k) [
    | yes e ↦ rw (lookup_loop-suc n i (omega arith), e, yes_k) refl
    | no ne ↦
        rw (lookup_loop-suc n i (omega arith), others i (omega arith) (omega arith) ne)
          (first_match n (i + 1) k (omega arith) (omega arith) (omega arith) yes_k
            (λ m c d q. others m (omega arith) (omega arith) q))
  ]

  pub no_match :
      (n i : ℕ)
      → i + n ≤ 2 ^ 31
      → ((m : ℕ) → i ≤ m → m < i + n → matches table key m ≡ false)
      → lookup_loop table key n i ≡ none
  no_match zero i small others = unfold lookup_loop in refl
  no_match (suc n) i small others =
      rw (lookup_loop-suc n i (omega arith), others i (omega arith) (omega arith))
        (no_match n (i + 1) (omega arith) (λ m c d. others m (omega arith) (omega arith)))

  pub none-matches :
      (n i : ℕ)
      → i + n ≤ 2 ^ 31
      → lookup_loop table key n i ≡ none
      → (m : ℕ) → i ≤ m
      → m < i + n
      → matches table key m ≡ false
  none-matches n i small e = Finds-none e (lookup_loop-Finds n i small)
    where
      Finds-none :
          {r : Option ℕ}
          → r ≡ none
          → Finds i n r
          → (m : ℕ) → i ≤ m
          → m < i + n
          → matches table key m ≡ false
      Finds-none e (found k a b c d) = cc
      Finds-none e (missing before) = before

-- Inodes that are the same bytes match the same keys.
pub matches_ext :
    (s t key : Bytes) (k : ℕ)
    → ((i : ℕ) → i < sizeof_inode → s (k * sizeof_inode + i) ≡ t (k * sizeof_inode + i))
    → matches s key k ≡ matches t key k
unfolding decode_inode
matches_ext s t key k e =
    let p = offset s (k * sizeof_inode) in
    let q = offset t (k * sizeof_inode) in
    ap₂ (λ flags same. not (has_bit flags kvfs_inode_free) && same)
      (le_ext 2 p q 20 20 (λ i lt. e (20 + i) (omega arith)))
      (memcmp_ext 20 key p q (λ i lt. e i (omega arith)))
