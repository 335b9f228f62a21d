-- ===== src/Ddfs/Blockmap/Laws.antt =====
-- Setting and clearing a block of the map, seen through the tests, for every block.
use Prim.Native.Nat.{bit_and}
use native.Mathlib.Decide.{ℕ_discrete}
use embedded_operating_syste.Base.{
  ℕ, ◌/◌, ◌%◌, ◌-◌, ◌<◌, ◌≡◌, ◌≢◌, refl, Bool, true, false, not, ◌||◌, ◌&&◌, ◌==◌, ◌⊎◌, inl, inr,
  if◌then◌else◌, Bytes, update, bit_or, arith, all_below, all_below_sound, eq→==, ne→==, sym,
}
use embedded_operating_syste.Ddfs.Blockmap.{
  mask, ffs_isblock, ffs_isfreeblock, ffs_clrblock, ffs_setblock,
}

-- The sizes that a block can have in fragments.
abbrev pub IsFrag : ℕ → Type 0
IsFrag fs_frag = (fs_frag ≡ 8) ⊎ (fs_frag ≡ 4) ⊎ (fs_frag ≡ 2) ⊎ (fs_frag ≡ 1)

abbrev same : Bool → Bool → Bool
same a b = if a then b else not b

same_lem : (a b : Bool) → same a b ≡ true → a ≡ b
same_lem true b h = sym h
same_lem false true h = h
same_lem false false h = refl

-- A change `f` of the byte of block `h`, by a table of the bytes and of the `n` places in one.
-- `g` is the test of a place, and `r` what it says of a place from its value before.
module _ (n : ℕ) (f : ℕ → ℕ → ℕ) (g : ℕ → ℕ → Bool) (r : Bool → Bool → Bool) where
  abbrev in_table : Bool
  in_table =
      all_below 256
        (λ b. all_below n (λ o. all_below n (λ p. same (g (f b o) p) (r (o == p) (g b p)))))

  at_table :
      in_table ≡ true → (b o p : ℕ) → b < 256 → o < n → p < n → g (f b o) p ≡ r (o == p) (g b p)
  at_table table b o p bb oo pp = same_lem (g (f b o) p) (r (o == p) (g b p)) (
      all_below_sound n (λ p. same (g (f b o) p) (r (o == p) (g b p))) p
        (all_below_sound n (λ o. all_below n (λ p. same (g (f b o) p) (r (o == p) (g b p)))) o
          (all_below_sound 256
            (λ b. all_below n (λ o. all_below n (λ p. same (g (f b o) p) (r (o == p) (g b p))))) b
            table bb)
          oo)
        pp)

  by_table :
      in_table ≡ true
      → ((a : Bool) → r false a ≡ a)
      → (cp : Bytes) (h k : ℕ) → cp (h / n) < 256
      → h % n < n
      → k % n < n
      → (h / n ≡ k / n → (h == k) ≡ (h % n == k % n))
      → (h / n ≢ k / n → (h == k) ≡ false)
      → g (update cp (h / n) (f (cp (h / n)) (h % n)) (k / n)) (k % n)
        ≡ r (h == k) (g (cp (k / n)) (k % n))
  unfolding update
  by_table table keep cp h k byte oo pp inside outside = elim (ℕ_discrete (h / n) (k / n)) [
    | yes e ↦
        rw (inside e, ← e, eq→== (h / n) (h / n) refl)
          (at_table table (cp (h / n)) (h % n) (k % n) byte oo pp)
    | no ne ↦ rw (outside ne, ne→== (k / n) (h / n) (λ q. ne (sym q))) (sym (keep _))
  ]

-- The tests and the changes of a byte with `w` bits for each block.
abbrev taken : ℕ → ℕ → ℕ → ℕ → Bool
taken ones w b o = bit_and b (mask ones w o) == mask ones w o

abbrev free : ℕ → ℕ → ℕ → ℕ → Bool
free ones w b o = bit_and b (mask ones w o) == 0

abbrev set : ℕ → ℕ → ℕ → ℕ → ℕ
set ones w b o = bit_or b (mask ones w o)

abbrev clr : ℕ → ℕ → ℕ → ℕ → ℕ
clr ones w b o = bit_and b (255 - mask ones w o)

abbrev or : Bool → Bool → Bool
or at before = at || before

abbrev and_not : Bool → Bool → Bool
and_not at before = not at && before

tables_4 :
    (in_table 2 (set 0x0f 4) (taken 0x0f 4) or ≡ true)
    × (in_table 2 (set 0x0f 4) (free 0x0f 4) and_not ≡ true)
    × (in_table 2 (clr 0x0f 4) (taken 0x0f 4) and_not ≡ true)
    × (in_table 2 (clr 0x0f 4) (free 0x0f 4) or ≡ true)
unfolding all_below
tables_4 = (refl, refl, refl, refl)

tables_2 :
    (in_table 4 (set 0x03 2) (taken 0x03 2) or ≡ true)
    × (in_table 4 (set 0x03 2) (free 0x03 2) and_not ≡ true)
    × (in_table 4 (clr 0x03 2) (taken 0x03 2) and_not ≡ true)
    × (in_table 4 (clr 0x03 2) (free 0x03 2) or ≡ true)
unfolding all_below
tables_2 = (refl, refl, refl, refl)

tables_1 :
    (in_table 8 (set 0x01 1) (taken 0x01 1) or ≡ true)
    × (in_table 8 (set 0x01 1) (free 0x01 1) and_not ≡ true)
    × (in_table 8 (clr 0x01 1) (taken 0x01 1) and_not ≡ true)
    × (in_table 8 (clr 0x01 1) (free 0x01 1) or ≡ true)
unfolding all_below
tables_1 = (refl, refl, refl, refl)

set_4 :
    (cp : Bytes) (h k : ℕ)
    → cp (h / 2) < 256
    → (ffs_isblock 4 (ffs_setblock 4 cp h) k ≡ ((h == k) || ffs_isblock 4 cp k))
      × (ffs_isfreeblock 4 (ffs_setblock 4 cp h) k ≡ (not (h == k) && ffs_isfreeblock 4 cp k))
unfolding ffs_setblock ffs_isblock ffs_isfreeblock
set_4 cp h k bytes = (
  by_table 2 (set 0x0f 4) (taken 0x0f 4) or tables_4.0 (λ a. refl) cp h k bytes (omega arith)
      (omega arith) (λ e. ground arith) (λ ne. ground arith),
  by_table 2 (set 0x0f 4) (free 0x0f 4) and_not tables_4.1 (λ a. refl) cp h k bytes (omega arith)
      (omega arith) (λ e. ground arith) (λ ne. ground arith),
)

set_2 :
    (cp : Bytes) (h k : ℕ)
    → cp (h / 4) < 256
    → (ffs_isblock 2 (ffs_setblock 2 cp h) k ≡ ((h == k) || ffs_isblock 2 cp k))
      × (ffs_isfreeblock 2 (ffs_setblock 2 cp h) k ≡ (not (h == k) && ffs_isfreeblock 2 cp k))
unfolding ffs_setblock ffs_isblock ffs_isfreeblock
set_2 cp h k bytes = (
  by_table 4 (set 0x03 2) (taken 0x03 2) or tables_2.0 (λ a. refl) cp h k bytes (omega arith)
      (omega arith) (λ e. ground arith) (λ ne. ground arith),
  by_table 4 (set 0x03 2) (free 0x03 2) and_not tables_2.1 (λ a. refl) cp h k bytes (omega arith)
      (omega arith) (λ e. ground arith) (λ ne. ground arith),
)

set_1 :
    (cp : Bytes) (h k : ℕ)
    → cp (h / 8) < 256
    → (ffs_isblock 1 (ffs_setblock 1 cp h) k ≡ ((h == k) || ffs_isblock 1 cp k))
      × (ffs_isfreeblock 1 (ffs_setblock 1 cp h) k ≡ (not (h == k) && ffs_isfreeblock 1 cp k))
unfolding ffs_setblock ffs_isblock ffs_isfreeblock
set_1 cp h k bytes = (
  by_table 8 (set 0x01 1) (taken 0x01 1) or tables_1.0 (λ a. refl) cp h k bytes (omega arith)
      (omega arith) (λ e. ground arith) (λ ne. ground arith),
  by_table 8 (set 0x01 1) (free 0x01 1) and_not tables_1.1 (λ a. refl) cp h k bytes (omega arith)
      (omega arith) (λ e. ground arith) (λ ne. ground arith),
)

set_8 :
    (cp : Bytes) (h k : ℕ)
    → (ffs_isblock 8 (ffs_setblock 8 cp h) k ≡ ((h == k) || ffs_isblock 8 cp k))
      × (ffs_isfreeblock 8 (ffs_setblock 8 cp h) k ≡ (not (h == k) && ffs_isfreeblock 8 cp k))
unfolding ffs_setblock ffs_isblock ffs_isfreeblock update
set_8 cp h k = (ground arith, ground arith)

-- With 1, 2, 4 or 8 fragments to a block and a map of bytes, after `ffs_setblock` of block `h`
-- the map has block `h` and the blocks that it had before, and the blocks free in it are those
-- that were, but for `h`.
pub ffs_setblock_lem :
    (fs_frag : ℕ) (cp : Bytes) (h k : ℕ)
    → IsFrag fs_frag
    → ((i : ℕ) → cp i < 256)
    → (ffs_isblock fs_frag (ffs_setblock fs_frag cp h) k ≡ ((h == k) || ffs_isblock fs_frag cp k))
      × (ffs_isfreeblock fs_frag (ffs_setblock fs_frag cp h) k
          ≡ (not (h == k) && ffs_isfreeblock fs_frag cp k))
ffs_setblock_lem fs_frag cp h k (inl e) bytes = rw e (set_8 cp h k)
ffs_setblock_lem fs_frag cp h k (inr (inl e)) bytes = rw e (set_4 cp h k (bytes (h / 2)))
ffs_setblock_lem fs_frag cp h k (inr (inr (inl e))) bytes = rw e (set_2 cp h k (bytes (h / 4)))
ffs_setblock_lem fs_frag cp h k (inr (inr (inr e))) bytes = rw e (set_1 cp h k (bytes (h / 8)))

clr_4 :
    (cp : Bytes) (h k : ℕ)
    → cp (h / 2) < 256
    → (ffs_isfreeblock 4 (ffs_clrblock 4 cp h) k ≡ ((h == k) || ffs_isfreeblock 4 cp k))
      × (ffs_isblock 4 (ffs_clrblock 4 cp h) k ≡ (not (h == k) && ffs_isblock 4 cp k))
unfolding ffs_clrblock ffs_isblock ffs_isfreeblock
clr_4 cp h k bytes = (
  by_table 2 (clr 0x0f 4) (free 0x0f 4) or tables_4.3 (λ a. refl) cp h k bytes (omega arith)
      (omega arith) (λ e. ground arith) (λ ne. ground arith),
  by_table 2 (clr 0x0f 4) (taken 0x0f 4) and_not tables_4.2 (λ a. refl) cp h k bytes (omega arith)
      (omega arith) (λ e. ground arith) (λ ne. ground arith),
)

clr_2 :
    (cp : Bytes) (h k : ℕ)
    → cp (h / 4) < 256
    → (ffs_isfreeblock 2 (ffs_clrblock 2 cp h) k ≡ ((h == k) || ffs_isfreeblock 2 cp k))
      × (ffs_isblock 2 (ffs_clrblock 2 cp h) k ≡ (not (h == k) && ffs_isblock 2 cp k))
unfolding ffs_clrblock ffs_isblock ffs_isfreeblock
clr_2 cp h k bytes = (
  by_table 4 (clr 0x03 2) (free 0x03 2) or tables_2.3 (λ a. refl) cp h k bytes (omega arith)
      (omega arith) (λ e. ground arith) (λ ne. ground arith),
  by_table 4 (clr 0x03 2) (taken 0x03 2) and_not tables_2.2 (λ a. refl) cp h k bytes (omega arith)
      (omega arith) (λ e. ground arith) (λ ne. ground arith),
)

clr_1 :
    (cp : Bytes) (h k : ℕ)
    → cp (h / 8) < 256
    → (ffs_isfreeblock 1 (ffs_clrblock 1 cp h) k ≡ ((h == k) || ffs_isfreeblock 1 cp k))
      × (ffs_isblock 1 (ffs_clrblock 1 cp h) k ≡ (not (h == k) && ffs_isblock 1 cp k))
unfolding ffs_clrblock ffs_isblock ffs_isfreeblock
clr_1 cp h k bytes = (
  by_table 8 (clr 0x01 1) (free 0x01 1) or tables_1.3 (λ a. refl) cp h k bytes (omega arith)
      (omega arith) (λ e. ground arith) (λ ne. ground arith),
  by_table 8 (clr 0x01 1) (taken 0x01 1) and_not tables_1.2 (λ a. refl) cp h k bytes (omega arith)
      (omega arith) (λ e. ground arith) (λ ne. ground arith),
)

clr_8 :
    (cp : Bytes) (h k : ℕ)
    → (ffs_isfreeblock 8 (ffs_clrblock 8 cp h) k ≡ ((h == k) || ffs_isfreeblock 8 cp k))
      × (ffs_isblock 8 (ffs_clrblock 8 cp h) k ≡ (not (h == k) && ffs_isblock 8 cp k))
unfolding ffs_clrblock ffs_isblock ffs_isfreeblock update
clr_8 cp h k = (ground arith, ground arith)

-- With 1, 2, 4 or 8 fragments to a block and a map of bytes, after `ffs_clrblock` of block `h`
-- the free blocks of the map are `h` and those that were free, and the map has the blocks that it
-- had before, but for `h`.
pub ffs_clrblock_lem :
    (fs_frag : ℕ) (cp : Bytes) (h k : ℕ)
    → IsFrag fs_frag
    → ((i : ℕ) → cp i < 256)
    → (ffs_isfreeblock fs_frag (ffs_clrblock fs_frag cp h) k
        ≡ ((h == k) || ffs_isfreeblock fs_frag cp k))
      × (ffs_isblock fs_frag (ffs_clrblock fs_frag cp h) k
          ≡ (not (h == k) && ffs_isblock fs_frag cp k))
ffs_clrblock_lem fs_frag cp h k (inl e) bytes = rw e (clr_8 cp h k)
ffs_clrblock_lem fs_frag cp h k (inr (inl e)) bytes = rw e (clr_4 cp h k (bytes (h / 2)))
ffs_clrblock_lem fs_frag cp h k (inr (inr (inl e))) bytes = rw e (clr_2 cp h k (bytes (h / 4)))
ffs_clrblock_lem fs_frag cp h k (inr (inr (inr e))) bytes = rw e (clr_1 cp h k (bytes (h / 8)))
