-- ===== src/Kvfs/Mkfs/Layout.antt =====
-- The layout that `init_superblock` chooses.
use mathlib.Core.Option
use native.Mathlib.Decide.{dec_lt, ℕ_discrete}
use embedded_operating_syste.Base.{
  ℕ, zero, suc, ◌+◌, ◌-◌, ◌*◌, ◌/◌, ◌%◌, ◌^◌, ◌≤◌, ◌<◌, ◌≡◌, refl, Option, some, ◌⊎◌, inl, inr,
  arith, eq→==, ne→==, lt→ltb, le→ltb,
}
use embedded_operating_syste.Kvfs.Layout.{
  Superblock, blocksize, ceil, sizeof_inode, sizeof_superblock, kvfs_superblock_magic,
}
use embedded_operating_syste.Kvfs.Mkfs.{
  Guess, size_of, guess_loop, rounds, superblock_of, init_superblock,
}

-- The loop has found the largest number of blocks that fits: exactly, or with the count and the
-- sum of the next larger number left over from the last guess.
pub record Fits (disksize : ℕ) (guess : Guess) : Type 0 where
  pub fits : size_of guess.blocks ≤ disksize
  pub sum : guess.sum ≡ size_of guess.inode_count
  pub last :
      ((guess.inode_count ≡ guess.blocks) × (guess.sum ≡ disksize))
      ⊎ ((guess.inode_count ≡ guess.blocks + 1) × (disksize < guess.sum))

pub data Found (P : Guess → Type 0) : Option Guess → Type 0 where
  found : {guess : Guess} → P guess → Found P (some guess)

mul-step : (a b k : ℕ) → a < b → a * k + k ≤ b * k
mul-step a b k h = grind arith

module _ (disksize : ℕ) where
  -- A guess that fits, or one that fits without its last step.
  abbrev Between : ℕ → ℕ → Type 0
  Between blocks delta =
      (size_of blocks ≤ disksize)
      ⊎ ((delta ≤ blocks) × (size_of (blocks - delta) ≤ disksize) × (disksize < size_of blocks))

  room :
      (blocks delta : ℕ)
      → Between blocks delta
      → disksize < size_of blocks
      → (delta ≤ blocks) × (size_of (blocks - delta) ≤ disksize)
  room blocks delta (inl fits) over = absurd (omega arith)
  room blocks delta (inr (a, b, c)) over = (a, b)

  one_more :
      (blocks delta : ℕ) → delta ≤ blocks → 0 < delta → delta / 2 < 1 → blocks ≡ blocks - delta + 1
  one_more blocks delta a b c = omega arith

  blocks_small : (blocks : ℕ) → size_of blocks ≤ disksize → blocks ≤ disksize
  blocks_small blocks h = omega arith

  next : (blocks delta : ℕ) → size_of blocks ≤ disksize → Between (blocks + delta) delta
  next blocks delta h =
      let back : blocks + delta - delta ≡ blocks = omega arith in
      elim (dec_lt disksize (size_of (blocks + delta))) [
        | yes over ↦ inr (omega arith, rw back h, over)
        | no fits ↦ inl (omega arith)
      ]

  guess_loop-Fits :
      (fuel blocks delta : ℕ)
      → 0 < delta
      → delta ≤ disksize
      → delta * (2 * disksize + 2) + (2 * disksize + 1 - blocks) < fuel
      → blocks ≤ 2 * disksize
      → Between blocks delta
      → Found (Fits disksize) (guess_loop fuel disksize blocks delta)
  unfolding guess_loop
  guess_loop-Fits zero blocks delta pos small enough bound between = absurd (omega arith)
  guess_loop-Fits (suc fuel) blocks delta pos small enough bound between =
      elim (ℕ_discrete (size_of blocks) disksize) [
        | yes exact ↦
            rw (eq→== (size_of blocks) disksize exact)
              (found (record { fits = omega arith; sum = refl; last = inl (refl, exact) }))
        | no inexact ↦ elim (dec_lt disksize (size_of blocks)) [
          | yes over ↦ elim (dec_lt (delta / 2) 1) [
            | yes last ↦
                rw
                  (
                    ne→== (size_of blocks) disksize inexact,
                    lt→ltb disksize (size_of blocks) over,
                    lt→ltb (delta / 2) 1 last,
                  )
                  (found (record {
                    fits = (room blocks delta between over).1;
                    sum = refl;
                    last =
                        inr
                          (one_more blocks delta (room blocks delta between over).0 pos last, over);
                  }))
            | no more ↦
                rw
                  (
                    ne→== (size_of blocks) disksize inexact,
                    lt→ltb disksize (size_of blocks) over,
                    le→ltb (delta / 2) 1 (omega arith),
                  )
                  (guess_loop-Fits fuel (blocks - delta) (delta / 2) (omega arith) (omega arith)
                    (omega (
                      arith,
                      mul-step (delta / 2) delta (2 * disksize + 2) (omega arith),
                      (room blocks delta between over).0,
                    ))
                    (omega arith) (inl (room blocks delta between over).1))
          ]
          | no under ↦
              rw
                (
                  ne→== (size_of blocks) disksize inexact,
                  le→ltb disksize (size_of blocks) (omega arith),
                  le→ltb delta 1 (omega arith),
                )
                (guess_loop-Fits fuel (blocks + delta) delta pos small
                  (omega (arith, blocks_small blocks (omega arith)))
                  (omega (arith, blocks_small blocks (omega arith)))
                  (next blocks delta (omega arith)))
        ]
      ]

-- The superblock of a disk: the magic number, the size of the struct and no flags, as many blocks as fit, the sections one behind the other on block
-- boundaries, and a size that is the disk's or that of one block more than fit.
pub record IsLaidOut (disksize : ℕ) (sb : Superblock) : Type 0 where
  pub magicnum : sb.magicnum ≡ kvfs_superblock_magic
  pub superblock_size : sb.superblock_size ≡ sizeof_superblock
  pub flags : sb.flags ≡ 0
  pub fits : size_of sb.block_count ≤ disksize
  pub most : disksize < size_of (sb.block_count + 1)
  pub freelist_off : sb.freelist_off ≡ blocksize
  pub bitmap : sb.freelist_off + ceil sb.block_count 8 ≤ sb.inode_off
  pub inodes : sb.inode_off + sb.block_count * sizeof_inode ≤ sb.data_off
  pub blocks : sb.data_off + sb.block_count * blocksize ≤ sb.fs_size
  pub aligned :
      (sb.inode_off % blocksize ≡ 0) × (sb.data_off % blocksize ≡ 0) × (sb.fs_size % blocksize ≡ 0)
  pub size :
      (sb.fs_size ≡ disksize)
      ⊎ ((disksize < sb.fs_size) × (sb.fs_size ≡ size_of (sb.block_count + 1)))

pub data Formats (P : Superblock → Type 0) : Option Superblock → Type 0 where
  formats : {sb : Superblock} → P sb → Formats P (some sb)

count-superblock_of :
    (disksize : ℕ) (guess : Guess)
    → disksize < 2 ^ 44
    → Fits disksize guess
    → guess.blocks % 2 ^ 32 ≡ guess.blocks
count-superblock_of disksize guess small fits = omega (arith, fits.fits)

sections :
    (disksize : ℕ) (guess : Guess)
    → disksize < 2 ^ 44
    → Fits disksize guess
    → IsLaidOut disksize (superblock_of guess)
unfolding superblock_of
sections disksize guess small fits =
    let count = count-superblock_of disksize guess small fits in
    rw count (elim fits.last [
      | inl (c, e) ↦ rw c (record {
        magicnum = refl;
        superblock_size = refl;
        flags = refl;
        fits = fits.fits;
        most = omega (arith, fits.sum, c, e);
        freelist_off = refl;
        bitmap = omega arith;
        inodes = omega arith;
        blocks = omega (arith, fits.sum, c);
        aligned = (omega arith, omega arith, omega (arith, fits.sum));
        size = inl e;
      })
      | inr (c, e) ↦ rw c (record {
        magicnum = refl;
        superblock_size = refl;
        flags = refl;
        fits = fits.fits;
        most = omega (arith, fits.sum, c, e);
        freelist_off = refl;
        bitmap = omega arith;
        inodes = omega arith;
        blocks = omega (arith, fits.sum, c);
        aligned = (omega arith, omega arith, omega (arith, fits.sum));
        size = inr (e, omega (arith, fits.sum, c));
      })
    ])

-- For every disk of 32 KiB to 16 TiB the search of `init_superblock` ends, and the superblock
-- counts as many blocks as fit onto the disk, with the sections behind one another, on block
-- boundaries each. Its file
-- system size is the disk's size, or else larger than the disk: the size with one block more.
pub init_superblock-IsLaidOut :
    (disksize : ℕ)
    → 2 ^ 15 ≤ disksize
    → disksize < 2 ^ 44
    → Formats (IsLaidOut disksize) (init_superblock disksize)
unfolding init_superblock
init_superblock-IsLaidOut disksize large small =
    let start = (disksize - blocksize) / blocksize / 2 in
    from (
      guess_loop-Fits disksize (rounds disksize) start (disksize / 16) (omega arith) (omega arith)
        (omega arith) (omega arith) (inl (omega arith)))
  where
    from :
        {r : Option Guess}
        → Found (Fits disksize) r
        → Formats (IsLaidOut disksize) (Option.map superblock_of r)
    from (found {guess} fits) = formats (sections disksize guess small fits)
