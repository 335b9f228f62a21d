-- ===== src/Kvfs/Vfsops/Mount/Freelist.antt =====
-- The free list that a mount reads from the bitmap.
use native.Mathlib.Decide.{dec_lt, ℕ_discrete}
use embedded_operating_syste.Base.{
  ℕ, zero, suc, ◌+◌, ◌-◌, ◌*◌, ◌/◌, ◌%◌, ◌^◌, ◌≤◌, ◌<◌, ◌≡◌, refl, min, Bool, false, not, ◌&&◌,
  List, [], ◌∷◌, ltb, ◌||◌, ◌==◌, if◌then◌else◌, Bytes, has_bit, arith, Bool-cases, inl, inr,
  length, le→leb, lt→leb,
}
use embedded_operating_syste.Kvfs.Layout.{sizeof_inode, inode_idx, inode_idx_small}
use embedded_operating_syste.Kvfs.Vfsops.Mount.{Found, mask_loop, freelist_loop, freelist_bytes}

-- Membership in a list.
abbrev pub contains : ℕ → List ℕ → Bool
contains x [] = false
contains x (y ∷ ys) = (x == y) || contains x ys

module _ (b_data : Bytes) where
  -- The inodes below `k` whose bit is clear, highest first, where the bit of inode `k` is counted
  -- from the top of its byte.
  unfoldable pub clear_msb : ℕ → List ℕ
  clear_msb zero = []
  clear_msb (suc k) =
      let rest = clear_msb k in
      if has_bit (b_data (k / 8)) (7 - k % 8) then rest else (k * sizeof_inode) ∷ rest

  -- The free list of the inodes below `k`, and its number in 32 bits.
  abbrev pub IsFound : ℕ → Found → Type 0
  IsFound k found =
      (found.freelist ≡ clear_msb k) × (found.freelist_count ≡ length (clear_msb k) % 2 ^ 32)

  length-clear_msb : (k : ℕ) → length (clear_msb k) ≤ k
  unfolding clear_msb
  length-clear_msb zero = omega arith
  length-clear_msb (suc k) = ground (arith, length-clear_msb k)

  clear_msb_zero : IsFound 0 (record { freelist = []; freelist_count = 0 })
  unfolding clear_msb
  clear_msb_zero = (refl, refl)

  clear_msb-suc :
      (i j n : ℕ)
      → n + j ≡ 7
      → clear_msb (suc (i * 8 + j)) ≡ (
          if has_bit (b_data i) n
          then clear_msb (i * 8 + j)
          else ((i * 8 + j) * sizeof_inode) ∷ clear_msb (i * 8 + j))
  unfolding clear_msb
  clear_msb-suc i j n e =
      let byte : (i * 8 + j) / 8 ≡ i = omega arith in
      let bit : 7 - (i * 8 + j) % 8 ≡ n = omega arith in rw (byte, bit) refl

  mask_loop-IsFound :
      (n j i block_count : ℕ) (found : Found)
      → n + j ≡ 8
      → i * 8 < 2 ^ 31
      → IsFound (min (i * 8 + j) block_count) found
      → IsFound (min (i * 8 + 8) block_count) (mask_loop n j (b_data i) i block_count found)
  unfolding mask_loop
  mask_loop-IsFound zero j i block_count found e small h =
      let at : j ≡ 8 = omega arith in rw at at h
  mask_loop-IsFound (suc n) j i block_count found e small h =
      elim (dec_lt (i * 8 + j) block_count) [
        | yes lt ↦
            let here : min (i * 8 + j) block_count ≡ i * 8 + j = omega arith in
            let next : min (i * 8 + (j + 1)) block_count ≡ suc (i * 8 + j) = omega arith in
            let old : IsFound (i * 8 + j) found = rw here at h in
            let ino : (inode_idx (i * 8) + j * sizeof_inode) % 2 ^ 64 ≡ (i * 8 + j) * sizeof_inode =
              rw (inode_idx_small (i * 8) small) (omega arith) in
            let number : (i * 8 + j) % 2 ^ 32 ≡ i * 8 + j = omega arith in
            elim (Bool-cases (has_bit (b_data i) n)) [
              | inl used ↦ rw used (
                  mask_loop-IsFound n (j + 1) i block_count found (omega arith) small
                    (rw (next, clear_msb-suc i j n (omega arith), used) old))
              | inr free ↦
                  rw (free, number, lt→leb block_count (i * 8 + j) lt)
                    (mask_loop-IsFound n (j + 1) i block_count
                      (record found {
                        freelist =
                            ((inode_idx (i * 8) + j * sizeof_inode) % 2 ^ 64) ∷ found.freelist;
                        freelist_count = (found.freelist_count + 1) % 2 ^ 32;
                      })
                      (omega arith) small
                      (rw (next, clear_msb-suc i j n (omega arith), free)
                        (rw (old.0, ino) refl, omega (arith, old.1))))
            ]
        | no ge ↦
            let here : min (i * 8 + j) block_count ≡ block_count = omega arith in
            let next : min (i * 8 + (j + 1)) block_count ≡ block_count = omega arith in
            let last : min (i * 8 + 8) block_count ≡ block_count = omega arith in
            let old : IsFound block_count found = rw here at h in
            elim (Bool-cases (has_bit (b_data i) n)) [
              | inl used ↦ rw used (
                  mask_loop-IsFound n (j + 1) i block_count found (omega arith) small (rw next old))
              | inr free ↦
                  let number : (i * 8 + j) % 2 ^ 32 ≡ i * 8 + j = omega arith in
                  rw (free, number, le→leb block_count (i * 8 + j) (omega arith), last) old
            ]
      ]

  freelist_loop-IsFound :
      (n i block_count : ℕ) (found : Found)
      → (i + n) * 8 ≤ 2 ^ 31
      → IsFound (min (i * 8) block_count) found
      → IsFound (min ((i + n) * 8) block_count) (freelist_loop n i b_data block_count found)
  unfolding freelist_loop
  freelist_loop-IsFound zero i block_count found small h =
      let at : i + 0 ≡ i = omega arith in rw at h
  freelist_loop-IsFound (suc n) i block_count found small h =
      let shift : i + suc n ≡ (i + 1) + n = omega arith in
      let start : i * 8 + 0 ≡ i * 8 = omega arith in
      let after : i * 8 + 8 ≡ (i + 1) * 8 = omega arith in
      rw shift (
        freelist_loop-IsFound n (i + 1) block_count (mask_loop 8 0 (b_data i) i block_count found)
          (omega arith)
          (rw after at (mask_loop-IsFound 8 0 i block_count found refl (omega arith) (rw start h))))

  -- For up to 2 ^ 31 blocks, the loops over the bitmap give the inodes whose bit is clear,
  -- counting the bits of a byte from the top, in falling order, and their number.
  pub freelist_loop-clear_msb :
      (block_count : ℕ)
      → block_count ≤ 2 ^ 31
      → let found =
          freelist_loop
            (freelist_bytes block_count)
            0
            b_data
            block_count
            (record { freelist = []; freelist_count = 0 }) in
        (found.freelist ≡ clear_msb block_count)
        × (found.freelist_count ≡ length (clear_msb block_count))
  freelist_loop-clear_msb block_count small =
      let n = freelist_bytes block_count in
      let all : min ((0 + n) * 8) block_count ≡ block_count = omega arith in
      let none_yet : min (0 * 8) block_count ≡ 0 = omega arith in
      let found : IsFound block_count
          (freelist_loop n 0 b_data block_count (record { freelist = []; freelist_count = 0 })) =
        rw all at (
          freelist_loop-IsFound n 0 block_count (record { freelist = []; freelist_count = 0 })
            (omega arith) (rw none_yet (clear_msb_zero))) in
      (found.0, omega (arith, found.1, length-clear_msb block_count))

  pub contains-clear_msb :
      (n k : ℕ)
      → contains (n * sizeof_inode) (clear_msb k)
        ≡ (ltb n k && not (has_bit (b_data (n / 8)) (7 - n % 8)))
  unfolding clear_msb
  contains-clear_msb n zero = ground arith
  contains-clear_msb n (suc k) = elim (ℕ_discrete n k) [
    | yes e ↦ rw e (ground (arith, rw e at (contains-clear_msb n k)))
    | no ne ↦ ground (arith, contains-clear_msb n k)
  ]
