-- ===== src/Kvfs/Store/History/Slots.antt =====
-- The slots of a sound file system: those on the free list, and those of the store's files.
use native.Mathlib.Decide.{ℕ_discrete}
use embedded_operating_syste.Base.{
  ℕ, ◌+◌, ◌*◌, ◌<◌, ◌≡◌, ◌≢◌, true, false, Option, some, List, [], ◌∷◌, Bytes, has_bit, arith,
  ne→==,
}
use embedded_operating_syste.Kvfs.Bytes.{le_ext}
use embedded_operating_syste.Kvfs.Layout.{decode_inode, kvfs_inode_free, sizeof_inode}
use embedded_operating_syste.Kvfs.Store.{At, here, nowhere}
use embedded_operating_syste.Kvfs.Store.History.{IsFreelist}
use embedded_operating_syste.Kvfs.Vfsops.Mount.Freelist.{contains}
use embedded_operating_syste.Kvfs.Vnops.Create.{inode_at}
use embedded_operating_syste.Kvfs.Vnops.Lookup.{matches}

-- The bytes of a slot are its flag.
flag_kept :
    (p q : ℕ → ℕ) (loc : ℕ)
    → ((i : ℕ) → i < sizeof_inode → p (loc + i) ≡ q (loc + i))
    → (inode_at p loc).flags ≡ (inode_at q loc).flags
unfolding decode_inode
flag_kept p q loc e = le_ext 2 _ _ 20 20 (λ k lt. e (20 + k) (omega arith))

-- Every slot but `n` has the bytes that it had.
abbrev pub IsElsewhere : (bytes bytes' : ℕ → ℕ) (start count n : ℕ) → Type 0
IsElsewhere bytes bytes' start count n =
    (m i : ℕ)
    → m ≢ n
    → m < count
    → i < sizeof_inode
    → bytes' (start + (m * sizeof_inode + i)) ≡ bytes (start + (m * sizeof_inode + i))

module _ (bytes bytes' : ℕ → ℕ) (start count n : ℕ) where
  pub kept-IsFreelist :
      (l : List ℕ)
      → IsElsewhere bytes bytes' start count n
      → contains (n * sizeof_inode) l ≡ false
      → IsFreelist bytes start count l
      → IsFreelist bytes' start count l
  kept-IsFreelist [] same apart h = tt
  kept-IsFreelist (ino ∷ rest) same apart ((m, at, inside, free), fresh, later) =
      let differs : m ≢ n = λ e. ground (arith, apart, at, e) in
      let flags : (inode_at bytes' (start + ino)).flags ≡ (inode_at bytes (start + ino)).flags =
        flag_kept bytes' bytes (start + ino) (λ i lt.
          let here : start + ino + i ≡ start + (m * sizeof_inode + i) = omega arith in
          rw here (same m i differs inside lt)) in
      (
        (m, at, inside, rw flags free),
        fresh,
        kept-IsFreelist rest same (ground (arith, apart)) later,
      )

  pub listed-IsFreelist :
      (l : List ℕ)
      → IsFreelist bytes start count l
      → contains (n * sizeof_inode) l ≡ true
      → (n < count)
        × (has_bit (inode_at bytes (start + n * sizeof_inode)).flags kvfs_inode_free ≡ true)
  listed-IsFreelist [] h listed = cc
  listed-IsFreelist (ino ∷ rest) ((m, at, inside, free), fresh, later) listed =
      elim (ℕ_discrete (n * sizeof_inode) ino) [
        | yes e ↦ (omega arith, rw e free)
        | no ne ↦
            listed-IsFreelist rest later (ground (arith, listed, ne→== (n * sizeof_inode) ino ne))
      ]

-- The slot of a file.
pub slot_of :
    (table : Bytes) (count : ℕ) (key : Bytes) (ino : ℕ) {value : Option ℕ}
    → At table count key value
    → value ≡ some ino
    → (n : ℕ) × (ino ≡ n * sizeof_inode) × (n < count) × (matches table key n ≡ true)
slot_of table count key ino (here n inside found others) e = (n, ground (arith, e), inside, found)
slot_of table count key ino (nowhere none_of) e = cc
