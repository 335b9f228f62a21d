-- ===== src/Ddfs/Cluster/Runs.antt =====
-- The runs of free blocks that `ffs_clusteracct` measures, byte by byte, as runs of bits.
use embedded_operating_syste.Base.{
  ℕ, zero, suc, ◌+◌, ◌-◌, ◌/◌, ◌%◌, ◌≤◌, ◌<◌, ◌≡◌, refl, Bool, if◌then◌else◌, Bytes, has_bit, arith,
  ◌∙◌, ap, Bool-cases, inl, inr, eq→==, ne→==,
}
use native.Mathlib.Decide.{ℕ_discrete}
use embedded_operating_syste.Ddfs.Cluster.{forw_loop, back_loop, cluster_forw, cluster_back}

module _ (freemapp : Bytes) where
  -- Block `i` is free.
  abbrev pub is_set : ℕ → Bool
  is_set i = has_bit (freemapp (i / 8)) (i % 8)

  -- The free blocks from `i` on, and from `i - 1` down, of `n`.
  abbrev pub run_up : ℕ → ℕ → ℕ
  run_up zero i = 0
  run_up (suc n) i = let rest = run_up n (i + 1) in if is_set i then suc rest else 0

  abbrev pub run_down : ℕ → ℕ → ℕ
  run_down zero i = 0
  run_down (suc n) i = let rest = run_down n (i - 1) in if is_set (i - 1) then suc rest else 0

  forw_loop-run_up :
      (n i : ℕ) → forw_loop freemapp n i (freemapp (i / 8)) (i % 8) (i / 8 + 1) ≡ i + run_up n i
  unfolding forw_loop
  forw_loop-run_up zero i = omega arith
  forw_loop-run_up (suc n) i = elim (Bool-cases (is_set i)) [
    | inr clear ↦ rw clear (omega arith)
    | inl free ↦ elim (ℕ_discrete (i % 8) 7) [
      | yes last ↦
          let byte : (i + 1) / 8 ≡ i / 8 + 1 = omega arith in
          let bit : (i + 1) % 8 ≡ 0 = omega arith in
          let rest = rw (byte, bit) at (forw_loop-run_up n (i + 1)) in
          rw (free, eq→== (i % 8) 7 last) (omega (arith, rest))
      | no inside ↦
          let byte : (i + 1) / 8 ≡ i / 8 = omega arith in
          let bit : (i + 1) % 8 ≡ i % 8 + 1 = omega arith in
          let rest = rw (byte, bit) at (forw_loop-run_up n (i + 1)) in
          rw (free, ne→== (i % 8) 7 inside) (omega (arith, rest))
    ]
  ]

  -- A step backward, with blocks before.
  back_step :
      (n i : ℕ)
      → 0 < i
      → back_loop freemapp (suc n) i (freemapp (i / 8)) (i % 8) (i / 8 - 1) ≡ (
          if is_set i
          then suc (
              back_loop freemapp n (i - 1) (freemapp ((i - 1) / 8)) ((i - 1) % 8) ((i - 1) / 8 - 1))
          else 0)
  unfolding back_loop
  back_step n i pos = elim (ℕ_discrete (i % 8) 0) [
    | yes first ↦
        let byte : (i - 1) / 8 ≡ i / 8 - 1 = omega arith in
        let bit : (i - 1) % 8 ≡ 7 = omega arith in
        rw (byte, bit, eq→== (i % 8) 0 first) (ground arith)
    | no inside ↦
        let byte : (i - 1) / 8 ≡ i / 8 = omega arith in
        let bit : (i - 1) % 8 ≡ i % 8 - 1 = omega arith in
        rw (byte, bit, ne→== (i % 8) 0 inside) (ground arith)
  ]

  back_last :
      (i : ℕ)
      → back_loop freemapp 1 i (freemapp (i / 8)) (i % 8) (i / 8 - 1) ≡ (if is_set i then 1 else 0)
  unfolding back_loop
  back_last i = ground arith

  back_none : (i : ℕ) → back_loop freemapp 0 i (freemapp (i / 8)) (i % 8) (i / 8 - 1) ≡ 0
  unfolding back_loop
  back_none i = refl

  -- Backward, `i` is the block that is looked at, so that the loop has at most `i + 1` blocks.
  back_loop-run_down :
      (n i : ℕ)
      → n ≤ i + 1
      → back_loop freemapp n i (freemapp (i / 8)) (i % 8) (i / 8 - 1) ≡ run_down n (i + 1)
  back_loop-run_down zero i inside = back_none i
  back_loop-run_down (suc zero) i inside =
      let here : i + 1 - 1 ≡ i = omega arith in rw here (back_last i)
  back_loop-run_down (suc (suc n)) i inside =
      let here : i + 1 - 1 ≡ i = omega arith in
      let before : i - 1 + 1 ≡ i = omega arith in
      let later = rw before at (back_loop-run_down (suc n) (i - 1) (omega arith)) in
      rw here (back_step (suc n) i (omega arith) ∙ ap (λ r. if is_set i then suc r else 0) later)

-- The walks of `ffs_clusteracct` over the bytes of the map measure the runs of free blocks: from
-- `start` on up to `end`, and before `blkno` for at most the number of blocks that there are.
pub cluster-run :
    (freemapp : Bytes) (start end blkno rounds : ℕ)
    → rounds ≤ blkno
    → (cluster_forw freemapp start end ≡ run_up freemapp (end - start) start)
      × (cluster_back freemapp blkno rounds ≡ run_down freemapp rounds blkno)
unfolding cluster_forw cluster_back
cluster-run freemapp start end zero zero h =
    (omega (arith, forw_loop-run_up freemapp (end - start) start), refl)
cluster-run freemapp start end zero (suc rounds) h = absurd (omega arith)
cluster-run freemapp start end (suc blkno) rounds h = (
  omega (arith, forw_loop-run_up freemapp (end - start) start),
  let at : blkno + 1 ≡ suc blkno = omega arith in
      rw at at (back_loop-run_down freemapp rounds blkno (omega arith)),
)
