-- ===== src/Ddfs/Cluster.antt =====
-- deduplicating-fs/src/ddfs_subr.c: `ffs_clusteracct`, that keeps count of the runs of free
-- blocks. The kernel's macros `setbit` and `clrbit` are arguments. A mask `bit` is the number of
-- its bit, and a count is a 32-bit pattern.
pub mod Runs
use embedded_operating_syste.Base.{
  ℕ, zero, suc, ◌+◌, ◌-◌, ◌/◌, ◌%◌, ◌^◌, min, Bool, not, ◌&&◌, ltb, leb, ◌==◌, if◌then◌else◌, Bytes,
  update, has_bit,
}

-- The loop forward from `i`, with `n` blocks left: where it stops.
unfoldable pub forw_loop : Bytes → ℕ → ℕ → ℕ → ℕ → ℕ → ℕ
forw_loop freemapp zero i map bit mapp = i
forw_loop freemapp (suc n) i map bit mapp =
    let stay = forw_loop freemapp n (i + 1) map (bit + 1) mapp in
    let next = forw_loop freemapp n (i + 1) (freemapp mapp) 0 (mapp + 1) in
    if not (has_bit map bit) then i else if not (i % 8 == 7) then stay else next

-- The loop backward from `i`, with `n` blocks left: how many blocks it passes. The byte before
-- the map, which is read behind block 0, is not looked at.
unfoldable pub back_loop : Bytes → ℕ → ℕ → ℕ → ℕ → ℕ → ℕ
back_loop freemapp zero i map bit mapp = 0
back_loop freemapp (suc n) i map bit mapp =
    let stay = back_loop freemapp n (i - 1) map (bit - 1) mapp in
    let next = back_loop freemapp n (i - 1) (freemapp mapp) 7 (mapp - 1) in
    if not (has_bit map bit) then 0 else if not (i % 8 == 0) then suc stay else suc next

-- `forw`, for `end` blocks at most from `start` on
unfoldable pub cluster_forw : Bytes → ℕ → ℕ → ℕ
unfolding forw_loop
cluster_forw freemapp start end =
    forw_loop freemapp (end - start) start (freemapp (start / 8)) (start % 8) (start / 8 + 1)
    - start

-- `back`, from the block before `blkno` on, of `rounds` blocks
unfoldable pub cluster_back : Bytes → ℕ → ℕ → ℕ
unfolding back_loop
cluster_back freemapp zero rounds = 0
cluster_back freemapp (suc start) rounds =
    back_loop freemapp rounds start (freemapp (start / 8)) (start % 8) (start / 8 - 1)

-- The loop over the sums, from `i` down to the first that is above zero.
unfoldable pub max_loop : (ℕ → ℕ) → ℕ → ℕ
max_loop sump zero = 0
max_loop sump (suc i) =
    let rest = max_loop sump i in
    if ltb 0 (sump (suc i)) && ltb (sump (suc i)) (2 ^ 31) then suc i else rest

-- What the function reads and changes of `struct fs` and `struct cg`.
pub record Cluster : Type 0 where
  pub fs_contigsumsize : ℕ
  pub cg_nclusterblks : ℕ
  pub clustersfree : Bytes
  pub clustersum : ℕ → ℕ
  pub maxcluster : ℕ

-- `sump[i] += cnt` and `sump[i] -= cnt`, for a `cnt` of 1 if `free` and else -1
abbrev pub add_cnt : Bool → (ℕ → ℕ) → ℕ → ℕ → ℕ
add_cnt free sump i = update sump i ((sump i + (if free then 1 else 2 ^ 32 - 1)) % 2 ^ 32)

unfoldable pub ffs_clusteracct :
    (setbit clrbit : Bytes → ℕ → Bytes) → Cluster → ℕ → (free : Bool) → Cluster
unfolding cluster_forw cluster_back max_loop
ffs_clusteracct setbit clrbit c blkno free =
    let freemapp = if free then setbit c.clustersfree blkno else clrbit c.clustersfree blkno in
    let end = min (blkno + 1 + c.fs_contigsumsize) c.cg_nclusterblks in
    let forw = cluster_forw freemapp (blkno + 1) end in
    let back = cluster_back freemapp blkno (min c.fs_contigsumsize blkno) in
    let sump = add_cnt free c.clustersum (min (back + forw + 1) c.fs_contigsumsize) in
    let sump' = if ltb 0 back then add_cnt (not free) sump back else sump in
    let sump'' = if ltb 0 forw then add_cnt (not free) sump' forw else sump' in
    if c.fs_contigsumsize == 0 then c else record c {
      clustersfree = freemapp;
      clustersum = sump'';
      maxcluster = max_loop sump'' c.fs_contigsumsize;
    }
