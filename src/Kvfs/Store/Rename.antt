-- ===== src/Kvfs/Store/Rename.antt =====
-- `kvfs_rename` of kvfs_vnops.c as an operation on the abstract store.
use native.Mathlib.Decide.{ℕ_discrete}
use embedded_operating_syste.Base.{
  ℕ, ◌+◌, ◌-◌, ◌*◌, ◌≤◌, ◌<◌, ◌≡◌, ◌≢◌, refl, true, false, ◌&&◌, Option, none, some, Bytes,
  if◌then◌else◌, ◌==◌, ltb, leb, memcmp, arith, ap, ◌∙◌, sym, eq→==, ne→==, lt→ltb, le→ltb, lt→leb,
  le→leb, Bool-cases, inl, inr,
}
use embedded_operating_syste.Codec.{hexdigit_kvfs, str_to_key}
use embedded_operating_syste.Codec.Values.{all_hex, str_to_key_error}
use embedded_operating_syste.Kvfs.Kernel.{Kernel, Fs, IsByteArray, IsReliable}
use embedded_operating_syste.Kvfs.Layout.{Memnode, sizeof_inode, encode_inode, dev_bsize}
use embedded_operating_syste.Kvfs.Store.{Store, put, At, Holds}
use embedded_operating_syste.Kvfs.Store.Operations.{Holds-put, Holds-remove}
use embedded_operating_syste.Kvfs.Store.Refines.{key_of, kvfs_remove-Holds}
use embedded_operating_syste.Kvfs.Vnops.{
  Componentname, empty_inode, kvfs_remove, kvfs_rename, rename_out, rename_target, rename_write,
}
use embedded_operating_syste.Kvfs.Vnops.Create.{table_of}
use embedded_operating_syste.Kvfs.Vnops.Lookup.{matches, matches_ext}
use embedded_operating_syste.Kvfs.Vnops.Remove.{IsPlaced}
use embedded_operating_syste.Kvfs.Vnops.Remove.Table.{matches_empty, matches-kvfs_remove}
use embedded_operating_syste.Kvfs.Vnops.Rename.{IsFile, matches-rename_write}
use native.Mathlib.Decide.{dec_lt}
use embedded_operating_syste.Kvfs.Vnops.{memnode_update}
use embedded_operating_syste.Base.{subst}
use embedded_operating_syste.Base.{memcmp_refl}
use embedded_operating_syste.Kvfs.Vnops.{release_ino}

-- A table with a free inode in slot `n`.
abbrev emptied : Bytes → ℕ → Bytes
emptied table n i =
    if leb (n * sizeof_inode) i && ltb i (n * sizeof_inode + sizeof_inode)
    then encode_inode empty_inode (i - n * sizeof_inode)
    else table i

module _ (table : Bytes) (n : ℕ) where
  emptied_here : (key : Bytes) → matches (emptied table n) key n ≡ false
  emptied_here key = matches_empty (emptied table n) key n (λ i lt.
      let at : n * sizeof_inode + i - n * sizeof_inode ≡ i = omega arith in
      rw
        (
          le→leb (n * sizeof_inode) (n * sizeof_inode + i) (omega arith),
          lt→ltb (n * sizeof_inode + i) (n * sizeof_inode + sizeof_inode) (omega arith),
          at,
        )
        refl)

  emptied_elsewhere :
      (key : Bytes) (m : ℕ) → m ≢ n → matches (emptied table n) key m ≡ matches table key m
  emptied_elsewhere key m ne = matches_ext (emptied table n) table key m (λ i lt.
      elim (dec_lt m n) [
        | yes left ↦ rw (lt→leb (n * sizeof_inode) (m * sizeof_inode + i) (omega arith)) refl
        | no right ↦
            rw
              (
                le→leb (n * sizeof_inode) (m * sizeof_inode + i) (omega arith),
                le→ltb (m * sizeof_inode + i) (n * sizeof_inode + sizeof_inode) (omega arith),
              )
              refl
      ])

  emptied-matches :
      (key : Bytes) (m : ℕ)
      → matches (emptied table n) key m ≡ (if m == n then false else matches table key m)
  emptied-matches key m = elim (ℕ_discrete m n) [
    | yes e ↦ rw (e, eq→== n n refl) (emptied_here key)
    | no ne ↦ rw (ne→== m n ne) (emptied_elsewhere key m ne)
  ]

-- A change of the key of slot `n`: the file goes from one key of the store to another.
Holds-move :
    (table table' : Bytes) (count n : ℕ) (store : Store) (from to : Bytes)
    → n < count
    → Holds table count store
    → store from ≡ some (n * sizeof_inode)
    → put store from none to ≡ none
    → ((key' : Bytes) (m : ℕ)
        → m < count
        → matches table' key' m ≡ (if m == n then memcmp key' to 20 else matches table key' m))
    → Holds table' count (put (put store from none) to (some (n * sizeof_inode)))
Holds-move table table' count n store from to inside holds present absent slots =
    Holds-put (emptied table n) table' count n (put store from none) to inside
      (Holds-remove table (emptied table n) count n store from inside holds present
        (λ key' m lt. emptied-matches table n key' m))
      absent (emptied_here table n)
      (λ key' m lt. slots key' m lt ∙ elim (ℕ_discrete m n) [
        | yes e ↦ rw (eq→== m n e) refl
        | no ne ↦ rw (ne→== m n ne) (sym (emptied_elsewhere table n key' m ne))
      ])

-- A key that is put anew may have been taken out before.
pub put_again :
    (store : Store) (from to key : Bytes) (value : Option ℕ)
    → put (put (put store to none) from none) to value key ≡ put (put store from none) to value key
put_again store from to key value = elim (Bool-cases (memcmp key to 20)) [
  | inl same ↦ rw same refl
  | inr differs ↦ rw differs refl
]

put_absent : (store : Store) (from to : Bytes) → store to ≡ none → put store from none to ≡ none
put_absent store from to absent = elim (Bool-cases (memcmp to from 20)) [
  | inl same ↦ rw same refl
  | inr differs ↦ rw differs absent
]

-- The new name: no file has it, or another file has it, that stands where the layout has it.
pub data IsTarget {K : Kernel} (fs : Fs K) (store : Store) (from to : Bytes)
    : Option ℕ → Type 0 where
  free : store to ≡ none → IsTarget fs store from to none
  taken :
      (tvp : ℕ) (knode : Memnode) (m : ℕ)
      → (fs.vnodes tvp).v_data ≡ some knode
      → IsPlaced fs.mount knode
      → knode.ino ≡ m * sizeof_inode
      → m < fs.mount.block_count
      → fs.mount.inode_off + fs.mount.block_count * sizeof_inode ≤ knode.lbn * dev_bsize
      → store to ≡ some (m * sizeof_inode)
      → memcmp from to 20 ≡ false
      → IsTarget fs store from to (some tvp)

pub vnodes-kvfs_remove :
    (K : Kernel) (vp : ℕ) (knode : Memnode) (fs : Fs K)
    → (kvfs_remove K vp knode fs).1.vnodes ≡ fs.vnodes
unfolding kvfs_remove memnode_update release_ino
vnodes-kvfs_remove K vp knode fs = ground arith

module _ {K : Kernel} {byte : K.Dev → ℕ → ℕ} (A : IsByteArray K byte) (R : IsReliable K) where
  -- The state after `rename_target`, and the store that its table holds.
  abbrev pub IsReady :
      (fs : Fs K) (vp : ℕ) (knode : Memnode) (n : ℕ) (store : Store) (from to : Bytes) → Type 0
  IsReady fs vp knode n store from to =
      IsFile A R fs vp knode n
      × Holds (table_of A R fs) fs.mount.block_count store
      × (store from ≡ some (n * sizeof_inode))
      × (store to ≡ none)

  pub moved :
      (vp : ℕ) (knode : Memnode) (n : ℕ) (store : Store) (from to : Bytes) (fs : Fs K)
      → IsReady fs vp knode n store from to
      → let fs' = rename_write K vp to fs in
        Holds
          (table_of A R fs')
          fs'.mount.block_count
          (put (put store from none) to (some (n * sizeof_inode)))
  moved vp knode n store from to fs (file, holds, present, absent) =
      let (mount, slots) = matches-rename_write A R vp knode n to fs file in
      let count : (rename_write K vp to fs).mount.block_count ≡ fs.mount.block_count =
        ap (λ m. m.block_count) mount in
      subst
        (λ c.
          Holds (table_of A R (rename_write K vp to fs)) c
            (put (put store from none) to (some (n * sizeof_inode))))
        (sym count)
        (Holds-move (table_of A R fs) (table_of A R (rename_write K vp to fs)) fs.mount.block_count
          n store from to file.inside holds present (put_absent store from to absent) slots)

  -- The removal of the file of the new name leaves the other one as it was.
  cleared_target :
      (vp tvp : ℕ) (knode other : Memnode) (n m : ℕ) (store : Store) (from to : Bytes) (fs : Fs K)
      → IsFile A R fs vp knode n
      → store from ≡ some (n * sizeof_inode)
      → IsPlaced fs.mount other
      → other.ino ≡ m * sizeof_inode
      → m < fs.mount.block_count
      → fs.mount.inode_off + fs.mount.block_count * sizeof_inode ≤ other.lbn * dev_bsize
      → store to ≡ some (m * sizeof_inode)
      → memcmp from to 20 ≡ false
      → Holds (table_of A R fs) fs.mount.block_count store
      → IsReady (kvfs_remove K tvp other fs).1 vp knode n (put store to none) from to
  cleared_target vp tvp knode other n m store from to fs file present placed slot inside behind
        there differs holds =
      let fs' = (kvfs_remove K tvp other fs).1 in
      let (count, start, slots) =
        matches-kvfs_remove A R tvp other fs m placed slot inside behind in
      (
        record {
          memnode = rw (vnodes-kvfs_remove K tvp other fs) file.memnode;
          slot = file.slot;
          inside = rw count file.inside;
          aligned = rw start file.aligned;
          in_use = file.in_use;
        },
        (kvfs_remove-Holds A R tvp other fs m store to placed slot inside behind there holds).1,
        rw differs present,
        rw (memcmp_refl 20 to) refl,
      )

  ready :
      {tvp : Option ℕ} (vp : ℕ) (knode : Memnode) (n : ℕ) (store : Store) (from to : Bytes)
      (fs : Fs K)
      → IsFile A R fs vp knode n
      → store from ≡ some (n * sizeof_inode)
      → IsTarget fs store from to tvp
      → Holds (table_of A R fs) fs.mount.block_count store
      → (store' : Store) × IsReady (rename_target K tvp fs) vp knode n store' from to
        × ((key : Bytes) (value : Option ℕ)
            → put (put store' from none) to value key ≡ put (put store from none) to value key)
  unfolding rename_target
  ready vp knode n store from to fs file present (free absent) holds =
      (store, (file, holds, present, absent), λ key value. refl)
  ready vp knode n store from to fs file present
        (taken tvp other m at placed slot inside behind there differs) holds =
      (
        put store to none,
        rw (rename_target, at)
            (cleared_target vp tvp knode other n m store from to fs file present placed slot inside
              behind there differs holds),
        put_again store from to,
      )

  -- On a device that does not fail: where the table holds a store with slot `n` under a key, and
  -- the name is 40 hexadecimal digits of another key, that no file has or whose file stands where
  -- the layout has it, and the vnode can be locked, `kvfs_rename` returns 0, and the table then
  -- holds the store with slot `n` under the new key, and no longer under the old one.
  pub kvfs_rename-Holds :
      {tvp : Option ℕ} (fvp fdvp tdvp : ℕ) (tcnp : Componentname) (fs : Fs K) (knode : Memnode)
      (n : ℕ) (store : Store) (from : Bytes)
      → IsFile A R fs fvp knode n
      → store from ≡ some (n * sizeof_inode)
      → all_hex 40 0 tcnp.cn_nameptr ≡ true
      → IsTarget fs store from (key_of tcnp) tvp
      → (K.vn_lock (rename_target K tvp fs).vfs fvp).0 ≡ 0
      → Holds (table_of A R fs) fs.mount.block_count store
      → let (error, fs') = kvfs_rename K fvp fdvp tdvp tvp tcnp fs in
        (error ≡ 0)
        × Holds
            (table_of A R fs')
            fs'.mount.block_count
            (put (put store from none) (key_of tcnp) (some (n * sizeof_inode)))
  unfolding kvfs_rename rename_out
  kvfs_rename-Holds {tvp} fvp fdvp tdvp tcnp fs knode n store from file present digits target locked
        holds =
      let to = key_of tcnp in
      let no_error : (str_to_key hexdigit_kvfs tcnp.cn_nameptr).0 ≡ 0 =
        (str_to_key_error tcnp.cn_nameptr).0 ∙ rw digits refl in
      let fs₁ = rename_target K tvp fs in
      let (store', (file', holds', present', absent'), same) =
        ready fvp knode n store from to fs file present target holds in
      let fs₂ : Fs K = record fs₁ { vfs = (K.vn_lock fs₁.vfs fvp).1 } in
      let file₂ : IsFile A R fs₂ fvp knode n = record {
        memnode = file'.memnode;
        slot = file'.slot;
        inside = file'.inside;
        aligned = file'.aligned;
        in_use = file'.in_use;
      } in
      let done = moved fvp knode n store' from to fs₂ (file₂, holds', present', absent') in
      rw (kvfs_rename, no_error, locked)
        (
          refl,
          λ key.
              subst
                (At (table_of A R (rename_write K fvp to fs₂))
                  (rename_write K fvp to fs₂).mount.block_count key)
                (same key (some (n * sizeof_inode))) (done key),
        )
