-- ===== src/Kvfs/Vnops/Rename.antt =====
-- What `kvfs_rename` does to the inode table.
use native.Mathlib.Decide.{dec_lt, ℕ_discrete}
use embedded_operating_syste.Base.{
  ℕ, ◌+◌, ◌-◌, ◌*◌, ◌%◌, ◌<◌, ◌≡◌, ◌≢◌, refl, false, ◌&&◌, some, Bytes, offset, memcpy, memcmp,
  memcmp_ext, has_bit, arith, if◌then◌else◌, ltb, leb, ◌==◌, eq→==, ne→==, ◌∙◌, sym, lt→leb, le→leb,
  lt→ltb, le→ltb,
}
use embedded_operating_syste.Kvfs.Kernel.{Kernel, Fs, IsByteArray, IsReliable}
use embedded_operating_syste.Kvfs.Layout.{
  Inode, Memnode, encode_inode, decode_inode, kvfs_inode_free, dev_bsize, sizeof_inode,
}
use embedded_operating_syste.Kvfs.Vfsops.{set_vnode}
use embedded_operating_syste.Kvfs.Vnops.{memnode_update, rename_write}
use embedded_operating_syste.Kvfs.Vnops.Create.{flag_of_bytes, table_of, table_byte}
use embedded_operating_syste.Kvfs.Vnops.Lookup.{matches, matches_ext}
use embedded_operating_syste.Kvfs.Vnops.Remove.{memnode_update_bytes}

-- An inode in use matches its key, and no other, wherever its 32 bytes stand.
matches_encoded :
    (inode : Inode) (table key key' : Bytes) (n : ℕ)
    → has_bit inode.flags kvfs_inode_free ≡ false
    → ((i : ℕ) → i < 20 → inode.key i ≡ key i)
    → ((i : ℕ) → i < sizeof_inode → table (n * sizeof_inode + i) ≡ encode_inode inode i)
    → matches table key' n ≡ memcmp key' key 20
unfolding decode_inode encode_inode
matches_encoded inode table key key' n in_use same e =
    rw
      (
        flag_of_bytes (offset table (n * sizeof_inode)) inode.flags (e 20 (omega arith))
            (e 21 (omega arith)),
        in_use,
      )
      (memcmp_ext 20 key' (offset table (n * sizeof_inode)) key
        (λ i lt. e i (omega arith) ∙ rw (lt→ltb i 20 lt) (same i lt)))

memcpy_start : (p q : Bytes) (i : ℕ) → i < 20 → memcpy p 0 q 20 i ≡ q i
unfolding memcpy
memcpy_start p q i lt =
    let same : i - 0 ≡ i = omega arith in
    rw (le→leb 0 i (omega arith), lt→ltb i (0 + 20) lt, same) refl

-- The bytes of the table after slot `n` alone is written.
module _ (bytes : ℕ → ℕ) (start n : ℕ) (inode : Inode) where
  abbrev pub written : ℕ → ℕ
  written j =
      if leb (start + n * sizeof_inode) j && ltb j (start + n * sizeof_inode + sizeof_inode)
      then encode_inode inode (j - (start + n * sizeof_inode))
      else bytes j

  pub written_here :
      (i : ℕ) → i < sizeof_inode → written (start + (n * sizeof_inode + i)) ≡ encode_inode inode i
  written_here i lt =
      let j = start + (n * sizeof_inode + i) in
      let at : j - (start + n * sizeof_inode) ≡ i = omega arith in
      rw
        (
          le→leb (start + n * sizeof_inode) j (omega arith),
          lt→ltb j (start + n * sizeof_inode + sizeof_inode) (omega arith),
          at,
        )
        refl

  pub written_elsewhere :
      (m i : ℕ)
      → m ≢ n
      → i < sizeof_inode
      → written (start + (m * sizeof_inode + i)) ≡ bytes (start + (m * sizeof_inode + i))
  written_elsewhere m i ne lt =
      let j = start + (m * sizeof_inode + i) in
      elim (dec_lt m n) [
        | yes left ↦ rw (lt→leb (start + n * sizeof_inode) j (omega arith)) refl
        | no right ↦
            rw
              (
                le→leb (start + n * sizeof_inode) j (omega arith),
                le→ltb j (start + n * sizeof_inode + sizeof_inode) (omega arith),
              )
              refl
      ]

module _ {K : Kernel} {byte : K.Dev → ℕ → ℕ} (A : IsByteArray K byte) (R : IsReliable K) where
  -- The memnode of a file in slot `n`, as the table has it.
  pub record IsFile (fs : Fs K) (vp : ℕ) (knode : Memnode) (n : ℕ) : Type 0 where
    pub memnode : (fs.vnodes vp).v_data ≡ some knode
    pub slot : knode.ino ≡ n * sizeof_inode
    pub inside : n < fs.mount.block_count
    pub aligned : fs.mount.inode_off % dev_bsize ≡ 0
    pub in_use : has_bit knode.inode.flags kvfs_inode_free ≡ false

  -- The mount stays, and afterwards slot `n` matches the key of the inode that is written, and
  -- every other slot matches what it did.
  matches-memnode_update :
      (knode : Memnode) (inode : Inode) (n : ℕ) (key : Bytes) (fs fs' : Fs K)
      → knode.ino ≡ n * sizeof_inode
      → n < fs.mount.block_count
      → fs.mount.inode_off % dev_bsize ≡ 0
      → has_bit inode.flags kvfs_inode_free ≡ false
      → ((i : ℕ) → i < 20 → inode.key i ≡ key i)
      → fs'.mount ≡ (memnode_update K knode inode fs).1.mount
      → fs'.dev ≡ (memnode_update K knode inode fs).1.dev
      → (fs'.mount ≡ fs.mount)
        × ((key' : Bytes) (m : ℕ)
            → m < fs.mount.block_count
            → matches (table_of A R fs') key' m
              ≡ (if m == n then memcmp key' key 20 else matches (table_of A R fs) key' m))
  matches-memnode_update knode inode n key fs fs' slot inside aligned in_use same mount' dev' =
      let (kept, bytes) = memnode_update_bytes A R knode inode fs aligned (omega arith) in
      let mount : fs'.mount ≡ fs.mount = mount' ∙ kept in
      let table' : (m i : ℕ)
          → m < fs.mount.block_count
          → i < sizeof_inode
          → table_of A R fs' (m * sizeof_inode + i)
            ≡ written (byte fs.dev) fs.mount.inode_off n inode
                (fs.mount.inode_off + (m * sizeof_inode + i)) =
        λ m i lt small.
          table_byte A R fs' m i (rw mount aligned) (rw mount lt) small
          ∙ rw (mount, dev', ← slot) (bytes (fs.mount.inode_off + (m * sizeof_inode + i))) in
      (
        mount,
        λ key' m lt. elim (ℕ_discrete m n) [
          | yes e ↦
              rw (e, eq→== n n refl)
                (matches_encoded inode (table_of A R fs') key key' n in_use same (λ i small.
                  table' n i inside small
                  ∙ written_here (byte fs.dev) fs.mount.inode_off n inode i small))
          | no ne ↦ rw (ne→== m n ne) (
              matches_ext (table_of A R fs') (table_of A R fs) key' m (λ i small.
                table' m i lt small
                ∙ written_elsewhere (byte fs.dev) fs.mount.inode_off n inode m i ne small
                ∙ sym (table_byte A R fs m i aligned lt small)))
        ],
      )

  -- The mount stays, and afterwards slot `n` matches the new key, and every other slot matches
  -- what it did.
  pub matches-rename_write :
      (vp : ℕ) (knode : Memnode) (n : ℕ) (key : Bytes) (fs : Fs K)
      → IsFile fs vp knode n
      → let fs' = rename_write K vp key fs in
        (fs'.mount ≡ fs.mount)
        × ((key' : Bytes) (m : ℕ)
            → m < fs.mount.block_count
            → matches (table_of A R fs') key' m
              ≡ (if m == n then memcmp key' key 20 else matches (table_of A R fs) key' m))
  unfolding rename_write
  matches-rename_write vp knode n key fs file =
      let inode : Inode = record (knode.inode) { key = memcpy knode.inode.key 0 key 20 } in
      let vnodes =
        set_vnode fs.vnodes vp
          (record (fs.vnodes vp) { v_data = some (record knode { inode = inode }) }) in
      let new : (i : ℕ) → i < 20 → inode.key i ≡ key i =
        λ i lt. memcpy_start knode.inode.key key i lt in
      matches-memnode_update knode inode n key (record fs { vnodes = vnodes })
        (rename_write K vp key fs) file.slot file.inside file.aligned file.in_use new
        (rw (rename_write, file.memnode) refl) (rw (rename_write, file.memnode) refl)

  -- The inode with the new key.
  abbrev pub renamed : Memnode → Bytes → Inode
  renamed knode key = record (knode.inode) { key = memcpy knode.inode.key 0 key 20 }

  -- The bytes that the rename leaves.
  pub bytes-rename_write :
      (vp : ℕ) (knode : Memnode) (n : ℕ) (key : Bytes) (fs : Fs K)
      → IsFile fs vp knode n
      → (j : ℕ)
      → byte (rename_write K vp key fs).dev j
        ≡ written (byte fs.dev) fs.mount.inode_off n (renamed knode key) j
  unfolding rename_write
  bytes-rename_write vp knode n key fs file j =
      let vnodes =
        set_vnode fs.vnodes vp
          (record (fs.vnodes vp) { v_data = some (record knode { inode = renamed knode key }) }) in
      let (kept, bytes) =
        memnode_update_bytes A R knode (renamed knode key) (record fs { vnodes = vnodes })
          file.aligned (omega (arith, file.slot)) in
      rw (rename_write, file.memnode, ← file.slot) (bytes j)
