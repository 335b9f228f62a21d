-- ===== src/Kvfs/Vnops/Remove.antt =====
-- What `kvfs_remove` does to the device and to the free list.
pub mod Table
use embedded_operating_syste.Base.{
  ℕ, ◌+◌, ◌-◌, ◌*◌, ◌/◌, ◌%◌, ◌^◌, ◌≤◌, ◌<◌, ◌≡◌, refl, ◌&&◌, ◌∷◌, Bytes, zeroes, memcpy, clear_bit,
  arith, if◌then◌else◌, ltb, leb, ◌==◌, ◌∙◌, ap, lt→leb,
}
use embedded_operating_syste.Kvfs.Kernel.{Kernel, Fs, IsByteArray, IsReliable}
use embedded_operating_syste.Kvfs.Kernel.Device.{byte_written, byte_read, region_written}
use embedded_operating_syste.Kvfs.Layout.{
  Inode, Memnode, Mount, encode_inode, btodb, dev_bsize, blocksize, sizeof_inode, ino_to_free_byte,
  ino_to_free_bit,
}
use embedded_operating_syste.Kvfs.Vnops.{memnode_update, empty_inode, release_ino, kvfs_remove}

-- The device after the removal: the bit of the inode is clear in the bitmap, the block is zero,
-- the inode is the free one, and nothing else changes.
abbrev pub removed : Mount → (ℕ → ℕ) → Memnode → ℕ → ℕ
removed mount bytes knode j =
    let loc = mount.inode_off + knode.ino in
    let block = knode.lbn * dev_bsize in
    let free_byte = ino_to_free_byte knode.ino mount.freelist_off in
    if j == free_byte
    then clear_bit (bytes free_byte) (ino_to_free_bit knode.ino)
    else if leb block j && ltb j (block + blocksize)
    then 0
    else if leb loc j && ltb j (loc + sizeof_inode)
    then encode_inode empty_inode (j - loc)
    else bytes j

-- Where the inode stands: in a slot of the table, with its bit before the table and its block
-- behind it, as `mkkvfs` lays the disk out.
pub record IsPlaced (mount : Mount) (knode : Memnode) : Type 0 where
  pub aligned : mount.inode_off % dev_bsize ≡ 0
  pub whole : knode.ino % sizeof_inode ≡ 0
  pub before_table : ino_to_free_byte knode.ino mount.freelist_off < mount.inode_off
  pub small : mount.inode_off ≤ 2 ^ 32
  pub behind_table : mount.inode_off + knode.ino + sizeof_inode ≤ knode.lbn * dev_bsize

module _ {K : Kernel} {byte : K.Dev → ℕ → ℕ} (A : IsByteArray K byte) (R : IsReliable K) where
  -- The inode, written to its place.
  pub memnode_update_bytes :
      (knode : Memnode) (inode : Inode) (fs : Fs K)
      → fs.mount.inode_off % dev_bsize ≡ 0
      → knode.ino % sizeof_inode ≡ 0
      → let fs' = (memnode_update K knode inode fs).1 in
        let loc = fs.mount.inode_off + knode.ino in
        (fs'.mount ≡ fs.mount)
        × ((j : ℕ)
            → byte fs'.dev j ≡ (
                if leb loc j && ltb j (loc + sizeof_inode)
                then encode_inode inode (j - loc)
                else byte fs.dev j))
  unfolding memnode_update
  memnode_update_bytes knode inode fs aligned whole =
      let loc = fs.mount.inode_off + knode.ino in
      let at : loc / 512 * 512 + knode.ino % 512 ≡ loc = omega arith in
      rw (R.bread_ok fs.dev (btodb loc) dev_bsize) (
        refl,
        λ j.
            region_written fs.dev (btodb loc) dev_bsize (knode.ino % dev_bsize) sizeof_inode
              (encode_inode inode) A R (omega arith) j
            ∙ rw at refl,
      )

  -- The block, written with zeroes.
  block_zeroed :
      (d : K.Dev) (lbn : ℕ) (b : Bytes) (j : ℕ)
      → byte (K.bwrite d lbn blocksize (memcpy b 0 zeroes blocksize)).1 j
        ≡ (if leb (lbn * dev_bsize) j && ltb j (lbn * dev_bsize + blocksize) then 0 else byte d j)
  unfolding memcpy
  block_zeroed d lbn b j =
      A.bwrite_data d lbn blocksize (memcpy b 0 zeroes blocksize) j
        (R.bwrite_ok d lbn blocksize (memcpy b 0 zeroes blocksize))
      ∙ ground arith

  -- The bit, cleared.
  release_ino_bytes :
      (ino : ℕ) (fs : Fs K)
      → ino_to_free_byte ino fs.mount.freelist_off < 2 ^ 32
      → let fs' = release_ino K ino fs in
        let fb = ino_to_free_byte ino fs.mount.freelist_off in
        (fs'.mount ≡ record (fs.mount) {
          freelist = ino ∷ fs.mount.freelist;
          freelist_count = (fs.mount.freelist_count + 1) % 2 ^ 32;
        })
        × ((j : ℕ)
            → byte fs'.dev j ≡ (
                if j == fb
                then clear_bit (byte fs.dev fb) (ino_to_free_bit ino)
                else byte fs.dev j))
  unfolding release_ino
  release_ino_bytes ino fs small =
      let fb = ino_to_free_byte ino fs.mount.freelist_off in
      let word : fb % 2 ^ 32 ≡ fb = omega arith in
      let old = (K.bread fs.dev (btodb fb) dev_bsize).1.b_data in
      let bit = ino_to_free_bit ino in
      rw (word, R.bread_ok fs.dev (btodb fb) dev_bsize)
        (
          refl,
          λ j.
              byte_written fs.dev fb (clear_bit (old (fb % dev_bsize)) bit) A R j
              ∙ ap (λ v. if j == fb then clear_bit v bit else byte fs.dev j)
                  (byte_read fs.dev fb A R),
        )

  -- On a device that does not fail, `kvfs_remove` of a file in its place returns 0. The slot goes
  -- to the head of the free list, its bit in the bitmap is cleared, its inode is marked free, its
  -- block is zeroed, and nothing else changes on the device.
  pub kvfs_remove_lem :
      (vp : ℕ) (knode : Memnode) (fs : Fs K)
      → IsPlaced fs.mount knode
      → let (error, fs') = kvfs_remove K vp knode fs in
        (error ≡ 0)
        × (fs'.mount ≡ record (fs.mount) {
          freelist = knode.ino ∷ fs.mount.freelist;
          freelist_count = (fs.mount.freelist_count + 1) % 2 ^ 32;
        })
        × ((j : ℕ) → byte fs'.dev j ≡ removed fs.mount (byte fs.dev) knode j)
  unfolding kvfs_remove
  kvfs_remove_lem vp knode fs placed =
      let fs₁ = (memnode_update K knode empty_inode fs).1 in
      let (mount₁, bytes₁) =
        memnode_update_bytes knode empty_inode fs placed.aligned placed.whole in
      let old = (K.getblk fs₁.dev knode.lbn blocksize).b_data in
      let dev = (K.bwrite fs₁.dev knode.lbn blocksize (memcpy old 0 zeroes blocksize)).1 in
      let off : fs₁.mount.freelist_off ≡ fs.mount.freelist_off = ap (λ m. m.freelist_off) mount₁ in
      let fb = ino_to_free_byte knode.ino fs.mount.freelist_off in
      let fb₁ = ino_to_free_byte knode.ino fs₁.mount.freelist_off in
      let same : fb₁ ≡ fb = omega arith in
      let (mount₂, bytes₂) = release_ino_bytes knode.ino (record fs₁ { dev = dev }) (omega arith) in
      let zeroed = block_zeroed fs₁.dev knode.lbn old in
      let before : byte dev fb ≡ byte fs.dev fb =
        rw
          (
            zeroed fb,
            lt→leb (knode.lbn * dev_bsize) fb (omega arith),
            bytes₁ fb,
            lt→leb (fs.mount.inode_off + knode.ino) fb (omega arith),
          )
          refl in
      rw (R.bread_ok dev (btodb (fb₁ % 2 ^ 32)) dev_bsize) (
        refl,
        mount₂
            ∙ ap
                (λ (m : Mount). record m {
                  freelist = knode.ino ∷ m.freelist;
                  freelist_count = (m.freelist_count + 1) % 2 ^ 32;
                })
                mount₁,
        λ j. bytes₂ j ∙ rw (same, before, zeroed j, bytes₁ j) refl,
      )
