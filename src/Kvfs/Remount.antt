-- ===== src/Kvfs/Remount.antt =====
-- The bitmap between `kvfs_create`, which sets the bit `ino / 32 % 8` of a byte, and the next
-- mount, which counts the bits from the top.
use embedded_operating_syste.Base.{
  ℕ, ◌+◌, ◌-◌, ◌*◌, ◌/◌, ◌%◌, ◌^◌, ◌≤◌, ◌<◌, ◌≡◌, refl, true, false, not, List, [], ◌∷◌, has_bit,
  set_bit, has_bit-set_bit_ne, arith, eq→==, ◌∙◌, lt→leb, lt→ltb,
}
use embedded_operating_syste.Codec.Values.{all_hex}
use embedded_operating_syste.Kvfs.Kernel.{Kernel, Fs, IsByteArray, IsReliable}
use embedded_operating_syste.Kvfs.Layout.{
  Mount, btodb, pad, dev_bsize, sizeof_inode, ino_to_free_byte, ino_to_free_bit,
}
use embedded_operating_syste.Kvfs.Vfsops.Load.{GivesVnode}
use embedded_operating_syste.Kvfs.Vfsops.Mount.{freelist_loop, freelist_bytes}
use embedded_operating_syste.Kvfs.Vfsops.Mount.Freelist.{
  contains, contains-clear_msb, freelist_loop-clear_msb,
}
use embedded_operating_syste.Kvfs.Vnops.{Componentname, kvfs_create}
use embedded_operating_syste.Kvfs.Vnops.Create.{IsFreeSlot, kvfs_create_new}

-- The free list that `kvfs_mount` reads from a device with this layout.
unfoldable pub remounted : (K : Kernel) → Mount → K.Dev → List ℕ
unfolding freelist_loop
remounted K mount dev =
    let count = freelist_bytes mount.block_count in
    (freelist_loop count 0 (K.bread dev (btodb mount.freelist_off) (pad count)).1.b_data
      mount.block_count (record { freelist = []; freelist_count = 0 })).freelist

module _ {K : Kernel} {byte : K.Dev → ℕ → ℕ} (A : IsByteArray K byte) (R : IsReliable K) where
  -- A mount finds inode `n` free exactly if bit `7 - n % 8` of its byte is clear.
  pub contains-remounted :
      (mount : Mount) (dev : K.Dev) (n : ℕ)
      → mount.freelist_off % dev_bsize ≡ 0
      → mount.block_count ≤ 2 ^ 31
      → n < mount.block_count
      → contains (n * sizeof_inode) (remounted K mount dev)
        ≡ not (has_bit (byte dev (mount.freelist_off + n / 8)) (7 - n % 8))
  unfolding remounted
  contains-remounted mount dev n aligned small inside =
      let count = freelist_bytes mount.block_count in
      let bits = (K.bread dev (btodb mount.freelist_off) (pad count)).1.b_data in
      let at : btodb mount.freelist_off * 512 + n / 8 ≡ mount.freelist_off + n / 8 = omega arith in
      rw ((freelist_loop-clear_msb bits mount.block_count small).0) (
        contains-clear_msb bits n mount.block_count
        ∙ rw
            (
              lt→ltb n mount.block_count inside,
              A.bread_data dev (btodb mount.freelist_off) (pad count) (n / 8)
                  (R.bread_ok dev (btodb mount.freelist_off) (pad count)) (omega arith),
              at,
            )
            refl)

  -- On a device that does not fail: when `kvfs_create` has made a file in the free slot `n`, and
  -- the bit that mirrors the slot's in its byte was clear before, the next mount finds slot `n`
  -- free.
  pub kvfs_create-remounted :
      {node : ℕ} {last : K.Vfs} {rest : List ℕ} (n : ℕ) (cnp : Componentname) (fs : Fs K)
      → fs.mount.freelist ≡ (n * sizeof_inode) ∷ rest
      → n < fs.mount.block_count
      → fs.mount.block_count ≤ 2 ^ 31
      → fs.mount.freelist_off % dev_bsize ≡ 0
      → GivesVnode K fs.vfs (n * sizeof_inode) K.lk_exclusive node last
      → IsFreeSlot fs.mount (byte fs.dev) (n * sizeof_inode)
      → all_hex 40 0 cnp.cn_nameptr ≡ true
      → has_bit (byte fs.dev (fs.mount.freelist_off + n / 8)) (7 - n % 8) ≡ false
      → contains (n * sizeof_inode) (remounted K fs.mount (kvfs_create K cnp fs).2.dev) ≡ true
  kvfs_create-remounted n cnp fs head inside small aligned gives slot valid clear =
      let fs' = (kvfs_create K cnp fs).2 in
      let (_, _, _, bytes) = kvfs_create_new A R cnp fs head gives slot valid in
      let fb = ino_to_free_byte (n * sizeof_inode) fs.mount.freelist_off in
      let at : fb ≡ fs.mount.freelist_off + n / 8 = omega arith in
      let bit : ino_to_free_bit (n * sizeof_inode) ≡ n % 8 = omega arith in
      let before = slot.before_table in
      let written : byte fs'.dev (fs.mount.freelist_off + n / 8)
          ≡ set_bit (byte fs.dev (fs.mount.freelist_off + n / 8)) (n % 8) =
        rw
          (
            bytes (fs.mount.freelist_off + n / 8),
            lt→leb (fs.mount.inode_off + n * sizeof_inode) (fs.mount.freelist_off + n / 8)
                (omega arith),
            at,
            eq→== (fs.mount.freelist_off + n / 8) (fs.mount.freelist_off + n / 8) refl,
            bit,
          )
          refl in
      rw
        (
          contains-remounted fs.mount fs'.dev n aligned small inside,
          written,
          has_bit-set_bit_ne (byte fs.dev (fs.mount.freelist_off + n / 8)) (n % 8) (7 - n % 8)
              (omega arith),
          clear,
        )
        refl
