-- ===== src/Kvfs/Store/History/Renames.antt =====
-- A rename leads from a sound file system to a sound one.
use embedded_operating_syste.Base.{
  ℕ, ◌+◌, ◌*◌, ◌^◌, ◌<◌, ◌≡◌, refl, true, false, Option, none, some, Bytes, has_bit, memcmp_refl,
  ap, ◌∙◌, subst,
}
use embedded_operating_syste.Codec.{hexdigit_kvfs, str_to_key}
use embedded_operating_syste.Codec.Values.{all_hex, str_to_key_error}
use embedded_operating_syste.Kvfs.Layout.{Memnode, Superblock, sizeof_inode, kvfs_inode_free}
use embedded_operating_syste.Kvfs.Kernel.{Kernel, Fs, IsByteArray, IsReliable}
use embedded_operating_syste.Kvfs.Mkfs.Layout.{IsLaidOut}
use embedded_operating_syste.Kvfs.Store.{Store, put, At, Holds}
use embedded_operating_syste.Kvfs.Store.History.{IsSound, IsTarget, free, taken}
use embedded_operating_syste.Kvfs.Store.History.Places.{spaced, file_slot}
use embedded_operating_syste.Kvfs.Store.History.Slots.{kept-IsFreelist}
use embedded_operating_syste.Kvfs.Store.History.Steps.{
  layout_kept-IsSound, vnode_layer-IsSound, remove-IsSound,
}
use embedded_operating_syste.Kvfs.Store.Refines.{key_of}
use embedded_operating_syste.Kvfs.Store.Rename.{moved, vnodes-kvfs_remove, put_again}
use embedded_operating_syste.Kvfs.Vnops.{
  Componentname, kvfs_rename, rename_target, rename_write, rename_out,
}
use embedded_operating_syste.Kvfs.Vnops.Create.{table_of}
use embedded_operating_syste.Kvfs.Vnops.Rename.{
  IsFile, renamed, written_elsewhere, bytes-rename_write, matches-rename_write,
}

module _ {K : Kernel} {byte : K.Dev → ℕ → ℕ} (A : IsByteArray K byte) (R : IsReliable K)
    (disksize : ℕ) (small : disksize < 2 ^ 44) (sb : Superblock) (laid : IsLaidOut disksize sb)
    (fvp : ℕ) (knode : Memnode) (from to : Bytes) where
  -- The new key, written where no file has it.
  write-IsSound :
      (fs : Fs K) (store : Store)
      → (fs.vnodes fvp).v_data ≡ some knode
      → has_bit knode.inode.flags kvfs_inode_free ≡ false
      → store from ≡ some knode.ino
      → store to ≡ none
      → IsSound A R sb fs store
      → IsSound A R sb (rename_write K fvp to fs) (put (put store from none) to (some knode.ino))
  write-IsSound fs store memnode in_use present absent sound =
      let fs' = rename_write K fvp to fs in
      let (n, at, inside, apart) =
        file_slot A R disksize small sb laid fs store sound from knode.ino present in
      let places = spaced A R disksize small sb laid fs store sound in
      let file : IsFile A R fs fvp knode n = record {
        memnode = memnode;
        slot = at;
        inside = inside;
        aligned = places.aligned;
        in_use = in_use;
      } in
      let (mount, slots) = matches-rename_write A R fvp knode n to fs file in
      let bytes = bytes-rename_write A R fvp knode n to fs file in
      let start = fs.mount.inode_off in
      let holds : Holds (table_of A R fs') fs'.mount.block_count
          (put (put store from none) to (some knode.ino)) =
        rw at (
          moved A R fvp knode n store from to fs
            (file, sound.holds, present ∙ ap some at, absent)) in
      layout_kept-IsSound A R disksize small sb laid fs fs' store
        (put (put store from none) to (some knode.ino)) fs.mount sound mount
        (refl, refl, refl, refl)
        (kept-IsFreelist (byte fs.dev) (byte fs'.dev) start fs.mount.block_count n fs.mount.freelist
          (λ m i ne lt within.
            bytes (start + (m * sizeof_inode + i))
            ∙ written_elsewhere (byte fs.dev) start n (renamed A R knode to) m i ne within)
          apart sound.freelist)
        holds

  -- The file of the new name, removed.
  target-IsSound :
      {tvp : Option ℕ} (fs : Fs K) (store : Store)
      → (fs.vnodes fvp).v_data ≡ some knode
      → store from ≡ some knode.ino
      → IsTarget fs store from to tvp
      → IsSound A R sb fs store
      → (store' : Store) × IsSound A R sb (rename_target K tvp fs) store'
        × (((rename_target K tvp fs).vnodes fvp).v_data ≡ some knode)
        × (store' from ≡ some knode.ino)
        × (store' to ≡ none)
        × ((key : Bytes) (value : Option ℕ)
            → put (put store' from none) to value key ≡ put (put store from none) to value key)
  unfolding rename_target
  target-IsSound fs store memnode present (free absent) sound =
      (store, sound, memnode, present, absent, λ key value. refl)
  target-IsSound fs store memnode present (taken tvp other at loaded there differs) sound = (
    put store to none,
    rw (rename_target, at)
        (remove-IsSound A R disksize small sb laid tvp other to fs store loaded there sound),
    rw (rename_target, at, vnodes-kvfs_remove K tvp other fs) memnode,
    rw differs present,
    rw (memcmp_refl 20 to) refl,
    put_again store from to,
  )

pub rename-IsSound :
    {K : Kernel} {byte : K.Dev → ℕ → ℕ} {tvp : Option ℕ} (A : IsByteArray K byte) (R : IsReliable K)
    (disksize : ℕ) (small : disksize < 2 ^ 44) (sb : Superblock) (laid : IsLaidOut disksize sb)
    (fvp fdvp tdvp : ℕ) (tcnp : Componentname) (knode : Memnode) (from : Bytes) (fs : Fs K)
    (store : Store)
    → (fs.vnodes fvp).v_data ≡ some knode
    → has_bit knode.inode.flags kvfs_inode_free ≡ false
    → store from ≡ some knode.ino
    → all_hex 40 0 tcnp.cn_nameptr ≡ true
    → IsTarget fs store from (key_of tcnp) tvp
    → (K.vn_lock (rename_target K tvp fs).vfs fvp).0 ≡ 0
    → IsSound A R sb fs store
    → IsSound A R sb
        (kvfs_rename K fvp fdvp tdvp tvp tcnp fs).1
        (put (put store from none) (key_of tcnp) (some knode.ino))
unfolding kvfs_rename rename_out
rename-IsSound {K} {byte} {tvp} A R disksize small sb laid fvp fdvp tdvp tcnp knode from fs store
      memnode in_use present digits target locked sound =
    let to = key_of tcnp in
    let no_error : (str_to_key hexdigit_kvfs tcnp.cn_nameptr).0 ≡ 0 =
      (str_to_key_error tcnp.cn_nameptr).0 ∙ rw digits refl in
    let fs₁ = rename_target K tvp fs in
    let (store', sound₁, memnode', present', absent', same) =
      target-IsSound A R disksize small sb laid fvp knode from to fs store memnode present target
        sound in
    let fs₂ : Fs K = record fs₁ { vfs = (K.vn_lock fs₁.vfs fvp).1 } in
    let fs₃ = rename_write K fvp to fs₂ in
    let sound₂ : IsSound A R sb fs₂ store' =
      vnode_layer-IsSound A R disksize small sb laid fs₁ fs₂ store' refl refl sound₁ in
    let sound₃ =
      write-IsSound A R disksize small sb laid fvp knode from to fs₂ store' memnode' in_use present'
        absent' sound₂ in
    let fs' = (kvfs_rename K fvp fdvp tdvp tvp tcnp fs).1 in
    let dev : fs'.dev ≡ fs₃.dev = rw (kvfs_rename, no_error, locked) refl in
    let mount : fs'.mount ≡ fs₃.mount = rw (kvfs_rename, no_error, locked) refl in
    let last =
      vnode_layer-IsSound A R disksize small sb laid fs₃ fs'
        (put (put store' from none) to (some knode.ino)) dev mount sound₃ in
    record {
      freelist_off = last.freelist_off;
      inode_off = last.inode_off;
      data_off = last.data_off;
      block_count = last.block_count;
      freelist = last.freelist;
      holds = λ key.
          subst (At (table_of A R fs') fs'.mount.block_count key) (same key (some knode.ino))
            (last.holds key);
    }
