-- ===== src/Kvfs/Store/History/Steps.antt =====
-- Every step of a history leads from a sound file system to a sound one.
use embedded_operating_syste.Base.{
  ℕ, ◌+◌, ◌-◌, ◌*◌, ◌%◌, ◌^◌, ◌<◌, ◌≡◌, refl, true, none, some, List, ◌∷◌, Bytes, eq→==, arith, ap,
  ◌∙◌, sym, subst,
}
use embedded_operating_syste.Codec.{hexdigit_kvfs, str_to_key}
use embedded_operating_syste.Codec.Values.{all_hex}
use embedded_operating_syste.Kvfs.Layout.{Memnode, Mount, Superblock, sizeof_inode}
use embedded_operating_syste.Kvfs.Kernel.{Kernel, Fs, IsByteArray, IsReliable}
use embedded_operating_syste.Kvfs.Mkfs.Layout.{IsLaidOut}
use embedded_operating_syste.Kvfs.Store.{Store, put, Holds}
use embedded_operating_syste.Kvfs.Store.History.{IsFreelist, IsSound, IsLoaded}
use embedded_operating_syste.Kvfs.Store.History.Places.{sound-IsFreeSlot, file_slot, sound-IsPlaced}
use embedded_operating_syste.Kvfs.Store.History.Slots.{kept-IsFreelist}
use embedded_operating_syste.Kvfs.Store.Refines.{key_of, kvfs_create-Holds, kvfs_remove-Holds}
use embedded_operating_syste.Kvfs.Time.{timespec_to_uint64}
use embedded_operating_syste.Kvfs.Vfsops.{allocate_inode}
use embedded_operating_syste.Kvfs.Vfsops.Load.{GivesVnode}
use embedded_operating_syste.Kvfs.Vfsops.Mount.Freelist.{contains}
use embedded_operating_syste.Kvfs.Vnops.{Componentname, kvfs_create, kvfs_remove}
use embedded_operating_syste.Kvfs.Vnops.Create.{inode_at, table_of, kvfs_create_new}
use embedded_operating_syste.Kvfs.Vnops.Create.Table.{CanCreate, created_elsewhere}
use embedded_operating_syste.Kvfs.Vnops.Remove.{kvfs_remove_lem}
use embedded_operating_syste.Kvfs.Vnops.Remove.Table.{removed_here, removed_elsewhere, empty-flag}

module _ {K : Kernel} {byte : K.Dev → ℕ → ℕ} (A : IsByteArray K byte) (R : IsReliable K)
    (disksize : ℕ) (small : disksize < 2 ^ 44) (sb : Superblock)
    (laid : IsLaidOut disksize sb) where
  -- A state with the same layout, and what it holds.
  pub layout_kept-IsSound :
      (fs fs' : Fs K) (store store' : Store) (mount : Mount)
      → IsSound A R sb fs store
      → fs'.mount ≡ mount
      → (mount.freelist_off ≡ fs.mount.freelist_off)
        × (mount.inode_off ≡ fs.mount.inode_off)
        × (mount.data_off ≡ fs.mount.data_off)
        × (mount.block_count ≡ fs.mount.block_count)
      → IsFreelist (byte fs'.dev) fs.mount.inode_off fs.mount.block_count mount.freelist
      → Holds (table_of A R fs') fs'.mount.block_count store'
      → IsSound A R sb fs' store'
  layout_kept-IsSound fs fs' store store' mount sound e (a, b, c, d) list holds = record {
    freelist_off = ap (λ m. m.freelist_off) e ∙ a ∙ sound.freelist_off;
    inode_off = ap (λ m. m.inode_off) e ∙ b ∙ sound.inode_off;
    data_off = ap (λ m. m.data_off) e ∙ c ∙ sound.data_off;
    block_count = ap (λ m. m.block_count) e ∙ d ∙ sound.block_count;
    freelist =
        subst (λ (m : Mount). IsFreelist (byte fs'.dev) m.inode_off m.block_count m.freelist)
          (sym e) (rw (b, d) list);
    holds = holds;
  }

  -- The vnode layer changes neither the device nor the mount.
  pub vnode_layer-IsSound :
      (fs fs' : Fs K) (store : Store)
      → fs'.dev ≡ fs.dev
      → fs'.mount ≡ fs.mount
      → IsSound A R sb fs store
      → IsSound A R sb fs' store
  vnode_layer-IsSound fs fs' store dev mount sound =
      layout_kept-IsSound fs fs' store store fs.mount sound mount (refl, refl, refl, refl)
        (rw dev sound.freelist) (rw (dev, mount) sound.holds)

  pub create-IsSound :
      {node : ℕ} {last : K.Vfs} {rest : List ℕ} (n : ℕ) (cnp : Componentname) (fs : Fs K)
      (store : Store)
      → fs.mount.freelist ≡ (n * sizeof_inode) ∷ rest
      → GivesVnode K fs.vfs (n * sizeof_inode) K.lk_exclusive node last
      → all_hex 40 0 cnp.cn_nameptr ≡ true
      → store (key_of cnp) ≡ none
      → IsSound A R sb fs store
      → IsSound A R sb (kvfs_create K cnp fs).2 (put store (key_of cnp) (some (n * sizeof_inode)))
  create-IsSound {node} {last} {rest} n cnp fs store head gives digits absent sound =
      let fs' = (kvfs_create K cnp fs).2 in
      let listed : contains (n * sizeof_inode) fs.mount.freelist ≡ true =
        rw (head, eq→== (n * sizeof_inode) (n * sizeof_inode) refl) refl in
      let (inside, slot) = sound-IsFreeSlot A R disksize small sb laid fs store sound n listed in
      let can : CanCreate A R n cnp fs last = record {
        node = node;
        rest = rest;
        head = head;
        inside = inside;
        gives = gives;
        slot = slot;
        valid = digits;
      } in
      let (_, _, mount, bytes) = kvfs_create_new A R cnp fs head gives slot digits in
      let list : IsFreelist (byte fs.dev) fs.mount.inode_off fs.mount.block_count
          ((n * sizeof_inode) ∷ rest) =
        rw head at (sound.freelist) in
      let inode =
        allocate_inode (inode_at (byte fs.dev) (fs.mount.inode_off + n * sizeof_inode))
          (str_to_key hexdigit_kvfs cnp.cn_nameptr).1 (timespec_to_uint64 (K.vfs_timestamp last)) in
      layout_kept-IsSound fs fs' store (put store (key_of cnp) (some (n * sizeof_inode)))
        (record (fs.mount) {
          freelist = rest;
          freelist_count = (fs.mount.freelist_count + 2 ^ 32 - 1) % 2 ^ 32;
        })
        sound mount (refl, refl, refl, refl)
        (kept-IsFreelist (byte fs.dev) (byte fs'.dev) fs.mount.inode_off fs.mount.block_count n rest
          (λ m i ne lt within.
            bytes (fs.mount.inode_off + (m * sizeof_inode + i))
            ∙ created_elsewhere fs.mount (byte fs.dev) n inode m i ne within slot.before_table)
          list.1 list.2)
        (kvfs_create-Holds A R n cnp fs store can absent sound.holds).1

  pub remove-IsSound :
      (vp : ℕ) (knode : Memnode) (key : Bytes) (fs : Fs K) (store : Store)
      → IsLoaded fs.mount knode
      → store key ≡ some knode.ino
      → IsSound A R sb fs store
      → IsSound A R sb (kvfs_remove K vp knode fs).1 (put store key none)
  remove-IsSound vp knode key fs store loaded present sound =
      let fs' = (kvfs_remove K vp knode fs).1 in
      let (n, at, inside, apart) =
        file_slot A R disksize small sb laid fs store sound key knode.ino present in
      let (placed, behind) =
        sound-IsPlaced A R disksize small sb laid fs store sound n knode at inside loaded in
      let (_, mount, bytes) = kvfs_remove_lem A R vp knode fs placed in
      let start = fs.mount.inode_off in
      let flag = empty-flag (byte fs'.dev) (start + knode.ino) (λ i lt.
        let here : start + knode.ino + i ≡ start + (n * sizeof_inode + i) = omega arith in
        rw here (
          bytes (start + (n * sizeof_inode + i))
          ∙ removed_here fs.mount (byte fs.dev) knode placed n at i lt)) in
      layout_kept-IsSound fs fs' store (put store key none)
        (record (fs.mount) {
          freelist = knode.ino ∷ fs.mount.freelist;
          freelist_count = (fs.mount.freelist_count + 1) % 2 ^ 32;
        })
        sound mount (refl, refl, refl, refl)
        (
          (n, at, inside, flag),
          rw at apart,
          kept-IsFreelist (byte fs.dev) (byte fs'.dev) start fs.mount.block_count n
              fs.mount.freelist
              (λ m i ne lt within.
                bytes (start + (m * sizeof_inode + i))
                ∙ removed_elsewhere fs.mount (byte fs.dev) knode placed n at m i ne within
                    (omega arith))
              apart sound.freelist,
        )
        (kvfs_remove-Holds A R vp knode fs n store key placed at inside behind (rw (← at) present)
          sound.holds).1
