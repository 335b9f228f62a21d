-- ===== src/Kvfs/Store/History/Runs.antt =====
-- Whole histories, from the disk that mkkvfs leaves.
use embedded_operating_syste.Base.{
  ℕ, zero, suc, ◌+◌, ◌*◌, ◌^◌, ◌≤◌, ◌<◌, ◌≡◌, refl, true, false, none, some, List, ◌∷◌, ne→==,
  has_bit, arith, ap, ◌∙◌, sym, subst,
}
use embedded_operating_syste.Kvfs.Kernel.{Kernel, Fs, IsByteArray, IsReliable}
use embedded_operating_syste.Kvfs.Layout.{Superblock, Mount, sizeof_inode, pad, kvfs_inode_free}
use embedded_operating_syste.Kvfs.Mkfs.Layout.{IsLaidOut}
use embedded_operating_syste.Kvfs.Mkfs.Main.Formatted.{IsFormatted}
use embedded_operating_syste.Kvfs.Store.{Store, put}
use embedded_operating_syste.Kvfs.Store.Empty.{
  all_slots, fresh_mount, fresh-IsFreeSlot, fresh-Holds,
}
use embedded_operating_syste.Kvfs.Store.History.{
  IsFreelist, IsSound, Step, create, remove, rename, vnode_layer, Reach, here, next,
}
use embedded_operating_syste.Kvfs.Store.History.Renames.{rename-IsSound}
use embedded_operating_syste.Kvfs.Store.History.Steps.{
  create-IsSound, remove-IsSound, vnode_layer-IsSound,
}
use embedded_operating_syste.Kvfs.Store.Refines.{IsName, key_of, answer, kvfs_lookup-Holds}
use embedded_operating_syste.Kvfs.Vfsops.Mount.Freelist.{contains}
use embedded_operating_syste.Kvfs.Vfsops.Load.{GivesVnode}
use embedded_operating_syste.Kvfs.Vnops.{Componentname, kvfs_lookup}
use embedded_operating_syste.Kvfs.Vnops.Create.{inode_at}
use embedded_operating_syste.Codec.Values.{all_hex}
use embedded_operating_syste.Kvfs.Vnops.{kvfs_create}

contains-all_slots : (m k : ℕ) → k ≤ m → contains (m * sizeof_inode) (all_slots k) ≡ false
contains-all_slots m zero le = refl
contains-all_slots m (suc k) le =
    rw
      (
        ne→== (m * sizeof_inode) (k * sizeof_inode) (omega arith),
        contains-all_slots m k (omega arith),
      )
      refl

all_slots-IsFreelist :
    (bytes : ℕ → ℕ) (start count k : ℕ)
    → k ≤ count
    → ((n : ℕ)
        → n < count
        → has_bit (inode_at bytes (start + n * sizeof_inode)).flags kvfs_inode_free ≡ true)
    → IsFreelist bytes start count (all_slots k)
all_slots-IsFreelist bytes start count zero le flags = tt
all_slots-IsFreelist bytes start count (suc k) le flags = (
  (k, refl, omega arith, flags k (omega arith)),
  contains-all_slots k k (omega arith),
  all_slots-IsFreelist bytes start count k (omega arith) flags,
)

module _ {K : Kernel} {byte : K.Dev → ℕ → ℕ} (A : IsByteArray K byte) (R : IsReliable K)
    (disksize : ℕ) (small : disksize < 2 ^ 44) (sb : Superblock)
    (laid : IsLaidOut disksize sb) where
  fresh-IsSound :
      (fs : Fs K)
      → IsFormatted (byte fs.dev) sb
      → fs.mount ≡ fresh_mount sb
      → IsSound A R sb fs (λ key. none)
  fresh-IsSound fs formatted mounted = record {
    freelist_off = ap (λ m. m.freelist_off) mounted;
    inode_off = ap (λ m. m.inode_off) mounted;
    data_off = ap (λ m. m.data_off) mounted;
    block_count = ap (λ m. m.block_count) mounted;
    freelist =
        subst (λ (m : Mount). IsFreelist (byte fs.dev) m.inode_off m.block_count m.freelist)
          (sym mounted)
          (all_slots-IsFreelist (byte fs.dev) sb.inode_off sb.block_count sb.block_count
            (omega arith)
            (λ n inside.
              (fresh-IsFreeSlot A R disksize small sb laid fs.dev formatted n inside).free));
    holds = fresh-Holds A R disksize small sb laid fs.dev formatted fs refl mounted;
  }

  create_step :
      {ino node : ℕ} {last : K.Vfs} {rest : List ℕ} (cnp : Componentname) (fs : Fs K)
      (store : Store)
      → fs.mount.freelist ≡ ino ∷ rest
      → GivesVnode K fs.vfs ino K.lk_exclusive node last
      → all_hex 40 0 cnp.cn_nameptr ≡ true
      → store (key_of cnp) ≡ none
      → IsSound A R sb fs store
      → IsSound A R sb (kvfs_create K cnp fs).2 (put store (key_of cnp) (some ino))
  create_step {ino} {node} {last} {rest} cnp fs store head gives digits absent sound =
      let list : IsFreelist (byte fs.dev) fs.mount.inode_off fs.mount.block_count (ino ∷ rest) =
        rw head at (sound.freelist) in
      let at : ino ≡ list.0.0 * sizeof_inode = list.0.1 in
      let gives' : GivesVnode K fs.vfs (list.0.0 * sizeof_inode) K.lk_exclusive node last =
        subst (λ i. GivesVnode K fs.vfs i K.lk_exclusive node last) at gives in
      subst (λ i. IsSound A R sb (kvfs_create K cnp fs).2 (put store (key_of cnp) (some i)))
        (sym at)
        (create-IsSound A R disksize small sb laid list.0.0 cnp fs store
          (head ∙ ap (λ i. i ∷ rest) at) gives' digits absent sound)

  Step-IsSound :
      {fs fs' : Fs K} {store store' : Store}
      → Step K fs store fs' store'
      → IsSound A R sb fs store
      → IsSound A R sb fs' store'
  Step-IsSound (create cnp fs store head gives digits absent) =
      create_step cnp fs store head gives digits absent
  Step-IsSound (remove vp knode key fs store loaded present) =
      remove-IsSound A R disksize small sb laid vp knode key fs store loaded present
  Step-IsSound
        (rename fvp fdvp tdvp tcnp knode from fs store memnode in_use present digits target
          locked) =
      rename-IsSound A R disksize small sb laid fvp fdvp tdvp tcnp knode from fs store memnode
        in_use present digits target locked
  Step-IsSound (vnode_layer fs fs' store dev mount) =
      vnode_layer-IsSound A R disksize small sb laid fs fs' store dev mount

  -- On a device that does not fail, from a new file system that is mounted, every history of
  -- creations, removals and renames leads to a file system whose table holds exactly the files of
  -- the store that the same history makes of the empty one, and whose free list is different
  -- slots of the table that are marked free.
  pub Reach-IsSound :
      {start fs : Fs K} {store : Store}
      → IsFormatted (byte start.dev) sb
      → start.mount ≡ fresh_mount sb
      → Reach K start (λ key. none) fs store
      → IsSound A R sb fs store
  Reach-IsSound {start} formatted mounted here = fresh-IsSound start formatted mounted
  Reach-IsSound formatted mounted (next before step) =
      Step-IsSound step (Reach-IsSound formatted mounted before)

  -- On a device that does not fail, from a new file system that is mounted, whose inode table has
  -- less than 2 ^ 31 bytes: after every history of creations, removals and renames, at the root
  -- and for a name of 40 hexadecimal digits, `kvfs_lookup` answers what the store that the same
  -- history makes of the empty one holds for the key of the name.
  pub Reach-kvfs_lookup :
      {start fs : Fs K} {store : Store} (vdp : ℕ) (cnp : Componentname)
      → IsFormatted (byte start.dev) sb
      → start.mount ≡ fresh_mount sb
      → Reach K start (λ key. none) fs store
      → (fs.vnodes vdp).vv_root ≡ true
      → IsName cnp
      → pad (sb.block_count * sizeof_inode) < 2 ^ 31
      → kvfs_lookup K vdp cnp fs ≡ answer K cnp fs (store (key_of cnp))
  Reach-kvfs_lookup {fs} {store} vdp cnp formatted mounted history root named small =
      let sound = Reach-IsSound formatted mounted history in
      kvfs_lookup-Holds A R vdp cnp fs store root named (rw (sound.block_count) small) sound.holds
