-- ===== src/Kvfs/Tests/Stores.antt =====
-- The operations of kvfs on the abstract store at concrete inputs: the empty file system in
-- memory, a file made in its slot 15, looked up and removed.
use embedded_operating_syste.Codec.{str_to_key, str_to_key_loop, hexdigit_kvfs}
use embedded_operating_syste.Base.{update}
use embedded_operating_syste.Base.{
  ℕ, ◌*◌, ◌<◌, ◌≡◌, refl, false, none, some, Bytes, arith, memcmp_refl, has_bit,
}
use embedded_operating_syste.Kvfs.Bytes.{le}
use embedded_operating_syste.Kvfs.Kernel.{Fs}
use embedded_operating_syste.Kvfs.Layout.{Memnode, sizeof_inode, decode_inode}
use embedded_operating_syste.Kvfs.Store.{Store, put, nowhere, Holds}
use embedded_operating_syste.Kvfs.Store.Refines.{
  IsName, key_of, answer, kvfs_lookup-Holds, kvfs_create-Holds, kvfs_remove-Holds,
}
use embedded_operating_syste.Kvfs.Tests.Ram.{
  ram, ram_array, ram_reliable, mount, fs, cnp, name_valid, gives, slot,
}
use embedded_operating_syste.Kvfs.Vnops.{kvfs_lookup, kvfs_create, kvfs_remove}
use embedded_operating_syste.Kvfs.Vnops.Create.{table_of, kvfs_create_new}
use embedded_operating_syste.Kvfs.Vnops.Create.Table.{CanCreate}
use embedded_operating_syste.Kvfs.Vnops.Lookup.{matches}
use embedded_operating_syste.Kvfs.Vnops.Remove.{IsPlaced}
use embedded_operating_syste.Base.{◌∷◌}
use embedded_operating_syste.Base.{[]}
use embedded_operating_syste.Kvfs.Store.Rename.{free, kvfs_rename-Holds}
use embedded_operating_syste.Kvfs.Vnops.Rename.{IsFile}
use embedded_operating_syste.Kvfs.Kernel.{vreg}
use embedded_operating_syste.Kvfs.Vnops.{Componentname, kvfs_rename}
use embedded_operating_syste.Base.{memcmp}
use embedded_operating_syste.Base.{all_below}

abbrev empty : Store
empty key = none

all_free :
    (key : Bytes) (m : ℕ) → m < 16 → matches (table_of ram_array ram_reliable fs) key m ≡ false
unfolding decode_inode le has_bit
all_free key m lt = ground arith

empty-Holds : Holds (table_of ram_array ram_reliable fs) 16 empty
empty-Holds key = nowhere (all_free key)

named : IsName cnp
named = record { long = refl; digits = name_valid }

can_create : CanCreate ram_array ram_reliable 15 cnp fs 8
can_create = record {
  node = 7;
  rest = (14 * sizeof_inode) ∷ [];
  head = refl;
  inside = omega arith;
  gives = gives;
  slot = slot;
  valid = name_valid;
}

kvfs_create-Holds_example :
    let (error, vpp, fs') = kvfs_create ram cnp fs in
    (error ≡ 0)
    × Holds
        (table_of ram_array ram_reliable fs')
        fs'.mount.block_count
        (put empty (key_of cnp) (some (15 * sizeof_inode)))
kvfs_create-Holds_example =
    kvfs_create-Holds ram_array ram_reliable 15 cnp fs empty can_create refl empty-Holds

kvfs_lookup-Holds_example : kvfs_lookup ram 3 cnp fs ≡ answer ram cnp fs none
kvfs_lookup-Holds_example =
    kvfs_lookup-Holds ram_array ram_reliable 3 cnp fs empty refl named (omega arith) empty-Holds

-- The file system after the creation, and the store that it holds.
abbrev made : Fs ram
made = (kvfs_create ram cnp fs).2

abbrev one_file : Store
one_file = put empty (key_of cnp) (some (15 * sizeof_inode))

abbrev knode : Memnode
knode = record {
  inode = record { key = key_of cnp; flags = 16; ref_count = 1; timestamp = 1_600_000_000_000 };
  ino = 15 * sizeof_inode;
  lbn = 144;
}

one_file-Holds : Holds (table_of ram_array ram_reliable made) made.mount.block_count one_file
one_file-Holds =
    (kvfs_create-Holds ram_array ram_reliable 15 cnp fs empty can_create refl empty-Holds).1

made_mount : made.mount ≡ record mount { freelist = (14 * sizeof_inode) ∷ []; freelist_count = 1 }
made_mount = (kvfs_create_new ram_array ram_reliable cnp fs refl gives slot name_valid).2

placed : IsPlaced made.mount knode
placed = rw made_mount (record {
  aligned = refl;
  whole = refl;
  before_table = omega arith;
  small = omega arith;
  behind_table = omega arith;
})

kvfs_remove-Holds_example :
    let (error, fs') = kvfs_remove ram 7 knode made in
    (error ≡ 0)
    × Holds
        (table_of ram_array ram_reliable fs')
        fs'.mount.block_count
        (put one_file (key_of cnp) none)
kvfs_remove-Holds_example =
    kvfs_remove-Holds ram_array ram_reliable 7 knode made 15 one_file (key_of cnp) placed refl
      (rw made_mount (omega arith)) (rw made_mount (omega arith))
      (rw (memcmp_refl 20 (key_of cnp)) refl) one_file-Holds

-- The vnode 7 of the file, and another name for it.
abbrev held : Fs ram
held = record made { vnodes = λ v. record { v_data = some knode; vv_root = false; v_type = vreg } }

abbrev other_name : Componentname
other_name = record cnp { cn_nameptr = λ i. b'8' }

held-IsFile : IsFile ram_array ram_reliable held 7 knode 15
held-IsFile =
    let file : IsFile ram_array ram_reliable
        (record held {
          mount = record mount { freelist = (14 * sizeof_inode) ∷ []; freelist_count = 1 };
        })
        7 knode 15 =
      record {
        memnode = refl;
        slot = refl;
        inside = omega arith;
        aligned = refl;
        in_use = unfold has_bit in refl;
      } in
    rw made_mount file

unused : one_file (key_of other_name) ≡ none
unfolding memcmp all_below str_to_key str_to_key_loop update hexdigit_kvfs
unused = refl

kvfs_rename-Holds_example :
    let (error, fs') = kvfs_rename ram 7 3 3 none other_name held in
    (error ≡ 0)
    × Holds
        (table_of ram_array ram_reliable fs')
        fs'.mount.block_count
        (put (put one_file (key_of cnp) none) (key_of other_name) (some (15 * sizeof_inode)))
kvfs_rename-Holds_example =
    kvfs_rename-Holds ram_array ram_reliable 7 3 3 other_name held knode 15 one_file (key_of cnp)
      held-IsFile (rw (memcmp_refl 20 (key_of cnp)) refl) refl (free unused) refl one_file-Holds
