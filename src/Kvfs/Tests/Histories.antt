-- ===== src/Kvfs/Tests/Histories.antt =====
-- A history on the disk that mkkvfs has formatted: a file is made, and looked up.
use embedded_operating_syste.Base.{◌*◌, ◌≡◌, refl, none, some, arith, ◌==◌}
use embedded_operating_syste.Kvfs.Kernel.{Fs, vnon}
use embedded_operating_syste.Kvfs.Layout.{sizeof_inode}
use embedded_operating_syste.Kvfs.Mkfs.Layout.{IsLaidOut}
use embedded_operating_syste.Kvfs.Mkfs.Main.Formats.{laid_out}
use embedded_operating_syste.Kvfs.Store.{Store, put}
use embedded_operating_syste.Kvfs.Store.Empty.{fresh_mount}
use embedded_operating_syste.Kvfs.Store.History.{IsSound, Reach, here, next, create, vnode_layer}
use embedded_operating_syste.Kvfs.Store.History.Runs.{Reach-IsSound, Reach-kvfs_lookup}
use embedded_operating_syste.Kvfs.Store.Refines.{key_of, answer}
use embedded_operating_syste.Kvfs.Tests.Making.{
  made, made_disk, formatted_disk, init_superblock-made,
}
use embedded_operating_syste.Kvfs.Tests.Ram.{ram, ram_array, ram_reliable, cnp, name_valid}
use embedded_operating_syste.Kvfs.Vfsops.Load.{GivesVnode}
use embedded_operating_syste.Kvfs.Vnops.{kvfs_create, kvfs_lookup}

laid : IsLaidOut 32_768 made
laid = laid_out 32_768 made (omega arith) (omega arith) init_superblock-made

abbrev start : Fs ram
start = record {
  dev = formatted_disk;
  vfs = 7;
  mount = fresh_mount made;
  vnodes = λ v. record { v_data = none; vv_root = v == 3; v_type = vnon };
}

gives : GivesVnode ram 7 (4 * sizeof_inode) 1 7 8
gives = record {
  vfs₁ = 7;
  vfs₂ = 8;
  vfs₃ = 8;
  vfs₄ = 8;
  missed = refl;
  new = refl;
  locked = refl;
  queued = refl;
  hashed = refl;
}

abbrev empty : Store
empty key = none

history :
    Reach ram start empty
      (kvfs_create ram cnp start).2
      (put empty (key_of cnp) (some (4 * sizeof_inode)))
history = next here (create cnp start empty refl gives name_valid refl)

Reach-IsSound_example :
    IsSound ram_array ram_reliable made
      (kvfs_create ram cnp start).2
      (put empty (key_of cnp) (some (4 * sizeof_inode)))
Reach-IsSound_example =
    Reach-IsSound ram_array ram_reliable 32_768 (omega arith) made laid made_disk.2 refl history

-- Later the vnode layer has only the root again.
abbrev later : Fs ram
later = record start {
  dev = (kvfs_create ram cnp start).2.dev;
  mount = (kvfs_create ram cnp start).2.mount;
}

history_later : Reach ram start empty later (put empty (key_of cnp) (some (4 * sizeof_inode)))
history_later = next history (
    vnode_layer (kvfs_create ram cnp start).2 later
      (put empty (key_of cnp) (some (4 * sizeof_inode))) refl refl)

Reach-kvfs_lookup_example :
    kvfs_lookup ram 3 cnp later
    ≡ answer ram cnp later (put empty (key_of cnp) (some (4 * sizeof_inode)) (key_of cnp))
Reach-kvfs_lookup_example =
    Reach-kvfs_lookup ram_array ram_reliable 32_768 (omega arith) made laid 3 cnp made_disk.2 refl
      history_later refl (record { long = refl; digits = name_valid }) (omega arith)
