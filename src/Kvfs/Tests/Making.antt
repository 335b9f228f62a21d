-- ===== src/Kvfs/Tests/Making.antt =====
-- A disk of 32 KiB that is formatted and mounted.
use embedded_operating_syste.Kvfs.Mkfs.Main.Formats.{laid_out}
use embedded_operating_syste.Kvfs.Store.{Holds}
use embedded_operating_syste.Kvfs.Store.Empty.{fresh_mount, kvfs_mount-IsFormatted}
use embedded_operating_syste.Kvfs.Tests.Ram.{ram, ram_array, ram_reliable}
use embedded_operating_syste.Kvfs.Vfsops.Mount.{MountCalls, kvfs_mount, all_held}
use embedded_operating_syste.Kvfs.Vnops.Create.{IsFreeSlot, table_of}
use embedded_operating_syste.Kvfs.Kernel.{Fs}
use embedded_operating_syste.Kvfs.Layout.{decode_superblock, sizeof_inode}
use embedded_operating_syste.Kvfs.Bytes.{le}
use embedded_operating_syste.Base.{List, ◌*◌, ◌<◌}
use embedded_operating_syste.Base.{
  ℕ, ◌+◌, ◌-◌, ◌≡◌, refl, true, false, ◌&&◌, none, some, [], ◌∷◌, ltb, leb, if◌then◌else◌, arith,
}
use embedded_operating_syste.Kvfs.Layout.{Superblock, kvfs_superblock_magic}
use embedded_operating_syste.Kvfs.Mkfs.{init_superblock}
use embedded_operating_syste.Kvfs.Mkfs.Main.{System, dash_f, exits, main, flags_loop, has_slash}
use embedded_operating_syste.Kvfs.Mkfs.Main.Formatted.{IsFormatted}
use embedded_operating_syste.Kvfs.Mkfs.Main.Formats.{CanFormat, Exits, main_run, main-IsFormatted}
use embedded_operating_syste.Kvfs.Mkfs.Main.Writes.{IsDisk}

-- A file is the bytes of the disk and the offset.
abbrev ram_system : System
ram_system = record {
  File = (ℕ → ℕ) × ℕ;
  open_rdwr = λ name. some (λ j. 0, 0);
  read = λ file n. (some file.0, (file.0, n));
  fgetc = b'n';
  rewind = λ file. (file.0, 0);
  sector_error = λ file. 0;
  media_error = λ file. 0;
  media_size = λ file. 32_768;
  write = λ file p n. (
    some n,
    (λ j. if leb file.1 j && ltb j (file.1 + n) then p (j - file.1) else file.0 j, file.1 + n),
  );
}

ram_system-IsDisk : IsDisk ram_system (λ file. file.0) (λ file. file.1) 32_768
ram_system-IsDisk = record {
  start = λ file. refl;
  block = λ file p at inside. refl;
  moved = λ file p at inside. refl;
  stored = λ file p at inside j. refl;
}

-- Five blocks, the bitmap in the second, the inodes in the third.
abbrev pub made : Superblock
made = record {
  magicnum = kvfs_superblock_magic;
  superblock_size = 48;
  freelist_off = 4096;
  inode_off = 8192;
  data_off = 12288;
  block_count = 5;
  flags = 0;
  fs_size = 32768;
}

pub init_superblock-made : init_superblock 32_768 ≡ some made
unfolding init_superblock
init_superblock-made = refl

-- /d
abbrev device : List ℕ
device = b'/' ∷ b'd' ∷ []

may_format :
    CanFormat ram_system {byte = λ file. file.0} {position = λ file. file.1} ram_system-IsDisk
      (λ i. 7)
      (dash_f device ∷ [])
      device
      (λ j. 0, 0)
      (λ j. 0)
may_format = record {
  named = unfold flags_loop has_slash in refl;
  opened = refl;
  checked = refl;
  consent = unfold decode_superblock le in refl;
  sector = refl;
  media = refl;
  media_size = refl;
}

pub made_disk :
    (file' : (ℕ → ℕ) × ℕ) × (main ram_system 3 (λ i. 7) (dash_f device ∷ []) ≡ exits 0 (some file'))
    × IsFormatted file'.0 made
made_disk =
    main_run ram_system ram_system-IsDisk (λ i. 7) 2 (dash_f device ∷ []) device (λ j. 0, 0)
      (λ j. 0) made may_format (omega arith) (omega arith) init_superblock-made refl

main-IsFormatted_example :
    Exits (λ file. IsFormatted file.0 made) (main ram_system 3 (λ i. 7) (dash_f device ∷ []))
main-IsFormatted_example =
    main-IsFormatted ram_system ram_system-IsDisk (λ i. 7) 2 (dash_f device ∷ []) device (λ j. 0, 0)
      (λ j. 0) made may_format (omega arith) (omega arith) init_superblock-made refl

-- The disk that is left.
abbrev pub formatted_disk : ℕ → ℕ
formatted_disk = made_disk.0.0

abbrev granted : MountCalls
granted = record {
  mnt_update = false;
  getopt_error = 0;
  namei_error = 0;
  is_disk = true;
  disk_error = 0;
  claimed = true;
  g_vfs_open_error = 0;
}

kvfs_mount-IsFormatted_example :
    (kvfs_mount ram granted formatted_disk ≡ (0, some (fresh_mount made), all_held))
    × ((n : ℕ) → n < 5 → IsFreeSlot (fresh_mount made) formatted_disk (n * sizeof_inode))
    × ((fs : Fs ram)
        → fs.dev ≡ formatted_disk
        → fs.mount ≡ fresh_mount made
        → Holds (table_of ram_array ram_reliable fs) fs.mount.block_count (λ key. none))
kvfs_mount-IsFormatted_example =
    kvfs_mount-IsFormatted ram_array ram_reliable 32_768 (omega arith) made
      (laid_out 32_768 made (omega arith) (omega arith) init_superblock-made) formatted_disk
      made_disk.2 granted
      (record {
        fresh = refl;
        options = refl;
        path = refl;
        disk = refl;
        claimed = refl;
        opened = refl;
      })
      (omega arith)
