-- ===== src/Kvfs/Store.antt =====
-- kvfs as what it promises to be: a map from keys of 20 bytes to files. The abstract state is a
-- function on keys; the lookup, the creation and the removal of kvfs_vnops.c are its reading and
-- its changes at one key.
pub mod Empty
pub mod History
pub mod Operations
pub mod Refines
pub mod Rename
use embedded_operating_syste.Base.{
  ℕ, ◌*◌, ◌<◌, ◌≡◌, ◌≢◌, true, false, Option, none, some, Bytes, if◌then◌else◌, memcmp,
}
use embedded_operating_syste.Kvfs.Layout.{sizeof_inode}
use embedded_operating_syste.Kvfs.Vnops.Lookup.{matches}

-- The inode number of the file of a key.
abbrev pub Store : Type 0
Store = Bytes → Option ℕ

-- `key` and the keys that are the same 20 bytes.
abbrev pub put : Store → Bytes → Option ℕ → Store
put store key value key' = if memcmp key' key 20 then value else store key'

-- A table of `count` inodes holds the file of a key in one slot, or in none.
pub data At (table : Bytes) (count : ℕ) (key : Bytes) : Option ℕ → Type 0 where
  here :
      (n : ℕ)
      → n < count
      → matches table key n ≡ true
      → ((m : ℕ) → m < count → m ≢ n → matches table key m ≡ false)
      → At table count key (some (n * sizeof_inode))
  nowhere : ((m : ℕ) → m < count → matches table key m ≡ false) → At table count key none

-- The table holds the files of the store, and no other.
abbrev pub Holds : Bytes → ℕ → Store → Type 0
Holds table count store = (key : Bytes) → At table count key (store key)
