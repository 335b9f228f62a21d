-- ===== src/Ddfs/History.antt =====
-- Histories of the blocks that files share: writes of blocks and their release, on the device with
-- the dedup table and on the map from keys to blocks.
pub mod Runs
pub mod Sizes
pub mod Tally
use embedded_operating_syste.Base.{ℕ, suc, ◌<◌, ◌≡◌, Option, none, some, List, [], ◌∷◌, Bytes}
use embedded_operating_syste.Kvfs.Kernel.{Kernel, IsByteArray, IsReliable}
use embedded_operating_syste.Ddfs.Table.{DedupFs, alloc_locks}
use embedded_operating_syste.Ddfs.Table.Alloc.{CanAlloc, alloc_store}
use embedded_operating_syste.Ddfs.Table.Store.{Store, Holds}
use embedded_operating_syste.Ddfs.Table.Unref.{unref_store}
use embedded_operating_syste.Ddfs.Write.{Dinode, ufs_ndaddr, ffs_blkfree, dedup_block}
use Tally.{occurrences, remove_one, IsTally}

-- The device, the allocator, the map, and the block of each user.
pub record State (K : Kernel) (Free : Type 0) : Type 0 where
  pub dev : K.Dev
  pub blocks : Free
  pub store : Store
  pub users : List ℕ

module _ {K : Kernel} (Free : Type 0) where
  -- After the write of a block that `dedup_block` made of block `lbn` of a file.
  abbrev pub written :
      State K Free → Bytes → ℕ → Dinode → Option (Dinode × K.Dev × Free) → State K Free
  written s key lbn dp none = s
  written s key lbn dp (some (dp', dev', blocks')) = record {
    dev = dev';
    blocks = blocks';
    store = (alloc_store s.store key (dp.di_db lbn) (s.store key)).1;
    users = dp'.di_db lbn ∷ s.users;
  }

  -- After a user of the block, the key of which has `n` users else, has released it.
  abbrev pub released : State K Free → Bytes → ℕ → ℕ → K.Dev × Free → State K Free
  released s key block n (dev', blocks') = record {
    dev = dev';
    blocks = blocks';
    store = unref_store s.store key block n;
    users = remove_one block s.users;
  }

module _ {K : Kernel} {byte : K.Dev → ℕ → ℕ} (A : IsByteArray K byte) (R : IsReliable K)
    (fs : DedupFs) (Free : Type 0) (free : Free → ℕ → Free) where
  -- A direct block that has no user yet, of a file, is written with content of a key that the table
  -- can take, and no buffer stays locked; or a user of a block releases it.
  pub data Step : State K Free → State K Free → Type 0 where
    write :
        (key : Bytes) (lbn junk : ℕ) (dp : Dinode) (s : State K Free)
        → ((i : ℕ) → i < 20 → key i < 256)
        → lbn < ufs_ndaddr
        → occurrences (dp.di_db lbn) s.users ≡ 0
        → CanAlloc A R fs s.dev s.store key (dp.di_db lbn) junk
        → alloc_locks K fs s.dev key ≡ none
        → Step s
            (written Free s key lbn dp (dedup_block K fs Free free key lbn junk dp s.dev s.blocks))
    release :
        (key : Bytes) (block n : ℕ) (s : State K Free)
        → s.store key ≡ some (block, suc n)
        → Step s (released Free s key block n (ffs_blkfree K fs Free free block s.dev s.blocks))

  pub data Reach (start : State K Free) : State K Free → Type 0 where
    here : Reach start start
    next : {s t : State K Free} → Reach start s → Step s t → Reach start t

  -- The device holds the map, in bytes, and the map counts the users.
  pub record IsTallied (s : State K Free) : Type 0 where
    pub small : (a : ℕ) → byte s.dev a < 256
    pub holds : Holds K fs s.dev s.store
    pub tally : IsTally s.store s.users
