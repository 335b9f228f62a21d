-- ===== src/Ddfs/History/Runs.antt =====
-- Whole histories of writes and releases.
use embedded_operating_syste.Base.{
  ℕ, zero, suc, ◌+◌, ◌<◌, ◌≡◌, refl, true, Option, none, some, [], ◌∷◌, Bytes, update_self,
  if◌then◌else◌, ◌==◌, memcmp, arith, ap, ◌∙◌, sym, eq→==, ne→==,
}
use embedded_operating_syste.Kvfs.Kernel.{Kernel, IsByteArray, IsReliable}
use embedded_operating_syste.Ddfs.History.{
  State, written, released, Step, write, release, Reach, here, next, IsTallied,
}
use embedded_operating_syste.Ddfs.History.Sizes.{
  blkfree-IsSmall, WriteSmall, dedup_block-WriteSmall,
}
use embedded_operating_syste.Ddfs.History.Tally.{
  IsTally, occurrences, remove_one, occurrences-remove_one, occurrences-remove_other, put-IsTally,
  gone-IsTally,
}
use embedded_operating_syste.Ddfs.Table.{DedupFs}
use embedded_operating_syste.Ddfs.Table.Entries.{IsLaidOut}
use embedded_operating_syste.Ddfs.Table.Store.{
  Store, put, At, here, Holds, At-found, At-missing, is_live_same,
}
use embedded_operating_syste.Ddfs.Table.Unref.{unref_store, block_of}
use embedded_operating_syste.Ddfs.Write.{Dinode, ffs_blkfree}
use embedded_operating_syste.Ddfs.Write.Refines.{
  IsUnknown, Frees, last, kept, ffs_blkfree-Frees, Deduplicates, shared, stored,
  dedup_block-Deduplicates,
}

module _ (K : Kernel) (fs : DedupFs) (dev : K.Dev) where
  -- Equal keys have one value.
  At-same :
      (key key' : Bytes) {value value' : Option (ℕ × ℕ)}
      → memcmp key' key 20 ≡ true
      → At K fs dev key value
      → At K fs dev key' value'
      → value' ≡ value
  At-same key key' same (At.here i k place found others) at' =
      (At-found K fs dev key' i k place (is_live_same K fs dev i k key key' same ∙ found) at').0
  At-same key key' same (At.nowhere none_of) at' =
      At-missing K fs dev key'
        (λ i k place. is_live_same K fs dev i k key key' same ∙ none_of i k place) at'

module _ {K : Kernel} {byte : K.Dev → ℕ → ℕ} (A : IsByteArray K byte) (R : IsReliable K)
    (fs : DedupFs) (laid : IsLaidOut fs) (Free : Type 0) (free : Free → ℕ → Free) where
  module _ (s : State K Free) (sound : IsTallied A R fs Free free s) where
    same_value : (key key' : Bytes) → memcmp key' key 20 ≡ true → s.store key' ≡ s.store key
    same_value key key' same = At-same K fs s.dev key key' same (sound.holds key) (sound.holds key')

    -- The block of a key is that of no other.
    theirs :
        (key : Bytes) (block count : ℕ)
        → s.store key ≡ some (block, count)
        → (key' : Bytes) (b c : ℕ) → memcmp key' key 20 ≡ true
        → s.store key' ≡ some (b, c)
        → b ≡ block
    theirs key block count e key' b c same e' = ap block_of (sym e' ∙ same_value key key' same ∙ e)

    unused : (block : ℕ) → occurrences block s.users ≡ 0 → IsUnknown s.store block
    unused block none_of key count e =
        let (number, more) = sound.tally.counted key block count e in
        absurd (omega (arith, number, more, none_of))

    released-IsTally :
        (key : Bytes) (block n : ℕ)
        → s.store key ≡ some (block, suc n)
        → IsTally (unref_store s.store key block n) (remove_one block s.users)
    released-IsTally key block zero present =
        let (number, more) = sound.tally.counted key block 1 present in
        gone-IsTally s.store s.users (remove_one block s.users) key block sound.tally
          (λ b ne. occurrences-remove_other block b s.users ne)
          (λ key' c e. sound.tally.apart key key' block 1 c present e) (theirs key block 1 present)
          (occurrences-remove_one block s.users ∙ omega (arith, number))
    released-IsTally key block (suc m) present =
        let (number, more) = sound.tally.counted key block (suc (suc m)) present in
        put-IsTally s.store s.users (remove_one block s.users) key block sound.tally
          (λ b ne. occurrences-remove_other block b s.users ne)
          (λ key' c e. sound.tally.apart key key' block (suc (suc m)) c present e)
          (theirs key block (suc (suc m)) present) (suc m)
          (occurrences-remove_one block s.users ∙ omega (arith, number)) (omega arith)

    released-IsTallied :
        (key : Bytes) (block n : ℕ) {r : K.Dev × Free}
        → s.store key ≡ some (block, suc n)
        → ((a : ℕ) → byte r.0 a < 256)
        → Frees A R fs Free free s.dev s.store laid sound.small sound.holds s.blocks block n
            (unref_store s.store key block n)
            r
        → IsTallied A R fs Free free (released Free s key block n r)
    released-IsTallied key block n present small (last dev' e holds) = record {
      small = small;
      holds = holds;
      tally = released-IsTally key block n present;
    }
    released-IsTallied key block n present small (kept dev' e holds) = record {
      small = small;
      holds = holds;
      tally = released-IsTally key block n present;
    }

    -- One more user of a block.
    joined-IsTally :
        (key : Bytes) (block count : ℕ)
        → occurrences block s.users ≡ count
        → ((key' : Bytes) (c : ℕ) → s.store key' ≡ some (block, c) → memcmp key' key 20 ≡ true)
        → ((key' : Bytes) (b c : ℕ)
            → memcmp key' key 20 ≡ true
            → s.store key' ≡ some (b, c)
            → b ≡ block)
        → IsTally (put s.store key (some (block, count + 1))) (block ∷ s.users)
    joined-IsTally key block count number mine others =
        put-IsTally s.store s.users (block ∷ s.users) key block sound.tally
          (λ b ne. rw (ne→== b block ne) refl) mine others (count + 1)
          (rw (eq→== block block refl) (omega (arith, number))) (omega arith)

    written-IsTallied :
        (key : Bytes) (lbn : ℕ) (dp : Dinode) {r : Option (Dinode × K.Dev × Free)}
        → occurrences (dp.di_db lbn) s.users ≡ 0
        → WriteSmall A R fs Free free r
        → Deduplicates A R fs Free free s.dev s.store laid sound.small sound.holds s.blocks key lbn
            dp r
        → IsTallied A R fs Free free (written Free s key lbn dp r)
    written-IsTallied key lbn dp fresh small (shared block count dev' e holds) =
        let (number, more) = sound.tally.counted key block count e in
        rw (e, update_self dp.di_db lbn block)
          (record {
            small = small;
            holds = holds;
            tally =
                joined-IsTally key block count (sym number)
                  (λ key' c e'. sound.tally.apart key key' block count c e e')
                  (theirs key block count e);
          })
    written-IsTallied key lbn dp fresh small (stored dev' e holds) = rw e (record {
      small = small;
      holds = holds;
      tally =
          joined-IsTally key (dp.di_db lbn) 0 fresh
            (λ key' c e'. absurd (unused (dp.di_db lbn) fresh key' c e'))
            (λ key' b c same e'. let wrong = sym e' ∙ same_value key key' same ∙ e in cc);
    })

  Step-IsTallied :
      {s t : State K Free}
      → Step A R fs Free free s t
      → IsTallied A R fs Free free s
      → IsTallied A R fs Free free t
  Step-IsTallied (write key lbn junk dp s keys inside fresh can unlocked) = λ sound.
      written-IsTallied s sound key lbn dp fresh
        (dedup_block-WriteSmall A R fs Free free key lbn junk dp s.dev s.blocks sound.small keys
          inside)
        (dedup_block-Deduplicates A R fs Free free s.dev s.store laid sound.small sound.holds
          s.blocks key lbn junk dp inside can (unused s sound (dp.di_db lbn) fresh) unlocked)
  Step-IsTallied (release key block n s present) = λ sound.
      released-IsTallied s sound key block n present
        (blkfree-IsSmall A R fs Free free block s.dev s.blocks sound.small)
        (ffs_blkfree-Frees A R fs Free free s.dev s.store laid sound.small sound.holds s.blocks key
          block n present (λ key' c e. sound.tally.apart key key' block (suc n) c present e))

  -- On a device that does not fail, whose table's blocks do not overlap, from a device of bytes
  -- whose table is empty, without users: after any steps that are releases of a block by a user,
  -- or writes to a direct block of a file that has no user at the time, where the table can take
  -- the key and `ddtable_alloc` leaves no buffer locked, the device is bytes and its table holds
  -- exactly the keys of the map that the same steps make, in which each key has one block of its
  -- own, counted with as many users as it has.
  pub Reach-IsTallied :
      {start s : State K Free}
      → ((a : ℕ) → byte start.dev a < 256)
      → Holds K fs start.dev (λ key. none)
      → start.store ≡ (λ key. none)
      → start.users ≡ []
      → Reach A R fs Free free start s
      → IsTallied A R fs Free free s
  Reach-IsTallied {start} small empty blank alone here = record {
    small = small;
    holds = rw blank empty;
    tally =
        rw (blank, alone)
          (record {
            counted = λ key block count e. cc;
            known = λ block some_user. absurd (omega arith);
            apart = λ key key' block count count' e e'. cc;
          });
  }
  Reach-IsTallied small empty blank alone (next before step) =
      Step-IsTallied step (Reach-IsTallied small empty blank alone before)

  freed_last :
      {dev : K.Dev} {store : Store} {small : (a : ℕ) → byte dev a < 256}
      {holds : Holds K fs dev store} {blocks : Free} {block n : ℕ} {expected : Store}
      {r : K.Dev × Free}
      → Frees A R fs Free free dev store laid small holds blocks block n expected r
      → r.1 ≡ (if n == 0 then free blocks block else blocks)
  freed_last {n} (last dev' e holds) = rw e refl
  freed_last {n} (kept dev' ne holds) = rw (ne→== n 0 ne) refl

  -- On a device that does not fail, whose table's blocks do not overlap, from a device of bytes
  -- whose table is empty, without users: after any steps that are releases of a block by a user,
  -- or writes to a direct block of a file that has no user at the time, where the table can take
  -- the key and `ddtable_alloc` leaves no buffer locked, `ffs_blkfree` of a block with `n` + 1
  -- users frees the block in the FFS if `n` is 0, and leaves the FFS as it is while there are
  -- users left.
  pub Reach-ffs_blkfree :
      {start s : State K Free} (block n : ℕ)
      → ((a : ℕ) → byte start.dev a < 256)
      → Holds K fs start.dev (λ key. none)
      → start.store ≡ (λ key. none)
      → start.users ≡ []
      → Reach A R fs Free free start s
      → occurrences block s.users ≡ suc n
      → (ffs_blkfree K fs Free free block s.dev s.blocks).1
        ≡ (if n == 0 then free s.blocks block else s.blocks)
  Reach-ffs_blkfree {s} block n small empty blank alone history users =
      let sound = Reach-IsTallied small empty blank alone history in
      let (key, e) = sound.tally.known block (omega (arith, users)) in
      let present : s.store key ≡ some (block, suc n) = e ∙ ap (λ c. some (block, c)) users in
      freed_last (
        ffs_blkfree-Frees A R fs Free free s.dev s.store laid sound.small sound.holds s.blocks key
          block n present (λ key' c e'. sound.tally.apart key key' block (suc n) c present e'))
